-- ===== src/Host/Programs/Apart.antt =====
-- A program that is started finds nothing that the last one has left.
use jvmos_jit.Base.{
  ℕ, ◌≤◌, ◌≡◌, refl, Bool, true, Bool-cases, inl, inr, Option, none, some, arith, ltb,
}
use mathlib.Core.Path.{fun_ext}
use jvmos_jit.Wasm.Reader.{Bytes}
use jvmos_jit.Wasm.Module.{WasmModule, HostEntry, Outcome, ok, fail, wild}
use jvmos_jit.Wasm.Load.{cleared, wasm_load}
use jvmos_jit.Host.Programs.{Bridge, g_mem_size, zeroed, use_module, loaded_as}

zeroed-same : (f g : ℕ → ℕ) → ((i : ℕ) → g_mem_size ≤ i → f i ≡ g i) → zeroed f ≡ zeroed g
zeroed-same f g h = fun_ext λ i. elim (Bool-cases (ltb i g_mem_size)) [
  | inl below ↦ rw below refl
  | inr above ↦ rw above (h i (ground (arith, above)))
]

-- The state as another module has left it.
abbrev pub left_behind :
    {U : Type 0} → Bridge U → WasmModule U → (loaded : Bool) → (failed : ℕ) → Bridge U
left_behind s old loaded failed = record s { module_state = old; loaded = loaded; failed = failed }

-- Starting a module gives the same answer and the same state, memory, globals, stacks and the host
-- functions' state included, whatever module ran before and whatever that one has left in its
-- memory and its tables, as long as the two states agree in the bytes behind the memory, the
-- loader's buffer with its flag, and the host functions' state once the waiting keys are dropped.
pub use_module-apart :
    {U : Type 0} (hosts : ℕ → HostEntry U) (nhosts : ℕ) (drop_keys : U → U) (bytes : Bytes)
    (len : ℕ) (from_disk : Bool) (s : Bridge U) (old : WasmModule U) (loaded : Bool) (failed : ℕ)
    → drop_keys old.user ≡ drop_keys s.module_state.user
    → ((i : ℕ) → g_mem_size ≤ i → old.mem i ≡ s.module_state.mem i)
    → use_module hosts nhosts drop_keys bytes len from_disk (left_behind s old loaded failed)
      ≡ use_module hosts nhosts drop_keys bytes len from_disk s
unfolding use_module
use_module-apart {U} hosts nhosts drop_keys bytes len from_disk s old loaded failed same behind =
    rw (same, zeroed-same old.mem s.module_state.mem behind)
      (forget (
        wasm_load bytes 0 len (
          cleared true (zeroed s.module_state.mem) g_mem_size hosts nhosts
            (drop_keys s.module_state.user))))
  where
    forget :
        (o : Option (Outcome U (Unit {0})))
        → loaded_as hosts nhosts drop_keys from_disk (left_behind s old loaded failed) o
          ≡ loaded_as hosts nhosts drop_keys from_disk s o
    forget (some (ok u m)) = refl
    forget (some (fail e m)) = refl
    forget (some wild) = refl
    forget none = refl
