-- ===== src/Wasm/Sandbox.antt =====
-- Loading and running together: what a module that `wasm_load` of wasm/wasm.c accepts can do to its
-- host through `wasm_call`.
use jvmos_jit.Base.{ℕ, ◌+◌, ◌≤◌, ◌≡◌, ◌∙◌, Bool, none, some, List}
use mathlib.Core.Path.{subst}
use jvmos_jit.Wasm.Reader.{Bytes}
use jvmos_jit.Wasm.Module.{WasmModule, HostEntry, ok, fail, wild}
use jvmos_jit.Wasm.Load.{cleared, wasm_load}
use jvmos_jit.Wasm.Load.Loaded.{Grown}
use jvmos_jit.Wasm.Load.Confined.{Ends, wasm_load_confined}
use jvmos_jit.Wasm.Exec.Call.{Run, wasm_call}
use jvmos_jit.Wasm.Exec.Safe.Runs.{RunKept, wasm_call_confined}

module _ {U : Type 0} where
  -- The bytes from `size` on are those of `memory` when the run has ended.
  abbrev pub LeavesHost : (ℕ → ℕ) → ℕ → Run U → Type 0
  LeavesHost memory size none = Unit
  LeavesHost memory size (some (ok v m)) = (a : ℕ) → size ≤ a → m.mem a ≡ memory a
  LeavesHost memory size (some (fail e m)) = (a : ℕ) → size ≤ a → m.mem a ≡ memory a
  LeavesHost memory size (some wild) = Unit

  LeavesHost-after :
      (memory : ℕ → ℕ) (size : ℕ) (m : WasmModule U) (run : Run U)
      → m.mem_bytes ≡ size
      → ((a : ℕ) → size ≤ a → m.mem a ≡ memory a)
      → RunKept m run
      → LeavesHost memory size run
  LeavesHost-after memory size m none p h k = tt
  LeavesHost-after memory size m (some (ok v n)) p h k = λ a q. k.outside a (rw p q) ∙ h a q
  LeavesHost-after memory size m (some (fail e n)) p h k = λ a q. k.outside a (rw p q) ∙ h a q
  LeavesHost-after memory size m (some wild) p h k = tt

  -- A call into a module that loading has accepted leaves every byte behind the host's buffer as it
  -- was before loading, however it ends, as long as the run has not left one of the module's own
  -- arrays.
  pub loaded_call_confined :
      (bytes : Bytes) (start len : ℕ) (has_mem : Bool) (memory : ℕ → ℕ) (memory_bytes : ℕ)
      (hosts : ℕ → HostEntry U) (nhosts : ℕ) (user : U) (m : WasmModule U) (fuel : ℕ) (name : ℕ → ℕ)
      (args : List ℕ)
      → wasm_load bytes start len (cleared has_mem memory memory_bytes hosts nhosts user)
        ≡ some (ok tt m)
      → LeavesHost memory memory_bytes (wasm_call fuel bytes name args m)
  unfolding cleared
  loaded_call_confined bytes start len has_mem memory memory_bytes hosts nhosts user m fuel name
        args h =
      let fresh = cleared has_mem memory memory_bytes hosts nhosts user in
      let grown : Grown (start + len) fresh m =
        subst (Ends (start + len) fresh) h
          (wasm_load_confined bytes start len has_mem memory memory_bytes hosts nhosts user) in
      LeavesHost-after memory memory_bytes m (wasm_call fuel bytes name args m) grown.same_bytes
        grown.spared (wasm_call_confined fuel bytes name args m grown.loaded.sound)
