-- ===== src/Wasm/Load/Loaded.antt =====
-- The invariant of loading, `Loaded`, and how it is carried through a chain of commands.
use mathlib.Core.Path.{◌≡◌, refl, ap, ◌∙◌}
use jvmos_jit.Base.{ℕ, ◌≤◌, Bool, true, false, Option, none, some, if◌then◌else◌}
use jvmos_jit.Wasm.Module.{
  WasmErr, WasmModule, wasm_max_types, wasm_max_funcs, wasm_max_exports, wasm_max_globals, Outcome,
  ok, fail, wild, Cmd, pure, and_then, fail_if, throw,
}
use jvmos_jit.Wasm.Module.Post.{Sound}
use jvmos_jit.Wasm.Load.Limits.{or_else}

module _ {U : Type 0} (top : ℕ) where
  -- The tables fit their arrays, no body reaches past `top`, and the interpreter may start.
  pub record Loaded (m : WasmModule U) : Type 0 where
    pub sound : Sound m
    pub types_fit : m.ntypes ≤ wasm_max_types
    pub funcs_fit : m.nfuncs ≤ wasm_max_funcs
    pub exports_fit : m.nexports ≤ wasm_max_exports
    pub globals_fit : m.nglobals ≤ wasm_max_globals
    pub code_fits : (i : ℕ) → (m.funcs i).code_end ≤ top

  -- Nothing behind the host's buffer has changed.
  abbrev pub Spared : WasmModule U → WasmModule U → Type 0
  Spared m m' = (a : ℕ) → m.mem_bytes ≤ a → m'.mem a ≡ m.mem a

  pub record Grown (m m' : WasmModule U) : Type 0 where
    pub loaded : Loaded m'
    pub same_bytes : m'.mem_bytes ≡ m.mem_bytes
    pub spared : Spared m m'

  abbrev pub LoadKept : {A : Type 0} → WasmModule U → Outcome U A → Type 0
  LoadKept m (ok a m') = Grown m m'
  LoadKept m (fail e m') = Spared m m'
  LoadKept m wild = Unit

  abbrev pub Loads : {A : Type 0} → Cmd U A → Type 0
  Loads c = (m : WasmModule U) → Loaded m → LoadKept m (c m)

  pub Grown-refl : (m : WasmModule U) → Loaded m → Grown m m
  Grown-refl m h = record { loaded = h; same_bytes = refl; spared = λ a p. refl }

  pub Spared-after : (m n k : WasmModule U) → Grown m n → Spared n k → Spared m k
  Spared-after m n k g h a p = h a (rw g.same_bytes p) ∙ g.spared a p

  pub LoadKept-after :
      {A : Type 0} (m n : WasmModule U) (o : Outcome U A) → Grown m n → LoadKept n o → LoadKept m o
  LoadKept-after m n (ok a k) g h = record {
    loaded = h.loaded;
    same_bytes = h.same_bytes ∙ g.same_bytes;
    spared = Spared-after m n k g h.spared;
  }
  LoadKept-after m n (fail e k) g h = Spared-after m n k g h
  LoadKept-after m n wild g h = tt

  -- A change of a module that leaves the memory alone.
  pub changed :
      (m m' : WasmModule U) → Loaded m' → m'.mem_bytes ≡ m.mem_bytes → m'.mem ≡ m.mem → Grown m m'
  changed m m' h p q = record {
    loaded = h;
    same_bytes = p;
    spared = λ a k. ap (λ (f : ℕ → ℕ). f a) q;
  }

  pub LoadKept-step :
      {A : Type 0} (m n : WasmModule U) (c : Cmd U A) → Grown m n → Loads c → LoadKept m (c n)
  LoadKept-step m n c g h = LoadKept-after m n (c n) g (h n g.loaded)

  module _ {A B : Type 0} where
    pub LoadKept-then :
        (m : WasmModule U) (o : Outcome U A) (k : A → Cmd U B)
        → LoadKept m o
        → ((a : A) → Loads (k a))
        → LoadKept m (and_then o k)
    LoadKept-then m (ok a n) k h follow = LoadKept-after m n (k a n) h (follow a n h.loaded)
    LoadKept-then m (fail e n) k h follow = h
    LoadKept-then m wild k h follow = tt

    pub or_else-Loads :
        (o : Option A) (c : Cmd U B) (k : A → Cmd U B)
        → Loads c
        → ((a : A) → o ≡ some a → Loads (k a))
        → Loads (or_else o c k)
    or_else-Loads none c k h f = h
    or_else-Loads (some a) c k h f = f a refl

  pub pure-Loads : {A : Type 0} (a : A) → Loads (pure {U = U} a)
  pure-Loads a m h = Grown-refl m h

  pub throw-Loads : (A : Type 0) (e : WasmErr) → Loads (throw {U = U} {A = A} e)
  throw-Loads A e m h a p = refl

  module _ {A : Type 0} where
    -- `if (b) return e;` and what follows it.
    pub guard-Loads :
        (b : Bool) (e : WasmErr) (c : Unit {0} → Cmd U A) (m : WasmModule U)
        → (b ≡ false → LoadKept m (c tt m))
        → LoadKept m (and_then (fail_if b e m) c)
    guard-Loads true e c m h = λ a p. refl
    guard-Loads false e c m h = h refl

    pub choose-Loads :
        (b : Bool) (c d : Cmd U A)
        → (b ≡ true → Loads c)
        → (b ≡ false → Loads d)
        → Loads (if b then c else d)
    choose-Loads true c d h k = h refl
    choose-Loads false c d h k = k refl
