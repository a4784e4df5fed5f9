-- ===== src/Wasm/Module/Post.antt =====
-- How the interpreter's invariant is carried through a command: the postconditions of the three
-- ways to end, and the rule for a chain of commands.
use mathlib.Core.Path.{subst, ◌≡◌, refl, ◌∙◌}
use jvmos_jit.Base.{ℕ, ◌≤◌, Bool, true, false, if◌then◌else◌}
use jvmos_jit.Wasm.Module.{
  WasmErr, HostEntry, WasmModule, wasm_stack, wasm_locals, wasm_ctrl, Outcome, ok, fail, wild, Cmd,
  pure, and_then, ◌>>=◌, throw, fail_if,
}

module _ {U : Type 0} where
  -- The stacks fit their arrays, every label ever written remembers a height that fits, and the
  -- guest's limit lies inside the host's buffer.
  pub record Sound (m : WasmModule U) : Type 0 where
    pub sp_fits : m.sp ≤ wasm_stack
    pub lp_fits : m.lp ≤ wasm_locals
    pub cp_fits : m.cp ≤ wasm_ctrl
    pub labels_fit : (i : ℕ) → (m.ctrl i).sp ≤ wasm_stack
    pub limit_fits : m.mem_limit ≤ m.mem_bytes

  -- What calls of the host functions of a table, one after the other, make of their state.
  pub data Reached (hosts : ℕ → HostEntry U) (u : U) : U → Type 0 where
    unchanged : Reached hosts u u
    called :
        (i : ℕ) (args : ℕ → ℕ) (n : ℕ) (v : U)
        → Reached hosts u v
        → Reached hosts u ((hosts i).fn args n v).1

  pub Reached-trans :
      (hosts : ℕ → HostEntry U) (u v w : U)
      → Reached hosts u v
      → Reached hosts v w
      → Reached hosts u w
  Reached-trans hosts u v w h unchanged = h
  Reached-trans hosts u v w h (called i args n x k) =
      called i args n x (Reached-trans hosts u v x h k)

  -- From `m` to `m'` the invariant holds again, nothing outside the buffer has changed, and the
  -- host functions' state only by their calls.
  pub record Keeps (m m' : WasmModule U) : Type 0 where
    pub sound : Sound m'
    pub same_bytes : m'.mem_bytes ≡ m.mem_bytes
    pub outside : (a : ℕ) → m.mem_bytes ≤ a → m'.mem a ≡ m.mem a
    pub same_hosts : m'.hosts ≡ m.hosts
    pub reached : Reached m.hosts m.user m'.user

  pub Keeps-refl : (m : WasmModule U) → Sound m → Keeps m m
  Keeps-refl m s = record {
    sound = s;
    same_bytes = refl;
    outside = λ a h. refl;
    same_hosts = refl;
    reached = unchanged;
  }

  pub Keeps-trans : (a b c : WasmModule U) → Keeps a b → Keeps b c → Keeps a c
  Keeps-trans a b c h k = record {
    sound = k.sound;
    same_bytes = k.same_bytes ∙ h.same_bytes;
    outside = λ i p. k.outside i (rw h.same_bytes p) ∙ h.outside i p;
    same_hosts = k.same_hosts ∙ h.same_hosts;
    reached =
        Reached-trans a.hosts a.user b.user c.user h.reached
          (subst (λ hosts. Reached hosts b.user c.user) h.same_hosts k.reached);
  }

  -- The outcome of a command begun in `m`; `W` is what leaving an array would have to prove.
  abbrev pub Kept : {A : Type 0} → Type 0 → WasmModule U → Outcome U A → Type 0
  Kept W m (ok a m') = Keeps m m'
  Kept W m (fail e m') = Keeps m m'
  Kept W m wild = W

  -- A command that keeps the invariant from every sound state.
  abbrev pub Keeping : {A : Type 0} → Type 0 → Cmd U A → Type 0
  Keeping W c = (m : WasmModule U) → Sound m → Kept W m (c m)

  pub Kept-weaken :
      {A : Type 0} (W V : Type 0) (m : WasmModule U) (o : Outcome U A)
      → (W → V)
      → Kept W m o
      → Kept V m o
  Kept-weaken W V m (ok a m') f h = h
  Kept-weaken W V m (fail e m') f h = h
  Kept-weaken W V m wild f h = f h

  pub Kept-before :
      {A : Type 0} (W : Type 0) (m n : WasmModule U) (o : Outcome U A)
      → Keeps m n
      → Kept W n o
      → Kept W m o
  Kept-before W m n (ok a m') h k = Keeps-trans m n m' h k
  Kept-before W m n (fail e m') h k = Keeps-trans m n m' h k
  Kept-before W m n wild h k = k

  module _ {A B : Type 0} (W : Type 0) where
    -- What follows may also use how its state has come about.
    pub Kept-then :
        (m : WasmModule U) (o : Outcome U A) (k : A → Cmd U B)
        → Kept W m o
        → ((a : A) (n : WasmModule U) → Keeps m n → Kept W n (k a n))
        → Kept W m (and_then o k)
    Kept-then m (ok a n) k h next = Kept-before W m n (k a n) h (next a n h)
    Kept-then m (fail e n) k h next = h
    Kept-then m wild k h next = h

    pub Kept-bind :
        (m : WasmModule U) (o : Outcome U A) (k : A → Cmd U B)
        → Kept W m o
        → ((a : A) → Keeping W (k a))
        → Kept W m (and_then o k)
    Kept-bind m o k h next = Kept-then m o k h λ a n kept. next a n kept.sound

    pub bind :
        (c : Cmd U A) (k : A → Cmd U B)
        → Keeping W c
        → ((a : A) → Keeping W (k a))
        → Keeping W (c >>= k)
    bind c k h next m s = Kept-bind m (c m) k (h m s) next

  pub pure-Keeping : {A : Type 0} (W : Type 0) (a : A) → Keeping W (pure {U = U} a)
  pure-Keeping W a m s = Keeps-refl m s

  pub throw-Keeping : (A W : Type 0) (e : WasmErr) → Keeping W (throw {U = U} {A = A} e)
  throw-Keeping A W e m s = Keeps-refl m s

  pub fail_if-Keeping : (W : Type 0) (b : Bool) (e : WasmErr) → Keeping W (fail_if {U = U} b e)
  fail_if-Keeping W true e m s = Keeps-refl m s
  fail_if-Keeping W false e m s = Keeps-refl m s

  pub Kept-if :
      {A : Type 0} (W : Type 0) (m : WasmModule U) (b : Bool) (x y : Outcome U A)
      → (b ≡ true → Kept W m x)
      → (b ≡ false → Kept W m y)
      → Kept W m (if b then x else y)
  Kept-if W m true x y h k = h refl
  Kept-if W m false x y h k = k refl

  -- The memory behind a command.
  abbrev pub mem_behind : {A : Type 0} → WasmModule U → Outcome U A → ℕ → ℕ
  mem_behind m (ok a m') = m'.mem
  mem_behind m (fail e m') = m'.mem
  mem_behind m wild = m.mem
