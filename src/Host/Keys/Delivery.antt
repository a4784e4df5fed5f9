-- ===== src/Host/Keys/Delivery.antt =====
-- A key that is pushed reaches the guest.
use jvmos_jit.Base.{
  ℕ, zero, suc, ◌+◌, ◌-◌, ◌≡◌, refl, sym, ap, ◌∙◌, Bool, false, ◌||◌, List, [], ◌∷◌, ◌++◌, length,
  length-append, ◌==◌, if◌then◌else◌,
}
use jvmos_jit.Base.Word.{int_neg}
use mathlib.Core.Path.{subst}
use jvmos_jit.Host.Keys.{Keys, key_slots, wasm_push_key, hf_key}
use jvmos_jit.Host.Keys.Queue.{
  IsRing, waiting, queue, length-queue, Popped, wasm_push_key-queue, wasm_push_key-IsRing,
  hf_key-queue, hf_key-IsRing,
}

-- What the guest gets from so many calls of `key`.
unfoldable pub read_keys : ℕ → Keys → List ℕ
read_keys zero q = []
read_keys (suc n) q = (hf_key q).0 ∷ read_keys n (hf_key q).1

read_keys-queue : (xs : List ℕ) (q : Keys) → IsRing q → queue q ≡ xs → read_keys (length xs) q ≡ xs
unfolding read_keys
read_keys-queue [] q h e = refl
read_keys-queue (x ∷ xs) q h e =
    let (first, rest) =
      subst (λ l. Popped l (hf_key q).0 (queue (hf_key q).1)) e (hf_key-queue q h) in
    rw (first, read_keys-queue xs (hf_key q).1 (hf_key-IsRing q h) rest) refl

-- A positive key that is pushed while fewer than fifteen wait is delivered: one call of `key` for
-- each key that waited gives these in their order, and the next call gives the key.
pub wasm_push_key-read_keys :
    (code : ℕ) (q : Keys)
    → IsRing q
    → (code == 0 || int_neg code) ≡ false
    → (waiting q == key_slots - 1) ≡ false
    → read_keys (waiting q + 1) (wasm_push_key code q) ≡ queue q ++ (code ∷ [])
wasm_push_key-read_keys code q h key room =
    let all = queue q ++ (code ∷ []) in
    let pushed : queue (wasm_push_key code q) ≡ all =
      wasm_push_key-queue code q h
      ∙ chosen (code == 0 || int_neg code) (waiting q == key_slots - 1) key room in
    let many : length all ≡ waiting q + 1 =
      length-append (queue q) (code ∷ []) ∙ ap (λ n. n + 1) (length-queue q) in
    ap (λ n. read_keys n (wasm_push_key code q)) (sym many)
    ∙ read_keys-queue all (wasm_push_key code q) (wasm_push_key-IsRing code q h) pushed
  where
    chosen :
        (b c : Bool)
        → b ≡ false
        → c ≡ false
        → (if b || c then queue q else queue q ++ (code ∷ [])) ≡ queue q ++ (code ∷ [])
    chosen b c p r = rw (p, r) refl
