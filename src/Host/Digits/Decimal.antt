-- ===== src/Host/Digits/Decimal.antt =====
-- What the characters of `hf_draw_int` in wasm/host.c spell, and where they stand.
use jvmos_jit.Base.{
  ℕ, zero, suc, ◌+◌, ◌-◌, ◌*◌, ◌/◌, ◌%◌, ◌^◌, ◌<◌, ◌≡◌, refl, ap, sym, ◌∙◌, Bool, false, ◌||◌,
  Bool-cases, inl, inr, arith, List, [], ◌∷◌, ◌++◌, ◌==◌, if◌then◌else◌,
}
use jvmos_jit.Base.Word.{neg32, int_neg, magnitude}
use jvmos_jit.Host.Digits.{digit_loop, int_digits}

-- The number that decimal digits spell, the last one first, a minus sign at the end aside.
unfoldable pub spelled : List ℕ → ℕ
spelled [] = 0
spelled (c ∷ cs) = let rest = spelled cs in if c == 45 then 0 else (c - 48) + 10 * rest

-- Whether a minus sign ends the characters.
unfoldable pub has_sign : List ℕ → Bool
has_sign [] = false
has_sign (c ∷ cs) = let rest = has_sign cs in (c == 45) || rest

spelled-digit : (c : ℕ) (cs : List ℕ) → c < 10 → spelled ((48 + c) ∷ cs) ≡ c + 10 * spelled cs
unfolding spelled
spelled-digit c cs h = ground (arith, h)

tenth : (left u : ℕ) → u < 10 ^ suc left → u / 10 < 10 ^ left
tenth left u h = omega (arith, h)

digit_loop-spelled :
    (left u : ℕ) (tail : List ℕ)
    → u < 10 ^ left
    → spelled tail ≡ 0
    → spelled (digit_loop left u ++ tail) ≡ u
unfolding digit_loop
digit_loop-spelled zero u tail h none_left = none_left ∙ omega (arith, h)
digit_loop-spelled (suc left) u tail h none_left = elim (Bool-cases (u / 10 == 0)) [
  | inl last ↦ rw last (spelled-digit (u % 10) tail (omega arith) ∙ ground (arith, last, none_left))
  | inr more ↦ rw more (
      spelled-digit (u % 10) (digit_loop left (u / 10) ++ tail) (omega arith)
      ∙ ap (λ n. u % 10 + 10 * n) (digit_loop-spelled left (u / 10) tail (tenth left u h) none_left)
      ∙ omega arith)
]

++-[] : (xs : List ℕ) → xs ++ [] ≡ xs
++-[] [] = refl
++-[] (x ∷ xs) = ap (λ ys. x ∷ ys) (++-[] xs)

digit_loop-has_sign :
    (left u : ℕ) (tail : List ℕ) → has_sign (digit_loop left u ++ tail) ≡ has_sign tail
unfolding digit_loop has_sign
digit_loop-has_sign zero u tail = refl
digit_loop-has_sign (suc left) u tail = elim (Bool-cases (u / 10 == 0)) [
  | inl last ↦ rw last (ground arith)
  | inr more ↦ rw (more, digit_loop-has_sign left (u / 10) tail) (ground arith)
]

-- The characters that are made for an `int` spell it: without the minus sign they spell its absolute
-- value, and the minus sign is there exactly when it is negative.
pub int_digits-spelled :
    (value : ℕ)
    → value < 2 ^ 32
    → (spelled (int_digits value) ≡ magnitude value) × (has_sign (int_digits value) ≡ int_neg value)
unfolding int_digits spelled has_sign
int_digits-spelled value h = elim (Bool-cases (int_neg value)) [
  | inl negative ↦ rw negative (
    digit_loop-spelled 11 (neg32 value) (45 ∷ []) (ground (arith, h)) refl
        ∙ ground (arith, h, negative),
    digit_loop-has_sign 11 (neg32 value) (45 ∷ []),
  )
  | inr natural ↦ rw natural (
    ap spelled (sym (++-[] (digit_loop 11 value)))
        ∙ digit_loop-spelled 11 value [] (ground (arith, h)) refl,
    ap has_sign (sym (++-[] (digit_loop 11 value))) ∙ digit_loop-has_sign 11 value [],
  )
]
