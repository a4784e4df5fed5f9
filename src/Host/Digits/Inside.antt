-- ===== src/Host/Digits/Inside.antt =====
-- Where the characters of `hf_draw_int` in wasm/host.c stand.
use jvmos_jit.Base.{
  ℕ, zero, suc, ◌+◌, ◌-◌, ◌*◌, ◌/◌, ◌^◌, ◌≤◌, ◌<◌, ◌≡◌, refl, ap, false, not, ◌||◌, Bool-cases, ◌⊎◌,
  inl, inr, arith, List, [], ◌∷◌, ◌++◌, ◌==◌,
}
use jvmos_jit.Base.Word.{add32, neg32, int_neg, ltb_int}
use jvmos_jit.Host.Digits.{Glyph, count, digit_loop, int_digits, place, draw_int}

-- Cells of 8 by 16 pixels that are in a window of a size.
unfoldable pub AllFit : (ow oh : ℕ) → List Glyph → Type 0
AllFit ow oh [] = Unit {0}
AllFit ow oh (g ∷ gs) = ((g.px + 8 ≤ ow) × (g.py + 16 ≤ oh)) × AllFit ow oh gs

none-AllFit : (ow oh : ℕ) → AllFit ow oh []
unfolding AllFit
none-AllFit ow oh = tt

count_++ : (xs : List ℕ) (c : ℕ) → count (xs ++ (c ∷ [])) ≡ suc (count xs)
unfolding count
count_++ [] c = refl
count_++ (x ∷ xs) c = ap suc (count_++ xs c)

count-digit_loop : (left u : ℕ) → count (digit_loop left u) ≤ left
unfolding count digit_loop
count-digit_loop zero u = omega arith
count-digit_loop (suc left) u = elim (Bool-cases (u / 10 == 0)) [
  | inl last ↦ rw last (omega arith)
  | inr more ↦ rw more (omega (arith, count-digit_loop left (u / 10)))
]

count-int_digits : (value : ℕ) → count (int_digits value) ≤ 12
unfolding int_digits
count-int_digits value = elim (Bool-cases (int_neg value)) [
  | inl negative ↦
      rw (negative, count_++ (digit_loop 11 (neg32 value)) 45)
        (omega (arith, count-digit_loop 11 (neg32 value)))
  | inr natural ↦ rw natural (omega (arith, count-digit_loop 11 value))
]

place-AllFit :
    (ow oh x y : ℕ) (cs : List ℕ)
    → ow < 2 ^ 31
    → x + 8 * count cs < 2 ^ 31
    → y + 16 ≤ oh
    → AllFit ow oh (place ow x y cs)
unfolding place AllFit count
place-AllFit ow oh x y [] o h k = tt
place-AllFit ow oh x y (c ∷ cs) o h k =
    let rest = place-AllFit ow oh x y cs o (omega (arith, h)) k in
    elim (Bool-cases (ltb_int ow (add32 (add32 x (count cs * 8)) 8))) [
      | inl out ↦ rw out rest
      | inr fits ↦ rw fits ((fits_lem ow x (count cs) o h fits, k), rest)
    ]
  where
    fits_lem :
        (ow x n : ℕ)
        → ow < 2 ^ 31
        → x + 8 * suc n < 2 ^ 31
        → ltb_int ow (add32 (add32 x (n * 8)) 8) ≡ false
        → add32 x (n * 8) + 8 ≤ ow
    fits_lem ow x n o h e = ground (arith, o, h, e)

-- In a window whose sides are at most 2 ^ 31 - 128, a number is drawn inside the window, whatever
-- its value, its x and its y, unless y is one of the sixteen largest `int`s: the cell of every
-- character that is drawn is inside.
pub draw_int-AllFit :
    (ow oh value x y : ℕ)
    → ow ≤ 2 ^ 31 - 128
    → oh ≤ 2 ^ 31 - 128
    → x < 2 ^ 32
    → (y < 2 ^ 31 - 16) ⊎ (2 ^ 31 ≤ y)
    → y < 2 ^ 32
    → AllFit ow oh (draw_int ow oh value x y)
unfolding draw_int
draw_int-AllFit ow oh value x y o p h k small =
    elim (Bool-cases
      ((int_neg x || int_neg y) || (not (ltb_int x ow) || ltb_int oh (add32 y 16)))) [
        | inl out ↦ rw out (none-AllFit ow oh)
        | inr drawn ↦ rw drawn (
            place-AllFit ow oh x y (int_digits value) (omega (arith, o))
              (room ow oh x y (count (int_digits value)) o drawn (count-int_digits value) h)
              (below ow oh x y p k small drawn))
      ]
  where
    room :
        (ow oh x y n : ℕ)
        → ow ≤ 2 ^ 31 - 128
        → ((int_neg x || int_neg y) || (not (ltb_int x ow) || ltb_int oh (add32 y 16))) ≡ false
        → n ≤ 12
        → x < 2 ^ 32
        → x + 8 * n < 2 ^ 31
    room ow oh x y n o drawn n_le h = ground (arith, o, drawn, n_le, h)

    below :
        (ow oh x y : ℕ)
        → oh ≤ 2 ^ 31 - 128
        → (y < 2 ^ 31 - 16) ⊎ (2 ^ 31 ≤ y)
        → y < 2 ^ 32
        → ((int_neg x || int_neg y) || (not (ltb_int x ow) || ltb_int oh (add32 y 16))) ≡ false
        → y + 16 ≤ oh
    below ow oh x y p k small drawn = ground (arith, p, k, small, drawn)
