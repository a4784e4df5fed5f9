-- ===== src/Host/Digits.antt =====
-- `hf_draw_int` of wasm/host.c: the digits of a number, and where in the window they are drawn.
pub mod Decimal
pub mod Inside
use jvmos_jit.Base.{
  ℕ, zero, suc, ◌+◌, ◌-◌, ◌*◌, ◌/◌, ◌%◌, ◌^◌, Bool, not, ◌||◌, ◌&&◌, List, [], ◌∷◌, ◌++◌, ltb, ◌==◌,
  if◌then◌else◌,
}
use jvmos_jit.Base.Word.{add32, sub32, neg32, int_neg, ltb_int}

-- `do { ... } while (u && len < 11)` with the room that is left: the last digit first.
unfoldable pub digit_loop : ℕ → (u : ℕ) → List ℕ
digit_loop zero u = []
digit_loop (suc left) u =
    let rest = digit_loop left (u / 10) in (48 + u % 10) ∷ (if u / 10 == 0 then [] else rest)

-- `digits`, the sign behind the others.
unfoldable pub int_digits : ℕ → List ℕ
unfolding digit_loop
int_digits value =
    if int_neg value then digit_loop 11 (neg32 value) ++ (45 ∷ []) else digit_loop 11 value

-- A character with its place in the window.
pub record Glyph : Type 0 where
  pub code : ℕ
  pub px : ℕ
  pub py : ℕ

unfoldable pub count : List ℕ → ℕ
count [] = 0
count (c ∷ cs) = suc (count cs)

-- The first character is the rightmost; one that does not fit is left out.
unfoldable pub place : (ow x y : ℕ) → List ℕ → List Glyph
unfolding count
place ow x y [] = []
place ow x y (c ∷ cs) =
    let rest = place ow x y cs in
    let at = add32 x (count cs * 8) in
    if ltb_int ow (add32 at 8) then rest else (record { code = c; px = at; py = y }) ∷ rest

-- What is drawn, in the coordinates of the window: `ow` and `oh` are `g_ow` and `g_oh`, and all
-- numbers the bit patterns of `int`s.
unfoldable pub draw_int : (ow oh value x y : ℕ) → List Glyph
unfolding int_digits place
draw_int ow oh value x y =
    if (int_neg x || int_neg y) || (not (ltb_int x ow) || ltb_int oh (add32 y 16))
    then []
    else place ow x y (int_digits value)
