-- ===== src/Host/Window/Inside.antt =====
-- What a guest draws stays inside its window.
use jvmos_jit.Base.{
  ℕ, ◌+◌, ◌^◌, ◌≤◌, ◌<◌, ◌≡◌, refl, Bool, true, false, not, ◌||◌, Option, none, some, arith,
  if◌then◌else◌,
}
use jvmos_jit.Base.Word.{IsU32, add32, sub32, int_neg, ltb_int}
use jvmos_jit.Host.Window.{Rect, not_positive, clamp_rect}

-- What a refused disjunction says of its sides.
neither : (b c : Bool) → (b || c) ≡ false → (b ≡ false) × (c ≡ false)
neither true c h = ground (arith, h)
neither false c h = (refl, h)

neither_not : (b c : Bool) → (not b || not c) ≡ false → (b ≡ true) × (c ≡ true)
neither_not true true h = (refl, refl)
neither_not true false h = ground (arith, h)
neither_not false c h = ground (arith, h)

-- Along one axis: from `x` on, `w` wide, inside a window of size `size`.
abbrev axis_width : (size x w : ℕ) → ℕ
axis_width size x w =
    let w1 = if int_neg x then add32 w x else w in
    let from = if int_neg x then 0 else x in
    if ltb_int (sub32 size from) w1 then sub32 size from else w1

axis_inside :
    (size x w : ℕ)
    → size < 2 ^ 31
    → IsU32 x
    → IsU32 w
    → not_positive w ≡ false
    → ltb_int (if int_neg x then 0 else x) size ≡ true
    → not_positive (axis_width size x w) ≡ false
    → (0 < axis_width size x w) × ((if int_neg x then 0 else x) + axis_width size x w ≤ size)
axis_inside size x w a b c p q r = ground arith

-- Nothing, or a rectangle that is not empty and lies inside a window of the size.
abbrev pub Within : (ow oh : ℕ) → Option Rect → Type 0
Within ow oh none = Unit
Within ow oh (some r) = (0 < r.w) × (r.x + r.w ≤ ow) × (0 < r.h) × (r.y + r.h ≤ oh)

Within-if :
    (ow oh : ℕ) (b : Bool) (drawn : Option Rect)
    → (b ≡ false → Within ow oh drawn)
    → Within ow oh (if b then none else drawn)
Within-if ow oh true drawn h = tt
Within-if ow oh false drawn h = h refl

-- Whatever rectangle a guest asks for, huge or negative, what is drawn of it is not empty and lies
-- inside its window, whose size is not negative.
pub clamp_rect-Within :
    (ow oh : ℕ) (a : Rect)
    → ow < 2 ^ 31
    → oh < 2 ^ 31
    → IsU32 a.x
    → IsU32 a.y
    → IsU32 a.w
    → IsU32 a.h
    → Within ow oh (clamp_rect ow oh a)
unfolding clamp_rect
clamp_rect-Within ow oh a wide high ux uy uw uh =
    Within-if ow oh (not_positive a.w || not_positive a.h) _ λ asked.
      Within-if ow oh
        (not (ltb_int (if int_neg a.x then 0 else a.x) ow)
          || not (ltb_int (if int_neg a.y then 0 else a.y) oh))
        _
        λ inside.
          Within-if ow oh
            (not_positive (axis_width ow a.x a.w) || not_positive (axis_width oh a.y a.h)) _
            λ seen.
              let (asked_w, asked_h) = neither _ _ asked in
              let (inside_x, inside_y) = neither_not _ _ inside in
              let (seen_w, seen_h) = neither _ _ seen in
              let (w, right) = axis_inside ow a.x a.w wide ux uw asked_w inside_x seen_w in
              let (h, bottom) = axis_inside oh a.y a.h high uy uh asked_h inside_y seen_h in
              (w, right, h, bottom)
