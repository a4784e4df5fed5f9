-- ===== src/Host/Window.antt =====
-- `hf_fill_rect` of wasm/host.c: the rectangle that a guest asks for, clamped to its window.
pub mod Inside
use jvmos_jit.Base.{ℕ, Bool, not, ◌||◌, Option, none, some, if◌then◌else◌}
use jvmos_jit.Base.Word.{add32, sub32, int_neg, ltb_int}

-- In the coordinates of the window, as the call of `sys_fill_rect` gets it less `g_ox` and `g_oy`.
pub record Rect : Type 0 where
  pub x : ℕ
  pub y : ℕ
  pub w : ℕ
  pub h : ℕ

-- `a <= 0`
abbrev pub not_positive : ℕ → Bool
not_positive a = not (ltb_int 0 a)

-- `ow` and `oh` are `g_ow` and `g_oh`, and all numbers the bit patterns of `int`s; `none` where
-- nothing is drawn.
unfoldable pub clamp_rect : (ow oh : ℕ) → Rect → Option Rect
clamp_rect ow oh a =
    let x = if int_neg a.x then 0 else a.x in
    let y = if int_neg a.y then 0 else a.y in
    let w1 = if int_neg a.x then add32 a.w a.x else a.w in
    let h1 = if int_neg a.y then add32 a.h a.y else a.h in
    let w = if ltb_int (sub32 ow x) w1 then sub32 ow x else w1 in
    let h = if ltb_int (sub32 oh y) h1 then sub32 oh y else h1 in
    if not_positive a.w || not_positive a.h
    then none
    else if not (ltb_int x ow) || not (ltb_int y oh)
    then none
    else if not_positive w || not_positive h
    then none
    else some (record { x = x; y = y; w = w; h = h })
