-- ===== src/Host/Picture.antt =====
-- `hf_draw_image` of wasm/host.c: a picture, scaled, copied into the back buffer.
--
-- The pictures are generated; `store` writes a colour at a distance in bytes from
-- `vram_back_buffer`, on a state `V` of the display. Numbers are the bit patterns of `int`s.
pub mod Clipping
use jvmos_jit.Base.{
  ℕ, zero, suc, ◌+◌, ◌-◌, ◌*◌, ◌%◌, ◌^◌, Bool, not, ◌||◌, bit_or, ltb, if◌then◌else◌,
}
use jvmos_jit.Base.Word.{mul32, u32, add32, int_neg, ltb_int}

-- `image_asset`
pub record Image : Type 0 where
  pub pixels : ℕ → ℕ
  pub palette : ℕ → ℕ
  pub width : ℕ
  pub height : ℕ

-- `g_ox`, `g_oy`, `g_ow` and `g_oh`.
pub record Pane : Type 0 where
  pub ox : ℕ
  pub oy : ℕ
  pub ow : ℕ
  pub oh : ℕ

-- `clip_x`, `clip_y`, `clip_x2` and `clip_y2`.
pub record Clip : Type 0 where
  pub x : ℕ
  pub y : ℕ
  pub x2 : ℕ
  pub y2 : ℕ

abbrev pub max_int : ℕ → ℕ → ℕ
max_int a b = if ltb_int a b then b else a

abbrev pub min_int : ℕ → ℕ → ℕ
min_int a b = if ltb_int b a then b else a

abbrev pub x_lo : Pane → Clip → ℕ
x_lo p c = max_int p.ox c.x

abbrev pub y_lo : Pane → Clip → ℕ
y_lo p c = max_int p.oy c.y

abbrev pub x_hi : Pane → Clip → ℕ
x_hi p c = min_int (add32 p.ox p.ow) c.x2

abbrev pub y_hi : Pane → Clip → ℕ
y_hi p c = min_int (add32 p.oy p.oh) c.y2

-- Where a pixel lies from the start of the buffer on.
abbrev pub pixel_offset : (pitch px py : ℕ) → ℕ
pixel_offset pitch px py = add32 (mul32 py pitch) (mul32 px 4)

abbrev pub clamped_scale : ℕ → ℕ
clamped_scale scale = let s = if ltb_int scale 1 then 1 else scale in if ltb_int 8 s then 8 else s

-- `for (i = first; ...; i++)` with the rounds that are left.
unfoldable pub for_from : {V : Type 0} → (left i : ℕ) → (ℕ → V → V) → V → V
for_from zero i body v = v
for_from (suc left) i body v = for_from left (i + 1) body (body i v)

module _ {V : Type 0} (store : (offset color : ℕ) → V → V) (pitch : ℕ) (p : Pane) (c : Clip) where
  -- The innermost body.
  unfoldable pub draw_dot : (py px color : ℕ) → V → V
  draw_dot py px color v =
      if ltb_int px (x_lo p c) || not (ltb_int px (x_hi p c))
      then v
      else store (pixel_offset pitch px py) color v

  -- A row of the picture at a row of the screen.
  unfoldable pub draw_row : Image → (dx scale sy py : ℕ) → V → V
  unfolding for_from draw_dot
  draw_row im dx scale sy py v =
      if ltb_int py (y_lo p c) || not (ltb_int py (y_hi p c))
      then v
      else for_from im.width 0
          (λ sx v.
            let color = bit_or (im.palette (im.pixels (sy * im.width + sx))) 0xFF00_0000 in
            let xs = add32 (add32 p.ox dx) (mul32 sx scale) in
            for_from scale 0 (λ kx v. draw_dot py (add32 xs kx) color v) v)
          v

  unfoldable pub blit : Image → (dx dy scale : ℕ) → V → V
  unfolding for_from draw_row
  blit im dx dy scale v =
      for_from im.height 0
        (λ sy v.
          for_from scale 0
            (λ ky v. draw_row im dx scale sy (add32 (add32 (add32 p.oy dy) (mul32 sy scale)) ky) v)
            v)
        v

  unfoldable pub draw_image : (images : ℕ → Image) → (image_count index dx dy scale : ℕ) → V → V
  unfolding blit
  draw_image images image_count index dx dy scale v =
      if int_neg index || not (ltb index image_count)
      then v
      else blit (images index) dx dy (clamped_scale scale) v
