-- ===== src/Host/Picture/Clipping.antt =====
-- Which pixels a picture can change.
use jvmos_jit.Base.{
  ℕ, zero, suc, ◌+◌, ◌≡◌, ◌≢◌, refl, ◌∙◌, true, false, not, ◌||◌, arith, if-cases, ltb,
  if◌then◌else◌,
}
use jvmos_jit.Base.Word.{add32, int_neg, ltb_int}
use jvmos_jit.Host.Picture.{
  Image, Pane, Clip, x_lo, x_hi, y_lo, y_hi, pixel_offset, clamped_scale, for_from, draw_dot,
  draw_row, blit, draw_image,
}

-- Between two bounds, the upper one not included, in the order of `int`.
abbrev pub IsWithin : (lo hi a : ℕ) → Type 0
IsWithin lo hi a = (ltb_int a lo ≡ false) × (ltb_int a hi ≡ true)

-- A pixel of the window, inside the clip rectangle.
abbrev pub InView : Pane → Clip → (px py : ℕ) → Type 0
InView p c px py =
    IsWithin p.ox (add32 p.ox p.ow) px
    × IsWithin c.x c.x2 px
    × IsWithin p.oy (add32 p.oy p.oh) py
    × IsWithin c.y c.y2 py

-- Reading the colour at a distance, where a write changes no other one.
pub record IsBuffer {V : Type 0} (store : (offset color : ℕ) → V → V) (color_at : V → ℕ → ℕ)
    : Type 0 where
  pub store_apart :
      (offset color : ℕ) (v : V) (k : ℕ)
      → offset ≢ k
      → color_at (store offset color v) k ≡ color_at v k

between :
    (lo hi lo' hi' a : ℕ)
    → (ltb_int a (if ltb_int lo lo' then lo' else lo)
        || not (ltb_int a (if ltb_int hi' hi then hi' else hi)))
      ≡ false
    → IsWithin lo hi a × IsWithin lo' hi' a
between lo hi lo' hi' a h = ground (arith, h)

module _ {V : Type 0} (store : (offset color : ℕ) → V → V) (color_at : V → ℕ → ℕ)
    (buffer : IsBuffer store color_at) (pitch : ℕ) (p : Pane) (c : Clip) (k : ℕ)
    (outside : (px py : ℕ) → InView p c px py → pixel_offset pitch px py ≢ k) where
  abbrev Same : V → V → Type 0
  Same v w = color_at w k ≡ color_at v k

  for_from-Same :
      (left i : ℕ) (body : ℕ → V → V)
      → ((j : ℕ) (v : V) → Same v (body j v))
      → (v : V) → Same v (for_from left i body v)
  unfolding for_from
  for_from-Same zero i body h v = refl
  for_from-Same (suc left) i body h v = for_from-Same left (i + 1) body h (body i v) ∙ h i v

  draw_dot-Same :
      (py px color : ℕ) (v : V)
      → (ltb_int py (y_lo p c) || not (ltb_int py (y_hi p c))) ≡ false
      → Same v (draw_dot store pitch p c py px color v)
  unfolding draw_dot
  draw_dot-Same py px color v row =
      if-cases (Same v) (ltb_int px (x_lo p c) || not (ltb_int px (x_hi p c))) v _ (λ _. refl)
        (λ column.
          let (wx, cx) = between p.ox (add32 p.ox p.ow) c.x c.x2 px column in
          let (wy, cy) = between p.oy (add32 p.oy p.oh) c.y c.y2 py row in
          buffer.store_apart (pixel_offset pitch px py) color v k (outside px py (wx, cx, wy, cy)))

  draw_row-Same :
      (im : Image) (dx scale sy py : ℕ) (v : V)
      → Same v (draw_row store pitch p c im dx scale sy py v)
  unfolding draw_row
  draw_row-Same im dx scale sy py v =
      if-cases (Same v) (ltb_int py (y_lo p c) || not (ltb_int py (y_hi p c))) v _ (λ _. refl)
        (λ row.
          for_from-Same im.width 0 _
            (λ sx v. for_from-Same scale 0 _ (λ kx v. draw_dot-Same py _ _ v row) v) v)

  blit-Same :
      (im : Image) (dx dy scale : ℕ) (v : V) → Same v (blit store pitch p c im dx dy scale v)
  unfolding blit
  blit-Same im dx dy scale v =
      for_from-Same im.height 0 _
        (λ sy v. for_from-Same scale 0 _ (λ ky v. draw_row-Same im dx scale sy _ v) v) v

  -- Whatever picture a guest asks for, wherever and however large, a colour of the back buffer
  -- changes only where a pixel lies that is both in the guest's window and in the clip rectangle.
  pub draw_image-Same :
      (images : ℕ → Image) (image_count index dx dy scale : ℕ) (v : V)
      → color_at (draw_image store pitch p c images image_count index dx dy scale v) k
        ≡ color_at v k
  unfolding draw_image
  draw_image-Same images image_count index dx dy scale v =
      if-cases (Same v) (int_neg index || not (ltb index image_count)) v _ (λ _. refl)
        (λ _. blit-Same (images index) dx dy (clamped_scale scale) v)
