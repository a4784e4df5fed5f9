-- ===== src/Wasm/Reader/Bounds.antt =====
-- The readers stay inside their input: whatever the bytes, no call moves a reader backwards, past
-- its end, or from an error back to none.
use jvmos_jit.Base.{ℕ, zero, suc, ◌+◌, ◌≤◌, ◌<◌, ◌≡◌, true, false, arith}
use jvmos_jit.Base.Word.{IsU32}
use jvmos_jit.Wasm.Reader.{
  Bytes, Rd, rd_u8, add_group, uleb_loop, rd_uleb, sleb_loop, rd_sleb, rd_skip,
}

-- What a call on a reader `r` inside its input may leave behind.
pub record Advances (r r' : Rd) : Type 0 where
  pub same_end : r'.end ≡ r.end
  pub forward : r.p ≤ r'.p
  pub inside : r.p ≤ r.end → r'.p ≤ r.end
  pub sticky : r.err ≡ true → r'.err ≡ true

-- As above, and without an error at least one byte was taken.
pub record Takes (r r' : Rd) : Type 0 where
  pub advances : Advances r r'
  pub moved : r'.err ≡ false → r.p < r'.p

pub Advances-refl : (r : Rd) → Advances r r
Advances-refl r = ground arith

pub Advances-trans : (r s t : Rd) → Advances r s → Advances s t → Advances r t
Advances-trans r s t a b = record {
  same_end = ground arith;
  forward = ground arith;
  inside = λ h. ground (arith, a.inside h, b.inside);
  sticky = λ h. b.sticky (a.sticky h);
}

pub rd_u8-Takes : (bytes : Bytes) (r : Rd) → Takes r (rd_u8 bytes r).1
unfolding rd_u8
rd_u8-Takes bytes r = ground arith

uleb_loop-Takes :
    (fuel : ℕ) (bytes : Bytes) (r : Rd) (result shift : ℕ)
    → Takes r (uleb_loop fuel bytes r result shift).1
unfolding uleb_loop
uleb_loop-Takes zero bytes r result shift = ground arith
uleb_loop-Takes (suc fuel) bytes r result shift =
    let (b, r') = rd_u8 bytes r in
    ground (
      arith,
      rd_u8-Takes bytes r,
      uleb_loop-Takes fuel bytes r' (add_group result b shift) (shift + 7),
    )

pub rd_uleb-Takes : (bytes : Bytes) (r : Rd) → Takes r (rd_uleb bytes r).1
unfolding rd_uleb
rd_uleb-Takes bytes r = uleb_loop-Takes 5 bytes r 0 0

sleb_loop-Takes :
    (fuel : ℕ) (bytes : Bytes) (r : Rd) (result shift : ℕ)
    → Takes r (sleb_loop fuel bytes r result shift).1
unfolding sleb_loop
sleb_loop-Takes zero bytes r result shift = ground arith
sleb_loop-Takes (suc fuel) bytes r result shift =
    let (b, r') = rd_u8 bytes r in
    ground (
      arith,
      rd_u8-Takes bytes r,
      sleb_loop-Takes fuel bytes r' (add_group result b shift) (shift + 7),
    )

pub rd_sleb-Takes : (bytes : Bytes) (r : Rd) → Takes r (rd_sleb bytes r).1
unfolding rd_sleb
rd_sleb-Takes bytes r = sleb_loop-Takes 5 bytes r 0 0

-- Skipping goes exactly as far as asked, or to the end with an error.
pub rd_skip-Advances : (r : Rd) (n : ℕ) → r.p ≤ r.end → IsU32 r.end → Advances r (rd_skip r n)
unfolding rd_skip
rd_skip-Advances r n h small = ground arith
