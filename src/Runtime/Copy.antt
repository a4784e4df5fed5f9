-- ===== src/Runtime/Copy.antt =====
-- What `memcpy` and `memset` leave in the memory.
use jvmos_jit.Base.{
  ℕ, zero, suc, ◌+◌, ◌-◌, ◌≤◌, ◌≡◌, ◌∙◌, ◌⊎◌, arith, ltb, leb, ◌&&◌, if◌then◌else◌,
}
use jvmos_jit.Base.Word.{u8}
use jvmos_jit.Wasm.Module.{update}
use jvmos_jit.Runtime.{set_loop, memset, copy_loop, memcpy}

-- The `n` bytes from an address on are others, given by their distance, and all else is as before.
abbrev pub overlaid : (ℕ → ℕ) → (at n : ℕ) → (ℕ → ℕ) → ℕ → ℕ
overlaid m at n bytes k = if leb at k && ltb k (at + n) then bytes (k - at) else m k

pub memset-overlaid :
    (dst value n : ℕ) (m : ℕ → ℕ) (k : ℕ)
    → (memset dst value n m).1 k ≡ overlaid m dst n (λ i. u8 value) k
unfolding memset
memset-overlaid dst value n m k = loop n dst m
  where
    loop : (n p : ℕ) (m : ℕ → ℕ) → set_loop n p value m k ≡ overlaid m p n (λ i. u8 value) k
    loop zero p m = ground arith
    loop (suc n) p m = loop n (p + 1) (update m p (u8 value)) ∙ ground arith

-- Copying puts the bytes that the source held before at the destination and changes nothing else,
-- as long as the destination does not begin inside the source, behind its first byte: the two may
-- overlap when the destination lies before the source.
pub memcpy-overlaid :
    (dst src n : ℕ) (m : ℕ → ℕ) (k : ℕ)
    → (dst ≤ src) ⊎ (src + n ≤ dst)
    → (memcpy dst src n m).1 k ≡ overlaid m dst n (λ i. m (src + i)) k
unfolding memcpy
memcpy-overlaid dst src n m k h = loop n dst src m h
  where
    loop :
        (n d s : ℕ) (m : ℕ → ℕ)
        → (d ≤ s) ⊎ (s + n ≤ d)
        → copy_loop n d s m k ≡ overlaid m d n (λ i. m (s + i)) k
    loop zero d s m h = ground arith
    loop (suc n) d s m h =
        loop n (d + 1) (s + 1) (update m d (m s)) (ground (arith, h)) ∙ grind (arith, h)
