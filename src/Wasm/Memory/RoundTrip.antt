-- ===== src/Wasm/Memory/RoundTrip.antt =====
-- What is stored in linear memory is what is loaded from there: the bytes that a 32-bit store of
-- `run` in wasm/wasm.c writes are put together again by a load, and the same at the other widths.
use jvmos_jit.Base.{ℕ, ◌+◌, ◌*◌, ◌/◌, ◌^◌, ◌≤◌, ◌<◌, ◌≡◌, arith, bit_or, ◌⊎◌, inl, inr}
use jvmos_jit.Base.Word.{u8, u16, IsU32}
use jvmos_jit.Base.Bits.{bit_or_fields}
use jvmos_jit.Wasm.Memory.{load16, load32, store16, store32}

pub bytes16 : (b0 b1 : ℕ) → b0 < 2 ^ 8 → bit_or b0 (b1 * 2 ^ 8) ≡ b0 + b1 * 2 ^ 8
bytes16 b0 b1 h = bit_or_fields 8 b0 b1 h

pub bytes32 :
    (b0 b1 b2 b3 : ℕ)
    → b0 < 2 ^ 8
    → b1 < 2 ^ 8
    → b2 < 2 ^ 8
    → bit_or (bit_or (bit_or b0 (b1 * 2 ^ 8)) (b2 * 2 ^ 16)) (b3 * 2 ^ 24)
      ≡ b0 + b1 * 2 ^ 8 + b2 * 2 ^ 16 + b3 * 2 ^ 24
bytes32 b0 b1 b2 b3 h0 h1 h2 =
    let low = bit_or_fields 8 b0 b1 h0 in
    let middle = bit_or_fields 16 (b0 + b1 * 2 ^ 8) b2 (omega (arith, h0, h1)) in
    let high = bit_or_fields 24 (b0 + b1 * 2 ^ 8 + b2 * 2 ^ 16) b3 (omega (arith, h0, h1, h2)) in
    rw (low, middle) high

-- A word that `store32` writes is read back by `load32` at the same address, whatever the memory
-- held before.
pub load32-store32 : (mem : ℕ → ℕ) (a v : ℕ) → IsU32 v → load32 (store32 mem a v) a ≡ v
unfolding load32 store32
load32-store32 mem a v h =
    let put =
      bytes32 (u8 v) (u8 (v / 2 ^ 8)) (u8 (v / 2 ^ 16)) (u8 (v / 2 ^ 24)) (omega arith)
        (omega arith) (omega arith) in
    ground (arith, put, h)

-- The low half of a word that `store16` writes is read back by `load16`.
pub load16-store16 : (mem : ℕ → ℕ) (a v : ℕ) → load16 (store16 mem a v) a ≡ u16 v
unfolding load16 store16
load16-store16 mem a v =
    let put = bytes16 (u8 v) (u8 (v / 2 ^ 8)) (omega arith) in ground (arith, put)

-- A `store32` elsewhere does not change what `load32` reads, when the two words do not overlap.
pub load32-store32_apart :
    (mem : ℕ → ℕ) (a b v : ℕ)
    → (a + 4 ≤ b) ⊎ (b + 4 ≤ a)
    → load32 (store32 mem a v) b ≡ load32 mem b
unfolding load32 store32
load32-store32_apart mem a b v (inl h) = ground (arith, h)
load32-store32_apart mem a b v (inr h) = ground (arith, h)
