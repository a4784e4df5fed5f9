-- ===== src/Fat/Bytes/RoundTrip.antt =====
-- Numbers that are put into a buffer are got back, and a copy holds what was copied.
use jvmos_jit.Base.{
  ℕ, zero, suc, ◌+◌, ◌-◌, ◌/◌, ◌^◌, ◌≤◌, ◌≡◌, ◌∙◌, ◌⊎◌, inl, inr, arith, ltb, leb, ◌&&◌,
  if◌then◌else◌,
}
use jvmos_jit.Base.Word.{u8, u16, IsU32}
use jvmos_jit.Wasm.Module.{update}
use jvmos_jit.Wasm.Memory.RoundTrip.{bytes16, bytes32}
use jvmos_jit.Fat.Bytes.{Buffer, put16, put32, get16, get32, copy}

-- A 32-bit number that is put at an offset is got back from there.
pub get32-put32 : (p : Buffer) (off v : ℕ) → IsU32 v → get32 (put32 p off v) off ≡ v
unfolding get32 put32
get32-put32 p off v h =
    let put =
      bytes32 (u8 v) (u8 (v / 2 ^ 8)) (u8 (v / 2 ^ 16)) (u8 (v / 2 ^ 24)) (omega arith)
        (omega arith) (omega arith) in
    ground (arith, put, h)

pub get16-put16 : (p : Buffer) (off v : ℕ) → get16 (put16 p off v) off ≡ u16 v
unfolding get16 put16
get16-put16 p off v = let put = bytes16 (u8 v) (u8 (v / 2 ^ 8)) (omega arith) in ground (arith, put)

pub get32-put32_apart :
    (p : Buffer) (a b v : ℕ) → (a + 4 ≤ b) ⊎ (b + 4 ≤ a) → get32 (put32 p a v) b ≡ get32 p b
unfolding get32 put32
get32-put32_apart p a b v (inl h) = ground (arith, h)
get32-put32_apart p a b v (inr h) = ground (arith, h)

-- `copy` by offset: the bytes of the source in the range, and the old ones outside it.
pub copy_lem :
    (n to from : ℕ) (d s : Buffer) (i : ℕ)
    → copy n to from d s i ≡ (if leb to i && ltb i (to + n) then s (from + (i - to)) else d i)
unfolding copy
copy_lem zero to from d s i = ground arith
copy_lem (suc n) to from d s i =
    copy_lem n (to + 1) (from + 1) (update d to (s from)) s i ∙ ground arith
