-- ===== src/Fat/Bytes.antt =====
-- Bytes in a buffer, for fs/fat32.c: `put16`, `put32`, `get16`, `get32`, `zero` and `copy`. A buffer
-- is a function of the offset.
pub mod RoundTrip
use jvmos_jit.Base.{ℕ, zero, suc, ◌+◌, ◌*◌, ◌/◌, ◌^◌, bit_or}
use jvmos_jit.Base.Word.{u8}
use jvmos_jit.Wasm.Module.{update}

abbrev pub Buffer : Type 0
Buffer = ℕ → ℕ

unfoldable pub put16 : Buffer → (off v : ℕ) → Buffer
put16 p off v = update (update p off (u8 v)) (off + 1) (u8 (v / 2 ^ 8))

unfoldable pub put32 : Buffer → (off v : ℕ) → Buffer
put32 p off v =
    update
      (update (update (update p off (u8 v)) (off + 1) (u8 (v / 2 ^ 8))) (off + 2) (u8 (v / 2 ^ 16)))
      (off + 3) (u8 (v / 2 ^ 24))

unfoldable pub get16 : Buffer → ℕ → ℕ
get16 p off = bit_or (p off) (p (off + 1) * 2 ^ 8)

unfoldable pub get32 : Buffer → ℕ → ℕ
get32 p off =
    bit_or (bit_or (bit_or (p off) (p (off + 1) * 2 ^ 8)) (p (off + 2) * 2 ^ 16))
      (p (off + 3) * 2 ^ 24)

-- `zero(g_sector, FAT_SECTOR_SIZE)` of a buffer that is used no further than that.
abbrev pub zeros : Buffer
zeros i = 0

-- `copy(d + to, s + from, n)`
unfoldable pub copy : ℕ → (to from : ℕ) → (d s : Buffer) → Buffer
copy zero to from d s = d
copy (suc n) to from d s = copy n (to + 1) (from + 1) (update d to (s from)) s
