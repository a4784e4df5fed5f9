-- ===== src/Wasm/Reader.antt =====
-- The byte reader of wasm/wasm.c: `rd_u8`, `rd_uleb`, `rd_sleb` and `rd_skip`.
--
-- A pointer is a 32-bit address, and `bytes` is what the address space holds: `*r->p` is
-- `bytes r.p`. The reader never writes, so `bytes` stays fixed. The two LEB128 loops run on fuel:
-- the shift passes 31 in the fifth round, so five rounds are all that can be made.
pub mod Bounds
pub mod Leb
use jvmos_jit.Base.{
  ℕ, zero, suc, ◌+◌, ◌-◌, ◌*◌, ◌^◌, Bool, true, false, ◌&&◌, bit_and, bit_or, ltb, leb, ◌==◌,
  if◌then◌else◌,
}
use jvmos_jit.Base.Word.{u32, sub32}

-- What the address space holds.
abbrev pub Bytes : Type 0
Bytes = ℕ → ℕ

pub record Rd : Type 0 where
  pub p : ℕ
  pub end : ℕ
  pub err : Bool

-- A call returns its value and the reader as it leaves it.
unfoldable pub rd_u8 : Bytes → Rd → ℕ × Rd
rd_u8 bytes r =
    if leb r.end r.p then (0, record r { err = true }) else (bytes r.p, record r { p = r.p + 1 })

-- `result |= (unsigned)(b & 0x7F) << shift`
unfoldable pub add_group : ℕ → ℕ → ℕ → ℕ
add_group result b shift = bit_or result (u32 (bit_and b 0x7F * 2 ^ shift))

unfoldable pub uleb_loop : ℕ → Bytes → Rd → ℕ → ℕ → ℕ × Rd
unfolding rd_u8
uleb_loop zero bytes r result shift = (0, record r { err = true })
uleb_loop (suc fuel) bytes r result shift =
    let (b, r') = rd_u8 bytes r in
    let result' = add_group result b shift in
    let rest = uleb_loop fuel bytes r' result' (shift + 7) in
    if r'.err
    then (0, r')
    else if bit_and b 0x80 == 0
    then (result', r')
    else if ltb 31 (shift + 7)
    then (0, record r' { err = true })
    else rest

unfoldable pub rd_uleb : Bytes → Rd → ℕ × Rd
unfolding uleb_loop
rd_uleb bytes r = uleb_loop 5 bytes r 0 0

-- After the last byte: `if (shift < 32 && (b & 0x40)) result |= -(int)(1u << shift)`.
unfoldable pub extend_sign : ℕ → ℕ → ℕ → ℕ
extend_sign result b shift =
    if ltb shift 32 && ltb 0 (bit_and b 0x40) then bit_or result (2 ^ 32 - 2 ^ shift) else result

unfoldable pub sleb_loop : ℕ → Bytes → Rd → ℕ → ℕ → ℕ × Rd
unfolding rd_u8 extend_sign
sleb_loop zero bytes r result shift = (0, record r { err = true })
sleb_loop (suc fuel) bytes r result shift =
    let (b, r') = rd_u8 bytes r in
    let result' = add_group result b shift in
    let rest = sleb_loop fuel bytes r' result' (shift + 7) in
    if r'.err
    then (0, r')
    else if bit_and b 0x80 == 0
    then (extend_sign result' b (shift + 7), r')
    else if ltb 31 (shift + 7)
    then (0, record r' { err = true })
    else rest

-- The `int` that it returns is a bit pattern.
unfoldable pub rd_sleb : Bytes → Rd → ℕ × Rd
unfolding sleb_loop
rd_sleb bytes r = sleb_loop 5 bytes r 0 0

-- `(unsigned)(r->end - r->p) < n`
unfoldable pub rd_skip : Rd → ℕ → Rd
rd_skip r n =
    if ltb (sub32 r.end r.p) n then record r { p = r.end; err = true } else record r { p = r.p + n }
