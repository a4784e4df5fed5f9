-- ===== src/Wasm/Load/Limits.antt =====
-- What the section functions of wasm/wasm.c share: `read_limits`, the line they end with, and what
-- follows a search.
use jvmos_jit.Base.{ℕ, Option, none, some, bit_and, ◌==◌, if◌then◌else◌}
use jvmos_jit.Wasm.Reader.{Bytes, Rd, rd_u8, rd_uleb}
use jvmos_jit.Wasm.Module.{truncated, Cmd, pure, ◌>>◌, fail_if}

unfoldable pub read_limits : Bytes → Rd → ℕ × Rd
unfolding rd_u8 rd_uleb
read_limits bytes r =
    let (flags, r') = rd_u8 bytes r in
    let (initial, r'') = rd_uleb bytes r' in
    (initial, if bit_and flags 1 == 0 then r'' else (rd_uleb bytes r'').1)

module _ {U : Type 0} where
  abbrev pub finish : Rd → Cmd U Rd
  finish r = fail_if r.err truncated >> pure r

  -- What an optional result is followed by.
  abbrev pub or_else : {A B : Type 0} → Option A → Cmd U B → (A → Cmd U B) → Cmd U B
  or_else none c k = c
  or_else (some a) c k = k a
