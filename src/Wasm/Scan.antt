-- ===== src/Wasm/Scan.antt =====
-- Instruction navigation of wasm/wasm.c: `skip_blocktype`, `skip_immediates`, and the two forward
-- scans, `branch_target` and `else_or_end`, which find where a branch and a false `if` go on.
--
-- A null pointer is `none`. A scan takes at least one byte a round, so as many rounds as there are
-- bytes left, and one for the test that ends the loop, are enough.
pub mod Bounds
pub mod Fuel
pub mod Nesting
mod Operands
pub mod Structure
use jvmos_jit.Base.{
  ℕ, zero, suc, ◌+◌, ◌-◌, Bool, true, false, not, ◌&&◌, ◌||◌, Option, none, some, ltb, leb, ◌==◌,
  if◌then◌else◌,
}
use jvmos_jit.Base.Word.{u32}
use jvmos_jit.Wasm.Reader.{Bytes, Rd, rd_u8, rd_uleb, rd_sleb, rd_skip}

-- `block`, `loop` and `if` open a block.
abbrev pub opens_block : ℕ → Bool
opens_block op = op == 0x02 || op == 0x03 || op == 0x04

-- 0x40 for no result, or one of the value types.
abbrev pub is_short_blocktype : ℕ → Bool
is_short_blocktype b = b == 0x40 || leb 0x7B b && leb b 0x7F

unfoldable pub skip_blocktype : Bytes → Rd → Rd
unfolding rd_sleb
skip_blocktype bytes r =
    if leb r.end r.p
    then record r { err = true }
    else if is_short_blocktype (bytes r.p)
    then record r { p = r.p + 1 }
    else (rd_sleb bytes r).1

-- `for (i = 0; i <= n && !r->err; i++) rd_uleb(r);`
unfoldable pub skip_table : ℕ → Bytes → Rd → ℕ → ℕ → Rd
unfolding rd_uleb
skip_table zero bytes r i n = r
skip_table (suc fuel) bytes r i n =
    let rest = skip_table fuel bytes (rd_uleb bytes r).1 (u32 (i + 1)) n in
    if leb i n && not r.err then rest else r

unfoldable pub skip_br_table : Bytes → Rd → Rd
unfolding rd_uleb skip_table
skip_br_table bytes r = let (n, r') = rd_uleb bytes r in skip_table (r'.end - r'.p + 2) bytes r' 0 n

-- What follows an opcode, by the chain of tests of `skip_immediates`.
pub data Immediates : Type 0 where
  blocktype index table two_indices byte signed : Immediates
  fixed : ℕ → Immediates
  none_at_all : Immediates

unfoldable pub immediates : ℕ → Immediates
immediates op =
    if opens_block op
    then blocktype
    else if op == 0x0C || op == 0x0D
    then index
    else if op == 0x0E
    then table
    else if op == 0x10
    then index
    else if op == 0x11
    then two_indices
    else if leb 0x20 op && leb op 0x24
    then index
    else if leb 0x28 op && leb op 0x3E
    then two_indices
    else if op == 0x3F || op == 0x40
    then byte
    else if op == 0x41
    then signed
    else if op == 0x42
    then signed
    else if op == 0x43
    then fixed 4
    else if op == 0x44
    then fixed 8
    else none_at_all

-- And how each kind is skipped.
unfoldable pub skip_kind : Bytes → Rd → Immediates → Rd
unfolding rd_u8 rd_uleb rd_sleb rd_skip skip_blocktype skip_br_table
skip_kind bytes r blocktype = skip_blocktype bytes r
skip_kind bytes r index = (rd_uleb bytes r).1
skip_kind bytes r table = skip_br_table bytes r
skip_kind bytes r two_indices = (rd_uleb bytes (rd_uleb bytes r).1).1
skip_kind bytes r byte = (rd_u8 bytes r).1
skip_kind bytes r signed = (rd_sleb bytes r).1
skip_kind bytes r (fixed n) = rd_skip r n
skip_kind bytes r none_at_all = r

unfoldable pub skip_immediates : Bytes → Rd → ℕ → Rd
unfolding immediates skip_kind
skip_immediates bytes r op = skip_kind bytes r (immediates op)

-- How a scan reads an opcode.
pub data Mark : Type 0 where
  opening ending otherwise plain : Mark

unfoldable pub mark_of : ℕ → Mark
mark_of op =
    if opens_block op
    then opening
    else if op == 0x0B
    then ending
    else if op == 0x05
    then otherwise
    else plain

-- One round of a scan stops with a position, or goes on with the reader, the nesting depth and the
-- levels still to leave.
pub data Scan : Type 0 where
  found : ℕ → Scan
  more : Rd → ℕ → ℕ → Scan

-- `while (r.p < r.end && !r.err)`, which both scans share; falling out of it returns null.
abbrev pub is_live : Rd → Bool
is_live r = ltb r.p r.end && not r.err

unfoldable pub scan_on : (Rd → ℕ → ℕ → Option ℕ) → Scan → Option ℕ
scan_on next (found q) = some q
scan_on next (more r depth levels) = next r depth levels

unfoldable pub scan_loop : (Rd → ℕ → ℕ → Scan) → ℕ → Rd → ℕ → ℕ → Option ℕ
unfolding scan_on
scan_loop round zero r depth levels = none
scan_loop round (suc fuel) r depth levels =
    let next = scan_loop round fuel in
    if is_live r then scan_on next (round r depth levels) else none

-- The round of `branch_target`, behind an opcode that was read.
unfoldable pub branch_mark : Bytes → Rd → (op depth levels : ℕ) → Mark → Scan
unfolding skip_blocktype skip_immediates
branch_mark bytes r op depth levels opening = more (skip_blocktype bytes r) (suc depth) levels
branch_mark bytes r op (suc depth) levels ending = more r depth levels
branch_mark bytes r op zero zero ending = found r.p
branch_mark bytes r op zero (suc levels) ending = more r zero levels
branch_mark bytes r op depth levels otherwise = more r depth levels
branch_mark bytes r op depth levels plain = more (skip_immediates bytes r op) depth levels

unfoldable pub branch_round : Bytes → Rd → ℕ → ℕ → Scan
unfolding rd_u8 branch_mark mark_of
branch_round bytes r depth levels =
    let (op, r') = rd_u8 bytes r in branch_mark bytes r' op depth levels (mark_of op)

unfoldable pub branch_target : Bytes → (pc end levels : ℕ) → Option ℕ
unfolding branch_round scan_loop
branch_target bytes pc end levels =
    scan_loop (branch_round bytes) (end - pc + 1) (record { p = pc; end = end; err = false }) 0
      levels

-- The same for `else_or_end`, which counts no levels: they are passed on unchanged.
unfoldable pub else_mark : Bytes → Rd → (op depth levels : ℕ) → Mark → Scan
unfolding skip_blocktype skip_immediates
else_mark bytes r op depth levels opening = more (skip_blocktype bytes r) (suc depth) levels
else_mark bytes r op zero levels ending = found r.p
else_mark bytes r op (suc depth) levels ending = more r depth levels
else_mark bytes r op zero levels otherwise = found r.p
else_mark bytes r op (suc depth) levels otherwise =
    more (skip_immediates bytes r op) (suc depth) levels
else_mark bytes r op depth levels plain = more (skip_immediates bytes r op) depth levels

unfoldable pub else_round : Bytes → Rd → ℕ → ℕ → Scan
unfolding rd_u8 else_mark mark_of
else_round bytes r depth levels =
    let (op, r') = rd_u8 bytes r in else_mark bytes r' op depth levels (mark_of op)

unfoldable pub else_or_end : Bytes → (pc end : ℕ) → Option ℕ
unfolding else_round scan_loop
else_or_end bytes pc end =
    scan_loop (else_round bytes) (end - pc + 1) (record { p = pc; end = end; err = false }) 0 0
