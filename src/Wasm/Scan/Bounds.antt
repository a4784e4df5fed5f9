-- ===== src/Wasm/Scan/Bounds.antt =====
-- The scans stay inside the code: skipping an instruction's immediates never moves the reader
-- backwards or past its end, and a target that a scan finds lies behind its start and inside.
use jvmos_jit.Base.{
  ℕ, zero, suc, ◌+◌, ◌-◌, ◌≤◌, ◌<◌, ◌≡◌, Bool, true, false, Option, none, some, arith,
  if◌then◌else◌,
}
use mathlib.Core.Path.{subst, sym, refl, ◌∙◌}
use jvmos_jit.Base.Word.{IsU32, u32}
use jvmos_jit.Wasm.Reader.{Bytes, Rd, rd_u8, rd_uleb}
use jvmos_jit.Wasm.Reader.Bounds.{
  Advances, Advances-refl, Advances-trans, rd_u8-Takes, rd_uleb-Takes, rd_sleb-Takes,
  rd_skip-Advances,
}
use jvmos_jit.Wasm.Scan.{
  Immediates, blocktype, index, table, two_indices, byte, signed, fixed, none_at_all, immediates,
  skip_kind, skip_blocktype, skip_table, skip_br_table, skip_immediates, Mark, opening, ending,
  otherwise, plain, Scan, found, more, branch_mark, else_mark, branch_round, scan_on, scan_loop,
  is_live, branch_target, else_round, else_or_end,
}

pub skip_blocktype-Advances : (bytes : Bytes) (r : Rd) → Advances r (skip_blocktype bytes r)
unfolding skip_blocktype
skip_blocktype-Advances bytes r = ground (arith, rd_sleb-Takes bytes r)

skip_table-Advances :
    (fuel : ℕ) (bytes : Bytes) (r : Rd) (i n : ℕ) → Advances r (skip_table fuel bytes r i n)
unfolding skip_table
skip_table-Advances zero bytes r i n = Advances-refl r
skip_table-Advances (suc fuel) bytes r i n = ground (
  arith,
  rd_uleb-Takes bytes r,
  skip_table-Advances fuel bytes (rd_uleb bytes r).1 (u32 (i + 1)) n,
)

skip_br_table-Advances : (bytes : Bytes) (r : Rd) → Advances r (skip_br_table bytes r)
unfolding skip_br_table
skip_br_table-Advances bytes r =
    let (n, r') = rd_uleb bytes r in
    Advances-trans r r' _ (rd_uleb-Takes bytes r).advances
      (skip_table-Advances (r'.end - r'.p + 2) bytes r' 0 n)

skip_kind-Advances :
    (bytes : Bytes) (r : Rd) (kind : Immediates)
    → r.p ≤ r.end
    → IsU32 r.end
    → Advances r (skip_kind bytes r kind)
unfolding skip_kind
skip_kind-Advances bytes r blocktype inside small = skip_blocktype-Advances bytes r
skip_kind-Advances bytes r index inside small = (rd_uleb-Takes bytes r).advances
skip_kind-Advances bytes r table inside small = skip_br_table-Advances bytes r
skip_kind-Advances bytes r two_indices inside small =
    let r' = (rd_uleb bytes r).1 in
    Advances-trans r r' _ (rd_uleb-Takes bytes r).advances (rd_uleb-Takes bytes r').advances
skip_kind-Advances bytes r byte inside small = (rd_u8-Takes bytes r).advances
skip_kind-Advances bytes r signed inside small = (rd_sleb-Takes bytes r).advances
skip_kind-Advances bytes r (fixed n) inside small = rd_skip-Advances r n inside small
skip_kind-Advances bytes r none_at_all inside small = Advances-refl r

-- Whatever the opcode, skipping its immediates keeps a reader that is inside its input inside, does
-- not move it backwards and does not clear an error.
pub skip_immediates-Advances :
    (bytes : Bytes) (r : Rd) (op : ℕ)
    → r.p ≤ r.end
    → IsU32 r.end
    → Advances r (skip_immediates bytes r op)
unfolding skip_immediates
skip_immediates-Advances bytes r op = skip_kind-Advances bytes r (immediates op)

-- What a round does to the reader: a found position lies behind `r`, and otherwise the reader has
-- taken a byte and is still inside.
abbrev pub RoundInside : Rd → Scan → Type 0
RoundInside r (found q) = (r.p < q) × (q ≤ r.end)
RoundInside r (more r' d l) = (r.p < r'.p) × (r'.p ≤ r.end) × (r'.end ≡ r.end)

-- The reader of a round has taken one byte of `r`.
module _ (bytes : Bytes) (r : Rd) (op : ℕ) (inside : r.p < r.end) (small : IsU32 r.end) where
  abbrev behind : Rd
  behind = record r { p = r.p + 1 }

  plainly : (d l : ℕ) → RoundInside r (more (skip_immediates bytes behind op) d l)
  plainly d l = ground (arith, skip_immediates-Advances bytes behind op (omega arith) small)

  nested : (d l : ℕ) → RoundInside r (more (skip_blocktype bytes behind) d l)
  nested d l = ground (arith, skip_blocktype-Advances bytes behind)

  branch_mark-RoundInside :
      (depth levels : ℕ) (mark : Mark)
      → RoundInside r (branch_mark bytes behind op depth levels mark)
  unfolding branch_mark
  branch_mark-RoundInside depth levels opening = nested (suc depth) levels
  branch_mark-RoundInside (suc depth) levels ending = omega arith
  branch_mark-RoundInside zero zero ending = omega arith
  branch_mark-RoundInside zero (suc levels) ending = omega arith
  branch_mark-RoundInside depth levels otherwise = omega arith
  branch_mark-RoundInside depth levels plain = plainly depth levels

  else_mark-RoundInside :
      (depth levels : ℕ) (mark : Mark) → RoundInside r (else_mark bytes behind op depth levels mark)
  unfolding else_mark
  else_mark-RoundInside depth levels opening = nested (suc depth) levels
  else_mark-RoundInside zero levels ending = omega arith
  else_mark-RoundInside (suc depth) levels ending = omega arith
  else_mark-RoundInside zero levels otherwise = omega arith
  else_mark-RoundInside (suc depth) levels otherwise = plainly (suc depth) levels
  else_mark-RoundInside depth levels plain = plainly depth levels

pub rd_u8_inside :
    (bytes : Bytes) (r : Rd) → r.p < r.end → rd_u8 bytes r ≡ (bytes r.p, record r { p = r.p + 1 })
unfolding rd_u8
rd_u8_inside bytes r h = ground arith

pub branch_round-RoundInside :
    (bytes : Bytes) (r : Rd) (depth levels : ℕ)
    → r.p < r.end
    → IsU32 r.end
    → RoundInside r (branch_round bytes r depth levels)
unfolding branch_round
branch_round-RoundInside bytes r depth levels inside small =
    rw (rd_u8_inside bytes r inside)
      (branch_mark-RoundInside bytes r (bytes r.p) inside small depth levels _)

pub else_round-RoundInside :
    (bytes : Bytes) (r : Rd) (depth levels : ℕ)
    → r.p < r.end
    → IsU32 r.end
    → RoundInside r (else_round bytes r depth levels)
unfolding else_round
else_round-RoundInside bytes r depth levels inside small =
    rw (rd_u8_inside bytes r inside)
      (else_mark-RoundInside bytes r (bytes r.p) inside small depth levels _)

-- A target lies behind the place where the scan began and at most at the end.
abbrev pub TargetInside : ℕ → ℕ → Option ℕ → Type 0
TargetInside pc end none = Unit
TargetInside pc end (some q) = (pc < q) × (q ≤ end)

-- A round that does not find it yet, and what the rest of the scan finds.
later : (pc p end : ℕ) (t : Option ℕ) → pc < p → TargetInside p end t → TargetInside pc end t
later pc p end none h k = tt
later pc p end (some q) h k = omega arith

scan_on-TargetInside :
    (r : Rd) (next : Rd → ℕ → ℕ → Option ℕ)
    → ((s : Rd) (depth levels : ℕ) → s.end ≡ r.end → TargetInside s.p s.end (next s depth levels))
    → (s : Scan) → RoundInside r s
    → TargetInside r.p r.end (scan_on next s)
unfolding scan_on
scan_on-TargetInside r next h (found q) inside = inside
scan_on-TargetInside r next h (more s depth levels) (past, inside, same) =
    later r.p s.p r.end _ past
      (subst (λ e. TargetInside s.p e (next s depth levels)) same (h s depth levels same))

TargetInside-if :
    (b : Bool) (pc end : ℕ) (t : Option ℕ)
    → (b ≡ true → TargetInside pc end t)
    → TargetInside pc end (if b then t else none)
TargetInside-if true pc end t h = h refl
TargetInside-if false pc end t h = tt

module _ (round : Rd → ℕ → ℕ → Scan) (last : ℕ)
    (within : (r : Rd) (depth levels : ℕ)
      → r.p < r.end
      → r.end ≡ last
      → RoundInside r (round r depth levels)) where
  scan_loop-TargetInside :
      (fuel : ℕ) (r : Rd) (depth levels : ℕ)
      → r.end ≡ last
      → TargetInside r.p r.end (scan_loop round fuel r depth levels)
  unfolding scan_loop
  scan_loop-TargetInside zero r depth levels e = tt
  scan_loop-TargetInside (suc fuel) r depth levels e =
      TargetInside-if (is_live r) r.p r.end _ λ live.
        scan_on-TargetInside r (scan_loop round fuel)
          (λ s d l same. scan_loop-TargetInside fuel s d l (same ∙ e)) (round r depth levels)
          (within r depth levels (ground arith) e)

-- A position that `branch_target` finds lies behind the place where it began, and inside the code.
pub branch_target-TargetInside :
    (bytes : Bytes) (pc end levels : ℕ)
    → IsU32 end
    → TargetInside pc end (branch_target bytes pc end levels)
unfolding branch_target
branch_target-TargetInside bytes pc end levels small =
    scan_loop-TargetInside (branch_round bytes) end
      (λ r depth l h e. branch_round-RoundInside bytes r depth l h (subst IsU32 (sym e) small))
      (end - pc + 1) (record { p = pc; end = end; err = false }) 0 levels refl

-- And so does one that `else_or_end` finds.
pub else_or_end-TargetInside :
    (bytes : Bytes) (pc end : ℕ) → IsU32 end → TargetInside pc end (else_or_end bytes pc end)
unfolding else_or_end
else_or_end-TargetInside bytes pc end small =
    scan_loop-TargetInside (else_round bytes) end
      (λ r depth l h e. else_round-RoundInside bytes r depth l h (subst IsU32 (sym e) small))
      (end - pc + 1) (record { p = pc; end = end; err = false }) 0 0 refl
