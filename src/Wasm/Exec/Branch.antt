-- ===== src/Wasm/Exec/Branch.antt =====
-- Structured control of `run` in wasm/wasm.c: `block`, `loop`, `if`, `else`, `end`, `br`, `br_if`
-- and `br_table`.
--
-- `(int)levels` is negative from 2 ^ 31 on, so the test against the number of open labels lets it
-- through and the index of the label lies above `m->cp`: `label_index` has both cases.
use jvmos_jit.Base.{
  ℕ, zero, suc, ◌+◌, ◌-◌, ◌^◌, Bool, true, false, ◌&&◌, Option, none, some, ltb, leb, ◌==◌,
  if◌then◌else◌,
}
use jvmos_jit.Base.Word.{u8, int_neg}
use jvmos_jit.Wasm.Reader.{Bytes, Rd, rd_uleb, rd_sleb}
use jvmos_jit.Wasm.Scan.{branch_target, else_or_end}
use jvmos_jit.Wasm.Module.{
  WasmModule, WasmLabel, wasm_stack, wasm_ctrl, truncated, bad_stack, Cmd, ok, fail, wild, update,
  pure, and_then, ◌>>=◌, ◌>>◌, get, modify, throw, fail_if, wild_if,
}
use jvmos_jit.Wasm.Stack.{pop}
use jvmos_jit.Wasm.Exec.Frame.{Frame, Next, next, stop, spin}

-- `m->cp - 1 - (int)levels`
unfoldable pub label_index : ℕ → ℕ → ℕ
label_index cp levels = if int_neg levels then cp + (2 ^ 32 - levels) - 1 else cp - 1 - levels

-- `(int)levels >= m->cp - ctrl_base`
abbrev pub leaves_frame : Frame → ℕ → ℕ → Bool
leaves_frame fr cp levels = if int_neg levels then false else leb (cp - fr.ctrl_base) levels

-- `for (k = 0; k <= n; k++) { v = rd_uleb(&r); if (k == chosen) target = v; }`, with the rounds
-- left as the first argument.
unfoldable pub read_table : ℕ → Bytes → Rd → (k chosen target : ℕ) → ℕ × Rd
unfolding rd_uleb
read_table zero bytes r k chosen target = (target, r)
read_table (suc left) bytes r k chosen target =
    let (v, r') = rd_uleb bytes r in
    read_table left bytes r' (k + 1) chosen (if k == chosen then v else target)

module _ {U : Type 0} where
  -- The arity, and the reader behind the block type.
  unfoldable pub blocktype_arity : Bytes → WasmModule U → Rd → ℕ × Rd
  unfolding rd_sleb
  blocktype_arity bytes m r =
      let (index, r') = rd_sleb bytes r in
      if leb r.end r.p
      then (0, record r { err = true })
      else if bytes r.p == 0x40
      then (0, record r { p = r.p + 1 })
      else if leb 0x7B (bytes r.p) && leb (bytes r.p) 0x7F
      then (1, record r { p = r.p + 1 })
      else if int_neg index
      then (0, record r' { err = true })
      else if leb m.ntypes index
      then (0, record r' { err = true })
      else ((m.types index).nresults, r')

  -- `m->ctrl[m->cp] = ...; m->cp++`, behind the test for room.
  unfoldable pub push_label : WasmLabel → Cmd U (Unit {0})
  push_label label m =
      if leb wasm_ctrl m.cp
      then fail bad_stack m
      else ok tt (record m { ctrl = update m.ctrl m.cp label; cp = m.cp + 1 })

  unfoldable pub open_block : Bytes → (is_loop : Bool) → Rd → Cmd U Next
  unfolding blocktype_arity push_label
  open_block bytes is_loop r = do
    m ← get
    let (arity, r') = blocktype_arity bytes m r
    fail_if r'.err truncated
    push_label (record {
      cont = r'.p;
      is_loop = is_loop;
      arity = (if is_loop then 0 else u8 arity);
      sp = m.sp;
    })
    pure (next r')

  -- `if (dst[-1] == 0x0B) m->cp--;`
  unfoldable pub enter_arm : Bytes → Rd → Option ℕ → Cmd U Next
  enter_arm bytes r none = throw truncated
  enter_arm bytes r (some dst) = do
    modify (λ m. record m { cp = if bytes (dst - 1) == 0x0B then m.cp - 1 else m.cp })
    pure (next (record r { p = dst }))

  unfoldable pub open_if : Bytes → Rd → Cmd U Next
  unfolding blocktype_arity push_label enter_arm else_or_end pop
  open_if bytes r = do
    m ← get
    let (arity, r') = blocktype_arity bytes m r
    fail_if r'.err truncated
    cond ← pop
    m' ← get
    push_label (record { cont = 0; is_loop = false; arity = u8 arity; sp = m'.sp })
    if cond == 0 then enter_arm bytes r' (else_or_end bytes r'.p r'.end) else pure (next r')

  -- `if (m->cp > ctrl_base) m->cp--;`
  abbrev pub drop_label : Frame → Cmd U (Unit {0})
  drop_label fr = modify (λ m. record m { cp = if ltb fr.ctrl_base m.cp then m.cp - 1 else m.cp })

  abbrev pub else_target : Frame → Rd → Option ℕ → Cmd U Next
  else_target fr r none = throw truncated
  else_target fr r (some dst) = do drop_label fr; pure (next (record r { p = dst }))

  unfoldable pub skip_else : Bytes → Frame → Rd → Cmd U Next
  unfolding branch_target
  skip_else bytes fr r = else_target fr r (branch_target bytes r.p r.end 0)

  unfoldable pub end_block : Frame → Rd → Cmd U Next
  end_block fr r m = if ltb fr.ctrl_base m.cp then (drop_label fr >> pure (next r)) m else ok stop m

  -- `for (k = 0; k < keep; k++) m->stack[to + k] = m->stack[from + k];`
  unfoldable pub copy_down : ℕ → (to from : ℕ) → Cmd U (Unit {0})
  copy_down zero to from = pure tt
  copy_down (suc n) to from = do
    wild_if (leb wasm_stack to)
    wild_if (leb wasm_stack from)
    modify (λ m. record m { stack = update m.stack to (m.stack from) })
    copy_down n (to + 1) (from + 1)

  -- Forward past the block.
  abbrev pub jump_out : (index : ℕ) → Rd → Option ℕ → Cmd U Next
  jump_out index r none m = fail truncated m
  jump_out index r (some dst) m = ok (next (record r { p = dst })) (record m { cp = index })

  -- Behind the copied values: back to the start of a loop, whose label stays, or past the block.
  unfoldable pub jump : Bytes → WasmLabel → (index levels : ℕ) → Rd → Cmd U Next
  unfolding branch_target
  jump bytes lab index levels r m =
      if lab.is_loop
      then ok (next (record r { p = lab.cont })) (record m { cp = index + 1 })
      else jump_out index r (branch_target bytes r.p r.end levels) m

  -- The values that the label keeps, and the jump.
  unfoldable pub take_label : Bytes → WasmLabel → (index levels : ℕ) → Rd → Cmd U Next
  unfolding copy_down jump
  take_label bytes lab index levels r m =
      and_then (copy_down lab.arity lab.sp (m.sp - lab.arity) m)
        λ _ m'. jump bytes lab index levels r (record m' { sp = lab.sp + lab.arity })

  -- What `br` and `br_table` do with the number of levels to leave.
  unfoldable pub branch : Bytes → Frame → ℕ → Rd → Cmd U Next
  unfolding label_index take_label
  branch bytes fr levels r m =
      let index = label_index m.cp levels in
      let lab = m.ctrl index in
      if leaves_frame fr m.cp levels
      then ok stop (record m { cp = fr.ctrl_base })
      else if leb wasm_ctrl index
      then wild
      else if ltb m.sp lab.arity
      then fail bad_stack m
      else take_label bytes lab index levels r m

  unfoldable pub run_br : Bytes → Frame → Rd → Cmd U Next
  unfolding rd_uleb branch
  run_br bytes fr r = let (levels, r') = rd_uleb bytes r in branch bytes fr levels r'

  unfoldable pub run_br_if : Bytes → Frame → Rd → Cmd U Next
  unfolding rd_uleb branch pop
  run_br_if bytes fr r =
      let (levels, r') = rd_uleb bytes r in
      do cond ← pop; if cond == 0 then pure (next r') else branch bytes fr levels r'

  -- `if (r.err) return WASM_ERR_TRUNCATED;` and the branch.
  abbrev pub branch_checked : Bytes → Frame → ℕ → Rd → Cmd U Next
  branch_checked bytes fr levels r = fail_if r.err truncated >> branch bytes fr levels r

  -- With `n` at its largest the test `k <= n` never fails, and the instruction never ends.
  unfoldable pub run_br_table : Bytes → Frame → Rd → Cmd U Next
  unfolding rd_uleb read_table branch pop
  run_br_table bytes fr r = do
    let (n, r') = rd_uleb bytes r
    idx ← pop
    let chosen = if ltb idx n then idx else n
    let (target, r'') = read_table (n + 1) bytes r' 0 chosen 0
    if n == 2 ^ 32 - 1 then pure spin else branch_checked bytes fr target r''
