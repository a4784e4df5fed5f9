-- ===== src/Wasm/Exec/Step.antt =====
-- The body of the loop of `run` in wasm/wasm.c: one opcode, read and carried out.
use jvmos_jit.Base.{ℕ, ◌+◌, Bool, true, false, ◌&&◌, Option, none, some, leb, ◌==◌, if◌then◌else◌}
use jvmos_jit.Wasm.Reader.{Bytes, Rd, rd_u8, rd_uleb, rd_sleb}
use jvmos_jit.Wasm.Alu.{clz32, ctz32, popcnt32, compare_op, binary_of, apply, from_bool}
use jvmos_jit.Wasm.Module.{
  truncated, unsupported, trap, bad_type, Cmd, ok, fail, update, pure, and_then, ◌>>=◌, ◌>>◌, get,
  modify, throw, fail_if,
}
use jvmos_jit.Wasm.Stack.{push, pop}
use jvmos_jit.Wasm.Memory.{run_access, memory_size, memory_grow}
use jvmos_jit.Wasm.Exec.Frame.{Frame, Next, next, stop, call}
use jvmos_jit.Wasm.Exec.Branch.{
  open_block, open_if, skip_else, end_block, run_br, run_br_if, run_br_table,
}

-- The chain of tests on the opcode.
pub data Op : Type 0 where
  unreachable nop block loop if_begin else_arm end_mark br br_if br_table return_op call_op
        call_indirect :
      Op
  drop select local_get local_set local_tee global_get global_set : Op
  memory_access size_op grow_op const_op eqz comparison clz ctz popcnt binary unknown : Op

unfoldable pub op_of : ℕ → Op
op_of op =
    if op == 0x00
    then unreachable
    else if op == 0x01
    then nop
    else if op == 0x02
    then block
    else if op == 0x03
    then loop
    else if op == 0x04
    then if_begin
    else if op == 0x05
    then else_arm
    else if op == 0x0B
    then end_mark
    else if op == 0x0C
    then br
    else if op == 0x0D
    then br_if
    else if op == 0x0E
    then br_table
    else if op == 0x0F
    then return_op
    else if op == 0x10
    then call_op
    else if op == 0x11
    then call_indirect
    else if op == 0x1A
    then drop
    else if op == 0x1B
    then select
    else if op == 0x20
    then local_get
    else if op == 0x21
    then local_set
    else if op == 0x22
    then local_tee
    else if op == 0x23
    then global_get
    else if op == 0x24
    then global_set
    else if leb 0x28 op && leb op 0x3E
    then memory_access
    else if op == 0x3F
    then size_op
    else if op == 0x40
    then grow_op
    else if op == 0x41
    then const_op
    else if op == 0x45
    then eqz
    else if leb 0x46 op && leb op 0x4F
    then comparison
    else if op == 0x67
    then clz
    else if op == 0x68
    then ctz
    else if op == 0x69
    then popcnt
    else if leb 0x6A op && leb op 0x78
    then binary
    else unknown

-- `k >= nparams + nlocals`
abbrev pub no_local : Frame → ℕ → Bool
no_local fr k = leb (fr.nparams + fr.nlocals) k

module _ {U : Type 0} where
  -- `POP(a); PUSH(f(a))` and `POP(b); POP(a); PUSH(f(a, b))`, where `none` traps.
  unfoldable pub unary : (ℕ → ℕ) → Cmd U (Unit {0})
  unfolding push pop
  unary f = do a ← pop; push (f a)

  abbrev pub push_or_trap : Option ℕ → Cmd U (Unit {0})
  push_or_trap none = throw trap
  push_or_trap (some v) = push v

  unfoldable pub binary_op : (ℕ → ℕ → Option ℕ) → Cmd U (Unit {0})
  unfolding push pop
  binary_op f = do b ← pop; a ← pop; push_or_trap (f a b)

  unfoldable pub run_select : Cmd U (Unit {0})
  unfolding push pop
  run_select = do c ← pop; b ← pop; a ← pop; push (if c == 0 then b else a)

  unfoldable pub get_local : Frame → ℕ → Cmd U (Unit {0})
  unfolding push
  get_local fr k = do
    fail_if (no_local fr k) bad_type
    m ← get
    push (m.locals (fr.locals_base + k))

  abbrev pub write_local : Frame → ℕ → ℕ → Cmd U (Unit {0})
  write_local fr k v = modify (λ m. record m { locals = update m.locals (fr.locals_base + k) v })

  unfoldable pub set_local : Frame → ℕ → Cmd U (Unit {0})
  unfolding pop
  set_local fr k = do fail_if (no_local fr k) bad_type; v ← pop; write_local fr k v

  -- `m->stack[m->sp - 1]` of a stack that is not empty.
  unfoldable pub tee_local : Frame → ℕ → Cmd U (Unit {0})
  unfolding pop
  tee_local fr k m =
      if no_local fr k then fail bad_type m else and_then (pop m) λ v _. write_local fr k v m

  unfoldable pub get_global : ℕ → Cmd U (Unit {0})
  unfolding push
  get_global k = do m ← get; fail_if (leb m.nglobals k) bad_type; push (m.globals k)

  unfoldable pub set_global : ℕ → Cmd U (Unit {0})
  unfolding pop
  set_global k = do
    m ← get
    fail_if (leb m.nglobals k) bad_type
    v ← pop
    modify (λ m'. record m' { globals = update m'.globals k v })

  -- Behind an index immediate, and behind none.
  abbrev pub indexed : Bytes → Rd → (ℕ → Cmd U (Unit {0})) → Cmd U Next
  indexed bytes r c = let (k, r') = rd_uleb bytes r in c k >> pure (next r')

  abbrev pub simply : Rd → Cmd U (Unit {0}) → Cmd U Next
  simply r c = c >> pure (next r)

  unfoldable pub run_op : Bytes → Frame → (op : ℕ) → Rd → Op → Cmd U Next
  unfolding rd_uleb rd_sleb clz32 ctz32 popcnt32 compare_op binary_of apply push pop unary binary_op
      run_select get_local set_local tee_local get_global set_global run_access memory_size
      memory_grow open_block open_if skip_else end_block run_br run_br_if run_br_table
  run_op bytes fr op r unreachable = throw trap
  run_op bytes fr op r nop = pure (next r)
  run_op bytes fr op r block = open_block bytes false r
  run_op bytes fr op r loop = open_block bytes true r
  run_op bytes fr op r if_begin = open_if bytes r
  run_op bytes fr op r else_arm = skip_else bytes fr r
  run_op bytes fr op r end_mark = end_block fr r
  run_op bytes fr op r br = run_br bytes fr r
  run_op bytes fr op r br_if = run_br_if bytes fr r
  run_op bytes fr op r br_table = run_br_table bytes fr r
  run_op bytes fr op r return_op = do modify (λ m. record m { cp = fr.ctrl_base }); pure stop
  run_op bytes fr op r call_op =
      let (callee, r') = rd_uleb bytes r in fail_if r'.err truncated >> pure (call callee r')
  run_op bytes fr op r call_indirect = throw unsupported
  run_op bytes fr op r drop = pop >>= λ _. pure (next r)
  run_op bytes fr op r select = simply r run_select
  run_op bytes fr op r local_get = indexed bytes r (get_local fr)
  run_op bytes fr op r local_set = indexed bytes r (set_local fr)
  run_op bytes fr op r local_tee = indexed bytes r (tee_local fr)
  run_op bytes fr op r global_get = indexed bytes r get_global
  run_op bytes fr op r global_set = indexed bytes r set_global
  run_op bytes fr op r memory_access = run_access bytes op r >>= λ r'. pure (next r')
  run_op bytes fr op r size_op = memory_size bytes r >>= λ r'. pure (next r')
  run_op bytes fr op r grow_op = memory_grow bytes r >>= λ r'. pure (next r')
  run_op bytes fr op r const_op = let (v, r') = rd_sleb bytes r in simply r' (push v)
  run_op bytes fr op r eqz = simply r (unary (λ a. from_bool (a == 0)))
  run_op bytes fr op r comparison = simply r (binary_op (λ a b. some (compare_op op a b)))
  run_op bytes fr op r clz = simply r (unary clz32)
  run_op bytes fr op r ctz = simply r (unary ctz32)
  run_op bytes fr op r popcnt = simply r (unary popcnt32)
  run_op bytes fr op r binary = simply r (binary_op (apply (binary_of op)))
  run_op bytes fr op r unknown = throw unsupported

  -- One round: the end of the code leaves the loop, and otherwise an opcode is read.
  unfoldable pub step : Bytes → Frame → Rd → Cmd U Next
  unfolding rd_u8 op_of run_op
  step bytes fr r m =
      let (op, r') = rd_u8 bytes r in
      if leb r.end r.p
      then ok stop m
      else if r'.err
      then fail truncated m
      else run_op bytes fr op r' (op_of op) m
