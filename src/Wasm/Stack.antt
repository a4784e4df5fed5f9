-- ===== src/Wasm/Stack.antt =====
-- `PUSH` and `POP` of wasm/wasm.c on the operand stack. A `POP` above the array is the only access
-- here that the source does not check.
use jvmos_jit.Base.{ℕ, ◌+◌, ◌-◌, ltb, leb, ◌==◌, if◌then◌else◌}
use jvmos_jit.Wasm.Module.{wasm_stack, bad_stack, Cmd, ok, fail, wild, update}

module _ {U : Type 0} where
  unfoldable pub push : ℕ → Cmd U (Unit {0})
  push v m =
      if leb wasm_stack m.sp
      then fail bad_stack m
      else ok tt (record m { stack = update m.stack m.sp v; sp = m.sp + 1 })

  unfoldable pub pop : Cmd U ℕ
  pop m =
      if m.sp == 0
      then fail bad_stack m
      else if ltb wasm_stack m.sp
      then wild
      else ok (m.stack (m.sp - 1)) (record m { sp = m.sp - 1 })
