-- ===== src/Wasm/Exec/Safe/Escape.antt =====
-- When `br` of `run` in wasm/wasm.c leaves the module's arrays: where the label is inside `ctrl`
-- and its values fit on the stack it does not, and where they do not fit it does.
use jvmos_jit.Base.{ℕ, ◌+◌, ◌-◌, ◌≤◌, ◌<◌, ◌≡◌, refl, false, arith, ltb, leb}
use jvmos_jit.Wasm.Reader.{Bytes, Rd}
use jvmos_jit.Wasm.Module.{WasmModule, wasm_stack, wasm_ctrl, wild}
use jvmos_jit.Wasm.Module.Post.{Sound, Kept}
use jvmos_jit.Wasm.Exec.Frame.{Frame}
use jvmos_jit.Wasm.Exec.Branch.{label_index, leaves_frame, take_label, branch}
use jvmos_jit.Wasm.Exec.Safe.Branches.{FrameFits, branch-Kept, copy_down-wild}

module _ {U : Type 0} where
  -- A branch to a label whose index lies inside `ctrl`, and whose height and arity together fit the
  -- operand stack, never leaves the arrays: it ends, with an error or without, in a state that the
  -- invariant holds in, and leaves the bytes behind the buffer alone.
  pub branch_confined :
      (bytes : Bytes) (fr : Frame) (levels : ℕ) (r : Rd) (m : WasmModule U)
      → Sound m
      → FrameFits fr
      → label_index m.cp levels < wasm_ctrl
      → (m.ctrl (label_index m.cp levels)).sp + (m.ctrl (label_index m.cp levels)).arity
        ≤ wasm_stack
      → Kept ⊥ m (branch bytes fr levels r m)
  branch_confined bytes fr levels r m s fits index room =
      branch-Kept ⊥ bytes fr levels r m s fits (λ h. absurd (omega (arith, h, index)))
        (λ h. absurd (omega (arith, h, room)))

  -- The stack is not checked against the label's height: from a label that was opened inside the
  -- operand stack, with an arity that passes its end, a branch that finds enough operands writes
  -- outside the stack.
  pub branch_escapes :
      (bytes : Bytes) (fr : Frame) (levels : ℕ) (r : Rd) (m : WasmModule U)
      → leaves_frame fr m.cp levels ≡ false
      → label_index m.cp levels < wasm_ctrl
      → (m.ctrl (label_index m.cp levels)).arity ≤ m.sp
      → (m.ctrl (label_index m.cp levels)).sp ≤ wasm_stack
      → wasm_stack
        < (m.ctrl (label_index m.cp levels)).sp + (m.ctrl (label_index m.cp levels)).arity
      → branch bytes fr levels r m ≡ wild
  unfolding branch take_label
  branch_escapes bytes fr levels r m stays index enough height above =
      let lab = m.ctrl (label_index m.cp levels) in
      let inside : leb wasm_ctrl (label_index m.cp levels) ≡ false = ground (arith, index) in
      let full : ltb m.sp lab.arity ≡ false = ground (arith, enough) in
      rw (stays, inside, full, copy_down-wild lab.arity lab.sp (m.sp - lab.arity) m height above)
        refl
