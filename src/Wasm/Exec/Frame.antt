-- ===== src/Wasm/Exec/Frame.antt =====
-- The variables of one activation of `run`, and what an instruction tells its loop to do.
use jvmos_jit.Base.{ℕ}
use jvmos_jit.Wasm.Reader.{Rd}

pub record Frame : Type 0 where
  pub nparams : ℕ
  pub nlocals : ℕ
  pub nresults : ℕ
  pub locals_base : ℕ
  pub ctrl_base : ℕ
  pub sp_base : ℕ
  pub level : ℕ

-- Go on with the next instruction, leave the loop, call a function and then go on, or never end.
pub data Next : Type 0 where
  next : Rd → Next
  stop : Next
  call : ℕ → Rd → Next
  spin : Next
