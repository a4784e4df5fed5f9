-- ===== src/Wasm/Examples.antt =====
-- The interpreter on a small module: one memory page, one data segment, and one function `f` that
-- returns 7; and on short pieces of code.
use jvmos_jit.Base.{
  ℕ, ◌-◌, ◌≤◌, ◌≡◌, refl, true, false, Option, none, some, List, [], ◌∷◌, arith, ◌==◌,
  if◌then◌else◌,
}
use jvmos_jit.Wasm.Reader.{Bytes, Rd, add_group, rd_u8, rd_uleb, rd_sleb}
use jvmos_jit.Wasm.Reader.Leb.{leb_value, sign_extended, rd_uleb-leb_value, rd_sleb-sign_extended}
use jvmos_jit.Wasm.Module.{WasmModule, HostEntry, Outcome, ok, fail, wild}
use jvmos_jit.Wasm.Module.Post.{Sound, Kept, mem_behind}
use jvmos_jit.Wasm.Memory.{run_access}
use jvmos_jit.Wasm.Memory.Isolation.{run_access_spares}
use jvmos_jit.Wasm.Load.{cleared, wasm_load}
use jvmos_jit.Wasm.Load.Confined.{Ends, wasm_load_confined}
use jvmos_jit.Wasm.Exec.Frame.{Frame}
use jvmos_jit.Wasm.Exec.Branch.{branch, label_index}
use jvmos_jit.Wasm.Exec.Step.{op_of, step}
use jvmos_jit.Wasm.Exec.Call.{wasm_call}
use jvmos_jit.Wasm.Exec.Safe.Branches.{FrameFits}
use jvmos_jit.Wasm.Exec.Safe.Steps.{step_tame}
use jvmos_jit.Wasm.Exec.Safe.Runs.{RunKept, wasm_call_confined}
use jvmos_jit.Wasm.Exec.Safe.Escape.{branch_confined, branch_escapes}
use jvmos_jit.Wasm.Sandbox.{LeavesHost, loaded_call_confined}

-- The address space that holds a list from 0 on.
at_zero : List ℕ → Bytes
at_zero [] i = 0
at_zero (b ∷ bs) i = let rest = at_zero bs (i - 1) in if i == 0 then b else rest

abbrev program : List ℕ
program =
    0x00 ∷ 0x61 ∷ 0x73 ∷ 0x6D ∷ 1 ∷ 0 ∷ 0 ∷ 0 ∷ 1 ∷ 5 ∷ 1 ∷ 0x60 ∷ 0 ∷ 1 ∷ 0x7F ∷ 3 ∷ 2 ∷ 1 ∷ 0 ∷ 5
    ∷ 3 ∷ 1 ∷ 0 ∷ 1 ∷ 7 ∷ 5 ∷ 1 ∷ 1 ∷ 0x66 ∷ 0 ∷ 0 ∷ 10 ∷ 6 ∷ 1 ∷ 4 ∷ 0 ∷ 0x41 ∷ 7 ∷ 0x0B ∷ 11 ∷ 7
    ∷ 1 ∷ 0 ∷ 0x41 ∷ 2 ∷ 0x0B ∷ 1 ∷ 0x2A ∷ []

abbrev no_hosts : ℕ → HostEntry (Unit {0})
no_hosts i = record { module_name = λ j. 0; name = λ j. 0; fn = λ args n u. (0, u) }

abbrev fresh : WasmModule (Unit {0})
fresh = cleared true (λ i. 0) 65536 no_hosts 0 tt

module_of : Option (Outcome (Unit {0}) (Unit {0})) → WasmModule (Unit {0})
module_of (some (ok u m)) = m
module_of (some (fail e m)) = m
module_of (some wild) = fresh
module_of none = fresh

abbrev f_name : ℕ → ℕ
f_name i = if i == 0 then 0x66 else 0

abbrev loaded : WasmModule (Unit {0})
loaded = module_of (wasm_load (at_zero program) 0 48 fresh)

value_of : Option (Outcome (Unit {0}) ℕ) → Option ℕ
value_of (some (ok v m)) = some v
value_of _ = none

f_returns : value_of (wasm_call 5 (at_zero program) f_name [] loaded) ≡ some 7
unfolding wasm_load wasm_call cleared at_zero module_of value_of add_group
f_returns = refl

loaded_ok : wasm_load (at_zero program) 0 48 fresh ≡ some (ok tt loaded)
unfolding wasm_load cleared at_zero module_of add_group
loaded_ok = refl

loaded_call_confined_example :
    LeavesHost (λ i. 0) 65536 (wasm_call 5 (at_zero program) f_name [] loaded)
loaded_call_confined_example =
    loaded_call_confined (at_zero program) 0 48 true (λ i. 0) 65536 no_hosts 0 tt loaded 5 f_name []
      loaded_ok

-- A module with one label that is open at the given height.
abbrev with_label : (height arity sp : ℕ) → WasmModule (Unit {0})
with_label height arity sp = record fresh {
  mem_limit = 65536;
  sp = sp;
  ctrl = λ i. record { cont = 4; is_loop = true; arity = arity; sp = height };
  cp = 1;
}

with_label-Sound :
    (height arity sp : ℕ) → height ≤ 512 → sp ≤ 512 → Sound (with_label height arity sp)
unfolding cleared
with_label-Sound height arity sp h k = record {
  sp_fits = k;
  lp_fits = omega arith;
  cp_fits = omega arith;
  labels_fit = λ i. h;
  limit_fits = omega arith;
}

abbrev frame : Frame
frame = record {
  nparams = 0;
  nlocals = 0;
  nresults = 0;
  locals_base = 0;
  ctrl_base = 0;
  sp_base = 0;
  level = 0;
}

frame-FrameFits : FrameFits frame
frame-FrameFits = record {
  sp_base_fits = omega arith;
  ctrl_base_fits = omega arith;
  locals_fit = omega arith;
}

abbrev reader : (p end : ℕ) → Rd
reader p end = record { p = p; end = end; err = false }

wasm_call_confined_example :
    RunKept (with_label 3 1 5) (wasm_call 5 (at_zero program) f_name [] (with_label 3 1 5))
wasm_call_confined_example =
    wasm_call_confined 5 (at_zero program) f_name [] (with_label 3 1 5)
      (with_label-Sound 3 1 5 (omega arith) (omega arith))

wasm_load_confined_example : Ends 48 fresh (wasm_load (at_zero program) 0 48 fresh)
wasm_load_confined_example =
    wasm_load_confined (at_zero program) 0 48 true (λ i. 0) 65536 no_hosts 0 tt

-- i32.add on a stack of five values.
step_tame_example :
    Kept ⊥
      (with_label 3 1 5)
      (step (at_zero (0x6A ∷ 0x0B ∷ [])) frame (reader 0 2) (with_label 3 1 5))
unfolding at_zero rd_u8 op_of
step_tame_example =
    step_tame (at_zero (0x6A ∷ 0x0B ∷ [])) frame (reader 0 2) (with_label 3 1 5) frame-FrameFits
      (with_label-Sound 3 1 5 (omega arith) (omega arith)) (λ x. x)

-- i32.store
run_access_spares_example :
    mem_behind
      (with_label 3 1 5)
      (run_access (at_zero (0x02 ∷ 0x08 ∷ [])) 0x36 (reader 0 2) (with_label 3 1 5))
      65536
    ≡ 0
unfolding cleared
run_access_spares_example =
    run_access_spares (at_zero (0x02 ∷ 0x08 ∷ [])) 0x36 (reader 0 2) 65536 (with_label 3 1 5)
      (omega arith)

branch_confined_example :
    Kept ⊥ (with_label 3 1 5) (branch (at_zero program) frame 0 (reader 0 48) (with_label 3 1 5))
unfolding cleared label_index
branch_confined_example =
    branch_confined (at_zero program) frame 0 (reader 0 48) (with_label 3 1 5)
      (with_label-Sound 3 1 5 (omega arith) (omega arith)) frame-FrameFits (omega arith)
      (omega arith)

-- A label that was opened on a full stack, and keeps one value.
branch_escapes_example :
    branch (at_zero program) frame 0 (reader 0 48) (with_label 512 1 512) ≡ wild
unfolding cleared label_index
branch_escapes_example =
    branch_escapes (at_zero program) frame 0 (reader 0 48) (with_label 512 1 512) refl (omega arith)
      (omega arith) (omega arith) (omega arith)

-- 0xE5 0x8E 0x26 spells 624485.
abbrev leb_bytes : Bytes
leb_bytes i = if i == 0 then 0xE5 else if i == 1 then 0x8E else 0x26

rd_uleb-leb_value_example : rd_uleb leb_bytes (reader 0 3) ≡ (624485, reader 3 3)
unfolding leb_value
rd_uleb-leb_value_example =
    rd_uleb-leb_value leb_bytes (reader 0 3) 3
      (omega arith, omega arith, (omega arith, omega arith, omega arith)) (omega arith)
      (omega arith) refl

rd_sleb-sign_extended_example :
    rd_sleb (λ i. 0x7B) (reader 0 1) ≡ (sign_extended 7 (leb_value (λ i. 0x7B) 0 1), reader 1 1)
rd_sleb-sign_extended_example =
    rd_sleb-sign_extended (λ i. 0x7B) (reader 0 1) 0 (omega arith) (omega arith) (omega arith) refl

-- `if`, nop, `else`, i32.const 7, drop, `end`, and the end of the enclosing block.
abbrev arms : Bytes
arms = at_zero (0x04 ∷ 0x40 ∷ 0x01 ∷ 0x05 ∷ 0x41 ∷ 0x07 ∷ 0x1A ∷ 0x0B ∷ 0x0B ∷ [])
