-- ===== src/Wasm/Exec/Safe/Branches.antt =====
-- The control instructions keep the invariant of the interpreter. A branch may leave the arrays (a
-- label whose height and arity pass the end of the stack, or a level count that is negative as an
-- `int`); where it does not, it keeps the invariant too.
use mathlib.Core.Path.{◌≡◌, refl}
use jvmos_jit.Base.{
  ℕ, zero, suc, ◌+◌, ◌-◌, ◌≤◌, ◌<◌, ◌^◌, Bool, true, false, Option, none, some, arith, ltb, leb,
  ◌==◌, if◌then◌else◌, Bool-cases, inl, inr,
}
use jvmos_jit.Wasm.Reader.{Bytes, Rd, rd_uleb}
use jvmos_jit.Wasm.Scan.{branch_target, else_or_end}
use jvmos_jit.Wasm.Module.{
  WasmModule, WasmLabel, wasm_stack, wasm_ctrl, wasm_locals, truncated, ok, wild, update, fail_if,
  wild_if,
}
use jvmos_jit.Wasm.Module.Post.{
  unchanged, Sound, Keeps, Keeps-refl, Kept, Keeping, Kept-bind, Kept-then, Kept-before, bind,
  pure-Keeping, fail_if-Keeping, Kept-if,
}
use jvmos_jit.Wasm.Stack.{pop}
use jvmos_jit.Wasm.Memory.Isolation.{pop-Keeping}
use jvmos_jit.Wasm.Exec.Frame.{Frame, next}
use jvmos_jit.Wasm.Exec.Branch.{
  blocktype_arity, push_label, open_block, enter_arm, open_if, drop_label, else_target, skip_else,
  end_block, label_index, leaves_frame, copy_down, jump_out, jump, take_label, branch, run_br,
  run_br_if, read_table, run_br_table, branch_checked,
}

-- The bases of an activation lie inside the arrays, and so do all of its locals.
pub record FrameFits (fr : Frame) : Type 0 where
  pub sp_base_fits : fr.sp_base ≤ wasm_stack
  pub ctrl_base_fits : fr.ctrl_base ≤ wasm_ctrl
  pub locals_fit : fr.locals_base + (fr.nparams + fr.nlocals) ≤ wasm_locals

update-sp :
    (ctrl : ℕ → WasmLabel) (i j : ℕ) (label : WasmLabel)
    → label.sp ≤ wasm_stack
    → (ctrl j).sp ≤ wasm_stack
    → (update ctrl i label j).sp ≤ wasm_stack
update-sp ctrl i j label h k = elim (Bool-cases (i == j)) [
  | inl same ↦ rw same h
  | inr other ↦ rw other k
]

-- `if (...) m->cp--;`
one_less : (b : Bool) (cp : ℕ) → cp ≤ wasm_ctrl → (if b then cp - 1 else cp) ≤ wasm_ctrl
one_less true cp h = omega arith
one_less false cp h = h

module _ {U : Type 0} where
  -- Moving the control stack within its array changes nothing else.
  pub set_cp :
      (m : WasmModule U) (cp : ℕ) → Sound m → cp ≤ wasm_ctrl → Keeps m (record m { cp = cp })
  set_cp m cp s h = record {
    sound = record {
      sp_fits = s.sp_fits;
      lp_fits = s.lp_fits;
      cp_fits = h;
      labels_fit = s.labels_fit;
      limit_fits = s.limit_fits;
    };
    same_bytes = refl;
    same_hosts = refl;
    reached = unchanged;
    outside = λ a p. refl;
  }

  push_label-Kept :
      (W : Type 0) (label : WasmLabel) (m : WasmModule U)
      → Sound m
      → label.sp ≤ wasm_stack
      → Kept W m (push_label label m)
  unfolding push_label
  push_label-Kept W label m s h =
      Kept-if W m (leb wasm_ctrl m.cp) _ _ (λ full. Keeps-refl m s)
        λ room. record {
          sound = record {
            sp_fits = s.sp_fits;
            lp_fits = s.lp_fits;
            cp_fits = ground arith;
            labels_fit = λ i. update-sp m.ctrl m.cp i label h (s.labels_fit i);
            limit_fits = s.limit_fits;
          };
          same_bytes = refl;
          same_hosts = refl;
          reached = unchanged;
          outside = λ a p. refl;
        }

  pub open_block-Keeping :
      (W : Type 0) (bytes : Bytes) (is_loop : Bool) (r : Rd)
      → Keeping W (open_block {U = U} bytes is_loop r)
  unfolding open_block
  open_block-Keeping W bytes is_loop r m s =
      let (arity, r') = blocktype_arity bytes m r in
      Kept-then W m (fail_if r'.err truncated m) _ (fail_if-Keeping W r'.err truncated m s)
        λ _ n kept.
          Kept-bind W n (push_label _ n) _ (push_label-Kept W _ n kept.sound s.sp_fits)
            λ _. pure-Keeping W (next r')

  enter_arm-Keeping :
      (W : Type 0) (bytes : Bytes) (r : Rd) (dst : Option ℕ)
      → Keeping W (enter_arm {U = U} bytes r dst)
  unfolding enter_arm
  enter_arm-Keeping W bytes r none m s = Keeps-refl m s
  enter_arm-Keeping W bytes r (some dst) m s = set_cp m _ s (one_less _ m.cp s.cp_fits)

  pub open_if-Keeping : (W : Type 0) (bytes : Bytes) (r : Rd) → Keeping W (open_if {U = U} bytes r)
  unfolding open_if
  open_if-Keeping W bytes r m s =
      let (arity, r') = blocktype_arity bytes m r in
      Kept-then W m (fail_if r'.err truncated m) _ (fail_if-Keeping W r'.err truncated m s)
        λ _ n kept. Kept-then W n (pop n) _ (pop-Keeping W n kept.sound) λ cond n' kept'.
          Kept-bind W n' (push_label _ n') _
            (push_label-Kept W _ n' kept'.sound kept'.sound.sp_fits)
            λ _ n'' s''. elim (Bool-cases (cond == 0)) [
              | inl skips ↦
                  rw (skips, Kept)
                    (enter_arm-Keeping W bytes r' (else_or_end bytes r'.p r'.end) n'' s'')
              | inr enters ↦ rw (enters, Kept) (Keeps-refl n'' s'')
            ]

  drop_label-Keeping : (W : Type 0) (fr : Frame) → Keeping W (drop_label {U = U} fr)
  drop_label-Keeping W fr m s = set_cp m _ s (one_less _ m.cp s.cp_fits)

  else_target-Keeping :
      (W : Type 0) (fr : Frame) (r : Rd) (dst : Option ℕ) → Keeping W (else_target {U = U} fr r dst)
  else_target-Keeping W fr r none m s = Keeps-refl m s
  else_target-Keeping W fr r (some dst) m s = drop_label-Keeping W fr m s

  pub skip_else-Keeping :
      (W : Type 0) (bytes : Bytes) (fr : Frame) (r : Rd) → Keeping W (skip_else {U = U} bytes fr r)
  unfolding skip_else
  skip_else-Keeping W bytes fr r = else_target-Keeping W fr r (branch_target bytes r.p r.end 0)

  pub end_block-Keeping : (W : Type 0) (fr : Frame) (r : Rd) → Keeping W (end_block {U = U} fr r)
  unfolding end_block
  end_block-Keeping W fr r m s =
      Kept-if W m (ltb fr.ctrl_base m.cp) _ _ (λ open_label. drop_label-Keeping W fr m s)
        λ outermost. Keeps-refl m s

  -- A copy within the stack touches nothing else; the height is set by what follows.
  wild_if-Keeping : (W : Type 0) (b : Bool) → (b ≡ true → W) → Keeping W (wild_if {U = U} b)
  wild_if-Keeping W true w m s = w refl
  wild_if-Keeping W false w m s = Keeps-refl m s

  copied : (m : WasmModule U) (stack : ℕ → ℕ) → Sound m → Keeps m (record m { stack = stack })
  copied m stack s = record {
    sound = record {
      sp_fits = s.sp_fits;
      lp_fits = s.lp_fits;
      cp_fits = s.cp_fits;
      labels_fit = s.labels_fit;
      limit_fits = s.limit_fits;
    };
    same_bytes = refl;
    same_hosts = refl;
    reached = unchanged;
    outside = λ a p. refl;
  }

  -- With the whole copy inside the stack it does not leave it.
  copy_down-Keeping :
      (W : Type 0) (n to from : ℕ)
      → (wasm_stack < to + n → W)
      → (wasm_stack < from + n → W)
      → Keeping W (copy_down {U = U} n to from)
  unfolding copy_down
  copy_down-Keeping W zero to from t f m s = Keeps-refl m s
  copy_down-Keeping W (suc n) to from t f m s =
      Kept-bind W m (wild_if (leb wasm_stack to) m) _
        (wild_if-Keeping W _ (λ above. t (ground arith)) m s)
        λ _ m s.
          Kept-bind W m (wild_if (leb wasm_stack from) m) _
            (wild_if-Keeping W _ (λ above. f (ground arith)) m s)
            λ _ m s.
              Kept-bind W m (ok tt (record m { stack = update m.stack to (m.stack from) })) _
                (copied m (update m.stack to (m.stack from)) s)
                λ _.
                  copy_down-Keeping W n (to + 1) (from + 1) (λ h. t (omega arith))
                    (λ h. f (omega arith))

  -- And a copy to the top of the stack and past it always leaves it.
  pub copy_down-wild :
      (n to from : ℕ) (m : WasmModule U)
      → to ≤ wasm_stack
      → wasm_stack < to + n
      → copy_down n to from m ≡ wild
  unfolding copy_down
  copy_down-wild zero to from m h above = absurd (omega arith)
  copy_down-wild (suc n) to from m h above = elim (Bool-cases (leb wasm_stack to)) [
    | inl full ↦ rw full
    | inr room ↦ rw room (elim (Bool-cases (leb wasm_stack from)) [
      | inl over ↦ rw over
      | inr inside ↦ rw inside (copy_down-wild n (to + 1) (from + 1) _ (ground arith) (omega arith))
    ])
  ]

  jump_out-Keeping :
      (W : Type 0) (index : ℕ) (r : Rd) (dst : Option ℕ)
      → index < wasm_ctrl
      → Keeping W (jump_out {U = U} index r dst)
  jump_out-Keeping W index r none h m s = Keeps-refl m s
  jump_out-Keeping W index r (some dst) h m s = set_cp m index s (omega arith)

  jump-Keeping :
      (W : Type 0) (bytes : Bytes) (lab : WasmLabel) (index levels : ℕ) (r : Rd)
      → index < wasm_ctrl
      → Keeping W (jump {U = U} bytes lab index levels r)
  unfolding jump
  jump-Keeping W bytes lab index levels r h m s =
      Kept-if W m lab.is_loop _ _ (λ back. set_cp m (index + 1) s (omega arith))
        λ ahead. jump_out-Keeping W index r (branch_target bytes r.p r.end levels) h m s

  set_sp : (m : WasmModule U) (sp : ℕ) → Sound m → sp ≤ wasm_stack → Keeps m (record m { sp = sp })
  set_sp m sp s h = record {
    sound = record {
      sp_fits = h;
      lp_fits = s.lp_fits;
      cp_fits = s.cp_fits;
      labels_fit = s.labels_fit;
      limit_fits = s.limit_fits;
    };
    same_bytes = refl;
    same_hosts = refl;
    reached = unchanged;
    outside = λ a p. refl;
  }

  -- With room above the label the values move down inside the stack; without it the copy leaves it.
  take_label-Kept :
      (W : Type 0) (bytes : Bytes) (lab : WasmLabel) (index levels : ℕ) (r : Rd) (m : WasmModule U)
      → Sound m
      → index < wasm_ctrl
      → lab.sp ≤ wasm_stack
      → lab.arity ≤ m.sp
      → (wasm_stack < lab.sp + lab.arity → W)
      → Kept W m (take_label bytes lab index levels r m)
  unfolding take_label
  take_label-Kept W bytes lab index levels r m s h height enough no_room =
      elim (Bool-cases (ltb wasm_stack (lab.sp + lab.arity))) [
        | inl above ↦
            rw (copy_down-wild lab.arity lab.sp (m.sp - lab.arity) m height (ground arith), Kept)
              (no_room (ground arith))
        | inr room ↦
            Kept-bind W m (copy_down lab.arity lab.sp (m.sp - lab.arity) m) _
              (copy_down-Keeping W lab.arity lab.sp (m.sp - lab.arity) (λ p. absurd (ground arith))
                (λ p. absurd (omega (arith, s.sp_fits))) m s)
              λ _ n t. Kept-before W n _ _ (set_sp n (lab.sp + lab.arity) t (ground arith)) (
                jump-Keeping W bytes lab index levels r h _
                  (set_sp n (lab.sp + lab.arity) t (ground arith)).sound)
      ]

  -- A branch keeps the invariant, unless the label's index lies outside the control stack or the
  -- kept values do not fit above the label's height.
  pub branch-Kept :
      (W : Type 0) (bytes : Bytes) (fr : Frame) (levels : ℕ) (r : Rd) (m : WasmModule U)
      → Sound m
      → FrameFits fr
      → (wasm_ctrl ≤ label_index m.cp levels → W)
      → (wasm_stack
            < (m.ctrl (label_index m.cp levels)).sp + (m.ctrl (label_index m.cp levels)).arity
          → W)
      → Kept W m (branch bytes fr levels r m)
  unfolding branch
  branch-Kept W bytes fr levels r m s fits no_label no_room =
      let index = label_index m.cp levels in
      let lab = m.ctrl index in
      Kept-if W m (leaves_frame fr m.cp levels) _ _
        (λ out. set_cp m fr.ctrl_base s fits.ctrl_base_fits)
        λ within.
          Kept-if W m (leb wasm_ctrl index) _ _ (λ above. no_label (ground arith))
            λ inside.
              Kept-if W m (ltb m.sp lab.arity) _ _ (λ short. Keeps-refl m s)
                λ enough.
                  take_label-Kept W bytes lab index levels r m s (ground arith) (s.labels_fit index)
                    (ground arith) no_room

  pub branch-Keeping :
      (bytes : Bytes) (fr : Frame) (levels : ℕ) (r : Rd)
      → FrameFits fr
      → Keeping Unit (branch {U = U} bytes fr levels r)
  branch-Keeping bytes fr levels r fits m s =
      branch-Kept Unit bytes fr levels r m s fits (λ h. tt) (λ h. tt)

  branch_checked-Keeping :
      (bytes : Bytes) (fr : Frame) (levels : ℕ) (r : Rd)
      → FrameFits fr
      → Keeping Unit (branch_checked {U = U} bytes fr levels r)
  branch_checked-Keeping bytes fr levels r fits =
      bind Unit (fail_if r.err truncated) _ (fail_if-Keeping Unit r.err truncated)
        λ _. branch-Keeping bytes fr levels r fits

  module _ (bytes : Bytes) (fr : Frame) (r : Rd) (fits : FrameFits fr) where
    pub run_br-Keeping : Keeping Unit (run_br {U = U} bytes fr r)
    unfolding run_br
    run_br-Keeping = branch-Keeping bytes fr (rd_uleb bytes r).0 (rd_uleb bytes r).1 fits

    pub run_br_if-Keeping : Keeping Unit (run_br_if {U = U} bytes fr r)
    unfolding run_br_if
    run_br_if-Keeping m s =
        let (levels, r') = rd_uleb bytes r in
        Kept-bind Unit m (pop m) _ (pop-Keeping Unit m s) λ cond n t.
          elim (Bool-cases (cond == 0)) [
            | inl stays ↦ rw (stays, Kept) (Keeps-refl n t)
            | inr jumps ↦ rw (jumps, Kept) (branch-Keeping bytes fr levels r' fits n t)
          ]

    pub run_br_table-Keeping : Keeping Unit (run_br_table {U = U} bytes fr r)
    unfolding run_br_table
    run_br_table-Keeping m s =
        let (n, r') = rd_uleb bytes r in
        Kept-bind Unit m (pop m) _ (pop-Keeping Unit m s) λ idx m' t.
          let (target, r'') = read_table (n + 1) bytes r' 0 (if ltb idx n then idx else n) 0 in
          elim (Bool-cases (n == 2 ^ 32 - 1)) [
            | inl endless ↦ rw (endless, Kept) (Keeps-refl m' t)
            | inr reads ↦ rw (reads, Kept) (branch_checked-Keeping bytes fr target r'' fits m' t)
          ]
