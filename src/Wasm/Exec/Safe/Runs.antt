-- ===== src/Wasm/Exec/Safe/Runs.antt =====
-- Whole runs: the sandbox holds through any number of instructions and nested calls, up to the end
-- of the run, to an error, or to an access outside the module's arrays.
use mathlib.Core.Path.{◌≡◌, refl}
use jvmos_jit.Base.{
  ℕ, zero, suc, ◌+◌, ◌-◌, Bool, true, false, not, Option, none, some, List, [], ◌∷◌, length, arith,
  ltb, leb, ◌==◌, if◌then◌else◌,
}
use jvmos_jit.Base.Word.{int_neg}
use jvmos_jit.Wasm.Reader.{Bytes, Rd}
use jvmos_jit.Wasm.Module.{
  WasmModule, WasmFunc, wasm_stack, wasm_locals, wasm_depth, Outcome, ok, fail, wild, pure,
  and_then,
}
use jvmos_jit.Wasm.Module.Post.{
  unchanged, called, Sound, Keeps, Keeps-refl, Keeps-trans, Kept, Keeping, Kept-bind, Kept-before,
  Kept-if, pure-Keeping,
}
use jvmos_jit.Wasm.Stack.{push}
use jvmos_jit.Wasm.Memory.Isolation.{push-Keeping}
use jvmos_jit.Wasm.Exec.Frame.{Frame, Next, next, stop, call, spin}
use jvmos_jit.Wasm.Exec.Call.{
  Entry, hosted, entered, call_host, enter, begin_call, leave, Run, resume, run_entry, after_step,
  run_loop, do_call, find_export, push_all, and_run, call_found, wasm_call,
}
use jvmos_jit.Wasm.Exec.Safe.Branches.{FrameFits}
use jvmos_jit.Wasm.Exec.Safe.Steps.{step-Keeping}

module _ {U : Type 0} where
  -- A call that has begun: the invariant, and a frame that fits.
  abbrev EntryKept : WasmModule U → Outcome U Entry → Type 0
  EntryKept m (ok (hosted v) n) = Keeps m n
  EntryKept m (ok (entered fr r) n) = Keeps m n × FrameFits fr
  EntryKept m (fail e n) = Keeps m n
  EntryKept m wild = Unit

  EntryKept-if :
      (m : WasmModule U) (b : Bool) (x y : Outcome U Entry)
      → (b ≡ true → EntryKept m x)
      → (b ≡ false → EntryKept m y)
      → EntryKept m (if b then x else y)
  EntryKept-if m true x y h k = h refl
  EntryKept-if m false x y h k = k refl

  pushed-host :
      (m n : WasmModule U) (r : ℕ) (o : Outcome U (Unit {0}))
      → Keeps m n
      → Kept Unit n o
      → EntryKept m (and_then o λ _. pure (hosted r))
  pushed-host m n r (ok u n') h k = Keeps-trans m n n' h k
  pushed-host m n r (fail e n') h k = Keeps-trans m n n' h k
  pushed-host m n r wild h k = tt

  popped :
      (m : WasmModule U) (n i : ℕ) (args : ℕ → ℕ)
      → Sound m
      → Keeps m (record m { sp = m.sp - n; user = ((m.hosts i).fn args n m.user).1 })
  popped m n i args s = record {
    sound = record {
      sp_fits = omega (arith, s.sp_fits);
      lp_fits = s.lp_fits;
      cp_fits = s.cp_fits;
      labels_fit = s.labels_fit;
      limit_fits = s.limit_fits;
    };
    same_bytes = refl;
    same_hosts = refl;
    reached = called i args n m.user unchanged;
    outside = λ a p. refl;
  }

  call_host-Kept : (f : WasmFunc) (m : WasmModule U) → Sound m → EntryKept m (call_host f m)
  unfolding call_host
  call_host-Kept f m s =
      let np = (m.types f.type).nparams in
      let (r, user) = (m.hosts f.host).fn (λ i. m.stack (m.sp - np + i)) np m.user in
      let after = popped m np f.host (λ i. m.stack (m.sp - np + i)) s in
      EntryKept-if m (ltb m.sp np) _ _ (λ short. Keeps-refl m s)
        λ enough.
          EntryKept-if m ((m.types f.type).nresults == 0) _ _ (λ no_result. after)
            λ result. pushed-host m _ r _ after (push-Keeping Unit r _ after.sound)

  enter-Kept :
      (f : WasmFunc) (level : ℕ) (m : WasmModule U) → Sound m → EntryKept m (enter f level m)
  unfolding enter
  enter-Kept f level m s =
      let t = m.types f.type in
      EntryKept-if m (leb wasm_depth level) _ _ (λ deep. Keeps-refl m s)
        λ shallow.
          EntryKept-if m (ltb wasm_locals (m.lp + (t.nparams + f.nlocals))) _ _
            (λ full. Keeps-refl m s)
            λ room.
              EntryKept-if m (ltb m.sp t.nparams) _ _ (λ short. Keeps-refl m s)
                λ enough. (
                  record {
                    sound = record {
                      sp_fits = omega (arith, s.sp_fits);
                      lp_fits = ground arith;
                      cp_fits = s.cp_fits;
                      labels_fit = s.labels_fit;
                      limit_fits = s.limit_fits;
                    };
                    same_bytes = refl;
                    same_hosts = refl;
                    reached = unchanged;
                    outside = λ a p. refl;
                  },
                  record {
                    sp_base_fits = omega (arith, s.sp_fits);
                    ctrl_base_fits = s.cp_fits;
                    locals_fit = ground arith;
                  },
                )

  begin_call-Kept :
      (fidx level : ℕ) (m : WasmModule U) → Sound m → EntryKept m (begin_call fidx level m)
  unfolding begin_call
  begin_call-Kept fidx level m s =
      let f = m.funcs fidx in
      EntryKept-if m (leb m.nfuncs fidx) _ _ (λ absent. Keeps-refl m s)
        λ present.
          EntryKept-if m f.imported _ _ (λ host. call_host-Kept f m s)
            λ guest. enter-Kept f level m s

  restored-Keeps :
      (fr : Frame) (m : WasmModule U)
      → FrameFits fr
      → Sound m
      → Keeps m (record m { sp = fr.sp_base; lp = fr.locals_base; cp = fr.ctrl_base })
  restored-Keeps fr m fits s = record {
    sound = record {
      sp_fits = fits.sp_base_fits;
      lp_fits = omega (arith, fits.locals_fit);
      cp_fits = fits.ctrl_base_fits;
      labels_fit = s.labels_fit;
      limit_fits = s.limit_fits;
    };
    same_bytes = refl;
    same_hosts = refl;
    reached = unchanged;
    outside = λ a p. refl;
  }

  leave-Kept : (fr : Frame) → FrameFits fr → Keeping Unit (leave {U = U} fr)
  unfolding leave
  leave-Kept fr fits m s =
      let back = restored-Keeps fr m fits s in
      let n = record m { sp = fr.sp_base; lp = fr.locals_base; cp = fr.ctrl_base } in
      Kept-if Unit m (fr.nresults == 0) _ _ (λ no_result. back)
        λ result.
          Kept-if Unit m (leb m.sp fr.sp_base) _ _ (λ short. Keeps-refl m s)
            λ enough.
              Kept-if Unit m (ltb wasm_stack m.sp) _ _ (λ over. tt)
                λ inside. Kept-before Unit m n _ back (
                  Kept-bind Unit n (push (m.stack (m.sp - 1)) n) _
                    (push-Keeping Unit (m.stack (m.sp - 1)) n back.sound)
                    λ u. pure-Keeping Unit (m.stack (m.sp - 1)))

  -- What a run leaves behind, if it ends.
  abbrev pub RunKept : WasmModule U → Run U → Type 0
  RunKept m none = Unit
  RunKept m (some o) = Kept Unit m o

  RunKept-before : (m n : WasmModule U) (run : Run U) → Keeps m n → RunKept n run → RunKept m run
  RunKept-before m n none h k = tt
  RunKept-before m n (some o) h k = Kept-before Unit m n o h k

  -- What is assumed of the runs that are nested in a run.
  abbrev Trusted : (Frame → Rd → WasmModule U → Run U) → Type 0
  Trusted self =
      (fr : Frame) (r : Rd) (m : WasmModule U) → FrameFits fr → Sound m → RunKept m (self fr r m)

  run_entry-Kept :
      (self : Frame → Rd → WasmModule U → Run U) (m : WasmModule U) (o : Outcome U Entry)
      → Trusted self
      → EntryKept m o
      → RunKept m (run_entry self o)
  unfolding run_entry
  run_entry-Kept self m (ok (hosted v) n) h k = k
  run_entry-Kept self m (ok (entered fr r) n) h (kept, fits) =
      RunKept-before m n (self fr r n) kept (h fr r n fits kept.sound)
  run_entry-Kept self m (fail e n) h k = k
  run_entry-Kept self m wild h k = tt

  resume-Kept :
      (self : Frame → Rd → WasmModule U → Run U) (fr : Frame) (r : Rd) (m : WasmModule U)
      (run : Run U)
      → Trusted self
      → FrameFits fr
      → RunKept m run
      → RunKept m (resume self fr r run)
  unfolding resume
  resume-Kept self fr r m none h fits k = tt
  resume-Kept self fr r m (some (ok v n)) h fits k =
      RunKept-before m n (self fr r n) k (h fr r n fits k.sound)
  resume-Kept self fr r m (some (fail e n)) h fits k = k
  resume-Kept self fr r m (some wild) h fits k = tt

  after_step-Kept :
      (self : Frame → Rd → WasmModule U → Run U) (fr : Frame) (m : WasmModule U)
      (o : Outcome U Next)
      → Trusted self
      → FrameFits fr
      → Kept Unit m o
      → RunKept m (after_step self fr o)
  unfolding after_step
  after_step-Kept self fr m (ok (next r) n) h fits k =
      RunKept-before m n (self fr r n) k (h fr r n fits k.sound)
  after_step-Kept self fr m (ok stop n) h fits k =
      Kept-before Unit m n (leave fr n) k (leave-Kept fr fits n k.sound)
  after_step-Kept self fr m (ok (call callee r) n) h fits k = RunKept-before m n _ k (
      resume-Kept self fr r n _ h fits
        (run_entry-Kept self n _ h (begin_call-Kept callee (fr.level + 1) n k.sound)))
  after_step-Kept self fr m (ok spin n) h fits k = tt
  after_step-Kept self fr m (fail e n) h fits k = k
  after_step-Kept self fr m wild h fits k = tt

  run_loop-Kept : (fuel : ℕ) (bytes : Bytes) → Trusted (run_loop fuel bytes)
  unfolding run_loop
  run_loop-Kept zero bytes fr r m fits s = tt
  run_loop-Kept (suc fuel) bytes fr r m fits s =
      after_step-Kept (run_loop fuel bytes) fr m _ (run_loop-Kept fuel bytes) fits
        (step-Keeping bytes fr r fits m s)

  pub do_call-Kept :
      (fuel : ℕ) (bytes : Bytes) (fidx level : ℕ) (m : WasmModule U)
      → Sound m
      → RunKept m (do_call fuel bytes fidx level m)
  unfolding do_call
  do_call-Kept fuel bytes fidx level m s =
      run_entry-Kept (run_loop fuel bytes) m _ (run_loop-Kept fuel bytes)
        (begin_call-Kept fidx level m s)

  push_all-Keeping : (args : List ℕ) → Keeping Unit (push_all {U = U} args)
  unfolding push_all
  push_all-Keeping [] m s = Keeps-refl m s
  push_all-Keeping (v ∷ vs) m s =
      Kept-bind Unit m (push v m) _ (push-Keeping Unit v m s) λ u. push_all-Keeping vs

  and_run-Kept :
      (m : WasmModule U) (o : Outcome U (Unit {0})) (k : WasmModule U → Run U)
      → Kept Unit m o
      → ((n : WasmModule U) → Sound n → RunKept n (k n))
      → RunKept m (and_run o k)
  and_run-Kept m (ok u n) k h follow = RunKept-before m n (k n) h (follow n h.sound)
  and_run-Kept m (fail e n) k h follow = h
  and_run-Kept m wild k h follow = tt

  emptied : (m : WasmModule U) → Sound m → Keeps m (record m { sp = 0; lp = 0; cp = 0 })
  emptied m s = record {
    sound = record {
      sp_fits = omega arith;
      lp_fits = omega arith;
      cp_fits = omega arith;
      labels_fit = s.labels_fit;
      limit_fits = s.limit_fits;
    };
    same_bytes = refl;
    same_hosts = refl;
    reached = unchanged;
    outside = λ a p. refl;
  }

  RunKept-if :
      (m : WasmModule U) (b : Bool) (x y : Run U)
      → RunKept m x
      → RunKept m y
      → RunKept m (if b then x else y)
  RunKept-if m true x y h k = h
  RunKept-if m false x y h k = k

  call_found-Kept :
      (fuel : ℕ) (bytes : Bytes) (args : List ℕ) (m : WasmModule U) (found : Option ℕ)
      → Sound m
      → RunKept m (call_found fuel bytes args m found)
  unfolding call_found
  call_found-Kept fuel bytes args m none s = Keeps-refl m s
  call_found-Kept fuel bytes args m (some found) s =
      let start = record m { sp = 0; lp = 0; cp = 0 } in
      RunKept-if m (int_neg found) _ _ (Keeps-refl m s) (
        RunKept-if m (leb m.nfuncs found) _ _ (Keeps-refl m s) (
          RunKept-if m (not ((m.types (m.funcs found).type).nparams == length args)) _ _
            (Keeps-refl m s)
            (RunKept-before m start _ (emptied m s) (
              and_run-Kept start (push_all args start) (do_call fuel bytes found 0)
                (push_all-Keeping args start (emptied m s).sound)
                (do_call-Kept fuel bytes found 0)))))

  -- However a call from the host ends, with a value or with an error, after any number of
  -- instructions, calls and branches of any code: no byte outside the guest's buffer has changed,
  -- the guest's limit lies inside the buffer, the stacks fit their arrays, and the state of the host
  -- functions has changed only by calls of functions of the module's table, as long as the run has
  -- not left one of the module's own arrays.
  pub wasm_call_confined :
      (fuel : ℕ) (bytes : Bytes) (name : ℕ → ℕ) (args : List ℕ) (m : WasmModule U)
      → Sound m
      → RunKept m (wasm_call fuel bytes name args m)
  unfolding wasm_call
  wasm_call_confined fuel bytes name args m s =
      call_found-Kept fuel bytes args m (find_export m.nexports bytes m.exports name 0) s
