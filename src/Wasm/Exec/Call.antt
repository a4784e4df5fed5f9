-- ===== src/Wasm/Exec/Call.antt =====
-- Calls in wasm/wasm.c: the prologue and the epilogue of `run`, its loop, `do_call` and `wasm_call`.
--
-- A guest may loop for ever, so the loop is on fuel: `none` means that the fuel ran out.
use jvmos_jit.Base.{
  ℕ, zero, suc, ◌+◌, ◌-◌, false, not, Option, none, some, List, [], ◌∷◌, length, ltb, leb, ◌==◌,
  if◌then◌else◌,
}
use jvmos_jit.Base.Word.{int_neg}
use jvmos_jit.Wasm.Reader.{Bytes, Rd}
use jvmos_jit.Wasm.Module.{
  WasmModule, WasmExport, WasmFunc, wasm_stack, wasm_locals, wasm_depth, bad_stack, bad_type,
  too_deep, no_export, Outcome, Cmd, ok, fail, wild, update, pure, ◌>>◌,
}
use jvmos_jit.Wasm.Names.{wcmp_equal}
use jvmos_jit.Wasm.Stack.{push}
use jvmos_jit.Wasm.Exec.Frame.{Frame, Next, next, stop, call, spin}
use jvmos_jit.Wasm.Exec.Step.{step}

-- `for (i = 0; i < n; i++) to[base + i] = from[start + i];`
unfoldable pub copy_args : ℕ → (base start : ℕ) → (to from : ℕ → ℕ) → ℕ → ℕ
copy_args zero base start to from = to
copy_args (suc n) base start to from =
    copy_args n (base + 1) (start + 1) (update to base (from start)) from

-- `for (i = 0; i < n; i++) to[base + i] = 0;`
unfoldable pub clear_locals : ℕ → (base : ℕ) → (to : ℕ → ℕ) → ℕ → ℕ
clear_locals zero base to = to
clear_locals (suc n) base to = clear_locals n (base + 1) (update to base 0)

-- A host function that has returned, or a guest function that is to be run from `r` on.
pub data Entry : Type 0 where
  hosted : ℕ → Entry
  entered : Frame → Rd → Entry

-- The search of `wasm_call` through the exports from `i` on.
unfoldable pub find_export : ℕ → Bytes → (ℕ → WasmExport) → (ℕ → ℕ) → (i : ℕ) → Option ℕ
unfolding wcmp_equal
find_export zero bytes exports name i = none
find_export (suc left) bytes exports name i =
    let e = exports i in
    let rest = find_export left bytes exports name (i + 1) in
    if not (e.kind == 0)
    then rest
    else if wcmp_equal bytes e.name name e.namelen
    then some e.index
    else rest

-- A run of the loop: `none` if it does not end within its fuel.
abbrev pub Run : Type 0 → Type 0
Run U = Option (Outcome U ℕ)

module _ {U : Type 0} where
  unfoldable pub call_host : WasmFunc → Cmd U Entry
  unfolding push
  call_host f m =
      let np = (m.types f.type).nparams in
      if ltb m.sp np
      then fail bad_stack m
      else let sp = m.sp - np in
        let (r, user) = (m.hosts f.host).fn (λ i. m.stack (sp + i)) np m.user in
        let m' = record m { sp = sp; user = user } in
        if (m.types f.type).nresults == 0 then ok (hosted r) m' else (push r >> pure (hosted r)) m'

  -- The prologue of `run`: its tests, the arguments, the locals.
  unfoldable pub enter : WasmFunc → (level : ℕ) → Cmd U Entry
  unfolding copy_args clear_locals
  enter f level m =
      let t = m.types f.type in
      let base = m.lp in
      let sp = m.sp - t.nparams in
      if leb wasm_depth level
      then fail too_deep m
      else if ltb wasm_locals (m.lp + (t.nparams + f.nlocals))
      then fail bad_stack m
      else if ltb m.sp t.nparams
      then fail bad_stack m
      else ok
          (entered
            (record {
              nparams = t.nparams;
              nlocals = f.nlocals;
              nresults = t.nresults;
              locals_base = base;
              ctrl_base = m.cp;
              sp_base = sp;
              level = level;
            })
            (record { p = f.code; end = f.code_end; err = false }))
          (record m {
            sp = sp;
            locals =
                clear_locals f.nlocals (base + t.nparams)
                  (copy_args t.nparams base sp m.locals m.stack);
            lp = base + (t.nparams + f.nlocals);
          })

  -- `do_call`, up to the loop of `run`.
  unfoldable pub begin_call : (fidx level : ℕ) → Cmd U Entry
  unfolding call_host enter
  begin_call fidx level m =
      let f = m.funcs fidx in
      if leb m.nfuncs fidx
      then fail bad_type m
      else if f.imported
      then call_host f m
      else enter f level m

  -- The epilogue of `run`: the result is kept, and the caller's stacks are restored.
  unfoldable pub leave : Frame → Cmd U ℕ
  unfolding push
  leave fr m =
      let restored = λ (m' : WasmModule U). record m' {
        sp = fr.sp_base;
        lp = fr.locals_base;
        cp = fr.ctrl_base;
      } in
      if fr.nresults == 0
      then ok 0 (restored m)
      else if leb m.sp fr.sp_base
      then fail bad_stack m
      else if ltb wasm_stack m.sp
      then wild
      else (let v = m.stack (m.sp - 1) in push v >> pure v) (restored m)

  -- Behind a call that has come back.
  unfoldable pub resume : (Frame → Rd → WasmModule U → Run U) → Frame → Rd → Run U → Run U
  resume self fr r none = none
  resume self fr r (some (ok v m)) = self fr r m
  resume self fr r (some (fail e m)) = some (fail e m)
  resume self fr r (some wild) = some wild

  unfoldable pub run_entry : (Frame → Rd → WasmModule U → Run U) → Outcome U Entry → Run U
  run_entry self (ok (hosted v) m) = some (ok v m)
  run_entry self (ok (entered fr r) m) = self fr r m
  run_entry self (fail e m) = some (fail e m)
  run_entry self wild = some wild

  unfoldable pub after_step : (Frame → Rd → WasmModule U → Run U) → Frame → Outcome U Next → Run U
  unfolding begin_call leave resume run_entry
  after_step self fr (ok (next r) m) = self fr r m
  after_step self fr (ok stop m) = some (leave fr m)
  after_step self fr (ok (call callee r) m) =
      resume self fr r (run_entry self (begin_call callee (fr.level + 1) m))
  after_step self fr (ok spin m) = none
  after_step self fr (fail e m) = some (fail e m)
  after_step self fr wild = some wild

  unfoldable pub run_loop : ℕ → Bytes → Frame → Rd → WasmModule U → Run U
  unfolding step after_step
  run_loop zero bytes fr r m = none
  run_loop (suc fuel) bytes fr r m = after_step (run_loop fuel bytes) fr (step bytes fr r m)

  unfoldable pub do_call : ℕ → Bytes → (fidx level : ℕ) → WasmModule U → Run U
  unfolding run_loop begin_call run_entry
  do_call fuel bytes fidx level m = run_entry (run_loop fuel bytes) (begin_call fidx level m)

  unfoldable pub push_all : List ℕ → Cmd U (Unit {0})
  unfolding push
  push_all [] = pure tt
  push_all (v ∷ vs) = do push v; push_all vs

  abbrev pub and_run : Outcome U (Unit {0}) → (WasmModule U → Run U) → Run U
  and_run (ok u m) k = k m
  and_run (fail e m) k = some (fail e m)
  and_run wild k = some wild

  -- The tests of `wasm_call` on what it found, and the call.
  unfoldable pub call_found : ℕ → Bytes → List ℕ → WasmModule U → Option ℕ → Run U
  unfolding do_call push_all
  call_found fuel bytes args m none = some (fail no_export m)
  call_found fuel bytes args m (some found) =
      if int_neg found
      then some (fail no_export m)
      else if leb m.nfuncs found
      then some (fail bad_type m)
      else if not ((m.types (m.funcs found).type).nparams == length args)
      then some (fail bad_type m)
      else and_run (push_all args (record m { sp = 0; lp = 0; cp = 0 }))
          (do_call fuel bytes found 0)

  unfoldable pub wasm_call : ℕ → Bytes → (ℕ → ℕ) → List ℕ → WasmModule U → Run U
  unfolding find_export call_found
  wasm_call fuel bytes name args m =
      call_found fuel bytes args m (find_export m.nexports bytes m.exports name 0)
