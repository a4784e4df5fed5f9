-- ===== src/Wasm/Exec/Safe/Steps.antt =====
-- One instruction keeps the invariant, and only the three branches can leave the arrays.
use mathlib.Core.Path.{refl}
use jvmos_jit.Base.{ℕ, ◌+◌, true, false, Option, none, some, leb, ◌==◌, if◌then◌else◌}
use jvmos_jit.Wasm.Reader.{Bytes, Rd, rd_u8, rd_uleb, rd_sleb}
use jvmos_jit.Wasm.Alu.{clz32, ctz32, popcnt32, compare_op, binary_of, apply, from_bool}
use jvmos_jit.Wasm.Module.{
  WasmModule, truncated, unsupported, trap, bad_type, Cmd, Outcome, ok, fail, wild, update, pure,
  and_then, ◌>>=◌, fail_if,
}
use jvmos_jit.Wasm.Module.Post.{
  unchanged, Sound, Keeps, Keeps-refl, Kept, Keeping, Kept-bind, Kept-weaken, bind, pure-Keeping,
  throw-Keeping, fail_if-Keeping, Kept-if,
}
use jvmos_jit.Wasm.Stack.{push, pop}
use jvmos_jit.Wasm.Memory.Isolation.{
  pop-Keeping, push-Keeping, run_access-Keeping, memory_size-Keeping, memory_grow-Keeping,
}
use jvmos_jit.Wasm.Exec.Frame.{Frame, Next, next, call}
use jvmos_jit.Wasm.Exec.Step.{
  Op, unreachable, nop, block, loop, if_begin, else_arm, end_mark, br, br_if, br_table, return_op,
  call_op, call_indirect, drop, select, local_get, local_set, local_tee, global_get, global_set,
  memory_access, size_op, grow_op, const_op, eqz, comparison, clz, ctz, popcnt, binary, unknown,
  op_of, unary, push_or_trap, binary_op, run_select, no_local, get_local, write_local, set_local,
  tee_local, get_global, set_global, indexed, simply, run_op, step,
}
use jvmos_jit.Wasm.Exec.Safe.Branches.{
  FrameFits, set_cp, open_block-Keeping, open_if-Keeping, skip_else-Keeping, end_block-Keeping,
  run_br-Keeping, run_br_if-Keeping, run_br_table-Keeping,
}

-- The instructions that may leave the arrays.
abbrev pub IsBranch : Op → Type 0
IsBranch br = Unit
IsBranch br_if = Unit
IsBranch br_table = Unit
IsBranch _ = ⊥

module _ {U : Type 0} (W : Type 0) where
  -- Changing locals, globals or the host's state changes nothing that the invariant speaks of.
  set_locals :
      (m : WasmModule U) (locals : ℕ → ℕ) → Sound m → Keeps m (record m { locals = locals })
  set_locals m locals s = record {
    sound = record {
      sp_fits = s.sp_fits;
      lp_fits = s.lp_fits;
      cp_fits = s.cp_fits;
      labels_fit = s.labels_fit;
      limit_fits = s.limit_fits;
    };
    same_bytes = refl;
    same_hosts = refl;
    reached = unchanged;
    outside = λ a p. refl;
  }

  set_globals :
      (m : WasmModule U) (globals : ℕ → ℕ) → Sound m → Keeps m (record m { globals = globals })
  set_globals m globals s = record {
    sound = record {
      sp_fits = s.sp_fits;
      lp_fits = s.lp_fits;
      cp_fits = s.cp_fits;
      labels_fit = s.labels_fit;
      limit_fits = s.limit_fits;
    };
    same_bytes = refl;
    same_hosts = refl;
    reached = unchanged;
    outside = λ a p. refl;
  }

  unary-Keeping : (f : ℕ → ℕ) → Keeping W (unary {U = U} f)
  unfolding unary
  unary-Keeping f = bind W pop _ (pop-Keeping W) λ a. push-Keeping W (f a)

  push_or_trap-Keeping : (v : Option ℕ) → Keeping W (push_or_trap {U = U} v)
  push_or_trap-Keeping none m s = Keeps-refl m s
  push_or_trap-Keeping (some v) m s = push-Keeping W v m s

  binary_op-Keeping : (f : ℕ → ℕ → Option ℕ) → Keeping W (binary_op {U = U} f)
  unfolding binary_op
  binary_op-Keeping f =
      bind W pop _ (pop-Keeping W)
        λ b. bind W pop _ (pop-Keeping W) λ a. push_or_trap-Keeping (f a b)

  run_select-Keeping : Keeping W (run_select {U = U})
  unfolding run_select
  run_select-Keeping = bind W pop _ (pop-Keeping W) λ c.
      bind W pop _ (pop-Keeping W)
        λ b. bind W pop _ (pop-Keeping W) λ a. push-Keeping W (if c == 0 then b else a)

  get_local-Keeping : (fr : Frame) (k : ℕ) → Keeping W (get_local {U = U} fr k)
  unfolding get_local
  get_local-Keeping fr k =
      bind W (fail_if (no_local fr k) bad_type) _ (fail_if-Keeping W (no_local fr k) bad_type)
        λ _ m s. push-Keeping W (m.locals (fr.locals_base + k)) m s

  write_local-Keeping : (fr : Frame) (k v : ℕ) → Keeping W (write_local {U = U} fr k v)
  write_local-Keeping fr k v m s = set_locals m _ s

  set_local-Keeping : (fr : Frame) (k : ℕ) → Keeping W (set_local {U = U} fr k)
  unfolding set_local
  set_local-Keeping fr k =
      bind W (fail_if (no_local fr k) bad_type) _ (fail_if-Keeping W (no_local fr k) bad_type)
        λ _. bind W pop _ (pop-Keeping W) λ v. write_local-Keeping fr k v

  tee_local-Keeping : (fr : Frame) (k : ℕ) → Keeping W (tee_local {U = U} fr k)
  unfolding tee_local
  tee_local-Keeping fr k m s =
      Kept-if W m (no_local fr k) _ _ (λ none_there. Keeps-refl m s)
        λ there. tee (pop m) (pop-Keeping W m s)
    where
      tee : (o : Outcome U ℕ) → Kept W m o → Kept W m (and_then o λ v _. write_local fr k v m)
      tee (ok v n) kept = write_local-Keeping fr k v m s
      tee (fail e n) kept = kept
      tee wild kept = kept

  get_global-Keeping : (k : ℕ) → Keeping W (get_global {U = U} k)
  unfolding get_global
  get_global-Keeping k m s =
      Kept-bind W m (fail_if (leb m.nglobals k) bad_type m) _
        (fail_if-Keeping W (leb m.nglobals k) bad_type m s) λ _. push-Keeping W (m.globals k)

  set_global-Keeping : (k : ℕ) → Keeping W (set_global {U = U} k)
  unfolding set_global
  set_global-Keeping k m s =
      Kept-bind W m (fail_if (leb m.nglobals k) bad_type m) _
        (fail_if-Keeping W (leb m.nglobals k) bad_type m s)
        λ _. bind W pop _ (pop-Keeping W) λ v n t. set_globals n (update n.globals k v) t

  simply-Keeping : (r : Rd) (c : Cmd U (Unit {0})) → Keeping W c → Keeping W (simply r c)
  simply-Keeping r c h = bind W c _ h λ _. pure-Keeping W (next r)

  indexed-Keeping :
      (bytes : Bytes) (r : Rd) (c : ℕ → Cmd U (Unit {0}))
      → ((k : ℕ) → Keeping W (c k))
      → Keeping W (indexed bytes r c)
  indexed-Keeping bytes r c h = let (k, r') = rd_uleb bytes r in simply-Keeping r' (c k) (h k)

  reader-Keeping : (c : Cmd U Rd) → Keeping W c → Keeping W (c >>= λ r. pure (next r))
  reader-Keeping c h = bind W c _ h λ r. pure-Keeping W (next r)

  weaken-Keeping : (c : Cmd U Next) → W → Keeping Unit c → Keeping W c
  weaken-Keeping c w h m s = Kept-weaken Unit W m (c m) (λ _. w) (h m s)

  module _ (bytes : Bytes) (fr : Frame) (op : ℕ) (r : Rd) (fits : FrameFits fr) where
    run_op-Keeping :
        (kind : Op) → (IsBranch kind → W) → Keeping W (run_op {U = U} bytes fr op r kind)
    unfolding run_op
    run_op-Keeping unreachable w = throw-Keeping Next W trap
    run_op-Keeping nop w = pure-Keeping W (next r)
    run_op-Keeping block w = open_block-Keeping W bytes false r
    run_op-Keeping loop w = open_block-Keeping W bytes true r
    run_op-Keeping if_begin w = open_if-Keeping W bytes r
    run_op-Keeping else_arm w = skip_else-Keeping W bytes fr r
    run_op-Keeping end_mark w = end_block-Keeping W fr r
    run_op-Keeping br w = weaken-Keeping _ (w tt) (run_br-Keeping bytes fr r fits)
    run_op-Keeping br_if w = weaken-Keeping _ (w tt) (run_br_if-Keeping bytes fr r fits)
    run_op-Keeping br_table w = weaken-Keeping _ (w tt) (run_br_table-Keeping bytes fr r fits)
    run_op-Keeping return_op w = λ m s. set_cp m fr.ctrl_base s fits.ctrl_base_fits
    run_op-Keeping call_op w =
        let (callee, r') = rd_uleb bytes r in
        bind W (fail_if r'.err truncated) _ (fail_if-Keeping W r'.err truncated)
          λ _. pure-Keeping W (call callee r')
    run_op-Keeping call_indirect w = throw-Keeping Next W unsupported
    run_op-Keeping drop w = bind W pop _ (pop-Keeping W) λ _. pure-Keeping W (next r)
    run_op-Keeping select w = simply-Keeping r run_select run_select-Keeping
    run_op-Keeping local_get w = indexed-Keeping bytes r (get_local fr) (get_local-Keeping fr)
    run_op-Keeping local_set w = indexed-Keeping bytes r (set_local fr) (set_local-Keeping fr)
    run_op-Keeping local_tee w = indexed-Keeping bytes r (tee_local fr) (tee_local-Keeping fr)
    run_op-Keeping global_get w = indexed-Keeping bytes r get_global get_global-Keeping
    run_op-Keeping global_set w = indexed-Keeping bytes r set_global set_global-Keeping
    run_op-Keeping memory_access w = reader-Keeping _ (run_access-Keeping W bytes op r)
    run_op-Keeping size_op w = reader-Keeping _ (memory_size-Keeping W bytes r)
    run_op-Keeping grow_op w = reader-Keeping _ (memory_grow-Keeping W bytes r)
    run_op-Keeping const_op w =
        let (v, r') = rd_sleb bytes r in simply-Keeping r' (push v) (push-Keeping W v)
    run_op-Keeping eqz w = simply-Keeping r _ (unary-Keeping (λ a. from_bool (a == 0)))
    run_op-Keeping comparison w =
        simply-Keeping r _ (binary_op-Keeping (λ a b. some (compare_op op a b)))
    run_op-Keeping clz w = simply-Keeping r _ (unary-Keeping clz32)
    run_op-Keeping ctz w = simply-Keeping r _ (unary-Keeping ctz32)
    run_op-Keeping popcnt w = simply-Keeping r _ (unary-Keeping popcnt32)
    run_op-Keeping binary w = simply-Keeping r _ (binary_op-Keeping (apply (binary_of op)))
    run_op-Keeping unknown w = throw-Keeping Next W unsupported

  step_Kept :
      (bytes : Bytes) (fr : Frame) (r : Rd)
      → FrameFits fr
      → (IsBranch (op_of (rd_u8 bytes r).0) → W)
      → Keeping W (step {U = U} bytes fr r)
  unfolding step
  step_Kept bytes fr r fits w m s =
      let (op, r') = rd_u8 bytes r in
      Kept-if W m (leb r.end r.p) _ _ (λ done. Keeps-refl m s)
        λ more.
          Kept-if W m r'.err _ _ (λ cut. Keeps-refl m s)
            λ read. run_op-Keeping bytes fr op r' fits (op_of op) w m s

module _ {U : Type 0} where
  pub step-Keeping :
      (bytes : Bytes) (fr : Frame) (r : Rd) → FrameFits fr → Keeping Unit (step {U = U} bytes fr r)
  step-Keeping bytes fr r fits = step_Kept Unit bytes fr r fits (λ b. tt)

  -- From a sound state no instruction but `br`, `br_if` and `br_table` can leave the arrays of the
  -- module: it ends normally or with an error, in a sound state, and changes nothing outside the
  -- buffer.
  pub step_tame :
      (bytes : Bytes) (fr : Frame) (r : Rd) (m : WasmModule U)
      → FrameFits fr
      → Sound m
      → ¬ IsBranch (op_of (rd_u8 bytes r).0)
      → Kept ⊥ m (step bytes fr r m)
  step_tame bytes fr r m fits s no_branch = step_Kept ⊥ bytes fr r fits no_branch m s
