-- ===== src/Wasm/Load/Filled.antt =====
-- The sections that fill the tables keep the invariant of loading: no entry is written outside its
-- array, unless the function section has wrapped its count.
use jvmos_jit.Base.{ℕ, zero, suc, ◌+◌, ◌≤◌, refl, not, arith, ltb, leb, ◌==◌, Bool-cases, inl, inr}
use jvmos_jit.Base.Word.{add32, int_neg}
use jvmos_jit.Wasm.Reader.{Bytes, Rd, rd_u8, rd_uleb, rd_skip}
use jvmos_jit.Wasm.Module.{
  WasmModule, WasmType, WasmFunc, WasmExport, wasm_max_types, wasm_max_funcs, wasm_max_exports,
  wasm_max_globals, truncated, over_limit, unsupported, bad_type, bad_import, update,
}
use jvmos_jit.Wasm.Load.Limits.{finish}
use jvmos_jit.Wasm.Load.Contents.{const_expr}
use jvmos_jit.Wasm.Load.Tables.{
  only_i32, find_host, type_entries, section_type, add_func, import_func, import_one, imports,
  section_import, functions, section_function, global_entries, section_global, export_entries,
  section_export,
}
use jvmos_jit.Wasm.Load.Loaded.{
  Loaded, Grown, LoadKept, Loads, Grown-refl, LoadKept-then, LoadKept-step, choose-Loads,
  or_else-Loads, pure-Loads, throw-Loads, guard-Loads,
}

pub update-code_end :
    (top : ℕ) (funcs : ℕ → WasmFunc) (i j : ℕ) (f : WasmFunc)
    → f.code_end ≤ top
    → (funcs j).code_end ≤ top
    → (update funcs i f j).code_end ≤ top
update-code_end top funcs i j f h k = elim (Bool-cases (i == j)) [
  | inl same ↦ rw same h
  | inr other ↦ rw other k
]

module _ {U : Type 0} (top : ℕ) where
  -- A new version of the tables.
  set_tables :
      (m : WasmModule U) (types : ℕ → WasmType) (ntypes : ℕ) (exports : ℕ → WasmExport)
      (nexports : ℕ) (globals : ℕ → ℕ) (nglobals nimports : ℕ)
      → Loaded top m
      → ntypes ≤ wasm_max_types
      → nexports ≤ wasm_max_exports
      → nglobals ≤ wasm_max_globals
      → Grown top m (record m {
        types = types;
        ntypes = ntypes;
        exports = exports;
        nexports = nexports;
        globals = globals;
        nglobals = nglobals;
        nimports = nimports;
      })
  set_tables m types ntypes exports nexports globals nglobals nimports h a b c = record {
    loaded = record {
      sound = record {
        sp_fits = h.sound.sp_fits;
        lp_fits = h.sound.lp_fits;
        cp_fits = h.sound.cp_fits;
        labels_fit = h.sound.labels_fit;
        limit_fits = h.sound.limit_fits;
      };
      types_fit = a;
      funcs_fit = h.funcs_fit;
      exports_fit = b;
      globals_fit = c;
      code_fits = h.code_fits;
    };
    same_bytes = refl;
    spared = λ i p. refl;
  }

  pub finish-Loads : (r : Rd) → Loads top (finish {U = U} r)
  finish-Loads r m h = guard-Loads top r.err truncated _ m λ whole. Grown-refl top m h

  type_entries-Loads :
      (n : ℕ) (bytes : Bytes) (i : ℕ) (r : Rd) → Loads top (type_entries {U = U} n bytes i r)
  unfolding type_entries
  type_entries-Loads zero bytes i r = pure-Loads top r
  type_entries-Loads (suc n) bytes i r =
      let (form, r1) = rd_u8 bytes r in
      let (np, r2) = rd_uleb bytes r1 in
      choose-Loads top (not (form == 0x60)) _ _ (λ p. throw-Loads top Rd bad_type)
        λ func_type.
          choose-Loads top (ltb 255 np) _ _ (λ p. throw-Loads top Rd over_limit)
            λ few_params.
              or_else-Loads top (only_i32 np bytes r2) _ _ (throw-Loads top Rd unsupported) λ r3 p.
                let (nres, r4) = rd_uleb bytes r3 in
                choose-Loads top (ltb 1 nres) _ _ (λ q. throw-Loads top Rd unsupported)
                  λ one_result.
                    or_else-Loads top (only_i32 nres bytes r4) _ _ (throw-Loads top Rd unsupported)
                      λ r5 q m h.
                        LoadKept-step top m _ (type_entries n bytes (i + 1) r5)
                          (set_tables m _ m.ntypes m.exports m.nexports m.globals m.nglobals
                            m.nimports h h.types_fit h.exports_fit h.globals_fit)
                          (type_entries-Loads n bytes (i + 1) r5)

  pub section_type-Loads : (bytes : Bytes) (r : Rd) → Loads top (section_type {U = U} bytes r)
  unfolding section_type
  section_type-Loads bytes r m h =
      let (n, r') = rd_uleb bytes r in
      guard-Loads top (ltb wasm_max_types n) over_limit _ m λ few.
        LoadKept-then top m _ _ (type_entries-Loads n bytes 0 r' m h) λ r'' m' h'.
          LoadKept-step top m' _ (finish r'')
            (set_tables m' m'.types n m'.exports m'.nexports m'.globals m'.nglobals m'.nimports h'
              (ground arith) h'.exports_fit h'.globals_fit)
            (finish-Loads r'')

  -- A new version of the functions.
  pub set_funcs :
      (m : WasmModule U) (i nfuncs : ℕ) (f : WasmFunc)
      → Loaded top m
      → nfuncs ≤ wasm_max_funcs
      → f.code_end ≤ top
      → Grown top m (record m { funcs = update m.funcs i f; nfuncs = nfuncs })
  set_funcs m i nfuncs f h a b = record {
    loaded = record {
      sound = record {
        sp_fits = h.sound.sp_fits;
        lp_fits = h.sound.lp_fits;
        cp_fits = h.sound.cp_fits;
        labels_fit = h.sound.labels_fit;
        limit_fits = h.sound.limit_fits;
      };
      types_fit = h.types_fit;
      funcs_fit = a;
      exports_fit = h.exports_fit;
      globals_fit = h.globals_fit;
      code_fits = λ j. update-code_end top m.funcs i j f b (h.code_fits j);
    };
    same_bytes = refl;
    spared = λ j p. refl;
  }

  add_func-Loads : (f : WasmFunc) → f.code_end ≤ top → Loads top (add_func {U = U} f)
  unfolding add_func
  add_func-Loads f k m h = elim (Bool-cases (leb wasm_max_funcs m.nfuncs)) [
    | inl full ↦ rw (full, LoadKept) tt
    | inr room ↦ rw (room, LoadKept) (set_funcs m m.nfuncs (m.nfuncs + 1) f h (ground arith) k)
  ]

  import_func-Loads :
      (bytes : Bytes) (mname mlen fname nlen : ℕ) (r : Rd)
      → Loads top (import_func {U = U} bytes mname mlen fname nlen r)
  unfolding import_func
  import_func-Loads bytes mname mlen fname nlen r m h =
      let (t, r') = rd_uleb bytes r in
      guard-Loads top (leb wasm_max_funcs m.nfuncs) over_limit _ m λ room.
        guard-Loads top (leb m.ntypes t) bad_type _ m λ known.
          or_else-Loads top (find_host m.nhosts bytes m.hosts mname mlen fname nlen 0) _ _
            (throw-Loads top Rd bad_import)
            (λ found p m h. guard-Loads top (int_neg found) bad_import _ m λ index.
              LoadKept-then top m _ _ (add_func-Loads _ (omega arith) m h) λ u m' h'.
                set_tables m' m'.types m'.ntypes m'.exports m'.nexports m'.globals m'.nglobals
                  (m'.nimports + 1) h' h'.types_fit h'.exports_fit h'.globals_fit)
            m h

  import_one-Loads :
      (bytes : Bytes) (kind mname mlen fname nlen : ℕ) (r : Rd)
      → Loads top (import_one {U = U} bytes kind mname mlen fname nlen r)
  unfolding import_one
  import_one-Loads bytes kind mname mlen fname nlen r =
      choose-Loads top (kind == 0) _ _ (λ func. import_func-Loads bytes mname mlen fname nlen r)
        λ p.
          choose-Loads top (kind == 1) _ _ (λ table m h. Grown-refl top m h)
            λ q.
              choose-Loads top (kind == 2) _ _ (λ memory m h. Grown-refl top m h)
                λ s.
                  choose-Loads top (kind == 3) _ _ (λ global m h. Grown-refl top m h)
                    λ unknown. throw-Loads top Rd unsupported

  imports-Loads : (n : ℕ) (bytes : Bytes) (r : Rd) → Loads top (imports {U = U} n bytes r)
  unfolding imports
  imports-Loads zero bytes r m h = Grown-refl top m h
  imports-Loads (suc n) bytes r m h =
      let (mlen, r1) = rd_uleb bytes r in
      let (nlen, r2) = rd_uleb bytes (rd_skip r1 mlen) in
      let (kind, r3) = rd_u8 bytes (rd_skip r2 nlen) in
      guard-Loads top r3.err truncated _ m λ whole.
        LoadKept-then top m _ _ (import_one-Loads bytes kind r1.p mlen r2.p nlen r3 m h)
          λ r4. imports-Loads n bytes r4

  pub section_import-Loads : (bytes : Bytes) (r : Rd) → Loads top (section_import {U = U} bytes r)
  unfolding section_import
  section_import-Loads bytes r m h =
      let (n, r') = rd_uleb bytes r in
      LoadKept-then top m _ _ (imports-Loads n bytes r' m h) finish-Loads

  functions-Loads : (n : ℕ) (bytes : Bytes) (r : Rd) → Loads top (functions {U = U} n bytes r)
  unfolding functions
  functions-Loads zero bytes r m h = Grown-refl top m h
  functions-Loads (suc n) bytes r m h =
      let (t, r') = rd_uleb bytes r in
      guard-Loads top (leb m.ntypes t) bad_type _ m λ known.
        LoadKept-then top m _ _ (add_func-Loads _ (omega arith) m h) λ u. functions-Loads n bytes r'

  pub section_function-Loads :
      (bytes : Bytes) (r : Rd) → Loads top (section_function {U = U} bytes r)
  unfolding section_function
  section_function-Loads bytes r m h =
      let (n, r') = rd_uleb bytes r in
      guard-Loads top (ltb wasm_max_funcs (add32 m.nfuncs n)) over_limit _ m λ few.
        LoadKept-then top m _ _ (functions-Loads n bytes r' m h)
          λ r'' m' h'. guard-Loads top r''.err truncated _ m' λ whole. Grown-refl top m' h'

  global_entries-Loads :
      (n : ℕ) (bytes : Bytes) (i : ℕ) (r : Rd)
      → i + n ≤ wasm_max_globals
      → Loads top (global_entries {U = U} n bytes i r)
  unfolding global_entries
  global_entries-Loads zero bytes i r few m h = Grown-refl top m h
  global_entries-Loads (suc n) bytes i r few m h =
      let (form, r') = rd_u8 bytes r in
      let (v, r'') = const_expr bytes m (rd_u8 bytes r').1 in
      guard-Loads top (not (form == 0x7F)) unsupported _ m λ number.
        LoadKept-step top m _ (global_entries n bytes (i + 1) r'')
          (set_tables m m.types m.ntypes m.exports m.nexports _ (i + 1) m.nimports h h.types_fit
            h.exports_fit (omega (arith, few)))
          (global_entries-Loads n bytes (i + 1) r'' (omega (arith, few)))

  pub section_global-Loads : (bytes : Bytes) (r : Rd) → Loads top (section_global {U = U} bytes r)
  unfolding section_global
  section_global-Loads bytes r m h =
      let (n, r') = rd_uleb bytes r in
      guard-Loads top (ltb wasm_max_globals n) over_limit _ m λ few.
        LoadKept-then top m _ _ (global_entries-Loads n bytes 0 r' (ground arith) m h) finish-Loads

  export_entries-Loads :
      (n : ℕ) (bytes : Bytes) (i : ℕ) (r : Rd)
      → i + n ≤ wasm_max_exports
      → Loads top (export_entries {U = U} n bytes i r)
  unfolding export_entries
  export_entries-Loads zero bytes i r few m h = Grown-refl top m h
  export_entries-Loads (suc n) bytes i r few m h =
      let (len, r1) = rd_uleb bytes r in
      let (kind, r2) = rd_u8 bytes (rd_skip r1 len) in
      let (index, r3) = rd_uleb bytes r2 in
      LoadKept-step top m _ (export_entries n bytes (i + 1) r3)
        (set_tables m m.types m.ntypes _ (i + 1) m.globals m.nglobals m.nimports h h.types_fit
          (omega (arith, few)) h.globals_fit)
        (export_entries-Loads n bytes (i + 1) r3 (omega (arith, few)))

  pub section_export-Loads : (bytes : Bytes) (r : Rd) → Loads top (section_export {U = U} bytes r)
  unfolding section_export
  section_export-Loads bytes r m h =
      let (n, r') = rd_uleb bytes r in
      guard-Loads top (ltb wasm_max_exports n) over_limit _ m λ few.
        LoadKept-then top m _ _ (export_entries-Loads n bytes 0 r' (ground arith) m h) finish-Loads
