-- ===== src/Wasm/Load/Tables.antt =====
-- The sections of wasm/wasm.c that fill a module's tables: `section_type`, `section_import`,
-- `section_function`, `section_global` and `section_export`.
use jvmos_jit.Base.{
  ℕ, zero, suc, ◌+◌, true, false, not, ◌&&◌, Option, none, some, ltb, leb, ◌==◌, if◌then◌else◌,
}
use jvmos_jit.Base.Word.{u8, add32, int_neg}
use jvmos_jit.Wasm.Reader.{Bytes, Rd, rd_u8, rd_uleb, rd_skip}
use jvmos_jit.Wasm.Names.{wcmp_equal}
use jvmos_jit.Wasm.Module.{
  WasmFunc, HostEntry, wasm_max_types, wasm_max_funcs, wasm_max_exports, wasm_max_globals,
  truncated, unsupported, over_limit, bad_import, bad_type, Cmd, ok, wild, update, pure, ◌>>=◌,
  ◌>>◌, get, modify, throw, fail_if,
}
use jvmos_jit.Wasm.Load.Limits.{read_limits, finish, or_else}
use jvmos_jit.Wasm.Load.Contents.{const_expr}

-- `for (j = 0; j < n; j++) if (rd_u8(r) != 0x7F) return WASM_ERR_UNSUPPORTED;`
unfoldable pub only_i32 : ℕ → Bytes → Rd → Option Rd
unfolding rd_u8
only_i32 zero bytes r = some r
only_i32 (suc n) bytes r =
    let (b, r') = rd_u8 bytes r in
    let rest = only_i32 n bytes r' in if b == 0x7F then rest else none

module _ {U : Type 0} where
  -- `for (h = 0; h < m->nhosts; h++)`, from `h` on.
  unfoldable pub find_host :
      ℕ → Bytes → (ℕ → HostEntry U) → (mname mlen fname nlen h : ℕ) → Option ℕ
  unfolding wcmp_equal
  find_host zero bytes hosts mname mlen fname nlen h = none
  find_host (suc left) bytes hosts mname mlen fname nlen h =
      let rest = find_host left bytes hosts mname mlen fname nlen (h + 1) in
      let e = hosts h in
      if wcmp_equal bytes mname e.module_name mlen && wcmp_equal bytes fname e.name nlen
      then some h
      else rest

  -- The types from `i` on; `m->ntypes` is set behind the loop.
  unfoldable pub type_entries : ℕ → Bytes → (i : ℕ) → Rd → Cmd U Rd
  unfolding rd_u8 rd_uleb only_i32
  type_entries zero bytes i r = pure r
  type_entries (suc left) bytes i r =
      let (form, r1) = rd_u8 bytes r in
      let (np, r2) = rd_uleb bytes r1 in
      if not (form == 0x60)
      then throw bad_type
      else if ltb 255 np
      then throw over_limit
      else or_else (only_i32 np bytes r2) (throw unsupported) λ r3.
        let (nres, r4) = rd_uleb bytes r3 in
        if ltb 1 nres
        then throw unsupported
        else or_else (only_i32 nres bytes r4) (throw unsupported) λ r5. (do
          modify (λ m. record m {
            types = update m.types i (record { nparams = u8 np; nresults = u8 nres });
          })
          type_entries left bytes (i + 1) r5)

  unfoldable pub section_type : Bytes → Rd → Cmd U Rd
  unfolding rd_uleb type_entries
  section_type bytes r = do
    let (n, r') = rd_uleb bytes r
    fail_if (ltb wasm_max_types n) over_limit
    r'' ← type_entries n bytes 0 r'
    modify (λ m. record m { ntypes = n })
    finish r''

  -- The entry at `m->nfuncs`, which is counted.
  unfoldable pub add_func : WasmFunc → Cmd U (Unit {0})
  add_func f m =
      if leb wasm_max_funcs m.nfuncs
      then wild
      else ok tt (record m { funcs = update m.funcs m.nfuncs f; nfuncs = m.nfuncs + 1 })

  unfoldable pub import_func : Bytes → (mname mlen fname nlen : ℕ) → Rd → Cmd U Rd
  unfolding rd_uleb find_host add_func
  import_func bytes mname mlen fname nlen r = do
    m ← get
    let (t, r') = rd_uleb bytes r
    fail_if (leb wasm_max_funcs m.nfuncs) over_limit
    fail_if (leb m.ntypes t) bad_type
    or_else (find_host m.nhosts bytes m.hosts mname mlen fname nlen 0) (throw bad_import) λ found.
        (do
          fail_if (int_neg found) bad_import
          add_func (record {
            type = t;
            code = 0;
            code_end = 0;
            nlocals = 0;
            imported = true;
            host = u8 found;
          })
          modify (λ m. record m { nimports = m.nimports + 1 })
          pure r')

  unfoldable pub import_one : Bytes → (kind mname mlen fname nlen : ℕ) → Rd → Cmd U Rd
  unfolding rd_u8 read_limits import_func
  import_one bytes kind mname mlen fname nlen r =
      if kind == 0
      then import_func bytes mname mlen fname nlen r
      else if kind == 1
      then pure (read_limits bytes (rd_u8 bytes r).1).1
      else if kind == 2
      then pure (read_limits bytes r).1
      else if kind == 3
      then pure (rd_u8 bytes (rd_u8 bytes r).1).1
      else throw unsupported

  unfoldable pub imports : ℕ → Bytes → Rd → Cmd U Rd
  unfolding rd_u8 rd_uleb rd_skip import_one
  imports zero bytes r = pure r
  imports (suc left) bytes r = do
    let (mlen, r1) = rd_uleb bytes r
    let (nlen, r2) = rd_uleb bytes (rd_skip r1 mlen)
    let (kind, r3) = rd_u8 bytes (rd_skip r2 nlen)
    fail_if r3.err truncated
    r4 ← import_one bytes kind r1.p mlen r2.p nlen r3
    imports left bytes r4

  unfoldable pub section_import : Bytes → Rd → Cmd U Rd
  unfolding rd_uleb imports
  section_import bytes r = let (n, r') = rd_uleb bytes r in imports n bytes r' >>= finish

  unfoldable pub functions : ℕ → Bytes → Rd → Cmd U Rd
  unfolding rd_uleb add_func
  functions zero bytes r = pure r
  functions (suc left) bytes r = do
    m ← get
    let (t, r') = rd_uleb bytes r
    fail_if (leb m.ntypes t) bad_type
    add_func (record { type = t; code = 0; code_end = 0; nlocals = 0; imported = false; host = 0 })
    functions left bytes r'

  -- With the index of the first function that has a body.
  unfoldable pub section_function : Bytes → Rd → Cmd U (ℕ × Rd)
  unfolding rd_uleb functions
  section_function bytes r = do
    m ← get
    let (n, r') = rd_uleb bytes r
    fail_if (ltb wasm_max_funcs (add32 m.nfuncs n)) over_limit
    r'' ← functions n bytes r'
    fail_if r''.err truncated
    pure (m.nfuncs, r'')

  unfoldable pub global_entries : ℕ → Bytes → (i : ℕ) → Rd → Cmd U Rd
  unfolding rd_u8 const_expr
  global_entries zero bytes i r = pure r
  global_entries (suc left) bytes i r = do
    m ← get
    let (form, r') = rd_u8 bytes r
    let (v, r'') = const_expr bytes m (rd_u8 bytes r').1
    fail_if (not (form == 0x7F)) unsupported
    modify (λ m. record m { globals = update m.globals i v; nglobals = i + 1 })
    global_entries left bytes (i + 1) r''

  unfoldable pub section_global : Bytes → Rd → Cmd U Rd
  unfolding rd_uleb global_entries
  section_global bytes r = do
    let (n, r') = rd_uleb bytes r
    fail_if (ltb wasm_max_globals n) over_limit
    r'' ← global_entries n bytes 0 r'
    finish r''

  unfoldable pub export_entries : ℕ → Bytes → (i : ℕ) → Rd → Cmd U Rd
  unfolding rd_u8 rd_uleb rd_skip
  export_entries zero bytes i r = pure r
  export_entries (suc left) bytes i r = do
    let (len, r1) = rd_uleb bytes r
    let (kind, r2) = rd_u8 bytes (rd_skip r1 len)
    let (index, r3) = rd_uleb bytes r2
    modify (λ m. record m {
      exports =
          update m.exports i (record { name = r1.p; namelen = len; kind = kind; index = index });
      nexports = i + 1;
    })
    export_entries left bytes (i + 1) r3

  unfoldable pub section_export : Bytes → Rd → Cmd U Rd
  unfolding rd_uleb export_entries
  section_export bytes r = do
    let (n, r') = rd_uleb bytes r
    fail_if (ltb wasm_max_exports n) over_limit
    r'' ← export_entries n bytes 0 r'
    finish r''
