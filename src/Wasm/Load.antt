-- ===== src/Wasm/Load.antt =====
-- `wasm_load` of wasm/wasm.c: the header and the loop over the sections.
--
-- A section function takes the reader and returns it as it leaves it; its last line,
-- `return r->err ? WASM_ERR_TRUNCATED : WASM_OK;`, is `finish`.
pub mod Limits
pub mod Tables
pub mod Contents
pub mod Loaded
mod Filled
mod Placed
pub mod Confined
use jvmos_jit.Base.{
  ℕ, zero, suc, ◌+◌, ◌-◌, ◌*◌, Bool, true, false, not, ◌&&◌, ◌||◌, Option, none, some, bit_and, ltb,
  leb, ◌==◌, if◌then◌else◌,
}
use jvmos_jit.Base.Word.{u8, u16, u32, add32, sub32, int_neg}
use jvmos_jit.Wasm.Reader.{Bytes, Rd, rd_u8, rd_uleb, rd_sleb, rd_skip}
use jvmos_jit.Wasm.Names.{wcmp_equal}
use jvmos_jit.Wasm.Module.{
  WasmModule, WasmFunc, HostEntry, wasm_max_types, wasm_max_funcs, wasm_max_exports,
  wasm_max_globals, bad_magic, bad_version, truncated, unsupported, over_limit, bad_import,
  out_of_bounds, bad_type, Outcome, Cmd, ok, fail, wild, update, pure, and_then, ◌>>=◌, ◌>>◌, get,
  modify, throw, fail_if, wild_if,
}
use jvmos_jit.Wasm.Load.Tables.{
  section_type, section_import, section_function, section_global, section_export,
}
use jvmos_jit.Wasm.Load.Contents.{section_code, section_data, section_memory}

-- `bytes[0] != 0x00 || ...`, from `p` on.
abbrev pub magic_differs : Bytes → ℕ → Bool
magic_differs bytes p =
    not
      (bytes p == 0 && (bytes (p + 1) == 0x61 && (bytes (p + 2) == 0x73 && bytes (p + 3) == 0x6D)))

abbrev pub version_differs : Bytes → ℕ → Bool
version_differs bytes p =
    not (bytes (p + 4) == 1 && (bytes (p + 5) == 0 && (bytes (p + 6) == 0 && bytes (p + 7) == 0)))

module _ {U : Type 0} where
  abbrev pub keep_first : ℕ → Cmd U Rd → Cmd U ℕ
  keep_first first_local c = c >>= λ r. pure first_local

  abbrev pub take_first : Cmd U (ℕ × Rd) → Cmd U ℕ
  take_first c = c >>= λ found. pure found.0

  -- One section, with the index of the first function that has a body. Sections with other numbers
  -- are skipped.
  unfoldable pub section : Bytes → (id : ℕ) → (first_local : ℕ) → Rd → Cmd U ℕ
  unfolding section_type section_import section_function section_memory section_global
      section_export section_code section_data
  section bytes id first_local r =
      if id == 1
      then keep_first first_local (section_type bytes r)
      else if id == 2
      then keep_first first_local (section_import bytes r)
      else if id == 3
      then take_first (section_function bytes r)
      else if id == 5
      then keep_first first_local (section_memory bytes r)
      else if id == 6
      then keep_first first_local (section_global bytes r)
      else if id == 7
      then keep_first first_local (section_export bytes r)
      else if id == 10
      then keep_first first_local (section_code bytes first_local r)
      else if id == 11
      then keep_first first_local (section_data bytes r)
      else pure first_local

  -- `none` stands for a loop that ran out of fuel.
  abbrev pub load_on :
      (ℕ → WasmModule U → Option (Outcome U (Unit {0})))
      → Outcome U ℕ
      → Option (Outcome U (Unit {0}))
  load_on rest (ok first_local m) = rest first_local m
  load_on rest (fail e m) = some (fail e m)
  load_on rest wild = some wild

  -- The loop over the sections.
  unfoldable pub load_loop :
      ℕ → Bytes → (first_local : ℕ) → Rd → WasmModule U → Option (Outcome U (Unit {0}))
  unfolding rd_u8 rd_uleb section
  load_loop zero bytes first_local r m = none
  load_loop (suc fuel) bytes first_local r m =
      let (id, r1) = rd_u8 bytes r in
      let (size, r2) = rd_uleb bytes r1 in
      let next = r2.p + size in
      let sub : Rd = record { p = r2.p; end = next; err = false } in
      if leb r.end r.p
      then some (ok tt m)
      else if r2.err || ltb (sub32 r2.end r2.p) size
      then some (fail truncated m)
      else load_on (λ first m'. load_loop fuel bytes first (record r2 { p = next }) m')
          (section bytes id first_local sub m)

  -- The module as `wzero` and the assignments behind it leave it. `memory` is what the buffer and
  -- the bytes behind it hold.
  unfoldable pub cleared :
      (has_mem : Bool) (memory : ℕ → ℕ) (memory_bytes : ℕ) (hosts : ℕ → HostEntry U) (nhosts : ℕ)
      → U
      → WasmModule U
  cleared has_mem memory memory_bytes hosts nhosts user = record {
    types = λ i. record { nparams = 0; nresults = 0 };
    ntypes = 0;
    funcs =
        λ i. record { type = 0; code = 0; code_end = 0; nlocals = 0; imported = false; host = 0 };
    nfuncs = 0;
    nimports = 0;
    exports = λ i. record { name = 0; namelen = 0; kind = 0; index = 0 };
    nexports = 0;
    globals = λ i. 0;
    nglobals = 0;
    has_mem = has_mem;
    mem = memory;
    mem_bytes = memory_bytes;
    mem_pages = 0;
    mem_limit = 0;
    hosts = hosts;
    nhosts = nhosts;
    user = user;
    stack = λ i. 0;
    sp = 0;
    locals = λ i. 0;
    lp = 0;
    ctrl = λ i. record { cont = 0; is_loop = false; arity = 0; sp = 0 };
    cp = 0;
  }

  -- The `len` bytes from `start` on, into a module as `cleared` leaves it. A section takes at least
  -- one byte, so `len` rounds are enough.
  unfoldable pub wasm_load : Bytes → (start len : ℕ) → WasmModule U → Option (Outcome U (Unit {0}))
  unfolding load_loop
  wasm_load bytes start len m =
      if ltb len 8
      then some (fail truncated m)
      else if magic_differs bytes start
      then some (fail bad_magic m)
      else if version_differs bytes start
      then some (fail bad_version m)
      else load_loop len bytes 0 (record { p = start + 8; end = start + len; err = false }) m
