-- ===== src/Wasm/Load/Contents.antt =====
-- The sections of wasm/wasm.c that place code and data: `const_expr`, `section_code`,
-- `section_data` and the memory section.
--
-- The module's bytes are apart from the guest's memory, so that a data segment never overwrites
-- what is still to be read.
use jvmos_jit.Base.{
  ℕ, zero, suc, ◌+◌, ◌-◌, ◌*◌, true, not, ◌||◌, Option, none, some, ltb, leb, ◌==◌, if◌then◌else◌,
}
use jvmos_jit.Base.Word.{u16, u32, add32}
use jvmos_jit.Wasm.Reader.{Bytes, Rd, rd_u8, rd_uleb, rd_sleb}
use jvmos_jit.Wasm.Module.{
  WasmModule, truncated, unsupported, over_limit, out_of_bounds, Cmd, update, pure, ◌>>=◌, ◌>>◌,
  get, modify, throw, fail_if,
}
use jvmos_jit.Wasm.Load.Limits.{read_limits, finish, or_else}

-- The locals of a function body: the groups are summed in an `unsigned`.
unfoldable pub local_groups : ℕ → Bytes → Rd → (total : ℕ) → Option (ℕ × Rd)
unfolding rd_u8 rd_uleb
local_groups zero bytes r total = some (total, r)
local_groups (suc n) bytes r total =
    let (count, r') = rd_uleb bytes r in
    let (b, r'') = rd_u8 bytes r' in
    let rest = local_groups n bytes r'' (add32 total count) in if b == 0x7F then rest else none

-- `for (k = 0; k < len; k++) m->mem[offset + k] = rd_u8(r);`
unfoldable pub copy_data : ℕ → Bytes → (a : ℕ) → Rd → (ℕ → ℕ) → (ℕ → ℕ) × Rd
unfolding rd_u8
copy_data zero bytes a r mem = (mem, r)
copy_data (suc len) bytes a r mem =
    let (b, r') = rd_u8 bytes r in copy_data len bytes (a + 1) r' (update mem a b)

-- `if (rd_u8(r) != 0x0B) r->err = 1;`
abbrev pub expect_end : Bytes → Rd → Rd
expect_end bytes r =
    let (b, r') = rd_u8 bytes r in if b == 0x0B then r' else record r' { err = true }

module _ {U : Type 0} where
  unfoldable pub const_expr : Bytes → WasmModule U → Rd → ℕ × Rd
  unfolding rd_u8 rd_uleb rd_sleb
  const_expr bytes m r =
      let (op, r') = rd_u8 bytes r in
      let (v, after_const) = rd_sleb bytes r' in
      let (g, after_get) = rd_uleb bytes r' in
      if op == 0x41
      then (v, expect_end bytes after_const)
      else if op == 0x23
      then ((if ltb g m.nglobals then m.globals g else 0), expect_end bytes after_get)
      else (0, expect_end bytes (record r' { err = true }))

  -- The bodies of the functions from `fi` on; the end of a body is a 32-bit pointer.
  unfoldable pub code_entries : ℕ → Bytes → (fi : ℕ) → Rd → Cmd U Rd
  unfolding rd_uleb local_groups
  code_entries zero bytes fi r = pure r
  code_entries (suc left) bytes fi r = do
    m ← get
    let (size, r1) = rd_uleb bytes r
    let body_end = add32 r1.p size
    let (groups, r2) = rd_uleb bytes r1
    fail_if (r1.err || ltb r1.end body_end) truncated
    fail_if (leb m.nfuncs fi) over_limit
    or_else (local_groups groups bytes r2 0) (throw unsupported) λ (total, r3). (do
      fail_if (ltb 255 total) over_limit
      modify (λ m. record m {
        funcs =
            update m.funcs fi
              (record (m.funcs fi) { nlocals = u16 total; code = r3.p; code_end = body_end });
      })
      code_entries left bytes (add32 fi 1) (record r3 { p = body_end }))

  unfoldable pub section_code : Bytes → (first_local : ℕ) → Rd → Cmd U Rd
  unfolding rd_uleb code_entries
  section_code bytes first_local r =
      let (n, r') = rd_uleb bytes r in code_entries n bytes first_local r' >>= finish

  unfoldable pub segments : ℕ → Bytes → Rd → Cmd U Rd
  unfolding rd_uleb const_expr copy_data
  segments zero bytes r = pure r
  segments (suc left) bytes r = do
    m ← get
    let (mode, r1) = rd_uleb bytes r
    let (offset, r2) = const_expr bytes m r1
    let (len, r3) = rd_uleb bytes r2
    let (mem, r4) = copy_data len bytes offset r3 m.mem
    fail_if (not (mode == 0)) unsupported
    fail_if r3.err truncated
    fail_if (not m.has_mem || ltb m.mem_limit offset || ltb (m.mem_limit - offset) len)
        out_of_bounds
    modify (λ m. record m { mem = mem })
    segments left bytes r4

  unfoldable pub section_data : Bytes → Rd → Cmd U Rd
  unfolding rd_uleb segments
  section_data bytes r = let (n, r') = rd_uleb bytes r in segments n bytes r' >>= finish

  -- The memory section, in place; its result is what `e` and `sub.err` make of it.
  unfoldable pub section_memory : Bytes → Rd → Cmd U Rd
  unfolding rd_uleb read_limits
  section_memory bytes r = do
    let (count, r') = rd_uleb bytes r
    let (initial, r'') = read_limits bytes r'
    let pages = if count == 1 then initial else 0
    let r3 = if count == 1 then r'' else r'
    fail_if (ltb 1 count) unsupported
    modify (λ m. record m { mem_pages = pages; mem_limit = u32 (pages * 65536) })
    m ← get
    fail_if (ltb m.mem_bytes m.mem_limit) out_of_bounds
    finish r3
