-- ===== src/Wasm/Memory.antt =====
-- Linear memory in wasm/wasm.c: `mem_check`, `load32`, `store32`, the loads and stores of `run`,
-- `memory.size` and `memory.grow`.
pub mod Isolation
pub mod RoundTrip
use jvmos_jit.Base.{
  ℕ, ◌+◌, ◌-◌, ◌*◌, ◌/◌, ◌%◌, ◌^◌, Bool, not, ◌&&◌, ◌||◌, bit_or, ltb, leb, ◌==◌, if◌then◌else◌,
}
use jvmos_jit.Base.Word.{u8, u32, add32, int_neg}
use jvmos_jit.Wasm.Reader.{Bytes, Rd, rd_u8, rd_uleb}
use jvmos_jit.Wasm.Module.{
  WasmModule, truncated, unsupported, out_of_bounds, Cmd, ok, fail, wild, update, pure, and_then,
  ◌>>=◌, ◌>>◌, get, modify, throw, fail_if,
}
use jvmos_jit.Wasm.Stack.{push, pop}

-- `p[0] | p[1] << 8 | ...`, and the bytes that `store32` writes.
unfoldable pub load16 : (ℕ → ℕ) → ℕ → ℕ
load16 mem a = bit_or (mem a) (mem (a + 1) * 2 ^ 8)

unfoldable pub load32 : (ℕ → ℕ) → ℕ → ℕ
load32 mem a =
    bit_or (bit_or (bit_or (mem a) (mem (a + 1) * 2 ^ 8)) (mem (a + 2) * 2 ^ 16))
      (mem (a + 3) * 2 ^ 24)

unfoldable pub store16 : (ℕ → ℕ) → ℕ → ℕ → ℕ → ℕ
store16 mem a v = update (update mem a (u8 v)) (a + 1) (u8 (v / 2 ^ 8))

unfoldable pub store32 : (ℕ → ℕ) → ℕ → ℕ → ℕ → ℕ
store32 mem a v =
    update
      (update (update (update mem a (u8 v)) (a + 1) (u8 (v / 2 ^ 8))) (a + 2) (u8 (v / 2 ^ 16)))
      (a + 3) (u8 (v / 2 ^ 24))

-- `(int)(signed char)b` and `(int)(short)h`.
unfoldable pub sign8 : ℕ → ℕ
sign8 b = if leb 128 b then b + (2 ^ 32 - 2 ^ 8) else b

unfoldable pub sign16 : ℕ → ℕ
sign16 h = if leb (2 ^ 15) h then h + (2 ^ 32 - 2 ^ 16) else h

-- The opcodes 0x28 to 0x3E.
pub data Access : Type 0 where
  i32_load load8_s load8_u load16_s load16_u other_load : Access
  i32_store i32_store8 i32_store16 other_store : Access

unfoldable pub access_of : ℕ → Access
access_of op =
    if leb op 0x35
    then (if op == 0x28
        then i32_load
        else if op == 0x2C
        then load8_s
        else if op == 0x2D
        then load8_u
        else if op == 0x2E
        then load16_s
        else if op == 0x2F
        then load16_u
        else other_load)
    else if op == 0x36
    then i32_store
    else if op == 0x3A
    then i32_store8
    else if op == 0x3B
    then i32_store16
    else other_store

module _ {U : Type 0} where
  -- `offset > limit`, and a subtraction that cannot wrap.
  unfoldable pub mem_check : ℕ → ℕ → Cmd U (Unit {0})
  mem_check addr size m =
      if not m.has_mem
      then fail out_of_bounds m
      else if ltb m.mem_limit addr
      then fail out_of_bounds m
      else if ltb (m.mem_limit - addr) size
      then fail out_of_bounds m
      else ok tt m

  -- A load: `size` bytes are checked, and `read` makes the value of them.
  unfoldable pub load_value : ((ℕ → ℕ) → ℕ → ℕ) → (size offset : ℕ) → Cmd U (Unit {0})
  unfolding push pop mem_check
  load_value read size offset = do
    base ← pop
    let addr = add32 base offset
    mem_check addr size
    m ← get
    push (read m.mem addr)

  unfoldable pub store_value : ((ℕ → ℕ) → ℕ → ℕ → ℕ → ℕ) → (size offset : ℕ) → Cmd U (Unit {0})
  unfolding push pop mem_check
  store_value write size offset = do
    value ← pop
    base ← pop
    let addr = add32 base offset
    mem_check addr size
    modify (λ m. record m { mem = write m.mem addr value })

  unfoldable pub access : Access → ℕ → Cmd U (Unit {0})
  unfolding load_value store_value load16 load32 store16 store32 sign8 sign16
  access i32_load offset = load_value load32 4 offset
  access load8_s offset = load_value (λ mem a. sign8 (mem a)) 1 offset
  access load8_u offset = load_value (λ mem a. mem a) 1 offset
  access load16_s offset = load_value (λ mem a. sign16 (load16 mem a)) 2 offset
  access load16_u offset = load_value load16 2 offset
  access other_load offset = pop >>= λ base. throw unsupported
  access i32_store offset = store_value store32 4 offset
  access i32_store8 offset = store_value (λ mem a v. update mem a (u8 v)) 1 offset
  access i32_store16 offset = store_value store16 2 offset
  access other_store offset = pop >>= λ value. pop >>= λ base. throw unsupported

  -- The alignment hint and the offset, then the access itself.
  unfoldable pub run_access : Bytes → ℕ → Rd → Cmd U Rd
  unfolding rd_uleb access access_of
  run_access bytes op r =
      let (hint, r') = rd_uleb bytes r in
      let (offset, r'') = rd_uleb bytes r' in
      do fail_if r''.err truncated; access (access_of op) offset; pure r''

  unfoldable pub memory_size : Bytes → Rd → Cmd U Rd
  unfolding rd_u8 push
  memory_size bytes r = do m ← get; push m.mem_pages; pure (rd_u8 bytes r).1

  -- `want` and `want * 65536u` are `unsigned`, so both wrap.
  abbrev pub grow_pages : ℕ → Cmd U (Unit {0})
  grow_pages pages m =
      let want = add32 m.mem_pages pages in
      let limit = u32 (want * 65536) in
      if int_neg pages || ltb m.mem_bytes limit
      then push (2 ^ 32 - 1) m
      else and_then (push m.mem_pages m)
          λ _ m'. ok tt (record m' { mem_pages = want; mem_limit = limit })

  unfoldable pub memory_grow : Bytes → Rd → Cmd U Rd
  unfolding rd_u8 push pop
  memory_grow bytes r = do pages ← pop; grow_pages pages; pure (rd_u8 bytes r).1
