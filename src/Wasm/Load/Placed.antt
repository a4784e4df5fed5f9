-- ===== src/Wasm/Load/Placed.antt =====
-- The sections that place code and data keep the invariant of loading: a body ends inside its
-- section, and a data segment is written below the limit.
use jvmos_jit.Base.{
  ℕ, zero, suc, ◌+◌, ◌-◌, ◌*◌, ◌≤◌, ◌≡◌, refl, ◌∙◌, Bool, true, false, not, ◌||◌, Option, none,
  some, arith, ltb, leb, ◌==◌, if◌then◌else◌, Bool-cases, inl, inr,
}
use jvmos_jit.Base.Word.{u32, add32}
use jvmos_jit.Wasm.Reader.{Bytes, Rd, rd_u8, rd_uleb}
use jvmos_jit.Wasm.Reader.Bounds.{rd_u8-Takes, rd_uleb-Takes}
use jvmos_jit.Wasm.Module.{WasmModule, truncated, over_limit, unsupported, out_of_bounds, update}
use jvmos_jit.Wasm.Load.Limits.{finish, read_limits}
use jvmos_jit.Wasm.Load.Contents.{
  const_expr, local_groups, copy_data, code_entries, section_code, segments, section_data,
  section_memory,
}
use jvmos_jit.Wasm.Load.Loaded.{
  Loaded, Grown, LoadKept, Loads, Grown-refl, LoadKept-then, LoadKept-step, or_else-Loads,
  throw-Loads, guard-Loads,
}
use jvmos_jit.Wasm.Load.Filled.{set_funcs, finish-Loads}

-- The reader behind the locals has the end that it had.
abbrev SameEnd : Rd → Option (ℕ × Rd) → Type 0
SameEnd r none = Unit
SameEnd r (some (total, r')) = r'.end ≡ r.end

SameEnd-if :
    (b : Bool) (r s : Rd) (o : Option (ℕ × Rd))
    → s.end ≡ r.end
    → SameEnd s o
    → SameEnd r (if b then o else none)
SameEnd-if true r s none p h = tt
SameEnd-if true r s (some (total, r')) p h = h ∙ p
SameEnd-if false r s o p h = tt

local_groups-SameEnd :
    (n : ℕ) (bytes : Bytes) (r : Rd) (total : ℕ) → SameEnd r (local_groups n bytes r total)
unfolding local_groups
local_groups-SameEnd zero bytes r total = refl
local_groups-SameEnd (suc n) bytes r total =
    let (count, r') = rd_uleb bytes r in
    let (b, r'') = rd_u8 bytes r' in
    SameEnd-if (b == 0x7F) r r'' _
      ((rd_u8-Takes bytes r').advances.same_end ∙ (rd_uleb-Takes bytes r).advances.same_end)
      (local_groups-SameEnd n bytes r'' (add32 total count))

SameEnd-some :
    (r r' : Rd) (total : ℕ) (o : Option (ℕ × Rd))
    → o ≡ some (total, r')
    → SameEnd r o
    → r'.end ≡ r.end
SameEnd-some r r' total none p h = ground (arith, p)
SameEnd-some r r' total (some (t, s)) p h = ground (arith, p, h)

copy_data-spares :
    (n : ℕ) (bytes : Bytes) (a : ℕ) (r : Rd) (mem : ℕ → ℕ) (i : ℕ)
    → a + n ≤ i
    → (copy_data n bytes a r mem).0 i ≡ mem i
unfolding copy_data
copy_data-spares zero bytes a r mem i h = refl
copy_data-spares (suc n) bytes a r mem i h =
    let (b, r') = rd_u8 bytes r in
    let (mem', r'') = copy_data n bytes (a + 1) r' (update mem a b) in
    ground (arith, copy_data-spares n bytes (a + 1) r' (update mem a b) i (omega (arith, h)))

-- The segment's test leaves it below the limit.
segment_fits :
    (has_mem : Bool) (limit offset len : ℕ)
    → (not has_mem || ltb limit offset || ltb (limit - offset) len) ≡ false
    → offset + len ≤ limit
segment_fits has_mem limit offset len h = ground arith

module _ {U : Type 0} (top : ℕ) where
  code_entries-Loads :
      (n : ℕ) (bytes : Bytes) (fi : ℕ) (r : Rd)
      → r.end ≤ top
      → Loads top (code_entries {U = U} n bytes fi r)
  unfolding code_entries
  code_entries-Loads zero bytes fi r inside m h = Grown-refl top m h
  code_entries-Loads (suc n) bytes fi r inside m h =
      let (size, r1) = rd_uleb bytes r in
      let body_end = add32 r1.p size in
      let (groups, r2) = rd_uleb bytes r1 in
      let same1 = (rd_uleb-Takes bytes r).advances.same_end in
      let same2 = (rd_uleb-Takes bytes r1).advances.same_end in
      guard-Loads top (r1.err || ltb r1.end body_end) truncated _ m λ whole.
        guard-Loads top (leb m.nfuncs fi) over_limit _ m λ known.
          or_else-Loads top (local_groups groups bytes r2 0) _ _ (throw-Loads top Rd unsupported)
            (λ found p m' h'.
              let (total, r3) = found in
              let same3 = SameEnd-some r2 r3 total _ p (local_groups-SameEnd groups bytes r2 0) in
              guard-Loads top (ltb 255 total) over_limit _ m' λ few.
                LoadKept-step top m' _
                  (code_entries n bytes (add32 fi 1) (record r3 { p = body_end }))
                  (set_funcs top m' fi m'.nfuncs _ h' h'.funcs_fit
                    (ground (arith, whole, same1, inside)))
                  (code_entries-Loads n bytes (add32 fi 1) (record r3 { p = body_end })
                    (rw (same3, same2, same1) inside)))
            m h

  pub section_code-Loads :
      (bytes : Bytes) (first_local : ℕ) (r : Rd)
      → r.end ≤ top
      → Loads top (section_code {U = U} bytes first_local r)
  unfolding section_code
  section_code-Loads bytes first_local r inside m h =
      let (n, r') = rd_uleb bytes r in
      LoadKept-then top m _ _
        (code_entries-Loads n bytes first_local r'
          (rw ((rd_uleb-Takes bytes r).advances.same_end) inside) m h)
        (finish-Loads top)

  write_mem :
      (m : WasmModule U) (mem : ℕ → ℕ)
      → Loaded top m
      → ((i : ℕ) → m.mem_bytes ≤ i → mem i ≡ m.mem i)
      → Grown top m (record m { mem = mem })
  write_mem m mem h spared = record {
    loaded = record {
      sound = record {
        sp_fits = h.sound.sp_fits;
        lp_fits = h.sound.lp_fits;
        cp_fits = h.sound.cp_fits;
        labels_fit = h.sound.labels_fit;
        limit_fits = h.sound.limit_fits;
      };
      types_fit = h.types_fit;
      funcs_fit = h.funcs_fit;
      exports_fit = h.exports_fit;
      globals_fit = h.globals_fit;
      code_fits = h.code_fits;
    };
    same_bytes = refl;
    spared = spared;
  }

  segments-Loads : (n : ℕ) (bytes : Bytes) (r : Rd) → Loads top (segments {U = U} n bytes r)
  unfolding segments
  segments-Loads zero bytes r m h = Grown-refl top m h
  segments-Loads (suc n) bytes r m h =
      let (mode, r1) = rd_uleb bytes r in
      let (offset, r2) = const_expr bytes m r1 in
      let (len, r3) = rd_uleb bytes r2 in
      let (mem, r4) = copy_data len bytes offset r3 m.mem in
      guard-Loads top (not (mode == 0)) unsupported _ m λ active.
        guard-Loads top r3.err truncated _ m λ whole.
          guard-Loads top
            (not m.has_mem || ltb m.mem_limit offset || ltb (m.mem_limit - offset) len)
            out_of_bounds _ m
            λ inside.
              LoadKept-step top m _ (segments n bytes r4)
                (write_mem m mem h λ i p. copy_data-spares len bytes offset r3 m.mem i (
                  let fits = segment_fits m.has_mem m.mem_limit offset len inside in
                  let below = h.sound.limit_fits in omega (arith, fits, below, p)))
                (segments-Loads n bytes r4)

  pub section_data-Loads : (bytes : Bytes) (r : Rd) → Loads top (section_data {U = U} bytes r)
  unfolding section_data
  section_data-Loads bytes r m h =
      let (n, r') = rd_uleb bytes r in
      LoadKept-then top m _ _ (segments-Loads n bytes r' m h) (finish-Loads top)

  -- The limit of a memory section is the wrapped product, and it is compared as such.
  set_limit :
      (m : WasmModule U) (pages limit : ℕ)
      → Loaded top m
      → limit ≤ m.mem_bytes
      → Grown top m (record m { mem_pages = pages; mem_limit = limit })
  set_limit m pages limit h fits = record {
    loaded = record {
      sound = record {
        sp_fits = h.sound.sp_fits;
        lp_fits = h.sound.lp_fits;
        cp_fits = h.sound.cp_fits;
        labels_fit = h.sound.labels_fit;
        limit_fits = fits;
      };
      types_fit = h.types_fit;
      funcs_fit = h.funcs_fit;
      exports_fit = h.exports_fit;
      globals_fit = h.globals_fit;
      code_fits = h.code_fits;
    };
    same_bytes = refl;
    spared = λ i p. refl;
  }

  pub section_memory-Loads : (bytes : Bytes) (r : Rd) → Loads top (section_memory {U = U} bytes r)
  unfolding section_memory
  section_memory-Loads bytes r m h =
      let (count, r') = rd_uleb bytes r in
      let (initial, r'') = read_limits bytes r' in
      let pages = if count == 1 then initial else 0 in
      let limit = u32 (pages * 65536) in
      let m' = record m { mem_pages = pages; mem_limit = limit } in
      guard-Loads top (ltb 1 count) unsupported _ m λ one.
        elim (Bool-cases (ltb m.mem_bytes limit)) [
          | inl over ↦ rw (over, LoadKept) λ i p. refl
          | inr fits ↦
              rw (fits, LoadKept)
                (LoadKept-step top m m' (finish (if count == 1 then r'' else r'))
                  (set_limit m pages limit h (ground arith)) (finish-Loads top _))
        ]
