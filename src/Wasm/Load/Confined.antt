-- ===== src/Wasm/Load/Confined.antt =====
-- Loading as a whole: it ends, it leaves the bytes behind the host's buffer alone, and what it
-- hands over is fit to be run.
use jvmos_jit.Base.{
  ℕ, zero, suc, ◌+◌, ◌≤◌, ◌<◌, ◌≡◌, refl, Bool, true, false, ◌||◌, Option, none, some, arith, ltb,
  leb, ◌==◌, if◌then◌else◌,
}
use jvmos_jit.Base.Word.{sub32}
use jvmos_jit.Wasm.Reader.{Bytes, Rd, rd_u8, rd_uleb}
use jvmos_jit.Wasm.Reader.Bounds.{Takes, rd_u8-Takes, rd_uleb-Takes}
use jvmos_jit.Wasm.Module.{WasmModule, HostEntry, Outcome, Cmd, ok, fail, wild}
use jvmos_jit.Wasm.Load.{
  keep_first, take_first, section, load_on, load_loop, magic_differs, version_differs, wasm_load,
  cleared,
}
use jvmos_jit.Wasm.Load.Loaded.{
  Loaded, Grown, LoadKept, Loads, Grown-refl, LoadKept-after, LoadKept-then, choose-Loads,
  pure-Loads,
}
use jvmos_jit.Wasm.Load.Filled.{
  section_type-Loads, section_import-Loads, section_function-Loads, section_global-Loads,
  section_export-Loads,
}
use jvmos_jit.Wasm.Load.Placed.{section_code-Loads, section_data-Loads, section_memory-Loads}

-- The section that the two reads announce lies before the end, which does not move, and the fuel
-- that is left is enough for what is behind it.
round_fits :
    (top : ℕ) (r r1 r2 : Rd) (size fuel : ℕ)
    → Takes r r1
    → Takes r1 r2
    → r.end ≡ top
    → r.p ≤ r.end
    → r.end < r.p + suc fuel
    → (r2.err || ltb (sub32 r2.end r2.p) size) ≡ false
    → (r2.end ≡ top) × (r2.p + size ≤ top) × (r2.p + size ≤ r2.end) × (r2.end < r2.p + size + fuel)
round_fits top r r1 r2 size fuel one two same inside enough whole =
    let same1 = one.advances.same_end in
    let same2 = two.advances.same_end in
    let in1 = one.advances.inside in
    let in2 = two.advances.inside in
    let moved = two.moved in let forward = one.advances.forward in ground arith

module _ {U : Type 0} (top : ℕ) where
  keep_first-Loads : (first : ℕ) (c : Cmd U Rd) → Loads top c → Loads top (keep_first first c)
  keep_first-Loads first c h m l = LoadKept-then top m (c m) _ (h m l) λ r. pure-Loads top first

  take_first-Loads : (c : Cmd U (ℕ × Rd)) → Loads top c → Loads top (take_first c)
  take_first-Loads c h m l = LoadKept-then top m (c m) _ (h m l) λ found. pure-Loads top found.0

  section-Loads :
      (bytes : Bytes) (id first : ℕ) (r : Rd)
      → r.end ≤ top
      → Loads top (section {U = U} bytes id first r)
  unfolding section
  section-Loads bytes id first r inside =
      choose-Loads top (id == 1) _ _
        (λ p. keep_first-Loads first _ (section_type-Loads top bytes r))
        λ p1.
          choose-Loads top (id == 2) _ _
            (λ p. keep_first-Loads first _ (section_import-Loads top bytes r))
            λ p2.
              choose-Loads top (id == 3) _ _
                (λ p. take_first-Loads _ (section_function-Loads top bytes r))
                λ p3.
                  choose-Loads top (id == 5) _ _
                    (λ p. keep_first-Loads first _ (section_memory-Loads top bytes r))
                    λ p5.
                      choose-Loads top (id == 6) _ _
                        (λ p. keep_first-Loads first _ (section_global-Loads top bytes r))
                        λ p6.
                          choose-Loads top (id == 7) _ _
                            (λ p. keep_first-Loads first _ (section_export-Loads top bytes r))
                            λ p7.
                              choose-Loads top (id == 10) _ _
                                (λ p.
                                  keep_first-Loads first _
                                    (section_code-Loads top bytes first r inside))
                                λ p10.
                                  choose-Loads top (id == 11) _ _
                                    (λ p. keep_first-Loads first _ (section_data-Loads top bytes r))
                                    λ other. pure-Loads top first

  -- Loading has ended, and as `LoadKept` says.
  abbrev pub Ends : WasmModule U → Option (Outcome U (Unit {0})) → Type 0
  Ends m none = ⊥
  Ends m (some o) = LoadKept top m o

  Ends-if :
      (m : WasmModule U) (b : Bool) (x y : Option (Outcome U (Unit {0})))
      → (b ≡ true → Ends m x)
      → (b ≡ false → Ends m y)
      → Ends m (if b then x else y)
  Ends-if m true x y h k = h refl
  Ends-if m false x y h k = k refl

  Ends-after :
      (m n : WasmModule U) (o : Option (Outcome U (Unit {0}))) → Grown top m n → Ends n o → Ends m o
  Ends-after m n none g h = h
  Ends-after m n (some o) g h = LoadKept-after top m n o g h

  load_on-Ends :
      (m : WasmModule U) (o : Outcome U ℕ) (rest : ℕ → WasmModule U → Option (Outcome U (Unit {0})))
      → LoadKept top m o
      → ((first : ℕ) (n : WasmModule U) → Loaded top n → Ends n (rest first n))
      → Ends m (load_on rest o)
  load_on-Ends m (ok first n) rest h follow =
      Ends-after m n (rest first n) h (follow first n h.loaded)
  load_on-Ends m (fail e n) rest h follow = h
  load_on-Ends m wild rest h follow = tt

  load_loop-Ends :
      (fuel : ℕ) (bytes : Bytes) (first : ℕ) (r : Rd) (m : WasmModule U)
      → r.end ≡ top
      → r.p ≤ r.end
      → r.end < r.p + fuel
      → Loaded top m
      → Ends m (load_loop fuel bytes first r m)
  unfolding load_loop
  load_loop-Ends zero bytes first r m same inside enough h = omega (arith, inside, enough)
  load_loop-Ends (suc fuel) bytes first r m same inside enough h =
      let (id, r1) = rd_u8 bytes r in
      let (size, r2) = rd_uleb bytes r1 in
      let next = r2.p + size in
      let sub : Rd = record { p = r2.p; end = next; err = false } in
      Ends-if m (leb r.end r.p) _ _ (λ done. Grown-refl top m h)
        λ more.
          Ends-if m (r2.err || ltb (sub32 r2.end r2.p) size) _ _ (λ cut i p. refl)
            λ whole.
              let (same2, under, fits, left) =
                round_fits top r r1 r2 size fuel (rd_u8-Takes bytes r) (rd_uleb-Takes bytes r1) same
                  inside enough whole in
              load_on-Ends m (section bytes id first sub m) _
                (section-Loads bytes id first sub under m h)
                λ first' n h'.
                  load_loop-Ends fuel bytes first' (record r2 { p = next }) n same2 fits left h'

  -- A module as `cleared` makes it is where loading starts.
  cleared-Loaded :
      (has_mem : Bool) (memory : ℕ → ℕ) (memory_bytes : ℕ) (hosts : ℕ → HostEntry U) (nhosts : ℕ)
      (user : U)
      → Loaded top (cleared has_mem memory memory_bytes hosts nhosts user)
  unfolding cleared
  cleared-Loaded has_mem memory memory_bytes hosts nhosts user = record {
    sound = record {
      sp_fits = omega arith;
      lp_fits = omega arith;
      cp_fits = omega arith;
      labels_fit = λ i. omega arith;
      limit_fits = omega arith;
    };
    types_fit = omega arith;
    funcs_fit = omega arith;
    exports_fit = omega arith;
    globals_fit = omega arith;
    code_fits = λ i. omega arith;
  }

-- Loading ends, whatever the bytes. Unless it writes past the end of `funcs`, it changes no byte
-- behind the host's buffer; and if it succeeds, the module's tables fit their arrays, no function
-- reaches past the end of the bytes, and the limit lies inside the buffer.
pub wasm_load_confined :
    {U : Type 0} (bytes : Bytes) (start len : ℕ) (has_mem : Bool) (memory : ℕ → ℕ)
    (memory_bytes : ℕ) (hosts : ℕ → HostEntry U) (nhosts : ℕ) (user : U)
    → Ends
        (start + len)
        (cleared has_mem memory memory_bytes hosts nhosts user)
        (wasm_load bytes start len (cleared has_mem memory memory_bytes hosts nhosts user))
unfolding wasm_load
wasm_load_confined bytes start len has_mem memory memory_bytes hosts nhosts user =
    let top = start + len in
    let m = cleared has_mem memory memory_bytes hosts nhosts user in
    Ends-if top m (ltb len 8) _ _ (λ cut i p. refl)
      λ long.
        Ends-if top m (magic_differs bytes start) _ _ (λ other i p. refl)
          λ magic.
            Ends-if top m (version_differs bytes start) _ _ (λ other i p. refl)
              λ version.
                load_loop-Ends top len bytes 0 (record { p = start + 8; end = top; err = false }) m
                  refl (ground arith) (omega arith)
                  (cleared-Loaded top has_mem memory memory_bytes hosts nhosts user)
