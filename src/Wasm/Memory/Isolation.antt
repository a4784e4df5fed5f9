-- ===== src/Wasm/Memory/Isolation.antt =====
-- The sandbox: what a load or a store can reach. An access touches no byte at or above the limit
-- that the module declared, and the limit never passes the end of the host's buffer.
use mathlib.Core.Path.{◌≡◌, refl, ◌∙◌, ap}
use jvmos_jit.Base.{
  ℕ, ◌+◌, ◌-◌, ◌≤◌, ◌^◌, ◌*◌, ◌||◌, arith, ◌⊎◌, inl, inr, Bool-cases, ltb, leb, ◌==◌,
}
use jvmos_jit.Base.Word.{u8, u32, add32, int_neg}
use jvmos_jit.Wasm.Reader.{Bytes, Rd, rd_u8, rd_uleb}
use jvmos_jit.Wasm.Module.{
  WasmModule, truncated, unsupported, wasm_stack, out_of_bounds, Cmd, Outcome, ok, fail, wild,
  update, pure, and_then, ◌>>=◌,
}
use jvmos_jit.Wasm.Module.Post.{
  unchanged, Sound, Keeps-refl, Kept, Keeping, mem_behind, Kept-bind, Kept-then, bind, pure-Keeping,
  throw-Keeping, fail_if-Keeping, Kept-if,
}
use jvmos_jit.Wasm.Stack.{push, pop}
use jvmos_jit.Wasm.Memory.{
  load16, load32, store16, store32, sign8, sign16, Access, i32_load, load8_s, load8_u, load16_s,
  load16_u, other_load, i32_store, i32_store8, i32_store16, other_store, access_of, mem_check,
  load_value, store_value, access, run_access, memory_size, grow_pages, memory_grow,
}

-- A write that changes `size` bytes at most, counted from its address.
abbrev Local : ℕ → ((ℕ → ℕ) → ℕ → ℕ → ℕ → ℕ) → Type 0
Local size write = (mem : ℕ → ℕ) (a v i : ℕ) → a + size ≤ i → write mem a v i ≡ mem i

store8-Local : Local 1 (λ mem a v. update mem a (u8 v))
store8-Local mem a v i h = ground arith

store16-Local : Local 2 store16
unfolding store16
store16-Local mem a v i h = ground arith

store32-Local : Local 4 store32
unfolding store32
store32-Local mem a v i h = ground arith

module _ {U : Type 0} where
  pub push-Keeping : (W : Type 0) (v : ℕ) → Keeping W (push {U = U} v)
  unfolding push
  push-Keeping W v m s =
      Kept-if W m (leb wasm_stack m.sp) _ _ (λ full. Keeps-refl m s)
        λ room. record {
          sound = record {
            sp_fits = ground arith;
            lp_fits = s.lp_fits;
            cp_fits = s.cp_fits;
            labels_fit = s.labels_fit;
            limit_fits = s.limit_fits;
          };
          same_bytes = refl;
          same_hosts = refl;
          reached = unchanged;
          outside = λ a h. refl;
        }

  pub pop-Keeping : (W : Type 0) → Keeping W (pop {U = U})
  unfolding pop
  pop-Keeping W m s =
      Kept-if W m (m.sp == 0) _ _ (λ empty. Keeps-refl m s)
        λ some_left.
          Kept-if W m (ltb wasm_stack m.sp) _ _ (λ above. absurd (ground (arith, s.sp_fits)))
            λ inside. record {
              sound = record {
                sp_fits = omega (arith, s.sp_fits);
                lp_fits = s.lp_fits;
                cp_fits = s.cp_fits;
                labels_fit = s.labels_fit;
                limit_fits = s.limit_fits;
              };
              same_bytes = refl;
              same_hosts = refl;
              reached = unchanged;
              outside = λ a h. refl;
            }

  mem_check_cases :
      (addr size : ℕ) (m : WasmModule U)
      → (mem_check addr size m ≡ fail out_of_bounds m)
        ⊎ (mem_check addr size m ≡ ok tt m) × (addr + size ≤ m.mem_limit)
  unfolding mem_check
  mem_check_cases addr size m = ground arith

  -- A check that passes leaves `size` bytes at `addr` below the limit.
  checked :
      {A : Type 0} (W : Type 0) (addr size : ℕ) (k : Unit {0} → Cmd U A) (m : WasmModule U)
      → Sound m
      → (addr + size ≤ m.mem_limit → Kept W m (k tt m))
      → Kept W m ((mem_check addr size >>= k) m)
  checked W addr size k m s inside = elim (mem_check_cases addr size m) [
    | inl refused ↦ rw (refused, Kept) (Keeps-refl m s)
    | inr (passed, below) ↦ rw (passed, Kept) (inside below)
  ]

  load_value-Keeping :
      (W : Type 0) (read : (ℕ → ℕ) → ℕ → ℕ) (size offset : ℕ)
      → Keeping W (load_value {U = U} read size offset)
  unfolding load_value
  load_value-Keeping W read size offset =
      bind W pop _ (pop-Keeping W)
        λ base m s. checked W (add32 base offset) size _ m s λ inside. push-Keeping W _ m s

  store_value-Keeping :
      (W : Type 0) (write : (ℕ → ℕ) → ℕ → ℕ → ℕ → ℕ) (size offset : ℕ)
      → Local size write
      → Keeping W (store_value {U = U} write size offset)
  unfolding store_value
  store_value-Keeping W write size offset local = bind W pop _ (pop-Keeping W) λ value.
      bind W pop _ (pop-Keeping W) λ base m s. checked W (add32 base offset) size _ m s λ inside.
        record {
          sound = record {
            sp_fits = s.sp_fits;
            lp_fits = s.lp_fits;
            cp_fits = s.cp_fits;
            labels_fit = s.labels_fit;
            limit_fits = s.limit_fits;
          };
          same_bytes = refl;
          same_hosts = refl;
          reached = unchanged;
          outside = λ i h. local m.mem (add32 base offset) value i (omega (arith, s.limit_fits));
        }

  access-Keeping :
      (W : Type 0) (kind : Access) (offset : ℕ) → Keeping W (access {U = U} kind offset)
  unfolding access
  access-Keeping W i32_load offset = load_value-Keeping W load32 4 offset
  access-Keeping W load8_s offset = load_value-Keeping W (λ mem a. sign8 (mem a)) 1 offset
  access-Keeping W load8_u offset = load_value-Keeping W (λ mem a. mem a) 1 offset
  access-Keeping W load16_s offset = load_value-Keeping W (λ mem a. sign16 (load16 mem a)) 2 offset
  access-Keeping W load16_u offset = load_value-Keeping W load16 2 offset
  access-Keeping W other_load offset =
      bind W pop _ (pop-Keeping W) λ base. throw-Keeping (Unit {0}) W unsupported
  access-Keeping W i32_store offset = store_value-Keeping W store32 4 offset store32-Local
  access-Keeping W i32_store8 offset =
      store_value-Keeping W (λ mem a v. update mem a (u8 v)) 1 offset store8-Local
  access-Keeping W i32_store16 offset = store_value-Keeping W store16 2 offset store16-Local
  access-Keeping W other_store offset =
      bind W pop _ (pop-Keeping W)
        λ value. bind W pop _ (pop-Keeping W) λ base. throw-Keeping (Unit {0}) W unsupported

  pub run_access-Keeping :
      (W : Type 0) (bytes : Bytes) (op : ℕ) (r : Rd) → Keeping W (run_access {U = U} bytes op r)
  unfolding run_access
  run_access-Keeping W bytes op r = bind W _ _ (fail_if-Keeping W _ truncated) λ _.
      bind W _ _ (access-Keeping W (access_of op) _)
        λ _. pure-Keeping W (rd_uleb bytes (rd_uleb bytes r).1).1

  pub memory_size-Keeping :
      (W : Type 0) (bytes : Bytes) (r : Rd) → Keeping W (memory_size {U = U} bytes r)
  unfolding memory_size
  memory_size-Keeping W bytes r m s =
      Kept-bind W m (push m.mem_pages m) _ (push-Keeping W m.mem_pages m s)
        λ _. pure-Keeping W (rd_u8 bytes r).1

  -- Growing checks the very limit that it sets, so it stays inside the buffer even where the
  -- product wraps.
  grow_pages-Keeping : (W : Type 0) (pages : ℕ) → Keeping W (grow_pages {U = U} pages)
  grow_pages-Keeping W pages m s =
      let want = add32 m.mem_pages pages in
      let limit = u32 (want * 65536) in
      Kept-if W m (int_neg pages || ltb m.mem_bytes limit) _ _
        (λ refused. push-Keeping W (2 ^ 32 - 1) m s)
        λ grown. Kept-then W m (push m.mem_pages m) _ (push-Keeping W m.mem_pages m s) λ _ n kept.
          record {
            sound = record {
              sp_fits = kept.sound.sp_fits;
              lp_fits = kept.sound.lp_fits;
              cp_fits = kept.sound.cp_fits;
              labels_fit = kept.sound.labels_fit;
              limit_fits = rw kept.same_bytes (ground arith);
            };
            same_bytes = refl;
            same_hosts = refl;
            reached = unchanged;
            outside = λ i h. refl;
          }

  pub memory_grow-Keeping :
      (W : Type 0) (bytes : Bytes) (r : Rd) → Keeping W (memory_grow {U = U} bytes r)
  unfolding memory_grow
  memory_grow-Keeping W bytes r =
      bind W pop _ (pop-Keeping W)
        λ pages. bind W _ _ (grow_pages-Keeping W pages) λ _. pure-Keeping W (rd_u8 bytes r).1

  -- The one-instruction view: an access leaves every byte at or above the declared limit as it was,
  -- whatever the operands on the stack.
  pub access_spares :
      (kind : Access) (offset i : ℕ) (m : WasmModule U)
      → m.mem_limit ≤ i
      → mem_behind m (access kind offset m) i ≡ m.mem i
  unfolding access load_value store_value push pop mem_check store16 store32
  access_spares i32_load offset i m h = ground arith
  access_spares _ offset i m h = ground arith

  mem_behind-pure :
      {A B : Type 0} (m : WasmModule U) (o : Outcome U A) (b : B)
      → mem_behind m (and_then o λ _. pure b) ≡ mem_behind m o
  mem_behind-pure m (ok a m') b = refl
  mem_behind-pure m (fail e m') b = refl
  mem_behind-pure m wild b = refl

  -- A load or store instruction leaves every byte at or above the module's declared limit as it
  -- was, whatever its opcode, its immediates, the operands and the state, errors included.
  pub run_access_spares :
      (bytes : Bytes) (op : ℕ) (r : Rd) (i : ℕ) (m : WasmModule U)
      → m.mem_limit ≤ i
      → mem_behind m (run_access bytes op r m) i ≡ m.mem i
  unfolding run_access
  run_access_spares bytes op r i m h =
      let (offset, r') = rd_uleb bytes (rd_uleb bytes r).1 in
      elim (Bool-cases r'.err) [
        | inl cut ↦ rw (cut, mem_behind)
        | inr whole ↦
            rw (whole, mem_behind)
              (ap (λ (f : ℕ → ℕ). f i) (mem_behind-pure m (access (access_of op) offset m) r')
                ∙ access_spares (access_of op) offset i m h)
      ]
