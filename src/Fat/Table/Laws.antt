-- ===== src/Fat/Table/Laws.antt =====
-- An entry of the table that is set is got back, and setting it changes no other entry and no sector
-- outside the tables.
use jvmos_jit.Base.{
  ℕ, zero, suc, ◌+◌, ◌*◌, ◌%◌, ◌^◌, ◌≤◌, ◌<◌, ◌≡◌, ◌≢◌, ◌⊎◌, inl, inr, refl, ap, ◌∙◌, Bool-cases,
  Option, none, some, bit_and, arith, ltb, ◌==◌,
}
use jvmos_jit.Base.Word.{add32}
use jvmos_jit.Base.Bits.{bit_and_low}
use jvmos_jit.Fat.Bytes.{Buffer, put32}
use jvmos_jit.Fat.Bytes.RoundTrip.{get32-put32, get32-put32_apart}
use jvmos_jit.Fat.Disk.{Disk, IsDisk, and_then, from_read, read_sector, write_sector}
use jvmos_jit.Fat.Disk.Rules.{
  Ensures, Ensures-then, Ensures-weaken, Ensures-Spared, Sparing, Spared-then, read_sector-Sparing,
  write_sector-Sparing, write_sector-Ensures,
}
use native.Mathlib.Nat.{mod-eq_of_lt, suc-mul, mul-le-mul_right}
use jvmos_jit.Fat.Table.{
  Fs, entry_sector, entry_offset, entry_lba, entry_in, fat_entry_get, set_copies, fat_entry_set,
}

-- The tables lie below 2 ^ 32, and there is one.
pub record TablesFit (fs : Fs) : Type 0 where
  pub no_wrap : fs.fat_lba + fs.fat_count * fs.fat_sectors < 2 ^ 32
  pub some_table : 1 ≤ fs.fat_count

-- An entry whose number does not wrap and that the table has.
pub record IsEntry (fs : Fs) (cluster : ℕ) : Type 0 where
  pub small : cluster < 2 ^ 30
  pub in_table : entry_sector cluster < fs.fat_sectors

entry_in-put :
    (s : Buffer) (cluster v : ℕ)
    → entry_in cluster (some (put32 s (entry_offset cluster) (bit_and v 0x0FFF_FFFF))) ≡ v % 2 ^ 28
entry_in-put s cluster v =
    let low = bit_and_low 28 v in
    let got = get32-put32 s (entry_offset cluster) (bit_and v 0x0FFF_FFFF) (omega (arith, low)) in
    let again = bit_and_low 28 (bit_and v 0x0FFF_FFFF) in rw got (omega (arith, low, again))

-- Two entries of one sector stand four bytes apart.
offsets_apart :
    (a b : ℕ)
    → a < 2 ^ 30
    → b < 2 ^ 30
    → a ≢ b
    → entry_sector a ≡ entry_sector b
    → (entry_offset b + 4 ≤ entry_offset a) ⊎ (entry_offset a + 4 ≤ entry_offset b)
offsets_apart a b p q apart same = elim (Bool-cases (ltb a b)) [
  | inl below ↦ inr (ground arith)
  | inr above ↦ inl (ground arith)
]

-- The sector of an entry lies in the copy of the table that it is looked up in.
copy_range :
    (fs : Fs) (cluster j : ℕ)
    → TablesFit fs
    → IsEntry fs cluster
    → j < fs.fat_count
    → (fs.fat_lba + j * fs.fat_sectors ≤ entry_lba fs j cluster)
      × (entry_lba fs j cluster < fs.fat_lba + j * fs.fat_sectors + fs.fat_sectors)
      × (fs.fat_lba + j * fs.fat_sectors + fs.fat_sectors
          ≤ fs.fat_lba + fs.fat_count * fs.fat_sectors)
copy_range fs cluster j fit entry h =
    let rows : suc j * fs.fat_sectors ≤ fs.fat_count * fs.fat_sectors =
      mul-le-mul_right fs.fat_sectors (omega (arith, h)) in
    let last : suc j * fs.fat_sectors ≡ j * fs.fat_sectors + fs.fat_sectors =
      suc-mul j fs.fat_sectors in
    let small = fit.no_wrap in
    let inside = entry.in_table in
    let lba : entry_lba fs j cluster ≡ fs.fat_lba + j * fs.fat_sectors + entry_sector cluster =
      mod-eq_of_lt (omega (arith, rows, last, small, inside)) in
    (omega (arith, lba), omega (arith, lba, inside), omega (arith, rows, last))

outside_copies :
    (fs : Fs) (cluster j k : ℕ)
    → TablesFit fs
    → IsEntry fs cluster
    → j < fs.fat_count
    → (k < fs.fat_lba) ⊎ (fs.fat_lba + fs.fat_count * fs.fat_sectors ≤ k)
    → k ≢ entry_lba fs j cluster
outside_copies fs cluster j k fit entry h outside e =
    let (low, high, top) = copy_range fs cluster j fit entry h in
    grind (arith, low, high, top, outside, e)

-- The copies of a table do not meet.
copies_apart :
    (fs : Fs) (cluster j : ℕ)
    → TablesFit fs
    → IsEntry fs cluster
    → 1 ≤ j
    → j < fs.fat_count
    → entry_lba fs 0 cluster ≢ entry_lba fs j cluster
copies_apart fs cluster j fit entry p q e =
    let (low, high, top) = copy_range fs cluster 0 fit entry (omega (arith, p, q)) in
    let (low', high', top') = copy_range fs cluster j fit entry q in
    let rows : 1 * fs.fat_sectors ≤ j * fs.fat_sectors = mul-le-mul_right fs.fat_sectors p in
    omega (arith, high, low', rows, e)

sectors_apart :
    (fs : Fs) (cluster other j : ℕ)
    → TablesFit fs
    → IsEntry fs cluster
    → IsEntry fs other
    → entry_sector other ≢ entry_sector cluster
    → j < fs.fat_count
    → entry_lba fs 0 other ≢ entry_lba fs j cluster
sectors_apart fs cluster other zero fit entry entry' far q e =
    let small = fit.no_wrap in
    let inside = entry.in_table in
    let inside' = entry'.in_table in
    let rows : 1 * fs.fat_sectors ≤ fs.fat_count * fs.fat_sectors =
      mul-le-mul_right fs.fat_sectors (omega (arith, q)) in
    far (omega (arith, small, inside, inside', rows, e))
sectors_apart fs cluster other (suc j) fit entry entry' far q e =
    let (low, high, top) = copy_range fs other 0 fit entry' (omega (arith, q)) in
    let (low', high', top') = copy_range fs cluster (suc j) fit entry q in
    let rows : 1 * fs.fat_sectors ≤ suc j * fs.fat_sectors =
      mul-le-mul_right fs.fat_sectors (omega arith) in
    omega (arith, high, low', rows, e)

entry_in-put_apart :
    (s : Buffer) (cluster other value : ℕ) {fs : Fs}
    → IsEntry fs cluster
    → IsEntry fs other
    → other ≢ cluster
    → entry_sector other ≡ entry_sector cluster
    → entry_in other (some (put32 s (entry_offset cluster) (bit_and value 0x0FFF_FFFF)))
      ≡ entry_in other (some s)
entry_in-put_apart s cluster other value entry entry' apart same =
    ap (λ v. bit_and v 0x0FFF_FFFF)
      (get32-put32_apart s (entry_offset cluster) (entry_offset other) (bit_and value 0x0FFF_FFFF)
        (offsets_apart other cluster entry'.small entry.small apart same))

module _ {D : Type 0} (disk : Disk D) (laws : IsDisk disk) where
  -- A sector that no round writes is left as it was, however the rounds end.
  pub set_copies-Sparing :
      (left : ℕ) (fs : Fs) (i cluster value k : ℕ)
      → ((j : ℕ) → i ≤ j → j < i + left → k ≢ entry_lba fs j cluster)
      → Sparing disk k (set_copies disk left fs i cluster value)
  unfolding set_copies
  set_copies-Sparing zero fs i cluster value k apart d = record { same = refl }
  set_copies-Sparing (suc left) fs i cluster value k apart d =
      Spared-then disk k d _ _ (read_sector-Sparing disk k (entry_lba fs i cluster) d) λ s e.
        Spared-then disk k e _ _
          (write_sector-Sparing disk k laws (entry_lba fs i cluster) _
            (apart i (omega arith) (omega arith)) e)
          λ u.
            set_copies-Sparing left fs (i + 1) cluster value k
              (λ j p q. apart j (omega (arith, p)) (omega (arith, q)))

  -- Setting an entry leaves every sector outside the tables as it was, however it ends.
  pub fat_entry_set-Sparing :
      (fs : Fs) (cluster value k : ℕ)
      → TablesFit fs
      → IsEntry fs cluster
      → (k < fs.fat_lba) ⊎ (fs.fat_lba + fs.fat_count * fs.fat_sectors ≤ k)
      → Sparing disk k (fat_entry_set disk fs cluster value)
  unfolding fat_entry_set
  fat_entry_set-Sparing fs cluster value k fit entry outside =
      set_copies-Sparing fs.fat_count fs 0 cluster value k
        λ j p q. outside_copies fs cluster j k fit entry (omega (arith, q)) outside

  -- The first copy, where entries are looked up, after the rounds behind it.
  first_copy :
      (left : ℕ) (fs : Fs) (cluster value : ℕ) (t : Buffer) (d : D)
      → TablesFit fs
      → IsEntry fs cluster
      → suc left ≡ fs.fat_count
      → disk.read (entry_lba fs 0 cluster) d ≡ some t
      → Ensures
          (λ u e. disk.read (entry_lba fs 0 cluster) e ≡ some t)
          (set_copies disk left fs 1 cluster value d)
  first_copy left fs cluster value t d fit entry all h =
      Ensures-weaken _ _ (set_copies disk left fs 1 cluster value d)
        (Ensures-Spared disk (entry_lba fs 0 cluster) d _ (
          set_copies-Sparing left fs 1 cluster value (entry_lba fs 0 cluster)
            (λ j p q. copies_apart fs cluster j fit entry p (omega (arith, q, all))) d))
        λ u e same. same ∙ h

  set_copies-holds :
      (copies : ℕ) (fs : Fs) (cluster value : ℕ) (d : D)
      → TablesFit fs
      → IsEntry fs cluster
      → copies ≡ fs.fat_count
      → Ensures
          (λ u e.
            (t : Buffer) × (disk.read (entry_lba fs 0 cluster) d ≡ some t)
            × (disk.read (entry_lba fs 0 cluster) e
                ≡ some (put32 t (entry_offset cluster) (bit_and value 0x0FFF_FFFF))))
          (set_copies disk copies fs 0 cluster value d)
  unfolding set_copies read_sector
  set_copies-holds zero fs cluster value d fit entry all =
      absurd (omega (arith, all, fit.some_table))
  set_copies-holds (suc left) fs cluster value d fit entry all =
      found_case (disk.read (entry_lba fs 0 cluster) d) refl
    where
      found_case :
          (found : Option Buffer)
          → disk.read (entry_lba fs 0 cluster) d ≡ found
          → Ensures
              (λ u e.
                (t : Buffer) × (disk.read (entry_lba fs 0 cluster) d ≡ some t)
                × (disk.read (entry_lba fs 0 cluster) e
                    ≡ some (put32 t (entry_offset cluster) (bit_and value 0x0FFF_FFFF))))
              (and_then (from_read found d) λ s. λ e.
                and_then
                  (write_sector disk
                    (entry_lba fs 0 cluster)
                    (put32 s (entry_offset cluster) (bit_and value 0x0FFF_FFFF))
                    e)
                  λ u. set_copies disk left fs 1 cluster value)
      found_case none p = tt
      found_case (some s) p =
          let changed = put32 s (entry_offset cluster) (bit_and value 0x0FFF_FFFF) in
          Ensures-then _ _ (write_sector disk (entry_lba fs 0 cluster) changed d) _
            (write_sector-Ensures disk laws (entry_lba fs 0 cluster) changed d)
            λ u e written.
              Ensures-weaken _ _ (set_copies disk left fs 1 cluster value e)
                (first_copy left fs cluster value changed e fit entry all written)
                λ v f kept. (s, p, kept)

  lookup_lba :
      (fs : Fs) (cluster : ℕ) → add32 fs.fat_lba (entry_sector cluster) ≡ entry_lba fs 0 cluster
  lookup_lba fs cluster = omega arith

  -- On a volume with at least one table whose tables end below sector 2^32: an entry of the first
  -- table that is set, in as many copies as the volume has, is the one that is read: the value's
  -- low 28 bits.
  pub fat_entry_get-set :
      (fs : Fs) (cluster value : ℕ) (d : D)
      → TablesFit fs
      → IsEntry fs cluster
      → Ensures
          (λ u e. fat_entry_get disk fs cluster e ≡ value % 2 ^ 28)
          (fat_entry_set disk fs cluster value d)
  unfolding fat_entry_set fat_entry_get
  fat_entry_get-set fs cluster value d fit entry =
      Ensures-weaken _ _ (set_copies disk fs.fat_count fs 0 cluster value d)
        (set_copies-holds fs.fat_count fs cluster value d fit entry refl)
        λ u e (t, before, after). rw (lookup_lba fs cluster, after) (entry_in-put t cluster value)

  -- Setting an entry, if it succeeds, leaves every other entry as it was.
  pub fat_entry_get-set_apart :
      (fs : Fs) (cluster other value : ℕ) (d : D)
      → TablesFit fs
      → IsEntry fs cluster
      → IsEntry fs other
      → other ≢ cluster
      → Ensures
          (λ u e. fat_entry_get disk fs other e ≡ fat_entry_get disk fs other d)
          (fat_entry_set disk fs cluster value d)
  unfolding fat_entry_set fat_entry_get
  fat_entry_get-set_apart fs cluster other value d fit entry entry' apart =
      elim (Bool-cases (entry_sector other == entry_sector cluster)) [
        | inl same ↦
            let together : entry_sector other ≡ entry_sector cluster = ground (arith, same) in
            Ensures-weaken _ _ (set_copies disk fs.fat_count fs 0 cluster value d)
              (set_copies-holds fs.fat_count fs cluster value d fit entry refl)
              λ u e (t, before, after).
                rw (together, lookup_lba fs cluster, after, before)
                  (entry_in-put_apart t cluster other value entry entry' apart together)
        | inr elsewhere ↦
            let far : entry_sector other ≢ entry_sector cluster = ground (arith, elsewhere) in
            Ensures-weaken _ _ (set_copies disk fs.fat_count fs 0 cluster value d)
              (Ensures-Spared disk (entry_lba fs 0 other) d _ (
                set_copies-Sparing fs.fat_count fs 0 cluster value (entry_lba fs 0 other)
                  (λ j p q.
                    sectors_apart fs cluster other j fit entry entry' far (omega (arith, q)))
                  d))
              λ u e same. rw (lookup_lba fs other, same) refl
      ]
