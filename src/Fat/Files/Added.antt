-- ===== src/Fat/Files/Added.antt =====
-- What one more cluster of a file leaves on the disk.
use jvmos_jit.Base.{ℕ, ◌+◌, ◌≤◌, ◌<◌, ◌≡◌, ◌≢◌, sym, ap, ◌∙◌, inl, inr, some, arith}
use mathlib.Core.Path.{subst}
use jvmos_jit.Base.Word.{add32}
use jvmos_jit.Fat.Bytes.{Buffer}
use jvmos_jit.Fat.Disk.{Disk, IsDisk}
use jvmos_jit.Fat.Disk.Rules.{
  Ensures, Ensures-and, Ensures-all, Ensures-weaken, Ensures-Spared, IsReliable,
}
use jvmos_jit.Fat.Table.{Fs, entry_sector, entry_in, fat_entry_get}
use jvmos_jit.Fat.Table.Laws.{IsEntry}
use jvmos_jit.Fat.Table.Alloc.{Allocated}
use jvmos_jit.Fat.Files.{write_cluster}
use jvmos_jit.Fat.Files.Chain.{upto, cluster_bytes, ClusterHolds}
use jvmos_jit.Fat.Files.Places.{
  VolumeFits, OnVolume, sector_lba, behind_tables, clusters_apart, entry_before,
  write_cluster-Sparing,
}
use jvmos_jit.Fat.Files.Written.{write_cluster-Filled}
use jvmos_jit.Fat.Files.Links.{SameBehind, LedTo, LinkPost, PrevOk}

module _ {D : Type 0} (disk : Disk D) (laws : IsDisk disk) (good : IsReliable disk) (fs : Fs)
    (fit : VolumeFits fs) where
  -- Entries and clusters that were in use, one entry aside, are as they were.
  abbrev pub EntriesKept : (but : ℕ) → D → D → Type 0
  EntriesKept but d e =
      (k : ℕ)
      → IsEntry fs k
      → k ≢ but
      → fat_entry_get disk fs k d ≢ 0
      → fat_entry_get disk fs k e ≡ fat_entry_get disk fs k d

  abbrev pub SectorsKept : D → D → Type 0
  SectorsKept d e =
      (k s : ℕ)
      → OnVolume fs k
      → s < fs.sectors_per_cluster
      → fat_entry_get disk fs k d ≢ 0
      → disk.read (sector_lba fs k s) e ≡ disk.read (sector_lba fs k s) d

  get_same :
      (k : ℕ) (d e : D)
      → disk.read (add32 fs.fat_lba (entry_sector k)) e
        ≡ disk.read (add32 fs.fat_lba (entry_sector k)) d
      → fat_entry_get disk fs k e ≡ fat_entry_get disk fs k d
  unfolding fat_entry_get
  get_same k d e h = ap (entry_in k) h

  module _ (text : Buffer) (length : ℕ) where
    -- One more cluster of the file, from an offset of the text on.
    pub record Added (prev c from : ℕ) (d e : D) : Type 0 where
      pub on : OnVolume fs c
      pub was_free : fat_entry_get disk fs c d ≡ 0
      pub ends : fat_entry_get disk fs c e ≡ 0x0FFF_FFFF
      pub holds : ClusterHolds disk fs text length c from e
      pub led_to : LedTo disk laws good fs fit prev c e
      pub entries : EntriesKept prev d e
      pub sectors : SectorsKept d e

    pub write-Ensures :
        (c from : ℕ) (d : D)
        → OnVolume fs c
        → from ≤ length
        → Ensures
            (λ w e.
              ClusterHolds disk fs text length c from e
              × (w ≡ upto length (from + cluster_bytes fs))
              × ((k : ℕ)
                  → ((j : ℕ) → j < fs.sectors_per_cluster → k ≢ sector_lba fs c j)
                  → disk.read k e ≡ disk.read k d))
            (write_cluster disk fs.sectors_per_cluster fs c 0 text length from d)
    write-Ensures c from d on inside =
        let o = write_cluster disk fs.sectors_per_cluster fs c 0 text length from d in
        Ensures-weaken _ _ o
          (Ensures-and _ _ o
            (write_cluster-Filled disk laws fs fit text length fs.sectors_per_cluster c 0 from d on
              (omega arith) inside)
            (Ensures-all _ o (λ k. Ensures-all _ o (λ apart. Ensures-Spared disk k d o (
              write_cluster-Sparing fs fit disk laws fs.sectors_per_cluster c 0 text length from k
                (λ j p q. apart j (omega (arith, q))) d)))))
          (λ w e ((holds, w_lem), kept). (
            (λ s h k.
                let (sector, found, cell) = holds s (omega (arith, h)) k in
                (
                  sector,
                  subst (λ n. disk.read (sector_lba fs c n) e ≡ some sector) (omega arith) found,
                  cell,
                )),
            w_lem ∙ ap (upto length) (omega arith),
            kept,
          ))

    pub added_lem :
        (prev c from : ℕ) (d d1 d2 e : D)
        → PrevOk disk laws good fs fit prev d
        → Allocated disk laws fs fit.tables c d d1
        → SameBehind disk laws good fs fit d d1
        → LinkPost disk laws good fs fit prev c d1 d2
        → ClusterHolds disk fs text length c from e
        → ((k : ℕ)
            → ((j : ℕ) → j < fs.sectors_per_cluster → k ≢ sector_lba fs c j)
            → disk.read k e ≡ disk.read k d2)
        → Added prev c from d e
    added_lem prev c from d d1 d2 e prev_ok alloc behind (led, entries, behind') holds kept =
        let on : OnVolume fs c = (alloc.first, alloc.on_volume) in
        let same_entry : (k : ℕ)
            → IsEntry fs k
            → fat_entry_get disk fs k e ≡ fat_entry_get disk fs k d2 =
          λ k entry. get_same k d2 e (kept _ (λ j p. entry_before fs fit k c j entry on p)) in
        record {
          on = on;
          was_free = alloc.was_free;
          ends =
              same_entry c (fit.cover c on.1)
              ∙ entries c (fit.cover c on.1) (apart prev_ok alloc.was_free alloc.first)
              ∙ alloc.ends_chain;
          holds = holds;
          led_to = led_lem prev_ok led (λ p. same_entry prev (fit.cover prev p));
          entries = λ k entry but used.
              same_entry k entry
              ∙ entries k entry but
              ∙ alloc.others k entry
                  (λ same. used (ap (λ n. fat_entry_get disk fs n d) same ∙ alloc.was_free));
          sectors = λ k s on_k p used.
              let differs : k ≢ c =
                λ same. used (ap (λ n. fat_entry_get disk fs n d) same ∙ alloc.was_free) in
              let lba = sector_lba fs k s in
              kept lba (λ j q. clusters_apart fs fit k c s j on_k on p q differs)
              ∙ behind' lba (behind_tables fs fit k s on_k p)
              ∙ behind lba (behind_tables fs fit k s on_k p);
        }
      where
        apart :
            PrevOk disk laws good fs fit prev d → fat_entry_get disk fs c d ≡ 0 → 2 ≤ c → c ≢ prev
        apart (inl absent) free low e = omega (arith, absent, low, e)
        apart (inr (on, used)) free low e =
            used (ap (λ n. fat_entry_get disk fs n d) (sym e) ∙ free)

        led_lem :
            PrevOk disk laws good fs fit prev d
            → LedTo disk laws good fs fit prev c d2
            → (prev < fs.cluster_count + 2
                → fat_entry_get disk fs prev e ≡ fat_entry_get disk fs prev d2)
            → LedTo disk laws good fs fit prev c e
        led_lem (inl absent) led h = inl absent
        led_lem (inr on) (inl absent) h = inl absent
        led_lem (inr (on, used)) (inr led) h = inr (h on.1 ∙ led)
