-- ===== src/Fat/Files/Links.antt =====
-- How a cluster is allocated for a file and linked to the one before it, on a disk on which every
-- call succeeds.
use jvmos_jit.Base.{
  ℕ, zero, suc, ◌+◌, ◌*◌, ◌≤◌, ◌≡◌, ◌≢◌, refl, ◌∙◌, ◌⊎◌, inl, inr, if-cases, arith, ◌==◌,
}
use jvmos_jit.Fat.Disk.{Disk, IsDisk, Io, pure, ignore, read_sector, write_sector}
use jvmos_jit.Fat.Disk.Rules.{
  Ensures, Ensures-and, Ensures-all, Ensures-weaken, Ensures-Spared, Succeeds, Succeeds-then,
  ignore-Ensures, IsReliable, read_sector-Succeeds, write_sector-Succeeds,
}
use jvmos_jit.Fat.Table.{Fs, entry_lba, fat_entry_get, set_copies, fat_entry_set, alloc_cluster}
use jvmos_jit.Fat.Table.Laws.{
  IsEntry, fat_entry_get-set, fat_entry_get-set_apart, fat_entry_set-Sparing,
}
use jvmos_jit.Fat.Table.Alloc.{Allocated, alloc_cluster-Allocated}
use jvmos_jit.Fat.Files.{link}
use jvmos_jit.Fat.Files.Places.{VolumeFits, OnVolume, alloc_cluster-Sparing}

module _ {D : Type 0} (disk : Disk D) (laws : IsDisk disk) (good : IsReliable disk) (fs : Fs)
    (fit : VolumeFits fs) where
  set_copies-Succeeds :
      (left i cluster value : ℕ) (d : D) → Succeeds (set_copies disk left fs i cluster value d)
  unfolding set_copies
  set_copies-Succeeds zero i cluster value d = tt
  set_copies-Succeeds (suc left) i cluster value d =
      Succeeds-then (read_sector disk (entry_lba fs i cluster) d) _
        (read_sector-Succeeds disk good (entry_lba fs i cluster) d)
        (λ s e.
          Succeeds-then (write_sector disk (entry_lba fs i cluster) _ e) _
            (write_sector-Succeeds disk good (entry_lba fs i cluster) _ e)
            (λ u f. set_copies-Succeeds left (i + 1) cluster value f))

  pub set-Succeeds : (cluster value : ℕ) (d : D) → Succeeds (fat_entry_set disk fs cluster value d)
  unfolding fat_entry_set
  set-Succeeds cluster value d = set_copies-Succeeds fs.fat_count 0 cluster value d

  -- Sectors behind the tables.
  abbrev pub SameBehind : D → D → Type 0
  SameBehind d e =
      (k : ℕ) → fs.fat_lba + fs.fat_count * fs.fat_sectors ≤ k → disk.read k e ≡ disk.read k d

  -- Entries other than one are as they were.
  abbrev pub SameBut : (but : ℕ) → D → D → Type 0
  SameBut but d e =
      (k : ℕ) → IsEntry fs k → k ≢ but → fat_entry_get disk fs k e ≡ fat_entry_get disk fs k d

  -- An entry of the file before the cluster, if there is one, leads to the cluster.
  abbrev pub LedTo : (prev c : ℕ) → D → Type 0
  LedTo prev c e = (prev ≡ 0) ⊎ (fat_entry_get disk fs prev e ≡ c)

  abbrev pub LinkPost : (prev c : ℕ) → D → D → Type 0
  LinkPost prev c d e = LedTo prev c e × SameBut prev d e × SameBehind d e

  abbrev pub PrevOk : (prev : ℕ) → D → Type 0
  PrevOk prev d = (prev ≡ 0) ⊎ (OnVolume fs prev × (fat_entry_get disk fs prev d ≢ 0))

  pub link-Ensures :
      (prev c : ℕ) (d : D)
      → (prev ≡ 0) ⊎ OnVolume fs prev
      → OnVolume fs c
      → Ensures (λ u e. LinkPost prev c d e) (link disk fs prev c d)
  link-Ensures prev c d on_prev on =
      if-cases (λ (a : Io D (Unit {0})). Ensures (λ u e. LinkPost prev c d e) (a d)) (prev == 0)
        (pure tt) (ignore (fat_entry_set disk fs prev c))
        (λ first. (inl (ground (arith, first)), λ k e p. refl, λ k p. refl))
        (λ some_prev. linking (real on_prev (ground (arith, some_prev))))
    where
      real : (prev ≡ 0) ⊎ OnVolume fs prev → prev ≢ 0 → OnVolume fs prev
      real (inl absent) h = absurd (h absent)
      real (inr on) h = on

      linking :
          OnVolume fs prev
          → Ensures (λ u e. LinkPost prev c d e) (ignore (fat_entry_set disk fs prev c) d)
      linking on_prev =
          let entry = fit.cover prev on_prev.1 in
          let o = fat_entry_set disk fs prev c d in
          let got =
            Ensures-weaken _ (λ u e. LedTo prev c e) o
              (fat_entry_get-set disk laws fs prev c d fit.tables entry)
              (λ u e set. inr (set ∙ omega (arith, on.1, fit.few_clusters))) in
          let others = Ensures-all _ o (λ k. Ensures-all _ o (λ entry'. Ensures-all _ o (λ apart.
            fat_entry_get-set_apart disk laws fs prev k c d fit.tables entry entry' apart))) in
          let behind = Ensures-all _ o (λ k. Ensures-all _ o (λ p.
            Ensures-Spared disk k d o
              (fat_entry_set-Sparing disk laws fs prev c k fit.tables entry (inr p) d))) in
          ignore-Ensures (LinkPost prev c d) o (set-Succeeds prev c d) (
            Ensures-weaken _ _ o (Ensures-and _ _ o got (Ensures-and _ _ o others behind))
              (λ u e (a, (b, c)). (a, b, c)))

  pub alloc-Ensures :
      (d : D)
      → Ensures
          (λ c e. Allocated disk laws fs fit.tables c d e × SameBehind d e)
          (alloc_cluster disk fs d)
  alloc-Ensures d =
      let o = alloc_cluster disk fs d in
      Ensures-and _ _ o (alloc_cluster-Allocated disk laws fs fit.tables d fit.cover) (
        Ensures-all _ o (λ k.
          Ensures-all _ o
            (λ p. Ensures-Spared disk k d o (alloc_cluster-Sparing fs fit disk laws k p d))))
