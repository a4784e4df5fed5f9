-- ===== src/Fat/Files/Room.antt =====
-- The chain of a file fails to be written only when the volume is full.
use jvmos_jit.Base.{
  ℕ, zero, suc, ◌+◌, ◌-◌, ◌≤◌, ◌<◌, ◌≡◌, ◌≢◌, sym, ap, ◌∙◌, inl, inr, false, Bool-cases, if-cases,
  arith, leb, ◌==◌, if◌then◌else◌,
}
use jvmos_jit.Base.Word.{add32}
use jvmos_jit.Fat.Bytes.{Buffer}
use jvmos_jit.Fat.Disk.{
  Disk, IsDisk, Ended, Io, ok, failed, pure, and_then, ignore, regardless, write_sector,
}
use jvmos_jit.Fat.Disk.Rules.{Ensures, Succeeds, Succeeds-then, IsReliable, write_sector-Succeeds}
use jvmos_jit.Fat.Table.{Fs, fat_entry_get, fat_entry_set, alloc_from, alloc_cluster}
use jvmos_jit.Fat.Files.{smaller, link, write_cluster, write_chain}
use jvmos_jit.Fat.Files.Places.{VolumeFits, OnVolume, sector_lba}
use jvmos_jit.Fat.Files.Links.{set-Succeeds}

module _ {D : Type 0} (disk : Disk D) (laws : IsDisk disk) (good : IsReliable disk) (fs : Fs)
    (fit : VolumeFits fs) where
  -- No cluster is free.
  abbrev pub Full : D → Type 0
  Full e = (k : ℕ) → OnVolume fs k → fat_entry_get disk fs k e ≢ 0

  -- What holds of a result, where the only failure is a full volume.
  abbrev pub OrFull : {A : Type 0} → (A → D → Type 0) → Ended D A → Type 0
  OrFull P (ok a e) = P a e
  OrFull P (failed e) = Full e

  abbrev FailsFull : {A : Type 0} → Ended D A → Type 0
  FailsFull (ok a e) = Unit {0}
  FailsFull (failed e) = Full e

  FailsFull-then :
      {A B : Type 0} (o : Ended D A) (c : A → Io D B)
      → FailsFull o
      → ((a : A) (d : D) → FailsFull (c a d))
      → FailsFull (and_then o c)
  FailsFull-then (ok a d) c h k = k a d
  FailsFull-then (failed d) c h k = h

  Succeeds-FailsFull : {A : Type 0} (o : Ended D A) → Succeeds o → FailsFull o
  Succeeds-FailsFull (ok a d) h = tt
  Succeeds-FailsFull (failed d) h = elim h [ ]

  pub or_full :
      {A : Type 0} (P : A → D → Type 0) (o : Ended D A) → Ensures P o → FailsFull o → OrFull P o
  or_full P (ok a d) h k = h
  or_full P (failed d) h k = k

  alloc_from-FailsFull :
      (left c : ℕ) (d : D)
      → c + left ≡ fs.cluster_count + 2
      → ((k : ℕ) → 2 ≤ k → k < c → fat_entry_get disk fs k d ≢ 0)
      → FailsFull (alloc_from disk left fs c d)
  unfolding alloc_from
  alloc_from-FailsFull zero c d all used = λ k (low, high). used k low (omega (arith, all, high))
  alloc_from-FailsFull (suc left) c d all used =
      if-cases FailsFull (fat_entry_get disk fs c d == 0) _ _
        (λ _.
          FailsFull-then (fat_entry_set disk fs c 0x0FFF_FFFF d) (λ u. pure c)
            (Succeeds-FailsFull _ (set-Succeeds disk laws good fs fit c 0x0FFF_FFFF d)) (λ u e. tt))
        (λ taken. alloc_from-FailsFull left (c + 1) d (omega (arith, all)) (λ k low high.
          elim (Bool-cases (k == c)) [
            | inl same ↦ λ z. clash k (ground (arith, same)) taken z
            | inr other ↦ used k low (ground (arith, high, other))
          ]))
    where
      clash :
          (k : ℕ)
          → k ≡ c
          → (fat_entry_get disk fs c d == 0) ≡ false
          → fat_entry_get disk fs k d ≡ 0
          → ⊥
      clash k same taken z =
          let free : fat_entry_get disk fs c d ≡ 0 =
            ap (λ n. fat_entry_get disk fs n d) (sym same) ∙ z in
          ground (arith, taken, free)

  alloc_cluster-FailsFull : (d : D) → FailsFull (alloc_cluster disk fs d)
  unfolding alloc_cluster
  alloc_cluster-FailsFull d =
      alloc_from-FailsFull (add32 fs.cluster_count 2 - 2) 2 d (omega (arith, fit.few_clusters))
        (λ k low high. absurd (omega (arith, low, high)))

  write_cluster-Succeeds :
      (left c s : ℕ) (text : Buffer) (length at : ℕ) (d : D)
      → Succeeds (write_cluster disk left fs c s text length at d)
  unfolding write_cluster
  write_cluster-Succeeds zero c s text length at d = tt
  write_cluster-Succeeds (suc left) c s text length at d =
      let taken = smaller (length - at) 512 in
      Succeeds-then (write_sector disk (sector_lba fs c s) _ d) _
        (write_sector-Succeeds disk good (sector_lba fs c s) _ d)
        (λ u e.
          if-cases (λ (a : Io D ℕ). Succeeds (a e)) (leb length (at + taken)) (pure (at + taken))
            (write_cluster disk left fs c (s + 1) text length (at + taken)) (λ _. tt)
            (λ _. write_cluster-Succeeds left c (s + 1) text length (at + taken) e))

  regardless-Succeeds : {A : Type 0} (o : Ended D A) → Succeeds (regardless o)
  regardless-Succeeds (ok a d) = tt
  regardless-Succeeds (failed d) = tt

  link-Succeeds : (prev c : ℕ) (d : D) → Succeeds (link disk fs prev c d)
  link-Succeeds prev c d =
      if-cases (λ (a : Io D (Unit {0})). Succeeds (a d)) (prev == 0) (pure tt)
        (ignore (fat_entry_set disk fs prev c)) (λ _. tt)
        (λ _. regardless-Succeeds (fat_entry_set disk fs prev c d))

  pub write_chain-FailsFull :
      (left : ℕ) (text : Buffer) (length at first prev : ℕ) (d : D)
      → FailsFull (write_chain disk left fs text length at first prev d)
  unfolding write_chain
  write_chain-FailsFull zero text length at first prev d = tt
  write_chain-FailsFull (suc left) text length at first prev d =
      if-cases (λ (a : Io D ℕ). FailsFull (a d)) (leb length at) (pure first) _ (λ _. tt)
        (λ _. FailsFull-then (alloc_cluster disk fs d) _ (alloc_cluster-FailsFull d) (λ c e.
          FailsFull-then (link disk fs prev c e) _ (Succeeds-FailsFull _ (link-Succeeds prev c e))
            (λ u f.
              FailsFull-then (write_cluster disk fs.sectors_per_cluster fs c 0 text length at f) _
                (Succeeds-FailsFull _
                  (write_cluster-Succeeds fs.sectors_per_cluster c 0 text length at f))
                (λ w g.
                  write_chain-FailsFull left text length w (if first == 0 then c else first) c g))))
