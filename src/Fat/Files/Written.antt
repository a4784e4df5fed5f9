-- ===== src/Fat/Files/Written.antt =====
-- What writing one cluster of a file leaves on the disk.
use jvmos_jit.Base.{ℕ, zero, suc, ◌+◌, ◌-◌, ◌*◌, ◌≤◌, ◌<◌, ◌≡◌, ap, ◌∙◌, if-cases, some, arith, leb}
use mathlib.Core.Path.{subst}
use jvmos_jit.Fat.Bytes.{Buffer, zeros, copy}
use jvmos_jit.Fat.Bytes.RoundTrip.{copy_lem}
use jvmos_jit.Fat.Disk.{Disk, IsDisk, Io, pure, write_sector}
use jvmos_jit.Fat.Disk.Rules.{
  Ensures, Ensures-and, Ensures-then, Ensures-weaken, Ensures-Spared, write_sector-Ensures,
}
use jvmos_jit.Fat.Table.{Fs}
use jvmos_jit.Fat.Files.{smaller, write_cluster}
use jvmos_jit.Fat.Files.Chain.{SectorHolds, upto}
use jvmos_jit.Fat.Files.Places.{
  VolumeFits, OnVolume, sector_lba, sectors_differ, write_cluster-Sparing,
}

-- A sector of the text, filled up with zeros.
sector_of-SectorHolds :
    (text : Buffer) (length from : ℕ)
    → SectorHolds text length from (copy (smaller (length - from) 512) 0 from zeros text)
sector_of-SectorHolds text length from i h k =
    copy_lem (smaller (length - from) 512) 0 from zeros text i ∙ grind (arith, h, k)

module _ {D : Type 0} (disk : Disk D) (laws : IsDisk disk) (fs : Fs) (fit : VolumeFits fs)
    (text : Buffer) (length : ℕ) where
  -- A sector of a cluster holds the text from an offset on.
  abbrev pub Cell : (cluster s at : ℕ) → D → Type 0
  Cell cluster s at d =
      (sector : Buffer) × (disk.read (sector_lba fs cluster s) d ≡ some sector)
      × SectorHolds text length at sector

  Cell-at :
      (cluster : ℕ) {s t at to : ℕ} (d : D)
      → s ≡ t
      → at ≡ to
      → Cell cluster s at d
      → Cell cluster t to d
  Cell-at cluster {s} {t} {at} {to} d p q h =
      subst (λ n. Cell cluster t n d) q (subst (λ n. Cell cluster n at d) p h)

  -- The sectors from `s` on that the text reaches hold it.
  abbrev pub HoldsFrom : (cluster s at : ℕ) → D → Type 0
  HoldsFrom cluster s at d =
      (j : ℕ)
      → s + j < fs.sectors_per_cluster
      → at + 512 * j < length
      → Cell cluster (s + j) (at + 512 * j) d

  abbrev pub Filled : (cluster s at left : ℕ) → ℕ → D → Type 0
  Filled cluster s at left written e =
      HoldsFrom cluster s at e × (written ≡ upto length (at + 512 * left))

  HoldsFrom-first :
      (cluster s at : ℕ) (d : D)
      → Cell cluster s at d
      → ((j : ℕ)
          → s + suc j < fs.sectors_per_cluster
          → at + 512 * suc j < length
          → Cell cluster (s + suc j) (at + 512 * suc j) d)
      → HoldsFrom cluster s at d
  HoldsFrom-first cluster s at d first others zero h k =
      Cell-at cluster d (omega arith) (omega arith) first
  HoldsFrom-first cluster s at d first others (suc j) h k = others j h k

  pub write_cluster-Filled :
      (left cluster s at : ℕ) (d : D)
      → OnVolume fs cluster
      → s + left ≡ fs.sectors_per_cluster
      → at ≤ length
      → Ensures (Filled cluster s at left) (write_cluster disk left fs cluster s text length at d)
  unfolding write_cluster
  write_cluster-Filled zero cluster s at d on all more =
      (λ j h k. absurd (omega (arith, all, h)), ground (arith, more))
  write_cluster-Filled (suc left) cluster s at d on all more =
      let taken = smaller (length - at) 512 in
      let lba = sector_lba fs cluster s in
      let sector = copy taken 0 at zeros text in
      let good = sector_of-SectorHolds text length at in
      Ensures-then (λ u e. disk.read lba e ≡ some sector) (Filled cluster s at (suc left))
        (write_sector disk lba sector d) _ (write_sector-Ensures disk laws lba sector d)
        (λ u e here.
          if-cases (λ (c : Io D ℕ). Ensures (Filled cluster s at (suc left)) (c e))
            (leb length (at + taken)) (pure (at + taken))
            (write_cluster disk left fs cluster (s + 1) text length (at + taken))
            (λ ends. (
              HoldsFrom-first cluster s at e (sector, here, good)
                  (λ j h k. absurd (no_more at j (ground (arith, ends)) k)),
              reached at left more (ground (arith, ends)),
            ))
            (λ goes.
              let full : taken ≡ 512 = whole at (ground (arith, goes)) in
              let rest = write_cluster disk left fs cluster (s + 1) text length (at + taken) e in
              Ensures-weaken _ (Filled cluster s at (suc left)) rest
                (Ensures-and _ _ rest
                  (write_cluster-Filled left cluster (s + 1) (at + taken) e on (omega (arith, all))
                    (ground (arith, goes)))
                  (Ensures-Spared disk lba e rest (
                    write_cluster-Sparing fs fit disk laws left cluster (s + 1) text length
                      (at + taken) lba
                      (λ j p q.
                        sectors_differ fs fit cluster s j on (omega (arith, all))
                          (omega (arith, q, all)) (λ same. omega (arith, p, same)))
                      e)))
                (λ written f ((holds, w), same). (
                  HoldsFrom-first cluster s at f (sector, same ∙ here, good)
                      (λ j h k.
                        Cell-at cluster f (omega arith) (omega (arith, full))
                          (holds j (omega (arith, h)) (omega (arith, k, full)))),
                  w ∙ ap (upto length) (omega (arith, full)),
                ))))
    where
      no_more : (at j : ℕ) → length ≤ at + smaller (length - at) 512 → at + 512 * suc j < length → ⊥
      no_more at j ends k = ground (arith, ends, k)

      reached :
          (at left : ℕ)
          → at ≤ length
          → length ≤ at + smaller (length - at) 512
          → at + smaller (length - at) 512 ≡ upto length (at + 512 * suc left)
      reached at left more ends = ground (arith, more, ends)

      whole : (at : ℕ) → at + smaller (length - at) 512 < length → smaller (length - at) 512 ≡ 512
      whole at goes = ground (arith, goes)
