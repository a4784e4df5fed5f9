-- ===== src/Fat/Files/Places.antt =====
-- Where the sectors of the clusters lie, and what the driver's writes leave alone.
use jvmos_jit.Base.{
  ℕ, zero, suc, ◌+◌, ◌-◌, ◌*◌, ◌^◌, ◌≤◌, ◌<◌, ◌≡◌, ◌≢◌, refl, inl, inr, Bool-cases, if-cases, arith,
  ltb, leb, ◌==◌,
}
use jvmos_jit.Base.Word.{u32, add32, sub32}
use native.Mathlib.Nat.{suc-mul, mul-le-mul_right}
use jvmos_jit.Fat.Bytes.{Buffer}
use jvmos_jit.Fat.Disk.{Disk, IsDisk, pure}
use jvmos_jit.Fat.Disk.Rules.{Sparing, Spared-then, Spared-if, Spared-id, write_sector-Sparing}
use jvmos_jit.Fat.Table.{Fs, entry_sector, cluster_lba, fat_entry_get, alloc_from, alloc_cluster}
use jvmos_jit.Fat.Table.Laws.{TablesFit, IsEntry, fat_entry_set-Sparing}
use jvmos_jit.Fat.Table.Alloc.{TablesCover}
use jvmos_jit.Fat.Files.{smaller, write_cluster}

-- The tables lie before the clusters, everything below 2 ^ 32, and no cluster's number is taken for
-- the end of a chain.
pub record VolumeFits (fs : Fs) : Type 0 where
  pub tables : TablesFit fs
  pub cover : TablesCover fs
  pub tables_first : fs.fat_lba + fs.fat_count * fs.fat_sectors ≤ fs.data_lba
  pub clusters_fit : fs.data_lba + fs.cluster_count * fs.sectors_per_cluster < 2 ^ 32
  pub some_sectors : 0 < fs.sectors_per_cluster
  pub few_clusters : fs.cluster_count + 2 ≤ 0x0FFF_FFF8

abbrev pub OnVolume : Fs → ℕ → Type 0
OnVolume fs c = (2 ≤ c) × (c < fs.cluster_count + 2)

-- The sector of a cluster.
abbrev pub sector_lba : Fs → (cluster s : ℕ) → ℕ
sector_lba fs cluster s = u32 (cluster_lba fs cluster + s)

module _ (fs : Fs) (fit : VolumeFits fs) where
  rows_lem :
      (c : ℕ)
      → OnVolume fs c
      → (c - 2) * fs.sectors_per_cluster + fs.sectors_per_cluster
        ≤ fs.cluster_count * fs.sectors_per_cluster
  rows_lem c (low, high) =
      let rows : suc (c - 2) * fs.sectors_per_cluster ≤ fs.cluster_count * fs.sectors_per_cluster =
        mul-le-mul_right fs.sectors_per_cluster (omega (arith, low, high)) in
      omega (arith, rows, suc-mul (c - 2) fs.sectors_per_cluster)

  pub sector_lba_lem :
      (c s : ℕ)
      → OnVolume fs c
      → s < fs.sectors_per_cluster
      → sector_lba fs c s ≡ fs.data_lba + (c - 2) * fs.sectors_per_cluster + s
  unfolding cluster_lba
  sector_lba_lem c s (low, high) h =
      let rows = rows_lem c (low, high) in
      let small : sub32 c 2 ≡ c - 2 = omega (arith, low, high, fit.few_clusters) in
      rw small (
        low_enough (fs.data_lba + (c - 2) * fs.sectors_per_cluster) s
          (omega (arith, rows, fit.clusters_fit, h)))
    where
      low_enough : (a s : ℕ) → a + s < 2 ^ 32 → u32 (u32 a + s) ≡ a + s
      low_enough a s h = omega (arith, h)

  -- The clusters lie behind the tables.
  pub behind_tables :
      (c s : ℕ)
      → OnVolume fs c
      → s < fs.sectors_per_cluster
      → fs.fat_lba + fs.fat_count * fs.fat_sectors ≤ sector_lba fs c s
  behind_tables c s on h = omega (arith, sector_lba_lem c s on h, fit.tables_first)

  clusters_apart_lt :
      (b c s t : ℕ)
      → OnVolume fs b
      → OnVolume fs c
      → s < fs.sectors_per_cluster
      → t < fs.sectors_per_cluster
      → b < c
      → sector_lba fs b s < sector_lba fs c t
  clusters_apart_lt b c s t on_b on_c h k below =
      let rows : suc (b - 2) * fs.sectors_per_cluster ≤ (c - 2) * fs.sectors_per_cluster =
        mul-le-mul_right fs.sectors_per_cluster (omega (arith, below, on_b.0)) in
      omega (
        arith,
        rows,
        suc-mul (b - 2) fs.sectors_per_cluster,
        sector_lba_lem b s on_b h,
        sector_lba_lem c t on_c k,
        h,
      )

  -- Two clusters have no sector in common.
  pub clusters_apart :
      (b c s t : ℕ)
      → OnVolume fs b
      → OnVolume fs c
      → s < fs.sectors_per_cluster
      → t < fs.sectors_per_cluster
      → b ≢ c
      → sector_lba fs b s ≢ sector_lba fs c t
  clusters_apart b c s t on_b on_c h k apart e = elim (Bool-cases (ltb b c)) [
    | inl below ↦
        let less = clusters_apart_lt b c s t on_b on_c h k (ground (arith, below)) in
        omega (arith, less, e)
    | inr above ↦
        let less = clusters_apart_lt c b t s on_c on_b k h (ground (arith, above, apart)) in
        omega (arith, less, e)
  ]

  -- Nor do the sectors of one.
  pub sectors_differ :
      (c s t : ℕ)
      → OnVolume fs c
      → s < fs.sectors_per_cluster
      → t < fs.sectors_per_cluster
      → s ≢ t
      → sector_lba fs c s ≢ sector_lba fs c t
  sectors_differ c s t on h k apart e =
      apart (omega (arith, sector_lba_lem c s on h, sector_lba_lem c t on k, e))

  -- An entry is looked up in a sector before the clusters.
  pub entry_before :
      (k c s : ℕ)
      → IsEntry fs k
      → OnVolume fs c
      → s < fs.sectors_per_cluster
      → add32 fs.fat_lba (entry_sector k) ≢ sector_lba fs c s
  entry_before k c s entry on h e =
      let rows : 1 * fs.fat_sectors ≤ fs.fat_count * fs.fat_sectors =
        mul-le-mul_right fs.fat_sectors fit.tables.some_table in
      let inside = entry.in_table in
      let behind = behind_tables c s on h in
      let small = fit.tables.no_wrap in omega (arith, rows, inside, behind, small, e)

  module _ {D : Type 0} (disk : Disk D) (laws : IsDisk disk) where
    alloc_from-Sparing :
        (left c k : ℕ)
        → c + left ≤ fs.cluster_count + 2
        → fs.fat_lba + fs.fat_count * fs.fat_sectors ≤ k
        → Sparing disk k (alloc_from disk left fs c)
    unfolding alloc_from
    alloc_from-Sparing zero c k few behind d = record { same = refl }
    alloc_from-Sparing (suc left) c k few behind d =
        Spared-if disk k d (fat_entry_get disk fs c d == 0) _ _
          (λ _.
            Spared-then disk k d _ _
              (fat_entry_set-Sparing disk laws fs c 0x0FFF_FFFF k fit.tables
                (fit.cover c (omega (arith, few))) (inr behind) d)
              (λ u e. Spared-id disk k e c))
          (λ _. alloc_from-Sparing left (c + 1) k (omega (arith, few)) behind d)

    -- Allocating a cluster changes no sector behind the tables.
    pub alloc_cluster-Sparing :
        (k : ℕ)
        → fs.fat_lba + fs.fat_count * fs.fat_sectors ≤ k
        → Sparing disk k (alloc_cluster disk fs)
    unfolding alloc_cluster
    alloc_cluster-Sparing k behind =
        alloc_from-Sparing (add32 fs.cluster_count 2 - 2) 2 k (omega arith) behind

    -- Writing a cluster changes no sector but its own.
    pub write_cluster-Sparing :
        (left c s : ℕ) (text : Buffer) (length written k : ℕ)
        → ((j : ℕ) → s ≤ j → j < s + left → k ≢ sector_lba fs c j)
        → Sparing disk k (write_cluster disk left fs c s text length written)
    unfolding write_cluster
    write_cluster-Sparing zero c s text length written k apart d = Spared-id disk k d written
    write_cluster-Sparing (suc left) c s text length written k apart d =
        let taken = smaller (length - written) 512 in
        Spared-then disk k d _ _
          (write_sector-Sparing disk k laws (sector_lba fs c s) _
            (apart s (omega arith) (omega arith)) d)
          (λ u.
            if-cases (Sparing disk k) (leb length (written + taken)) (pure (written + taken))
              (write_cluster disk left fs c (s + 1) text length (written + taken))
              (λ _ e. Spared-id disk k e (written + taken))
              (λ _.
                write_cluster-Sparing left c (s + 1) text length (written + taken) k
                  (λ j p q. apart j (omega (arith, p)) (omega (arith, q)))))
