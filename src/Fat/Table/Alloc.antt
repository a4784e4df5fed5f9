-- ===== src/Fat/Table/Alloc.antt =====
-- What allocating a cluster does to the table, and what freeing a chain leaves alone.
use jvmos_jit.Base.{ℕ, zero, suc, ◌+◌, ◌-◌, ◌≤◌, ◌<◌, ◌≡◌, ◌≢◌, arith, ◌==◌}
use jvmos_jit.Base.Word.{add32}
use jvmos_jit.Fat.Disk.{Disk, IsDisk, Ended, ok, failed, pure, and_then}
use jvmos_jit.Fat.Disk.Rules.{Ensures, Ensures-if}
use jvmos_jit.Fat.Table.{Fs, fat_entry_get, fat_entry_set, alloc_from, alloc_cluster}
use jvmos_jit.Fat.Table.Laws.{TablesFit, IsEntry, fat_entry_get-set, fat_entry_get-set_apart}

-- The tables have an entry for every cluster of the volume.
abbrev pub TablesCover : Fs → Type 0
TablesCover fs = (c : ℕ) → c < fs.cluster_count + 2 → IsEntry fs c

module _ {D : Type 0} (disk : Disk D) (laws : IsDisk disk) (fs : Fs) (fit : TablesFit fs) where
  -- From `d` to `e` the cluster has become the end of a chain, and no other one has changed.
  pub record Allocated (c : ℕ) (d e : D) : Type 0 where
    pub first : 2 ≤ c
    pub on_volume : c < fs.cluster_count + 2
    pub was_free : fat_entry_get disk fs c d ≡ 0
    pub ends_chain : fat_entry_get disk fs c e ≡ 0x0FFF_FFFF
    pub others :
        (k : ℕ) → IsEntry fs k → k ≢ c → fat_entry_get disk fs k e ≡ fat_entry_get disk fs k d

  set-Ensures :
      (c : ℕ) (d : D)
      → 2 ≤ c
      → c < fs.cluster_count + 2
      → IsEntry fs c
      → fat_entry_get disk fs c d ≡ 0
      → Ensures
          (λ a e. Allocated a d e)
          (and_then (fat_entry_set disk fs c 0x0FFF_FFFF d) λ u. pure c)
  set-Ensures c d low high entry free =
      both (fat_entry_set disk fs c 0x0FFF_FFFF d)
        (fat_entry_get-set disk laws fs c 0x0FFF_FFFF d fit entry)
        (λ k other apart.
          fat_entry_get-set_apart disk laws fs c k 0x0FFF_FFFF d fit entry other apart)
    where
      both :
          (o : Ended D (Unit {0}))
          → Ensures (λ u e. fat_entry_get disk fs c e ≡ 0x0FFF_FFFF) o
          → ((k : ℕ)
              → IsEntry fs k
              → k ≢ c
              → Ensures (λ u e. fat_entry_get disk fs k e ≡ fat_entry_get disk fs k d) o)
          → Ensures (λ a e. Allocated a d e) (and_then o λ u. pure c)
      both (ok u e) h g = record {
        first = low;
        on_volume = high;
        was_free = free;
        ends_chain = h;
        others = g;
      }
      both (failed e) h g = tt

  alloc_from-Ensures :
      (left c : ℕ) (d : D)
      → TablesCover fs
      → 2 ≤ c
      → c + left ≤ fs.cluster_count + 2
      → Ensures (λ a e. Allocated a d e) (alloc_from disk left fs c d)
  unfolding alloc_from
  alloc_from-Ensures zero c d cover low high = tt
  alloc_from-Ensures (suc left) c d cover low high =
      Ensures-if (λ a e. Allocated a d e) (fat_entry_get disk fs c d == 0) _ _
        (λ free.
          set-Ensures c d low (omega (arith, high)) (cover c (omega (arith, high)))
            (ground (arith, free)))
        λ taken. alloc_from-Ensures left (c + 1) d cover (omega (arith, low)) (omega (arith, high))

  -- On a volume with at least one table whose tables end below sector 2^32, and which has in its
  -- first table an entry with a number below 2^30 for every cluster: a cluster that is allocated is
  -- one of the volume's, was free, and is now the end of a chain; all other entries of the table
  -- are as they were.
  pub alloc_cluster-Allocated :
      (d : D) → TablesCover fs → Ensures (λ a e. Allocated a d e) (alloc_cluster disk fs d)
  unfolding alloc_cluster
  alloc_cluster-Allocated d cover =
      alloc_from-Ensures (add32 fs.cluster_count 2 - 2) 2 d cover (omega arith) (omega arith)
