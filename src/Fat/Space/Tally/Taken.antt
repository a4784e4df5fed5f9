-- ===== src/Fat/Space/Tally/Taken.antt =====
-- Allocation in fs/fat32.c (`alloc_cluster`), as the count of free clusters sees it.
use jvmos_jit.Base.{
  ℕ, zero, suc, ◌+◌, ◌-◌, ◌*◌, ◌^◌, ◌≤◌, ◌<◌, ◌≡◌, ◌≢◌, refl, sym, ap, ◌∙◌, true, arith, leb,
}
use jvmos_jit.Base.Word.{add32}
use jvmos_jit.Fat.Disk.{Disk, IsDisk, Ended, ok, failed}
use jvmos_jit.Fat.Disk.Rules.{IsReliable, Ensures}
use jvmos_jit.Fat.Table.{Fs, fat_entry_get, alloc_cluster}
use jvmos_jit.Fat.Table.Alloc.{Allocated, alloc_cluster-Allocated}
use jvmos_jit.Fat.Files.Places.{VolumeFits}
use jvmos_jit.Fat.Space.{fat32_free_clusters}
use jvmos_jit.Fat.Space.Tally.{is_free_at, tally, tally-append, fat32_free_clusters-tally}

-- One entry between two runs of entries.
tally-split :
    {D : Type 0} (disk : Disk D) (fs : Fs) (d : D) (c n : ℕ)
    → c < n
    → tally disk fs d n 0
      ≡ tally disk fs d c 0 + (is_free_at disk fs d c + tally disk fs d (n - suc c) (c + 1))
unfolding tally
tally-split disk fs d c n h =
    let whole : n ≡ c + suc (n - suc c) = ground (arith, h) in
    let here : 0 + c ≡ c = omega arith in
    ap (λ m. tally disk fs d m 0) whole
    ∙ tally-append disk fs d c (suc (n - suc c)) 0
    ∙ ap (λ k. tally disk fs d c 0 + (is_free_at disk fs d k + tally disk fs d (n - suc c) (k + 1)))
        here

module _ {D : Type 0} (disk : Disk D) (fs : Fs) (d e : D) where
  tally-same :
      (n c : ℕ)
      → ((k : ℕ) → c ≤ k → k < c + n → fat_entry_get disk fs k e ≡ fat_entry_get disk fs k d)
      → tally disk fs e n c ≡ tally disk fs d n c
  unfolding tally
  tally-same zero c same = refl
  tally-same (suc n) c same =
      let here = same c (omega arith) (omega arith) in
      let rest =
        tally-same n (c + 1) (λ k low high. same k (omega (arith, low)) (omega (arith, high))) in
      rw (here, rest) refl

  -- One entry of a run has been taken.
  tally-taken :
      (n c : ℕ)
      → 2 ≤ c
      → c < n
      → fat_entry_get disk fs c d ≡ 0
      → fat_entry_get disk fs c e ≡ 0x0FFF_FFFF
      → ((k : ℕ) → k < n → k ≢ c → fat_entry_get disk fs k e ≡ fat_entry_get disk fs k d)
      → tally disk fs d n 0 ≡ tally disk fs e n 0 + 1
  tally-taken n c low high free taken same =
      let below = tally-same c 0 (λ k l h. same k (omega (arith, h, high)) (omega (arith, h))) in
      let above =
        tally-same (n - suc c) (c + 1)
          (λ k l h. same k (omega (arith, h, high)) (omega (arith, l))) in
      let second : leb 2 c ≡ true = ground (arith, low) in
      let was : is_free_at disk fs d c ≡ 1 = rw (second, free) refl in
      let is : is_free_at disk fs e c ≡ 0 = rw (second, taken) refl in
      let before = tally-split disk fs d c n high in
      let after = tally-split disk fs e c n high in
      rw (before, after, below, above, was, is) (omega arith)

-- On a mounted volume of at least one sector to a cluster and at most 0x0FFFFFF8 entries, with
-- at least one table, with an entry in its first table for every cluster, and with its tables in
-- front of its clusters and both below sector 2^32, on a disk on which every call succeeds: a
-- successful allocation leaves one free cluster fewer to be counted than before.
pub alloc_cluster-one_less :
    {D : Type 0} (disk : Disk D) (laws : IsDisk disk)
    → IsReliable disk
    → (fs : Fs) (fits : VolumeFits fs) → fs.mounted ≡ true
    → (d : D)
    → Ensures
        (λ c e. fat32_free_clusters disk fs d ≡ fat32_free_clusters disk fs e + 1)
        (alloc_cluster disk fs d)
alloc_cluster-one_less {D} disk laws reliable fs fits mounted d =
    if_allocated (alloc_cluster disk fs d)
      (alloc_cluster-Allocated disk laws fs fits.tables d fits.cover)
  where
    if_allocated :
        (o : Ended D ℕ)
        → Ensures (λ c e. Allocated disk laws fs fits.tables c d e) o
        → Ensures (λ c e. fat32_free_clusters disk fs d ≡ fat32_free_clusters disk fs e + 1) o
    if_allocated (failed e) h = tt
    if_allocated (ok c e) h =
        let bound : add32 fs.cluster_count 2 ≡ fs.cluster_count + 2 =
          omega (arith, fits.few_clusters) in
        let small : add32 fs.cluster_count 2 < 2 ^ 30 = omega (arith, fits.few_clusters) in
        let last = (fits.cover (fs.cluster_count + 1) (omega arith)).in_table in
        let enough : add32 fs.cluster_count 2 ≤ fs.fat_sectors * 128 = omega (arith, last, bound) in
        fat32_free_clusters-tally disk fs d reliable mounted small enough
        ∙ tally-taken disk fs d e (add32 fs.cluster_count 2) c h.first
            (omega (arith, h.on_volume, bound)) h.was_free h.ends_chain
            (λ k high apart. h.others k (fits.cover k (omega (arith, high, bound))) apart)
        ∙ ap (λ n. n + 1) (sym (fat32_free_clusters-tally disk fs e reliable mounted small enough))
