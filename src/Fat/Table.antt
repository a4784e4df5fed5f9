-- ===== src/Fat/Table.antt =====
-- The table of clusters in fs/fat32.c: `fat_entry_get`, `fat_entry_set`, `cluster_lba`,
-- `alloc_cluster` and `free_chain`.
pub mod Laws
pub mod Alloc
use jvmos_jit.Base.{
  ℕ, zero, suc, ◌+◌, ◌-◌, ◌*◌, ◌/◌, ◌%◌, Bool, true, false, ◌&&◌, Option, none, some, bit_and, ltb,
  leb, ◌==◌, if◌then◌else◌,
}
use jvmos_jit.Base.Word.{u32, add32, sub32}
use jvmos_jit.Fat.Bytes.{Buffer, get32, put32}
use jvmos_jit.Fat.Disk.{
  Disk, Ended, ok, failed, Io, pure, and_then, ◌>>=◌, ◌>>◌, get, give_up, left_by, read_sector,
  write_sector,
}

abbrev pub fat_sector_size : ℕ
fat_sector_size = 512

-- `fat32_fs`
pub record Fs : Type 0 where
  pub partition_lba : ℕ
  pub partition_sectors : ℕ
  pub fat_lba : ℕ
  pub data_lba : ℕ
  pub sectors_per_cluster : ℕ
  pub fat_sectors : ℕ
  pub fat_count : ℕ
  pub root_cluster : ℕ
  pub cluster_count : ℕ
  pub mounted : Bool

-- The sector of an entry, counted from the start of a table, and its offset there.
abbrev pub entry_sector : ℕ → ℕ
entry_sector cluster = u32 (cluster * 4) / fat_sector_size

abbrev pub entry_offset : ℕ → ℕ
entry_offset cluster = u32 (cluster * 4) % fat_sector_size

-- `fs->fat_lba + i * fs->fat_sectors + offset / FAT_SECTOR_SIZE`
abbrev pub entry_lba : Fs → (i cluster : ℕ) → ℕ
entry_lba fs i cluster = u32 (fs.fat_lba + i * fs.fat_sectors + entry_sector cluster)

unfoldable pub cluster_lba : Fs → ℕ → ℕ
cluster_lba fs cluster = u32 (fs.data_lba + sub32 cluster 2 * fs.sectors_per_cluster)

-- `cluster >= 2 && cluster < 0x0FFFFFF8u`
abbrev pub in_chain : ℕ → Bool
in_chain cluster = leb 2 cluster && ltb cluster 0x0FFF_FFF8

-- The entry in a sector that was read.
abbrev pub entry_in : ℕ → Option Buffer → ℕ
entry_in cluster none = 0x0FFF_FFF7
entry_in cluster (some s) = bit_and (get32 s (entry_offset cluster)) 0x0FFF_FFFF

module _ {D : Type 0} (disk : Disk D) where
  unfoldable pub fat_entry_get : Fs → ℕ → D → ℕ
  unfolding get32
  fat_entry_get fs cluster d =
      entry_in cluster (disk.read (add32 fs.fat_lba (entry_sector cluster)) d)

  -- The copies of the table from `i` on.
  unfoldable pub set_copies : ℕ → Fs → (i cluster value : ℕ) → Io D (Unit {0})
  unfolding read_sector write_sector put32
  set_copies zero fs i cluster value = pure tt
  set_copies (suc left) fs i cluster value = do
    s ← read_sector disk (entry_lba fs i cluster)
    write_sector disk (entry_lba fs i cluster)
        (put32 s (entry_offset cluster) (bit_and value 0x0FFF_FFFF))
    set_copies left fs (i + 1) cluster value

  unfoldable pub fat_entry_set : Fs → (cluster value : ℕ) → Io D (Unit {0})
  unfolding set_copies
  fat_entry_set fs cluster value = set_copies fs.fat_count fs 0 cluster value

  -- `for (c = 2; c < fs->cluster_count + 2; c++)`, from `c` on.
  unfoldable pub alloc_from : ℕ → Fs → (c : ℕ) → Io D ℕ
  unfolding fat_entry_get fat_entry_set
  alloc_from zero fs c d = failed d
  alloc_from (suc left) fs c d =
      let rest = alloc_from left fs (c + 1) d in
      if fat_entry_get fs c d == 0 then (fat_entry_set fs c 0x0FFF_FFFF >> pure c) d else rest

  unfoldable pub alloc_cluster : Fs → Io D ℕ
  unfolding alloc_from
  alloc_cluster fs = alloc_from (add32 fs.cluster_count 2 - 2) fs 2

  -- The rounds that `guard` leaves stand first.
  unfoldable pub free_chain : ℕ → Fs → ℕ → D → D
  unfolding fat_entry_get fat_entry_set
  free_chain zero fs cluster d = d
  free_chain (suc left) fs cluster d =
      let next = fat_entry_get fs cluster d in
      let rest = free_chain left fs next (left_by (fat_entry_set fs cluster 0 d)) in
      if in_chain cluster then rest else d
