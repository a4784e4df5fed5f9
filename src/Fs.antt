-- ===== src/Fs.antt =====
-- The volume at boot and its listing: the first half of fs/fat32_disk.c, from `foreign_volume` to
-- `fs_total_kb`.
--
-- The messages on the serial line are left out. `program` stands for `wasm_builtin_bytes`, which the
-- build generates.
pub mod Boot
pub mod Run
mod Examples
use jvmos_jit.Base.{
  ℕ, zero, suc, ◌+◌, ◌-◌, ◌*◌, ◌/◌, Bool, true, false, not, ◌&&◌, ◌||◌, Option, none, some, List,
  [], ◌∷◌, length, ltb, leb, ◌==◌, if◌then◌else◌,
}
use jvmos_jit.Base.Word.{u8, u32, int_neg}
use jvmos_jit.Fat.Bytes.{Buffer}
use jvmos_jit.Fat.Disk.{Disk, Ended, ok, failed, left_by}
use jvmos_jit.Fat.Table.{Fs}
use jvmos_jit.Fat.Directory.{DirEntry, all_slots, fat32_list}
use jvmos_jit.Fat.Files.{fat32_write_file}
use jvmos_jit.Fat.Format.{unsigned_sector, fat32_mount, fat32_format}
use jvmos_jit.Fat.Space.{fat32_free_clusters}

abbrev pub fs_disk_sectors : ℕ
fs_disk_sectors = 20480

abbrev pub fs_system_sectors : ℕ
fs_system_sectors = 2048

abbrev pub fs_absent : ℕ
fs_absent = 0

abbrev pub fs_mounted : ℕ
fs_mounted = 1

abbrev pub fs_formatted : ℕ
fs_formatted = 2

abbrev pub fs_foreign : ℕ
fs_foreign = 3

-- A literal text, with its terminator and what is behind it as 0.
unfoldable pub literal : List ℕ → Buffer
literal [] i = 0
literal (c ∷ cs) i = let rest = literal cs (i - 1) in if i == 0 then c else rest

abbrev pub readme : List ℕ
readme =
    74 ∷ 86 ∷ 77 ∷ 79 ∷ 83 ∷ 45 ∷ 74 ∷ 73 ∷ 84 ∷ 13 ∷ 10 ∷ 13 ∷ 10 ∷ 84 ∷ 104 ∷ 105 ∷ 115 ∷ 32 ∷ 118
    ∷ 111 ∷ 108 ∷ 117 ∷ 109 ∷ 101 ∷ 32 ∷ 119 ∷ 97 ∷ 115 ∷ 32 ∷ 99 ∷ 114 ∷ 101 ∷ 97 ∷ 116 ∷ 101 ∷ 100
    ∷ 32 ∷ 98 ∷ 121 ∷ 32 ∷ 116 ∷ 104 ∷ 101 ∷ 32 ∷ 115 ∷ 121 ∷ 115 ∷ 116 ∷ 101 ∷ 109 ∷ 32 ∷ 119 ∷ 104
    ∷ 101 ∷ 110 ∷ 32 ∷ 105 ∷ 116 ∷ 32 ∷ 102 ∷ 111 ∷ 117 ∷ 110 ∷ 100 ∷ 32 ∷ 110 ∷ 111 ∷ 32 ∷ 102
    ∷ 105 ∷ 108 ∷ 101 ∷ 115 ∷ 121 ∷ 115 ∷ 116 ∷ 101 ∷ 109 ∷ 13 ∷ 10 ∷ 111 ∷ 110 ∷ 32 ∷ 116 ∷ 104
    ∷ 101 ∷ 32 ∷ 100 ∷ 105 ∷ 115 ∷ 107 ∷ 46 ∷ 32 ∷ 67 ∷ 108 ∷ 117 ∷ 115 ∷ 116 ∷ 101 ∷ 114 ∷ 32 ∷ 115
    ∷ 105 ∷ 122 ∷ 101 ∷ 32 ∷ 105 ∷ 115 ∷ 32 ∷ 53 ∷ 49 ∷ 50 ∷ 32 ∷ 98 ∷ 121 ∷ 116 ∷ 101 ∷ 115 ∷ 46
    ∷ 13 ∷ 10 ∷ 13 ∷ 10 ∷ 84 ∷ 104 ∷ 101 ∷ 32 ∷ 102 ∷ 105 ∷ 114 ∷ 115 ∷ 116 ∷ 32 ∷ 109 ∷ 101 ∷ 103
    ∷ 97 ∷ 98 ∷ 121 ∷ 116 ∷ 101 ∷ 32 ∷ 111 ∷ 102 ∷ 32 ∷ 116 ∷ 104 ∷ 101 ∷ 32 ∷ 100 ∷ 105 ∷ 115 ∷ 107
    ∷ 32 ∷ 108 ∷ 105 ∷ 101 ∷ 115 ∷ 32 ∷ 111 ∷ 117 ∷ 116 ∷ 115 ∷ 105 ∷ 100 ∷ 101 ∷ 32 ∷ 116 ∷ 104
    ∷ 101 ∷ 32 ∷ 112 ∷ 97 ∷ 114 ∷ 116 ∷ 105 ∷ 116 ∷ 105 ∷ 111 ∷ 110 ∷ 32 ∷ 97 ∷ 110 ∷ 100 ∷ 32 ∷ 105
    ∷ 115 ∷ 13 ∷ 10 ∷ 114 ∷ 101 ∷ 115 ∷ 101 ∷ 114 ∷ 118 ∷ 101 ∷ 100 ∷ 32 ∷ 102 ∷ 111 ∷ 114 ∷ 32
    ∷ 116 ∷ 104 ∷ 101 ∷ 32 ∷ 115 ∷ 121 ∷ 115 ∷ 116 ∷ 101 ∷ 109 ∷ 32 ∷ 105 ∷ 109 ∷ 97 ∷ 103 ∷ 101
    ∷ 44 ∷ 32 ∷ 115 ∷ 111 ∷ 32 ∷ 116 ∷ 104 ∷ 101 ∷ 32 ∷ 116 ∷ 119 ∷ 111 ∷ 32 ∷ 99 ∷ 97 ∷ 110 ∷ 32
    ∷ 103 ∷ 114 ∷ 111 ∷ 119 ∷ 32 ∷ 115 ∷ 101 ∷ 112 ∷ 97 ∷ 114 ∷ 97 ∷ 116 ∷ 101 ∷ 108 ∷ 121 ∷ 46 ∷ 13
    ∷ 10 ∷ []

abbrev pub readme_name : List ℕ
readme_name = 0x52 ∷ 0x45 ∷ 0x41 ∷ 0x44 ∷ 0x4D ∷ 0x45 ∷ 0x2E ∷ 0x54 ∷ 0x58 ∷ 0x54 ∷ []

abbrev pub program_name : List ℕ
program_name = 0x53 ∷ 0x4F ∷ 0x4B ∷ 0x4F ∷ 0x42 ∷ 0x41 ∷ 0x4E ∷ 0x2E ∷ 0x57 ∷ 0x53 ∷ 0x4D ∷ []

-- The partition types that are empty or FAT32.
abbrev pub is_ours : ℕ → Bool
is_ours type = type == 0x00 || (type == 0x0B || type == 0x0C)

-- The four entries of the partition table, from `i` on.
unfoldable pub foreign_from : ℕ → (i : ℕ) → Buffer → Bool
foreign_from zero i s = false
foreign_from (suc left) i s =
    let rest = foreign_from left (i + 1) s in
    if is_ours (s (0x1BE + i * 16 + 4)) then rest else true

abbrev pub foreign_sector : Option Buffer → Bool
foreign_sector none = false
foreign_sector (some s) = if unsigned_sector s then false else foreign_from 4 0 s

-- `g_status`, `g_fs`, and the disk.
pub record FsState (D : Type 0) : Type 0 where
  pub status : ℕ
  pub fs : Fs
  pub disk : D

-- `g_fs` before a volume is mounted.
abbrev pub no_volume : Fs
no_volume = record {
  partition_lba = 0;
  partition_sectors = 0;
  fat_lba = 0;
  data_lba = 0;
  sectors_per_cluster = 0;
  fat_sectors = 0;
  fat_count = 0;
  root_cluster = 0;
  cluster_count = 0;
  mounted = false;
}

abbrev pub is_none : Option Buffer → Bool
is_none none = true
is_none (some s) = false

-- `g_status == FS_MOUNTED || g_status == FS_FORMATTED`
abbrev pub is_ready : ℕ → Bool
is_ready status = status == fs_mounted || status == fs_formatted

unfoldable pub foreign_volume : {D : Type 0} → Disk D → D → Bool
unfolding foreign_from
foreign_volume disk d = foreign_sector (disk.read 0 d)

module _ {D : Type 0} (disk : Disk D) (program : Buffer) (program_len : ℕ) where
  -- The two files of a new volume; their results are not looked at.
  unfoldable pub first_files : Fs → D → D
  unfolding fat32_write_file literal
  first_files fs d =
      let d =
        left_by
          (fat32_write_file disk 10 fs (literal readme_name) (literal readme) (length readme) d) in
      left_by (fat32_write_file disk 11 fs (literal program_name) program program_len d)

  abbrev pub formatted : Ended D Fs → FsState D
  formatted (ok fs d) = record { status = fs_formatted; fs = fs; disk = first_files fs d }
  formatted (failed d) = record { status = fs_absent; fs = no_volume; disk = d }

  -- What `fs_init` does with the answer of `fat32_mount`.
  abbrev pub with_mount : Ended D Fs → FsState D
  with_mount (ok fs d) = record { status = fs_mounted; fs = fs; disk = d }
  with_mount (failed d) =
      if foreign_volume disk d
      then record { status = fs_foreign; fs = no_volume; disk = d }
      else if is_none (disk.read (fs_disk_sectors - 1) d)
      then record { status = fs_absent; fs = no_volume; disk = d }
      else formatted (fat32_format disk fs_disk_sectors fs_system_sectors d)

  unfoldable pub fs_init : D → FsState D
  unfolding foreign_volume first_files fat32_mount fat32_format
  fs_init d =
      if is_none (disk.read 0 d)
      then record { status = fs_absent; fs = no_volume; disk = d }
      else with_mount (fat32_mount disk d)

-- What an entry gives, or 0 if there is none.
abbrev pub of_entry : (DirEntry → ℕ) → Option DirEntry → ℕ
of_entry f none = 0
of_entry f (some e) = f e

abbrev counted_on : (here further : ℕ) → Option DirEntry → ℕ
counted_on here further none = here
counted_on here further (some e) = further

module _ {D : Type 0} (disk : Disk D) where
  abbrev pub listed : FsState D → ℕ → Option DirEntry
  listed s index = fat32_list disk s.fs index s.disk

  -- `while (fat32_list(&g_fs, n, &e)) n++;`, from `n` on.
  unfoldable pub count_from : ℕ → FsState D → ℕ → ℕ
  unfolding fat32_list
  count_from zero s n = n
  count_from (suc left) s n = counted_on n (count_from left s (n + 1)) (listed s n)

  unfoldable pub fs_count : FsState D → ℕ
  unfolding count_from
  fs_count s = if is_ready s.status then count_from (all_slots s.fs) s 0 else 0

  unfoldable pub fs_name_byte : (index offset : ℕ) → FsState D → ℕ
  unfolding fat32_list
  fs_name_byte index offset s =
      if int_neg offset || leb 11 offset
      then 0
      else of_entry (λ e. u8 (e.name offset)) (listed s index)

  unfoldable pub fs_entry_size : ℕ → FsState D → ℕ
  unfolding fat32_list
  fs_entry_size index s = of_entry (λ e. e.size) (listed s index)

  unfoldable pub fs_entry_is_dir : ℕ → FsState D → ℕ
  unfolding fat32_list
  fs_entry_is_dir index s = of_entry (λ e. if e.is_dir then 1 else 0) (listed s index)

  unfoldable pub fs_free_kb : FsState D → ℕ
  unfolding fat32_free_clusters
  fs_free_kb s =
      if is_ready s.status
      then u32 (fat32_free_clusters disk s.fs s.disk * s.fs.sectors_per_cluster) / 2
      else 0

unfoldable pub fs_total_kb : {D : Type 0} → FsState D → ℕ
fs_total_kb s =
    if is_ready s.status then u32 (s.fs.cluster_count * s.fs.sectors_per_cluster) / 2 else 0
