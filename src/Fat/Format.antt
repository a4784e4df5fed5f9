-- ===== src/Fat/Format.antt =====
-- Mounting and formatting in fs/fat32.c: `fat32_mount` and `fat32_format`.
pub mod Area
use jvmos_jit.Base.{
  ℕ, zero, suc, ◌+◌, ◌-◌, ◌*◌, ◌/◌, ◌%◌, ◌^◌, Bool, true, false, not, ◌&&◌, ◌||◌, Option, none,
  some, List, [], ◌∷◌, ltb, leb, ◌==◌, if◌then◌else◌,
}
use jvmos_jit.Base.Word.{u32, add32, sub32}
use jvmos_jit.Wasm.Module.{update}
use jvmos_jit.Fat.Bytes.{Buffer, put16, put32, get16, get32, zeros}
use jvmos_jit.Fat.Disk.{
  Disk, Ended, ok, failed, Io, pure, and_then, ◌>>=◌, ◌>>◌, give_up, fail_if, read_sector,
  write_sector,
}
use jvmos_jit.Fat.Table.{Fs, fat_sector_size}

-- `g_sector[510] != 0x55 || g_sector[511] != 0xAA`
abbrev pub unsigned_sector : Buffer → Bool
unsigned_sector s = not (s 510 == 0x55) || not (s 511 == 0xAA)

-- Literal bytes from an offset on.
unfoldable pub put_bytes : List ℕ → ℕ → Buffer → Buffer
put_bytes [] off p = p
put_bytes (b ∷ bs) off p = put_bytes bs (off + 1) (update p off b)

-- What the two sectors say about the volume.
unfoldable pub geometry : (part_lba part_sectors : ℕ) → Buffer → Fs
unfolding get16 get32
geometry part_lba part_sectors s =
    let reserved = get16 s 14 in
    let spc = s 13 in
    let tables = u32 (s 16 * get32 s 36) in
    let fat_lba = add32 part_lba reserved in
    record {
      partition_lba = part_lba;
      partition_sectors = part_sectors;
      fat_lba = fat_lba;
      data_lba = add32 fat_lba tables;
      sectors_per_cluster = spc;
      fat_sectors = get32 s 36;
      fat_count = s 16;
      root_cluster = get32 s 44;
      cluster_count = sub32 (sub32 part_sectors reserved) tables / spc;
      mounted = true;
    }

-- `fs->sectors_per_cluster == 0 || ...`
abbrev pub unusable : Fs → Bool
unusable fs =
    fs.sectors_per_cluster == 0
    || (fs.fat_sectors == 0 || (fs.fat_count == 0 || ltb fs.root_cluster 2))

-- The master boot record.
unfoldable pub boot_record : (part_lba part_sectors : ℕ) → Buffer
unfolding put_bytes put32
boot_record part_lba part_sectors =
    let s = put_bytes (0x80 ∷ 1 ∷ 1 ∷ 0 ∷ 0x0C ∷ 0xFE ∷ 0xFF ∷ 0xFF ∷ []) 0x1BE zeros in
    let s = put32 (put32 s (0x1BE + 8) part_lba) (0x1BE + 12) part_sectors in
    put_bytes (0x55 ∷ 0xAA ∷ []) 510 s

-- The volume's own boot record.
unfoldable pub volume_record : (part_lba part_sectors reserved spc fat_sectors : ℕ) → Buffer
unfolding put_bytes put16 put32
volume_record part_lba part_sectors reserved spc fat_sectors =
    let s = put_bytes (0xEB ∷ 0x58 ∷ 0x90 ∷ []) 0 zeros in
    let s = put_bytes (0x4A ∷ 0x56 ∷ 0x4D ∷ 0x4F ∷ 0x53 ∷ 0x31 ∷ 0x2E ∷ 0x30 ∷ []) 3 s in
    let s = update (put16 s 11 fat_sector_size) 13 spc in
    let s = put_bytes (2 ∷ []) 16 (put16 s 14 reserved) in
    let s = put16 (put16 s 17 0) 19 0 in
    let s = put16 (update s 21 0xF8) 22 0 in
    let s = put16 (put16 s 24 63) 26 255 in
    let s = put32 (put32 (put32 s 28 part_lba) 32 part_sectors) 36 fat_sectors in
    let s = put32 (put16 (put16 s 40 0) 42 0) 44 2 in
    let s = update (update (put16 (put16 s 48 1) 50 6) 64 0x80) 66 0x29 in
    let s = put32 s 67 0x4A56_4D53 in
    let s =
      put_bytes (0x4A ∷ 0x56 ∷ 0x4D ∷ 0x4F ∷ 0x53 ∷ 0x20 ∷ 0x20 ∷ 0x20 ∷ 0x20 ∷ 0x20 ∷ 0x20 ∷ []) 71
        s in
    let s = put_bytes (0x46 ∷ 0x41 ∷ 0x54 ∷ 0x33 ∷ 0x32 ∷ 0x20 ∷ 0x20 ∷ 0x20 ∷ []) 82 s in
    put_bytes (0x55 ∷ 0xAA ∷ []) 510 s

unfoldable pub info_sector : Buffer
unfolding put32
info_sector =
    put32
      (put32 (put32 (put32 (put32 zeros 0 0x4161_5252) 484 0x6141_7272) 488 0xFFFF_FFFF) 492
        0xFFFF_FFFF)
      508 0xAA55_0000

-- The first sector of a table: the two reserved entries, and the chain of the root directory.
unfoldable pub first_entries : Buffer
unfolding put32
first_entries = put32 (put32 (put32 zeros 0 0x0FFF_FFF8) 4 0x0FFF_FFFF) 8 0x0FFF_FFFF

-- The size of a table for one sector a cluster.
unfoldable pub fat_size : ℕ → ℕ
fat_size part_sectors = u32 (sub32 part_sectors 32 + 129 - 1) / 129

module _ {D : Type 0} (disk : Disk D) where
  -- `*fs` is returned where the volume is mounted; otherwise `fs->mounted` is 0.
  unfoldable pub fat32_mount : Io D Fs
  unfolding read_sector get16 get32 geometry
  fat32_mount = do
    s ← read_sector disk 0
    fail_if (unsigned_sector s)
    let part_lba = get32 s (0x1BE + 8)
    let part_sectors = get32 s (0x1BE + 12)
    fail_if (part_lba == 0 || part_sectors == 0)
    b ← read_sector disk part_lba
    fail_if (unsigned_sector b)
    fail_if (not (get16 b 11 == fat_sector_size))
    fail_if (not (get16 b 22 == 0))
    let fs = geometry part_lba part_sectors b
    fail_if (unusable fs)
    pure fs

  -- `for (i = 0; i < n; i++) if (!fat_write_sector(lba + i, g_sector)) return 0;`, from `lba` on.
  unfoldable pub clear_sectors : ℕ → (lba : ℕ) → Io D (Unit {0})
  unfolding write_sector
  clear_sectors zero lba = pure tt
  clear_sectors (suc left) lba = do write_sector disk lba zeros; clear_sectors left (add32 lba 1)

  unfoldable pub fat32_format : (disk_sectors reserved_sectors : ℕ) → Io D Fs
  unfolding write_sector boot_record volume_record info_sector first_entries fat_size clear_sectors
      fat32_mount
  fat32_format disk_sectors reserved_sectors = do
    fail_if (leb disk_sectors (add32 reserved_sectors 128))
    let part_lba = reserved_sectors
    let part_sectors = sub32 disk_sectors part_lba
    let fat_sectors = fat_size part_sectors
    let table = add32 part_lba 32
    let volume = volume_record part_lba part_sectors 32 1 fat_sectors
    fail_if (fat_sectors == 0)
    write_sector disk 0 (boot_record part_lba part_sectors)
    write_sector disk part_lba volume
    write_sector disk (add32 part_lba 6) volume
    write_sector disk (add32 part_lba 1) info_sector
    clear_sectors (u32 (fat_sectors * 2)) table
    write_sector disk table first_entries
    write_sector disk (add32 table fat_sectors) first_entries
    write_sector disk (u32 (table + 2 * fat_sectors)) zeros
    fat32_mount
