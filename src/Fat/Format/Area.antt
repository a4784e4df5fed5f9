-- ===== src/Fat/Format/Area.antt =====
-- What mounting and formatting leave alone: mounting writes nothing, and formatting nothing between
-- the first sector and the partition.
use jvmos_jit.Base.{ℕ, zero, suc, ◌+◌, ◌*◌, ◌^◌, ◌<◌, ◌≢◌, not, ◌||◌, arith, leb, ◌==◌}
use jvmos_jit.Base.Word.{u32, add32, sub32}
use jvmos_jit.Fat.Bytes.{Buffer, get16, get32, zeros}
use jvmos_jit.Fat.Disk.{Disk, IsDisk}
use jvmos_jit.Fat.Disk.Rules.{
  Sparing, Spared-then, Spared-id, fail_if-Sparing, read_sector-Sparing, write_sector-Sparing,
}
use jvmos_jit.Fat.Table.{fat_sector_size}
use jvmos_jit.Fat.Format.{
  unsigned_sector, geometry, unusable, fat_size, boot_record, volume_record, info_sector,
  first_entries, fat32_mount, clear_sectors, fat32_format,
}

-- The tables and the first cluster of the root directory lie on the disk.
pub tables_on_disk :
    (disk_sectors reserved : ℕ)
    → reserved + 128 < disk_sectors
    → disk_sectors < 2 ^ 32
    → reserved + 32 + 2 * fat_size (sub32 disk_sectors reserved) < disk_sectors
unfolding fat_size
tables_on_disk disk_sectors reserved h small = omega (arith, h, small)

module _ {D : Type 0} (disk : Disk D) (k : ℕ) where
  -- Mounting leaves every sector as it was, whether it succeeds or not.
  pub fat32_mount-Sparing : Sparing disk k (fat32_mount disk)
  unfolding fat32_mount
  fat32_mount-Sparing d = Spared-then disk k d _ _ (read_sector-Sparing disk k 0 d) λ s d.
      Spared-then disk k d _ _ (fail_if-Sparing disk k (unsigned_sector s) d) λ u d.
        let part_lba = get32 s (0x1BE + 8) in
        let part_sectors = get32 s (0x1BE + 12) in
        Spared-then disk k d _ _ (fail_if-Sparing disk k (part_lba == 0 || part_sectors == 0) d)
          λ u d. Spared-then disk k d _ _ (read_sector-Sparing disk k part_lba d) λ b d.
            Spared-then disk k d _ _ (fail_if-Sparing disk k (unsigned_sector b) d) λ u d.
              Spared-then disk k d _ _
                (fail_if-Sparing disk k (not (get16 b 11 == fat_sector_size)) d)
                λ u d.
                  Spared-then disk k d _ _ (fail_if-Sparing disk k (not (get16 b 22 == 0)) d) λ u d.
                    Spared-then disk k d _ _
                      (fail_if-Sparing disk k (unusable (geometry part_lba part_sectors b)) d)
                      λ u d. Spared-id disk k d (geometry part_lba part_sectors b)

  module _ (laws : IsDisk disk) where
    clear_sectors-Sparing :
        (n lba : ℕ) → k < lba → lba + n < 2 ^ 32 → Sparing disk k (clear_sectors disk n lba)
    unfolding clear_sectors
    clear_sectors-Sparing zero lba h fits d = Spared-id disk k d tt
    clear_sectors-Sparing (suc n) lba h fits d =
        Spared-then disk k d _ _ (write_sector-Sparing disk k laws lba zeros (omega (arith, h)) d)
          λ u. clear_sectors-Sparing n (add32 lba 1) (omega (arith, h, fits)) (omega (arith, fits))

    -- On a disk of fewer than 2^32 sectors, more than 128 of them behind the reserved area:
    -- formatting leaves every sector between the first one and the partition as it was, whether it
    -- succeeds or not: the area that is reserved for the system image.
    pub fat32_format-Sparing :
        (disk_sectors reserved : ℕ)
        → 0 < k
        → k < reserved
        → disk_sectors < 2 ^ 32
        → reserved + 128 < disk_sectors
        → Sparing disk k (fat32_format disk disk_sectors reserved)
    unfolding fat32_format
    fat32_format-Sparing disk_sectors reserved positive below small room d =
        let part_sectors = sub32 disk_sectors reserved in
        let fat_sectors = fat_size part_sectors in
        let table = add32 reserved 32 in
        let volume = volume_record reserved part_sectors 32 1 fat_sectors in
        let on_disk = tables_on_disk disk_sectors reserved room small in
        let write = λ (lba : ℕ) (s : Buffer) (apart : k ≢ lba).
          write_sector-Sparing disk k laws lba s apart in
        Spared-then disk k d _ _ (fail_if-Sparing disk k (leb disk_sectors (add32 reserved 128)) d)
          λ u d. Spared-then disk k d _ _ (fail_if-Sparing disk k (fat_sectors == 0) d) λ u d.
            Spared-then disk k d _ _
              (write 0 (boot_record reserved part_sectors) (omega (arith, positive)) d)
              λ u d.
                Spared-then disk k d _ _ (write reserved volume (omega (arith, below)) d) λ u d.
                  Spared-then disk k d _ _
                    (write (add32 reserved 6) volume (omega (arith, below, room, small)) d)
                    λ u d.
                      Spared-then disk k d _ _
                        (write (add32 reserved 1) info_sector (omega (arith, below, room, small)) d)
                        λ u d.
                          Spared-then disk k d _ _
                            (clear_sectors-Sparing (u32 (fat_sectors * 2)) table
                              (omega (arith, below, room, small)) (omega (arith, on_disk, small)) d)
                            λ u d.
                              Spared-then disk k d _ _
                                (write table first_entries (omega (arith, below, room, small)) d)
                                λ u d.
                                  Spared-then disk k d _ _
                                    (write (add32 table fat_sectors) first_entries
                                      (omega (arith, below, on_disk, small)) d)
                                    λ u d.
                                      Spared-then disk k d _ _
                                        (write (u32 (table + 2 * fat_sectors)) zeros
                                          (omega (arith, below, on_disk, small)) d)
                                        λ u. fat32_mount-Sparing
