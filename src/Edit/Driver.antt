-- ===== src/Edit/Driver.antt =====
-- The edit buffer over the FAT32 driver: the operations of fs/fat32.c as the `Volume` that
-- `fs_edit` of fs/fat32_disk.c works on.
use jvmos_jit.Base.Word.{int_neg}
use jvmos_jit.Base.{◌⊎◌, ◌≡◌, ◌≤◌, inl, inr, arith, ℕ, Bool, true, false, Option, none, some}
use jvmos_jit.Fat.Disk.{Disk, Ended, ok, failed}
use jvmos_jit.Fat.Table.{Fs}
use jvmos_jit.Fat.Directory.{DirEntry, fat32_list}
use jvmos_jit.Fat.Files.{fat32_read_file, fat32_write_file, fat32_delete_file}
use jvmos_jit.Fat.Files.Bounds.{fat32_read_file-StaysWithin}
use jvmos_jit.Edit.Name.{fs_name_max}
use jvmos_jit.Edit.Volume.{Entry, Volume, ReadsFit}
use jvmos_jit.Edit.Editor.{Editor, fs_edit}
use jvmos_jit.Edit.Editor.Invariant.{Fits, fs_edit-Fits}

abbrev pub as_entry : Option DirEntry → Option Entry
as_entry none = none
as_entry (some e) = some (record { name = e.name; is_dir = e.is_dir })

abbrev pub as_result : {D A : Type 0} → Ended D A → Bool × D
as_result (ok a d) = (true, d)
as_result (failed d) = (false, d)

-- The names that the edit buffer passes fit `g_name`, and the volume stays as it was mounted.
unfoldable pub fat_volume : {D : Type 0} → Disk D → Fs → Volume D
unfolding fat32_list fat32_read_file fat32_write_file fat32_delete_file
fat_volume disk fs = record {
  list = λ index d. (as_entry (fat32_list disk fs index d), d);
  read_file = λ name text max d.
      let (n, buffer) = fat32_read_file disk fs_name_max fs name text max d in (n, buffer, d);
  write_file =
      λ name text length d. as_result (fat32_write_file disk fs_name_max fs name text length d);
  delete_file = λ name d. as_result (fat32_delete_file disk fs_name_max fs name d);
}

not_negative : {n max : ℕ} → (int_neg n ≡ true) ⊎ (n ≤ max) → int_neg n ≡ false → n ≤ max
not_negative (inl negative) h = ground (arith, negative, h)
not_negative (inr fits) h = fits

fat_volume-ReadsFit : {D : Type 0} (disk : Disk D) (fs : Fs) → ReadsFit (fat_volume disk fs)
unfolding fat_volume
fat_volume-ReadsFit disk fs name text max d =
    not_negative (fat32_read_file-StaysWithin disk fs_name_max fs name text max d).0

-- Over the driver of this repository, whatever is on the disk and however it fails, every operation
-- of the edit buffer leaves the text inside its array and the name inside its own, terminated.
pub driver_edit-Fits :
    {D : Type 0} (disk : Disk D) (fs : Fs) (op a b : ℕ) (s : Editor D)
    → Fits s
    → Fits (fs_edit (fat_volume disk fs) op a b s).1
driver_edit-Fits disk fs op a b s h =
    fs_edit-Fits (fat_volume disk fs) (fat_volume-ReadsFit disk fs) op a b s h
