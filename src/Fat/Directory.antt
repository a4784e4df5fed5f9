-- ===== src/Fat/Directory.antt =====
-- The root directory in fs/fat32.c: `root_slot_read`, `fat32_list` and `find_entry`.
pub mod Search
use jvmos_jit.Base.{
  ℕ, zero, suc, ◌+◌, ◌-◌, ◌*◌, ◌/◌, ◌%◌, ◌^◌, Bool, true, false, not, ◌&&◌, Option, none, some,
  bit_and, bit_or, ltb, leb, ◌==◌, if◌then◌else◌,
}
use jvmos_jit.Base.Word.{u32, add32}
use jvmos_jit.Wasm.Module.{update}
use jvmos_jit.Fat.Bytes.{Buffer, get16, get32}
use jvmos_jit.Fat.Names.{fat_name_len, same_name}
use jvmos_jit.Fat.Disk.{Disk}
use jvmos_jit.Fat.Table.{Fs, cluster_lba, fat_entry_get, in_chain}

-- `fat32_entry`
pub record DirEntry : Type 0 where
  pub name : ℕ → ℕ
  pub size : ℕ
  pub cluster : ℕ
  pub is_dir : Bool

-- A slot that was read: its 32 bytes, its sector and its offset there.
pub record Slot : Type 0 where
  pub raw : Buffer
  pub lba : ℕ
  pub off : ℕ

-- `FAT_SECTOR_SIZE / 32`
abbrev pub per_sector : ℕ
per_sector = 16

abbrev pub per_cluster : Fs → ℕ
per_cluster fs = per_sector * fs.sectors_per_cluster

-- `(get16(&raw[20]) << 16) | get16(&raw[26])`
abbrev pub first_cluster : Buffer → ℕ
first_cluster raw = bit_or (u32 (get16 raw 20 * 2 ^ 16)) (get16 raw 26)

abbrev pub is_free : Buffer → Bool
is_free raw = raw 0 == 0xE5

abbrev pub is_long_name : Buffer → Bool
is_long_name raw = bit_and (raw 11) 0x0F == 0x0F

abbrev pub is_label : Buffer → Bool
is_label raw = not (bit_and (raw 11) 0x08 == 0)

abbrev pub has_dir_bit : Buffer → Bool
has_dir_bit raw = not (bit_and (raw 11) 0x10 == 0)

unfoldable pub entry_of : Buffer → DirEntry
unfolding get16 get32
entry_of raw = record {
  name = λ i. if ltb i fat_name_len then raw i else 0;
  size = get32 raw 28;
  cluster = first_cluster raw;
  is_dir = has_dir_bit raw;
}

-- Every slot number that a chain of the length that `guard` allows can have.
abbrev pub all_slots : Fs → ℕ
all_slots fs = (0x10000 + 1) * per_cluster fs

-- The loop of `fat32_list`, behind a slot that was read.
abbrev pub list_slot : (index seen : ℕ) → (ℕ → Option DirEntry) → Option Slot → Option DirEntry
list_slot index seen rest none = none
list_slot index seen rest (some s) =
    if s.raw 0 == 0
    then none
    else if not (is_free s.raw) && (not (is_long_name s.raw) && not (is_label s.raw))
    then (if seen == index then some (entry_of s.raw) else rest (seen + 1))
    else rest seen

abbrev pub find_slot :
    (name : ℕ → ℕ) → (slot : ℕ) → Option (ℕ × Slot) → Option Slot → Option (ℕ × Slot)
find_slot name slot rest none = none
find_slot name slot rest (some s) =
    if s.raw 0 == 0
    then none
    else if not (is_free s.raw) && (not (is_long_name s.raw) && same_name s.raw name)
    then some (slot, s)
    else rest

abbrev pub free_slot_at : (slot : ℕ) → Option ℕ → Option Slot → Option ℕ
free_slot_at slot rest none = none
free_slot_at slot rest (some s) =
    if s.raw 0 == 0 then some slot else if is_free s.raw then some slot else rest

abbrev pub slot_at : (lba off : ℕ) → Option Buffer → Option Slot
slot_at lba off none = none
slot_at lba off (some s) = some (record { raw = λ i. s (off + i); lba = lba; off = off })

module _ {D : Type 0} (disk : Disk D) where
  -- The walk along the chain, with the clusters that `guard` leaves first: the cluster that holds
  -- the slot, and the slot's number in it.
  unfoldable pub root_walk : ℕ → Fs → (cluster slot : ℕ) → D → Option (ℕ × ℕ)
  unfolding fat_entry_get
  root_walk zero fs cluster slot d =
      if leb (per_cluster fs) slot then none else some (cluster, slot)
  root_walk (suc left) fs cluster slot d =
      let next = fat_entry_get disk fs cluster d in
      let rest = root_walk left fs next (slot - per_cluster fs) d in
      if leb (per_cluster fs) slot
      then (if in_chain next then rest else none)
      else some (cluster, slot)

  abbrev pub slot_found : Fs → D → Option (ℕ × ℕ) → Option Slot
  slot_found fs d none = none
  slot_found fs d (some (cluster, slot)) =
      let lba = u32 (cluster_lba fs cluster + slot / per_sector) in
      slot_at lba (slot % per_sector * 32) (disk.read lba d)

  unfoldable pub root_slot_read : Fs → ℕ → D → Option Slot
  unfolding root_walk cluster_lba
  root_slot_read fs slot d = slot_found fs d (root_walk 0x10000 fs fs.root_cluster slot d)

  unfoldable pub list_from : ℕ → Fs → (slot index seen : ℕ) → D → Option DirEntry
  unfolding root_slot_read entry_of
  list_from zero fs slot index seen d = none
  list_from (suc left) fs slot index seen d =
      list_slot index seen (λ n. list_from left fs (slot + 1) index n d) (root_slot_read fs slot d)

  unfoldable pub fat32_list : Fs → ℕ → D → Option DirEntry
  unfolding list_from
  fat32_list fs index d = if fs.mounted then list_from (all_slots fs) fs 0 index 0 d else none

  unfoldable pub find_from : ℕ → Fs → (slot : ℕ) → (name : ℕ → ℕ) → D → Option (ℕ × Slot)
  unfolding root_slot_read same_name
  find_from zero fs slot name d = none
  find_from (suc left) fs slot name d =
      find_slot name slot (find_from left fs (slot + 1) name d) (root_slot_read fs slot d)

  unfoldable pub find_entry : Fs → (name : ℕ → ℕ) → D → Option (ℕ × Slot)
  unfolding find_from
  find_entry fs name d = find_from (all_slots fs) fs 0 name d

  -- The first slot that is free or behind the last one, from `slot` on.
  unfoldable pub free_slot_from : ℕ → Fs → (slot : ℕ) → D → Option ℕ
  unfolding root_slot_read
  free_slot_from zero fs slot d = none
  free_slot_from (suc left) fs slot d =
      free_slot_at slot (free_slot_from left fs (slot + 1) d) (root_slot_read fs slot d)
