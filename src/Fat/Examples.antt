-- ===== src/Fat/Examples.antt =====
-- The driver on a small volume: two tables of one sector each, and a hundred clusters of one sector.
use jvmos_jit.Base.{
  ltb, ◌&&◌, ℕ, ◌%◌, ◌+◌, ◌<◌, ◌≡◌, ◌≢◌, refl, ap, true, false, inr, some, arith, ◌==◌,
  if◌then◌else◌,
}
use jvmos_jit.Wasm.Module.{update}
use jvmos_jit.Fat.Bytes.{Buffer, get32, put32}
use jvmos_jit.Fat.Bytes.RoundTrip.{get32-put32}
use jvmos_jit.Fat.Names.{fat32_pack_name}
use jvmos_jit.Fat.Disk.{Disk, IsDisk}
use jvmos_jit.Fat.Disk.Rules.{Ensures, Spared}
use jvmos_jit.Fat.Table.{Fs, fat_entry_get, fat_entry_set, alloc_cluster}
use jvmos_jit.Fat.Table.Laws.{TablesFit, IsEntry, fat_entry_get-set, fat_entry_set-Sparing}
use jvmos_jit.Fat.Table.Alloc.{Allocated, alloc_cluster-Allocated}
use jvmos_jit.Fat.Directory.{find_entry}
use jvmos_jit.Fat.Directory.Search.{Search, find_entry-Search}
use jvmos_jit.Fat.Files.{fat32_read_file}
use jvmos_jit.Fat.Files.Bounds.{StaysWithin, fat32_read_file-StaysWithin}
use jvmos_jit.Fat.Disk.Rules.{IsReliable}
use jvmos_jit.Fat.Files.{write_chain}
use jvmos_jit.Fat.Files.Places.{VolumeFits}
use jvmos_jit.Fat.Files.Room.{OrFull}
use jvmos_jit.Fat.Files.RoundTrip.{ReadsBack, write_chain-read_chain}
use jvmos_jit.Fat.Space.{fat32_free_clusters}
use jvmos_jit.Fat.Space.Tally.{tally, fat32_free_clusters-tally}
use jvmos_jit.Fat.Space.Tally.Taken.{alloc_cluster-one_less}
use jvmos_jit.Fat.Format.{fat32_format}
use jvmos_jit.Fat.Format.Area.{fat32_format-Sparing}

-- A disk that always answers.
abbrev pub sectors : Disk (ℕ → Buffer)
sectors = record { read = λ l d. some (d l); write = λ l s d. (true, update d l s) }

update_here : (d : ℕ → Buffer) (l : ℕ) (s : Buffer) → update d l s l ≡ s
update_here d l s = let same : (l == l) ≡ true = ground arith in rw same refl

update_there : (d : ℕ → Buffer) (k l : ℕ) (s : Buffer) → k ≢ l → update d l s k ≡ d k
update_there d k l s h = let apart : (l == k) ≡ false = ground (arith, h) in rw apart refl

pub sectors-IsDisk : IsDisk sectors
sectors-IsDisk = record {
  read_written = λ l s d h. ap some (update_here d l s);
  read_other = λ k l s d h. ap some (update_there d k l s h);
}

abbrev pub small_fs : Fs
small_fs = record {
  partition_lba = 0;
  partition_sectors = 200;
  fat_lba = 1;
  data_lba = 3;
  sectors_per_cluster = 1;
  fat_sectors = 1;
  fat_count = 2;
  root_cluster = 2;
  cluster_count = 100;
  mounted = true;
}

abbrev pub blank : ℕ → Buffer
blank l i = 0

small-TablesFit : TablesFit small_fs
small-TablesFit = record { no_wrap = omega arith; some_table = omega arith }

small-IsEntry : (c : ℕ) → c < 102 → IsEntry small_fs c
small-IsEntry c h = record { small = omega (arith, h); in_table = omega (arith, h) }

abbrev a_name : ℕ → ℕ
a_name i = if i == 0 then 0x61 else 0

packed : (fat32_pack_name 1 a_name 0 ≡ 0x41) × (fat32_pack_name 1 a_name 8 ≡ 0x20)
unfolding fat32_pack_name
packed = (refl, refl)

get32-put32_example : get32 (put32 (λ i. 9) 8 305419896) 8 ≡ 305419896
get32-put32_example = get32-put32 (λ i. 9) 8 305419896 (omega arith)

fat_entry_get-set_example :
    Ensures
      (λ u e. fat_entry_get sectors small_fs 7 e ≡ 5)
      (fat_entry_set sectors small_fs 7 5 blank)
fat_entry_get-set_example =
    fat_entry_get-set sectors sectors-IsDisk small_fs 7 5 blank small-TablesFit
      (small-IsEntry 7 (omega arith))

fat_entry_set-Sparing_example : Spared sectors 3 blank (fat_entry_set sectors small_fs 7 5 blank)
fat_entry_set-Sparing_example =
    fat_entry_set-Sparing sectors sectors-IsDisk small_fs 7 5 3 small-TablesFit
      (small-IsEntry 7 (omega arith)) (inr (omega arith)) blank

alloc_cluster-Allocated_example :
    Ensures
      (λ a e. Allocated sectors sectors-IsDisk small_fs small-TablesFit a blank e)
      (alloc_cluster sectors small_fs blank)
alloc_cluster-Allocated_example =
    alloc_cluster-Allocated sectors sectors-IsDisk small_fs small-TablesFit blank
      (λ c h. small-IsEntry c (omega (arith, h)))

-- A volume with a deleted slot and the file "A" behind it in its root directory.
abbrev one_file : ℕ → Buffer
one_file = update blank 3 (λ i.
    if i == 0 then 0xE5 else if i == 32 then 0x41 else if ltb 32 i && ltb i 43 then 0x20 else 0)

find_entry-Search_example :
    Search sectors small_fs
      (fat32_pack_name 1 a_name)
      one_file
      (find_entry sectors small_fs (fat32_pack_name 1 a_name) one_file)
find_entry-Search_example = find_entry-Search sectors small_fs (fat32_pack_name 1 a_name) one_file

fat32_read_file-StaysWithin_example :
    StaysWithin 10 (λ i. 9) (fat32_read_file sectors 1 small_fs a_name (λ i. 9) 10 blank)
fat32_read_file-StaysWithin_example =
    fat32_read_file-StaysWithin sectors 1 small_fs a_name (λ i. 9) 10 blank

fat32_format-Sparing_example : Spared sectors 5 blank (fat32_format sectors 400 50 blank)
fat32_format-Sparing_example =
    fat32_format-Sparing sectors 5 sectors-IsDisk 400 50 (omega arith) (omega arith) (omega arith)
      (omega arith) blank

sectors-IsReliable : IsReliable sectors
sectors-IsReliable = record { reads = λ l d. (d l, refl); writes = λ l s d. refl }

small-VolumeFits : VolumeFits small_fs
small-VolumeFits = record {
  tables = small-TablesFit;
  cover = small-IsEntry;
  tables_first = omega arith;
  clusters_fit = omega arith;
  some_sectors = omega arith;
  few_clusters = omega arith;
}

-- A text of two clusters.
write_chain-read_chain_example :
    OrFull sectors sectors-IsDisk sectors-IsReliable small_fs small-VolumeFits
      (ReadsBack sectors sectors-IsDisk sectors-IsReliable small_fs small-VolumeFits
        (λ i. i % 256)
        700
        (λ i. 0)
        blank)
      (write_chain sectors 700 small_fs (λ i. i % 256) 700 0 0 0 blank)
write_chain-read_chain_example =
    write_chain-read_chain sectors sectors-IsDisk sectors-IsReliable small_fs small-VolumeFits
      (λ i. i % 256) 700 (λ i. 0) blank (omega arith) (omega arith)

-- A volume whose root directory has cluster 2, and nothing else is used.
abbrev with_root : ℕ → Buffer
with_root = update blank 1 (put32 (blank 1) 8 0x0FFF_FFFF)

fat32_free_clusters-tally_example :
    fat32_free_clusters sectors small_fs with_root ≡ tally sectors small_fs with_root 102 0
fat32_free_clusters-tally_example =
    fat32_free_clusters-tally sectors small_fs with_root sectors-IsReliable refl (omega arith)
      (omega arith)

alloc_cluster-one_less_example :
    Ensures
      (λ c e.
        fat32_free_clusters sectors small_fs with_root ≡ fat32_free_clusters sectors small_fs e + 1)
      (alloc_cluster sectors small_fs with_root)
alloc_cluster-one_less_example =
    alloc_cluster-one_less sectors sectors-IsDisk sectors-IsReliable small_fs small-VolumeFits refl
      with_root
