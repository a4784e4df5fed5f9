-- ===== src/Fat/Space.antt =====
-- The count of free clusters in fs/fat32.c: `fat32_free_clusters`.
pub mod Tally
use jvmos_jit.Base.{
  ℕ, zero, suc, ◌+◌, ◌&&◌, Option, none, some, bit_and, ltb, leb, ◌==◌, if◌then◌else◌,
}
use jvmos_jit.Base.Word.{add32}
use jvmos_jit.Fat.Bytes.{Buffer, get32}
use jvmos_jit.Fat.Disk.{Disk}
use jvmos_jit.Fat.Table.{Fs}

-- The entries of a sector from offset `i` on, with those before it examined.
unfoldable pub count_sector : ℕ → (bound : ℕ) → Buffer → (i examined free_count : ℕ) → ℕ × ℕ
unfolding get32
count_sector zero bound s i examined free_count = (examined, free_count)
count_sector (suc left) bound s i examined free_count =
    let is_free = leb 2 examined && (bit_and (get32 s i) 0x0FFF_FFFF == 0) in
    let rest =
      count_sector left bound s (i + 4) (examined + 1)
        (if is_free then free_count + 1 else free_count) in
    if leb bound examined then (examined, free_count) else rest

-- A sector that cannot be read ends the count.
abbrev pub counted : (ℕ → ℕ → ℕ) → (bound examined free_count : ℕ) → Option Buffer → ℕ
counted rest bound examined free_count none = free_count
counted rest bound examined free_count (some s) =
    let (examined', free_count') = count_sector 128 bound s 0 examined free_count in
    rest examined' free_count'

module _ {D : Type 0} (disk : Disk D) where
  unfoldable pub count_sectors : ℕ → Fs → (s examined free_count : ℕ) → D → ℕ
  unfolding count_sector
  count_sectors zero fs s examined free_count d = free_count
  count_sectors (suc left) fs s examined free_count d =
      let bound = add32 fs.cluster_count 2 in
      if ltb examined bound
      then counted (λ e f. count_sectors left fs (s + 1) e f d) bound examined free_count
          (disk.read (add32 fs.fat_lba s) d)
      else free_count

  unfoldable pub fat32_free_clusters : Fs → D → ℕ
  unfolding count_sectors
  fat32_free_clusters fs d = if fs.mounted then count_sectors fs.fat_sectors fs 0 0 0 d else 0
