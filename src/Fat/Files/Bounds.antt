-- ===== src/Fat/Files/Bounds.antt =====
-- A read of fs/fat32.c stays inside the buffer that it is given.
use jvmos_jit.Base.{
  ℕ, zero, suc, ◌+◌, ◌≤◌, ◌≡◌, ◌⊎◌, refl, ◌∙◌, Bool, true, false, not, ◌&&◌, Bool-cases, inl, inr,
  Option, none, some, arith, ◌==◌, if◌then◌else◌,
}
use jvmos_jit.Base.Word.{u32, int_neg}
use jvmos_jit.Fat.Bytes.{Buffer}
use jvmos_jit.Fat.Bytes.RoundTrip.{copy_lem}
use jvmos_jit.Fat.Names.{fat32_pack_name}
use jvmos_jit.Fat.Disk.{Disk}
use jvmos_jit.Fat.Table.{Fs, fat_sector_size, cluster_lba, fat_entry_get, in_chain}
use jvmos_jit.Fat.Directory.{Slot, first_cluster, find_entry}
use jvmos_jit.Fat.Files.{
  Reading, longest_chain, smaller, break, take_sector, read_cluster, read_chain, result_of,
  read_found, fat32_read_file,
}

-- What is done and what remains stay within `max` bytes, and so does what was written.
record Sane (max : ℕ) (old : Buffer) (r : Reading) : Type 0 where
  room : r.done + r.remaining ≤ max
  spared : (i : ℕ) → max ≤ i → r.buffer i ≡ old i

module _ (max : ℕ) (old : Buffer) where
  break-Sane : (r : Reading) → Sane max old r → Sane max old (break r)
  break-Sane r h = record { room = h.room; spared = h.spared }

  take_sector-Sane :
      (found : Option Buffer) (r : Reading) → Sane max old r → Sane max old (take_sector found r)
  unfolding take_sector
  take_sector-Sane none r h = break-Sane r h
  take_sector-Sane (some s) r h =
      let take = smaller r.remaining fat_sector_size in
      let within = h.room in
      record {
        room = ground (arith, within);
        spared = λ i p.
            copy_lem take r.done 0 r.buffer s i
            ∙ (let old_byte = h.spared i p in ground (arith, within, p, old_byte));
      }

  Sane-if :
      (b : Bool) (r s : Reading)
      → Sane max old r
      → Sane max old s
      → Sane max old (if b then r else s)
  Sane-if true r s h k = h
  Sane-if false r s h k = k

  module _ {D : Type 0} (disk : Disk D) where
    read_cluster-Sane :
        (left : ℕ) (fs : Fs) (cluster s : ℕ) (d : D) (r : Reading)
        → Sane max old r
        → Sane max old (read_cluster disk left fs cluster s d r)
    unfolding read_cluster
    read_cluster-Sane zero fs cluster s d r h = h
    read_cluster-Sane (suc left) fs cluster s d r h =
        let sector = disk.read (u32 (cluster_lba fs cluster + s)) d in
        let taken = take_sector-Sane sector r h in
        Sane-if (r.remaining == 0) r _ h (
          Sane-if (take_sector sector r).broken (take_sector sector r) _ taken
            (read_cluster-Sane left fs cluster (s + 1) d (take_sector sector r) taken))

    read_chain-Sane :
        (left : ℕ) (fs : Fs) (cluster : ℕ) (d : D) (r : Reading)
        → Sane max old r
        → Sane max old (read_chain disk left fs cluster d r)
    unfolding read_chain
    read_chain-Sane zero fs cluster d r h =
        let taken = read_cluster-Sane fs.sectors_per_cluster fs cluster 0 d r h in
        Sane-if (not (r.remaining == 0) && in_chain cluster) _ r (break-Sane _ taken) h
    read_chain-Sane (suc left) fs cluster d r h =
        let after = read_cluster disk fs.sectors_per_cluster fs cluster 0 d r in
        let taken = read_cluster-Sane fs.sectors_per_cluster fs cluster 0 d r h in
        Sane-if (not (r.remaining == 0) && in_chain cluster) _ r
          (Sane-if after.broken after _ taken
            (read_chain-Sane left fs (fat_entry_get disk fs cluster d) d after taken))
          h

-- A result that is negative, or at most `max`, and a buffer that is as it was from `max` on.
abbrev pub StaysWithin : (max : ℕ) → Buffer → ℕ × Buffer → Type 0
StaysWithin max old (n, buffer) =
    ((int_neg n ≡ true) ⊎ (n ≤ max)) × ((i : ℕ) → max ≤ i → buffer i ≡ old i)

result_of-StaysWithin :
    (max : ℕ) (old : Buffer) (r : Reading) → Sane max old r → StaysWithin max old (result_of r)
result_of-StaysWithin max old r h = elim (Bool-cases r.broken) [
  | inl broken ↦ rw broken (inl refl, h.spared)
  | inr whole ↦ rw whole (inr (omega (arith, h.room)), h.spared)
]

StaysWithin-if :
    (max : ℕ) (old : Buffer) (b : Bool) (x y : ℕ × Buffer)
    → StaysWithin max old x
    → StaysWithin max old y
    → StaysWithin max old (if b then x else y)
StaysWithin-if max old true x y h k = h
StaysWithin-if max old false x y h k = k

module _ {D : Type 0} (disk : Disk D) where
  read_found-StaysWithin :
      (fs : Fs) (buffer : Buffer) (max : ℕ) (d : D) (found : Option (ℕ × Slot))
      → StaysWithin max buffer (read_found disk fs buffer max d found)
  read_found-StaysWithin fs buffer max d none = (inl refl, λ i p. refl)
  read_found-StaysWithin fs buffer max d (some (n, slot)) = result_of-StaysWithin max buffer _ (
      read_chain-Sane max buffer disk longest_chain fs (first_cluster slot.raw) d _
        (record { room = ground arith; spared = λ i p. refl }))

  -- Whatever is on the disk, a read returns -1 or another negative number, or at most the size of
  -- the buffer that it is given; and it changes no byte behind that buffer, also where it fails.
  pub fat32_read_file-StaysWithin :
      (size : ℕ) (fs : Fs) (name : ℕ → ℕ) (buffer : Buffer) (max : ℕ) (d : D)
      → StaysWithin max buffer (fat32_read_file disk size fs name buffer max d)
  unfolding fat32_read_file
  fat32_read_file-StaysWithin size fs name buffer max d =
      StaysWithin-if max buffer fs.mounted _ _
        (read_found-StaysWithin fs buffer max d (find_entry disk fs (fat32_pack_name size name) d))
        (inl refl, λ i p. refl)
