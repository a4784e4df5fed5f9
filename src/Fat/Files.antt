-- ===== src/Fat/Files.antt =====
-- Files in fs/fat32.c: `fat32_read_file`, `fat32_write_file` and `fat32_delete_file`.
pub mod Bounds
pub mod Chain
pub mod Places
pub mod Written
pub mod Links
pub mod Room
pub mod Added
pub mod RoundTrip
use jvmos_jit.Base.{
  ℕ, zero, suc, ◌+◌, ◌-◌, ◌*◌, ◌/◌, ◌%◌, ◌^◌, Bool, true, false, not, ◌&&◌, Option, none, some,
  bit_and, ltb, leb, ◌==◌, if◌then◌else◌,
}
use jvmos_jit.Base.Word.{u8, u16, u32, add32}
use jvmos_jit.Wasm.Module.{update}
use jvmos_jit.Fat.Bytes.{Buffer, put16, put32, get32, zeros, copy}
use jvmos_jit.Fat.Names.{fat_name_len, fat32_pack_name}
use jvmos_jit.Fat.Disk.{
  Disk, Ended, ok, failed, Io, pure, and_then, ◌>>=◌, ◌>>◌, get, give_up, fail_if, ignore, left_by,
  read_sector, write_sector,
}
use jvmos_jit.Fat.Table.{
  Fs, fat_sector_size, cluster_lba, fat_entry_get, fat_entry_set, alloc_cluster, free_chain,
  in_chain,
}
use jvmos_jit.Fat.Directory.{
  Slot, first_cluster, root_slot_read, find_entry, free_slot_from, all_slots,
}

-- `guard` of the loops along a chain.
abbrev pub longest_chain : ℕ
longest_chain = 0x100000

-- A read in progress; `broken` once it has returned -1.
pub record Reading : Type 0 where
  pub buffer : Buffer
  pub done : ℕ
  pub remaining : ℕ
  pub broken : Bool

abbrev pub smaller : ℕ → ℕ → ℕ
smaller a b = if ltb a b then a else b

abbrev pub break : Reading → Reading
break r = record r { broken = true }

-- The sector that was read goes behind what is done.
unfoldable pub take_sector : Option Buffer → Reading → Reading
unfolding copy
take_sector none r = break r
take_sector (some s) r =
    let take = smaller r.remaining fat_sector_size in
    record r {
      buffer = copy take r.done 0 r.buffer s;
      done = r.done + take;
      remaining = r.remaining - take;
    }

-- The number of bytes, or -1, and the buffer.
abbrev pub result_of : Reading → ℕ × Buffer
result_of r = (if r.broken then 2 ^ 32 - 1 else r.done, r.buffer)

abbrev pub or_fail : {D A : Type 0} → D → Option A → Ended D A
or_fail d none = failed d
or_fail d (some a) = ok a d

-- The 32 bytes of a file's slot.
unfoldable pub file_slot : (packed : ℕ → ℕ) → (first length : ℕ) → Buffer
unfolding put16 put32
file_slot packed first length =
    let named : Buffer = λ i. if ltb i fat_name_len then packed i else 0 in
    let archive = update named 11 0x20 in
    put32 (put16 (put16 archive 20 (first / 2 ^ 16)) 26 (u16 first)) 28 length

module _ {D : Type 0} (disk : Disk D) where
  -- The sectors of a cluster from `s` on.
  unfoldable pub read_cluster : ℕ → Fs → (cluster s : ℕ) → D → Reading → Reading
  unfolding take_sector cluster_lba
  read_cluster zero fs cluster s d r = r
  read_cluster (suc left) fs cluster s d r =
      let taken = take_sector (disk.read (u32 (cluster_lba fs cluster + s)) d) r in
      let rest = read_cluster left fs cluster (s + 1) d taken in
      if r.remaining == 0 then r else if taken.broken then taken else rest

  -- The chain from a cluster on, with the clusters that `guard` leaves first.
  unfoldable pub read_chain : ℕ → Fs → (cluster : ℕ) → D → Reading → Reading
  unfolding read_cluster fat_entry_get
  read_chain zero fs cluster d r =
      let taken = read_cluster fs.sectors_per_cluster fs cluster 0 d r in
      if not (r.remaining == 0) && in_chain cluster then break taken else r
  read_chain (suc left) fs cluster d r =
      let taken = read_cluster fs.sectors_per_cluster fs cluster 0 d r in
      let rest = read_chain left fs (fat_entry_get disk fs cluster d) d taken in
      if not (r.remaining == 0) && in_chain cluster
      then (if taken.broken then taken else rest)
      else r

  abbrev pub read_found : Fs → (buffer : Buffer) → (max : ℕ) → D → Option (ℕ × Slot) → ℕ × Buffer
  read_found fs buffer max d none = (2 ^ 32 - 1, buffer)
  read_found fs buffer max d (some (n, slot)) = result_of (
      read_chain longest_chain fs (first_cluster slot.raw) d (record {
        buffer = buffer;
        done = 0;
        remaining = smaller max (get32 slot.raw 28);
        broken = false;
      }))

  unfoldable pub fat32_read_file :
      (size : ℕ) → Fs → (name : ℕ → ℕ) → (buffer : Buffer) → (max : ℕ) → D → ℕ × Buffer
  unfolding fat32_pack_name find_entry read_chain
  fat32_read_file size fs name buffer max d =
      if fs.mounted
      then read_found fs buffer max d (find_entry disk fs (fat32_pack_name size name) d)
      else (2 ^ 32 - 1, buffer)

  -- The sectors of a new cluster from `s` on, with the bytes of the file from `written` on; it
  -- leaves the number of bytes that are written then.
  unfoldable pub write_cluster :
      ℕ → Fs → (cluster s : ℕ) → (text : Buffer) → (length written : ℕ) → Io D ℕ
  unfolding write_sector cluster_lba copy
  write_cluster zero fs cluster s text length written = pure written
  write_cluster (suc left) fs cluster s text length written =
      let take = smaller (length - written) fat_sector_size in
      let rest = write_cluster left fs cluster (s + 1) text length (written + take) in
      do
        write_sector disk (u32 (cluster_lba fs cluster + s)) (copy take 0 written zeros text)
        (if leb length (written + take) then pure (written + take) else rest)

  -- `if (prev != 0) fat_entry_set(fs, prev, cluster);`
  abbrev pub link : Fs → (prev cluster : ℕ) → Io D (Unit {0})
  link fs prev cluster = if prev == 0 then pure tt else ignore (fat_entry_set disk fs prev cluster)

  -- The loop over the clusters: it leaves the first one, or 0 if there is none. A round writes a
  -- byte at least, so as many rounds as there are bytes are enough.
  unfoldable pub write_chain : ℕ → Fs → (text : Buffer) → (length written first prev : ℕ) → Io D ℕ
  unfolding alloc_cluster fat_entry_set write_cluster
  write_chain zero fs text length written first prev = pure first
  write_chain (suc left) fs text length written first prev =
      let more = (do
        cluster ← alloc_cluster disk fs
        link fs prev cluster
        written' ← write_cluster fs.sectors_per_cluster fs cluster 0 text length written
        write_chain left fs text length written' (if first == 0 then cluster else first) cluster) in
      if leb length written then pure first else more

  -- `if (first >= 2) free_chain(fs, first);`
  abbrev pub release : Fs → ℕ → D → D
  release fs first d = if leb 2 first then free_chain disk longest_chain fs first d else d

  -- The slot for the file: its own, whose chain is freed, or the first one that is free.
  abbrev pub own_slot : Fs → D → Option (ℕ × Slot) → Ended D ℕ
  own_slot fs d none = or_fail d (free_slot_from disk (all_slots fs) fs 0 d)
  own_slot fs d (some (n, slot)) = ok n (release fs (first_cluster slot.raw) d)

  -- The sector at `lba` with 32 bytes, or with one, replaced at `off`.
  unfoldable pub write_slot : (lba off : ℕ) → Buffer → Io D (Unit {0})
  unfolding read_sector write_sector copy
  write_slot lba off raw = do s ← read_sector disk lba; write_sector disk lba (copy 32 off 0 s raw)

  unfoldable pub fat32_write_file :
      (size : ℕ) → Fs → (name : ℕ → ℕ) → (text : Buffer) → (length : ℕ) → Io D (Unit {0})
  unfolding fat32_pack_name find_entry free_slot_from free_chain write_chain root_slot_read
      file_slot write_slot
  fat32_write_file size fs name text length = do
    fail_if (not fs.mounted)
    let packed = fat32_pack_name size name
    n ← (λ e. own_slot fs e (find_entry disk fs packed e))
    first ← write_chain length fs text length 0 0 0
    slot ← (λ e. or_fail e (root_slot_read disk fs n e))
    write_slot slot.lba slot.off (file_slot packed first length)

  unfoldable pub fat32_delete_file : (size : ℕ) → Fs → (name : ℕ → ℕ) → Io D (Unit {0})
  unfolding fat32_pack_name find_entry free_chain root_slot_read read_sector write_sector
  fat32_delete_file size fs name = do
    fail_if (not fs.mounted)
    (n, found) ← (λ d. or_fail d (find_entry disk fs (fat32_pack_name size name) d))
    (λ d. ok tt (release fs (first_cluster found.raw) d))
    slot ← (λ d. or_fail d (root_slot_read disk fs n d))
    s ← read_sector disk slot.lba
    write_sector disk slot.lba (update s slot.off 0xE5)
