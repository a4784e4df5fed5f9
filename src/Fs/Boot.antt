-- ===== src/Fs/Boot.antt =====
-- What the mount at boot does to a disk that carries a partition of another system.
use jvmos_jit.Base.{
  ℕ, zero, suc, ◌+◌, ◌*◌, ◌≤◌, ◌<◌, ◌≡◌, ◌≢◌, refl, sym, ap, ◌∙◌, true, false, Bool-cases, inl, inr,
  ◌⊎◌, some, arith, ◌==◌, if-cases,
}
use jvmos_jit.Fat.Bytes.{Buffer}
use jvmos_jit.Fat.Disk.{Disk, Ended, ok, failed}
use jvmos_jit.Fat.Disk.Rules.{Spared}
use jvmos_jit.Fat.Table.{Fs}
use jvmos_jit.Fat.Format.{unsigned_sector, fat32_mount}
use jvmos_jit.Fat.Format.Area.{fat32_mount-Sparing}
use jvmos_jit.Fs.{
  FsState, is_none, fs_mounted, fs_foreign, is_ours, foreign_from, foreign_volume, with_mount,
  fs_init,
}

-- The type of an entry of the partition table.
abbrev type_at : Buffer → ℕ → ℕ
type_at s i = s (450 + i * 16)

foreign_from-other :
    (left i j : ℕ) (s : Buffer)
    → i ≤ j
    → j < i + left
    → is_ours (type_at s j) ≡ false
    → foreign_from left i s ≡ true
unfolding foreign_from
foreign_from-other zero i j s low high other = absurd (omega (arith, low, high))
foreign_from-other (suc left) i j s low high other =
    let place : 446 + i * 16 + 4 ≡ 450 + i * 16 = omega arith in
    elim (Bool-cases (is_ours (type_at s i))) [
      | inl ours ↦
          rw (place, ours)
            (foreign_from-other left (i + 1) j s (later i j low ours other) (omega (arith, high))
              other)
      | inr foreign ↦ rw (place, foreign) refl
    ]
  where
    clash : true ≡ false → ⊥
    clash e = ground (arith, e)

    later :
        (i j : ℕ) → i ≤ j → is_ours (type_at s i) ≡ true → is_ours (type_at s j) ≡ false → i + 1 ≤ j
    later i j low ours other = elim (Bool-cases (i == j)) [
      | inl e ↦
          let same : i ≡ j = ground (arith, e) in
          absurd (clash (sym ours ∙ ap (λ n. is_ours (type_at s n)) same ∙ other))
      | inr ne ↦ ground (arith, low, ne)
    ]

module _ {D : Type 0} (disk : Disk D) (program : Buffer) (program_len : ℕ) where
  -- The disk is as it was, and the volume is mounted or reported as foreign.
  abbrev pub LeftAlone : D → FsState D → Type 0
  LeftAlone d s =
      ((s.status ≡ fs_mounted) ⊎ (s.status ≡ fs_foreign))
      × ((k : ℕ) → disk.read k s.disk ≡ disk.read k d)

  with_mount-LeftAlone :
      (d : D) (o : Ended D Fs)
      → ((k : ℕ) → Spared disk k d o)
      → ((e : D) → disk.read 0 e ≡ disk.read 0 d → foreign_volume disk e ≡ true)
      → LeftAlone d (with_mount disk program program_len o)
  with_mount-LeftAlone d (ok fs e) same other = (inl refl, λ k. (same k).same)
  with_mount-LeftAlone d (failed e) same other =
      rw (other e (same 0).same) (inr refl, λ k. (same k).same)

  -- At boot, a disk whose first sector can be read, is signed and has an entry in its partition
  -- table that is neither empty nor of one of the two types of FAT32 is never formatted: every
  -- sector stays as it was, and the status is that of a mounted or of a foreign volume.
  pub fs_init-LeftAlone :
      (d : D) (s : Buffer) (i : ℕ)
      → disk.read 0 d ≡ some s
      → s 510 ≡ 0x55
      → s 511 ≡ 0xAA
      → i < 4
      → type_at s i ≢ 0
      → type_at s i ≢ 0x0B
      → type_at s i ≢ 0x0C
      → LeftAlone d (fs_init disk program program_len d)
  unfolding fs_init foreign_volume
  fs_init-LeftAlone d s i found low high small used plain lba =
      let other : is_ours (type_at s i) ≡ false = ground (arith, used, plain, lba) in
      let is_signed : unsigned_sector s ≡ false = rw (low, high) refl in
      if-cases (LeftAlone d) (is_none (disk.read 0 d)) _ _ (λ none. absurd (readable s found none))
        (λ _.
          with_mount-LeftAlone d (fat32_mount disk d) (λ k. fat32_mount-Sparing disk k d)
            (λ e same.
              rw (same ∙ found, is_signed) (foreign_from-other 4 0 i s (omega arith) small other)))
    where
      readable : (s : Buffer) → disk.read 0 d ≡ some s → is_none (disk.read 0 d) ≡ true → ⊥
      readable s found none = ground (arith, ap is_none found, none)
