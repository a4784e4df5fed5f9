-- ===== src/Fat/Disk.antt =====
-- What fs/fat32.c needs of its platform, `fat_read_sector` and `fat_write_sector`, on a state `D` of
-- the disk, and the ways in which the driver's functions end.
pub mod Rules
use jvmos_jit.Base.{ℕ, ◌≡◌, ◌≢◌, Bool, true, false, Option, none, some, if◌then◌else◌}
use jvmos_jit.Fat.Bytes.{Buffer}

-- A read gives the sector, or nothing if it fails; a write says whether it succeeded.
pub record Disk (D : Type 0) : Type 0 where
  pub read : ℕ → D → Option Buffer
  pub write : ℕ → Buffer → D → Bool × D

-- A sector that was written is read back, and no write changes another sector.
pub record IsDisk {D : Type 0} (disk : Disk D) : Type 0 where
  pub read_written :
      (l : ℕ) (s : Buffer) (d : D)
      → (disk.write l s d).0 ≡ true
      → disk.read l (disk.write l s d).1 ≡ some s
  pub read_other :
      (k l : ℕ) (s : Buffer) (d : D) → k ≢ l → disk.read k (disk.write l s d).1 ≡ disk.read k d

-- `return 0` and any other return.
pub data Ended (D A : Type 0) : Type 0 where
  ok : A → D → Ended D A
  failed : D → Ended D A

abbrev pub Io : Type 0 → Type 0 → Type 0
Io D A = D → Ended D A

module _ {D : Type 0} where
  abbrev pub pure : {A : Type 0} → A → Io D A
  pure a = ok a

  abbrev pub and_then : {A B : Type 0} → Ended D A → (A → Io D B) → Ended D B
  and_then (ok a d) k = k a d
  and_then (failed d) k = failed d

  infixl 5 ◌>>=◌ ◌>>◌
  abbrev pub ◌>>=◌ : {A B : Type 0} → Io D A → (A → Io D B) → Io D B
  c >>= k = λ d. and_then (c d) k

  abbrev pub ◌>>◌ : {B : Type 0} → Io D (Unit {0}) → Io D B → Io D B
  c >> e = c >>= λ _. e

  abbrev pub get : Io D D
  get d = ok d d

  abbrev pub give_up : {A : Type 0} → Io D A
  give_up = failed

  abbrev pub fail_if : Bool → Io D (Unit {0})
  fail_if b d = if b then failed d else ok tt d

  -- A call whose result is not looked at.
  abbrev pub regardless : {A : Type 0} → Ended D A → Ended D (Unit {0})
  regardless (ok a d) = ok tt d
  regardless (failed d) = ok tt d

  abbrev pub ignore : {A : Type 0} → Io D A → Io D (Unit {0})
  ignore c d = regardless (c d)

  -- The disk behind a call.
  abbrev pub left_by : {A : Type 0} → Ended D A → D
  left_by (ok a d) = d
  left_by (failed d) = d

  abbrev pub from_read : Option Buffer → Io D Buffer
  from_read none d = failed d
  from_read (some s) d = ok s d

  abbrev pub from_write : Bool × D → Ended D (Unit {0})
  from_write (true, d) = ok tt d
  from_write (false, d) = failed d

  module _ (disk : Disk D) where
    unfoldable pub read_sector : ℕ → Io D Buffer
    read_sector lba d = from_read (disk.read lba d) d

    unfoldable pub write_sector : ℕ → Buffer → Io D (Unit {0})
    write_sector lba s d = from_write (disk.write lba s d)
