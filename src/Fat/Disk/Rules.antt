-- ===== src/Fat/Disk/Rules.antt =====
-- How a fact about one sector is carried through a chain of calls of fs/fat32.c: `Spared`, that it
-- is as it was however the calls end, and `Ensures`, what holds if they succeed.
use jvmos_jit.Base.{
  arith, ℕ, ◌≡◌, ◌≢◌, refl, ◌∙◌, Bool, true, false, Option, none, some, if◌then◌else◌,
}
use jvmos_jit.Fat.Bytes.{Buffer}
use jvmos_jit.Fat.Disk.{
  Disk, IsDisk, Ended, ok, failed, Io, and_then, fail_if, regardless, ignore, left_by, from_read,
  from_write, read_sector, write_sector,
}

-- What holds of a result and the disk behind it, unless the call has failed.
abbrev pub Ensures : {D A : Type 0} → (A → D → Type 0) → Ended D A → Type 0
Ensures P (ok a d) = P a d
Ensures P (failed d) = Unit

pub Ensures-then :
    {D A B : Type 0} (Q : A → D → Type 0) (P : B → D → Type 0) (o : Ended D A) (c : A → Io D B)
    → Ensures Q o
    → ((a : A) (d : D) → Q a d → Ensures P (c a d))
    → Ensures P (and_then o c)
Ensures-then Q P (ok a d) c h k = k a d h
Ensures-then Q P (failed d) c h k = tt

pub Ensures-if :
    {D A : Type 0} (P : A → D → Type 0) (b : Bool) (x y : Ended D A)
    → (b ≡ true → Ensures P x)
    → (b ≡ false → Ensures P y)
    → Ensures P (if b then x else y)
Ensures-if P true x y h k = h refl
Ensures-if P false x y h k = k refl

module _ {D : Type 0} (disk : Disk D) (k : ℕ) where
  pub record Spared {A : Type 0} (d : D) (o : Ended D A) : Type 0 where
    pub same : disk.read k (left_by o) ≡ disk.read k d

  -- A call that leaves the sector as it was, whatever the disk.
  abbrev pub Sparing : {A : Type 0} → Io D A → Type 0
  Sparing c = (d : D) → Spared d (c d)

  pub Spared-then :
      {A B : Type 0} (d : D) (o : Ended D A) (c : A → Io D B)
      → Spared d o
      → ((a : A) → Sparing (c a))
      → Spared d (and_then o c)
  Spared-then d (ok a e) c h follow = record { same = (follow a e).same ∙ h.same }
  Spared-then d (failed e) c h follow = record { same = h.same }

  pub Spared-if :
      {A : Type 0} (d : D) (b : Bool) (x y : Ended D A)
      → (b ≡ true → Spared d x)
      → (b ≡ false → Spared d y)
      → Spared d (if b then x else y)
  Spared-if d true x y h g = h refl
  Spared-if d false x y h g = g refl

  pub fail_if-Sparing : (b : Bool) → Sparing (fail_if {D = D} b)
  fail_if-Sparing true d = record { same = refl }
  fail_if-Sparing false d = record { same = refl }

  pub Spared-id : {A : Type 0} (d : D) (a : A) → Spared d (ok a d)
  Spared-id d a = record { same = refl }

  regardless-Spared : {A : Type 0} (d : D) (o : Ended D A) → Spared d o → Spared d (regardless o)
  regardless-Spared d (ok a e) h = record { same = h.same }
  regardless-Spared d (failed e) h = record { same = h.same }

  pub ignore-Sparing : {A : Type 0} (c : Io D A) → Sparing c → Sparing (ignore c)
  ignore-Sparing c h d = regardless-Spared d (c d) (h d)

  pub read_sector-Sparing : (lba : ℕ) → Sparing (read_sector disk lba)
  unfolding read_sector
  read_sector-Sparing lba d = found_case (disk.read lba d)
    where
      found_case : (found : Option Buffer) → Spared d (from_read found d)
      found_case none = record { same = refl }
      found_case (some s) = record { same = refl }

  pub write_sector-Sparing :
      (laws : IsDisk disk) (lba : ℕ) (s : Buffer) → k ≢ lba → Sparing (write_sector disk lba s)
  unfolding write_sector
  write_sector-Sparing laws lba s apart d =
      written_case (disk.write lba s d) (laws.read_other k lba s d apart)
    where
      written_case : (w : Bool × D) → disk.read k w.1 ≡ disk.read k d → Spared d (from_write w)
      written_case (true, e) h = record { same = h }
      written_case (false, e) h = record { same = h }

-- A sector that was written holds what was written.
pub write_sector-Ensures :
    {D : Type 0} (disk : Disk D) (laws : IsDisk disk) (lba : ℕ) (s : Buffer) (d : D)
    → Ensures (λ u e. disk.read lba e ≡ some s) (write_sector disk lba s d)
unfolding write_sector
write_sector-Ensures {D} disk laws lba s d =
    written_case (disk.write lba s d) (laws.read_written lba s d)
  where
    written_case :
        (w : Bool × D)
        → (w.0 ≡ true → disk.read lba w.1 ≡ some s)
        → Ensures (λ u e. disk.read lba e ≡ some s) (from_write w)
    written_case (true, e) h = h refl
    written_case (false, e) h = tt

-- What holds of every later disk that spares a sector.
pub Ensures-Spared :
    {D A : Type 0} (disk : Disk D) (k : ℕ) (d : D) (o : Ended D A)
    → Spared disk k d o
    → Ensures (λ a e. disk.read k e ≡ disk.read k d) o
Ensures-Spared disk k d (ok a e) h = h.same
Ensures-Spared disk k d (failed e) h = tt

pub Ensures-weaken :
    {D A : Type 0} (Q P : A → D → Type 0) (o : Ended D A)
    → Ensures Q o
    → ((a : A) (d : D) → Q a d → P a d)
    → Ensures P o
Ensures-weaken Q P (ok a d) h f = f a d h
Ensures-weaken Q P (failed d) h f = tt

pub Ensures-and :
    {D A : Type 0} (P Q : A → D → Type 0) (o : Ended D A)
    → Ensures P o
    → Ensures Q o
    → Ensures (λ a d. P a d × Q a d) o
Ensures-and P Q (ok a d) h k = (h, k)
Ensures-and P Q (failed d) h k = tt

pub Ensures-all :
    {D A X : Type 0} (P : X → A → D → Type 0) (o : Ended D A)
    → ((x : X) → Ensures (P x) o)
    → Ensures (λ a d. (x : X) → P x a d) o
Ensures-all P (ok a d) h = h
Ensures-all P (failed d) h = tt

-- A call that does not fail.
abbrev pub Succeeds : {D A : Type 0} → Ended D A → Type 0
Succeeds (ok a d) = Unit
Succeeds (failed d) = ⊥

pub Succeeds-then :
    {D A B : Type 0} (o : Ended D A) (c : A → Io D B)
    → Succeeds o
    → ((a : A) (d : D) → Succeeds (c a d))
    → Succeeds (and_then o c)
Succeeds-then (ok a d) c h k = k a d
Succeeds-then (failed d) c h k = elim h [ ]

pub ignore-Ensures :
    {D A : Type 0} (P : D → Type 0) (o : Ended D A)
    → Succeeds o
    → Ensures (λ a d. P d) o
    → Ensures (λ u d. P d) (regardless o)
ignore-Ensures P (ok a d) s h = h
ignore-Ensures P (failed d) s h = elim s [ ]

-- A disk on which every call succeeds.
pub record IsReliable {D : Type 0} (disk : Disk D) : Type 0 where
  pub reads : (l : ℕ) (d : D) → (s : Buffer) × (disk.read l d ≡ some s)
  pub writes : (l : ℕ) (s : Buffer) (d : D) → (disk.write l s d).0 ≡ true

pub read_sector-Succeeds :
    {D : Type 0} (disk : Disk D)
    → IsReliable disk
    → (l : ℕ) (d : D) → Succeeds (read_sector disk l d)
unfolding read_sector
read_sector-Succeeds disk good l d = let (s, found) = good.reads l d in rw found tt

pub write_sector-Succeeds :
    {D : Type 0} (disk : Disk D)
    → IsReliable disk
    → (l : ℕ) (s : Buffer) (d : D) → Succeeds (write_sector disk l s d)
unfolding write_sector
write_sector-Succeeds {D} disk good l s d = written_case (disk.write l s d) (good.writes l s d)
  where
    written_case : (w : Bool × D) → w.0 ≡ true → Succeeds (from_write w)
    written_case (true, e) h = tt
    written_case (false, e) h = bad h
      where
        bad : false ≡ true → ⊥
        bad e = ground (arith, e)
