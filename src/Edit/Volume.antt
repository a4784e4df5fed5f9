-- ===== src/Edit/Volume.antt =====
-- What the edit buffer uses of the FAT32 driver: the operations of fs/fat32.h that
-- fs/fat32_disk.c calls on `g_fs`, on a state `V` of the driver and the disk.
use jvmos_jit.Base.{ℕ, ◌≤◌, ◌≡◌, Bool, false, Option}
use jvmos_jit.Base.Word.{int_neg}

-- `fat32_entry`, as far as the edit buffer reads it.
pub record Entry : Type 0 where
  pub name : ℕ → ℕ
  pub is_dir : Bool

-- A call returns its result and the state it leaves. `read_file` takes the buffer and its size, and
-- returns the number of bytes read, negative if it failed, and the buffer.
pub record Volume (V : Type 0) : Type 0 where
  pub list : ℕ → V → Option Entry × V
  pub read_file : (name text : ℕ → ℕ) → (max : ℕ) → V → ℕ × (ℕ → ℕ) × V
  pub write_file : (name text : ℕ → ℕ) → (length : ℕ) → V → Bool × V
  pub delete_file : (name : ℕ → ℕ) → V → Bool × V

-- "Returns the number of bytes read, or -1": a file that is read fits the buffer.
abbrev pub ReadsFit : {V : Type 0} → Volume V → Type 0
ReadsFit {V = V} vol =
    (name text : ℕ → ℕ) (max : ℕ) (v : V)
    → int_neg (vol.read_file name text max v).0 ≡ false
    → (vol.read_file name text max v).0 ≤ max
