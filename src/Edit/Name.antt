-- ===== src/Edit/Name.antt =====
-- The name of the edit buffer in fs/fat32_disk.c: `name_clear`, `unpack_into`, `name_unpack` and
-- the name operations of `fs_edit`.
pub mod Bounds
use jvmos_jit.Base.{ℕ, zero, suc, ◌+◌, ◌-◌, Bool, true, false, ltb, leb, ◌==◌, if◌then◌else◌}
use jvmos_jit.Base.Word.{u8}
use jvmos_jit.Wasm.Module.{update}

abbrev pub fs_name_max : ℕ
fs_name_max = 12

abbrev pub space : ℕ
space = 0x20

abbrev pub dot : ℕ
dot = 0x2E

-- `g_name` and `g_name_len`.
pub record Name : Type 0 where
  pub char : ℕ → ℕ
  pub len : ℕ

-- `for (i = 0; i <= FS_NAME_MAX; i++) g_name[i] = 0;`, from `i` on.
unfoldable pub zero_chars : ℕ → (i : ℕ) → (ℕ → ℕ) → ℕ → ℕ
zero_chars zero i name = name
zero_chars (suc n) i name = zero_chars n (i + 1) (update name i 0)

unfoldable pub name_clear : Name → Name
unfolding zero_chars
name_clear name = record { char = zero_chars (fs_name_max + 1) 0 name.char; len = 0 }

-- `for (end = lo + n; end > lo && packed[end - 1] == ' '; end--)`
unfoldable pub trim : (n lo : ℕ) → (ℕ → ℕ) → ℕ
trim zero lo packed = lo
trim (suc n) lo packed =
    let rest = trim n lo packed in if packed (lo + n) == space then rest else lo + suc n

-- `for (i = from; i < end; i++) out[n++] = packed[i];`
unfoldable pub copy_chars : ℕ → (from to : ℕ) → (packed out : ℕ → ℕ) → ℕ → ℕ
copy_chars zero from to packed out = out
copy_chars (suc n) from to packed out =
    copy_chars n (from + 1) (to + 1) packed (update out to (packed from))

-- The name behind the dot, if there is one: the length, and the destination.
abbrev pub unpack_extension : (end : ℕ) → (packed : ℕ → ℕ) → (n : ℕ) → (out : ℕ → ℕ) → ℕ × (ℕ → ℕ)
unpack_extension end packed n out =
    if ltb 8 end
    then (n + 1 + (end - 8), copy_chars (end - 8) 8 (n + 1) packed (update out n dot))
    else (n, out)

unfoldable pub unpack_into : (packed out : ℕ → ℕ) → ℕ × (ℕ → ℕ)
unfolding trim copy_chars
unpack_into packed out =
    let base = trim 8 0 packed in
    let (n, out') =
      unpack_extension (trim 3 8 packed) packed base (copy_chars base 0 0 packed out) in
    (n, update out' n 0)

unfoldable pub name_unpack : (packed : ℕ → ℕ) → Name → Name
unfolding name_clear unpack_into
name_unpack packed name =
    let (n, out) = unpack_into packed (name_clear name).char in record { char = out; len = n }

unfoldable pub name_push : ℕ → Name → Bool × Name
name_push c name = if leb fs_name_max name.len then (false, name) else (
  true,
  record { char = update (update name.char name.len (u8 c)) (name.len + 1) 0; len = name.len + 1 },
)

unfoldable pub name_pop : Name → Bool × Name
name_pop name =
    if name.len == 0
    then (false, name)
    else (true, record { char = update name.char (name.len - 1) 0; len = name.len - 1 })
