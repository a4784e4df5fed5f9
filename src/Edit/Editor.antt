-- ===== src/Edit/Editor.antt =====
-- `fs_edit` of fs/fat32_disk.c, the one entry point of the edit buffer, with `text_open`,
-- `text_save` and `text_remove`.
pub mod Invariant
pub mod Files
use jvmos_jit.Base.{
  ℕ, ◌-◌, ◌^◌, Bool, true, false, ◌||◌, Option, none, some, ltb, leb, ◌==◌, if◌then◌else◌,
}
use jvmos_jit.Base.Word.{int_neg}
use jvmos_jit.Edit.Text.{Text, fs_text_max, text_insert, text_delete, line_of, line_start, line_end}
use jvmos_jit.Edit.Name.{Name, name_clear, name_unpack, name_push, name_pop}
use jvmos_jit.Edit.Volume.{Entry, Volume}

abbrev pub fs_mounted : ℕ
fs_mounted = 1

abbrev pub fs_formatted : ℕ
fs_formatted = 2

-- The state of the file: the text, the name, `g_status`, and the driver's.
pub record Editor (V : Type 0) : Type 0 where
  pub text : Text
  pub name : Name
  pub status : ℕ
  pub volume : V

-- The results -1 and 1 or 0.
abbrev minus_one : ℕ
minus_one = 2 ^ 32 - 1

abbrev from_bool : Bool → ℕ
from_bool b = if b then 1 else 0

-- `g_status == FS_MOUNTED || g_status == FS_FORMATTED`
abbrev pub is_ready : ℕ → Bool
is_ready status = status == fs_mounted || status == fs_formatted

module _ {V : Type 0} (vol : Volume V) where
  -- `text_open` behind the listing.
  unfoldable pub open_entry : Entry → Editor V → ℕ × Editor V
  unfolding name_unpack
  open_entry e s =
      let name = name_unpack e.name s.name in
      let (n, text, v) = vol.read_file name.char s.text.byte fs_text_max s.volume in
      if e.is_dir
      then (minus_one, s)
      else if int_neg n
      then (minus_one, record s { text = record (s.text) { byte = text }; name = name; volume = v })
      else (
        n,
        record s { text = record { byte = text; len = n; dirty = false }; name = name; volume = v },
      )

  abbrev pub open_listed : Option Entry → Editor V → ℕ × Editor V
  open_listed none s = (minus_one, s)
  open_listed (some e) s = open_entry e s

  unfoldable pub text_open : ℕ → Editor V → ℕ × Editor V
  unfolding open_entry
  text_open index s =
      let (found, v) = vol.list index s.volume in open_listed found (record s { volume = v })

  unfoldable pub text_save : Editor V → ℕ × Editor V
  text_save s =
      let (done, v) = vol.write_file s.name.char s.text.byte s.text.len s.volume in
      if s.name.len == 0
      then (0, s)
      else if is_ready s.status
      then (if done
          then (1, record s { text = record (s.text) { dirty = false }; volume = v })
          else (0, record s { volume = v }))
      else (0, s)

  unfoldable pub remove_entry : Entry → Editor V → ℕ × Editor V
  unfolding name_unpack
  remove_entry e s =
      let name = name_unpack e.name s.name in
      let (done, v) = vol.delete_file name.char s.volume in
      if e.is_dir then (0, s) else (from_bool done, record s { name = name; volume = v })

  abbrev pub remove_listed : Option Entry → Editor V → ℕ × Editor V
  remove_listed none s = (0, s)
  remove_listed (some e) s = remove_entry e s

  unfoldable pub text_remove : ℕ → Editor V → ℕ × Editor V
  unfolding remove_entry
  text_remove index s =
      let (found, v) = vol.list index s.volume in remove_listed found (record s { volume = v })

  abbrev with_text : Bool × Text → Editor V → ℕ × Editor V
  with_text (done, text) s = (from_bool done, record s { text = text })

  abbrev with_name : Bool × Name → Editor V → ℕ × Editor V
  with_name (done, name) s = (from_bool done, record s { name = name })

  -- The operation codes are those of fs/fsedit.h.
  unfoldable pub fs_edit : (op a b : ℕ) → Editor V → ℕ × Editor V
  unfolding text_insert text_delete text_open text_save text_remove name_clear name_push name_pop
      line_of line_start line_end
  fs_edit op a b s =
      if op == 0
      then (fs_text_max, s)
      else if op == 1
      then (s.text.len, s)
      else if op == 2
      then ((if int_neg a || leb s.text.len a then minus_one else s.text.byte a), s)
      else if op == 3
      then with_text (text_insert a b s.text) s
      else if op == 4
      then with_text (text_delete a s.text) s
      else if op == 5
      then (
        1,
        record s { text = record (s.text) { len = 0; dirty = false }; name = name_clear s.name },
      )
      else if op == 6
      then text_open a s
      else if op == 7
      then text_save s
      else if op == 8
      then (s.name.len, s)
      else if op == 9
      then ((if int_neg a || leb s.name.len a then minus_one else s.name.char a), s)
      else if op == 10
      then (1, record s { name = name_clear s.name })
      else if op == 11
      then with_name (name_push a s.name) s
      else if op == 12
      then with_name (name_pop s.name) s
      else if op == 13
      then text_remove a s
      else if op == 14
      then (from_bool s.text.dirty, s)
      else if op == 15
      then (line_of a s.text, s)
      else if op == 16
      then (line_start a s.text, s)
      else if op == 17
      then (line_end a s.text, s)
      else (0, s)
