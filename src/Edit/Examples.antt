-- ===== src/Edit/Examples.antt =====
-- The edit buffer on the two lines "ab" and "c", over a volume with one file.
use jvmos_jit.Base.{
  ℕ, inl, inr, ◌≢◌, List, [], ◌∷◌, ◌-◌, ◌^◌, ◌≤◌, ◌<◌, ◌≡◌, refl, true, false, some, arith, ◌==◌,
  ltb, if◌then◌else◌,
}
use jvmos_jit.Base.Word.{int_neg}
use jvmos_jit.Edit.Text.{Text, text_insert, text_delete}
use jvmos_jit.Edit.Text.Shift.{put_in, text_insert_lem, text_delete-insert}
use jvmos_jit.Edit.Name.{Name, name_unpack}
use jvmos_jit.Edit.Name.Bounds.{IsName}
use jvmos_jit.Edit.Volume.{Entry, Volume}
use jvmos_jit.Edit.Editor.{Editor, fs_edit}
use jvmos_jit.Edit.Editor.Invariant.{Fits}
use jvmos_jit.Edit.Driver.{fat_volume, driver_edit-Fits}
use jvmos_jit.Fat.Disk.{Disk}
use jvmos_jit.Fs.{no_volume}
use jvmos_jit.Wasm.Module.{update}
use jvmos_jit.Edit.Editor.Files.{Edit, AllEdits, after, Saved, save-names_last}

abbrev text : Text
text = record {
  byte = λ i. if i == 0 then 0x61 else if i == 1 then 0x62 else if i == 2 then 10 else 0x63;
  len = 4;
  dirty = false;
}

text_insert_lem_example :
    ((text_insert 1 0x7A text).0 ≡ true)
    × ((text_insert 1 0x7A text).1.len ≡ 5)
    × ((text_insert 1 0x7A text).1.dirty ≡ true)
    × ((i : ℕ) → i ≤ 4 → (text_insert 1 0x7A text).1.byte i ≡ put_in 1 0x7A text.byte i)
text_insert_lem_example = text_insert_lem 1 0x7A text (omega arith) (omega arith)

text_delete-insert_example :
    ((text_delete 1 (text_insert 1 0x7A text).1).1.len ≡ 4)
    × ((i : ℕ) → i < 4 → (text_delete 1 (text_insert 1 0x7A text).1).1.byte i ≡ text.byte i)
text_delete-insert_example = text_delete-insert 1 0x7A text (omega arith) (omega arith)

abbrev name : Name
name = record { char = λ i. if ltb i 1 then 0x41 else 0; len = 1 }

name-IsName : IsName name
name-IsName = record { short = omega arith; ended = refl }

-- "READMEXXTXT"
abbrev packed : ℕ → ℕ
packed i = if ltb i 8 then 0x52 else 0x54

abbrev entry : Entry
entry = record { name = packed; is_dir = false }

-- A volume whose only file has ten bytes, and cannot be read once `v` is not 0.
abbrev volume : Volume ℕ
volume = record {
  list = λ index v. (some entry, v);
  read_file = λ file buffer max v.
      (if v == 0 then (if ltb max 10 then max else 10) else 2 ^ 32 - 1, λ i. 0x61, v);
  write_file = λ file buffer length v. (true, v);
  delete_file = λ file v. (true, v);
}

volume_reads :
    (v max : ℕ)
    → int_neg (if v == 0 then (if ltb max 10 then max else 10) else 2 ^ 32 - 1) ≡ false
    → (if v == 0 then (if ltb max 10 then max else 10) else 2 ^ 32 - 1) ≤ max
volume_reads v max h = ground (arith, h)

abbrev editor : ℕ → Editor ℕ
editor v = record { text = text; name = name; status = 1; volume = v }

-- A letter typed, and the first one deleted.
abbrev edits : List Edit
edits = record { op = 3; a = 4; b = 0x7A } ∷ record { op = 4; a = 0; b = 0 } ∷ []

all_edits : AllEdits edits
all_edits = (inl (omega arith), (inl (omega arith), tt))

named : (name_unpack packed name).len ≢ 0
unfolding name_unpack
named = omega arith

save-names_last_example :
    Saved volume
      (name_unpack packed name)
      (fs_edit volume 13 0 0 (editor 0)).1.volume
      (after volume edits (fs_edit volume 13 0 0 (editor 0)).1)
      (fs_edit volume 7 0 0 (after volume edits (fs_edit volume 13 0 0 (editor 0)).1))
save-names_last_example =
    save-names_last volume 13 0 0 entry (editor 0) (inr refl) refl refl (inl refl) named edits 0 0
      all_edits

abbrev sectors : Disk (ℕ → ℕ → ℕ)
sectors = record { read = λ l d. some (d l); write = λ l s d. (true, update d l s) }

driver_edit-Fits_example :
    Fits
      (fs_edit
        (fat_volume sectors no_volume)
        6
        0
        0
        (record { text = text; name = name; status = 1; volume = λ l i. 0 })).1
driver_edit-Fits_example =
    driver_edit-Fits sectors no_volume 6 0 0
      (record { text = text; name = name; status = 1; volume = λ l i. 0 })
      (record { text_fits = omega arith; name_fits = name-IsName })
