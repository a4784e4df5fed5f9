-- ===== src/Edit/Editor/Invariant.antt =====
-- Every operation of the edit buffer keeps its text and its name inside their arrays.
use jvmos_jit.Base.{
  ℕ, ◌≤◌, ◌≡◌, refl, Bool, true, false, Option, none, some, arith, ◌==◌, if◌then◌else◌,
}
use jvmos_jit.Base.Word.{int_neg}
use jvmos_jit.Edit.Text.{Text, fs_text_max, text_insert, text_delete}
use jvmos_jit.Edit.Name.{name_unpack}
use jvmos_jit.Edit.Name.Bounds.{
  IsName, name_clear-IsName, name_unpack-IsName, name_push-IsName, name_pop-IsName,
}
use jvmos_jit.Edit.Volume.{Entry, Volume, ReadsFit}
use jvmos_jit.Edit.Editor.{
  Editor, open_entry, open_listed, remove_listed, text_open, text_save, remove_entry, text_remove,
  fs_edit, is_ready,
}

-- The text fits `g_text`, and the name is terminated inside `g_name`.
pub record Fits {V : Type 0} (s : Editor V) : Type 0 where
  pub text_fits : s.text.len ≤ fs_text_max
  pub name_fits : IsName s.name

text_insert-fits :
    (off ch : ℕ) (t : Text) → t.len ≤ fs_text_max → (text_insert off ch t).1.len ≤ fs_text_max
unfolding text_insert
text_insert-fits off ch t h = ground arith

text_delete-fits :
    (off : ℕ) (t : Text) → t.len ≤ fs_text_max → (text_delete off t).1.len ≤ fs_text_max
unfolding text_delete
text_delete-fits off t h = ground arith

module _ {V : Type 0} where
  Fits-if :
      (b : Bool) (x y : ℕ × Editor V)
      → (b ≡ true → Fits x.1)
      → (b ≡ false → Fits y.1)
      → Fits (if b then x else y).1
  Fits-if true x y h k = h refl
  Fits-if false x y h k = k refl

  module _ (vol : Volume V) (reads : ReadsFit vol) where
    open_entry-Fits : (e : Entry) (s : Editor V) → Fits s → Fits (open_entry vol e s).1
    unfolding open_entry
    open_entry-Fits e s h =
        let name = name_unpack e.name s.name in
        let named = name_unpack-IsName e.name s.name in
        Fits-if e.is_dir _ _ (λ dir. h)
          λ file.
            Fits-if (int_neg (vol.read_file name.char s.text.byte fs_text_max s.volume).0) _ _
              (λ failed. record { text_fits = h.text_fits; name_fits = named })
              λ done. record {
                text_fits = reads name.char s.text.byte fs_text_max s.volume done;
                name_fits = named;
              }

    open_listed-Fits :
        (found : Option Entry) (s : Editor V) → Fits s → Fits (open_listed vol found s).1
    open_listed-Fits none s h = h
    open_listed-Fits (some e) s h = open_entry-Fits e s h

    text_open-Fits : (index : ℕ) (s : Editor V) → Fits s → Fits (text_open vol index s).1
    unfolding text_open
    text_open-Fits index s h =
        let (found, v) = vol.list index s.volume in
        open_listed-Fits found (record s { volume = v })
          (record { text_fits = h.text_fits; name_fits = h.name_fits })

    text_save-Fits : (s : Editor V) → Fits s → Fits (text_save vol s).1
    unfolding text_save
    text_save-Fits s h =
        Fits-if (s.name.len == 0) _ _ (λ unnamed. h)
          λ named.
            Fits-if (is_ready s.status) _ _
              (λ ready.
                Fits-if (vol.write_file s.name.char s.text.byte s.text.len s.volume).0 _ _
                  (λ done. record { text_fits = h.text_fits; name_fits = h.name_fits })
                  λ failed. record { text_fits = h.text_fits; name_fits = h.name_fits })
              λ absent. h

    remove_entry-Fits : (e : Entry) (s : Editor V) → Fits s → Fits (remove_entry vol e s).1
    unfolding remove_entry
    remove_entry-Fits e s h =
        Fits-if e.is_dir _ _ (λ dir. h)
          λ file. record { text_fits = h.text_fits; name_fits = name_unpack-IsName e.name s.name }

    remove_listed-Fits :
        (found : Option Entry) (s : Editor V) → Fits s → Fits (remove_listed vol found s).1
    remove_listed-Fits none s h = h
    remove_listed-Fits (some e) s h = remove_entry-Fits e s h

    text_remove-Fits : (index : ℕ) (s : Editor V) → Fits s → Fits (text_remove vol index s).1
    unfolding text_remove
    text_remove-Fits index s h =
        let (found, v) = vol.list index s.volume in
        remove_listed-Fits found (record s { volume = v })
          (record { text_fits = h.text_fits; name_fits = h.name_fits })

    -- Every operation of the edit buffer, known or not, with whatever arguments, leaves the text
    -- inside its array and the name inside its own, terminated, as long as a read of the driver
    -- keeps to the size of the buffer it is given.
    pub fs_edit-Fits : (op a b : ℕ) (s : Editor V) → Fits s → Fits (fs_edit vol op a b s).1
    unfolding fs_edit
    fs_edit-Fits op a b s h =
        Fits-if (op == 0) _ _ (λ p. h)
          λ p0.
            Fits-if (op == 1) _ _ (λ p. h)
              λ p1.
                Fits-if (op == 2) _ _ (λ p. h)
                  λ p2.
                    Fits-if (op == 3) _ _
                      (λ p. record {
                        text_fits = text_insert-fits a b s.text h.text_fits;
                        name_fits = h.name_fits;
                      })
                      λ p3.
                        Fits-if (op == 4) _ _
                          (λ p. record {
                            text_fits = text_delete-fits a s.text h.text_fits;
                            name_fits = h.name_fits;
                          })
                          λ p4.
                            Fits-if (op == 5) _ _
                              (λ p. record {
                                text_fits = omega arith;
                                name_fits = name_clear-IsName s.name;
                              })
                              λ p5.
                                Fits-if (op == 6) _ _ (λ p. text_open-Fits a s h)
                                  λ p6.
                                    Fits-if (op == 7) _ _ (λ p. text_save-Fits s h)
                                      λ p7.
                                        Fits-if (op == 8) _ _ (λ p. h)
                                          λ p8.
                                            Fits-if (op == 9) _ _ (λ p. h)
                                              λ p9.
                                                Fits-if (op == 10) _ _
                                                  (λ p. record {
                                                    text_fits = h.text_fits;
                                                    name_fits = name_clear-IsName s.name;
                                                  })
                                                  λ p10.
                                                    Fits-if (op == 11) _ _
                                                      (λ p. record {
                                                        text_fits = h.text_fits;
                                                        name_fits =
                                                            name_push-IsName a s.name h.name_fits;
                                                      })
                                                      λ p11.
                                                        Fits-if (op == 12) _ _
                                                          (λ p. record {
                                                            text_fits = h.text_fits;
                                                            name_fits =
                                                            name_pop-IsName s.name h.name_fits;
                                                          })
                                                          λ p12.
                                                            Fits-if (op == 13) _ _
                                                            (λ p. text_remove-Fits a s h)
                                                            λ p13.
                                                            Fits-if (op == 14) _ _ (λ p. h)
                                                            λ p14.
                                                            Fits-if (op == 15) _ _ (λ p. h)
                                                            λ p15.
                                                            Fits-if (op == 16) _ _ (λ p. h)
                                                            λ p16.
                                                            Fits-if (op == 17) _ _ (λ p. h)
                                                            λ unknown. h
