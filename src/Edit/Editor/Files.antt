-- ===== src/Edit/Editor/Files.antt =====
-- Opening, editing and saving a file in the edit buffer of fs/fat32_disk.c.
use jvmos_jit.Base.{
  ℕ, ◌≤◌, ◌≡◌, ◌≢◌, ◌⊎◌, refl, sym, inl, inr, ◌∙◌, Bool, true, false, List, [], ◌∷◌, some, arith,
  if-cases, ◌==◌, if◌then◌else◌,
}
use mathlib.Core.Path.{subst}
use jvmos_jit.Base.Word.{int_neg}
use jvmos_jit.Edit.Text.{fs_text_max}
use jvmos_jit.Edit.Name.{Name, name_unpack}
use jvmos_jit.Edit.Volume.{Entry, Volume}
use jvmos_jit.Edit.Editor.{
  Editor, is_ready, open_entry, text_open, remove_entry, text_remove, text_save, fs_edit,
}

-- The operations that look at the text or the name, or change the text a byte at a time.
abbrev IsEdit : ℕ → Type 0
IsEdit op = (op ≤ 4) ⊎ ((8 ≤ op) × (op ≤ 9)) ⊎ (14 ≤ op)

-- A call of `fs_edit`, without its answer.
pub record Edit : Type 0 where
  pub op : ℕ
  pub a : ℕ
  pub b : ℕ

abbrev pub AllEdits : List Edit → Type 0
AllEdits [] = Unit
AllEdits (e ∷ es) = IsEdit e.op × AllEdits es

module _ {V : Type 0} (vol : Volume V) where
  -- The calls of a list, one after the other.
  pub after : List Edit → Editor V → Editor V
  after [] s = s
  after (e ∷ es) s = after es (fs_edit vol e.op e.a e.b s).1

  record SameFile (s s' : Editor V) : Type 0 where
    kept_name : s'.name ≡ s.name
    kept_status : s'.status ≡ s.status
    kept_volume : s'.volume ≡ s.volume

  SameFile-if :
      (s : Editor V) (c : Bool) (x y : ℕ × Editor V)
      → (c ≡ true → SameFile s x.1)
      → (c ≡ false → SameFile s y.1)
      → SameFile s (if c then x else y).1
  SameFile-if s true x y h k = h refl
  SameFile-if s false x y h k = k refl

  same : (s : Editor V) → SameFile s s
  same s = record { kept_name = refl; kept_status = refl; kept_volume = refl }

  not_an_edit :
      (op n : ℕ)
      → (n ≡ 5) ⊎ (n ≡ 6) ⊎ (n ≡ 7) ⊎ ((10 ≤ n) × (n ≤ 13))
      → IsEdit op
      → (op == n) ≡ true
      → ⊥
  not_an_edit op n excluded edits e = ground (arith, excluded, edits, e)

  edit-SameFile : (op a b : ℕ) (s : Editor V) → IsEdit op → SameFile s (fs_edit vol op a b s).1
  unfolding fs_edit
  edit-SameFile op a b s edits =
      SameFile-if s (op == 0) _ _ (λ _. same s)
        λ _.
          SameFile-if s (op == 1) _ _ (λ _. same s)
            λ _.
              SameFile-if s (op == 2) _ _ (λ _. same s)
                λ _.
                  SameFile-if s (op == 3) _ _
                    (λ _. record { kept_name = refl; kept_status = refl; kept_volume = refl })
                    λ _.
                      SameFile-if s (op == 4) _ _
                        (λ _. record { kept_name = refl; kept_status = refl; kept_volume = refl })
                        λ _.
                          SameFile-if s (op == 5) _ _
                            (λ e. absurd (not_an_edit op 5 (omega arith) edits e))
                            λ _.
                              SameFile-if s (op == 6) _ _
                                (λ e. absurd (not_an_edit op 6 (omega arith) edits e))
                                λ _.
                                  SameFile-if s (op == 7) _ _
                                    (λ e. absurd (not_an_edit op 7 (omega arith) edits e))
                                    λ _.
                                      SameFile-if s (op == 8) _ _ (λ _. same s)
                                        λ _.
                                          SameFile-if s (op == 9) _ _ (λ _. same s)
                                            λ _.
                                              SameFile-if s (op == 10) _ _
                                                (λ e.
                                                  absurd (not_an_edit op 10 (omega arith) edits e))
                                                λ _.
                                                  SameFile-if s (op == 11) _ _
                                                    (λ e.
                                                      absurd
                                                        (not_an_edit op 11 (omega arith) edits e))
                                                    λ _.
                                                      SameFile-if s (op == 12) _ _
                                                        (λ e.
                                                          absurd (
                                                            not_an_edit op 12 (omega arith) edits
                                                            e))
                                                        λ _.
                                                          SameFile-if s (op == 13) _ _
                                                            (λ e. absurd (
                                                            not_an_edit op 13 (omega arith) edits
                                                            e))
                                                            λ _.
                                                            SameFile-if s (op == 14) _ _
                                                            (λ _. same s)
                                                            λ _.
                                                            SameFile-if s (op == 15) _ _
                                                            (λ _. same s)
                                                            λ _.
                                                            SameFile-if s (op == 16) _ _
                                                            (λ _. same s)
                                                            λ _.
                                                            SameFile-if s (op == 17) _ _
                                                            (λ _. same s) λ _. same s

  after-SameFile : (es : List Edit) (s : Editor V) → AllEdits es → SameFile s (after es s)
  unfolding after
  after-SameFile [] s all = same s
  after-SameFile (e ∷ es) s (edits, all) =
      let first = edit-SameFile e.op e.a e.b s edits in
      let others = after-SameFile es (fs_edit vol e.op e.a e.b s).1 all in
      record {
        kept_name = others.kept_name ∙ first.kept_name;
        kept_status = others.kept_status ∙ first.kept_status;
        kept_volume = others.kept_volume ∙ first.kept_volume;
      }

  -- Opening a file and removing one both take its name, whether or not they succeed.
  opened_lem :
      (index b : ℕ) (e : Entry) (s : Editor V)
      → (vol.list index s.volume).0 ≡ some e
      → e.is_dir ≡ false
      → ((fs_edit vol 6 index b s).1.name ≡ name_unpack e.name s.name)
        × ((fs_edit vol 6 index b s).1.status ≡ s.status)
  unfolding fs_edit text_open open_entry
  opened_lem index b e s found file =
      rw (found, file)
        (if-cases
          (λ (r : ℕ × Editor V). (r.1.name ≡ name_unpack e.name s.name) × (r.1.status ≡ s.status))
          (int_neg
            (vol.read_file (name_unpack e.name s.name).char s.text.byte fs_text_max
              (vol.list index s.volume).1).0)
          _ _ (λ _. (refl, refl)) (λ _. (refl, refl)))

  removed_lem :
      (index b : ℕ) (e : Entry) (s : Editor V)
      → (vol.list index s.volume).0 ≡ some e
      → e.is_dir ≡ false
      → ((fs_edit vol 13 index b s).1.name ≡ name_unpack e.name s.name)
        × ((fs_edit vol 13 index b s).1.status ≡ s.status)
  unfolding fs_edit text_remove remove_entry
  removed_lem index b e s found file = rw (found, file) (refl, refl)

  -- A save of the text under a name, on a state of the volume: the answer, and the state behind it.
  abbrev pub Saved : Name → V → Editor V → ℕ × Editor V → Type 0
  Saved name v s r =
      (r.0 ≡ (if (vol.write_file name.char s.text.byte s.text.len v).0 then 1 else 0))
      × (r.1.volume ≡ (vol.write_file name.char s.text.byte s.text.len v).1)

  text_save-Saved :
      (s : Editor V)
      → s.name.len ≢ 0
      → (s.status ≡ 1) ⊎ (s.status ≡ 2)
      → Saved s.name s.volume s (text_save vol s)
  unfolding text_save
  text_save-Saved s named ready =
      if-cases (Saved s.name s.volume s) (s.name.len == 0) _ _
        (λ none. absurd (has_name s.name.len named none))
        (λ _.
          if-cases (Saved s.name s.volume s) (is_ready s.status) _ _
            (λ _.
              if-cases (Saved s.name s.volume s)
                (vol.write_file s.name.char s.text.byte s.text.len s.volume).0 _ _
                (λ done. (rw done refl, refl)) (λ failed. (rw failed refl, refl)))
            (λ not_ready. absurd (is_mounted s.status ready not_ready)))
    where
      has_name : (n : ℕ) → n ≢ 0 → (n == 0) ≡ true → ⊥
      has_name n named none = ground (arith, named, none)

      is_mounted : (n : ℕ) → (n ≡ 1) ⊎ (n ≡ 2) → is_ready n ≡ false → ⊥
      is_mounted n ready not_ready = ground (arith, ready, not_ready)

  saved_lem :
      (a b : ℕ) (s : Editor V)
      → s.name.len ≢ 0
      → (s.status ≡ 1) ⊎ (s.status ≡ 2)
      → Saved s.name s.volume s (fs_edit vol 7 a b s)
  unfolding fs_edit
  saved_lem a b s named ready = text_save-Saved s named ready

  -- Whichever call last opened or removed a file, in both cases whether or not it succeeded: after
  -- any sequence of calls behind it that look at the text or the name, or insert or delete a byte, the next save, on a volume that is ready and with a
  -- name that is not empty, writes the text as the edits have left it under the name of that file.
  -- The write goes to the volume as the opening or removing has left it, and its result is the
  -- answer.
  pub save-names_last :
      (op index b : ℕ) (e : Entry) (s : Editor V)
      → (op ≡ 6) ⊎ (op ≡ 13)
      → (vol.list index s.volume).0 ≡ some e
      → e.is_dir ≡ false
      → (s.status ≡ 1) ⊎ (s.status ≡ 2)
      → (name_unpack e.name s.name).len ≢ 0
      → (es : List Edit) (a' b' : ℕ) → AllEdits es
      → Saved
          (name_unpack e.name s.name)
          (fs_edit vol op index b s).1.volume
          (after es (fs_edit vol op index b s).1)
          (fs_edit vol 7 a' b' (after es (fs_edit vol op index b s).1))
  save-names_last op index b e s which found file ready named es a' b' all =
      let first = (fs_edit vol op index b s).1 in
      let last = after es first in
      let kept = after-SameFile es first all in
      let (took, status) = taken op index b e s which found file in
      let name : last.name ≡ name_unpack e.name s.name = kept.kept_name ∙ took in
      let still : last.status ≡ s.status = kept.kept_status ∙ status in
      subst (λ n. Saved n first.volume last (fs_edit vol 7 a' b' last)) name
        (subst (λ v. Saved last.name v last (fs_edit vol 7 a' b' last)) kept.kept_volume
          (saved_lem a' b' last (subst (λ (n : Name). n.len ≢ 0) (sym name) named)
            (subst (λ n. (n ≡ 1) ⊎ (n ≡ 2)) (sym still) ready)))
    where
      taken :
          (op index b : ℕ) (e : Entry) (s : Editor V)
          → (op ≡ 6) ⊎ (op ≡ 13)
          → (vol.list index s.volume).0 ≡ some e
          → e.is_dir ≡ false
          → ((fs_edit vol op index b s).1.name ≡ name_unpack e.name s.name)
            × ((fs_edit vol op index b s).1.status ≡ s.status)
      taken op index b e s (inl opens) found file = rw opens (opened_lem index b e s found file)
      taken op index b e s (inr removes) found file =
          rw removes (removed_lem index b e s found file)
