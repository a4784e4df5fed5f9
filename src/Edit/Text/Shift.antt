-- ===== src/Edit/Text/Shift.antt =====
-- What insertion and deletion do to the bytes: the loops that shift them are proved against a
-- description of the text by offset, and a deletion undoes an insertion.
use jvmos_jit.Base.{
  ℕ, zero, suc, ◌+◌, ◌-◌, ◌≤◌, ◌<◌, ◌≡◌, refl, ◌∙◌, true, false, arith, ltb, leb, ◌==◌,
  if◌then◌else◌,
}
use jvmos_jit.Base.Word.{u8}
use jvmos_jit.Wasm.Module.{update}
use jvmos_jit.Edit.Text.{Text, fs_text_max, shift_up, shift_down, text_insert, text_delete}

-- The bytes from `off` to `off + n` have moved up by one; all others stand where they stood.
abbrev moved_up : ℕ → ℕ → (ℕ → ℕ) → ℕ → ℕ
moved_up n off text i =
    if ltb off i then (if leb i (off + n) then text (i - 1) else text i) else text i

shift_up_lem : (n off : ℕ) (text : ℕ → ℕ) (i : ℕ) → shift_up n off text i ≡ moved_up n off text i
unfolding shift_up
shift_up_lem zero off text i = ground arith
shift_up_lem (suc n) off text i =
    shift_up_lem n off (update text (off + suc n) (text (off + n))) i ∙ ground arith

-- The bytes from `i + 1` to `i + n` have moved down by one.
abbrev moved_down : ℕ → ℕ → (ℕ → ℕ) → ℕ → ℕ
moved_down n i text j = if leb i j then (if ltb j (i + n) then text (j + 1) else text j) else text j

shift_down_lem : (n i : ℕ) (text : ℕ → ℕ) (j : ℕ) → shift_down n i text j ≡ moved_down n i text j
unfolding shift_down
shift_down_lem zero i text j = ground arith
shift_down_lem (suc n) i text j =
    shift_down_lem n (i + 1) (update text i (text (i + 1))) j ∙ ground arith

-- The text with a byte put in at an offset, and with the byte at an offset taken out, by offset.
abbrev pub put_in : ℕ → ℕ → (ℕ → ℕ) → ℕ → ℕ
put_in off b text i = if ltb i off then text i else if i == off then b else text (i - 1)

abbrev pub taken_out : ℕ → (ℕ → ℕ) → ℕ → ℕ
taken_out off text i = if ltb i off then text i else text (i + 1)

-- An insertion at an offset inside the text or at its end, when the text is not full, succeeds: the
-- text is one byte longer and marked as changed, the byte stands at the offset, what was before it
-- is unchanged and what was behind it has moved up by one.
pub text_insert_lem :
    (off ch : ℕ) (t : Text)
    → t.len < fs_text_max
    → off ≤ t.len
    → ((text_insert off ch t).0 ≡ true)
      × ((text_insert off ch t).1.len ≡ t.len + 1)
      × ((text_insert off ch t).1.dirty ≡ true)
      × ((i : ℕ) → i ≤ t.len → (text_insert off ch t).1.byte i ≡ put_in off (u8 ch) t.byte i)
unfolding text_insert
text_insert_lem off ch t room inside =
    let unfilled : leb fs_text_max t.len ≡ false = ground (arith, room) in
    let within : ltb t.len off ≡ false = ground (arith, inside) in
    rw (unfilled, within)
      (
        refl,
        refl,
        refl,
        λ i p.
            (let shifted = shift_up_lem (t.len - off) off t.byte i in
              ground (arith, shifted, inside, p)),
      )

-- A deletion inside the text succeeds: the text is one byte shorter and marked as changed, what was
-- before the offset is unchanged and what was behind it has moved down by one.
pub text_delete_lem :
    (off : ℕ) (t : Text)
    → off < t.len
    → ((text_delete off t).0 ≡ true)
      × ((text_delete off t).1.len ≡ t.len - 1)
      × ((text_delete off t).1.dirty ≡ true)
      × ((i : ℕ) → i < t.len - 1 → (text_delete off t).1.byte i ≡ taken_out off t.byte i)
unfolding text_delete
text_delete_lem off t inside =
    let within : leb t.len off ≡ false = ground (arith, inside) in
    rw within (
      refl,
      refl,
      refl,
      λ i p.
          (let shifted = shift_down_lem (t.len - 1 - off) off t.byte i in
            ground (arith, shifted, inside, p)),
    )

-- Deleting the byte that was just inserted gives back the text: its length, and each of its bytes.
pub text_delete-insert :
    (off ch : ℕ) (t : Text)
    → t.len < fs_text_max
    → off ≤ t.len
    → ((text_delete off (text_insert off ch t).1).1.len ≡ t.len)
      × ((i : ℕ) → i < t.len → (text_delete off (text_insert off ch t).1).1.byte i ≡ t.byte i)
text_delete-insert off ch t room inside =
    let t' = (text_insert off ch t).1 in
    let (done, longer, dirty, bytes) = text_insert_lem off ch t room inside in
    let (done', shorter, dirty', bytes') = text_delete_lem off t' (omega (arith, longer, inside)) in
    (omega (arith, longer, shorter), λ i p. bytes' i (omega (arith, longer, p)) ∙ undo i p bytes)
  where
    undo :
        (i : ℕ)
        → i < t.len
        → ((j : ℕ) → j ≤ t.len → (text_insert off ch t).1.byte j ≡ put_in off (u8 ch) t.byte j)
        → taken_out off (text_insert off ch t).1.byte i ≡ t.byte i
    undo i p bytes =
        let here = bytes i (omega (arith, p)) in
        let above = bytes (i + 1) (omega (arith, p)) in ground (arith, here, above)
