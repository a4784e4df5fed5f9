-- ===== src/Edit/Text/Lines.antt =====
-- The line arithmetic of the edit buffer in fs/fat32_disk.c: the offset that `line_start` gives is
-- on that line and begins it, and the one that `line_end` gives ends it.
use jvmos_jit.Base.{
  ℕ, zero, suc, ◌+◌, ◌-◌, ◌≤◌, ◌<◌, ◌^◌, ◌≡◌, ◌≢◌, ◌⊎◌, refl, ◌∙◌, false, arith, ltb, ◌==◌,
  if◌then◌else◌, Bool-cases, inl, inr,
}
use jvmos_jit.Base.Word.{int_neg}
use jvmos_jit.Edit.Text.{
  Text, newline, count_lines, line_of, find_line, line_start, find_newline, line_end,
}

-- Counting on from `n` newlines.
count_lines-suc :
    (k : ℕ) (text : ℕ → ℕ) (i line : ℕ)
    → count_lines (suc k) text i line ≡ (
        if text (i + k) == newline
        then count_lines k text i line + 1
        else count_lines k text i line)
unfolding count_lines
count_lines-suc zero text i line = ground arith
count_lines-suc (suc k) text i line =
    let line' = if text i == newline then line + 1 else line in
    count_lines-suc k text (i + 1) line' ∙ ground arith

-- What `find_line` finds from `i` on, when the first `i` bytes hold `n` newlines.
abbrev Found : (ℕ → ℕ) → (top line : ℕ) → ℕ → Type 0
Found text top line found =
    (found ≡ 2 ^ 32 - 1)
    ⊎ ((found ≤ top) × (text (found - 1) ≡ newline) × (count_lines found text 0 0 ≡ line))

Found-below :
    (text : ℕ → ℕ) (top top' line found : ℕ)
    → top ≤ top'
    → Found text top line found
    → Found text top' line found
Found-below text top top' line found h (inl missing) = inl missing
Found-below text top top' line found h (inr (low, break, count)) =
    inr (omega (arith, h, low), break, count)

find_line-Found :
    (left : ℕ) (text : ℕ → ℕ) (i n line : ℕ)
    → count_lines i text 0 0 ≡ n
    → Found text (i + left) line (find_line left text i n line)
unfolding find_line
find_line-Found zero text i n line h = inl refl
find_line-Found (suc left) text i n line h =
    let n' = if text i == newline then n + 1 else n in
    let next = count_lines-suc i text 0 0 in
    let rest = find_line-Found left text (i + 1) n' line (ground (arith, h, next)) in
    let below = Found-below text (i + 1 + left) (i + suc left) line _ (omega arith) rest in
    elim (Bool-cases (text i == newline)) [
      | inl break ↦ rw break (elim (Bool-cases (n + 1 == line)) [
        | inl this ↦
            rw this (inr (omega arith, ground (arith, break), ground (arith, break, this, next, h)))
        | inr later ↦ rw later (simp break at below)
      ])
      | inr other ↦ rw other (simp other at below)
    ]

line_of-inside :
    (off : ℕ) (t : Text) → t.len < 2 ^ 31 → off ≤ t.len → line_of off t ≡ count_lines off t.byte 0 0
unfolding line_of
line_of-inside off t small inside =
    let positive : int_neg off ≡ false = ground (arith, small, inside) in
    let within : ltb t.len off ≡ false = ground (arith, inside) in rw (positive, within) refl

-- A line start that is found lies in the text, behind a newline, and on the line that was asked
-- for; the first line, and a negative one, start at 0.
line_start-line_of :
    (line : ℕ) (t : Text)
    → t.len < 2 ^ 31
    → (line_start line t ≡ 2 ^ 32 - 1)
      ⊎ ((line_start line t ≤ t.len)
          × (line_of (line_start line t) t ≡ (if int_neg line then 0 else line)))
unfolding line_start find_line count_lines
line_start-line_of line t small =
    let first = line_of-inside 0 t small (omega arith) in
    elim (Bool-cases (int_neg line)) [
      | inl negative ↦ rw negative (inr (omega arith, first))
      | inr counted ↦ rw counted (elim (Bool-cases (line == 0)) [
        | inl zeroth ↦ rw zeroth (inr (omega arith, ground (arith, first, zeroth)))
        | inr later ↦ rw later (of_found (find_line-Found t.len t.byte 0 0 line refl))
      ])
    ]
  where
    of_found :
        Found t.byte (0 + t.len) line (find_line t.len t.byte 0 0 line)
        → (find_line t.len t.byte 0 0 line ≡ 2 ^ 32 - 1)
          ⊎ ((find_line t.len t.byte 0 0 line ≤ t.len)
              × (line_of (find_line t.len t.byte 0 0 line) t ≡ line))
    of_found (inl missing) = inl missing
    of_found (inr (low, break, count)) =
        inr (omega (arith, low), line_of-inside _ t small (omega (arith, low)) ∙ count)

find_newline_lem :
    (left : ℕ) (text : ℕ → ℕ) (i : ℕ)
    → (i ≤ find_newline left text i)
      × (find_newline left text i ≤ i + left)
      × ((j : ℕ) → i ≤ j → j < find_newline left text i → text j ≢ newline)
      × (find_newline left text i < i + left → text (find_newline left text i) ≡ newline)
unfolding find_newline
find_newline_lem zero text i = ground arith
find_newline_lem (suc left) text i =
    let (a, b, c, d) = find_newline_lem left text (i + 1) in
    elim (Bool-cases (text i == newline)) [
      | inl here ↦ rw here (
        omega arith,
        omega arith,
        λ j p q. absurd (omega (arith, p, q)),
        λ p. ground (arith, here),
      )
      | inr past ↦ rw past (
        omega (arith, a),
        omega (arith, b),
        λ j p q. elim (Bool-cases (i == j)) [
          | inl same ↦ ground (arith, same, past)
          | inr above ↦ c j (ground (arith, above, p)) q
        ],
        λ p. d (omega (arith, p)),
      )
    ]

-- For an offset inside the text, `line_end` gives the offset of the first newline at or behind it,
-- or the end of the text if there is none.
pub line_end_lem :
    (off : ℕ) (t : Text)
    → t.len < 2 ^ 31
    → off ≤ t.len
    → (off ≤ line_end off t)
      × (line_end off t ≤ t.len)
      × ((j : ℕ) → off ≤ j → j < line_end off t → t.byte j ≢ newline)
      × ((line_end off t ≡ t.len) ⊎ (t.byte (line_end off t) ≡ newline))
unfolding line_end
line_end_lem off t small inside =
    let positive : int_neg off ≡ false = ground (arith, small, inside) in
    let (a, b, c, d) = find_newline_lem (t.len - off) t.byte off in
    rw positive (
      a,
      omega (arith, b, inside),
      c,
      elim (Bool-cases (ltb (find_newline (t.len - off) t.byte off) t.len)) [
        | inl before ↦ inr (d (ground (arith, before, inside)))
        | inr ended ↦ inl (ground (arith, ended, b, inside))
      ],
    )
