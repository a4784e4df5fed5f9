-- ===== src/Edit/Text.antt =====
-- The text of the edit buffer in fs/fat32_disk.c: `text_insert`, `text_delete` and the line
-- arithmetic. The loops run over offsets, so the length bounds their rounds.
pub mod Shift
pub mod Lines
use jvmos_jit.Base.{ℕ, zero, suc, ◌+◌, ◌-◌, ◌^◌, Bool, true, false, ltb, leb, ◌==◌, if◌then◌else◌}
use jvmos_jit.Base.Word.{u8, int_neg}
use jvmos_jit.Wasm.Module.{update}

abbrev pub fs_text_max : ℕ
fs_text_max = 16384

abbrev pub newline : ℕ
newline = 10

-- `g_text`, `g_text_len` and `g_dirty`.
pub record Text : Type 0 where
  pub byte : ℕ → ℕ
  pub len : ℕ
  pub dirty : Bool

-- `for (i = g_text_len; i > off; i--) g_text[i] = g_text[i - 1];`, with the rounds left first.
unfoldable pub shift_up : ℕ → (off : ℕ) → (ℕ → ℕ) → ℕ → ℕ
shift_up zero off text = text
shift_up (suc n) off text = shift_up n off (update text (off + suc n) (text (off + n)))

-- `for (i = off; i + 1 < g_text_len; i++) g_text[i] = g_text[i + 1];`
unfoldable pub shift_down : ℕ → (i : ℕ) → (ℕ → ℕ) → ℕ → ℕ
shift_down zero i text = text
shift_down (suc n) i text = shift_down n (i + 1) (update text i (text (i + 1)))

-- The result, and the text as the call leaves it.
unfoldable pub text_insert : (off ch : ℕ) → Text → Bool × Text
unfolding shift_up
text_insert off ch t =
    if leb fs_text_max t.len then (false, t) else if ltb t.len off then (false, t) else (
      true,
      record {
        byte = update (shift_up (t.len - off) off t.byte) off (u8 ch);
        len = t.len + 1;
        dirty = true;
      },
    )

unfoldable pub text_delete : (off : ℕ) → Text → Bool × Text
unfolding shift_down
text_delete off t = if leb t.len off then (false, t) else (
  true,
  record { byte = shift_down (t.len - 1 - off) off t.byte; len = t.len - 1; dirty = true },
)

-- `for (i = ...; i < off; i++) if (g_text[i] == '\n') line++;`
unfoldable pub count_lines : ℕ → (ℕ → ℕ) → (i line : ℕ) → ℕ
count_lines zero text i line = line
count_lines (suc n) text i line =
    count_lines n text (i + 1) (if text i == newline then line + 1 else line)

unfoldable pub line_of : (off : ℕ) → Text → ℕ
unfolding count_lines
line_of off t =
    if int_neg off then 0 else count_lines (if ltb t.len off then t.len else off) t.byte 0 0

-- The loop of `line_start` from `i` on, with `n` newlines behind it; -1 if it finds no more.
unfoldable pub find_line : ℕ → (ℕ → ℕ) → (i n line : ℕ) → ℕ
find_line zero text i n line = 2 ^ 32 - 1
find_line (suc left) text i n line =
    let n' = if text i == newline then n + 1 else n in
    let rest = find_line left text (i + 1) n' line in
    if text i == newline then (if n + 1 == line then i + 1 else rest) else rest

unfoldable pub line_start : (line : ℕ) → Text → ℕ
unfolding find_line
line_start line t =
    if int_neg line then 0 else if line == 0 then 0 else find_line t.len t.byte 0 0 line

-- `for (i = off; i < g_text_len && g_text[i] != '\n'; i++)`
unfoldable pub find_newline : ℕ → (ℕ → ℕ) → (i : ℕ) → ℕ
find_newline zero text i = i
find_newline (suc left) text i =
    let rest = find_newline left text (i + 1) in if text i == newline then i else rest

unfoldable pub line_end : (off : ℕ) → Text → ℕ
unfolding find_newline
line_end off t =
    let from = if int_neg off then 0 else off in find_newline (t.len - from) t.byte from
