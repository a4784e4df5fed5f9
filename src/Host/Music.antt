-- ===== src/Host/Music.antt =====
-- The music sequencer of wasm/host.c: `music_silence`, `music_select` and `wasm_music_tick`.
--
-- The clock is an argument. What a call tells the speaker is the list of the frequencies of its
-- calls of `sys_beep`, 0 for silence.
pub mod Notes
use jvmos_jit.Base.{
  ℕ, zero, suc, ◌+◌, ◌-◌, ◌^◌, Bool, true, false, not, ◌&&◌, ◌||◌, List, [], ◌∷◌, ◌++◌, ltb, leb,
  ◌==◌, if◌then◌else◌,
}
use jvmos_jit.Base.Word.{add32, sub32, int_neg, ltb_int}

abbrev pub music_gap : ℕ
music_gap = 40

abbrev pub fanfare_hz : List ℕ
fanfare_hz = 392 ∷ 494 ∷ 587 ∷ 784 ∷ 698 ∷ 659 ∷ []

abbrev pub fanfare_ms : List ℕ
fanfare_ms = 250 ∷ 250 ∷ 250 ∷ 250 ∷ 250 ∷ 250 ∷ []

abbrev pub theme_hz : List ℕ
theme_hz = 262 ∷ 330 ∷ 392 ∷ 440 ∷ 349 ∷ 294 ∷ 262 ∷ 330 ∷ 392 ∷ 523 ∷ 392 ∷ []

abbrev pub theme_ms : List ℕ
theme_ms = 150 ∷ 150 ∷ 200 ∷ 150 ∷ 150 ∷ 200 ∷ 150 ∷ 200 ∷ 250 ∷ 200 ∷ 300 ∷ []

-- An entry of a table, 0 behind its end.
unfoldable pub nth : List ℕ → ℕ → ℕ
nth [] i = 0
nth (x ∷ xs) i = let rest = nth xs (i - 1) in if i == 0 then x else rest

-- `g_track`, `g_note`, `g_resting`, `g_note_at`, `g_sounding` and `g_sound_on`.
pub record Music : Type 0 where
  pub track : ℕ
  pub note : ℕ
  pub resting : Bool
  pub note_at : ℕ
  pub sounding : Bool
  pub sound_on : Bool

abbrev pub hz_of : ℕ → List ℕ
hz_of track = if track == 1 then fanfare_hz else theme_hz

abbrev pub ms_of : ℕ → List ℕ
ms_of track = if track == 1 then fanfare_ms else theme_ms

abbrev pub len_of : ℕ → ℕ
len_of track = if track == 1 then 6 else 11

unfoldable pub music_silence : Music → List ℕ × Music
music_silence s = if s.sounding then (0 ∷ [], record s { sounding = false }) else ([], s)

unfoldable pub music_select : (now track : ℕ) → Music → List ℕ × Music
unfolding music_silence
music_select now track s =
    let (beeps, s') = music_silence s in
    (beeps, record s' { track = track; note = 0; resting = false; note_at = now })

-- The end of a note: the next one, or the start of the track, which the fanfare has only once.
unfoldable pub next_note : (now : ℕ) → Music → List ℕ × Music
unfolding music_silence
next_note now s =
    let (beeps, s') = music_silence s in
    let ended = leb (len_of s.track) (s.note + 1) in
    (
      beeps,
      record s' {
        note_at = add32 now music_gap;
        resting = false;
        note = if ended then 0 else s.note + 1;
        track = if ended && (s.track == 1) then 0 else s.track;
      },
    )

unfoldable pub start_note : (now : ℕ) → Music → List ℕ × Music
unfolding nth
start_note now s = (
  nth (hz_of s.track) s.note ∷ [],
  record s {
    sounding = true;
    note_at = sub32 (add32 now (nth (ms_of s.track) s.note)) music_gap;
    resting = true;
  },
)

unfoldable pub wasm_music_tick : (enabled : Bool) → (now : ℕ) → Music → List ℕ × Music
unfolding music_silence next_note start_note
wasm_music_tick enabled now s =
    let at = if int_neg (sub32 now s.note_at) then now else s.note_at in
    let s' = record s { note_at = at } in
    if (not enabled || not s.sound_on) || (s.track == 0)
    then music_silence s
    else if ltb_int now at
    then ([], s')
    else if s.resting
    then next_note now s'
    else start_note now s'
