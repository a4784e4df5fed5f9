-- ===== src/Host/Music/Notes.antt =====
-- Which notes the sequencer of wasm/host.c plays, and when.
use jvmos_jit.Base.{
  ap, sym, ◌∙◌, [], ◌∷◌, ℕ, ◌+◌, ◌%◌, ◌-◌, Bool-cases, inl, inr, leb, ◌^◌, ◌<◌, ◌≡◌, refl, Bool,
  true, false, not, ◌||◌, arith, List, ◌==◌, if-cases, if◌then◌else◌,
}
use jvmos_jit.Base.Word.{sub32, int_neg, ltb_int}
use jvmos_jit.Host.Music.{
  Music, nth, hz_of, len_of, music_silence, next_note, start_note, wasm_music_tick,
}

-- The note that is to be played is one of the track's.
abbrev pub HasNote : Music → Type 0
HasNote s = s.note < len_of s.track

silence-HasNote : (s : Music) → HasNote s → HasNote (music_silence s).1
unfolding music_silence
silence-HasNote s h = ground (arith, h)

next_note-HasNote : (now : ℕ) (s : Music) → HasNote s → HasNote (next_note now s).1
unfolding next_note music_silence
next_note-HasNote now s h = ground (arith, h)

HasNote-if :
    (b : Bool) (x y : List ℕ × Music) → HasNote x.1 → HasNote y.1 → HasNote (if b then x else y).1
HasNote-if true x y h k = h
HasNote-if false x y h k = k

start_note-HasNote : (now : ℕ) (s : Music) → HasNote s → HasNote (start_note now s).1
unfolding start_note
start_note-HasNote now s h = h

-- Whatever the clock says, and whether or not music is wanted, the note to be played after a tick is
-- one that its track has.
pub wasm_music_tick-HasNote :
    (enabled : Bool) (now : ℕ) (s : Music) → HasNote s → HasNote (wasm_music_tick enabled now s).1
unfolding wasm_music_tick
wasm_music_tick-HasNote enabled now s h =
    let at = if int_neg (sub32 now s.note_at) then now else s.note_at in
    let s' = record s { note_at = at } in
    HasNote-if ((not enabled || not s.sound_on) || (s.track == 0)) (music_silence s) _
      (silence-HasNote s h)
      (HasNote-if (ltb_int now at) _ _ h (
        HasNote-if s.resting (next_note now s') (start_note now s') (next_note-HasNote now s' h)
          (start_note-HasNote now s' h)))

both : true ≡ false → ⊥
both e = ground (arith, e)

-- The frequency that the speaker plays after some calls of `sys_beep`, 0 for silence.
pub heard : (hz : ℕ) → List ℕ → ℕ
heard hz [] = hz
heard hz (beep ∷ beeps) = heard beep beeps

-- A tick ends the note and chooses the next one of the track, the first behind the last, or starts
-- the note that is due, which is then heard.
pub record Alternates (hz : ℕ) (s : Music) (r : List ℕ × Music) : Type 0 where
  pub resting : r.1.resting ≡ not s.resting
  pub sounding : r.1.sounding ≡ not s.resting
  pub note : r.1.note ≡ (if s.resting then (s.note + 1) % len_of s.track else s.note)
  pub speaker : heard hz r.0 ≡ (if s.resting then 0 else nth (hz_of s.track) s.note)
  pub audible : s.resting ≡ false → 0 < heard hz r.0

silence-quiet :
    (hz : ℕ) (s : Music)
    → (s.sounding ≡ false → hz ≡ 0)
    → ((music_silence s).1.sounding ≡ false) × (heard hz (music_silence s).0 ≡ 0)
unfolding music_silence heard
silence-quiet hz s quiet =
    if-cases (λ (r : List ℕ × Music). (r.1.sounding ≡ false) × (heard hz r.0 ≡ 0)) s.sounding
      (0 ∷ [], record s { sounding = false }) ([], s) (λ _. (refl, refl)) (λ off. (off, quiet off))

following :
    (track n : ℕ)
    → n < len_of track
    → (if leb (len_of track) (n + 1) then 0 else n + 1) ≡ (n + 1) % len_of track
following track n h = elim (Bool-cases (track == 1)) [
  | inl fanfare ↦ rw fanfare (ground (arith, h, fanfare))
  | inr theme ↦ rw theme (ground (arith, h, theme))
]

next_note-Alternates :
    (hz now at : ℕ) (s : Music)
    → HasNote s
    → (s.sounding ≡ false → hz ≡ 0)
    → s.resting ≡ true
    → Alternates hz s (next_note now (record s { note_at = at }))
unfolding next_note
next_note-Alternates hz now at s has quiet rests =
    let (off, silent) = silence-quiet hz (record s { note_at = at }) quiet in
    record {
      resting = sym (ap not rests);
      sounding = off ∙ sym (ap not rests);
      note =
          following s.track s.note has
          ∙ sym (ap (λ b. if b then (s.note + 1) % len_of s.track else s.note) rests);
      speaker = silent ∙ sym (ap (λ b. if b then 0 else nth (hz_of s.track) s.note) rests);
      audible = λ plays. absurd (both (sym rests ∙ plays));
    }

-- Positive entries at the first `n` places, which are all there are.
Audible : List ℕ → ℕ → Type 0
Audible [] n = n ≡ 0
Audible (x ∷ xs) n = (0 < x) × Audible xs (n - 1)

nth-Audible : (xs : List ℕ) (n i : ℕ) → Audible xs n → i < n → 0 < nth xs i
unfolding Audible nth
nth-Audible [] n i none h = absurd (omega (arith, none, h))
nth-Audible (x ∷ xs) n i (first, others) h = elim (Bool-cases (i == 0)) [
  | inl start ↦ rw start first
  | inr later ↦ rw later (nth-Audible xs (n - 1) (i - 1) others (ground (arith, h, later)))
]

tracks-Audible : (track : ℕ) → Audible (hz_of track) (len_of track)
unfolding Audible
tracks-Audible track = elim (Bool-cases (track == 1)) [
  | inl fanfare ↦
      rw fanfare (
        omega arith,
        (omega arith, (omega arith, (omega arith, (omega arith, (omega arith, refl))))),
      )
  | inr theme ↦ rw theme (
    omega arith,
    (
      omega arith,
      (
        omega arith,
        (
          omega arith,
          (
            omega arith,
            (
              omega arith,
              (omega arith, (omega arith, (omega arith, (omega arith, (omega arith, refl))))),
            ),
          ),
        ),
      ),
    ),
  )
]

start_note-Alternates :
    (hz now at : ℕ) (s : Music)
    → HasNote s
    → s.resting ≡ false
    → Alternates hz s (start_note now (record s { note_at = at }))
unfolding start_note heard
start_note-Alternates hz now at s has plays = record {
  resting = sym (ap not plays);
  sounding = sym (ap not plays);
  note = sym (ap (λ b. if b then (s.note + 1) % len_of s.track else s.note) plays);
  speaker = sym (ap (λ b. if b then 0 else nth (hz_of s.track) s.note) plays);
  audible = λ _. nth-Audible (hz_of s.track) (len_of s.track) s.note (tracks-Audible s.track) has;
}

not_later :
    (now note_at : ℕ)
    → now < 2 ^ 31
    → note_at < 2 ^ 31
    → ltb_int now (if int_neg (sub32 now note_at) then now else note_at) ≡ false
not_later now note_at h k = ground arith

-- While music is wanted and a track plays, and the clock and the time of the next note are below
-- 2^31, every tick acts, even if the time of the next note is still to come. If a note was started
-- before, the speaker is silent behind the tick, and the note to be played is the next one of the
-- track, or the first behind the last; otherwise the speaker plays the frequency of the track's
-- note, which is not silence. The speaker is taken to be silent before if no note sounds, and the
-- note to be one of the track's.
pub wasm_music_tick-Alternates :
    (hz now : ℕ) (s : Music)
    → HasNote s
    → (s.sounding ≡ false → hz ≡ 0)
    → s.sound_on ≡ true
    → (s.track == 0) ≡ false
    → now < 2 ^ 31
    → s.note_at < 2 ^ 31
    → Alternates hz s (wasm_music_tick true now s)
unfolding wasm_music_tick
wasm_music_tick-Alternates hz now s has quiet on plays h k =
    let at = if int_neg (sub32 now s.note_at) then now else s.note_at in
    let s' = record s { note_at = at } in
    let run = if s.resting then next_note now s' else start_note now s' in
    if-cases (Alternates hz s) ((not true || not s.sound_on) || (s.track == 0)) (music_silence s)
      (if ltb_int now at then ([], s') else run) (λ quiet. absurd (wanted on plays quiet))
      (λ _.
        if-cases (Alternates hz s) (ltb_int now at) ([], s') run
          (λ early. absurd (both (sym early ∙ not_later now s.note_at h k)))
          (λ _.
            if-cases (Alternates hz s) s.resting (next_note now s') (start_note now s')
              (next_note-Alternates hz now at s has quiet) (start_note-Alternates hz now at s has)))
  where
    wanted : {b c : Bool} → b ≡ true → c ≡ false → ((not true || not b) || c) ≡ true → ⊥
    wanted p q r = ground (arith, p, q, r)
