-- ===== src/Sound/Card/Played.antt =====
-- What `audio_play` has the card do.
use jvmos_jit.Base.{
  ℕ, ◌<◌, ◌≡◌, refl, sym, ◌∙◌, ◌⊎◌, inl, inr, Bool, if-cases, true, false, not, ◌||◌, arith, leb,
  ◌==◌, if◌then◌else◌,
}
use jvmos_jit.Base.Word.{int_neg, ltb_int}
use jvmos_jit.Sound.Clips.{snd_count}
use jvmos_jit.Sound.Clips.Layout.{Playable, build_clips-Playable}
use jvmos_jit.Sound.Card.{
  Ports, Audio, sb_rstatus, dsp_read, reset, sb16_probe, audio_init, start_clip, play_clip,
  play_tone, audio_play,
}
use jvmos_jit.Sound.Card.Dma.{
  Dma, HasDma, programmed, dsp_write-view, dsp_read-view, reset-view, sb16_transfer-programmed,
}

-- No card was found, or all the clips are in the buffer.
abbrev pub IsReady : {W : Type 0} → Audio W → Type 0
IsReady a =
    (a.present ≡ false)
    ⊎ ((j : ℕ) → j < snd_count → Playable (a.clips.offset j) (a.clips.clip_length j))

-- A controller left alone, or set to one of the clips.
abbrev pub Kept : (before after : Dma) → Type 0
Kept before after =
    (after ≡ before)
    ⊎ ((offset : ℕ) × (length : ℕ) × Playable offset length × (after ≡ programmed offset length))

present_lem :
    {W : Type 0} (a : Audio W)
    → IsReady a
    → a.present ≡ true
    → (j : ℕ) → j < snd_count
    → Playable (a.clips.offset j) (a.clips.clip_length j)
present_lem a (inl absent) h = absurd (apart (sym h ∙ absent))
  where
    apart : true ≡ false → ⊥
    apart e = ground (arith, e)
present_lem a (inr clips) h = clips

module _ {W : Type 0} (io : Ports W) (view : W → Dma) (dma : HasDma io view) where
  open dma use {view-inb, view-ticks, view-beep, view-sleep}

  abbrev Probed : Audio W → Bool × Audio W → Type 0
  Probed a r = IsReady (record (r.1) { present = r.0 }) × (view r.1.machine ≡ view a.machine)

  probe_lem : (a : Audio W) → Probed a (sb16_probe io a)
  unfolding sb16_probe
  probe_lem a =
      let w = reset io a.machine in
      let same = dsp_read-view io view dma w ∙ reset-view io view dma a.machine in
      if-cases (Probed a) (not ((dsp_read io w).0 == 0xAA)) _ _ (λ _. (inl refl, same))
        (λ _. (
          inr (λ j h. (build_clips-Playable a.clips j j (omega arith) h).0),
          dsp_write-view io view dma 0xD1 (dsp_read io w).1 ∙ same,
        ))

  abbrev pub Started : Audio W → Audio W → Type 0
  Started a b = IsReady b × (view b.machine ≡ view a.machine)

  pub init_lem : (a : Audio W) → IsReady a → Started a (audio_init io a)
  unfolding audio_init
  init_lem a h =
      let a' = record a { probed = true } in
      if-cases (Started a) a.probed a
        (record ((sb16_probe io a').1) { present = (sb16_probe io a').0 }) (λ _. (h, refl))
        (λ _. probe_lem a')

  tone_lem : (id : ℕ) (a : Audio W) → view (play_tone io id a).machine ≡ view a.machine
  unfolding play_tone
  tone_lem id a = simp (view-beep, view-sleep) refl

  abbrev Played : Audio W → Audio W → Type 0
  Played a b = IsReady b × Kept (view a.machine) (view b.machine)

  start_lem :
      (now id : ℕ) (a : Audio W)
      → Playable (a.clips.offset id) (a.clips.clip_length id)
      → view (start_clip io now id a).machine
        ≡ programmed (a.clips.offset id) (a.clips.clip_length id)
  unfolding start_clip
  start_lem now id a h =
      sb16_transfer-programmed io view dma (a.clips.offset id) (a.clips.clip_length id)
        (io.inb sb_rstatus a.machine).1 h

  start-IsReady : (now id : ℕ) (a : Audio W) → IsReady a → IsReady (start_clip io now id a)
  unfolding start_clip
  start-IsReady now id a h = h

  clip_lem :
      (id : ℕ) (a : Audio W)
      → IsReady a
      → Playable (a.clips.offset id) (a.clips.clip_length id)
      → Played a (play_clip io id a)
  unfolding play_clip
  clip_lem id a r h =
      let (now, w) = io.ticks a.machine in
      let b = record a { machine = w } in
      if-cases (Played a) (ltb_int now a.busy_until) b (start_clip io now id b)
        (λ _. (r, inl (view-ticks a.machine)))
        (λ _. (
          start-IsReady now id b r,
          inr (a.clips.offset id, a.clips.clip_length id, h, start_lem now id b h),
        ))

  tone-IsReady : (id : ℕ) (a : Audio W) → IsReady a → IsReady (play_tone io id a)
  unfolding play_tone
  tone-IsReady id a h = h

  played_lem :
      (id : ℕ) (a : Audio W)
      → id < snd_count
      → IsReady a
      → Played a (if a.present then play_clip io id a else play_tone io id a)
  played_lem id a h r =
      if-cases (Played a) a.present (play_clip io id a) (play_tone io id a)
        (λ card. clip_lem id a r (present_lem a r card id h))
        (λ none. (tone-IsReady id a r, inl (tone_lem id a)))

  -- On a machine with a DMA controller, from a state in which no card was found or all the clips are
  -- in the buffer, playing any sound leads to such a state again, and leaves the controller as it
  -- was or set to a clip that lies inside the buffer, whose 64 KB are one page.
  pub audio_play-Kept :
      (id : ℕ) (a : Audio W)
      → IsReady a
      → IsReady (audio_play io id a) × Kept (view a.machine) (view (audio_play io id a).machine)
  unfolding audio_play
  audio_play-Kept id a h =
      let a' = audio_init io a in
      let (ready, same) = init_lem a h in
      if-cases (Played a) (int_neg id || leb snd_count id) a
        (if a'.present then play_clip io id a' else play_tone io id a') (λ _. (h, inl refl))
        (λ known.
          moved a a' (if a'.present then play_clip io id a' else play_tone io id a') same
            (played_lem id a' (in_range id known) ready))
    where
      in_range : (id : ℕ) → (int_neg id || leb snd_count id) ≡ false → id < snd_count
      in_range id h = ground (arith, h)

      moved : (a b c : Audio W) → view b.machine ≡ view a.machine → Played b c → Played a c
      moved a b c same (r, inl kept) = (r, inl (kept ∙ same))
      moved a b c same (r, inr set) = (r, inr set)
