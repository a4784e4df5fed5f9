-- ===== src/Host/Desk/Behaved.antt =====
-- What every host function keeps, whatever the guest passes to it.
use jvmos_jit.Base.{
  ℕ, zero, suc, ◌<◌, ◌≡◌, refl, ◌∙◌, inl, inr, Bool, true, false, Option, none, some, List, [], ◌∷◌,
  arith, if-cases, ltb, ◌==◌, if◌then◌else◌,
}
use jvmos_jit.Wasm.Module.{HostFn}
use jvmos_jit.Sound.Clips.{snd_win}
use jvmos_jit.Sound.Card.{Ports, audio_init, sb16_present, audio_play}
use jvmos_jit.Sound.Card.Dma.{Dma, HasDma}
use jvmos_jit.Sound.Card.Played.{IsReady, Kept, init_lem, audio_play-Kept}
use jvmos_jit.Host.Keys.Queue.{IsRing, hf_key-IsRing}
use jvmos_jit.Host.Music.{Music, music_silence, music_select}
use jvmos_jit.Host.Music.Notes.{HasNote}
use jvmos_jit.Host.Window.{Rect}
use jvmos_jit.Host.Picture.{Image}
use jvmos_jit.Host.Desk.{
  Display, Desk, filled, hf_set_color, hf_fill_rect, hf_draw_int, hf_draw_image, hf_width,
  hf_height, hf_key, effect_of, let_breathe, hf_beep, speak, select, hf_music, g_hosts,
}

-- The ring's indices are inside it, the note to be played is one of the track's, and no card was
-- found or all the clips lie in its buffer.
pub record IsSane {V W : Type 0} (d : Desk V W) : Type 0 where
  pub ring : IsRing d.keys
  pub has_note : HasNote d.music
  pub ready : IsReady d.audio

Kept-trans : (a b c : Dma) → Kept a b → Kept b c → Kept a c
Kept-trans a b c (inl same) (inl same') = inl (same' ∙ same)
Kept-trans a b c (inr (o, l, p, e)) (inl same') = inr (o, l, p, same' ∙ e)
Kept-trans a b c h (inr set) = inr set

select-HasNote : (now track : ℕ) (s : Music) → HasNote (music_select now track s).1
unfolding music_select
select-HasNote now track s = positive (track == 1)
  where
    positive : (b : Bool) → 0 < (if b then 6 else 11)
    positive true = omega arith
    positive false = omega arith

select-sound_on : (now track : ℕ) (s : Music) → (music_select now track s).1.sound_on ≡ s.sound_on
unfolding music_select music_silence
select-sound_on now track s =
    if-cases (λ (r : List ℕ × Music). r.1.sound_on ≡ s.sound_on) s.sounding _ _ (λ _. refl)
      (λ _. refl)

module _ {V W : Type 0} (display : Display V) (io : Ports W) (images : ℕ → Image) (image_count : ℕ)
    (view : W → Dma) (dma : HasDma io view) where
  open dma use {view-ticks, view-beep}

  -- What a host function may do: the state stays sane, the window and the switch for the sound stay
  -- what they were, and the DMA controller is left alone or set to a clip.
  abbrev pub Behaves : Desk V W → Desk V W → Type 0
  Behaves d e =
      IsSane e
      × (e.pane ≡ d.pane)
      × (e.music.sound_on ≡ d.music.sound_on)
      × Kept (view d.audio.machine) (view e.audio.machine)

  abbrev pub FnBehaves : HostFn (Desk V W) → Type 0
  FnBehaves fn = (a : ℕ → ℕ) (n : ℕ) (d : Desk V W) → IsSane d → Behaves d (fn a n d).1

  pub still : (d : Desk V W) → IsSane d → Behaves d d
  still d h = (h, refl, refl, inl refl)

  speak-view :
      (beeps : List ℕ) (w : W) → view (speak display io images image_count beeps w) ≡ view w
  unfolding speak
  speak-view [] w = refl
  speak-view (hz ∷ beeps) w = speak-view beeps (io.beep hz w) ∙ view-beep hz w

  play-Behaves :
      (id : ℕ) (d : Desk V W) → IsSane d → Behaves d (record d { audio = audio_play io id d.audio })
  play-Behaves id d h =
      let (ready, kept) = audio_play-Kept io view dma id d.audio h.ready in
      (record { ring = h.ring; has_note = h.has_note; ready = ready }, refl, refl, kept)

  breathe-Behaves :
      (d : Desk V W) → IsSane d → Behaves d (let_breathe display io images image_count d)
  unfolding let_breathe sb16_present
  breathe-Behaves d h =
      let (ready, same) = init_lem io view dma d.audio h.ready in
      if-cases (Behaves d) (audio_init io d.audio).present _ _
        (λ _.
          (record { ring = h.ring; has_note = h.has_note; ready = ready }, refl, refl, inl same))
        (λ _. (
          record { ring = h.ring; has_note = h.has_note; ready = ready },
          refl,
          refl,
          inl (view-ticks (audio_init io d.audio).machine ∙ same),
        ))

  pub Behaves-trans : (d e f : Desk V W) → Behaves d e → (IsSane e → Behaves e f) → Behaves d f
  Behaves-trans d e f (sane, pane, sound, kept) next =
      let (sane', pane', sound', kept') = next sane in
      (sane', pane' ∙ pane, sound' ∙ sound, Kept-trans _ _ _ kept kept')

  select-Behaves :
      (track : ℕ) (d : Desk V W)
      → IsSane d
      → Behaves d (select display io images image_count track d)
  unfolding select
  select-Behaves track d h =
      let w = speak display io images image_count (music_silence d.music).0 d.audio.machine in
      let now = (io.ticks w).0 in
      (
        record { ring = h.ring; has_note = select-HasNote now track d.music; ready = h.ready },
        refl,
        select-sound_on now track d.music,
        inl (view-ticks w ∙ speak-view (music_silence d.music).0 d.audio.machine),
      )

  hf_beep-Behaves : FnBehaves (hf_beep display io images image_count)
  unfolding hf_beep
  hf_beep-Behaves a n d h =
      let played = record d { audio = audio_play io (effect_of (a 0)) d.audio } in
      if-cases (Behaves d) (ltb n 2) d (let_breathe display io images image_count played)
        (λ _. still d h)
        (λ _.
          Behaves-trans d played (let_breathe display io images image_count played)
            (play-Behaves (effect_of (a 0)) d h) (breathe-Behaves played))

  hf_music-Behaves : FnBehaves (hf_music display io images image_count)
  unfolding hf_music
  hf_music-Behaves a n d h =
      if-cases (Behaves d) (ltb n 1) d _ (λ _. still d h)
        (λ _.
          if-cases (Behaves d) (a 0 == 1) _ (select display io images image_count (a 0) d)
            (λ _. play-Behaves snd_win d h) (λ _. select-Behaves (a 0) d h))

  color-Behaves : FnBehaves (hf_set_color display io images image_count)
  unfolding hf_set_color
  color-Behaves a n d h =
      if-cases (Behaves d) (ltb 0 n) _ d
        (λ _.
          (record { ring = h.ring; has_note = h.has_note; ready = h.ready }, refl, refl, inl refl))
        (λ _. still d h)

  filled-Behaves :
      (d : Desk V W) (r : Option Rect)
      → IsSane d
      → Behaves d (filled display io images image_count d r)
  filled-Behaves d none h = still d h
  filled-Behaves d (some r) h =
      (record { ring = h.ring; has_note = h.has_note; ready = h.ready }, refl, refl, inl refl)

  fill-Behaves : FnBehaves (hf_fill_rect display io images image_count)
  unfolding hf_fill_rect
  fill-Behaves a n d h =
      if-cases (Behaves d) (ltb n 4) d _ (λ _. still d h) (λ _. filled-Behaves d _ h)

  -- A step that only draws.
  drawn : (d : Desk V W) (v : V) → IsSane d → Behaves d (record d { screen = v })
  drawn d v h =
      (record { ring = h.ring; has_note = h.has_note; ready = h.ready }, refl, refl, inl refl)

  digits-Behaves : FnBehaves (hf_draw_int display io images image_count)
  unfolding hf_draw_int
  digits-Behaves a n d h = if-cases (Behaves d) (ltb n 3) d _ (λ _. still d h) (λ _. drawn d _ h)

  image-Behaves : FnBehaves (hf_draw_image display io images image_count)
  unfolding hf_draw_image
  image-Behaves a n d h = if-cases (Behaves d) (ltb n 4) d _ (λ _. still d h) (λ _. drawn d _ h)

  width-Behaves : FnBehaves (hf_width display io images image_count)
  unfolding hf_width
  width-Behaves a n d h = still d h

  height-Behaves : FnBehaves (hf_height display io images image_count)
  unfolding hf_height
  height-Behaves a n d h = still d h

  key-Behaves : FnBehaves (hf_key display io images image_count)
  unfolding hf_key
  key-Behaves a n d h = (
    record { ring = hf_key-IsRing d.keys h.ring; has_note = h.has_note; ready = h.ready },
    refl,
    refl,
    inl refl,
  )

  table-Behaves : (i : ℕ) → FnBehaves ((g_hosts display io images image_count i).fn)
  unfolding g_hosts
  table-Behaves zero = color-Behaves
  table-Behaves (suc zero) = fill-Behaves
  table-Behaves (suc (suc zero)) = digits-Behaves
  table-Behaves (suc (suc (suc zero))) = image-Behaves
  table-Behaves (suc (suc (suc (suc zero)))) = width-Behaves
  table-Behaves (suc (suc (suc (suc (suc zero))))) = height-Behaves
  table-Behaves (suc (suc (suc (suc (suc (suc zero)))))) = key-Behaves
  table-Behaves (suc (suc (suc (suc (suc (suc (suc zero))))))) = hf_beep-Behaves
  table-Behaves (suc (suc (suc (suc (suc (suc (suc (suc zero)))))))) = hf_music-Behaves
  table-Behaves (suc (suc (suc (suc (suc (suc (suc (suc (suc i))))))))) = λ a n d h. still d h

  -- From a sane state, on a machine with a DMA controller, no entry of the table of host functions
  -- can do harm, whatever its arguments and their number: the state is sane again, the window and
  -- the switch for the sound are what they were, and the DMA controller is left alone or set to a
  -- clip of the buffer.
  pub g_hosts-Behaves :
      (i : ℕ) (a : ℕ → ℕ) (n : ℕ) (d : Desk V W)
      → IsSane d
      → Behaves d ((g_hosts display io images image_count i).fn a n d).1
  g_hosts-Behaves i a n d h = table-Behaves i a n d h
