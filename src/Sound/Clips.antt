-- ===== src/Sound/Clips.antt =====
-- The clips of wasm/sb16.c: `reserve` and `build_clips`.
--
-- The tones of a clip are a list, in the order of the calls of `mix_tone`.
pub mod Layout
use jvmos_jit.Base.{ℕ, zero, suc, ◌+◌, ◌-◌, ◌*◌, ◌/◌, ◌%◌, ◌^◌, List, [], ◌∷◌, ltb, if◌then◌else◌}
use jvmos_jit.Base.Word.{add32, sub32, ltb_int}
use jvmos_jit.Wasm.Module.{update}
use jvmos_jit.Sound.Mix.{sb_rate, dma_bytes, samples_of, fill_silence, mix_tone}

abbrev pub snd_boot : ℕ
snd_boot = 0

abbrev pub snd_click : ℕ
snd_click = 1

abbrev pub snd_deny : ℕ
snd_deny = 2

abbrev pub snd_step : ℕ
snd_step = 3

abbrev pub snd_push : ℕ
snd_push = 4

abbrev pub snd_bump : ℕ
snd_bump = 5

abbrev pub snd_win : ℕ
snd_win = 6

abbrev pub snd_count : ℕ
snd_count = 7

-- The buffer, `g_offset` and `g_length`, and the local variable `at`.
pub record Clips : Type 0 where
  pub buf : ℕ → ℕ
  pub offset : ℕ → ℕ
  pub clip_length : ℕ → ℕ
  pub at : ℕ

-- The arguments of a call of `mix_tone` behind the buffer and the base.
pub record Tone : Type 0 where
  pub delay_ms : ℕ
  pub hz : ℕ
  pub ms : ℕ
  pub vol_from : ℕ
  pub vol_to : ℕ

-- The samples of a clip, as many as the buffer still has room for.
unfoldable pub room_for : (at ms : ℕ) → ℕ
unfolding samples_of
room_for at ms =
    let samples = samples_of ms in
    if ltb_int dma_bytes (add32 at samples) then sub32 dma_bytes at else samples

-- The base that is returned is `at` before the call.
unfoldable pub reserve : (id ms : ℕ) → Clips → Clips
unfolding room_for fill_silence
reserve id ms c =
    let samples = room_for c.at ms in
    record {
      buf = fill_silence c.buf c.at samples;
      offset = update c.offset id c.at;
      clip_length = update c.clip_length id samples;
      at = add32 c.at samples;
    }

unfoldable pub mix_tones : List Tone → (base : ℕ) → Clips → Clips
unfolding mix_tone
mix_tones [] base c = c
mix_tones (t ∷ ts) base c =
    mix_tones ts base
      (record c { buf = mix_tone c.buf base t.delay_ms t.hz t.ms t.vol_from t.vol_to })

abbrev pub tone : (delay_ms hz ms vol_from vol_to : ℕ) → Tone
tone delay_ms hz ms vol_from vol_to = record {
  delay_ms = delay_ms;
  hz = hz;
  ms = ms;
  vol_from = vol_from;
  vol_to = vol_to;
}

-- `base = reserve(&at, id, ms);` and the tones that are mixed there.
unfoldable pub add_clip : (id ms : ℕ) → List Tone → Clips → Clips
unfolding reserve mix_tones
add_clip id ms tones c = mix_tones tones c.at (reserve id ms c)

abbrev pub boot_tones : List Tone
boot_tones =
    tone 0 262 950 90 0 ∷ tone 140 330 810 80 0 ∷ tone 280 392 670 75 0 ∷ tone 420 523 530 70 0 ∷ []

abbrev pub click_tones : List Tone
click_tones = tone 0 1900 30 120 0 ∷ tone 0 2850 22 60 0 ∷ []

abbrev pub deny_tones : List Tone
deny_tones = tone 0 200 140 200 0 ∷ tone 0 208 140 140 0 ∷ []

abbrev pub step_tones : List Tone
step_tones = tone 0 1200 40 190 0 ∷ []

abbrev pub push_tones : List Tone
push_tones = tone 0 320 90 230 0 ∷ tone 0 161 90 120 0 ∷ []

abbrev pub bump_tones : List Tone
bump_tones = tone 0 110 120 240 0 ∷ tone 0 165 60 90 0 ∷ []

abbrev pub win_tones : List Tone
win_tones =
    tone 0 392 300 110 0
    ∷ tone 110 494 300 110 0
    ∷ tone 220 587 300 110 0
    ∷ tone 330 784 190 130 0
    ∷ []

-- From the buffer and the tables as they are.
unfoldable pub build_clips : Clips → Clips
unfolding add_clip
build_clips c =
    let c = add_clip snd_boot 1000 boot_tones (record c { at = 0 }) in
    let c = add_clip snd_click 35 click_tones c in
    let c = add_clip snd_deny 150 deny_tones c in
    let c = add_clip snd_step 45 step_tones c in
    let c = add_clip snd_push 95 push_tones c in
    let c = add_clip snd_bump 125 bump_tones c in add_clip snd_win 520 win_tones c
