-- ===== src/Host/Desk.antt =====
-- The host functions of wasm/host.c as a table, `g_hosts`, on the bridge's state and the machine
-- behind it, and `wasm_set_sound`.
--
-- `audio_play` and `sb16_present` are those of wasm/sb16.c on the ports `io`; the drawing calls are
-- those of `display`. The pictures are generated.
pub mod Behaved
pub mod Guest
use jvmos_jit.Base.{
  ℕ, zero, suc, ◌+◌, ◌-◌, ◌*◌, ◌^◌, Bool, true, false, not, ◌||◌, Option, none, some, List, [], ◌∷◌,
  get_or, bit_and, ltb, ◌==◌, if◌then◌else◌,
}
use jvmos_jit.Base.Word.{add32, int_neg, ltb_int}
use jvmos_jit.Wasm.Reader.{Bytes}
use jvmos_jit.Wasm.Module.{HostFn, HostEntry}
use jvmos_jit.Wasm.Exec.Call.{wasm_call}
use jvmos_jit.Sound.Clips.{snd_step, snd_push, snd_bump, snd_win}
use jvmos_jit.Sound.Card.{Ports, Audio, sb16_present, audio_play}
use jvmos_jit.Host.Keys.{Keys, hf_key as take_key}
use jvmos_jit.Host.Music.{Music, nth, music_gap, music_silence, music_select}
use jvmos_jit.Host.Window.{Rect, clamp_rect}
use jvmos_jit.Host.Digits.{Glyph, draw_int}
use jvmos_jit.Host.Picture.{Image, Pane, Clip, draw_image}
use jvmos_jit.Host.Programs.{Bridge, Answer, answer, astray, called, running}

-- `sys_set_color`, `sys_fill_rect`, `draw_char_vram`, writes into `vram_back_buffer`, the clip
-- rectangle, and `g_pitch`.
pub record Display (V : Type 0) : Type 0 where
  pub set_color : ℕ → V → V
  pub fill_rect : Rect → V → V
  pub draw_char : Glyph → (color : ℕ) → V → V
  pub store : (offset color : ℕ) → V → V
  pub clip : V → Clip
  pub pitch : ℕ

-- The window, `g_color`, the keys, the sequencer, the screen, and the sound with the machine.
pub record Desk (V W : Type 0) : Type 0 where
  pub pane : Pane
  pub color : ℕ
  pub keys : Keys
  pub music : Music
  pub screen : V
  pub audio : Audio W

-- Which effect a pitch becomes.
abbrev pub effect_of : (hz : ℕ) → ℕ
effect_of hz = if ltb_int hz 200 then snd_bump else if ltb_int hz 700 then snd_push else snd_step

-- The names of the table, in its order.
abbrev pub name_codes : List (List ℕ)
name_codes =
    (0x73 ∷ 0x65 ∷ 0x74 ∷ 0x5F ∷ 0x63 ∷ 0x6F ∷ 0x6C ∷ 0x6F ∷ 0x72 ∷ [])
    ∷ (0x66 ∷ 0x69 ∷ 0x6C ∷ 0x6C ∷ 0x5F ∷ 0x72 ∷ 0x65 ∷ 0x63 ∷ 0x74 ∷ [])
    ∷ (0x64 ∷ 0x72 ∷ 0x61 ∷ 0x77 ∷ 0x5F ∷ 0x69 ∷ 0x6E ∷ 0x74 ∷ [])
    ∷ (0x64 ∷ 0x72 ∷ 0x61 ∷ 0x77 ∷ 0x5F ∷ 0x69 ∷ 0x6D ∷ 0x61 ∷ 0x67 ∷ 0x65 ∷ [])
    ∷ (0x77 ∷ 0x69 ∷ 0x64 ∷ 0x74 ∷ 0x68 ∷ [])
    ∷ (0x68 ∷ 0x65 ∷ 0x69 ∷ 0x67 ∷ 0x68 ∷ 0x74 ∷ [])
    ∷ (0x6B ∷ 0x65 ∷ 0x79 ∷ [])
    ∷ (0x62 ∷ 0x65 ∷ 0x65 ∷ 0x70 ∷ [])
    ∷ (0x6D ∷ 0x75 ∷ 0x73 ∷ 0x69 ∷ 0x63 ∷ [])
    ∷ []

-- `g_key_head = 0; g_key_tail = 0;`
abbrev pub drop_keys : {V W : Type 0} → Desk V W → Desk V W
drop_keys d = record d { keys = record (d.keys) { head = 0; tail = 0 } }

module _ {V W : Type 0} (display : Display V) (io : Ports W) (images : ℕ → Image)
    (image_count : ℕ) where
  unfoldable pub hf_set_color : HostFn (Desk V W)
  hf_set_color a n d =
      let color = bit_and (a 0) 0x00FF_FFFF in
      (
        0,
        if ltb 0 n
            then record d { color = color; screen = display.set_color color d.screen }
            else d,
      )

  abbrev pub filled : Desk V W → Option Rect → Desk V W
  filled d none = d
  filled d (some r) = record d {
    screen =
        display.fill_rect (record r { x = add32 d.pane.ox r.x; y = add32 d.pane.oy r.y }) d.screen;
  }

  unfoldable pub hf_fill_rect : HostFn (Desk V W)
  unfolding clamp_rect
  hf_fill_rect a n d =
      let asked : Rect = record { x = a 0; y = a 1; w = a 2; h = a 3 } in
      (0, if ltb n 4 then d else filled d (clamp_rect d.pane.ow d.pane.oh asked))

  unfoldable pub draw_glyphs : Pane → (color : ℕ) → List Glyph → V → V
  draw_glyphs p color [] v = v
  draw_glyphs p color (g ∷ gs) v =
      draw_glyphs p color gs
        (display.draw_char (record g { px = add32 p.ox g.px; py = add32 p.oy g.py }) color v)

  unfoldable pub hf_draw_int : HostFn (Desk V W)
  unfolding draw_int draw_glyphs
  hf_draw_int a n d =
      let glyphs = draw_int d.pane.ow d.pane.oh (a 0) (a 1) (a 2) in
      (0, if ltb n 3 then d else record d { screen = draw_glyphs d.pane d.color glyphs d.screen })

  unfoldable pub hf_draw_image : HostFn (Desk V W)
  unfolding draw_image
  hf_draw_image a n d = (
    0,
    if ltb n 4 then d else record d {
      screen =
          draw_image display.store display.pitch d.pane (display.clip d.screen) images image_count
            (a 0) (a 1) (a 2) (a 3) d.screen;
    },
  )

  unfoldable pub hf_width : HostFn (Desk V W)
  hf_width a n d = (d.pane.ow, d)

  unfoldable pub hf_height : HostFn (Desk V W)
  hf_height a n d = (d.pane.oh, d)

  unfoldable pub hf_key : HostFn (Desk V W)
  unfolding take_key
  hf_key a n d = let (k, q) = take_key d.keys in (k, record d { keys = q })

  -- `if (!sb16_present()) { ... }`
  unfoldable pub let_breathe : Desk V W → Desk V W
  unfolding sb16_present
  let_breathe d =
      let (present, audio) = sb16_present io d.audio in
      let (now, w) = io.ticks audio.machine in
      if present then record d { audio = audio } else record d {
        audio = record audio { machine = w };
        music = record (d.music) { sounding = false; note_at = add32 now music_gap };
      }

  unfoldable pub hf_beep : HostFn (Desk V W)
  unfolding audio_play let_breathe
  hf_beep a n d = (
    0,
    if ltb n 2
        then d
        else let_breathe (record d { audio = audio_play io (effect_of (a 0)) d.audio }),
  )

  -- The calls of `sys_beep`, in their order.
  unfoldable pub speak : List ℕ → W → W
  speak [] w = w
  speak (hz ∷ beeps) w = speak beeps (io.beep hz w)

  unfoldable pub select : (track : ℕ) → Desk V W → Desk V W
  unfolding music_silence music_select speak
  select track d =
      let (now, w) = io.ticks (speak (music_silence d.music).0 d.audio.machine) in
      record d {
        audio = record (d.audio) { machine = w };
        music = (music_select now track d.music).1;
      }

  unfoldable pub hf_music : HostFn (Desk V W)
  unfolding audio_play select
  hf_music a n d = (
    0,
    if ltb n 1
        then d
        else if a 0 == 1
        then record d { audio = audio_play io snd_win d.audio }
        else select (a 0) d,
  )

  abbrev pub host_entry : List ℕ → HostFn (Desk V W) → HostEntry (Desk V W)
  host_entry name fn = record {
    module_name = nth (0x65 ∷ 0x6E ∷ 0x76 ∷ []);
    name = nth name;
    fn = fn;
  }

  abbrev pub host_functions : List (HostFn (Desk V W))
  host_functions =
      hf_set_color ∷ hf_fill_rect ∷ hf_draw_int ∷ hf_draw_image ∷ hf_width ∷ hf_height ∷ hf_key
      ∷ hf_beep ∷ hf_music ∷ []

  -- The table, by its index; behind its nine entries there are functions that do nothing.
  unfoldable pub g_hosts : ℕ → HostEntry (Desk V W)
  unfolding nth hf_set_color hf_fill_rect hf_draw_int hf_draw_image hf_width hf_height hf_key
      hf_beep hf_music
  g_hosts i = host_entry (get_or name_codes i []) (get_or host_functions i (λ a n d. (0, d)))

  -- `g_sound_on = on ? 1 : 0; if (!g_sound_on) music_silence();`
  unfoldable pub switch_sound : (on : ℕ) → Desk V W → Desk V W
  unfolding music_silence speak
  switch_sound on d =
      let music = record (d.music) { sound_on = not (on == 0) } in
      if on == 0
      then record d {
        music = (music_silence music).1;
        audio = record (d.audio) { machine = speak (music_silence music).0 d.audio.machine };
      }
      else record d { music = music }

  -- What the guest answers is not looked at.
  abbrev pub unheard : Answer (Desk V W) → Answer (Desk V W)
  unheard (answer r s) = answer 0 s
  unheard astray = astray

  unfoldable pub wasm_set_sound :
      (builtin : Bytes)
      → (fuel : ℕ) → (name : ℕ → ℕ) → (on : ℕ) → Bridge (Desk V W)
      → Answer (Desk V W)
  unfolding switch_sound wasm_call
  wasm_set_sound builtin fuel name on s =
      let m = s.module_state in
      let s' = record s { module_state = record m { user = switch_sound on m.user } } in
      if not s.loaded || not (s.failed == 0)
      then answer 0 s'
      else unheard (
          called (g_hosts) 9 drop_keys builtin 0 fuel name s' (
            wasm_call fuel (running (g_hosts) 9 drop_keys builtin 0 fuel name s') name (on ∷ [])
              s'.module_state))
