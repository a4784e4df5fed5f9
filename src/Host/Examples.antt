-- ===== src/Host/Examples.antt =====
-- Concrete states of the bridge: the key queue with two keys that wait, a rectangle that sticks out,
-- a note that sounds, and a module that leaves a value in the memory.
use jvmos_jit.Base.{
  inl, ◌≢◌, ℕ, ◌≤◌, refl, true, false, ◌+◌, ◌-◌, ◌^◌, ◌≡◌, [], ◌∷◌, ◌++◌, arith, ◌==◌,
  if◌then◌else◌,
}
use jvmos_jit.Wasm.Load.{cleared}
use jvmos_jit.Wasm.Module.{WasmModule, HostEntry}
use jvmos_jit.Base.Word.{magnitude}
use jvmos_jit.Host.Digits.{int_digits, draw_int}
use jvmos_jit.Host.Digits.Decimal.{spelled, has_sign, int_digits-spelled}
use jvmos_jit.Host.Digits.Inside.{AllFit, draw_int-AllFit}
use jvmos_jit.Host.Programs.{g_mem_size, Bridge, use_module}
use jvmos_jit.Host.Programs.Apart.{left_behind, use_module-apart}
use jvmos_jit.Host.Music.{nth, Music, wasm_music_tick}
use jvmos_jit.Host.Music.Notes.{Alternates, wasm_music_tick-Alternates}
use jvmos_jit.Base.Word.{int_neg}
use jvmos_jit.Host.Window.{Rect, clamp_rect}
use jvmos_jit.Host.Window.Inside.{Within, clamp_rect-Within}
use jvmos_jit.Sound.Card.{Ports}
use jvmos_jit.Sound.Card.Dma.{Dma, dma_out, HasDma}
use jvmos_jit.Host.Keys.Delivery.{read_keys, wasm_push_key-read_keys}
use jvmos_jit.Host.Picture.{Image, Pane, Clip, pixel_offset, draw_image}
use jvmos_jit.Host.Picture.Clipping.{InView, IsBuffer, draw_image-Same}
use jvmos_jit.Wasm.Module.Post.{Sound}
use jvmos_jit.Host.Programs.{call_frame}
use jvmos_jit.Host.Desk.Guest.{AnswerBehaves, call_frame-Behaves}
use jvmos_jit.Host.Desk.{drop_keys, Display, Desk, g_hosts}
use jvmos_jit.Host.Desk.Behaved.{IsSane, Behaves, g_hosts-Behaves}
use jvmos_jit.Host.Keys.{Keys, wasm_push_key}
use jvmos_jit.Host.Keys.Queue.{IsRing, queue}

abbrev keys : Keys
keys = record { slot = λ i. i + 1; head = 15; tail = 1 }

keys-IsRing : IsRing keys
keys-IsRing = record { head_fits = omega arith; tail_fits = omega arith }

abbrev asked : Rect
asked = record { x = 2 ^ 32 - 3; y = 5; w = 10; h = 1000 }

clamp_rect-Within_example : Within 100 50 (clamp_rect 100 50 asked)
clamp_rect-Within_example =
    clamp_rect-Within 100 50 asked (omega arith) (omega arith) (omega arith) (omega arith)
      (omega arith) (omega arith)

abbrev sounding : Music
sounding = record {
  track = 2;
  note = 10;
  resting = true;
  note_at = 900;
  sounding = true;
  sound_on = true;
}

wasm_music_tick-Alternates_example : Alternates 262 sounding (wasm_music_tick true 1000 sounding)
wasm_music_tick-Alternates_example =
    wasm_music_tick-Alternates 262 1000 sounding (omega arith) (λ off. ground (arith, off)) refl
      refl (omega arith) (omega arith)

abbrev no_hosts : ℕ → HostEntry (Unit {0})
no_hosts i = record { module_name = λ k. 0; name = λ k. 0; fn = λ a n u. (0, u) }

-- The header of a module without sections.
abbrev empty_module : ℕ → ℕ
empty_module = nth (0 ∷ 0x61 ∷ 0x73 ∷ 0x6D ∷ 1 ∷ [])

abbrev bridge : Bridge (Unit {0})
bridge = record {
  module_state = cleared true (λ i. 0) 65536 no_hosts 0 tt;
  loaded = false;
  failed = 0;
  from_disk = false;
  prog = λ i. 0;
}

abbrev used : WasmModule (Unit {0})
used = record (bridge.module_state) { mem = λ i. if i == 7 then 1 else 0; sp = 3 }

untouched : (i : ℕ) → g_mem_size ≤ i → used.mem i ≡ 0
untouched i h = ground (arith, h)

use_module-apart_example :
    use_module no_hosts 0 (λ u. u) empty_module 8 true (left_behind bridge used true 2)
    ≡ use_module no_hosts 0 (λ u. u) empty_module 8 true bridge
unfolding cleared
use_module-apart_example =
    use_module-apart no_hosts 0 (λ u. u) empty_module 8 true bridge used true 2 refl untouched

-- The number -305.
abbrev minus_305 : ℕ
minus_305 = 2 ^ 32 - 305

int_digits-spelled_example :
    (spelled (int_digits minus_305) ≡ magnitude minus_305)
    × (has_sign (int_digits minus_305) ≡ int_neg minus_305)
int_digits-spelled_example = int_digits-spelled minus_305 (omega arith)

draw_int-AllFit_example : AllFit 30 20 (draw_int 30 20 minus_305 2 4)
draw_int-AllFit_example =
    draw_int-AllFit 30 20 minus_305 2 4 (omega arith) (omega arith) (omega arith)
      (inl (omega arith)) (omega arith)

wasm_push_key-read_keys_example : read_keys 3 (wasm_push_key 9 keys) ≡ queue keys ++ (9 ∷ [])
wasm_push_key-read_keys_example = wasm_push_key-read_keys 9 keys keys-IsRing refl refl

-- A screen as a map from distances to colours, with a window of 10 by 10 pixels.
abbrev write : (offset color : ℕ) → (ℕ → ℕ) → ℕ → ℕ
write offset color v k = if offset == k then color else v k

write-IsBuffer : IsBuffer write (λ v k. v k)
write-IsBuffer = record { store_apart = λ offset color v k h. grind (arith, h) }

abbrev pane : Pane
pane = record { ox = 10; oy = 10; ow = 10; oh = 10 }

abbrev whole : Clip
whole = record { x = 0; y = 0; x2 = 1000; y2 = 1000 }

abbrev dots : ℕ → Image
dots i = record { pixels = λ k. 0; palette = λ k. 255; width = 3; height = 2 }

-- The first pixel of the screen is none of the window's.
corner_apart : (px py : ℕ) → InView pane whole px py → pixel_offset 4000 px py ≢ 0
corner_apart px py h e = ground (arith, h, e)

draw_image-Same_example : draw_image write 4000 pane whole dots 5 2 0 0 4 (λ k. 7) 0 ≡ 7
draw_image-Same_example =
    draw_image-Same write (λ v k. v k) write-IsBuffer 4000 pane whole 0 corner_apart dots 5 2 0 0 4
      (λ k. 7)

abbrev ports : Ports Dma
ports = record {
  inb = λ port d. (0xAA, d);
  outb = dma_out;
  ticks = λ d. (1000, d);
  beep = λ hz d. d;
  sleep = λ ms d. d;
}

ports-HasDma : HasDma ports (λ d. d)
ports-HasDma = record {
  view-outb = λ port value d. refl;
  view-inb = λ port d. refl;
  view-ticks = λ d. refl;
  view-beep = λ hz d. refl;
  view-sleep = λ ms d. refl;
}

abbrev display : Display (ℕ → ℕ)
display = record {
  set_color = λ color v. v;
  fill_rect = λ r v. write r.x r.w v;
  draw_char = λ g color v. write g.px color v;
  store = write;
  clip = λ v. whole;
  pitch = 4000;
}

abbrev desk : Desk (ℕ → ℕ) Dma
desk = record {
  pane = pane;
  color = 255;
  keys = keys;
  music = sounding;
  screen = λ k. 0;
  audio = record {
    present = false;
    probed = false;
    busy_until = 0;
    clips = record { buf = λ k. 0; offset = λ i. 0; clip_length = λ i. 0; at = 0 };
    machine = record { masked = true; high = true; page = 7; address = 9; counter = 11 };
  };
}

desk-IsSane : IsSane desk
desk-IsSane = record { ring = keys-IsRing; has_note = omega arith; ready = inl refl }

-- `beep` with a high pitch.
g_hosts-Behaves_example :
    Behaves display ports dots 5
      (λ d. d)
      ports-HasDma
      desk
      ((g_hosts display ports dots 5 7).fn (λ i. 900) 2 desk).1
g_hosts-Behaves_example =
    g_hosts-Behaves display ports dots 5 (λ d. d) ports-HasDma 7 (λ i. 900) 2 desk desk-IsSane

-- A module whose only function, exported as `frame`, is the import `width`.
abbrev measuring : WasmModule (Desk (ℕ → ℕ) Dma)
measuring = record (cleared true (λ i. 0) 65536 (g_hosts display ports dots 5) 9 desk) {
  types = λ i. record { nparams = 0; nresults = 1 };
  ntypes = 1;
  funcs = λ i. record { type = 0; code = 0; code_end = 0; nlocals = 0; imported = true; host = 4 };
  nfuncs = 1;
  exports = λ i. record { name = 0; namelen = 5; kind = 0; index = 0 };
  nexports = 1;
}

-- The text `frame`.
abbrev frame_text : ℕ → ℕ
frame_text = nth (0x66 ∷ 0x72 ∷ 0x61 ∷ 0x6D ∷ 0x65 ∷ [])

abbrev measured : Bridge (Desk (ℕ → ℕ) Dma)
measured = record {
  module_state = measuring;
  loaded = true;
  failed = 0;
  from_disk = false;
  prog = λ i. 0;
}

measuring-Sound : Sound measuring
unfolding cleared
measuring-Sound = record {
  sp_fits = omega arith;
  lp_fits = omega arith;
  cp_fits = omega arith;
  labels_fit = λ i. omega arith;
  limit_fits = omega arith;
}

call_frame-Behaves_example :
    AnswerBehaves display ports dots 5
      (λ d. d)
      ports-HasDma
      measuring.user
      (call_frame (g_hosts display ports dots 5) 9 drop_keys frame_text 5 100 frame_text measured)
unfolding cleared
call_frame-Behaves_example =
    call_frame-Behaves display ports dots 5 (λ d. d) ports-HasDma frame_text 5 100 frame_text
      measured measuring-Sound refl desk-IsSane
