-- ===== src/Sound/Examples.antt =====
-- A machine that is nothing but a DMA controller, with a card whose ports always answer 0xAA.
use jvmos_jit.Base.{ℕ, ◌+◌, ◌≤◌, ◌≡◌, refl, ◌⊎◌, inl, true, false, arith}
use jvmos_jit.Base.Word.{neg32}
use jvmos_jit.Sound.Mix.{mix_byte}
use jvmos_jit.Sound.Mix.Saturation.{saturated, mix_byte-saturated}
use jvmos_jit.Sound.Clips.{Clips, build_clips}
use jvmos_jit.Sound.Clips.Layout.{Playable, build_clips-Playable}
use jvmos_jit.Sound.Card.{Ports, Audio, program_dma, audio_play}
use jvmos_jit.Sound.Card.Dma.{Dma, dma_out, HasDma, programmed, program_dma-programmed}
use jvmos_jit.Sound.Card.Played.{IsReady, Kept, audio_play-Kept}

louder : mix_byte 250 20 ≡ 255
unfolding mix_byte
louder = refl

mix_byte-saturated_example : mix_byte 3 (neg32 20) ≡ saturated 3 (neg32 20)
mix_byte-saturated_example =
    mix_byte-saturated 3 (neg32 20) (omega arith) (omega arith) (omega arith)

abbrev unbuilt : Clips
unbuilt = record { buf = λ k. 0; offset = λ i. 0; clip_length = λ i. 0; at = 0 }

abbrev click : ℕ
click = 1

build_clips-Playable_example :
    Playable ((build_clips unbuilt).offset 6) ((build_clips unbuilt).clip_length 6)
    × ((click ≡ 6)
        ⊎ ((build_clips unbuilt).offset 1 + (build_clips unbuilt).clip_length 1
            ≤ (build_clips unbuilt).offset 6))
build_clips-Playable_example = build_clips-Playable unbuilt 1 6 (omega arith) (omega arith)

abbrev ports : Ports Dma
ports = record {
  inb = λ port d. (0xAA, d);
  outb = dma_out;
  ticks = λ d. (1000, d);
  beep = λ hz d. d;
  sleep = λ ms d. d;
}

ports-HasDma : HasDma ports (λ d. d)
ports-HasDma = record {
  view-outb = λ port value d. refl;
  view-inb = λ port d. refl;
  view-ticks = λ d. refl;
  view-beep = λ hz d. refl;
  view-sleep = λ ms d. refl;
}

abbrev idle : Dma
idle = record { masked = true; high = true; page = 7; address = 9; counter = 11 }

program_dma-programmed_example : program_dma ports 22050 771 idle ≡ programmed 22050 771
program_dma-programmed_example =
    program_dma-programmed ports (λ d. d) ports-HasDma 22050 771 idle (omega arith, omega arith)

abbrev silent : Audio Dma
silent = record { present = false; probed = false; busy_until = 0; clips = unbuilt; machine = idle }

audio_play-Kept_example :
    IsReady (audio_play ports 4 silent) × Kept idle (audio_play ports 4 silent).machine
audio_play-Kept_example = audio_play-Kept ports (λ d. d) ports-HasDma 4 silent (inl refl)
