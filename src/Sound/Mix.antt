-- ===== src/Sound/Mix.antt =====
-- The buffer of wasm/sb16.c: `fill_silence` and `mix_tone`.
--
-- The buffer is a function of the distance from `DMA_BUFFER`. Numbers are the bit patterns of `int`s
-- and `unsigned`s.
pub mod Saturation
pub mod Span
use jvmos_jit.Base.{
  ℕ, zero, suc, ◌+◌, ◌-◌, ◌*◌, ◌/◌, ◌%◌, ◌^◌, Bool, not, List, [], ◌∷◌, get_or, ltb, if◌then◌else◌,
}
use jvmos_jit.Base.Word.{mul32, u8, u32, add32, sub32, neg32, ltb_int}
use jvmos_jit.Wasm.Alu.{div_int}
use jvmos_jit.Wasm.Module.{update}

abbrev pub sb_rate : ℕ
sb_rate = 22050

abbrev pub dma_bytes : ℕ
dma_bytes = 65536

abbrev pub sine : List ℕ
sine =
    0
    ∷ 25
    ∷ 49
    ∷ 71
    ∷ 90
    ∷ 106
    ∷ 117
    ∷ 125
    ∷ 127
    ∷ 125
    ∷ 117
    ∷ 106
    ∷ 90
    ∷ 71
    ∷ 49
    ∷ 25
    ∷ 0
    ∷ neg32 25
    ∷ neg32 49
    ∷ neg32 71
    ∷ neg32 90
    ∷ neg32 106
    ∷ neg32 117
    ∷ neg32 125
    ∷ neg32 127
    ∷ neg32 125
    ∷ neg32 117
    ∷ neg32 106
    ∷ neg32 90
    ∷ neg32 71
    ∷ neg32 49
    ∷ neg32 25
    ∷ []

-- `SB_RATE * ms / 1000`
unfoldable pub samples_of : ℕ → ℕ
unfolding div_int
samples_of ms = div_int (mul32 sb_rate ms) 1000

-- The rounds that are left, from `i` on.
unfoldable pub silence_loop : ℕ → (at i : ℕ) → (ℕ → ℕ) → ℕ → ℕ
silence_loop zero at i buf = buf
silence_loop (suc left) at i buf =
    let rest = silence_loop left at (i + 1) (update buf (add32 at i) 128) in
    if ltb_int (add32 at i) dma_bytes then rest else buf

-- `samples` as an `int` that may be negative.
unfoldable pub rounds_of : ℕ → ℕ
rounds_of samples = if ltb_int 0 samples then samples else 0

unfoldable pub fill_silence : (ℕ → ℕ) → (at samples : ℕ) → ℕ → ℕ
unfolding silence_loop rounds_of
fill_silence buf at samples = silence_loop (rounds_of samples) at 0 buf

-- A sample on top of a byte of the buffer.
unfoldable pub mix_byte : (byte sample : ℕ) → ℕ
mix_byte byte sample =
    let mixed = add32 (sub32 byte 128) sample in
    let low = if ltb_int 127 mixed then 127 else mixed in
    let clamped = if ltb_int low (neg32 128) then neg32 128 else low in u8 (add32 128 clamped)

-- The sample at a phase, under a volume that goes from one value to another.
unfoldable pub sample_at : (phase vol_from vol_to i samples : ℕ) → ℕ
unfolding div_int
sample_at phase vol_from vol_to i samples =
    let volume = add32 vol_from (div_int (mul32 (sub32 vol_to vol_from) i) samples) in
    div_int (mul32 (get_or sine (phase / 2 ^ 12 % 32) 0) volume) 255

unfoldable pub mix_loop : ℕ → (start i phase step vol_from vol_to samples : ℕ) → (ℕ → ℕ) → ℕ → ℕ
unfolding mix_byte sample_at
mix_loop zero start i phase step vol_from vol_to samples buf = buf
mix_loop (suc left) start i phase step vol_from vol_to samples buf =
    let at_i = add32 start i in
    let mixed = mix_byte (buf at_i) (sample_at phase vol_from vol_to i samples) in
    let rest =
      mix_loop left start (i + 1) (add32 phase step) step vol_from vol_to samples
        (update buf at_i mixed) in
    if not (ltb_int at_i dma_bytes) then buf else rest

unfoldable pub mix_tone : (ℕ → ℕ) → (at delay_ms hz ms vol_from vol_to : ℕ) → ℕ → ℕ
unfolding samples_of rounds_of mix_loop
mix_tone buf at delay_ms hz ms vol_from vol_to =
    let samples = samples_of ms in
    mix_loop (rounds_of samples) (add32 at (samples_of delay_ms)) 0 0
      (u32 (u32 (hz * 32) * 4096) / sb_rate) vol_from vol_to samples buf
