-- ===== src/Sound/Card.antt =====
-- The card of wasm/sb16.c: the DSP, the probe, a transfer, and `audio_play`.
--
-- The port, clock and speaker calls are those of `io`, on a state `W` of the machine.
pub mod Dma
pub mod Played
use jvmos_jit.Base.{
  ℕ, zero, suc, ◌+◌, ◌-◌, ◌*◌, ◌/◌, ◌%◌, ◌^◌, Bool, true, false, not, ◌||◌, List, [], ◌∷◌, bit_and,
  get_or, ltb, leb, ◌==◌, if◌then◌else◌,
}
use jvmos_jit.Base.Word.{mul32, add32, sub32, int_neg, ltb_int}
use jvmos_jit.Wasm.Alu.{div_int}
use jvmos_jit.Sound.Mix.{sb_rate}
use jvmos_jit.Sound.Clips.{Clips, snd_count, build_clips}

-- `sys_inb`, `sys_outb`, `sys_get_ticks`, `sys_beep` and `sys_sleep`.
pub record Ports (W : Type 0) : Type 0 where
  pub inb : ℕ → W → ℕ × W
  pub outb : (port value : ℕ) → W → W
  pub ticks : W → ℕ × W
  pub beep : ℕ → W → W
  pub sleep : ℕ → W → W

abbrev pub sb_reset : ℕ
sb_reset = 0x226

abbrev pub sb_read : ℕ
sb_read = 0x22A

abbrev pub sb_write : ℕ
sb_write = 0x22C

abbrev pub sb_rstatus : ℕ
sb_rstatus = 0x22E

abbrev pub dma_buffer : ℕ
dma_buffer = 0x00F0_0000

abbrev pub guard_limit : ℕ
guard_limit = 20000

abbrev pub fallback_hz : List ℕ
fallback_hz = 880 ∷ 1800 ∷ 200 ∷ 1500 ∷ 520 ∷ 150 ∷ 988 ∷ []

abbrev pub fallback_ms : List ℕ
fallback_ms = 90 ∷ 12 ∷ 60 ∷ 9 ∷ 34 ∷ 55 ∷ 120 ∷ []

-- `g_present`, `g_probed`, `g_busy_until`, and the clips with their buffer.
pub record Audio (W : Type 0) : Type 0 where
  pub present : Bool
  pub probed : Bool
  pub busy_until : ℕ
  pub clips : Clips
  pub machine : W

-- Bit 7 of what a status port gives.
abbrev pub top_bit_set : ℕ → Bool
top_bit_set status = not (bit_and status 0x80 == 0)

module _ {W : Type 0} (io : Ports W) where
  unfoldable pub delay_loop : ℕ → W → W
  delay_loop zero w = w
  delay_loop (suc left) w = delay_loop left (io.inb 0x80 w).1

  unfoldable pub io_delay : W → W
  unfolding delay_loop
  io_delay w = delay_loop 8 w

  -- With the reads that `guard` leaves; one read more than that is made.
  unfoldable pub wait_ready : ℕ → W → W
  wait_ready zero w = (io.inb sb_write w).1
  wait_ready (suc left) w = elim (top_bit_set (io.inb sb_write w).0) [
    | true ↦ wait_ready left (io.inb sb_write w).1
    | false ↦ (io.inb sb_write w).1
  ]

  unfoldable pub dsp_write : ℕ → W → W
  unfolding wait_ready
  dsp_write value w = io.outb sb_write value (wait_ready guard_limit w)

  -- Whether data came before `guard` ran out.
  unfoldable pub wait_data : ℕ → W → Bool × W
  wait_data zero w = (false, (io.inb sb_rstatus w).1)
  wait_data (suc left) w = elim (top_bit_set (io.inb sb_rstatus w).0) [
    | true ↦ (true, (io.inb sb_rstatus w).1)
    | false ↦ wait_data left (io.inb sb_rstatus w).1
  ]

  unfoldable pub dsp_read : W → ℕ × W
  unfolding wait_data
  dsp_read w =
      let (came, w) = wait_data guard_limit w in
      if came then (bit_and (io.inb sb_read w).0 0xFF, (io.inb sb_read w).1) else (2 ^ 32 - 1, w)

  abbrev pub reset : W → W
  reset w = io.outb sb_reset 0 (io_delay (io.outb sb_reset 1 w))

  unfoldable pub sb16_probe : Audio W → Bool × Audio W
  unfolding io_delay dsp_read dsp_write build_clips
  sb16_probe a =
      let (answer, w) = dsp_read (reset a.machine) in
      if not (answer == 0xAA)
      then (false, record a { machine = w })
      else (true, record a { machine = dsp_write 0xD1 w; clips = build_clips a.clips })

  unfoldable pub audio_init : Audio W → Audio W
  unfolding sb16_probe
  audio_init a =
      let (found, b) = sb16_probe (record a { probed = true }) in
      if a.probed then a else record b { present = found }

  unfoldable pub sb16_present : Audio W → Bool × Audio W
  unfolding audio_init
  sb16_present a = ((audio_init a).present, audio_init a)

  -- The bytes that go to the DMA controller, in this order.
  unfoldable pub program_dma : (offset length : ℕ) → W → W
  program_dma offset length w =
      let addr = add32 dma_buffer offset in
      let last = sub32 length 1 in
      let w = io.outb 0x0A 0x05 w in
      let w = io.outb 0x0C 0x00 w in
      let w = io.outb 0x0B 0x49 w in
      let w = io.outb 0x83 (addr / 2 ^ 16 % 2 ^ 8) w in
      let w = io.outb 0x02 (addr % 2 ^ 8) w in
      let w = io.outb 0x02 (addr / 2 ^ 8 % 2 ^ 8) w in
      let w = io.outb 0x0C 0x00 w in
      let w = io.outb 0x03 (last % 2 ^ 8) w in
      let w = io.outb 0x03 (last / 2 ^ 8 % 2 ^ 8) w in io.outb 0x0A 0x01 w

  unfoldable pub sb16_transfer : (offset length : ℕ) → W → W
  unfolding program_dma dsp_write
  sb16_transfer offset length w =
      let last = sub32 length 1 in
      let w = program_dma offset length w in
      let w = dsp_write 0x41 w in
      let w = dsp_write (sb_rate / 2 ^ 8 % 2 ^ 8) w in
      let w = dsp_write (sb_rate % 2 ^ 8) w in
      let w = dsp_write 0x14 w in
      let w = dsp_write (last % 2 ^ 8) w in dsp_write (last / 2 ^ 8 % 2 ^ 8) w

  -- The transfer of a clip at a time.
  unfoldable pub start_clip : (now id : ℕ) → Audio W → Audio W
  unfolding sb16_transfer div_int
  start_clip now id a =
      let length = a.clips.clip_length id in
      record a {
        machine = sb16_transfer (a.clips.offset id) length (io.inb sb_rstatus a.machine).1;
        busy_until = add32 (add32 now (div_int (mul32 length 1000) sb_rate)) 10;
      }

  -- With a card: nothing while a clip sounds.
  unfoldable pub play_clip : (id : ℕ) → Audio W → Audio W
  unfolding start_clip
  play_clip id a =
      let (now, w) = io.ticks a.machine in
      let a = record a { machine = w } in
      if ltb_int now a.busy_until then a else start_clip now id a

  -- Without one: a tone of the speaker.
  unfoldable pub play_tone : (id : ℕ) → Audio W → Audio W
  play_tone id a =
      let w = io.beep (get_or fallback_hz id 0) a.machine in
      record a { machine = io.beep 0 (io.sleep (get_or fallback_ms id 0) w) }

  unfoldable pub audio_play : (id : ℕ) → Audio W → Audio W
  unfolding audio_init play_clip play_tone
  audio_play id a =
      let a' = audio_init a in
      if int_neg id || leb snd_count id
      then a
      else if a'.present
      then play_clip id a'
      else play_tone id a'
