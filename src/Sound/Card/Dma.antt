-- ===== src/Sound/Card/Dma.antt =====
-- What the DMA controller is told: a controller as far as the code uses it, and what reaches it.
use jvmos_jit.Base.{
  ℕ, zero, suc, ◌+◌, ◌-◌, ◌*◌, ◌/◌, ◌%◌, ◌^◌, ◌≡◌, refl, ◌∙◌, inl, inr, Bool, Bool-cases, true,
  false, not, arith, ◌==◌, if◌then◌else◌,
}
use jvmos_jit.Base.Word.{add32, sub32}
use jvmos_jit.Sound.Clips.Layout.{Playable}
use jvmos_jit.Sound.Card.{
  Ports, top_bit_set, guard_limit, sb_read, sb_write, sb_rstatus, sb_reset, dma_buffer, delay_loop,
  io_delay, wait_ready, wait_data, dsp_write, dsp_read, reset, program_dma, sb16_transfer,
}

-- Channel 1 of the 8237 with its page register. `high` is the flip-flop: which half of a register
-- the next byte goes to.
pub record Dma : Type 0 where
  pub masked : Bool
  pub high : Bool
  pub page : ℕ
  pub address : ℕ
  pub counter : ℕ

abbrev pub with_half : (high : Bool) → (value old : ℕ) → ℕ
with_half high value old = if high then old % 2 ^ 8 + value * 2 ^ 8 else old / 2 ^ 8 * 2 ^ 8 + value

-- A byte that is written to a port of the controller.
abbrev pub dma_out : (port value : ℕ) → Dma → Dma
dma_out port value d =
    if port == 0x0A
    then (if value % 4 == 1 then record d { masked = value / 4 % 2 == 1 } else d)
    else if port == 0x0C
    then record d { high = false }
    else if port == 0x83
    then record d { page = value }
    else if port == 0x02
    then record d { high = not d.high; address = with_half d.high value d.address }
    else if port == 0x03
    then record d { high = not d.high; counter = with_half d.high value d.counter }
    else d

-- A machine whose port writes reach such a controller, and on which nothing else changes it.
pub record HasDma {W : Type 0} (io : Ports W) (view : W → Dma) : Type 0 where
  pub view-outb :
      (port value : ℕ) (w : W) → view (io.outb port value w) ≡ dma_out port value (view w)
  pub view-inb : (port : ℕ) (w : W) → view (io.inb port w).1 ≡ view w
  pub view-ticks : (w : W) → view (io.ticks w).1 ≡ view w
  pub view-beep : (hz : ℕ) (w : W) → view (io.beep hz w) ≡ view w
  pub view-sleep : (ms : ℕ) (w : W) → view (io.sleep ms w) ≡ view w

-- The controller set to read `length` bytes, from `offset` on in the page of the buffer.
abbrev pub programmed : (offset length : ℕ) → Dma
programmed offset length = record {
  masked = false;
  high = false;
  page = 0xF0;
  address = offset;
  counter = length - 1;
}

page_lem :
    {length : ℕ} (offset : ℕ)
    → Playable offset length
    → add32 dma_buffer offset / 2 ^ 16 % 2 ^ 8 ≡ 0xF0
page_lem offset (some_bytes, fits) = ground (arith, some_bytes, fits)

address_lem :
    (offset length old : ℕ)
    → Playable offset length
    → with_half true
        (add32 dma_buffer offset / 2 ^ 8 % 2 ^ 8)
        (with_half false (add32 dma_buffer offset % 2 ^ 8) old)
      ≡ offset
address_lem offset length old (some_bytes, fits) = ground (arith, some_bytes, fits)

count_lem :
    (offset length old : ℕ)
    → Playable offset length
    → with_half true (sub32 length 1 / 2 ^ 8 % 2 ^ 8) (with_half false (sub32 length 1 % 2 ^ 8) old)
      ≡ length - 1
count_lem offset length old (some_bytes, fits) = ground (arith, some_bytes, fits)

abbrev set_to : (page address counter : ℕ) → Dma
set_to page address counter = record {
  masked = false;
  high = false;
  page = page;
  address = address;
  counter = counter;
}

settings : {p p' a a' c c' : ℕ} → p ≡ p' → a ≡ a' → c ≡ c' → set_to p a c ≡ set_to p' a' c'
settings p a c = rw (p, a, c) refl

module _ {W : Type 0} (io : Ports W) (view : W → Dma) (dma : HasDma io view) where
  open dma use {view-outb, view-inb, view-ticks, view-beep, view-sleep}

  -- For a clip inside the buffer, the bytes that are sent set the controller to exactly that clip:
  -- the buffer's page, the clip's offset in it, and one less than its length.
  pub program_dma-programmed :
      (offset length : ℕ) (w : W)
      → Playable offset length
      → view (program_dma io offset length w) ≡ programmed offset length
  unfolding program_dma
  program_dma-programmed offset length w h = simp view-outb (
      settings (page_lem offset h) (address_lem offset length (view w).address h)
        (count_lem offset length (view w).counter h))

  delay_loop-view : (left : ℕ) (w : W) → view (delay_loop io left w) ≡ view w
  unfolding delay_loop
  delay_loop-view zero w = refl
  delay_loop-view (suc left) w = delay_loop-view left (io.inb 0x80 w).1 ∙ view-inb 0x80 w

  wait_ready-view : (left : ℕ) (w : W) → view (wait_ready io left w) ≡ view w
  unfolding wait_ready
  wait_ready-view zero w = view-inb sb_write w
  wait_ready-view (suc left) w = elim (Bool-cases (top_bit_set (io.inb sb_write w).0)) [
    | inl busy ↦
        rw (busy, wait_ready) (wait_ready-view left (io.inb sb_write w).1 ∙ view-inb sb_write w)
    | inr free ↦ rw (free, wait_ready) (view-inb sb_write w)
  ]

  pub dsp_write-view : (value : ℕ) (w : W) → view (dsp_write io value w) ≡ view w
  unfolding dsp_write
  dsp_write-view value w =
      view-outb sb_write value (wait_ready io guard_limit w) ∙ wait_ready-view guard_limit w

  wait_data-view : (left : ℕ) (w : W) → view (wait_data io left w).1 ≡ view w
  unfolding wait_data
  wait_data-view zero w = view-inb sb_rstatus w
  wait_data-view (suc left) w = elim (Bool-cases (top_bit_set (io.inb sb_rstatus w).0)) [
    | inl here ↦ rw (here, wait_data) (view-inb sb_rstatus w)
    | inr absent ↦
        rw (absent, wait_data) (wait_data-view left (io.inb sb_rstatus w).1 ∙ view-inb sb_rstatus w)
  ]

  pub dsp_read-view : (w : W) → view (dsp_read io w).1 ≡ view w
  unfolding dsp_read
  dsp_read-view w = elim (Bool-cases (wait_data io guard_limit w).0) [
    | inl came ↦ rw came (view-inb sb_read _ ∙ wait_data-view guard_limit w)
    | inr late ↦ rw late (wait_data-view guard_limit w)
  ]

  pub reset-view : (w : W) → view (reset io w) ≡ view w
  unfolding io_delay
  reset-view w =
      view-outb sb_reset 0 (io_delay io (io.outb sb_reset 1 w))
      ∙ delay_loop-view 8 (io.outb sb_reset 1 w)
      ∙ view-outb sb_reset 1 w

  pub sb16_transfer-programmed :
      (offset length : ℕ) (w : W)
      → Playable offset length
      → view (sb16_transfer io offset length w) ≡ programmed offset length
  unfolding sb16_transfer
  sb16_transfer-programmed offset length w h =
      simp dsp_write-view (program_dma-programmed offset length w h)
