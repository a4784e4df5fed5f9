-- ===== src/Sound/Mix/Span.antt =====
-- Where in the buffer the two loops write.
use jvmos_jit.Base.{
  ℕ, zero, suc, ◌+◌, ◌*◌, ◌/◌, ◌^◌, ◌≤◌, ◌<◌, ◌≡◌, refl, ◌∙◌, false, Bool-cases, inl, inr, ◌⊎◌,
  arith, ◌==◌,
}
use jvmos_jit.Base.Word.{u32, add32, ltb_int}
use jvmos_jit.Wasm.Alu.{div_int}
use jvmos_jit.Wasm.Module.{update}
use jvmos_jit.Sound.Mix.{
  sb_rate, dma_bytes, samples_of, rounds_of, silence_loop, fill_silence, mix_byte, sample_at,
  mix_loop, mix_tone,
}

-- The longest time that the lemmas look at, in milliseconds.
abbrev pub longest : ℕ
longest = 10000

pub samples_lem : (ms : ℕ) → ms ≤ longest → samples_of ms ≡ 22050 * ms / 1000
unfolding samples_of div_int
samples_lem ms h = ground (arith, h)

-- An offset outside the `n` bytes from `start` on, or behind the buffer.
abbrev pub Outside : (start n k : ℕ) → Type 0
Outside start n k = (k < start) ⊎ (start + n ≤ k) ⊎ (dma_bytes ≤ k)

update_apart : (buf : ℕ → ℕ) (i v k : ℕ) → (i == k) ≡ false → update buf i v k ≡ buf k
update_apart buf i v k h = ground (arith, h)

silence_loop-Outside :
    (left at i : ℕ) (buf : ℕ → ℕ) (k : ℕ)
    → at + i + left ≤ 2 ^ 30
    → Outside (at + i) left k
    → silence_loop left at i buf k ≡ buf k
unfolding silence_loop
silence_loop-Outside zero at i buf k h o = refl
silence_loop-Outside (suc left) at i buf k h o =
    elim (Bool-cases (ltb_int (add32 at i) dma_bytes)) [
      | inl inside ↦ rw inside (
          silence_loop-Outside left at (i + 1) (update buf (add32 at i) 128) k (omega (arith, h))
            (ground (arith, h, o))
          ∙ update_apart buf (add32 at i) 128 k (ground (arith, h, o, inside)))
      | inr behind ↦ rw behind refl
    ]

module _ (step vol_from vol_to samples : ℕ) where
  mix_loop-Outside :
      (left start i phase : ℕ) (buf : ℕ → ℕ) (k : ℕ)
      → start + i + left ≤ 2 ^ 30
      → Outside (start + i) left k
      → mix_loop left start i phase step vol_from vol_to samples buf k ≡ buf k
  unfolding mix_loop
  mix_loop-Outside zero start i phase buf k h o = refl
  mix_loop-Outside (suc left) start i phase buf k h o =
      let at_i = add32 start i in
      let mixed = mix_byte (buf at_i) (sample_at phase vol_from vol_to i samples) in
      elim (Bool-cases (ltb_int at_i dma_bytes)) [
        | inl inside ↦ rw inside (
            mix_loop-Outside left start (i + 1) (add32 phase step) (update buf at_i mixed) k
              (omega (arith, h)) (ground (arith, h, o))
            ∙ update_apart buf at_i mixed k (ground (arith, h, o, inside)))
        | inr behind ↦ rw behind refl
      ]

rounds_of_lem : (n : ℕ) → n < 2 ^ 31 → rounds_of n ≡ n
unfolding rounds_of
rounds_of_lem n h = ground (arith, h)

-- Filling a part of the buffer with silence leaves every byte outside of it as it was.
pub fill_silence-Outside :
    (buf : ℕ → ℕ) (at n k : ℕ) → at + n ≤ 2 ^ 30 → Outside at n k → fill_silence buf at n k ≡ buf k
unfolding fill_silence
fill_silence-Outside buf at n k h o =
    rw (rounds_of_lem n (omega (arith, h)))
      (silence_loop-Outside n at 0 buf k (omega (arith, h)) (ground (arith, o)))

-- For times of at most ten seconds, mixing a tone changes only bytes of the buffer between the one
-- where the delay ends and the one where the tone ends; all others, those behind the buffer among
-- them, stay as they were.
pub mix_tone-Outside :
    (buf : ℕ → ℕ) (at delay_ms hz ms vol_from vol_to k : ℕ)
    → at ≤ dma_bytes
    → delay_ms ≤ longest
    → ms ≤ longest
    → Outside (at + 22050 * delay_ms / 1000) (22050 * ms / 1000) k
    → mix_tone buf at delay_ms hz ms vol_from vol_to k ≡ buf k
unfolding mix_tone
mix_tone-Outside buf at delay_ms hz ms vol_from vol_to k h d m o =
    rw
      (
        samples_lem ms m,
        samples_lem delay_ms d,
        rounds_of_lem (22050 * ms / 1000) (omega (arith, m)),
      )
      (mix_loop-Outside (u32 (u32 (hz * 32) * 4096) / sb_rate) vol_from vol_to (22050 * ms / 1000)
        (22050 * ms / 1000) (add32 at (22050 * delay_ms / 1000)) 0 0 buf k (omega (arith, h, d, m))
        (moved at (22050 * delay_ms / 1000) (22050 * ms / 1000) k h (omega (arith, d)) o))
  where
    moved :
        (at d n k : ℕ)
        → at ≤ dma_bytes
        → d ≤ 300000
        → Outside (at + d) n k
        → Outside (add32 at d + 0) n k
    moved at d n k h e o = ground (arith, h, e, o)
