-- ===== src/Sound/Mix/Saturation.antt =====
-- What mixing does to one byte.
use jvmos_jit.Base.{ℕ, ◌+◌, ◌-◌, ◌^◌, ◌≤◌, ◌<◌, ◌≡◌, arith, ltb, if◌then◌else◌}
use jvmos_jit.Base.Word.{int_neg, magnitude}
use jvmos_jit.Sound.Mix.{mix_byte}

-- The sum of a byte and a signed number, held between 0 and 255.
abbrev pub saturated : (byte sample : ℕ) → ℕ
saturated byte sample =
    if int_neg sample
    then byte - magnitude sample
    else if ltb 255 (byte + sample)
    then 255
    else byte + sample

-- For a byte and a sample whose absolute value is at most 2^30, mixing adds them without any
-- wrap-around: the new byte is their sum, or the nearer end of the range if the sum leaves it.
pub mix_byte-saturated :
    (byte sample : ℕ)
    → byte < 256
    → sample < 2 ^ 32
    → magnitude sample ≤ 2 ^ 30
    → mix_byte byte sample ≡ saturated byte sample
unfolding mix_byte
mix_byte-saturated byte sample h k m = ground (arith, h, k, m)
