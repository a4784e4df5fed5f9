-- ===== src/Base/Word.antt =====
-- `unsigned`, `unsigned char` and `int` of the 32-bit target. An `int` is kept as its bit pattern,
-- a number below 2 ^ 32; `int_neg` tells its sign and `magnitude` its distance from zero.
use Prim.Native.Nat.{ℕ, ◌+◌, ◌-◌, ◌*◌, ◌%◌, ◌^◌, ◌<◌}
use mathlib.Core.Bool.{Bool}
use jvmos_jit.Base.Tests.{ltb, if◌then◌else◌}

abbrev pub u8 : ℕ → ℕ
u8 n = n % 2 ^ 8

abbrev pub u16 : ℕ → ℕ
u16 n = n % 2 ^ 16

abbrev pub u32 : ℕ → ℕ
u32 n = n % 2 ^ 32

abbrev pub IsU32 : ℕ → Type 0
IsU32 n = n < 2 ^ 32

-- (unsigned)a + (unsigned)b, a - b and a * b.
abbrev pub add32 : ℕ → ℕ → ℕ
add32 a b = (a + b) % 2 ^ 32

abbrev pub sub32 : ℕ → ℕ → ℕ
sub32 a b = (a + 2 ^ 32 - b) % 2 ^ 32

abbrev pub mul32 : ℕ → ℕ → ℕ
mul32 a b = (a * b) % 2 ^ 32

abbrev pub neg32 : ℕ → ℕ
neg32 a = (2 ^ 32 - a) % 2 ^ 32

-- The sign of an `int`, and its absolute value.
abbrev pub int_neg : ℕ → Bool
int_neg a = ltb (2 ^ 31 - 1) a

abbrev pub magnitude : ℕ → ℕ
magnitude a = if int_neg a then 2 ^ 32 - a else a

-- `int` comparison: shifting the range by 2 ^ 31 turns the signed order into the unsigned one.
abbrev pub bias : ℕ → ℕ
bias a = (a + 2 ^ 31) % 2 ^ 32

abbrev pub ltb_int : ℕ → ℕ → Bool
ltb_int a b = ltb (bias a) (bias b)
