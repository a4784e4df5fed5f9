-- ===== src/Base/Bits.antt =====
-- `|` and `&` one binary digit at a time, and the two cases that the code needs at every width: the
-- union of disjoint fields, and the mask of the low bits.
use Prim.Native.Nat.{ℕ, zero, suc, ◌+◌, ◌-◌, ◌*◌, ◌/◌, ◌%◌, ◌^◌, ◌≤◌, ◌<◌, min, max}
use Prim.Native.Nat.{bit_and, bit_or, digits, bit_and-bitwise, bit_or-bitwise}
use mathlib.Core.Path.{◌≡◌, refl, ap}
use native.Mathlib.Nat.{pow-suc, one-le-pow}
use native.Mathlib.Omega.{arith}

-- Digits beyond the last one of the first number are not looked at, so spare fuel changes nothing.
module _ (rest : ℕ → ℕ) (op : ℕ → ℕ → ℕ) where
  digits_spare : (f g a b : ℕ) → a ≤ f → a ≤ g → digits rest op f a b ≡ digits rest op g a b
  digits_spare zero zero a b p q = refl
  digits_spare zero (suc g) zero b p q = refl
  digits_spare zero (suc g) (suc a) b p q = absurd (omega arith)
  digits_spare (suc f) zero zero b p q = refl
  digits_spare (suc f) zero (suc a) b p q = absurd (omega arith)
  digits_spare (suc f) (suc g) zero b p q = refl
  digits_spare (suc f) (suc g) (suc a) b p q =
      ap (λ (t : ℕ). t * 2 + op (suc a % 2) (b % 2))
        (digits_spare f g (suc a / 2) (b / 2) (omega arith) (omega arith))

abbrev or_digits : ℕ → ℕ → ℕ → ℕ
or_digits = digits (λ y. y) max

abbrev and_digits : ℕ → ℕ → ℕ → ℕ
and_digits = digits (λ y. 0) min

pub bit_or_digit : (a b : ℕ) → bit_or a b ≡ bit_or (a / 2) (b / 2) * 2 + max (a % 2) (b % 2)
bit_or_digit zero b = omega (arith, bit_or-bitwise 0 b, bit_or-bitwise 0 (b / 2))
bit_or_digit (suc a) b = omega (
  arith,
  bit_or-bitwise (suc a) b,
  bit_or-bitwise (suc a / 2) (b / 2),
  digits_spare (λ y. y) max a (suc a / 2) (suc a / 2) (b / 2) (omega arith) (omega arith),
)

pub bit_and_digit : (a b : ℕ) → bit_and a b ≡ bit_and (a / 2) (b / 2) * 2 + min (a % 2) (b % 2)
bit_and_digit zero b = omega (arith, bit_and-bitwise 0 b, bit_and-bitwise 0 (b / 2))
bit_and_digit (suc a) b = omega (
  arith,
  bit_and-bitwise (suc a) b,
  bit_and-bitwise (suc a / 2) (b / 2),
  digits_spare (λ y. 0) min a (suc a / 2) (suc a / 2) (b / 2) (omega arith) (omega arith),
)

double_pow : (q k : ℕ) → q * 2 ^ suc k ≡ 2 * (q * 2 ^ k)
double_pow q k = omega (arith, ap (λ (t : ℕ). q * t) (pow-suc 2 k))

pub zero-bit_or : (b : ℕ) → bit_or 0 b ≡ b
zero-bit_or b = bit_or-bitwise 0 b

or_zero_fuel : (f a : ℕ) → a ≤ f → bit_or a 0 ≡ a
or_zero_fuel f zero h = refl
or_zero_fuel zero (suc a) h = absurd (omega arith)
or_zero_fuel (suc f) (suc a) h =
    omega (arith, bit_or_digit (suc a) 0, or_zero_fuel f (suc a / 2) (omega arith))

pub bit_or-zero : (a : ℕ) → bit_or a 0 ≡ a
bit_or-zero a = or_zero_fuel a a (omega arith)

and_zero_fuel : (f a : ℕ) → a ≤ f → bit_and a 0 ≡ 0
and_zero_fuel f zero h = refl
and_zero_fuel zero (suc a) h = absurd (omega arith)
and_zero_fuel (suc f) (suc a) h =
    omega (arith, bit_and_digit (suc a) 0, and_zero_fuel f (suc a / 2) (omega arith))

pub bit_and-zero : (a : ℕ) → bit_and a 0 ≡ 0
bit_and-zero a = and_zero_fuel a a (omega arith)

-- `low | high << k`, where `low` has at most k bits.
pub bit_or_fields : (k low high : ℕ) → low < 2 ^ k → bit_or low (high * 2 ^ k) ≡ low + high * 2 ^ k
bit_or_fields zero zero high h = omega (arith, zero-bit_or (high * 2 ^ 0))
bit_or_fields zero (suc low) high h = absurd (omega arith)
bit_or_fields (suc k) low high h = omega (
  arith,
  bit_or_digit low (high * 2 ^ suc k),
  double_pow high k,
  pow-suc 2 k,
  bit_or_fields k (low / 2) high (omega (arith, pow-suc 2 k)),
  ap (bit_or (low / 2)) halved,
)
  where
    halved : (high * 2 ^ suc k) / 2 ≡ high * 2 ^ k
    halved = omega (arith, double_pow high k)

-- `a & (2 ^ k - 1)`, for `a` given by its quotient and its remainder, and for any `a`.
and_low_parts : (k q r : ℕ) → r < 2 ^ k → bit_and (q * 2 ^ k + r) (2 ^ k - 1) ≡ r
and_low_parts zero q r h = omega (arith, bit_and-zero (q * 2 ^ 0 + r))
and_low_parts (suc k) q r h = omega (
  arith,
  bit_and_digit (q * 2 ^ suc k + r) (2 ^ suc k - 1),
  one-le-pow k 2,
  pow-suc 2 k,
  double_pow q k,
  and_low_parts k q (r / 2) (omega (arith, pow-suc 2 k)),
  ap (λ (t : ℕ). bit_and t (2 ^ k - 1)) halved,
  ap (bit_and ((q * 2 ^ suc k + r) / 2)) mask_halved,
)
  where
    halved : (q * 2 ^ suc k + r) / 2 ≡ q * 2 ^ k + r / 2
    halved = omega (arith, double_pow q k)

    mask_halved : (2 ^ suc k - 1) / 2 ≡ 2 ^ k - 1
    mask_halved = omega (arith, pow-suc 2 k, one-le-pow k 2)

pub bit_and_low : (k a : ℕ) → bit_and a (2 ^ k - 1) ≡ a % 2 ^ k
bit_and_low k a = ground (arith, one-le-pow k 2, and_low_parts k (a / 2 ^ k) (a % 2 ^ k))

-- `a & (1 << k)`, in the same two steps.
and_bit_parts : (k q r : ℕ) → r < 2 ^ k → bit_and (q * 2 ^ k + r) (2 ^ k) ≡ q % 2 * 2 ^ k
and_bit_parts zero q zero h = omega (arith, bit_and_low 1 (q * 2 ^ 0 + 0))
and_bit_parts zero q (suc r) h = absurd (omega arith)
and_bit_parts (suc k) q r h = omega (
  arith,
  bit_and_digit (q * 2 ^ suc k + r) (2 ^ suc k),
  pow-suc 2 k,
  double_pow q k,
  double_pow (q % 2) k,
  and_bit_parts k q (r / 2) (omega (arith, pow-suc 2 k)),
  ap (λ (t : ℕ). bit_and t (2 ^ k)) halved,
  ap (bit_and ((q * 2 ^ suc k + r) / 2)) bit_halved,
)
  where
    halved : (q * 2 ^ suc k + r) / 2 ≡ q * 2 ^ k + r / 2
    halved = omega (arith, double_pow q k)

    bit_halved : 2 ^ suc k / 2 ≡ 2 ^ k
    bit_halved = omega (arith, pow-suc 2 k)

pub bit_and_bit : (k a : ℕ) → bit_and a (2 ^ k) ≡ a / 2 ^ k % 2 * 2 ^ k
bit_and_bit k a = ground (arith, one-le-pow k 2, and_bit_parts k (a / 2 ^ k) (a % 2 ^ k))
