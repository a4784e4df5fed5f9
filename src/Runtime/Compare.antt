-- ===== src/Runtime/Compare.antt =====
-- When `memcmp` finds no difference.
use jvmos_jit.Base.{
  ℕ, zero, suc, ◌+◌, ◌<◌, ◌≡◌, ◌↔◌, refl, true, false, arith, Bool-cases, inl, inr, ◌==◌,
}
use jvmos_jit.Base.Word.{sub32}
use jvmos_jit.Runtime.{memcmp}

abbrev pub AreBytes : (ℕ → ℕ) → Type 0
AreBytes m = (k : ℕ) → m k < 256

-- The two areas hold the same bytes.
abbrev pub SameBytes : (a b n : ℕ) → (ℕ → ℕ) → Type 0
SameBytes a b n m = (i : ℕ) → i < n → m (a + i) ≡ m (b + i)

-- On a memory of bytes, `memcmp` gives 0 exactly when the two areas hold the same bytes.
pub memcmp-SameBytes :
    (a b n : ℕ) (m : ℕ → ℕ) → AreBytes m → (memcmp a b n m ≡ 0) ↔ SameBytes a b n m
unfolding memcmp
memcmp-SameBytes a b zero m h = (λ _ i p. absurd (omega (arith, p)), λ _. refl)
memcmp-SameBytes a b (suc n) m h = elim (Bool-cases (m a == m b)) [
  | inl same ↦ rw same (
    λ e. each a b n m same ((memcmp-SameBytes (a + 1) (b + 1) n m h).0 e),
    λ all. (memcmp-SameBytes (a + 1) (b + 1) n m h).1 (λ i p. grind (arith, all (i + 1))),
  )
  | inr apart ↦ rw apart (
    λ e. absurd (distinct (m a) (m b) (h a) (h b) apart e),
    λ all. absurd (first (m a) (m b) apart (at_zero a b n m all)),
  )
]
  where
    at_zero : (a b n : ℕ) (m : ℕ → ℕ) → SameBytes a b (suc n) m → m a ≡ m b
    at_zero a b n m all = grind (arith, all 0)

    first : (x y : ℕ) → (x == y) ≡ false → x ≡ y → ⊥
    first x y apart e = ground (arith, apart, e)

    distinct : (x y : ℕ) → x < 256 → y < 256 → (x == y) ≡ false → sub32 x y ≡ 0 → ⊥
    distinct x y p q apart e = ground (arith, p, q, apart, e)

    each :
        (a b n : ℕ) (m : ℕ → ℕ)
        → (m a == m b) ≡ true
        → SameBytes (a + 1) (b + 1) n m
        → SameBytes a b (suc n) m
    each a b n m e all zero p = grind (arith, e)
    each a b n m e all (suc i) p = grind (arith, all i)
