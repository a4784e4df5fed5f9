-- ===== src/Wasm/Scan/Fuel.antt =====
-- The fuel of the scans is enough: with more rounds than bytes left the result no longer depends on
-- their number, so a scan obeys the equation of the source's `while` loop.
use jvmos_jit.Base.{
  ℕ, zero, suc, ◌+◌, ◌-◌, ◌<◌, ◌≡◌, refl, Bool, true, false, Option, none, arith, if◌then◌else◌,
  ◌∙◌,
}
use jvmos_jit.Wasm.Reader.{Rd}
use jvmos_jit.Wasm.Scan.{Scan, found, more, is_live, scan_on, scan_loop}
use jvmos_jit.Wasm.Scan.Bounds.{RoundInside}

if_cong {ℓ} :
    {A : Type ℓ} (b : Bool) (x y z : A)
    → (b ≡ true → x ≡ y)
    → (if b then x else z) ≡ (if b then y else z)
if_cong true x y z h = h refl
if_cong false x y z h = refl

scan_on-cong :
    (r : Rd) (f g : Rd → ℕ → ℕ → Option ℕ) (s : Scan)
    → RoundInside r s
    → ((t : Rd) (d l : ℕ) → r.p < t.p → t.end ≡ r.end → f t d l ≡ g t d l)
    → scan_on f s ≡ scan_on g s
unfolding scan_on
scan_on-cong r f g (found q) inside h = refl
scan_on-cong r f g (more t d l) inside h = h t d l inside.0 inside.2

module _ (round : Rd → ℕ → ℕ → Scan) (last : ℕ)
    (within : (r : Rd) (depth levels : ℕ)
      → r.p < r.end
      → r.end ≡ last
      → RoundInside r (round r depth levels)) where
  scan_loop-spare :
      (f g : ℕ) (r : Rd) (d l : ℕ)
      → r.end ≡ last
      → r.end - r.p < f
      → r.end - r.p < g
      → scan_loop round f r d l ≡ scan_loop round g r d l
  unfolding scan_loop
  scan_loop-spare zero g r d l e hf hg = absurd (omega arith)
  scan_loop-spare (suc f) zero r d l e hf hg = absurd (omega arith)
  scan_loop-spare (suc f) (suc g) r d l e hf hg = if_cong (is_live r) _ _ none λ live.
      let inside : r.p < r.end = ground arith in
      scan_on-cong r (scan_loop round f) (scan_loop round g) (round r d l) (within r d l inside e)
        λ t d' l' past same. scan_loop-spare f g t d' l' (same ∙ e) (omega arith) (omega arith)

  -- The scan with as many rounds as it can need.
  abbrev pub scan : Rd → ℕ → ℕ → Option ℕ
  scan r d l = scan_loop round (r.end - r.p + 1) r d l

  -- One round of the source's loop.
  pub scan_round :
      (r : Rd) (d l : ℕ)
      → r.end ≡ last
      → r.p < r.end
      → r.err ≡ false
      → scan r d l ≡ scan_on scan (round r d l)
  scan_round r d l e inside ok =
      unrolled
      ∙ scan_on-cong r _ scan (round r d l) (within r d l inside e) λ t d' l' past same.
        scan_loop-spare (r.end - r.p) (t.end - t.p + 1) t d' l' (same ∙ e) (omega arith)
          (omega arith)
    where
      rounds : r.end - r.p + 1 ≡ suc (r.end - r.p)
      rounds = omega arith

      unrolled : scan r d l ≡ scan_on (scan_loop round (r.end - r.p)) (round r d l)
      unrolled = rw rounds (unfold scan_loop in ground arith)
