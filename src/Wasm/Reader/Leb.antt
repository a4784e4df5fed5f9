-- ===== src/Wasm/Reader/Leb.antt =====
-- What `rd_uleb` and `rd_sleb` decode, against the definition of LEB128 as a number in base 128.
use jvmos_jit.Base.{
  ℕ, zero, suc, ◌+◌, ◌-◌, ◌*◌, ◌/◌, ◌%◌, ◌≤◌, ◌<◌, ◌^◌, ◌≡◌, refl, false, arith, bit_and, ltb, leb,
  ◌&&◌, if◌then◌else◌, ◌∙◌, ap,
}
use mathlib.Core.Path.{subst, ap₂}
use native.Mathlib.Nat.{zero-add, pow-le-pow_right, mod-eq_of_lt}
use native.Mathlib.Numerals.{towards_suc}
use jvmos_jit.Base.Bits.{bit_or_fields, bit_and_low, bit_and_bit}
use jvmos_jit.Wasm.Reader.{
  Bytes, Rd, rd_u8, add_group, uleb_loop, rd_uleb, extend_sign, sleb_loop, rd_sleb,
}

-- The number that the `n` bytes at `p` spell, seven bits a byte, lowest group first.
unfoldable pub leb_value : Bytes → ℕ → ℕ → ℕ
leb_value bytes p zero = 0
leb_value bytes p (suc n) = bytes p % 128 + 128 * leb_value bytes (p + 1) n

-- `n` bytes at `p`, the last one and no other without the top bit.
abbrev pub IsLeb : Bytes → ℕ → ℕ → Type 0
IsLeb bytes p zero = ⊥
IsLeb bytes p (suc zero) = bytes p < 128
IsLeb bytes p (suc (suc n)) = (128 ≤ bytes p) × (bytes p < 256) × IsLeb bytes (p + 1) (suc n)

group_bits : (b : ℕ) → bit_and b 0x7F ≡ b % 128
group_bits b = bit_and_low 7 b

top_bit : (b : ℕ) → b < 256 → bit_and b 0x80 ≡ b / 128 * 128
top_bit b h = omega (arith, bit_and_bit 7 b)

-- The union with a group at bit s, for the shifts that leave the whole group inside 32 bits.
add_group_low :
    (s result b : ℕ)
    → result < 2 ^ s
    → b % 128 * 2 ^ s < 2 ^ 32
    → add_group result b s ≡ result + b % 128 * 2 ^ s
unfolding add_group
add_group_low s result b h fits = ground (arith, group_bits b, bit_or_fields s result (b % 128))

add_group_top :
    (result b : ℕ) → result < 2 ^ 28 → add_group result b 28 ≡ (result + b % 128 * 2 ^ 28) % 2 ^ 32
unfolding add_group
add_group_top result b h = ground (arith, group_bits b, bit_or_fields 28 result (b % 16))

pow_seven : (s : ℕ) → 2 ^ (s + 7) ≡ 128 * 2 ^ s
pow_seven s = simp towards_suc (omega arith)

group_le : (b s : ℕ) → b % 128 * 2 ^ s ≤ 127 * 2 ^ s
group_le b s = grind arith

-- Every group but the fifth, at shift 28, leaves its seven bits inside the word.
low_round : (s fuel b : ℕ) → s + 7 * suc (suc fuel) ≡ 35 → b < 128 → b * 2 ^ s < 2 ^ 28
low_round s fuel b e hb = grind (arith, bound)
  where
    bound : 2 ^ s ≤ 2 ^ 21
    bound = pow-le-pow_right (omega arith) {j = 21} (omega arith)

last_round :
    (fuel s result b : ℕ)
    → s + 7 * suc fuel ≡ 35
    → result < 2 ^ s
    → b < 128
    → add_group result b s ≡ (result + b * 2 ^ s) % 2 ^ 32
last_round zero s result b e h hb =
    let e' : s ≡ 28 = omega arith in
    let h' : result < 2 ^ 28 = subst (λ t. result < 2 ^ t) e' h in
    rw e' (omega (arith, add_group_top result b h'))
last_round (suc fuel) s result b e h hb = omega (
  arith,
  low_round s fuel b e hb,
  add_group_low s result b h,
  ap (λ (t : ℕ). t * 2 ^ s) (mod-eq_of_lt hb),
  bound,
)
  where
    bound : 2 ^ s ≤ 2 ^ 21
    bound = pow-le-pow_right (omega arith) {j = 21} (omega arith)

-- A byte with the top bit set sends the loop round once more.
uleb_loop_more :
    (fuel s : ℕ) (bytes : Bytes) (r : Rd) (result : ℕ)
    → 128 ≤ bytes r.p
    → bytes r.p < 256
    → s + 7 ≤ 31
    → r.p < r.end
    → r.err ≡ false
    → uleb_loop (suc fuel) bytes r result s
      ≡ uleb_loop fuel bytes (record r { p = r.p + 1 }) (add_group result (bytes r.p) s) (s + 7)
unfolding uleb_loop rd_u8
uleb_loop_more fuel s bytes r result big small hs room ok = ground (arith, top_bit (bytes r.p))

split_group : (b rest s : ℕ) → b * 2 ^ s + rest * 2 ^ (s + 7) ≡ (b + 128 * rest) * 2 ^ s
split_group b rest s = omega (arith, ap (λ (t : ℕ). rest * t) (pow_seven s))

leb_value-suc :
    (bytes : Bytes) (p n : ℕ)
    → leb_value bytes p (suc n) ≡ bytes p % 128 + 128 * leb_value bytes (p + 1) n
unfolding leb_value
leb_value-suc bytes p n = refl

uleb_loop-value :
    (n fuel s : ℕ) (bytes : Bytes) (r : Rd) (result : ℕ)
    → IsLeb bytes r.p n
    → n ≤ fuel
    → s + 7 * fuel ≡ 35
    → result < 2 ^ s
    → r.p + n ≤ r.end
    → r.err ≡ false
    → uleb_loop fuel bytes r result s
      ≡ ((result + leb_value bytes r.p n * 2 ^ s) % 2 ^ 32, record r { p = r.p + n })
unfolding add_group leb_value
uleb_loop-value zero fuel s bytes r result spelled hf e h room ok = absurd spelled
uleb_loop-value (suc n) zero s bytes r result spelled hf e h room ok = absurd (omega arith)
uleb_loop-value (suc zero) (suc fuel) s bytes r result spelled hf e h room ok =
    unfold uleb_loop rd_u8 leb_value in
    ground (arith, top_bit (bytes r.p), last_round fuel s result (bytes r.p))
uleb_loop-value (suc (suc n)) (suc zero) s bytes r result spelled hf e h room ok =
    absurd (omega arith)
uleb_loop-value (suc (suc n)) (suc (suc fuel)) s bytes r result (big, small, spelled) hf e h room
      ok =
    let b = bytes r.p in
    let low = low_round s fuel (b % 128) e (omega arith) in
    let added = add_group_low s result b h (omega arith) in
    let next : Rd = record r { p = r.p + 1 } in
    uleb_loop_more (suc fuel) s bytes r result big small (omega arith) (omega arith) ok
    ∙ uleb_loop-value (suc n) (suc fuel) (s + 7) bytes next (add_group result b s) spelled
        (omega arith) (omega arith) (omega (arith, pow_seven s, added, group_le b s)) (omega arith)
        ok
    ∙ ap₂ (λ v q. (v % 2 ^ 32, record r { p = q }))
        (omega (
          arith,
          added,
          leb_value-suc bytes r.p (suc n),
          split_group (b % 128) (leb_value bytes (r.p + 1) (suc n)) s,
        ))
        (omega arith)

-- On an encoding of at most five bytes that lies inside the input, `rd_uleb` returns the number
-- that it spells, modulo 2 ^ 32, and stands behind its last byte with no error.
pub rd_uleb-leb_value :
    (bytes : Bytes) (r : Rd) (n : ℕ)
    → IsLeb bytes r.p n
    → n ≤ 5
    → r.p + n ≤ r.end
    → r.err ≡ false
    → rd_uleb bytes r ≡ (leb_value bytes r.p n % 2 ^ 32, record r { p = r.p + n })
unfolding rd_uleb
rd_uleb-leb_value bytes r n spelled hn room ok =
    uleb_loop-value n 5 0 bytes r 0 spelled hn refl (omega arith) room ok
    ∙ ap (λ (v : ℕ). (v % 2 ^ 32, record r { p = r.p + n })) (omega arith)

sleb_loop_more :
    (fuel s : ℕ) (bytes : Bytes) (r : Rd) (result : ℕ)
    → 128 ≤ bytes r.p
    → bytes r.p < 256
    → s + 7 ≤ 31
    → r.p < r.end
    → r.err ≡ false
    → sleb_loop (suc fuel) bytes r result s
      ≡ sleb_loop fuel bytes (record r { p = r.p + 1 }) (add_group result (bytes r.p) s) (s + 7)
unfolding sleb_loop rd_u8
sleb_loop_more fuel s bytes r result big small hs room ok = ground (arith, top_bit (bytes r.p))

-- The signed reader gathers the same groups, and then looks at bit 6 of the last byte.
sleb_loop-uleb_loop :
    (n fuel s : ℕ) (bytes : Bytes) (r : Rd) (result : ℕ)
    → IsLeb bytes r.p (suc n)
    → n < fuel
    → s + 7 * fuel ≡ 35
    → r.p + suc n ≤ r.end
    → r.err ≡ false
    → sleb_loop fuel bytes r result s ≡ (
      extend_sign (uleb_loop fuel bytes r result s).0 (bytes (r.p + n)) (s + 7 * suc n),
      (uleb_loop fuel bytes r result s).1,
    )
sleb_loop-uleb_loop n zero s bytes r result spelled hf e room ok = absurd (omega arith)
sleb_loop-uleb_loop zero (suc fuel) s bytes r result spelled hf e room ok =
    let e' : r.p + 0 ≡ r.p = omega arith in
    rw e' (unfold sleb_loop uleb_loop rd_u8 in ground (arith, top_bit (bytes r.p)))
sleb_loop-uleb_loop (suc n) (suc zero) s bytes r result spelled hf e room ok = absurd (omega arith)
sleb_loop-uleb_loop (suc n) (suc (suc fuel)) s bytes r result (big, small, spelled) hf e room ok =
    let b = bytes r.p in
    let next : Rd = record r { p = r.p + 1 } in
    let shifted = uleb_loop (suc fuel) bytes next (add_group result b s) (s + 7) in
    let ih =
      sleb_loop-uleb_loop n (suc fuel) (s + 7) bytes next (add_group result b s) spelled
        (omega arith) (omega arith) (omega arith) ok in
    rw
      (
        sleb_loop_more (suc fuel) s bytes r result big small (omega arith) (omega arith) ok,
        uleb_loop_more (suc fuel) s bytes r result big small (omega arith) (omega arith) ok,
      )
      (ih ∙ ap₂ (λ q t. (extend_sign shifted.0 (bytes q) t, shifted.1)) (omega arith) (omega arith))

sign_bit : (b : ℕ) → b < 256 → bit_and b 0x40 ≡ b / 64 % 2 * 64
sign_bit b h = omega (arith, bit_and_bit 6 b)

-- Two's complement: `v` of `w` bits, whose top bit says whether 2 ^ w is to be taken off.
unfoldable pub sign_extended : ℕ → ℕ → ℕ
sign_extended w v = if ltb w 32 && leb (2 ^ w) (v * 2) then v + 2 ^ 32 - 2 ^ w else v % 2 ^ 32

-- At each width that a byte count gives, the top bit of the number is bit 6 of its last byte.
extend_sign-7 : (v b : ℕ) → b < 128 → v ≡ b → extend_sign (v % 2 ^ 32) b 7 ≡ sign_extended 7 v
unfolding extend_sign sign_extended
extend_sign-7 v b hb e = ground (arith, sign_bit b, bit_or_fields 7 v (2 ^ 25 - 1))

extend_sign-14 :
    (v b : ℕ) → b < 128 → v / 2 ^ 7 ≡ b → extend_sign (v % 2 ^ 32) b 14 ≡ sign_extended 14 v
unfolding extend_sign sign_extended
extend_sign-14 v b hb e = ground (arith, sign_bit b, bit_or_fields 14 v (2 ^ 18 - 1))

extend_sign-21 :
    (v b : ℕ) → b < 128 → v / 2 ^ 14 ≡ b → extend_sign (v % 2 ^ 32) b 21 ≡ sign_extended 21 v
unfolding extend_sign sign_extended
extend_sign-21 v b hb e = ground (arith, sign_bit b, bit_or_fields 21 v (2 ^ 11 - 1))

extend_sign-28 :
    (v b : ℕ) → b < 128 → v / 2 ^ 21 ≡ b → extend_sign (v % 2 ^ 32) b 28 ≡ sign_extended 28 v
unfolding extend_sign sign_extended
extend_sign-28 v b hb e = ground (arith, sign_bit b, bit_or_fields 28 v (2 ^ 4 - 1))

extend_sign-35 : (v b : ℕ) → extend_sign (v % 2 ^ 32) b 35 ≡ sign_extended 35 v
unfolding extend_sign sign_extended
extend_sign-35 v b = ground arith

extend_sign-leb_value :
    (n : ℕ) (bytes : Bytes) (p : ℕ)
    → IsLeb bytes p (suc n)
    → n < 5
    → extend_sign (leb_value bytes p (suc n) % 2 ^ 32) (bytes (p + n)) (7 * suc n)
      ≡ sign_extended (7 * suc n) (leb_value bytes p (suc n))
unfolding leb_value
extend_sign-leb_value zero bytes p spelled h =
    let at_p : bytes (p + 0) ≡ bytes p = ap bytes (omega arith) in
    extend_sign-7 _ (bytes (p + 0)) (omega (arith, at_p)) (omega (arith, at_p))
extend_sign-leb_value (suc zero) bytes p spelled h =
    extend_sign-14 _ (bytes (p + 1)) spelled.2 (omega arith)
extend_sign-leb_value (suc (suc zero)) bytes p spelled h =
    let at_p : bytes (p + 2) ≡ bytes (p + 1 + 1) = ap bytes (omega arith) in
    extend_sign-21 _ (bytes (p + 2)) (omega (arith, at_p)) (omega (arith, at_p))
extend_sign-leb_value (suc (suc (suc zero))) bytes p spelled h =
    let at_p : bytes (p + 3) ≡ bytes (p + 1 + 1 + 1) = ap bytes (omega arith) in
    extend_sign-28 _ (bytes (p + 3)) (omega (arith, at_p)) (omega (arith, at_p))
extend_sign-leb_value (suc (suc (suc (suc zero)))) bytes p spelled h = extend_sign-35 _ _
extend_sign-leb_value (suc (suc (suc (suc (suc n))))) bytes p spelled h = absurd (omega arith)

rd_uleb_rounds : (bytes : Bytes) (r : Rd) → rd_uleb bytes r ≡ uleb_loop 5 bytes r 0 0
unfolding rd_uleb
rd_uleb_rounds bytes r = refl

rd_sleb_rounds : (bytes : Bytes) (r : Rd) → rd_sleb bytes r ≡ sleb_loop 5 bytes r 0 0
unfolding rd_sleb
rd_sleb_rounds bytes r = refl

-- On an encoding of at most five bytes inside the input, `rd_sleb` returns the bit pattern of the
-- number that it spells in two's complement over 7 bits a byte, and stands behind its last byte.
pub rd_sleb-sign_extended :
    (bytes : Bytes) (r : Rd) (n : ℕ)
    → IsLeb bytes r.p (suc n)
    → n < 5
    → r.p + suc n ≤ r.end
    → r.err ≡ false
    → rd_sleb bytes r
      ≡ (sign_extended (7 * suc n) (leb_value bytes r.p (suc n)), record r { p = r.p + suc n })
rd_sleb-sign_extended bytes r n spelled hn room ok =
    let w = 7 * suc n in
    let v = leb_value bytes r.p (suc n) in
    rd_sleb_rounds bytes r
    ∙ sleb_loop-uleb_loop n 5 0 bytes r 0 spelled hn refl room ok
    ∙ rw
        (
          ← rd_uleb_rounds bytes r,
          rd_uleb-leb_value bytes r (suc n) spelled (omega arith) room ok,
          zero-add,
        )
        (ap (λ x. (x, record r { p = r.p + suc n })) (extend_sign-leb_value n bytes r.p spelled hn))
