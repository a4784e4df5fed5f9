-- ===== src/Wasm/Alu.antt =====
-- The i32 arithmetic of `run` in wasm/wasm.c, on bit patterns, with `clz32`, `ctz32` and
-- `popcnt32`. Their loops run over the bits of the word, so 32 rounds are enough.
use jvmos_jit.Base.{
  ℕ, zero, suc, ◌+◌, ◌-◌, ◌*◌, ◌/◌, ◌%◌, ◌^◌, Bool, not, ◌&&◌, Option, none, some, bit_and, bit_or,
  bit_xor, ltb, leb, ◌==◌, if◌then◌else◌,
}
use jvmos_jit.Base.Word.{u32, add32, sub32, neg32, int_neg, magnitude, ltb_int}

-- `while (!(v & 0x80000000u)) { v <<= 1; n++; }`
unfoldable pub clz_loop : ℕ → ℕ → ℕ → ℕ
clz_loop zero v n = n
clz_loop (suc fuel) v n =
    let rest = clz_loop fuel (u32 (v * 2)) (n + 1) in if bit_and v 0x8000_0000 == 0 then rest else n

unfoldable pub clz32 : ℕ → ℕ
unfolding clz_loop
clz32 v = if v == 0 then 32 else clz_loop 32 v 0

-- `while (!(v & 1u)) { v >>= 1; n++; }`
unfoldable pub ctz_loop : ℕ → ℕ → ℕ → ℕ
ctz_loop zero v n = n
ctz_loop (suc fuel) v n =
    let rest = ctz_loop fuel (v / 2) (n + 1) in if bit_and v 1 == 0 then rest else n

unfoldable pub ctz32 : ℕ → ℕ
unfolding ctz_loop
ctz32 v = if v == 0 then 32 else ctz_loop 32 v 0

-- `while (v) { n += (int)(v & 1u); v >>= 1; }`
unfoldable pub popcnt_loop : ℕ → ℕ → ℕ → ℕ
popcnt_loop zero v n = n
popcnt_loop (suc fuel) v n =
    let rest = popcnt_loop fuel (v / 2) (n + bit_and v 1) in if v == 0 then n else rest

unfoldable pub popcnt32 : ℕ → ℕ
unfolding popcnt_loop
popcnt32 v = popcnt_loop 32 v 0

-- The opcodes 0x46 to 0x4F.
pub data Relation : Type 0 where
  eq ne lt_s lt_u gt_s gt_u le_s le_u ge_s ge_u : Relation

unfoldable pub relation_of : ℕ → Relation
relation_of op =
    if op == 0x46
    then eq
    else if op == 0x47
    then ne
    else if op == 0x48
    then lt_s
    else if op == 0x49
    then lt_u
    else if op == 0x4A
    then gt_s
    else if op == 0x4B
    then gt_u
    else if op == 0x4C
    then le_s
    else if op == 0x4D
    then le_u
    else if op == 0x4E
    then ge_s
    else ge_u

unfoldable pub holds : Relation → ℕ → ℕ → Bool
holds eq a b = a == b
holds ne a b = not (a == b)
holds lt_s a b = ltb_int a b
holds lt_u a b = ltb a b
holds gt_s a b = ltb_int b a
holds gt_u a b = ltb b a
holds le_s a b = not (ltb_int b a)
holds le_u a b = leb a b
holds ge_s a b = not (ltb_int a b)
holds ge_u a b = leb b a

abbrev pub from_bool : Bool → ℕ
from_bool b = if b then 1 else 0

unfoldable pub compare_op : ℕ → ℕ → ℕ → ℕ
unfolding relation_of holds
compare_op op a b = from_bool (holds (relation_of op) a b)

-- `a / b` and `a % b` on `int`: C divides the magnitudes and truncates towards zero.
unfoldable pub div_int : ℕ → ℕ → ℕ
div_int a b =
    let q = magnitude a / magnitude b in
    if int_neg a then (if int_neg b then q else neg32 q) else (if int_neg b then neg32 q else q)

unfoldable pub rem_int : ℕ → ℕ → ℕ
rem_int a b = let r = magnitude a % magnitude b in if int_neg a then neg32 r else r

-- `a >> s` on `int`, which gcc makes an arithmetic shift.
unfoldable pub shr_int : ℕ → ℕ → ℕ
shr_int a s = if int_neg a then 2 ^ 32 - 1 - (2 ^ 32 - 1 - a) / 2 ^ s else a / 2 ^ s

-- `(unsigned)b & 31`
abbrev pub shift_count : ℕ → ℕ
shift_count b = bit_and b 31

unfoldable pub rotl : ℕ → ℕ → ℕ
rotl a b =
    let s = shift_count b in if s == 0 then a else bit_or (u32 (a * 2 ^ s)) (a / 2 ^ (32 - s))

unfoldable pub rotr : ℕ → ℕ → ℕ
rotr a b =
    let s = shift_count b in if s == 0 then a else bit_or (a / 2 ^ s) (u32 (a * 2 ^ (32 - s)))

-- The opcodes 0x6A to 0x78.
pub data Binary : Type 0 where
  add sub mul div_s div_u rem_s rem_u and or exclusive_or shl shr_s shr_u rotate_l rotate_r : Binary

unfoldable pub binary_of : ℕ → Binary
binary_of op =
    if op == 0x6A
    then add
    else if op == 0x6B
    then sub
    else if op == 0x6C
    then mul
    else if op == 0x6D
    then div_s
    else if op == 0x6E
    then div_u
    else if op == 0x6F
    then rem_s
    else if op == 0x70
    then rem_u
    else if op == 0x71
    then and
    else if op == 0x72
    then or
    else if op == 0x73
    then exclusive_or
    else if op == 0x74
    then shl
    else if op == 0x75
    then shr_s
    else if op == 0x76
    then shr_u
    else if op == 0x77
    then rotate_l
    else rotate_r

-- `a == (int)0x80000000 && b == -1`
abbrev pub overflows : ℕ → ℕ → Bool
overflows a b = a == 2 ^ 31 && b == 2 ^ 32 - 1

-- `none` is a trap.
unfoldable pub apply : Binary → ℕ → ℕ → Option ℕ
unfolding div_int rem_int shr_int rotl rotr
apply add a b = some (add32 a b)
apply sub a b = some (sub32 a b)
apply mul a b = some (u32 (a * b))
apply div_s a b = if b == 0 then none else if overflows a b then none else some (div_int a b)
apply div_u a b = if b == 0 then none else some (a / b)
apply rem_s a b = if b == 0 then none else if overflows a b then some 0 else some (rem_int a b)
apply rem_u a b = if b == 0 then none else some (a % b)
apply and a b = some (bit_and a b)
apply or a b = some (bit_or a b)
apply exclusive_or a b = some (bit_xor a b)
apply shl a b = some (u32 (a * 2 ^ shift_count b))
apply shr_s a b = some (shr_int a (shift_count b))
apply shr_u a b = some (a / 2 ^ shift_count b)
apply rotate_l a b = some (rotl a b)
apply rotate_r a b = some (rotr a b)
