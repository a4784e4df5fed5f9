-- ===== src/Edit/Name/Bounds.antt =====
-- A name stays inside `g_name` and is terminated there.
use jvmos_jit.Base.{ℕ, zero, suc, ◌+◌, ◌-◌, ◌≤◌, ◌≡◌, false, arith, leb}
use jvmos_jit.Edit.Name.{
  Name, fs_name_max, trim, unpack_into, zero_chars, name_clear, name_unpack, name_push, name_pop,
}

-- The terminator stands behind the last character, inside the array.
pub record IsName (name : Name) : Type 0 where
  pub short : name.len ≤ fs_name_max
  pub ended : name.char name.len ≡ 0

trim-bound : (n lo : ℕ) (packed : ℕ → ℕ) → (lo ≤ trim n lo packed) × (trim n lo packed ≤ lo + n)
unfolding trim
trim-bound zero lo packed = omega arith
trim-bound (suc n) lo packed = let (low, high) = trim-bound n lo packed in ground arith

-- Unpacking a directory name gives at most twelve characters and a terminator, whatever the eleven
-- bytes are.
pub name_unpack-IsName : (packed : ℕ → ℕ) (name : Name) → IsName (name_unpack packed name)
unfolding name_unpack unpack_into
name_unpack-IsName packed name =
    let (a, b) = trim-bound 8 0 packed in
    let (c, d) = trim-bound 3 8 packed in
    record { short = ground (arith, a, b, c, d); ended = ground arith }

pub name_clear-IsName : (name : Name) → IsName (name_clear name)
unfolding name_clear zero_chars
name_clear-IsName name = record { short = omega arith; ended = ground arith }

pub name_push-IsName : (c : ℕ) (name : Name) → IsName name → IsName (name_push c name).1
unfolding name_push
name_push-IsName c name h = ground arith

pub name_pop-IsName : (name : Name) → IsName name → IsName (name_pop name).1
unfolding name_pop
name_pop-IsName name h = ground arith

-- A character that fits is pushed, and popping it again gives back the name, with its terminator:
-- its length, and each of its characters.
pub name_pop-push :
    (c : ℕ) (name : Name)
    → IsName name
    → name.len ≤ fs_name_max - 1
    → ((name_pop (name_push c name).1).1.len ≡ name.len)
      × ((i : ℕ) → i ≤ name.len → (name_pop (name_push c name).1).1.char i ≡ name.char i)
unfolding name_pop name_push
name_pop-push c name h room =
    let unfilled : leb fs_name_max name.len ≡ false = ground (arith, room) in
    rw unfilled (ground arith, λ i p. ground (arith, p, h.ended))
