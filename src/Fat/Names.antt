-- ===== src/Fat/Names.antt =====
-- Names in fs/fat32.c: `same_name`, `upper` and `fat32_pack_name`.
use jvmos_jit.Base.{ℕ, zero, suc, ◌+◌, ◌-◌, Bool, true, not, ◌&&◌, leb, ◌==◌, if◌then◌else◌}
use jvmos_jit.Wasm.Module.{update}

abbrev pub fat_name_len : ℕ
fat_name_len = 11

abbrev pub dot : ℕ
dot = 0x2E

-- The first `n` characters are the same.
unfoldable pub same_chars : ℕ → (a b : ℕ → ℕ) → Bool
same_chars zero a b = true
same_chars (suc n) a b = same_chars n a b && (a n == b n)

unfoldable pub same_name : (a b : ℕ → ℕ) → Bool
unfolding same_chars
same_name a b = same_chars fat_name_len a b

unfoldable pub upper : ℕ → ℕ
upper c = if leb 0x61 c && leb c 0x7A then c - 32 else c

-- `name[i] && name[i] != '.'`
abbrev pub in_base : ℕ → Bool
in_base c = not (c == 0) && not (c == dot)

-- The loop over the base: `left` characters still fit. It leaves `i`, `o` and the packed name.
unfoldable pub pack_base : ℕ → (name : ℕ → ℕ) → (i : ℕ) → (out : ℕ → ℕ) → ℕ × (ℕ → ℕ)
unfolding upper
pack_base zero name i out = (i, out)
pack_base (suc left) name i out =
    let rest = pack_base left name (i + 1) (update out i (upper (name i))) in
    if in_base (name i) then rest else (i, out)

-- `while (name[i] && name[i] != '.') i++;`, for a name of at most `left` more characters.
unfoldable pub skip_base : ℕ → (name : ℕ → ℕ) → (i : ℕ) → ℕ
skip_base zero name i = i
skip_base (suc left) name i =
    let rest = skip_base left name (i + 1) in if in_base (name i) then rest else i

-- The extension: `left` characters still fit, the next one at `o`.
unfoldable pub pack_extension : ℕ → (name : ℕ → ℕ) → (i o : ℕ) → (out : ℕ → ℕ) → ℕ → ℕ
unfolding upper
pack_extension zero name i o out = out
pack_extension (suc left) name i o out =
    let rest = pack_extension left name (i + 1) (o + 1) (update out o (upper (name i))) in
    if name i == 0 then out else rest

-- `size` bounds the length of the text `name`.
unfoldable pub fat32_pack_name : (size : ℕ) → (name : ℕ → ℕ) → ℕ → ℕ
unfolding pack_base skip_base pack_extension
fat32_pack_name size name =
    let (i, out) = pack_base 8 name 0 (λ j. 0x20) in
    let k = skip_base size name i in
    let whole = pack_extension 3 name (k + 1) 8 out in
    update (if name k == dot then whole else out) fat_name_len 0
