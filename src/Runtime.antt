-- ===== src/Runtime.antt =====
-- The C runtime of the kernel, wasm/runtime.c, on a memory from addresses to bytes.
pub mod Copy
pub mod Compare
mod Examples
use jvmos_jit.Base.{ℕ, zero, suc, ◌+◌, ◌-◌, ◌*◌, ◌^◌, Bool, bit_or, ◌==◌, if◌then◌else◌}
use jvmos_jit.Base.Word.{u8, sub32}
use jvmos_jit.Wasm.Module.{update}

-- `while (n--)` with the rounds that are left.
unfoldable pub set_loop : (n p value : ℕ) → (ℕ → ℕ) → ℕ → ℕ
set_loop zero p value m = m
set_loop (suc n) p value m = set_loop n (p + 1) value (update m p (u8 value))

-- The pointer that is returned, and the memory.
unfoldable pub memset : (dst value n : ℕ) → (ℕ → ℕ) → ℕ × (ℕ → ℕ)
unfolding set_loop
memset dst value n m = (dst, set_loop n dst value m)

unfoldable pub copy_loop : (n d s : ℕ) → (ℕ → ℕ) → ℕ → ℕ
copy_loop zero d s m = m
copy_loop (suc n) d s m = copy_loop n (d + 1) (s + 1) (update m d (m s))

unfoldable pub memcpy : (dst src n : ℕ) → (ℕ → ℕ) → ℕ × (ℕ → ℕ)
unfolding copy_loop
memcpy dst src n m = (dst, copy_loop n dst src m)

-- The difference of the first two bytes that differ, as an `int`.
unfoldable pub memcmp : (a b n : ℕ) → (ℕ → ℕ) → ℕ
memcmp a b zero m = 0
memcmp a b (suc n) m =
    let rest = memcmp (a + 1) (b + 1) n m in if m a == m b then rest else sub32 (m a) (m b)

-- `probe`, four bytes of the stack, from an address on.
abbrev pub probe : (at : ℕ) → (ℕ → ℕ) → ℕ → ℕ
probe at m = update (update (update (update m at 0x57) (at + 1) 0x41) (at + 2) 0x53) (at + 3) 0x4D

unfoldable pub c_selftest : (at : ℕ) → (ℕ → ℕ) → ℕ
c_selftest at m =
    let p = probe at m in
    bit_or (bit_or (bit_or (p at * 2 ^ 24) (p (at + 1) * 2 ^ 16)) (p (at + 2) * 2 ^ 8)) (p (at + 3))
