-- ===== src/Wasm/Names.antt =====
-- The comparison of names in wasm/wasm.c: `wcmp`.
use jvmos_jit.Base.{ℕ, zero, suc, ◌+◌, Bool, false, ◌==◌, if◌then◌else◌}
use jvmos_jit.Wasm.Reader.{Bytes}

-- `wcmp(a, b, n) == 0`: the `n` bytes at `a` are those of the text `b`, which ends there.
unfoldable pub same_bytes : ℕ → Bytes → (a : ℕ) → (ℕ → ℕ) → (i : ℕ) → Bool
same_bytes zero bytes a b i = b i == 0
same_bytes (suc n) bytes a b i =
    let rest = same_bytes n bytes a b (i + 1) in if bytes (a + i) == b i then rest else false

unfoldable pub wcmp_equal : Bytes → (a : ℕ) → (ℕ → ℕ) → (n : ℕ) → Bool
unfolding same_bytes
wcmp_equal bytes a b n = same_bytes n bytes a b 0
