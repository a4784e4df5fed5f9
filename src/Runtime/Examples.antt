-- ===== src/Runtime/Examples.antt =====
-- A memory of small numbers, and one byte copied over and over.
use jvmos_jit.Base.{ℕ, ◌+◌, ◌%◌, ◌≡◌, ◌↔◌, refl, inl, arith}
use jvmos_jit.Runtime.{memcpy, memcmp, c_selftest}
use jvmos_jit.Runtime.Copy.{overlaid, memcpy-overlaid}
use jvmos_jit.Runtime.Compare.{AreBytes, SameBytes, memcmp-SameBytes}

abbrev memory : ℕ → ℕ
memory k = k % 4

memory-AreBytes : AreBytes memory
memory-AreBytes k = omega arith

selftest_wasm : c_selftest 100 memory ≡ 0x5741_534D
unfolding c_selftest
selftest_wasm = refl

memcmp_differs : memcmp 0 5 4 memory ≡ 4294967295
unfolding memcmp
memcmp_differs = refl

memcpy-overlaid_example : (memcpy 2 3 5 memory).1 4 ≡ overlaid memory 2 5 (λ i. memory (3 + i)) 4
memcpy-overlaid_example = memcpy-overlaid 2 3 5 memory 4 (inl (omega arith))

memcmp-SameBytes_example : (memcmp 0 4 9 memory ≡ 0) ↔ SameBytes 0 4 9 memory
memcmp-SameBytes_example = memcmp-SameBytes 0 4 9 memory memory-AreBytes
