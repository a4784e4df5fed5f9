-- ===== src/Wasm/Scan/Structure.antt =====
-- What the scans find, against the nesting of the code, which Wasm/Scan/Nesting describes.
use mathlib.Core.Path.{subst, sym}
use jvmos_jit.Base.{ℕ, ◌<◌, ◌≡◌, Option}
use jvmos_jit.Base.Word.{IsU32}
use jvmos_jit.Wasm.Reader.{Bytes, Rd}
use jvmos_jit.Wasm.Scan.{branch_round, else_round}
use jvmos_jit.Wasm.Scan.Bounds.{RoundInside, branch_round-RoundInside, else_round-RoundInside}
use jvmos_jit.Wasm.Scan.Fuel.{scan}
use jvmos_jit.Wasm.Scan.Operands.{at}

module _ (bytes : Bytes) (end : ℕ) (small : IsU32 end) where
  branching :
      (r : Rd) (d l : ℕ) → r.p < r.end → r.end ≡ end → RoundInside r (branch_round bytes r d l)
  branching r d l h e = branch_round-RoundInside bytes r d l h (subst IsU32 (sym e) small)

  abbrev branch_scan : ℕ → ℕ → ℕ → Option ℕ
  branch_scan p d l = scan (branch_round bytes) end branching (at bytes end small p) d l

  elsewhere :
      (r : Rd) (d l : ℕ) → r.p < r.end → r.end ≡ end → RoundInside r (else_round bytes r d l)
  elsewhere r d l h e = else_round-RoundInside bytes r d l h (subst IsU32 (sym e) small)

  abbrev else_scan : ℕ → ℕ → Option ℕ
  else_scan p d = scan (else_round bytes) end elsewhere (at bytes end small p) d 0
