-- ===== src/Wasm/Strerror.antt =====
-- `wasm_strerror` of wasm/wasm.c, on the number of an error.
use Prim.Native.String.{String}
use jvmos_jit.Base.{ℕ, ◌==◌, if◌then◌else◌}

unfoldable wasm_strerror : ℕ → String
wasm_strerror e =
    if e == 0
    then "ok"
    else if e == 1
    then "not a wasm module"
    else if e == 2
    then "unsupported version"
    else if e == 3
    then "truncated or malformed"
    else if e == 4
    then "unsupported feature"
    else if e == 5
    then "module exceeds a fixed limit"
    else if e == 6
    then "no such export"
    else if e == 7
    then "unresolved import"
    else if e == 8
    then "stack error"
    else if e == 9
    then "call depth exceeded"
    else if e == 10
    then "memory access out of bounds"
    else if e == 11
    then "trap"
    else "type error"
