-- ===== src/Host/Programs.antt =====
-- Which module the bridge runs: `use_module`, `wasm_prog_use`, `wasm_prog_builtin` and
-- `wasm_guest_frame` of wasm/host.c.
--
-- The host functions are those of `hosts`, on their state `U`. `builtin` is the module
-- that the build generates. `g_mem` is the memory of the module, and what is behind it stays there.
pub mod Apart
use jvmos_jit.Base.{
  ℕ, zero, suc, ◌+◌, ◌-◌, ◌*◌, ◌^◌, Bool, true, false, not, ◌&&◌, ◌||◌, Option, none, some, List,
  [], ◌∷◌, ltb, leb, ◌==◌, if◌then◌else◌,
}
use jvmos_jit.Base.Word.{int_neg, neg32}
use jvmos_jit.Wasm.Reader.{Bytes}
use jvmos_jit.Wasm.Module.{
  WasmErr, bad_magic, bad_version, truncated, unsupported, over_limit, no_export, bad_import,
  bad_stack, too_deep, out_of_bounds, trap, bad_type, WasmModule, HostEntry, Outcome, ok, fail,
  wild,
}
use jvmos_jit.Wasm.Load.{cleared, wasm_load}
use jvmos_jit.Wasm.Exec.Call.{wasm_call}

abbrev pub g_mem_size : ℕ
g_mem_size = 65536

abbrev pub wasm_prog_max : ℕ
wasm_prog_max = 65536

-- The number of an error in `wasm_err`.
abbrev pub code_of : WasmErr → ℕ
code_of bad_magic = 1
code_of bad_version = 2
code_of truncated = 3
code_of unsupported = 4
code_of over_limit = 5
code_of no_export = 6
code_of bad_import = 7
code_of bad_stack = 8
code_of too_deep = 9
code_of out_of_bounds = 10
code_of trap = 11
code_of bad_type = 12

-- `-(int)e`
abbrev pub negated : WasmErr → ℕ
negated e = 2 ^ 32 - code_of e

-- `g_mod` with `g_mem`, `g_loaded`, `g_failed`, `g_from_disk` and `g_prog`. The host functions' part of
-- the bridge, the key queue among it, is the module's `user`.
pub record Bridge (U : Type 0) : Type 0 where
  pub module_state : WasmModule U
  pub loaded : Bool
  pub failed : ℕ
  pub from_disk : Bool
  pub prog : Bytes

-- An answer and the state behind it, or a run that left the module's arrays or its fuel.
pub data Answer (U : Type 0) : Type 0 where
  answer : ℕ → Bridge U → Answer U
  astray : Answer U

-- `for (i = 0; i < sizeof(g_mem); i++) g_mem[i] = 0;`
abbrev pub zeroed : (ℕ → ℕ) → ℕ → ℕ
zeroed memory i = if ltb i g_mem_size then 0 else memory i

-- `drop_keys` sets `g_key_head` and `g_key_tail` to 0.
module _ {U : Type 0} (hosts : ℕ → HostEntry U) (nhosts : ℕ) (drop_keys : U → U) where
  -- `e = wasm_load(...)`, as `use_module` goes on from it.
  abbrev pub loaded_as : (from_disk : Bool) → Bridge U → Option (Outcome U (Unit {0})) → Answer U
  loaded_as from_disk s (some (ok u m)) =
      answer 1 (record s { module_state = m; loaded = true; failed = 0; from_disk = from_disk })
  loaded_as from_disk s (some (fail e m)) =
      answer (negated e) (record s { module_state = m; loaded = false; failed = negated e })
  loaded_as from_disk s (some wild) = astray
  loaded_as from_disk s none = astray

  unfoldable pub use_module : (bytes : Bytes) → (len : ℕ) → (from_disk : Bool) → Bridge U → Answer U
  unfolding wasm_load cleared
  use_module bytes len from_disk s =
      let m = s.module_state in
      loaded_as from_disk s (
        wasm_load bytes 0 len
          (cleared true (zeroed m.mem) g_mem_size hosts nhosts (drop_keys m.user)))

  unfoldable pub wasm_prog_use : (len : ℕ) → Bridge U → Answer U
  unfolding use_module
  wasm_prog_use len s =
      if (len == 0 || int_neg len) || ltb wasm_prog_max len
      then answer (negated over_limit) s
      else use_module s.prog len true s

  module _ (builtin : Bytes) (builtin_len fuel : ℕ) (frame_name : ℕ → ℕ) where
    unfoldable pub wasm_prog_builtin : Bridge U → Answer U
    unfolding use_module
    wasm_prog_builtin s = use_module builtin builtin_len false s

    abbrev pub called : Bridge U → Option (Outcome U ℕ) → Answer U
    called s (some (ok v m)) = answer 1 (record s { module_state = m })
    called s (some (fail e m)) = answer (negated e) (record s { module_state = m })
    called s (some wild) = astray
    called s none = astray

    abbrev pub running : Bridge U → Bytes
    running s = if s.from_disk then s.prog else builtin

    unfoldable pub call_frame : Bridge U → Answer U
    unfolding wasm_call
    call_frame s = called s (wasm_call fuel (running s) frame_name [] s.module_state)

    -- `if (r < 0) return r;` behind `wasm_prog_builtin`.
    abbrev pub unless_refused : Answer U → Answer U
    unless_refused astray = astray
    unless_refused (answer r s) = if int_neg r then answer r s else call_frame s

    -- The window is part of the state of the host functions: `open_window` sets it.
    unfoldable pub wasm_guest_frame : (open_window : U → U) → (w h : ℕ) → Bridge U → Answer U
    unfolding wasm_prog_builtin call_frame
    wasm_guest_frame open_window w h s =
        let m = s.module_state in
        let s' = record s { module_state = record m { user = open_window m.user } } in
        if (w == 0 || int_neg w) || (h == 0 || int_neg h)
        then answer 1 s'
        else if not (s.failed == 0)
        then answer s.failed s'
        else if s.loaded
        then call_frame s'
        else unless_refused (wasm_prog_builtin s')
