-- ===== src/Wasm/Module.antt =====
-- The data of wasm/wasm.h: the error codes, the tables of a module and its run-time state, and the
-- ways in which the functions of wasm/wasm.c end.
--
-- An array is a function of its index; what an index is compared with in the source stands where
-- the code compares it. The guest's memory is a function of the distance from `m->mem`, with no
-- bound of its own: a store past the buffer would change what lies behind it. An `int` is its bit
-- pattern. `U` is the state of the host that the host functions read and change.
pub mod Post
use jvmos_jit.Base.{ℕ, ◌+◌, ◌*◌, Bool, true, false, List, [], if◌then◌else◌, ◌==◌}
use jvmos_jit.Wasm.Reader.{Bytes}

abbrev pub wasm_max_types : ℕ
wasm_max_types = 64

abbrev pub wasm_max_funcs : ℕ
wasm_max_funcs = 256

abbrev pub wasm_max_exports : ℕ
wasm_max_exports = 64

abbrev pub wasm_max_globals : ℕ
wasm_max_globals = 64

abbrev pub wasm_stack : ℕ
wasm_stack = 512

abbrev pub wasm_locals : ℕ
wasm_locals = 512

abbrev pub wasm_ctrl : ℕ
wasm_ctrl = 128

abbrev pub wasm_depth : ℕ
wasm_depth = 32

-- `wasm_err`, less `WASM_OK`.
pub data WasmErr : Type 0 where
  bad_magic bad_version truncated unsupported over_limit no_export bad_import bad_stack too_deep
        out_of_bounds trap bad_type :
      WasmErr

-- A call of a host function: its arguments by position, their number and the host's state give the
-- value and the new state.
abbrev pub HostFn : Type 0 → Type 0
HostFn U = (ℕ → ℕ) → ℕ → U → ℕ × U

-- The names are pointers to terminated texts: the character at a distance from the first.
pub record HostEntry (U : Type 0) : Type 0 where
  pub module_name : ℕ → ℕ
  pub name : ℕ → ℕ
  pub fn : HostFn U

pub record WasmType : Type 0 where
  pub nparams : ℕ
  pub nresults : ℕ

pub record WasmFunc : Type 0 where
  pub type : ℕ
  pub code : ℕ
  pub code_end : ℕ
  pub nlocals : ℕ
  pub imported : Bool
  pub host : ℕ

pub record WasmExport : Type 0 where
  pub name : ℕ
  pub namelen : ℕ
  pub kind : ℕ
  pub index : ℕ

pub record WasmLabel : Type 0 where
  pub cont : ℕ
  pub is_loop : Bool
  pub arity : ℕ
  pub sp : ℕ

pub record WasmModule (U : Type 0) : Type 0 where
  pub types : ℕ → WasmType
  pub ntypes : ℕ
  pub funcs : ℕ → WasmFunc
  pub nfuncs : ℕ
  pub nimports : ℕ
  pub exports : ℕ → WasmExport
  pub nexports : ℕ
  pub globals : ℕ → ℕ
  pub nglobals : ℕ
  -- false for a null `m->mem`
  pub has_mem : Bool
  pub mem : ℕ → ℕ
  pub mem_bytes : ℕ
  pub mem_pages : ℕ
  pub mem_limit : ℕ
  pub hosts : ℕ → HostEntry U
  pub nhosts : ℕ
  pub user : U
  pub stack : ℕ → ℕ
  pub sp : ℕ
  pub locals : ℕ → ℕ
  pub lp : ℕ
  pub ctrl : ℕ → WasmLabel
  pub cp : ℕ

-- `a[i] = v`
abbrev pub update {ℓ} : {A : Type ℓ} → (ℕ → A) → ℕ → A → ℕ → A
update a i v j = if i == j then v else a j

-- How a function ends: normally, with an error code, or by leaving one of the module's arrays,
-- which C leaves undefined.
pub data Outcome (U A : Type 0) : Type 0 where
  ok : A → WasmModule U → Outcome U A
  fail : WasmErr → WasmModule U → Outcome U A
  wild : Outcome U A

abbrev pub Cmd : Type 0 → Type 0 → Type 0
Cmd U A = WasmModule U → Outcome U A

module _ {U : Type 0} where
  abbrev pub pure : {A : Type 0} → A → Cmd U A
  pure a = ok a

  abbrev pub and_then : {A B : Type 0} → Outcome U A → (A → Cmd U B) → Outcome U B
  and_then (ok a m) k = k a m
  and_then (fail e m) k = fail e m
  and_then wild k = wild

  infixl 5 ◌>>=◌ ◌>>◌
  abbrev pub ◌>>=◌ : {A B : Type 0} → Cmd U A → (A → Cmd U B) → Cmd U B
  c >>= k = λ m. and_then (c m) k

  abbrev pub ◌>>◌ : {B : Type 0} → Cmd U (Unit {0}) → Cmd U B → Cmd U B
  c >> d = c >>= λ _. d

  abbrev pub get : Cmd U (WasmModule U)
  get m = ok m m

  abbrev pub modify : (WasmModule U → WasmModule U) → Cmd U (Unit {0})
  modify f m = ok tt (f m)

  abbrev pub throw : {A : Type 0} → WasmErr → Cmd U A
  throw e m = fail e m

  -- `if (b) return e;`
  abbrev pub fail_if : Bool → WasmErr → Cmd U (Unit {0})
  fail_if true e m = fail e m
  fail_if false e m = ok tt m

  -- An index outside its array.
  abbrev pub wild_if : Bool → Cmd U (Unit {0})
  wild_if true m = wild
  wild_if false m = ok tt m
