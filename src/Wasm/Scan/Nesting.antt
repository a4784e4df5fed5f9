-- ===== src/Wasm/Scan/Nesting.antt =====
-- The nesting of WebAssembly code by its binary format, with no reference to the scans of
-- wasm/wasm.c: which bytes belong to an instruction, which to a block.
--
-- A number takes at most five bytes, which is all that the reader of wasm/wasm.c takes.
use jvmos_jit.Base.{ℕ, zero, suc, ◌+◌, ◌≤◌, ◌<◌, ◌≡◌, ◌≢◌, ◌⊎◌, Bool, true}
use jvmos_jit.Wasm.Reader.{Bytes}
use jvmos_jit.Wasm.Reader.Leb.{leb_value, IsLeb}

-- `br`, `br_if`, `call`, and the five instructions on locals and globals.
abbrev pub HasIndex : ℕ → Type 0
HasIndex op = (op ≡ 0x0C) ⊎ (op ≡ 0x0D) ⊎ (op ≡ 0x10) ⊎ ((0x20 ≤ op) × (op ≤ 0x24))

-- `call_indirect`, and the loads and stores.
abbrev pub HasTwo : ℕ → Type 0
HasTwo op = (op ≡ 0x11) ⊎ ((0x28 ≤ op) × (op ≤ 0x3E))

-- `unreachable`, `nop`, `return`, `drop`, `select`, and the numeric instructions.
abbrev pub HasNothing : ℕ → Type 0
HasNothing op =
    (op ≤ 0x01) ⊎ (op ≡ 0x0F) ⊎ ((0x1A ≤ op) × (op ≤ 0x1B)) ⊎ ((0x45 ≤ op) × (op ≤ 0xC4))

-- `block`, `loop` and `if`.
abbrev pub IsBlock : ℕ → Type 0
IsBlock op = (op ≡ 0x02) ⊎ (op ≡ 0x03) ⊎ (op ≡ 0x04)

module _ (bytes : Bytes) (end : ℕ) where
  -- A LEB128 number from one position up to another, with `rest` bytes behind its first.
  pub record Number (p s : ℕ) : Type 0 where
    pub rest : ℕ
    pub short : rest < 5
    pub spelled : IsLeb bytes p (suc rest)
    pub inside : p + suc rest ≤ end
    pub reaches : s ≡ p + suc rest

  pub data Numbers : ℕ → ℕ → ℕ → Type 0 where
    no_more : {p : ℕ} → Numbers zero p p
    one_more : {k p t s : ℕ} → Number p t → Numbers k t s → Numbers (suc k) p s

  -- What follows an opcode that neither opens nor closes a block.
  pub data Operands (op p s : ℕ) : Type 0 where
    nothing : HasNothing op → s ≡ p → Operands op p s
    index : HasIndex op → Number p s → Operands op p s
    two : (t : ℕ) → HasTwo op → Number p t → Number t s → Operands op p s
    constant : (op ≡ 0x41) ⊎ (op ≡ 0x42) → Number p s → Operands op p s
    -- `memory.size` and `memory.grow`
    memory : (op ≡ 0x3F) ⊎ (op ≡ 0x40) → p < end → s ≡ p + 1 → Operands op p s
    single : op ≡ 0x43 → p + 4 ≤ end → s ≡ p + 4 → Operands op p s
    double : op ≡ 0x44 → p + 8 ≤ end → s ≡ p + 8 → Operands op p s
    -- The targets of `br_table`, and one more for all other values.
    table :
        (t : ℕ)
        → op ≡ 0x0E
        → (count : Number p t) → Numbers (suc (leb_value bytes p (suc count.rest))) t s
        → Operands op p s

  -- A block without a result or with one of a value type has a byte, any other one the number of
  -- a type.
  pub data Blocktype (p s : ℕ) : Type 0 where
    plain_type :
        p < end
        → (bytes p ≡ 0x40) ⊎ ((0x7B ≤ bytes p) × (bytes p ≤ 0x7F))
        → s ≡ p + 1
        → Blocktype p s
    type_number : bytes p ≢ 0x40 → (bytes p < 0x7B) ⊎ (0x7F < bytes p) → Number p s → Blocktype p s

  -- Well-nested code from one position up to another: instructions with their operands, and
  -- whole blocks up to and with their `end`. The flag says whether an `else` may stand in it
  -- outside of its blocks.
  pub data Body : Bool → ℕ → ℕ → Type 0 where
    stop : {e : Bool} {p : ℕ} → Body e p p
    instruction :
        {e : Bool} {p s q : ℕ} → p < end → Operands (bytes p) (p + 1) s → Body e s q → Body e p q
    other_arm :
        {e : Bool} {p q : ℕ} → e ≡ true → p < end → bytes p ≡ 0x05 → Body e (p + 1) q → Body e p q
    block :
        {e : Bool} {p s t q : ℕ}
        → p < end
        → IsBlock (bytes p)
        → Blocktype (p + 1) s
        → Body true s t
        → t < end
        → bytes t ≡ 0x0B
        → Body e (t + 1) q
        → Body e p q

  -- Leaving `n` enclosing blocks more than the innermost one ends at the position given.
  pub data Leaves : ℕ → ℕ → ℕ → Type 0 where
    innermost : {p q : ℕ} → Body true p q → q < end → bytes q ≡ 0x0B → Leaves zero p (q + 1)
    outer :
        {n p q t : ℕ}
        → Body true p q
        → q < end
        → bytes q ≡ 0x0B
        → Leaves n (q + 1) t
        → Leaves (suc n) p t
