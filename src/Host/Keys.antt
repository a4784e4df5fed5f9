-- ===== src/Host/Keys.antt =====
-- The key queue of wasm/host.c: `wasm_push_key` and `hf_key`, on a ring of `KEY_SLOTS` slots.
pub mod Queue
pub mod Delivery
use jvmos_jit.Base.{ℕ, ◌+◌, ◌%◌, Bool, not, ◌||◌, ltb, ◌==◌, if◌then◌else◌}
use jvmos_jit.Base.Word.{int_neg}
use jvmos_jit.Wasm.Module.{update}

abbrev pub key_slots : ℕ
key_slots = 16

-- `g_keys`, `g_key_head` and `g_key_tail`.
pub record Keys : Type 0 where
  pub slot : ℕ → ℕ
  pub head : ℕ
  pub tail : ℕ

unfoldable pub wasm_push_key : ℕ → Keys → Keys
wasm_push_key code q =
    let next = (q.tail + 1) % key_slots in
    if (code == 0 || int_neg code) || next == q.head
    then q
    else record q { slot = update q.slot q.tail code; tail = next }

-- The value that the guest gets, 0 for none.
unfoldable pub hf_key : Keys → ℕ × Keys
hf_key q =
    if q.head == q.tail
    then (0, q)
    else (q.slot q.head, record q { head = (q.head + 1) % key_slots })
