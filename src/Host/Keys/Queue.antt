-- ===== src/Host/Keys/Queue.antt =====
-- The ring of wasm/host.c is a first-in first-out queue of at most fifteen keys.
use jvmos_jit.Base.{
  length, ap, ℕ, zero, suc, ◌+◌, ◌-◌, ◌%◌, ◌<◌, ◌≡◌, refl, true, false, ◌||◌, List, [], ◌∷◌, ◌++◌,
  arith, ◌==◌, if◌then◌else◌, Bool-cases, inl, inr,
}
use jvmos_jit.Base.Word.{int_neg}
use jvmos_jit.Wasm.Module.{update}
use jvmos_jit.Host.Keys.{Keys, key_slots, wasm_push_key, hf_key}

pub record IsRing (q : Keys) : Type 0 where
  pub head_fits : q.head < key_slots
  pub tail_fits : q.tail < key_slots

-- `n` slots from `i` on, around the ring.
slots : ℕ → ℕ → (ℕ → ℕ) → List ℕ
slots zero i slot = []
slots (suc n) i slot = slot i ∷ slots n ((i + 1) % key_slots) slot

-- How many keys wait, and which.
abbrev pub waiting : Keys → ℕ
waiting q = (q.tail + key_slots - q.head) % key_slots

unfoldable pub queue : Keys → List ℕ
unfolding slots
queue q = slots (waiting q) q.head q.slot

slots-update :
    (n i tail code : ℕ) (slot : ℕ → ℕ)
    → i < key_slots
    → n < key_slots
    → (i + n) % key_slots ≡ tail
    → slots (suc n) i (update slot tail code) ≡ slots n i slot ++ (code ∷ [])
unfolding slots
slots-update zero i tail code slot h k p =
    let here : (tail == i) ≡ true = ground (arith, h, p) in rw here refl
slots-update (suc n) i tail code slot h k p =
    let apart : (tail == i) ≡ false = ground (arith, h, k, p) in
    rw
      (
        apart,
        slots-update n ((i + 1) % key_slots) tail code slot (omega arith) (omega (arith, k))
            (omega (arith, p)),
      )
      refl

-- A push puts a positive key at the end of the queue while fewer than fifteen wait, and otherwise
-- leaves the ring as it was.
pub wasm_push_key-queue :
    (code : ℕ) (q : Keys)
    → IsRing q
    → queue (wasm_push_key code q) ≡ (
        if (code == 0 || int_neg code) || waiting q == key_slots - 1
        then queue q
        else queue q ++ (code ∷ []))
unfolding wasm_push_key queue
wasm_push_key-queue code q h = elim (Bool-cases (code == 0 || int_neg code)) [
  | inl refused ↦ rw refused refl
  | inr key ↦ rw key (elim (Bool-cases (waiting q == key_slots - 1)) [
    | inl full ↦
        let meets : ((q.tail + 1) % key_slots == q.head) ≡ true =
          ground (arith, full, h.head_fits, h.tail_fits) in
        rw (full, meets) refl
    | inr room ↦
        let apart : ((q.tail + 1) % key_slots == q.head) ≡ false =
          ground (arith, room, h.head_fits, h.tail_fits) in
        let more : ((q.tail + 1) % key_slots + key_slots - q.head) % key_slots ≡ suc (waiting q) =
          ground (arith, room, h.head_fits, h.tail_fits) in
        rw (room, apart, more)
          (slots-update (waiting q) q.head q.tail code q.slot h.head_fits (omega arith)
            (ground (arith, h.head_fits, h.tail_fits)))
  ])
]

-- The guest is given the first key of the queue, which leaves it, or 0 when the queue is empty.
abbrev pub Popped : List ℕ → ℕ → List ℕ → Type 0
Popped [] k rest = (k ≡ 0) × (rest ≡ [])
Popped (first ∷ others) k rest = (k ≡ first) × (rest ≡ others)

-- Taking a key gives the first of the queue, which leaves it; from an empty queue it gives 0 and
-- leaves the queue empty.
pub hf_key-queue : (q : Keys) → IsRing q → Popped (queue q) (hf_key q).0 (queue (hf_key q).1)
unfolding hf_key queue slots
hf_key-queue q h = elim (Bool-cases (q.head == q.tail)) [
  | inl empty ↦
      let none_wait : waiting q ≡ 0 = ground (arith, empty, h.head_fits, h.tail_fits) in
      rw (empty, none_wait) (refl, refl)
  | inr some_wait ↦
      let next = (q.head + 1) % key_slots in
      let left = (q.tail + key_slots - next) % key_slots in
      let fewer : waiting q ≡ suc left = ground (arith, some_wait, h.head_fits, h.tail_fits) in
      rw (some_wait, fewer) (refl, refl)
]

-- Both operations keep the ring's indices inside it.
pub wasm_push_key-IsRing : (code : ℕ) (q : Keys) → IsRing q → IsRing (wasm_push_key code q)
unfolding wasm_push_key
wasm_push_key-IsRing code q h = ground arith

pub hf_key-IsRing : (q : Keys) → IsRing q → IsRing (hf_key q).1
unfolding hf_key
hf_key-IsRing q h = ground arith

length-slots : (n i : ℕ) (slot : ℕ → ℕ) → length (slots n i slot) ≡ n
unfolding slots
length-slots zero i slot = refl
length-slots (suc n) i slot = ap suc (length-slots n ((i + 1) % key_slots) slot)

pub length-queue : (q : Keys) → length (queue q) ≡ waiting q
unfolding queue
length-queue q = length-slots (waiting q) q.head q.slot
