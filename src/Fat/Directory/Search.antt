-- ===== src/Fat/Directory/Search.antt =====
-- The search by name in the root directory, and the slots that `guard` allows.
use jvmos_jit.Base.{
  ℕ, zero, suc, ◌+◌, ◌-◌, ◌*◌, ◌≤◌, ◌<◌, ◌≡◌, ◌≢◌, ◌⊎◌, refl, sym, ap, ◌∙◌, Bool, true, false, not,
  ◌&&◌, Bool-cases, if-cases, inl, inr, Option, none, some, arith, leb, bit_and, ◌==◌,
}
use mathlib.Core.Path.{subst}
use native.Mathlib.Nat.{suc-mul}
use jvmos_jit.Fat.Bytes.{Buffer}
use jvmos_jit.Fat.Disk.{Disk}
use jvmos_jit.Fat.Names.{same_chars, same_name}
use jvmos_jit.Fat.Table.{Fs, fat_entry_get, in_chain}
use jvmos_jit.Fat.Directory.{
  Slot, is_free, is_long_name, per_cluster, all_slots, root_walk, root_slot_read, find_from,
  find_slot, find_entry,
}

-- Names that are not the same, at one of their eleven bytes.
pub record Differs (a b : ℕ → ℕ) : Type 0 where
  pub position : ℕ
  pub inside : position < 11
  pub apart : a position ≢ b position

same_chars-Same : (n : ℕ) (a b : ℕ → ℕ) → same_chars n a b ≡ true → (i : ℕ) → i < n → a i ≡ b i
unfolding same_chars
same_chars-Same zero a b same i h = absurd (omega (arith, h))
same_chars-Same (suc n) a b same i h = elim (Bool-cases (i == n)) [
  | inl last ↦
      let here : i ≡ n = ground (arith, last) in ap a here ∙ ground (arith, same) ∙ sym (ap b here)
  | inr before ↦ same_chars-Same n a b (ground (arith, same)) i (ground (arith, h, before))
]

same_chars-Differs : (n : ℕ) (a b : ℕ → ℕ) → n ≤ 11 → same_chars n a b ≡ false → Differs a b
unfolding same_chars
same_chars-Differs zero a b room other = absurd (ground (arith, other))
same_chars-Differs (suc n) a b room other = elim (Bool-cases (a n == b n)) [
  | inl same ↦ same_chars-Differs n a b (omega (arith, room)) (ground (arith, other, same))
  | inr apart ↦ record { position = n; inside = omega (arith, room); apart = ground (arith, apart) }
]

same_name-Same : (a b : ℕ → ℕ) → same_name a b ≡ true → (i : ℕ) → i < 11 → a i ≡ b i
unfolding same_name
same_name-Same a b same = same_chars-Same 11 a b same

same_name-Differs : (a b : ℕ → ℕ) → same_name a b ≡ false → Differs a b
unfolding same_name
same_name-Differs a b other = same_chars-Differs 11 a b (omega arith) other

missed :
    (raw : Buffer) (name : ℕ → ℕ)
    → (not (is_free raw) && (not (is_long_name raw) && same_name raw name)) ≡ false
    → (raw 0 ≡ 0xE5) ⊎ (bit_and (raw 11) 0x0F ≡ 0x0F) ⊎ Differs raw name
missed raw name miss = elim (Bool-cases (is_free raw)) [
  | inl free ↦ inl (ground (arith, free))
  | inr used ↦ elim (Bool-cases (is_long_name raw)) [
    | inl long ↦ inr (inl (ground (arith, long)))
    | inr short ↦ inr (inr (same_name-Differs raw name (ground (arith, miss, used, short))))
  ]
]

hit_lem :
    (first attributes : ℕ) (same : Bool)
    → (not (first == 0xE5) && (not (bit_and attributes 0x0F == 0x0F) && same)) ≡ true
    → (first ≢ 0xE5) × (bit_and attributes 0x0F ≢ 0x0F) × (same ≡ true)
hit_lem first attributes same hit = (ground (arith, hit), ground (arith, hit), ground (arith, hit))

is_zero : (n : ℕ) → (n == 0) ≡ true → n ≡ 0
is_zero n e = ground (arith, e)

not_zero : (n : ℕ) → (n == 0) ≡ false → n ≢ 0
not_zero n e = ground (arith, e)

module _ {D : Type 0} (disk : Disk D) where
  root_walk-none :
      (left : ℕ) (fs : Fs) (cluster slot : ℕ) (d : D)
      → suc left * per_cluster fs ≤ slot
      → root_walk disk left fs cluster slot d ≡ none
  unfolding root_walk
  root_walk-none zero fs cluster slot d h =
      let past : leb (per_cluster fs) slot ≡ true = ground (arith, h, suc-mul 0 (per_cluster fs)) in
      rw past refl
  root_walk-none (suc left) fs cluster slot d h =
      let row = suc-mul (suc left) (per_cluster fs) in
      let past : leb (per_cluster fs) slot ≡ true = ground (arith, h, row) in
      let next = fat_entry_get disk fs cluster d in
      let rest = root_walk-none left fs next (slot - per_cluster fs) d (omega (arith, h, row)) in
      elim (Bool-cases (in_chain next)) [
        | inl on ↦ rw (past, on, rest) refl
        | inr off ↦ rw (past, off) refl
      ]

  -- No slot at or behind the bound can be read, whatever the disk.
  root_slot_read-none :
      (fs : Fs) (slot : ℕ) (d : D) → all_slots fs ≤ slot → root_slot_read disk fs slot d ≡ none
  unfolding root_slot_read
  root_slot_read-none fs slot d h = rw (root_walk-none 0x10000 fs fs.root_cluster slot d h) refl

  -- A slot that is read, is not behind the last one, and is free, part of a long name, or of
  -- another name.
  pub record Passed (fs : Fs) (name : ℕ → ℕ) (d : D) (slot : ℕ) : Type 0 where
    pub entry : Slot
    pub read_there : root_slot_read disk fs slot d ≡ some entry
    pub in_use : entry.raw 0 ≢ 0
    pub other : (entry.raw 0 ≡ 0xE5) ⊎ (bit_and (entry.raw 11) 0x0F ≡ 0x0F) ⊎ Differs entry.raw name

  -- The answer of a search: the first slot with the name, or nothing, because all slots up to the
  -- end of the chain or of the directory have been passed.
  pub data Search (fs : Fs) (name : ℕ → ℕ) (d : D) : Option (ℕ × Slot) → Type 0 where
    found_at :
        (k : ℕ) (entry : Slot)
        → ((j : ℕ) → j < k → Passed fs name d j)
        → root_slot_read disk fs k d ≡ some entry
        → entry.raw 0 ≢ 0
        → entry.raw 0 ≢ 0xE5
        → bit_and (entry.raw 11) 0x0F ≢ 0x0F
        → ((i : ℕ) → i < 11 → entry.raw i ≡ name i)
        → Search fs name d (some (k, entry))
    chain_ends :
        (k : ℕ)
        → ((j : ℕ) → j < k → Passed fs name d j)
        → root_slot_read disk fs k d ≡ none
        → Search fs name d none
    last_passed :
        (k : ℕ) (entry : Slot)
        → ((j : ℕ) → j < k → Passed fs name d j)
        → root_slot_read disk fs k d ≡ some entry
        → entry.raw 0 ≡ 0
        → Search fs name d none

  one_further :
      (fs : Fs) (name : ℕ → ℕ) (d : D) (k : ℕ)
      → ((j : ℕ) → j < k → Passed fs name d j)
      → Passed fs name d k
      → (j : ℕ) → j < k + 1
      → Passed fs name d j
  one_further fs name d k before here j h = elim (Bool-cases (j == k)) [
    | inl same ↦ subst (Passed fs name d) (ground (arith, same)) here
    | inr apart ↦ before j (ground (arith, h, apart))
  ]

  find_from-Search :
      (left : ℕ) (fs : Fs) (k : ℕ) (name : ℕ → ℕ) (d : D)
      → all_slots fs ≤ k + left
      → ((j : ℕ) → j < k → Passed fs name d j)
      → Search fs name d (find_from disk left fs k name d)
  unfolding find_from
  find_from-Search zero fs k name d h before =
      chain_ends k before (root_slot_read-none fs k d (omega (arith, h)))
  find_from-Search (suc left) fs k name d h before =
      at_slot (root_slot_read disk fs k d)
        (λ here.
          find_from-Search left fs (k + 1) name d (omega (arith, h))
            (one_further fs name d k before here))
        refl
    where
      at_slot :
          (o : Option Slot)
          → (Passed fs name d k → Search fs name d (find_from disk left fs (k + 1) name d))
          → root_slot_read disk fs k d ≡ o
          → Search fs name d (find_slot name k (find_from disk left fs (k + 1) name d) o)
      at_slot none next e = chain_ends k before e
      at_slot (some entry) next e =
          if-cases (Search fs name d) (entry.raw 0 == 0) _ _
            (λ last. last_passed k entry before e (is_zero (entry.raw 0) last))
            (λ used.
              if-cases (Search fs name d)
                (not (is_free entry.raw)
                  && (not (is_long_name entry.raw) && same_name entry.raw name))
                _ _
                (λ hit.
                  let (in_use, short, same) =
                    hit_lem (entry.raw 0) (entry.raw 11) (same_name entry.raw name) hit in
                  found_at k entry before e (not_zero (entry.raw 0) used) in_use short
                    (same_name-Same entry.raw name same))
                (λ miss. next (record {
                  entry = entry;
                  read_there = e;
                  in_use = not_zero (entry.raw 0) used;
                  other = missed entry.raw name miss;
                })))

  -- A search by name ends, whatever the disk, and its answer is the first slot of the root
  -- directory that is in use, is not part of a long name and has the eleven bytes of the name; or
  -- there is none, and every slot in front of the first one that cannot be read, or of the mark
  -- behind the last one, has been looked at and passed.
  pub find_entry-Search :
      (fs : Fs) (name : ℕ → ℕ) (d : D) → Search fs name d (find_entry disk fs name d)
  unfolding find_entry
  find_entry-Search fs name d =
      find_from-Search (all_slots fs) fs 0 name d (omega arith) (λ j h. absurd (omega (arith, h)))
