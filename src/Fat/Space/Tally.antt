-- ===== src/Fat/Space/Tally.antt =====
-- The count of free clusters in fs/fat32.c, set beside the entries of the table themselves.
pub mod Taken
use jvmos_jit.Base.{
  ℕ, zero, suc, ◌+◌, ◌-◌, ◌*◌, ◌/◌, ◌%◌, ◌^◌, ◌≤◌, ◌<◌, ◌≡◌, refl, ap, ◌∙◌, Bool, true, false,
  Bool-cases, inl, inr, some, bit_and, arith, ltb, leb, ◌==◌, ◌&&◌, if◌then◌else◌,
}
use jvmos_jit.Base.Word.{add32}
use jvmos_jit.Fat.Bytes.{Buffer, get32}
use jvmos_jit.Fat.Disk.{Disk}
use jvmos_jit.Fat.Disk.Rules.{IsReliable}
use jvmos_jit.Fat.Table.{Fs, entry_sector, entry_offset, fat_entry_get}
use jvmos_jit.Fat.Space.{count_sector, count_sectors, fat32_free_clusters}

module _ {D : Type 0} (disk : Disk D) (fs : Fs) (d : D) where
  -- 1 for the entry of a free cluster, which the first two entries are not.
  abbrev pub is_free_at : ℕ → ℕ
  is_free_at c = if leb 2 c && (fat_entry_get disk fs c d == 0) then 1 else 0

  -- How many of the `n` entries from `c` on are those of free clusters.
  pub tally : (n c : ℕ) → ℕ
  tally zero c = 0
  tally (suc n) c = is_free_at c + tally n (c + 1)

  entry_here :
      (k c : ℕ) (s : Buffer)
      → disk.read (add32 fs.fat_lba k) d ≡ some s
      → c < 2 ^ 30
      → c / 128 ≡ k
      → fat_entry_get disk fs c d ≡ bit_and (get32 s (c % 128 * 4)) 0x0FFF_FFFF
  unfolding fat_entry_get
  entry_here k c s found small here =
      let sector : entry_sector c ≡ k = omega (arith, small, here) in
      let offset : entry_offset c ≡ c % 128 * 4 = omega (arith, small) in
      rw (sector, found, offset) refl

  -- What is left of a sector, or of the entries if they end there.
  abbrev share : (left c bound : ℕ) → ℕ
  share left c bound = if ltb left (bound - c) then left else bound - c

  Counted : (left c bound free : ℕ) → ℕ × ℕ → Type 0
  Counted left c bound free r =
      (r.0 ≡ c + share left c bound) × (r.1 ≡ free + tally (share left c bound) c)

  none_left : (n c free : ℕ) → n ≡ 0 → free ≡ free + tally n c
  unfolding tally
  none_left n c free e = rw e (omega arith)

  count_sector-Counted :
      (left k c i bound free : ℕ) (s : Buffer)
      → disk.read (add32 fs.fat_lba k) d ≡ some s
      → bound < 2 ^ 30
      → c ≤ bound
      → i + left * 4 ≡ 512
      → c ≡ k * 128 + i / 4
      → i % 4 ≡ 0
      → Counted left c bound free (count_sector left bound s i c free)
  unfolding count_sector Counted tally
  count_sector-Counted zero k c i bound free s found small below all here even =
      (ground arith, none_left (share 0 c bound) c free (ground arith))
  count_sector-Counted (suc left) k c i bound free s found small below all here even =
      elim (Bool-cases (leb bound c)) [
        | inl ends ↦ rw ends (
          ground (arith, below, ends),
          none_left (share (suc left) c bound) c free (ground (arith, ends)),
        )
        | inr goes ↦
            let entry = bit_and (get32 s i) 0x0FFF_FFFF in
            let free' = if leb 2 c && (entry == 0) then free + 1 else free in
            let same : fat_entry_get disk fs c d ≡ entry =
              entry_here k c s found (ground (arith, small, goes)) (omega (arith, here, all))
              ∙ ap (λ n. bit_and (get32 s n) 0x0FFF_FFFF) (omega (arith, here, all, even)) in
            let rest =
              count_sector-Counted left k (c + 1) (i + 4) bound free' s found small
                (ground (arith, goes)) (omega (arith, all)) (omega (arith, here, even))
                (omega (arith, even)) in
            let more : share (suc left) c bound ≡ suc (share left (c + 1) bound) =
              one_more left c bound (ground (arith, goes)) in
            rw (goes, more)
              (rest.0 ∙ omega arith, rest.1 ∙ added (share left (c + 1) bound) c free entry same)
      ]
    where
      one_more :
          (left c bound : ℕ) → c < bound → share (suc left) c bound ≡ suc (share left (c + 1) bound)
      one_more left c bound h = ground (arith, h)

      plus :
          (b : Bool) (free t : ℕ)
          → (if b then free + 1 else free) + t ≡ free + ((if b then 1 else 0) + t)
      plus true free t = omega arith
      plus false free t = omega arith

      added :
          (n c free entry : ℕ)
          → fat_entry_get disk fs c d ≡ entry
          → (if leb 2 c && (entry == 0) then free + 1 else free) + tally n (c + 1)
            ≡ free + tally (suc n) c
      added n c free entry same = rw same (plus (leb 2 c && (entry == 0)) free (tally n (c + 1)))

  pub tally-append : (m n c : ℕ) → tally (m + n) c ≡ tally m c + tally n (c + m)
  unfolding tally
  tally-append zero n c =
      let none : 0 + n ≡ n = omega arith in
      let here : c + 0 ≡ c = omega arith in rw (none, here) (omega arith)
  tally-append (suc m) n c =
      let one : suc m + n ≡ suc (m + n) = omega arith in
      let later : c + suc m ≡ (c + 1) + m = omega arith in
      let rest = tally-append m n (c + 1) in rw (one, later, rest) (omega arith)

  -- The count has ended, so that the sectors left are not read.
  count_sectors-ended :
      (left k c free : ℕ)
      → c ≡ add32 fs.cluster_count 2
      → count_sectors disk left fs k c free d ≡ free
  unfolding count_sectors
  count_sectors-ended zero k c free e = refl
  count_sectors-ended (suc left) k c free e =
      let over : ltb c (add32 fs.cluster_count 2) ≡ false = ground (arith, e) in rw over refl

  -- The sectors left are counted from where a sector has been.
  sectors_left :
      (left k c bound free : ℕ)
      → bound ≡ add32 fs.cluster_count 2
      → ((c' free' : ℕ)
          → c' ≡ c + 128
          → c' ≤ bound
          → count_sectors disk left fs (k + 1) c' free' d ≡ free' + tally (bound - c') c')
      → c ≤ bound
      → (r : ℕ × ℕ) → Counted 128 c bound free r
      → count_sectors disk left fs (k + 1) r.0 r.1 d ≡ free + tally (bound - c) c
  unfolding Counted
  sectors_left left k c bound free b later below (c', free') (to, sum) =
      elim (Bool-cases (ltb 128 (bound - c))) [
        | inl more ↦
            let all : share 128 c bound ≡ 128 = rw more refl in
            let at : c' ≡ c + 128 = to ∙ ap (λ n. c + n) all in
            let split : bound - c ≡ 128 + (bound - c') = ground (arith, at, more) in
            let both = tally-append 128 (bound - c') c in
            let sum' : free' ≡ free + tally 128 c = sum ∙ ap (λ n. free + tally n c) all in
            later c' free' at (ground (arith, at, more)) ∙ rw (split, both, sum', at) (omega arith)
        | inr last ↦
            let all : share 128 c bound ≡ bound - c = rw last refl in
            let at : c' ≡ bound = to ∙ ap (λ n. c + n) all ∙ omega (arith, below) in
            count_sectors-ended left (k + 1) c' free' (at ∙ b)
            ∙ sum
            ∙ ap (λ n. free + tally n c) all
      ]

  count_sectors-tally :
      (left k c free : ℕ)
      → IsReliable disk
      → add32 fs.cluster_count 2 < 2 ^ 30
      → c ≤ add32 fs.cluster_count 2
      → c ≡ k * 128
      → add32 fs.cluster_count 2 ≤ (k + left) * 128
      → count_sectors disk left fs k c free d ≡ free + tally (add32 fs.cluster_count 2 - c) c
  unfolding count_sectors
  count_sectors-tally zero k c free reliable small below here enough =
      none_left (add32 fs.cluster_count 2 - c) c free (omega (arith, here, enough))
  count_sectors-tally (suc left) k c free reliable small below here enough =
      elim (Bool-cases (ltb c (add32 fs.cluster_count 2))) [
        | inl goes ↦
            let bound = add32 fs.cluster_count 2 in
            let (s, found) = reliable.reads (add32 fs.fat_lba k) d in
            let sector =
              count_sector-Counted 128 k c 0 bound free s found small below (omega arith)
                (omega (arith, here)) (omega arith) in
            rw (goes, found)
              (sectors_left left k c bound free refl
                (λ c' free' at small'.
                  count_sectors-tally left (k + 1) c' free' reliable small small'
                    (omega (arith, at, here)) (omega (arith, enough)))
                below (count_sector 128 bound s 0 c free) sector)
        | inr over ↦
            rw over (none_left (add32 fs.cluster_count 2 - c) c free (ground (arith, over)))
      ]

  -- On a mounted volume of fewer than 2^30 entries whose table reaches as far as its clusters
  -- do, on a disk on which every call succeeds, the count is the number of clusters from 2 on
  -- whose entry is 0.
  pub fat32_free_clusters-tally :
      IsReliable disk
      → fs.mounted ≡ true
      → add32 fs.cluster_count 2 < 2 ^ 30
      → add32 fs.cluster_count 2 ≤ fs.fat_sectors * 128
      → fat32_free_clusters disk fs d ≡ tally (add32 fs.cluster_count 2) 0
  unfolding fat32_free_clusters
  fat32_free_clusters-tally reliable mounted small enough =
      let all =
        count_sectors-tally fs.fat_sectors 0 0 0 reliable small (omega arith) refl
          (omega (arith, enough)) in
      let whole : add32 fs.cluster_count 2 - 0 ≡ add32 fs.cluster_count 2 = omega arith in
      ap (λ b. if b then count_sectors disk fs.fat_sectors fs 0 0 0 d else 0) mounted
      ∙ all
      ∙ ap (λ n. 0 + tally n 0) whole
      ∙ omega arith
