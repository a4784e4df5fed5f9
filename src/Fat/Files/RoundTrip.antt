-- ===== src/Fat/Files/RoundTrip.antt =====
-- A file that is written as a chain of clusters is read back from that chain.
use jvmos_jit.Base.{
  ℕ, zero, suc, ◌+◌, ◌*◌, ◌≤◌, ◌<◌, ◌≡◌, ◌≢◌, refl, sym, ap, ◌∙◌, ◌⊎◌, inl, inr, true, false,
  Bool-cases, arith, leb, ◌==◌, if◌then◌else◌,
}
use mathlib.Core.Path.{subst}
use jvmos_jit.Fat.Bytes.{Buffer}
use jvmos_jit.Fat.Disk.{Disk, IsDisk, ok}
use jvmos_jit.Fat.Disk.Rules.{Ensures, Ensures-then, Ensures-weaken, IsReliable}
use jvmos_jit.Fat.Table.{Fs, in_chain, fat_entry_get, alloc_cluster}
use jvmos_jit.Fat.Files.{Reading, longest_chain, link, write_cluster, write_chain, read_chain}
use jvmos_jit.Fat.Files.Chain.{
  upto, cluster_bytes, ChainHolds, last, linked, HasRead, read_chain-HasRead,
}
use jvmos_jit.Fat.Files.Places.{VolumeFits, OnVolume}
use jvmos_jit.Fat.Files.Links.{LedTo, PrevOk, link-Ensures, alloc-Ensures}
use jvmos_jit.Fat.Files.Room.{OrFull, or_full, write_chain-FailsFull}
use jvmos_jit.Fat.Files.Added.{EntriesKept, SectorsKept, Added, write-Ensures, added_lem}

module _ {D : Type 0} (disk : Disk D) (laws : IsDisk disk) (good : IsReliable disk) (fs : Fs)
    (fit : VolumeFits fs) where
  module _ (text : Buffer) (length : ℕ) where
    -- The rest of the file, from an offset of the text on.
    record Wrote (prev first from : ℕ) (d : D) (f : ℕ) (e : D) : Type 0 where
      start : ℕ
      on : OnVolume fs start
      was_free : fat_entry_get disk fs start d ≡ 0
      chain : ChainHolds disk fs text length e start from
      is_first : f ≡ (if first == 0 then start else first)
      led_to : LedTo disk laws good fs fit prev start e
      entries : EntriesKept disk laws good fs fit prev d e
      sectors : SectorsKept disk laws good fs fit d e

    in_chain_lem : (c : ℕ) → OnVolume fs c → in_chain c ≡ true
    in_chain_lem c (low, high) = few c fs.cluster_count low high fit.few_clusters
      where
        few : (c n : ℕ) → 2 ≤ c → c < n + 2 → n + 2 ≤ 0x0FFF_FFF8 → in_chain c ≡ true
        few c n low high h = ground (arith, low, high, h)

    -- The cluster that was added is the last one.
    last_cluster_lem :
        (prev first c from : ℕ) (d e : D)
        → from < length
        → length ≤ from + cluster_bytes fs
        → Added disk laws good fs fit text length prev c from d e
        → Wrote prev first from d (if first == 0 then c else first) e
    last_cluster_lem prev first c from d e more ends a = record {
      start = c;
      on = a.on;
      was_free = a.was_free;
      chain = last c from (in_chain_lem c a.on) more ends a.holds;
      is_first = refl;
      led_to = a.led_to;
      entries = a.entries;
      sectors = a.sectors;
    }

    -- Others follow it.
    more_clusters_lem :
        (prev first c from f : ℕ) (d d3 e : D)
        → from + cluster_bytes fs < length
        → Added disk laws good fs fit text length prev c from d d3
        → PrevOk disk laws good fs fit prev d
        → Wrote c (if first == 0 then c else first) (from + cluster_bytes fs) d3 f e
        → Wrote prev first from d f e
    more_clusters_lem prev first c from f d d3 e more a prev_ok w =
        let used : fat_entry_get disk fs c d3 ≢ 0 = λ free. omega (arith, a.ends, free) in
        record {
          start = c;
          on = a.on;
          was_free = a.was_free;
          chain =
              linked c from (in_chain_lem c a.on) more
                (λ s h k.
                  let (sector, found, cell) = a.holds s h k in
                  (sector, w.sectors c s a.on h used ∙ found, cell))
                (subst (λ n. ChainHolds disk fs text length e n (from + cluster_bytes fs))
                  (sym (next w.led_to)) w.chain);
          is_first = w.is_first ∙ chosen;
          led_to = led_on prev_ok a.led_to;
          entries = λ k entry but used'.
              let kept = a.entries k entry but used' in
              w.entries k entry (free_apart k used') (λ z. used' (sym kept ∙ z)) ∙ kept;
          sectors = λ k s on p used'.
              w.sectors k s on p (entry_kept k on used') ∙ a.sectors k s on p used';
        }
      where
        next : LedTo disk laws good fs fit c w.start e → fat_entry_get disk fs c e ≡ w.start
        next (inl absent) = absurd (omega (arith, absent, a.on.0))
        next (inr led) = led

        positive : 2 ≤ c → (if c == 0 then w.start else c) ≡ c
        positive low = ground (arith, low)

        chosen :
            (if (if first == 0 then c else first) == 0
              then w.start
              else (if first == 0 then c else first))
            ≡ (if first == 0 then c else first)
        chosen = elim (Bool-cases (first == 0)) [
          | inl none_yet ↦ rw none_yet (positive a.on.0)
          | inr there ↦ rw (there, there) refl
        ]

        free_apart : (k : ℕ) → fat_entry_get disk fs k d ≢ 0 → k ≢ c
        free_apart k used same = used (ap (λ n. fat_entry_get disk fs n d) same ∙ a.was_free)

        prev_used :
            (k : ℕ)
            → k ≡ prev
            → LedTo disk laws good fs fit prev c d3
            → 2 ≤ k
            → fat_entry_get disk fs k d3 ≢ 0
        prev_used k same (inl absent) low z = omega (arith, same, absent, low)
        prev_used k same (inr led) low z =
            omega (arith, ap (λ n. fat_entry_get disk fs n d3) same, led, z, a.on.0)

        entry_kept :
            (k : ℕ) → OnVolume fs k → fat_entry_get disk fs k d ≢ 0 → fat_entry_get disk fs k d3 ≢ 0
        entry_kept k on used = elim (Bool-cases (k == prev)) [
          | inl same ↦ prev_used k (ground (arith, same)) a.led_to on.0
          | inr other ↦
              λ z. used (sym (a.entries k (fit.cover k on.1) (ground (arith, other)) used) ∙ z)
        ]

        led_on :
            PrevOk disk laws good fs fit prev d
            → LedTo disk laws good fs fit prev c d3
            → LedTo disk laws good fs fit prev c e
        led_on (inl absent) led = inl absent
        led_on (inr (on, used)) (inl absent) = inl absent
        led_on (inr (on, used)) (inr led) = inr (
            w.entries prev (fit.cover prev on.1) (λ same. free_apart prev used same)
              (prev_used prev refl (inr led) on.0)
            ∙ led)

    finished_lem :
        (left from first prev : ℕ) (d : D)
        → length ≤ from
        → write_chain disk left fs text length from first prev d ≡ ok first d
    unfolding write_chain
    finished_lem zero from first prev d h = refl
    finished_lem (suc left) from first prev d h =
        let done : leb length from ≡ true = ground (arith, h) in rw done refl

    after_cluster :
        (left prev first c from w : ℕ) (d d3 : D)
        → from < length
        → PrevOk disk laws good fs fit prev d
        → Added disk laws good fs fit text length prev c from d d3
        → w ≡ upto length (from + cluster_bytes fs)
        → (from + cluster_bytes fs < length
            → Ensures (Wrote c (if first == 0 then c else first) (from + cluster_bytes fs) d3) (
                write_chain disk left fs text length
                  (from + cluster_bytes fs)
                  (if first == 0 then c else first)
                  c
                  d3))
        → Ensures
            (Wrote prev first from d)
            (write_chain disk left fs text length w (if first == 0 then c else first) c d3)
    after_cluster left prev first c from w d d3 more prev_ok a w_lem follow =
        elim (Bool-cases (leb length (from + cluster_bytes fs))) [
          | inl ends ↦
              let full : w ≡ length = w_lem ∙ whole (from + cluster_bytes fs) ends in
              subst (Ensures (Wrote prev first from d))
                (sym (
                  finished_lem left w (if first == 0 then c else first) c d3 (omega (arith, full))))
                (last_cluster_lem prev first c from d d3 more (ground (arith, ends)) a)
          | inr goes ↦
              let further : from + cluster_bytes fs < length = ground (arith, goes) in
              let part : w ≡ from + cluster_bytes fs =
                w_lem ∙ before (from + cluster_bytes fs) goes in
              subst
                (λ n.
                  Ensures (Wrote prev first from d)
                    (write_chain disk left fs text length n (if first == 0 then c else first) c d3))
                (sym part)
                (Ensures-weaken _ (Wrote prev first from d) _ (follow further) (λ f e wrote.
                  more_clusters_lem prev first c from f d d3 e further a prev_ok wrote))
        ]
      where
        whole : (n : ℕ) → leb length n ≡ true → upto length n ≡ length
        whole n h = ground (arith, h)

        before : (n : ℕ) → leb length n ≡ false → upto length n ≡ n
        before n h = ground (arith, h)

    write_chain-Wrote :
        (left prev first from : ℕ) (d : D)
        → from < length
        → length ≤ from + left
        → PrevOk disk laws good fs fit prev d
        → Ensures (Wrote prev first from d) (write_chain disk left fs text length from first prev d)
    unfolding write_chain
    write_chain-Wrote zero prev first from d more enough prev_ok =
        absurd (omega (arith, more, enough))
    write_chain-Wrote (suc left) prev first from d more enough prev_ok =
        let going : leb length from ≡ false = ground (arith, more) in
        rw going (
          Ensures-then _ (Wrote prev first from d) (alloc_cluster disk fs d) _
            (alloc-Ensures disk laws good fs fit d)
            (λ c d1 (alloc, behind).
              Ensures-then _ (Wrote prev first from d) (link disk fs prev c d1) _
                (link-Ensures disk laws good fs fit prev c d1 (prev_place prev_ok)
                  (alloc.first, alloc.on_volume))
                (λ u d2 linked_up.
                  Ensures-then _ (Wrote prev first from d)
                    (write_cluster disk fs.sectors_per_cluster fs c 0 text length from d2) _
                    (write-Ensures disk laws good fs fit text length c from d2
                      (alloc.first, alloc.on_volume) (omega (arith, more)))
                    (λ w d3 (holds, w_lem, kept).
                      let a =
                        added_lem disk laws good fs fit text length prev c from d d1 d2 d3 prev_ok
                          alloc behind linked_up holds kept in
                      after_cluster left prev first c from w d d3 more prev_ok a w_lem (λ further.
                        write_chain-Wrote left c (if first == 0 then c else first)
                          (from + cluster_bytes fs) d3 further
                          (omega (arith, enough, fit.some_sectors))
                          (inr (a.on, λ free. omega (arith, a.ends, free))))))))
      where
        prev_place : PrevOk disk laws good fs fit prev d → (prev ≡ 0) ⊎ OnVolume fs prev
        prev_place (inl absent) = inl absent
        prev_place (inr (on, used)) = inr on

    -- Reading begins with nothing done, in any buffer.
    abbrev pub beginning : Buffer → Reading
    beginning buffer = record { buffer = buffer; done = 0; remaining = length; broken = false }

    -- What the two loops do together: the clusters that were in use, and their entries, are as they
    -- were, and the chain that begins at `first` reads as the text.
    abbrev pub ReadsBack : Buffer → D → ℕ → D → Type 0
    ReadsBack buffer d first e =
        HasRead text length length (read_chain disk longest_chain fs first e (beginning buffer))
        × EntriesKept disk laws good fs fit 0 d e
        × SectorsKept disk laws good fs fit d e

    -- On a disk on which every call succeeds, and a volume of at least one sector to a cluster and
    -- at most 0x0FFFFFF8 entries, with at least one table, with an entry in its first table for
    -- every cluster, and with its tables in front of its clusters and both below sector 2^32: writing a text of at least one byte and at most 512 MB as a chain fails only with every
    -- cluster in use; otherwise it is read back from the chain's first cluster byte by byte, and no
    -- cluster that was in use before, and no entry of one, is changed by the writing.
    pub write_chain-read_chain :
        (buffer : Buffer) (d : D)
        → 0 < length
        → length ≤ longest_chain * 512
        → OrFull disk laws good fs fit
            (ReadsBack buffer d)
            (write_chain disk length fs text length 0 0 0 d)
    write_chain-read_chain buffer d some_bytes small =
        or_full disk laws good fs fit (ReadsBack buffer d) _
          (Ensures-weaken (Wrote 0 0 0 d) (ReadsBack buffer d) _
            (write_chain-Wrote length 0 0 0 d some_bytes (omega arith) (inl refl))
            (λ first e w. (
              subst
                  (λ n.
                    HasRead text length length
                      (read_chain disk longest_chain fs n e (beginning buffer)))
                  (sym w.is_first)
                  (read_chain-HasRead disk fs text length longest_chain w.start 0 e
                    (beginning buffer) fit.some_sectors (omega (arith, small)) w.chain
                    (record {
                      so_far = refl;
                      to_do = omega arith;
                      inside = omega arith;
                      unbroken = refl;
                      read_back = λ i p. absurd (omega (arith, p));
                    })),
              w.entries,
              w.sectors,
            )))
          (write_chain-FailsFull disk laws good fs fit length text length 0 0 0 d)
