-- ===== src/Wasm/Scan/Operands.antt =====
-- What `skip_immediates` and `skip_blocktype` of wasm/wasm.c step over, against the binary format.
use jvmos_jit.Base.{
  ℕ, zero, suc, ◌+◌, ◌-◌, ◌≤◌, ◌<◌, ◌≡◌, ◌≢◌, refl, sym, ap, ◌∙◌, ◌⊎◌, ◌^◌, ◌%◌, true, false, arith,
  if-cases, leb, ltb,
}
use jvmos_jit.Base.Word.{IsU32, u32, sub32}
use jvmos_jit.Wasm.Reader.{Bytes, Rd, rd_u8, rd_uleb, rd_sleb, rd_skip}
use jvmos_jit.Wasm.Reader.Leb.{leb_value, rd_uleb-leb_value, rd_sleb-sign_extended}
use jvmos_jit.Wasm.Scan.{
  is_short_blocktype, skip_blocktype, skip_table, skip_br_table, index, two_indices, byte, signed,
  none_at_all, immediates, skip_kind, skip_immediates, opening, plain, mark_of,
}
use jvmos_jit.Wasm.Scan.Nesting.{
  HasIndex, HasTwo, HasNothing, IsBlock, Number, Numbers, no_more, one_more, Operands, nothing, two,
  constant, memory, single, double, Blocktype, plain_type, type_number,
}
use jvmos_jit.Wasm.Scan.Nesting

module _ (bytes : Bytes) (end : ℕ) (small : IsU32 end) where
  -- A reader with no error.
  abbrev pub at : ℕ → Rd
  at p = record { p = p; end = end; err = false }

  rd_uleb-Number : (p s : ℕ) → Number bytes end p s → (rd_uleb bytes (at p)).1 ≡ at s
  rd_uleb-Number p s n =
      ap (λ (r : ℕ × Rd). r.1)
        (rd_uleb-leb_value bytes (at p) (suc n.rest) n.spelled (omega (arith, n.short)) n.inside
          refl)
      ∙ ap at (sym n.reaches)

  rd_sleb-Number : (p s : ℕ) → Number bytes end p s → (rd_sleb bytes (at p)).1 ≡ at s
  rd_sleb-Number p s n =
      ap (λ (r : ℕ × Rd). r.1)
        (rd_sleb-sign_extended bytes (at p) n.rest n.spelled n.short n.inside refl)
      ∙ ap at (sym n.reaches)

  pub skip_blocktype-Blocktype :
      (p s : ℕ) → Blocktype bytes end p s → skip_blocktype bytes (at p) ≡ at s
  unfolding skip_blocktype
  skip_blocktype-Blocktype p s (plain_type h value e) =
      let more : leb end p ≡ false = ground (arith, h) in
      let short : is_short_blocktype (bytes p) ≡ true = ground (arith, value) in
      rw (more, short) (ap at (sym e))
  skip_blocktype-Blocktype p s (type_number other long n) =
      if-cases (λ r. r ≡ at s) (leb end p) _ _ (λ past. absurd (contradiction n.rest past n.inside))
        (λ _.
          if-cases (λ r. r ≡ at s) (is_short_blocktype (bytes p)) _ _
            (λ short. absurd (wide (bytes p) other long short)) (λ _. rd_sleb-Number p s n))
    where
      contradiction : (m : ℕ) → leb end p ≡ true → p + suc m ≤ end → ⊥
      contradiction m past h = ground (arith, past, h)

      wide : (b : ℕ) → b ≢ 0x40 → (b < 0x7B) ⊎ (0x7F < b) → is_short_blocktype b ≡ true → ⊥
      wide b other long short = ground (arith, other, long, short)

  pub mark_of-IsBlock : (op : ℕ) → IsBlock op → mark_of op ≡ opening
  unfolding mark_of
  mark_of-IsBlock op b = ground (arith, b)

  Numbers-room : (k p s : ℕ) → p ≤ end → Numbers bytes end k p s → (k + p ≤ s) × (s ≤ end)
  Numbers-room zero p s h no_more = (omega arith, h)
  Numbers-room (suc k) p s h (one_more {t} n others) =
      let (room, ends) = Numbers-room k t s (omega (arith, n.inside, n.reaches)) others in
      (omega (arith, room, n.reaches), ends)

  skip_table-Numbers :
      (k fuel i n p s : ℕ)
      → Numbers bytes end k p s
      → i + k ≡ n + 1
      → n + 1 < 2 ^ 32
      → k < fuel
      → skip_table fuel bytes (at p) i n ≡ at s
  unfolding skip_table
  skip_table-Numbers k zero i n p s all e low enough = absurd (omega (arith, enough))
  skip_table-Numbers zero (suc fuel) i n p s no_more e low enough =
      let ended : leb i n ≡ false = ground (arith, e) in rw ended refl
  skip_table-Numbers (suc k) (suc fuel) i n p s (one_more {t} number others) e low enough =
      let goes : leb i n ≡ true = ground (arith, e) in
      let counts : u32 (i + 1) ≡ i + 1 = omega (arith, e, low) in
      rw (goes, rd_uleb-Number p t number, counts)
        (skip_table-Numbers k fuel (i + 1) n t s others (omega (arith, e)) low
          (omega (arith, enough)))

  skip_br_table-Numbers :
      (p t s : ℕ) (count : Number bytes end p t)
      → Numbers bytes end (suc (leb_value bytes p (suc count.rest))) t s
      → skip_br_table bytes (at p) ≡ at s
  unfolding skip_br_table
  skip_br_table-Numbers p t s count all =
      let v = leb_value bytes p (suc count.rest) in
      let (room, inside) =
        Numbers-room (suc v) t s (omega (arith, count.inside, count.reaches)) all in
      let value : v % 2 ^ 32 ≡ v = omega (arith, room, inside, small) in
      let after : p + suc count.rest ≡ t = sym count.reaches in
      rw
        (
          rd_uleb-leb_value bytes (at p) (suc count.rest) count.spelled (omega (arith, count.short))
              count.inside refl,
          value,
          after,
        )
        (skip_table-Numbers (suc v) (end - t + 2) 0 v t s all (omega arith)
          (omega (arith, room, inside, small)) (omega (arith, room, inside)))

  -- Every instruction has its kind of operands, and is not one of those that the scans look for.
  immediates-nothing :
      (op : ℕ) → HasNothing op → (immediates op ≡ none_at_all) × (mark_of op ≡ plain)
  unfolding immediates mark_of
  immediates-nothing op h = (ground (arith, h), ground (arith, h))

  immediates-index : (op : ℕ) → HasIndex op → (immediates op ≡ index) × (mark_of op ≡ plain)
  unfolding immediates mark_of
  immediates-index op h = (ground (arith, h), ground (arith, h))

  immediates-two : (op : ℕ) → HasTwo op → (immediates op ≡ two_indices) × (mark_of op ≡ plain)
  unfolding immediates mark_of
  immediates-two op h = (ground (arith, h), ground (arith, h))

  immediates-signed :
      (op : ℕ) → (op ≡ 0x41) ⊎ (op ≡ 0x42) → (immediates op ≡ signed) × (mark_of op ≡ plain)
  unfolding immediates mark_of
  immediates-signed op h = (ground (arith, h), ground (arith, h))

  immediates-byte :
      (op : ℕ) → (op ≡ 0x3F) ⊎ (op ≡ 0x40) → (immediates op ≡ byte) × (mark_of op ≡ plain)
  unfolding immediates mark_of
  immediates-byte op h = (ground (arith, h), ground (arith, h))

  rd_skip-fixed : (p s n : ℕ) → p + n ≤ end → s ≡ p + n → rd_skip (at p) n ≡ at s
  unfolding rd_skip
  rd_skip-fixed p s n room e =
      let fits : ltb (sub32 end p) n ≡ false = ground (arith, room, small) in
      rw fits (ap at (sym e))

  rd_u8-inside : (p s : ℕ) → p < end → s ≡ p + 1 → (rd_u8 bytes (at p)).1 ≡ at s
  unfolding rd_u8
  rd_u8-inside p s h e = let more : leb end p ≡ false = ground (arith, h) in rw more (ap at (sym e))

  -- An instruction with its operands is none that a scan looks for, and is skipped whole.
  pub Operands-skipped :
      (op p s : ℕ)
      → Operands bytes end op p s
      → (mark_of op ≡ plain) × (skip_immediates bytes (at p) op ≡ at s)
  unfolding skip_immediates skip_kind
  Operands-skipped op p s (nothing h e) =
      let (kind, mark) = immediates-nothing op h in (mark, rw kind (ap at (sym e)))
  Operands-skipped op p s (Nesting.index h n) =
      let (kind, mark) = immediates-index op h in (mark, rw kind (rd_uleb-Number p s n))
  Operands-skipped op p s (two t h n m) =
      let (kind, mark) = immediates-two op h in
      (mark, rw kind (ap (λ r. (rd_uleb bytes r).1) (rd_uleb-Number p t n) ∙ rd_uleb-Number t s m))
  Operands-skipped op p s (constant h n) =
      let (kind, mark) = immediates-signed op h in (mark, rw kind (rd_sleb-Number p s n))
  Operands-skipped op p s (memory h room e) =
      let (kind, mark) = immediates-byte op h in (mark, rw kind (rd_u8-inside p s room e))
  Operands-skipped op p s (single h room e) =
      unfold immediates mark_of in rw h (refl, rd_skip-fixed p s 4 room e)
  Operands-skipped op p s (double h room e) =
      unfold immediates mark_of in rw h (refl, rd_skip-fixed p s 8 room e)
  Operands-skipped op p s (Nesting.table t h n all) =
      unfold immediates mark_of in rw h (refl, skip_br_table-Numbers p t s n all)
