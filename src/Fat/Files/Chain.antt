-- ===== src/Fat/Files/Chain.antt =====
-- A chain of clusters that holds a text, and what reading it gives.
use jvmos_jit.Base.{
  ℕ, zero, suc, ◌+◌, ◌-◌, ◌*◌, ◌≤◌, ◌<◌, ◌≡◌, sym, ap, ◌∙◌, Bool, true, false, not, ◌&&◌, if-cases,
  some, arith, ◌==◌,
}
use mathlib.Core.Path.{subst}
use jvmos_jit.Base.Word.{u32}
use jvmos_jit.Fat.Bytes.{Buffer}
use jvmos_jit.Fat.Bytes.RoundTrip.{copy_lem}
use jvmos_jit.Fat.Disk.{Disk}
use jvmos_jit.Fat.Table.{Fs, cluster_lba, fat_entry_get, in_chain}
use jvmos_jit.Fat.Files.{Reading, smaller, take_sector, read_cluster, read_chain}

-- A sector holds the text from an offset on, as far as the text goes.
abbrev pub SectorHolds : (text : Buffer) → (length from : ℕ) → Buffer → Type 0
SectorHolds text length from s = (i : ℕ) → i < 512 → from + i < length → s i ≡ text (from + i)

-- The bytes of a cluster.
abbrev pub cluster_bytes : Fs → ℕ
cluster_bytes fs = fs.sectors_per_cluster * 512

-- What is done of the text has been read.
pub record HasRead (text : Buffer) (length done : ℕ) (r : Reading) : Type 0 where
  pub so_far : r.done ≡ done
  pub to_do : r.remaining ≡ length - done
  pub inside : done ≤ length
  pub unbroken : r.broken ≡ false
  pub read_back : (i : ℕ) → i < done → r.buffer i ≡ text i

take_sector-HasRead :
    (text : Buffer) (length done : ℕ) (s : Buffer) (r : Reading)
    → HasRead text length done r
    → SectorHolds text length done s
    → HasRead text length (done + smaller (length - done) 512) (take_sector (some s) r)
unfolding take_sector
take_sector-HasRead text length done s r h holds = record {
  so_far = ground (arith, h.so_far, h.to_do);
  to_do = ground (arith, h.so_far, h.to_do, h.inside);
  inside = ground (arith, h.inside);
  unbroken = h.unbroken;
  read_back = λ i p.
      copy_lem (smaller r.remaining 512) r.done 0 r.buffer s i
      ∙ grind (arith, h.so_far, h.to_do, h.read_back i, holds (i - r.done));
}

-- As far as an offset, or the end of the text.
abbrev pub upto : (length offset : ℕ) → ℕ
upto length offset = smaller length offset

module _ {D : Type 0} (disk : Disk D) (fs : Fs) (text : Buffer) (length : ℕ) where
  -- The sectors of a cluster hold the text from an offset on.
  abbrev pub ClusterHolds : (cluster from : ℕ) → D → Type 0
  ClusterHolds cluster from d =
      (s : ℕ)
      → s < fs.sectors_per_cluster
      → from + 512 * s < length
      → (sector : Buffer) × (disk.read (u32 (cluster_lba fs cluster + s)) d ≡ some sector)
        × SectorHolds text length (from + 512 * s) sector

  -- The chain from a cluster on holds the text from an offset on: its last cluster has the end.
  pub data ChainHolds (d : D) : (cluster from : ℕ) → Type 0 where
    last :
        (cluster from : ℕ)
        → in_chain cluster ≡ true
        → from < length
        → length ≤ from + cluster_bytes fs
        → ClusterHolds cluster from d
        → ChainHolds d cluster from
    linked :
        (cluster from : ℕ)
        → in_chain cluster ≡ true
        → from + cluster_bytes fs < length
        → ClusterHolds cluster from d
        → ChainHolds d (fat_entry_get disk fs cluster d) (from + cluster_bytes fs)
        → ChainHolds d cluster from

  Progress-at : (a b : ℕ) (r : Reading) → a ≡ b → HasRead text length a r → HasRead text length b r
  Progress-at a b r e h = subst (λ n. HasRead text length n r) e h

  read_cluster-HasRead :
      (left cluster s from : ℕ) (d : D) (r : Reading)
      → s + left ≡ fs.sectors_per_cluster
      → ClusterHolds cluster from d
      → HasRead text length (upto length (from + 512 * s)) r
      → HasRead text length
          (upto length (from + 512 * (s + left)))
          (read_cluster disk left fs cluster s d r)
  unfolding read_cluster
  read_cluster-HasRead zero cluster s from d r all holds h =
      Progress-at (upto length (from + 512 * s)) (upto length (from + 512 * (s + 0))) r
        (ground arith) h
  read_cluster-HasRead (suc left) cluster s from d r all holds h =
      let goal = upto length (from + 512 * (s + suc left)) in
      if-cases (HasRead text length goal) (r.remaining == 0) r _
        (λ done.
          Progress-at (upto length (from + 512 * s)) goal r
            (finished s left from (ground (arith, done, h.to_do))) h)
        (λ more.
          let (sector, found, good) =
            holds s (omega (arith, all)) (below s from (ground (arith, more, h.to_do))) in
          let at = from + 512 * s in
          let here : upto length at ≡ at = starts s from (ground (arith, more, h.to_do)) in
          let taken =
            Progress-at _ (upto length (from + 512 * (s + 1))) (take_sector (some sector) r)
              (advanced s from (ground (arith, more, h.to_do)))
              (take_sector-HasRead text length at sector r
                (Progress-at (upto length at) at r here h) good) in
          let rest =
            read_cluster-HasRead left cluster (s + 1) from d (take_sector (some sector) r)
              (omega (arith, all)) holds taken in
          rw found (
            if-cases (HasRead text length goal) (take_sector (some sector) r).broken _ _
              (λ broken. absurd (both (sym broken ∙ taken.unbroken)))
              (λ _.
                Progress-at (upto length (from + 512 * (s + 1 + left))) goal _
                  (ap (λ n. upto length (from + 512 * n)) (omega arith)) rest)))
    where
      finished :
          (s left from : ℕ)
          → length ≤ upto length (from + 512 * s)
          → upto length (from + 512 * s) ≡ upto length (from + 512 * (s + suc left))
      finished s left from e = ground (arith, e)

      below : (s from : ℕ) → upto length (from + 512 * s) < length → from + 512 * s < length
      below s from e = ground (arith, e)

      starts :
          (s from : ℕ)
          → upto length (from + 512 * s) < length
          → upto length (from + 512 * s) ≡ from + 512 * s
      starts s from e = ground (arith, e)

      advanced :
          (s from : ℕ)
          → upto length (from + 512 * s) < length
          → from + 512 * s + smaller (length - (from + 512 * s)) 512
            ≡ upto length (from + 512 * (s + 1))
      advanced s from e = ground (arith, e)

      both : true ≡ false → ⊥
      both e = ground (arith, e)

  complete_lem :
      (left cluster : ℕ) (d : D) (r : Reading)
      → HasRead text length length r
      → HasRead text length length (read_chain disk left fs cluster d r)
  unfolding read_chain
  complete_lem zero cluster d r h =
      if-cases (HasRead text length length) (not (r.remaining == 0) && in_chain cluster) _ r
        (λ more. absurd (nothing_left (in_chain cluster) h.to_do more)) (λ _. h)
    where
      nothing_left : {n : ℕ} (b : Bool) → n ≡ length - length → (not (n == 0) && b) ≡ true → ⊥
      nothing_left b e more = ground (arith, e, more)
  complete_lem (suc left) cluster d r h =
      if-cases (HasRead text length length) (not (r.remaining == 0) && in_chain cluster) _ r
        (λ more. absurd (nothing_left (in_chain cluster) h.to_do more)) (λ _. h)
    where
      nothing_left : {n : ℕ} (b : Bool) → n ≡ length - length → (not (n == 0) && b) ≡ true → ⊥
      nothing_left b e more = ground (arith, e, more)

  -- One cluster of the chain, and what follows it.
  chain_step :
      (left cluster from next : ℕ) (d : D) (r : Reading)
      → in_chain cluster ≡ true
      → ClusterHolds cluster from d
      → HasRead text length from r
      → from < length
      → upto length (from + cluster_bytes fs) ≡ next
      → ((q : Reading)
          → HasRead text length next q
          → HasRead text length length
              (read_chain disk left fs (fat_entry_get disk fs cluster d) d q))
      → HasRead text length length (read_chain disk (suc left) fs cluster d r)
  unfolding read_chain
  chain_step left cluster from next d r on_chain holds h more e follow =
      let taken = read_cluster disk fs.sectors_per_cluster fs cluster 0 d r in
      let got =
        read_cluster-HasRead fs.sectors_per_cluster cluster 0 from d r (omega arith) holds
          (Progress-at from (upto length (from + 512 * 0)) r (start from more) h) in
      let here =
        Progress-at (upto length (from + 512 * (0 + fs.sectors_per_cluster))) next taken
          (ap (upto length) (omega arith) ∙ e) got in
      if-cases (HasRead text length length) (not (r.remaining == 0) && in_chain cluster) _ r
        (λ _.
          if-cases (HasRead text length length) taken.broken taken _
            (λ broken. absurd (apart (sym broken ∙ here.unbroken))) (λ _. follow taken here))
        (λ stopped. absurd (going on_chain h.to_do more stopped))
    where
      start : (from : ℕ) → from < length → from ≡ upto length (from + 512 * 0)
      start from more = ground (arith, more)

      apart : true ≡ false → ⊥
      apart e = ground (arith, e)

      going :
          {n from : ℕ} {b : Bool}
          → b ≡ true
          → n ≡ length - from
          → from < length
          → (not (n == 0) && b) ≡ false
          → ⊥
      going p e more stopped = ground (arith, p, e, more, stopped)

  -- A chain that holds the text from an offset on, read behind that offset with a round for every
  -- 512 bytes, gives the whole text.
  pub read_chain-HasRead :
      (left cluster from : ℕ) (d : D) (r : Reading)
      → 0 < fs.sectors_per_cluster
      → length - from ≤ left * 512
      → ChainHolds d cluster from
      → HasRead text length from r
      → HasRead text length length (read_chain disk left fs cluster d r)
  read_chain-HasRead zero cluster from d r some_sectors enough chain h =
      complete_lem zero cluster d r (Progress-at from length r (omega (arith, enough, h.inside)) h)
  read_chain-HasRead (suc left) cluster from d r some_sectors enough
        (last c f on_chain more ends holds) h =
      chain_step left cluster from length d r on_chain holds h more (whole ends)
        (complete_lem left (fat_entry_get disk fs cluster d) d)
    where
      whole : {n : ℕ} → length ≤ n → upto length n ≡ length
      whole e = ground (arith, e)
  read_chain-HasRead (suc left) cluster from d r some_sectors enough
        (linked c f on_chain more holds rest) h =
      chain_step left cluster from (from + cluster_bytes fs) d r on_chain holds h
        (omega (arith, more)) (part more)
        (λ q g.
          read_chain-HasRead left (fat_entry_get disk fs cluster d) (from + cluster_bytes fs) d q
            some_sectors (omega (arith, enough, some_sectors)) rest g)
    where
      part : {n : ℕ} → n < length → upto length n ≡ n
      part e = ground (arith, e)
