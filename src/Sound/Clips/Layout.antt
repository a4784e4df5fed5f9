-- ===== src/Sound/Clips/Layout.antt =====
-- How the clips share the buffer.
use jvmos_jit.Base.{
  ℕ, ◌+◌, ◌*◌, ◌/◌, ◌≤◌, ◌<◌, ◌≡◌, refl, ap, ◌∙◌, ◌⊎◌, inl, inr, arith, List, [], ◌∷◌,
  if◌then◌else◌,
}
use jvmos_jit.Base.Word.{add32, sub32, ltb_int}
use jvmos_jit.Wasm.Module.{update}
use jvmos_jit.Sound.Mix.{dma_bytes}
use jvmos_jit.Sound.Mix.Span.{longest, samples_lem, Outside, fill_silence-Outside, mix_tone-Outside}
use jvmos_jit.Sound.Clips.{
  Clips, Tone, room_for, reserve, mix_tones, add_clip, build_clips, boot_tones, click_tones,
  deny_tones, step_tones, push_tones, bump_tones, win_tones, snd_boot, snd_click, snd_deny,
  snd_step, snd_push, snd_bump, snd_win, snd_count,
}

-- Every tone ends within the time of the clip.
unfoldable pub Within : (ms : ℕ) → List Tone → Type 0
Within ms [] = Unit {0}
Within ms (t ∷ ts) = (t.delay_ms + t.ms ≤ ms) × Within ms ts

-- What the tables and the next free place are, the buffer aside.
abbrev pub SamePlaces : Clips → Clips → Type 0
SamePlaces c d = (c.offset ≡ d.offset) × (c.clip_length ≡ d.clip_length) × (c.at ≡ d.at)

mix_tones-SamePlaces : (ts : List Tone) (base : ℕ) (c : Clips) → SamePlaces (mix_tones ts base c) c
unfolding mix_tones
mix_tones-SamePlaces [] base c = (refl, refl, refl)
mix_tones-SamePlaces (t ∷ ts) base c = mix_tones-SamePlaces ts base _

shorter :
    (base d m ms k : ℕ)
    → d + m ≤ ms
    → Outside base (22050 * ms / 1000) k
    → Outside (base + 22050 * d / 1000) (22050 * m / 1000) k
shorter base d m ms k h (inl below) = inl (omega (arith, below))
shorter base d m ms k h (inr (inl above)) = inr (inl (omega (arith, above, h)))
shorter base d m ms k h (inr (inr behind)) = inr (inr behind)

mix_tones-Outside :
    (ts : List Tone) (ms base : ℕ) (c : Clips) (k : ℕ)
    → base ≤ dma_bytes
    → ms ≤ longest
    → Within ms ts
    → Outside base (22050 * ms / 1000) k
    → (mix_tones ts base c).buf k ≡ c.buf k
unfolding mix_tones Within
mix_tones-Outside [] ms base c k b m w o = refl
mix_tones-Outside (t ∷ ts) ms base c k b m w o =
    mix_tones-Outside ts ms base _ k b m w.1 o
    ∙ mix_tone-Outside c.buf base t.delay_ms t.hz t.ms t.vol_from t.vol_to k b
        (omega (arith, w.0, m)) (omega (arith, w.0, m)) (shorter base t.delay_ms t.ms ms k w.0 o)

pub room_for_lem :
    (at ms : ℕ)
    → at + 22050 * ms / 1000 ≤ dma_bytes
    → ms ≤ longest
    → room_for at ms ≡ 22050 * ms / 1000
unfolding room_for
room_for_lem at ms h m = rw (samples_lem ms m) (fits at (22050 * ms / 1000) h)
  where
    fits :
        (at n : ℕ)
        → at + n ≤ dma_bytes
        → (if ltb_int dma_bytes (add32 at n) then sub32 dma_bytes at else n) ≡ n
    fits at n h = ground (arith, h)

-- A clip that fits into the rest of the buffer, and whose tones end within its time, changes no byte
-- but its own: the clips before it and what is behind it stay as they were.
pub add_clip-Outside :
    (id ms : ℕ) (ts : List Tone) (c : Clips) (k : ℕ)
    → c.at + 22050 * ms / 1000 ≤ dma_bytes
    → ms ≤ longest
    → Within ms ts
    → (k < c.at) ⊎ (c.at + 22050 * ms / 1000 ≤ k)
    → (add_clip id ms ts c).buf k ≡ c.buf k
unfolding add_clip reserve
add_clip-Outside id ms ts c k h m w o =
    let o' = outside c.at (22050 * ms / 1000) k o in
    mix_tones-Outside ts ms c.at (reserve id ms c) k (omega (arith, h)) m w o'
    ∙ rw (room_for_lem c.at ms h m)
        (fill_silence-Outside c.buf c.at (22050 * ms / 1000) k (omega (arith, h)) o')
  where
    outside : (at n k : ℕ) → (k < at) ⊎ (at + n ≤ k) → Outside at n k
    outside at n k (inl below) = inl below
    outside at n k (inr above) = inr (inl above)

-- The tables with one clip more, and the next free place.
abbrev pub placed : (id ms : ℕ) → Clips → Clips
placed id ms d = record d {
  offset = update d.offset id d.at;
  clip_length = update d.clip_length id (22050 * ms / 1000);
  at = d.at + 22050 * ms / 1000;
}

reserve-placed :
    (id ms : ℕ) (c : Clips)
    → c.at + 22050 * ms / 1000 ≤ dma_bytes
    → ms ≤ longest
    → SamePlaces (reserve id ms c) (placed id ms c)
unfolding reserve
reserve-placed id ms c h m = (
  refl,
  ap (update c.clip_length id) (room_for_lem c.at ms h m),
  rw (room_for_lem c.at ms h m) (ground (arith, h)),
)

placed-SamePlaces :
    (id ms : ℕ) (c d : Clips) → SamePlaces c d → SamePlaces (placed id ms c) (placed id ms d)
placed-SamePlaces id ms c d (o, l, a) = rw (o, l, a) (refl, refl, refl)

SamePlaces-trans : (b c d : Clips) → SamePlaces b c → SamePlaces c d → SamePlaces b d
SamePlaces-trans b c d (o, l, a) (o', l', a') = (o ∙ o', l ∙ l', a ∙ a')

add_clip-placed :
    (id ms : ℕ) (ts : List Tone) (c d : Clips)
    → SamePlaces c d
    → d.at + 22050 * ms / 1000 ≤ dma_bytes
    → ms ≤ longest
    → SamePlaces (add_clip id ms ts c) (placed id ms d)
unfolding add_clip
add_clip-placed id ms ts c d same h m =
    SamePlaces-trans (add_clip id ms ts c) (reserve id ms c) (placed id ms d)
      (mix_tones-SamePlaces ts c.at (reserve id ms c))
      (SamePlaces-trans (reserve id ms c) (placed id ms c) (placed id ms d)
        (reserve-placed id ms c (rw (same.2) h) m) (placed-SamePlaces id ms c d same))

abbrev laid_out : Clips → Clips
laid_out c = placed snd_win 520 (
    placed snd_bump 125 (
      placed snd_push 95 (
        placed snd_step 45 (
          placed snd_deny 150 (placed snd_click 35 (placed snd_boot 1000 (record c { at = 0 })))))))

build_clips-laid_out : (c : Clips) → SamePlaces (build_clips c) (laid_out c)
unfolding build_clips
build_clips-laid_out c =
    let c0 = record c { at = 0 } in
    let p0 : SamePlaces c0 c0 = (refl, refl, refl) in
    let c1 = add_clip snd_boot 1000 boot_tones c0 in
    let d1 = placed snd_boot 1000 c0 in
    let p1 = add_clip-placed snd_boot 1000 boot_tones c0 c0 p0 (omega arith) (omega arith) in
    let c2 = add_clip snd_click 35 click_tones c1 in
    let d2 = placed snd_click 35 d1 in
    let p2 = add_clip-placed snd_click 35 click_tones c1 d1 p1 (omega arith) (omega arith) in
    let c3 = add_clip snd_deny 150 deny_tones c2 in
    let d3 = placed snd_deny 150 d2 in
    let p3 = add_clip-placed snd_deny 150 deny_tones c2 d2 p2 (omega arith) (omega arith) in
    let c4 = add_clip snd_step 45 step_tones c3 in
    let d4 = placed snd_step 45 d3 in
    let p4 = add_clip-placed snd_step 45 step_tones c3 d3 p3 (omega arith) (omega arith) in
    let c5 = add_clip snd_push 95 push_tones c4 in
    let d5 = placed snd_push 95 d4 in
    let p5 = add_clip-placed snd_push 95 push_tones c4 d4 p4 (omega arith) (omega arith) in
    let c6 = add_clip snd_bump 125 bump_tones c5 in
    let d6 = placed snd_bump 125 d5 in
    let p6 = add_clip-placed snd_bump 125 bump_tones c5 d5 p5 (omega arith) (omega arith) in
    add_clip-placed snd_win 520 win_tones c6 d6 p6 (omega arith) (omega arith)

-- A clip that is not empty and lies in the buffer.
abbrev pub Playable : (offset clip_length : ℕ) → Type 0
Playable offset clip_length = (0 < clip_length) × (offset + clip_length ≤ dma_bytes)

-- Whatever the buffer and the tables hold before, each of the seven clips that are built is not
-- empty and lies in the buffer, and a clip ends before every later one begins.
pub build_clips-Playable :
    (c : Clips) (i j : ℕ)
    → i ≤ j
    → j < snd_count
    → Playable ((build_clips c).offset j) ((build_clips c).clip_length j)
      × ((i ≡ j)
          ⊎ ((build_clips c).offset i + (build_clips c).clip_length i ≤ (build_clips c).offset j))
build_clips-Playable c i j h k =
    let same = build_clips-laid_out c in rw (same.0, same.1) (laid c i j h k)
  where
    laid :
        (c : Clips) (i j : ℕ)
        → i ≤ j
        → j < snd_count
        → Playable ((laid_out c).offset j) ((laid_out c).clip_length j)
          × ((i ≡ j) ⊎ ((laid_out c).offset i + (laid_out c).clip_length i ≤ (laid_out c).offset j))
    laid c i j h k = ground (arith, h, k)
