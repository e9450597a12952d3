-- ===== src/Engine/Plan/Bytes.antt =====
-- `byteRangeFor` and the loop of `songFrameAt`.
use rehearse_kit.Common.{
  ℕ, arith, err, ok, some, ◌*◌, ◌+◌, ◌-◌, ◌<◌, ◌≡◌, ◌≤◌, ◌⊎◌, Bool-cases, inl, inr, le→ltb, ltb,
  ltb→le, refl, subst, ◌==◌, ap, ◌%◌, Option, ltb→lt, none,
}
use native.Mathlib.Nat.{mul-le-mul, le_refl, mod-lt, add-mod_right}
use rehearse_kit.Engine.Plan.{
  AudioLayout, ByteRange, byte_range_for, frames_not_positive, frames_outside, PlayPlan, LoopRange,
  song_frame_at, song_frame_behind,
}
use rehearse_kit.Engine.Plan.Validity.{IsValid, IsLoopOf, LoopValid}

-- The bytes of the audio data of a file.
abbrev pub data_end : AudioLayout → ℕ
data_end fmt = fmt.data_offset + fmt.total_frames * fmt.block_align

-- Inclusive, so one more than the difference.
abbrev pub size : ByteRange → ℕ
size r = r.end + 1 - r.start

-- The block of bytes of `frames` frames from `song_start`.
abbrev pub block : AudioLayout → ℕ → ℕ → ByteRange
block fmt song_start frames = record {
  start = fmt.data_offset + song_start * fmt.block_align;
  end = fmt.data_offset + song_start * fmt.block_align + frames * fmt.block_align - 1;
}

block-inside :
    (fmt : AudioLayout) (song_start frames : ℕ)
    → 0 < fmt.block_align
    → 0 < frames
    → song_start + frames ≤ fmt.total_frames
    → (size (block fmt song_start frames) ≡ frames * fmt.block_align)
      × ((block fmt song_start frames).end < data_end fmt)
block-inside fmt song_start frames b h k =
    let one : 1 * 1 ≤ frames * fmt.block_align = mul-le-mul h b in
    let all : (song_start + frames) * fmt.block_align ≤ fmt.total_frames * fmt.block_align =
      mul-le-mul k (le_refl fmt.block_align) in
    omega arith

-- With a positive block size, byteRangeFor returns a range of frames * blockAlign bytes that
-- starts at the first frame and ends inside the audio data, or refuses: exactly where no frame
-- is asked for or the frames go past the end of the file.
pub byte_range_for_lem :
    (fmt : AudioLayout) (song_start frames : ℕ)
    → 0 < fmt.block_align
    → ((r : ByteRange) × (byte_range_for fmt song_start frames ≡ ok r)
        × (0 < frames)
        × (song_start + frames ≤ fmt.total_frames)
        × (r.start ≡ fmt.data_offset + song_start * fmt.block_align)
        × (size r ≡ frames * fmt.block_align)
        × (r.end < data_end fmt))
      ⊎ ((byte_range_for fmt song_start frames ≡ err frames_not_positive) × (frames ≡ 0))
      ⊎ ((byte_range_for fmt song_start frames ≡ err frames_outside)
          × (fmt.total_frames < song_start + frames))
unfolding byte_range_for
byte_range_for_lem fmt song_start frames b = elim (Bool-cases (frames == 0)) [
  | inl z ↦ inr (inl (ground arith))
  | inr z ↦ elim (Bool-cases (ltb fmt.total_frames (song_start + frames))) [
    | inl o ↦ inr (inr (ground arith))
    | inr o ↦
        let pos : 0 < frames = ground arith in
        let (sized, inside) = block-inside fmt song_start frames b pos (ltb→le _ _ o) in
        inl (block fmt song_start frames, rw (z, o) refl, pos, ltb→le _ _ o, refl, sized, inside)
  ]
]

-- With a positive block size, the ranges of two chunks that follow one another in the song are
-- next to one another in the file.
pub byte_range_for-adjacent :
    (fmt : AudioLayout) (song_start n m : ℕ) {r q : ByteRange}
    → 0 < fmt.block_align
    → byte_range_for fmt song_start n ≡ ok r
    → byte_range_for fmt (song_start + n) m ≡ ok q
    → q.start ≡ r.end + 1
unfolding byte_range_for
byte_range_for-adjacent fmt song_start n m {r} {q} b h k =
    let some : 0 < n = ground arith in
    let one : 1 * 1 ≤ n * fmt.block_align = mul-le-mul some b in ground arith

-- In a valid looping plan every stream frame behind the prefix is played inside the loop, and
-- the frame loopFrames later is the same song frame.
pub song_frame_at-loop :
    (p : PlayPlan) (l : LoopRange) (s : ℕ)
    → IsValid p
    → p.loop ≡ some l
    → p.prefix_frames ≤ s
    → (l.start ≤ song_frame_at p s)
      × (song_frame_at p s < l.end)
      × (song_frame_at p (s + p.loop_frames) ≡ song_frame_at p s)
unfolding song_frame_at
song_frame_at-loop p l s v q h =
    let loop : IsLoopOf p l = subst (LoopValid p) q v.segments in
    let loop_pos : 0 < p.loop_frames = omega (arith, loop) in
    rw (le→ltb s p.prefix_frames h, le→ltb (s + p.loop_frames) p.prefix_frames (omega arith), q)
      (omega (
        arith,
        mod-lt (s - p.prefix_frames) (loop_pos),
        add-mod_right (s - p.prefix_frames) p.loop_frames,
        same,
      ))
  where
    same :
        (s + p.loop_frames - p.prefix_frames) % p.loop_frames
        ≡ (s - p.prefix_frames + p.loop_frames) % p.loop_frames
    same = ap (λ k. k % p.loop_frames) (omega arith)

-- Every stream frame of a valid plan is played inside the file.
pub song_frame_at-le : (p : PlayPlan) (s : ℕ) → IsValid p → song_frame_at p s ≤ p.total_frames
unfolding song_frame_at
song_frame_at-le p s v = elim (Bool-cases (ltb s p.prefix_frames)) [
  | inl e ↦ rw e (before p.loop v.segments (ltb→lt s p.prefix_frames e))
  | inr e ↦ rw e (behind p.loop refl)
]
  where
    before :
        (l : Option LoopRange)
        → LoopValid p l
        → s < p.prefix_frames
        → p.start_frame + s ≤ p.total_frames
    before none w h = omega (arith, w.rest)
    before (some l) w h = omega (arith, w.prefix, w.inside)

    behind : (l : Option LoopRange) → p.loop ≡ l → song_frame_behind l p s ≤ p.total_frames
    behind none e = le_refl p.total_frames
    behind (some l) e =
        let w : IsLoopOf p l = subst (LoopValid p) e v.segments in
        let m : (s - p.prefix_frames) % p.loop_frames < p.loop_frames =
          mod-lt _ (omega (arith, w.period, w.long)) in
        omega (arith, m, w.period, w.inside)
