-- ===== src/Engine/Plan/Chunks.antt =====
-- One chunk of a play plan: where it lies, and that it follows the song.
use rehearse_kit.Common.{
  ℕ, ◌+◌, ◌-◌, ◌%◌, ◌≤◌, ◌<◌, min, ◌≡◌, refl, Option, none, some, arith, ◌⊎◌, lt→ltb, add-mod_of_lt,
  le→ltb, subst, inl, inr, true, false, ok, Bool-cases, ltb,
}
use rehearse_kit.Engine.Plan.{
  LoopRange, Chunk, PlayPlan, song_frame_at, chunk_at, prefix_chunk, wrapped_chunk, at_end,
  next_chunk,
}
use rehearse_kit.Engine.Plan.Validity.{IsValid, IsLoopOf, IsStraight, LoopValid}

-- How much of [pos, horizon) the stream has.
abbrev pub stop_at : Option ℕ → ℕ → ℕ
stop_at none horizon = horizon
stop_at (some n) horizon = min n horizon

-- A chunk asked for at `pos`: what it says of the song is what `songFrameAt` says, frame by frame.
pub record Follows (p : PlayPlan) (pos max_frames : ℕ) (c : Chunk) : Type 0 where
  pub here : c.stream_start ≡ pos
  pub some_frames : 0 < c.frames
  pub at_most : c.frames ≤ max_frames
  pub inside : c.song_start + c.frames ≤ p.total_frames
  pub within : pos + c.frames ≤ stop_at p.stream_length (pos + c.frames)
  pub contiguous : (i : ℕ) → i < c.frames → song_frame_at p (pos + i) ≡ c.song_start + i

module _ (p : PlayPlan) (pos max_frames : ℕ) (m : 0 < max_frames) where
  -- Inside the prefix.
  prefix-Follows :
      IsValid p
      → pos < p.prefix_frames
      → p.prefix_frames + p.start_frame ≤ p.total_frames
      → (p.stream_length ≡ none) ⊎ (p.stream_length ≡ some p.prefix_frames)
      → Follows p pos max_frames (record {
        stream_start = pos;
        song_start = p.start_frame + pos;
        frames = min max_frames (p.prefix_frames - pos);
      })
  unfolding song_frame_at
  prefix-Follows v b e len = record {
    within = ground arith;
    here = refl;
    some_frames = omega arith;
    at_most = omega arith;
    inside = omega arith;
    contiguous = λ i h. rw (lt→ltb (pos + i) p.prefix_frames (omega arith)) (omega arith);
  }

  -- Behind it, in the loop `l`.
  loop-Follows :
      (l : LoopRange)
      → IsLoopOf p l
      → p.loop ≡ some l
      → p.prefix_frames ≤ pos
      → (offset : ℕ) → offset ≡ (pos - p.prefix_frames) % p.loop_frames
      → Follows p pos max_frames (record {
        stream_start = pos;
        song_start = l.start + offset;
        frames = min max_frames (p.loop_frames - offset);
      })
  unfolding song_frame_at
  loop-Follows l v q b offset e =
      let bound : offset < p.loop_frames = omega arith in
      record {
        here = refl;
        some_frames = omega arith;
        at_most = omega arith;
        inside = omega arith;
        within = ground (arith, v.endless);
        contiguous = λ i h. rw (le→ltb (pos + i) p.prefix_frames (omega arith), q) (follows i h);
      }
    where
      follows :
          (i : ℕ)
          → i < min max_frames (p.loop_frames - offset)
          → l.start + (pos + i - p.prefix_frames) % p.loop_frames ≡ l.start + offset + i
      follows i h =
          let same : pos + i - p.prefix_frames ≡ pos - p.prefix_frames + i = omega arith in
          rw same
            (omega (arith, add-mod_of_lt (pos - p.prefix_frames) i p.loop_frames (omega arith)))

  chunk_at-straight :
      IsStraight p
      → p.loop ≡ none
      → {c : Chunk} → chunk_at p pos max_frames ≡ some c
      → (pos < p.prefix_frames) × (prefix_chunk p pos max_frames ≡ c)
  unfolding chunk_at
  chunk_at-straight v q h = ground (arith, v.finite)

  chunk_at-loop :
      (l : LoopRange)
      → IsLoopOf p l
      → p.loop ≡ some l
      → {c : Chunk} → chunk_at p pos max_frames ≡ some c
      → ((pos < p.prefix_frames) × (prefix_chunk p pos max_frames ≡ c))
        ⊎ ((p.prefix_frames ≤ pos)
            × (wrapped_chunk p l pos max_frames ((pos - p.prefix_frames) % p.loop_frames) ≡ c))
  unfolding chunk_at
  chunk_at-loop l v q h = ground (arith, v.endless)

  pub chunk_at-Follows :
      IsValid p → {c : Chunk} → chunk_at p pos max_frames ≡ some c → Follows p pos max_frames c
  chunk_at-Follows v {c} h = go p.loop refl v.segments
    where
      go : (l : Option LoopRange) → p.loop ≡ l → LoopValid p l → Follows p pos max_frames c
      go none q s =
          let (b, e) = chunk_at-straight s q h in
          subst (Follows p pos max_frames) e (prefix-Follows v b (omega arith) (ground (arith, s)))
      go (some l) q s = elim (chunk_at-loop l s q h) [
        | inl (b, e) ↦
            subst (Follows p pos max_frames) e
              (prefix-Follows v b (omega arith) (ground (arith, s)))
        | inr (b, e) ↦ subst (Follows p pos max_frames) e (loop-Follows l s q b _ refl)
      ]

-- The end of the stream decides alone whether there is a chunk.
chunk_at-none :
    (p : PlayPlan) (pos max_frames : ℕ)
    → IsValid p
    → at_end p.stream_length pos ≡ true
    → chunk_at p pos max_frames ≡ none
unfolding chunk_at
chunk_at-none p pos max_frames v h = rw h

chunk_at-some :
    (p : PlayPlan) (pos max_frames : ℕ)
    → IsValid p
    → at_end p.stream_length pos ≡ false
    → (c : Chunk) × (chunk_at p pos max_frames ≡ some c)
chunk_at-some p pos max_frames v h = go p.loop refl v.segments
  where
    go :
        (l : Option LoopRange)
        → p.loop ≡ l
        → LoopValid p l
        → (c : Chunk) × (chunk_at p pos max_frames ≡ some c)
    go none q s = (prefix_chunk p pos max_frames, unfold chunk_at in ground (arith, s.finite))
    go (some l) q s = elim (Bool-cases (ltb pos p.prefix_frames)) [
      | inl e ↦ (prefix_chunk p pos max_frames, unfold chunk_at in rw (h, e))
      | inr e ↦ (
        wrapped_chunk p l pos max_frames ((pos - p.prefix_frames) % p.loop_frames),
        unfold chunk_at in rw (h, e, q),
      )
    ]

-- At a valid plan and a positive size, nextChunk never throws; it returns null exactly at the
-- end of the stream, and else a chunk that starts where it was asked, is not empty, at most the
-- size asked for, inside the file, and agrees with songFrameAt on every frame.
pub next_chunk-Follows :
    (p : PlayPlan) (pos max_frames : ℕ)
    → IsValid p
    → 0 < max_frames
    → ((at_end p.stream_length pos ≡ true) × (next_chunk p pos max_frames ≡ ok none))
      ⊎ ((at_end p.stream_length pos ≡ false)
          × ((c : Chunk) × (next_chunk p pos max_frames ≡ ok (some c))
              × Follows p pos max_frames c))
unfolding next_chunk
next_chunk-Follows p pos max_frames v m = elim (Bool-cases (at_end p.stream_length pos)) [
  | inl e ↦ inl (e, rw (chunk_at-none p pos max_frames v e) (ground arith))
  | inr e ↦
      let (c, found) = chunk_at-some p pos max_frames v e in
      inr (e, (c, rw found (ground arith), chunk_at-Follows p pos max_frames m v found))
]
