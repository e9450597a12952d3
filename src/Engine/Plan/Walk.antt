-- ===== src/Engine/Plan/Walk.antt =====
-- The chunks between two stream frames, end to end.
use rehearse_kit.Common.{
  ℕ, ◌+◌, ◌-◌, ◌≤◌, ◌<◌, ◌≡◌, refl, Option, none, some, arith, inl, inr, true, false, ok,
  Bool-cases, List, map, ltb, [], suc, ◌∷◌, zero, ◌++◌, ap, ap₂, ltb→le, sym, ◌∙◌, ltb→lt,
  map-append,
}
use rehearse_kit.Engine.Plan.{Chunk, PlayPlan, song_frame_at, at_end, next_chunk, walk}
use rehearse_kit.Engine.Plan.Validity.{IsValid}
use rehearse_kit.Engine.Plan.Chunks.{Follows, stop_at, next_chunk-Follows}

-- `n` frames from `a` on.
abbrev pub frames_from : ℕ → ℕ → List ℕ
frames_from a zero = []
frames_from a (suc n) = a ∷ frames_from (a + 1) n

frames_from-append : (a n m : ℕ) → frames_from a (n + m) ≡ frames_from a n ++ frames_from (a + n) m
frames_from-append a zero m = ap₂ frames_from (omega arith) (omega arith)
frames_from-append a (suc n) m =
    let count : suc n + m ≡ suc (n + m) = omega arith in
    let from : a + 1 + n ≡ a + suc n = omega arith in
    ap (frames_from a) count
    ∙ ap (a ∷◌)
        (frames_from-append (a + 1) n m ∙ ap (λ k. frames_from (a + 1) n ++ frames_from k m) from)

frames_from-map :
    (f : ℕ → ℕ) (a b n : ℕ)
    → ((i : ℕ) → i < n → f (a + i) ≡ b + i)
    → map f (frames_from a n) ≡ frames_from b n
frames_from-map f a b zero h = refl
frames_from-map f a b (suc n) h = ap₂ ◌∷◌ (at 0 a b (omega arith) (omega arith) (omega arith)) (
    frames_from-map f (a + 1) (b + 1) n
      (λ i k. at (suc i) (a + 1 + i) (b + 1 + i) (omega arith) (omega arith) (omega arith)))
  where
    at : (i x y : ℕ) → i < suc n → x ≡ a + i → y ≡ b + i → f x ≡ y
    at i x y k p q = ap f p ∙ h i k ∙ sym q

-- The song frames that a list of chunks plays, in order.
abbrev pub song_frames : List Chunk → List ℕ
song_frames [] = []
song_frames (c ∷ cs) = frames_from c.song_start c.frames ++ song_frames cs

stop_at-le : (o : Option ℕ) (horizon : ℕ) → stop_at o horizon ≤ horizon
stop_at-le none horizon = omega arith
stop_at-le (some n) horizon = omega arith

stop_at-end : (o : Option ℕ) (pos horizon : ℕ) → at_end o pos ≡ true → stop_at o horizon ≤ pos
stop_at-end none pos horizon h = cc
stop_at-end (some n) pos horizon h = ground arith

stop_at-between :
    (o : Option ℕ) (a horizon : ℕ) → a ≤ stop_at o a → a ≤ horizon → a ≤ stop_at o horizon
stop_at-between none a horizon h k = k
stop_at-between (some n) a horizon h k = omega arith

module _ (fuel : ℕ) (p : PlayPlan) (pos horizon : ℕ) where
  walk-stop : ltb pos horizon ≡ false → walk (suc fuel) p pos horizon ≡ []
  unfolding walk
  walk-stop h = ground arith

  walk-none :
      ltb pos horizon ≡ true
      → next_chunk p pos (horizon - pos) ≡ ok none
      → walk (suc fuel) p pos horizon ≡ []
  unfolding walk
  walk-none h k = ground arith

  walk-some :
      (c : Chunk)
      → ltb pos horizon ≡ true
      → next_chunk p pos (horizon - pos) ≡ ok (some c)
      → walk (suc fuel) p pos horizon ≡ c ∷ walk fuel p (c.stream_start + c.frames) horizon
  unfolding walk
  walk-some c h k = ground arith

walk-zero : (p : PlayPlan) (pos horizon : ℕ) → walk zero p pos horizon ≡ []
unfolding walk
walk-zero p pos horizon = refl

-- One chunk in front of what the rest of the walk plays.
walk-consumed :
    (p : PlayPlan)
    → IsValid p
    → (pos horizon : ℕ) (c : Chunk) → Follows p pos (horizon - pos) c
    → pos < horizon
    → (rest : List Chunk)
    → song_frames rest
      ≡ map (song_frame_at p) (
          frames_from
            (c.stream_start + c.frames)
            (stop_at p.stream_length horizon - (c.stream_start + c.frames)))
    → song_frames (c ∷ rest)
      ≡ map (song_frame_at p) (frames_from pos (stop_at p.stream_length horizon - pos))
walk-consumed p v pos horizon c f b rest ih =
    let stop = stop_at p.stream_length horizon in
    let fits : pos + c.frames ≤ stop =
      stop_at-between p.stream_length (pos + c.frames) horizon f.within (omega (arith, f)) in
    let split : stop - pos ≡ c.frames + (stop - (c.stream_start + c.frames)) = omega (arith, f) in
    let next : pos + c.frames ≡ c.stream_start + c.frames = omega (arith, f) in
    rw (
      split,
      frames_from-append,
      map-append,
      next,
      ih,
      frames_from-map (song_frame_at p) pos c.song_start c.frames f.contiguous,
    )

-- For a valid plan and fuel of one unit for each frame, the walk from a stream frame to a
-- horizon plays each stream frame up to the horizon or the end of the stream once, in order, at
-- the song frame that songFrameAt gives.
pub walk_lem :
    (fuel : ℕ) (p : PlayPlan) (pos horizon : ℕ)
    → IsValid p
    → horizon ≤ pos + fuel
    → song_frames (walk fuel p pos horizon)
      ≡ map (song_frame_at p) (frames_from pos (stop_at p.stream_length horizon - pos))
walk_lem zero p pos horizon v h =
    let gone : stop_at p.stream_length horizon - pos ≡ 0 =
      omega (arith, stop_at-le p.stream_length horizon) in
    rw (walk-zero, gone)
walk_lem (suc fuel) p pos horizon v h = elim (Bool-cases (ltb pos horizon)) [
  | inl t ↦ elim (next_chunk-Follows p pos (horizon - pos) v (ground arith)) [
    | inl (e, nothing) ↦
        let gone : stop_at p.stream_length horizon - pos ≡ 0 =
          omega (arith, stop_at-end p.stream_length pos horizon e) in
        rw (walk-none fuel p pos horizon t nothing, gone)
    | inr (e, (c, found, follows)) ↦ rw (walk-some fuel p pos horizon c t found) (
        walk-consumed p v pos horizon c follows (ltb→lt pos horizon t)
          (walk fuel p (c.stream_start + c.frames) horizon)
          (walk_lem fuel p (c.stream_start + c.frames) horizon v (omega (arith, follows))))
  ]
  | inr t ↦
      let gone : stop_at p.stream_length horizon - pos ≡ 0 =
        omega (arith, stop_at-le p.stream_length horizon, ltb→le pos horizon t) in
      rw (walk-stop fuel p pos horizon t, gone)
]
