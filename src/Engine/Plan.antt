-- ===== src/Engine/Plan.antt =====
-- web/src/player/engine/chunk-scheduler.ts: loop ranges, the play plan and the chunks it hands out.
-- Frames are natural numbers. A file's length is one already (wav-header.ts floors it); a loop's
-- ends and a start frame come from the page and are any JavaScript numbers.
pub mod Validity
pub mod Chunks
pub mod Walk
pub mod Bytes
mod Examples
use rehearse_kit.Common.{
  ℕ, ◌+◌, ◌-◌, ◌*◌, ◌%◌, min, Bool, true, false, Option, none, some, ltb, leb, ◌&&◌, ◌==◌,
  if◌then◌else◌, Result, ok, err, ◌>>=◌, ◌>>◌, throw_if, List, [], suc, zero, ◌∷◌,
}
use rehearse_kit.Engine.Number.{Number, clamp_floor}

-- Half-open, [start, end).
pub record LoopRange : Type 0 where
  pub start : ℕ
  pub end : ℕ

-- A range as the page asks for it.
pub record LoopRequest : Type 0 where
  pub start : Number
  pub end : Number

pub record Chunk : Type 0 where
  pub stream_start : ℕ
  pub song_start : ℕ
  pub frames : ℕ

abbrev pub min_loop_frames : ℕ
min_loop_frames = 1024

-- The two early returns on a bound that is not a number, then the length test.
unfoldable pub validate_ends : Option ℕ → Option ℕ → ℕ → Option LoopRange
validate_ends (some start) (some end) min_frames =
    if ltb end (start + min_frames) then none else some (record { start = start; end = end })
validate_ends _ _ min_frames = none

-- `end - start < minFrames` is a signed test; `end < start + minFrames` is the same one.
unfoldable pub validate_loop : Option LoopRequest → ℕ → ℕ → Option LoopRange
unfolding validate_ends
validate_loop none total_frames min_frames = none
validate_loop (some loop) total_frames min_frames =
    validate_ends (clamp_floor loop.start total_frames) (clamp_floor loop.end total_frames)
      min_frames

pub record PlayPlan : Type 0 where
  pub start_frame : ℕ
  pub total_frames : ℕ
  pub loop : Option LoopRange
  pub prefix_frames : ℕ
  pub loop_frames : ℕ
  -- `none` is Infinity.
  pub stream_length : Option ℕ

-- The `else` branch of the constructor.
unfoldable pub straight_plan : ℕ → ℕ → PlayPlan
straight_plan start total = record {
  start_frame = start;
  total_frames = total;
  loop = none;
  prefix_frames = total - start;
  loop_frames = 0;
  stream_length = some (total - start);
}

unfoldable pub looping_plan : ℕ → ℕ → LoopRange → PlayPlan
looping_plan start total l = record {
  start_frame = start;
  total_frames = total;
  loop = some l;
  prefix_frames = l.end - start;
  loop_frames = l.end - l.start;
  stream_length = none;
}

unfoldable pub choose_plan : ℕ → ℕ → Option LoopRange → PlayPlan
unfolding straight_plan looping_plan
choose_plan start total none = straight_plan start total
choose_plan start total (some l) =
    if ltb start l.end then looping_plan start total l else straight_plan start total

-- The constructor. `none` is no failure: it stands for the plan that is built at a start that is NaN,
-- whose start, prefix and length are NaN, and whose `nextChunk` has no chunk.
unfoldable pub make_plan : Number → ℕ → Option LoopRequest → Option PlayPlan
unfolding choose_plan
make_plan start_frame total loop = elim (clamp_floor start_frame total) [
  | none ↦ none
  | some start ↦ some (choose_plan start total (validate_loop loop total min_loop_frames))
]

-- The part of `songFrameAt` behind the prefix.
unfoldable pub song_frame_behind : Option LoopRange → PlayPlan → ℕ → ℕ
song_frame_behind (some l) p s = l.start + (s - p.prefix_frames) % p.loop_frames
song_frame_behind none p s = p.total_frames

unfoldable pub song_frame_at : PlayPlan → ℕ → ℕ
unfolding song_frame_behind
song_frame_at p s =
    if ltb s p.prefix_frames then p.start_frame + s else song_frame_behind p.loop p s

-- `streamPos >= streamLength`
abbrev pub at_end : Option ℕ → ℕ → Bool
at_end none pos = Bool.false
at_end (some n) pos = leb n pos

-- The chunks of the two `return` statements.
abbrev pub prefix_chunk : PlayPlan → ℕ → ℕ → Chunk
prefix_chunk p pos max_frames = record {
  stream_start = pos;
  song_start = p.start_frame + pos;
  frames = min max_frames (p.prefix_frames - pos);
}

abbrev pub wrapped_chunk : PlayPlan → LoopRange → ℕ → ℕ → ℕ → Chunk
wrapped_chunk p l pos max_frames offset = record {
  stream_start = pos;
  song_start = l.start + offset;
  frames = min max_frames (p.loop_frames - offset);
}

loop_chunk : Option LoopRange → PlayPlan → ℕ → ℕ → Option Chunk
loop_chunk none p pos max_frames = none
loop_chunk (some l) p pos max_frames =
    some (wrapped_chunk p l pos max_frames ((pos - p.prefix_frames) % p.loop_frames))

pub data PlanError : Type 0 where
  max_frames_not_positive frames_not_positive frames_outside : PlanError

-- The body of `nextChunk` behind its guard.
unfoldable pub chunk_at : PlayPlan → ℕ → ℕ → Option Chunk
unfolding loop_chunk
chunk_at p pos max_frames =
    if at_end p.stream_length pos
    then none
    else (if ltb pos p.prefix_frames
        then some (prefix_chunk p pos max_frames)
        else loop_chunk p.loop p pos max_frames)

unfoldable pub next_chunk : PlayPlan → ℕ → ℕ → Result PlanError (Option Chunk)
next_chunk p pos max_frames =
    if max_frames == 0 then err max_frames_not_positive else ok (chunk_at p pos max_frames)

-- The loop of the kit scheduler's `tick` (and of `countBetween`): the chunks between a stream frame
-- and a horizon. `next_chunk` is called with `horizon - pos`, which is positive there.
unfoldable pub walk : ℕ → PlayPlan → ℕ → ℕ → List Chunk
walk zero p pos horizon = []
walk (suc fuel) p pos horizon = elim (ltb pos horizon) [
  | false ↦ []
  | true ↦ elim (next_chunk p pos (horizon - pos)) [
    | err e ↦ []
    | ok none ↦ []
    | ok (some c) ↦ c ∷ walk fuel p (c.stream_start + c.frames) horizon
  ]
]

-- What `byteRangeFor` and the streamer read of a parsed header.
pub record AudioLayout : Type 0 where
  pub data_offset : ℕ
  pub block_align : ℕ
  pub total_frames : ℕ

-- Inclusive.
pub record ByteRange : Type 0 where
  pub start : ℕ
  pub end : ℕ

unfoldable pub byte_range_for : AudioLayout → ℕ → ℕ → Result PlanError ByteRange
byte_range_for fmt song_start frames =
    if frames == 0
    then err frames_not_positive
    else (if ltb fmt.total_frames (song_start + frames)
        then err frames_outside
        else ok (record {
          start = fmt.data_offset + song_start * fmt.block_align;
          end = fmt.data_offset + song_start * fmt.block_align + frames * fmt.block_align - 1;
        }))

-- `buffered` is never negative here (Ring/Bounds): room for the whole chunk, and a short lead.
unfoldable pub should_fetch : ℕ → ℕ → ℕ → ℕ → Bool
should_fetch buffered space chunk_frames prefetch_frames =
    leb chunk_frames space && ltb buffered prefetch_frames
