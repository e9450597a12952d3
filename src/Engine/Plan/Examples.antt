-- ===== src/Engine/Plan/Examples.antt =====
-- Runs of the play plan: a file of 5000 frames, played from frame 100 with the loop [1000, 3000).
use rehearse_kit.Engine.Plan.{
  at_end, frames_not_positive, frames_outside, AudioLayout, ByteRange, song_frame_at,
  byte_range_for, should_fetch,
}
use rehearse_kit.Engine.Plan.Chunks.{stop_at}
use rehearse_kit.Engine.Plan.Walk.{walk_lem, song_frames, frames_from}
use rehearse_kit.Engine.Plan.Bytes.{byte_range_for_lem, song_frame_at-loop, size, data_end}
use rehearse_kit.Common.{map, ◌-◌, ◌<◌, ◌≤◌, ◌*◌, ◌+◌, false, true, ℕ}
use rehearse_kit.Common.{none, some, refl, ok, err, [], ◌∷◌, arith, false, true, ◌≡◌, ◌⊎◌}
use rehearse_kit.Engine.Number.{nonneg, nan, clamp_floor}
use rehearse_kit.Engine.Plan.{
  LoopRequest, Chunk, PlayPlan, AudioLayout, ByteRange, make_plan, looping_plan, choose_plan,
  validate_loop, song_frame_at, next_chunk, chunk_at, walk, byte_range_for, should_fetch,
}
use rehearse_kit.Engine.Plan.Validity.{IsValid, make_plan-IsValid, make_plan_lem}
use rehearse_kit.Engine.Plan.Chunks.{next_chunk-Follows, Follows}
use rehearse_kit.Engine.Plan.Walk.{walk_lem, song_frames, frames_from}
use rehearse_kit.Engine.Plan.Bytes.{byte_range_for_lem, song_frame_at-loop}

abbrev request : LoopRequest
request = record { start = nonneg 2001 1; end = nonneg 3000 0 }

abbrev plan : PlayPlan
plan = looping_plan 100 5000 (record { start = 1000; end = 3000 })

-- The start of the loop, 1000.5, is rounded down.
plan_eq : make_plan (nonneg 100 0) 5000 (some request) ≡ some plan
unfolding make_plan clamp_floor validate_loop looping_plan choose_plan
plan_eq = refl

plan-IsValid : IsValid plan
plan-IsValid = make_plan-IsValid (nonneg 100 0) 5000 (some request) plan_eq

make_plan_lem_example :
    (p : PlayPlan) × (make_plan (nonneg 100 0) 5000 (some request) ≡ some p)
    × IsValid p
    × (p.total_frames ≡ 5000)
    × (clamp_floor (nonneg 100 0) 5000 ≡ some p.start_frame)
make_plan_lem_example = make_plan_lem (nonneg 100 0) 5000 (some request) refl

too_short :
    validate_loop (some (record { start = nonneg 0 0; end = nonneg 1023 0 })) 5000 1024 ≡ none
unfolding validate_loop clamp_floor
too_short = refl

no_number : make_plan nan 5000 none ≡ none
unfolding make_plan clamp_floor
no_number = refl

-- The walk over the wrap: from stream frame 2890 (song frame 2990) to 2920.
wrap :
    walk 30 plan 2890 2920
    ≡ record { stream_start = 2890; song_start = 2990; frames = 10 }
      ∷ record { stream_start = 2900; song_start = 1000; frames = 20 }
      ∷ []
unfolding walk next_chunk chunk_at looping_plan
wrap = refl

next_chunk-Follows_example :
    ((at_end plan.stream_length 2890 ≡ true) × (next_chunk plan 2890 30 ≡ ok none))
    ⊎ ((at_end plan.stream_length 2890 ≡ false)
        × ((c : Chunk) × (next_chunk plan 2890 30 ≡ ok (some c)) × Follows plan 2890 30 c))
next_chunk-Follows_example = next_chunk-Follows plan 2890 30 plan-IsValid (omega arith)

walk_lem_example :
    song_frames (walk 30 plan 2890 2920)
    ≡ map (song_frame_at plan) (frames_from 2890 (stop_at plan.stream_length 2920 - 2890))
walk_lem_example = walk_lem 30 plan 2890 2920 plan-IsValid (omega arith)

-- 16-bit stereo behind a header of 44 bytes.
abbrev layout : AudioLayout
layout = record { data_offset = 44; block_align = 4; total_frames = 5000 }

abbrev asked : ℕ
asked = 20

byte_range_for_lem_example :
    ((r : ByteRange) × (byte_range_for layout 100 20 ≡ ok r)
      × (0 < 20)
      × (100 + 20 ≤ 5000)
      × (r.start ≡ 44 + 100 * 4)
      × (size r ≡ 20 * 4)
      × (r.end < data_end layout))
    ⊎ ((byte_range_for layout 100 20 ≡ err frames_not_positive) × (asked ≡ 0))
    ⊎ ((byte_range_for layout 100 20 ≡ err frames_outside) × (5000 < 100 + 20))
byte_range_for_lem_example = byte_range_for_lem layout 100 20 (omega arith)

first_range : byte_range_for layout 100 20 ≡ ok (record { start = 444; end = 523 })
unfolding byte_range_for
first_range = refl

second_range : byte_range_for layout 120 1 ≡ ok (record { start = 524; end = 527 })
unfolding byte_range_for
second_range = refl

behind_the_end : byte_range_for layout 4990 11 ≡ err frames_outside
unfolding byte_range_for
behind_the_end = refl

song_frame_at-loop_example :
    (1000 ≤ song_frame_at plan 2905)
    × (song_frame_at plan 2905 < 3000)
    × (song_frame_at plan (2905 + 2000) ≡ song_frame_at plan 2905)
unfolding looping_plan
song_frame_at-loop_example =
    song_frame_at-loop plan (record { start = 1000; end = 3000 }) 2905 plan-IsValid refl
      (omega arith)

-- Room for the chunk and a short lead: the producer fetches.
fetches : should_fetch 100 400 256 300 ≡ true
unfolding should_fetch
fetches = refl
