-- ===== src/Engine/Streamer.antt =====
-- web/src/player/engine/stem-stream.ts: the class `StemStreamer`. The rings are used through what the
-- class calls of them. A request ends once, with the head and the body of its response: between the
-- two the source only awaits. What decodes a body is an argument, which `stem_decoder` fills; the times
-- of the statistics are left out.
pub mod Due
pub mod Ending
pub mod Flight
mod Examples
use rehearse_kit.Engine.Ring.{ℤ}
use rehearse_kit.Engine.Pcm.{PcmSpec, PcmError, decode_interleaved}
use rehearse_kit.Engine.Range.{RangeError, assert_partial, ContentRange}
use rehearse_kit.Engine.Plan.{
  AudioLayout, ByteRange, PlanError, PlayPlan, Chunk, byte_range_for, should_fetch, next_chunk,
}
use rehearse_kit.Common.{
  Bool, List, Option, Result, [], err, false, if◌then◌else◌, is_some, length, none, not, ok, some,
  true, ℕ, ◌*◌, ◌++◌, ◌+◌, ◌==◌, ◌||◌, ◌∷◌, suc, zero, max, replicate,
}

-- What the streamer calls of `SharedRings`, for its own stem.
pub record StemRing (R A : Type 0) : Type 0 where
  pub buffered : R → ℕ
  pub space : R → ℕ
  pub write_ring : R → List (List A) → ℕ → Option R

pub record StreamOptions : Type 0 where
  pub fmt : AudioLayout
  pub spec : PcmSpec
  pub chunk_frames : ℕ
  pub first_chunk_frames : ℕ
  pub prefetch_frames : ℕ

-- `decodeInterleaved` into the scratch arrays of the constructor.
unfoldable pub stem_decoder :
    {A : Type 0}
    → (ℤ → ℕ → A)
    → (ℕ → A)
    → StreamOptions
    → List ℕ
    → ℕ
    → Result PcmError (List (List A))
stem_decoder scale float32 o body frames =
    decode_interleaved scale float32 body 0 frames o.spec
      (replicate o.spec.channels (max o.chunk_frames o.first_chunk_frames)) 0

-- A call of `fetchChunk`: its controller, by a number, and what it asks for.
pub record Fetch : Type 0 where
  pub controller : ℕ
  pub song_start : ℕ
  pub frames : ℕ
  pub generation : ℕ
  pub range : ByteRange

pub data StreamError : Type 0 where
  no_chunk no_range : PlanError → StreamError
  bad_answer : RangeError → StreamError
  undecodable : PcmError → StreamError
  short_body overflow request_failed : StreamError

-- How a request ends.
pub data Response : Type 0 where
  unreachable : Response
  -- the status, Content-Range and the bytes of the body
  answered : ℕ → Option (List ℕ) → List ℕ → Response

pub record Streamer (R : Type 0) : Type 0 where
  pub rings : R
  pub plan : Option PlayPlan
  pub generation : ℕ
  pub stream_pos : ℕ
  pub first_chunk : Bool
  pub controller : Option ℕ
  pub eof_reached : Bool
  pub requests : ℕ
  pub bytes : ℕ
  pub in_flight : Bool
  -- not in the source: the number of the next controller, the requests that have not ended, those
  -- whose frames have been written since the start, the last one first, and the calls of `onError`
  pub next_controller : ℕ
  pub open_fetches : List Fetch
  pub written : List Fetch
  pub errors : List StreamError

unfoldable pub new_streamer : {R : Type 0} → R → Streamer R
new_streamer rings = record {
  rings = rings;
  plan = none;
  generation = 0;
  stream_pos = 0;
  first_chunk = true;
  controller = none;
  eof_reached = false;
  requests = 0;
  bytes = 0;
  in_flight = false;
  next_controller = 0;
  open_fetches = [];
  written = [];
  errors = [];
}

-- `this.controller === controller`; a controller has been aborted exactly where it is not this one.
unfoldable pub is_current : Option ℕ → ℕ → Bool
is_current none c = false
is_current (some d) c = d == c

module _ {R A : Type 0} (ring : StemRing R A) (o : StreamOptions)
    (decode : List ℕ → ℕ → Result PcmError (List (List A))) where
  unfoldable pub abort : Streamer R → Streamer R
  abort s = record s { controller = none; in_flight = false; plan = none }

  unfoldable pub restart : Streamer R → PlayPlan → ℕ → Streamer R
  unfolding abort
  restart s plan generation = record (abort s) {
    plan = some plan;
    generation = generation;
    stream_pos = 0;
    first_chunk = true;
    eof_reached = false;
    written = [];
  }

  abbrev pub report : Streamer R → StreamError → Streamer R
  report s e = record s { errors = s.errors ++ (e ∷ []) }

  -- `fetchChunk` up to its first `await`. Where it throws, it is done with the controller; `rangeHeader`
  -- throws on no range of `byteRangeFor` with blocks that are not empty.
  unfoldable pub fetch_chunk : Streamer R → Chunk → Streamer R
  fetch_chunk s chunk = elim (byte_range_for o.fmt chunk.song_start chunk.frames) [
    | err e ↦ record (report s (no_range e)) {
      controller = none;
      in_flight = false;
      next_controller = s.next_controller + 1;
    }
    | ok range ↦ record s {
      controller = some s.next_controller;
      in_flight = true;
      next_controller = s.next_controller + 1;
      open_fetches =
          s.open_fetches
          ++ (record {
            controller = s.next_controller;
            song_start = chunk.song_start;
            frames = chunk.frames;
            generation = s.generation;
            range = range;
          }
              ∷ []);
    }
  ]

  abbrev pub max_frames : Streamer R → ℕ
  max_frames s = if s.first_chunk then o.first_chunk_frames else o.chunk_frames

  unfoldable pub tick_chunk : Streamer R → Option Chunk → Streamer R
  tick_chunk s none = record s { eof_reached = true }
  tick_chunk s (some chunk) =
      if not
        (should_fetch (ring.buffered s.rings) (ring.space s.rings) chunk.frames o.prefetch_frames)
      then s
      else fetch_chunk s chunk

  unfoldable pub tick_plan : Streamer R → Option PlayPlan → Result StreamError (Streamer R)
  tick_plan s none = ok s
  tick_plan s (some plan) =
      if is_some s.controller || s.eof_reached
      then ok s
      else elim (next_chunk plan s.stream_pos (max_frames s)) [
        | err e ↦ err (no_chunk e)
        | ok chunk ↦ ok (tick_chunk s chunk)
      ]

  unfoldable pub tick : Streamer R → Result StreamError (Streamer R)
  tick s = tick_plan s s.plan

  -- `finally`
  unfoldable pub finish : Streamer R → Fetch → Streamer R
  finish s f =
      if is_current s.controller f.controller
      then record s { controller = none; in_flight = false }
      else s

  -- The catch.
  abbrev pub caught : Streamer R → Fetch → StreamError → Streamer R
  caught s f e = finish (if not (is_current s.controller f.controller) then s else report s e) f

  abbrev pub stored : Streamer R → Fetch → List ℕ → R → Streamer R
  stored s f body rings = record s {
    rings = rings;
    stream_pos = s.stream_pos + f.frames;
    first_chunk = false;
    requests = s.requests + 1;
    bytes = s.bytes + length body;
    written = f ∷ s.written;
  }

  -- Behind the test that the request is not superseded.
  unfoldable pub take_body : Streamer R → Fetch → List ℕ → Streamer R
  take_body s f body =
      if not (length body == f.frames * o.fmt.block_align)
      then caught s f short_body
      else elim (decode body f.frames) [
        | err e ↦ caught s f (undecodable e)
        | ok samples ↦ elim (ring.write_ring s.rings samples f.frames) [
          | none ↦ caught s f overflow
          | some rings ↦ finish (stored s f body rings) f
        ]
      ]

  unfoldable pub take_answer :
      Streamer R → Fetch → Result RangeError ContentRange → List ℕ → Streamer R
  take_answer s f (err e) body = caught s f (bad_answer e)
  take_answer s f (ok cr) body =
      if not (f.generation == s.generation) || not (is_current s.controller f.controller)
      then finish s f
      else take_body s f body

  unfoldable pub end_fetch : Streamer R → Fetch → Response → Streamer R
  end_fetch s f unreachable = caught s f request_failed
  end_fetch s f (answered status content_range body) =
      take_answer s f (assert_partial status content_range f.range.start f.range.end) body

  -- The fetch at a place of the list, and the list without it.
  unfoldable pub end_at : Streamer R → List Fetch → List Fetch → ℕ → Response → Streamer R
  end_at s before [] i response = s
  end_at s before (f ∷ fs) zero response =
      end_fetch (record s { open_fetches = before ++ fs }) f response
  end_at s before (f ∷ fs) (suc i) response = end_at s (before ++ (f ∷ [])) fs i response

-- What the engine and the network do to it. The engine takes its chunk and its error calls as
-- events of its own.
pub data StreamEvent : Type 0 where
  restarted : PlayPlan → ℕ → StreamEvent
  was_aborted was_ticked : StreamEvent
  fetch_ended : ℕ → Response → StreamEvent

module _ {R A : Type 0} (ring : StemRing R A) (o : StreamOptions)
    (decode : List ℕ → ℕ → Result PcmError (List (List A))) where
  abbrev pub or_thrown : Streamer R → Result StreamError (Streamer R) → Streamer R
  or_thrown s (ok s') = s'
  or_thrown s (err _) = s

  unfoldable pub stream_step : Streamer R → StreamEvent → Streamer R
  stream_step s (restarted plan generation) = restart ring o decode s plan generation
  stream_step s StreamEvent.was_aborted = abort ring o decode s
  stream_step s StreamEvent.was_ticked = or_thrown s (tick ring o decode s)
  stream_step s (fetch_ended i response) = end_at ring o decode s [] s.open_fetches i response

  abbrev pub run_stream : Streamer R → List StreamEvent → Streamer R
  run_stream s [] = s
  run_stream s (x ∷ xs) = run_stream (stream_step s x) xs
