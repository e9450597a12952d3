-- ===== src/Engine/Transport.antt =====
-- web/src/player/engine/engine.ts: the transport of the class `StreamEngine`. The shared rings and the
-- streamers are used through what the engine calls of them. The context, the node and the rings are
-- kept as whether they are there; listeners do not call back.
pub mod Control
pub mod Stream
pub mod Events
pub mod Sound
pub mod Keeping
pub mod Playing
pub mod Session
pub mod Seeking
pub mod Priming
pub mod Starting
mod Examples
use rehearse_kit.Engine.Number.{nonneg}
use rehearse_kit.Engine.Plan.{
  PlayPlan, LoopRange, LoopRequest, song_frame_at, validate_loop, make_plan, min_loop_frames,
}
use rehearse_kit.Engine.Ring.{ℤ, pos, negsuc}
use rehearse_kit.Common.{
  Bool, List, Option, Result, [], err, false, if◌then◌else◌, is_some, leb, map, min, none, not, ok,
  some, true, ℕ, ◌&&◌, ◌++◌, ◌+◌, ◌==◌, ◌||◌, ◌∷◌,
}

pub data RingState : Type 0 where
  ring_stopped ring_priming ring_playing : RingState

-- What the engine calls of `SharedRings`.
pub record RingControl (R : Type 0) : Type 0 where
  pub set_ring_state : R → RingState → R
  pub reset_rings : R → R
  pub set_eof : R → ℕ → R
  pub read_pos : R → ℕ
  pub min_buffered : R → ℤ
  pub has_ended : R → Bool

-- What it calls of `StemStreamer`.
pub record StreamControl (S : Type 0) : Type 0 where
  pub restart : S → PlayPlan → ℕ → S
  pub abort : S → S
  pub tick_stream : S → S
  pub eof_reached : S → Bool

pub data EngineState : Type 0 where
  idle ready priming playing stopped ended error : EngineState

pub record Engine (R S : Type 0) : Type 0 where
  pub total_frames : ℕ
  pub min_fill : ℕ
  pub context : Bool
  pub node : Bool
  pub rings : Option R
  pub streamers : List S
  pub plan : Option PlayPlan
  pub region : Option LoopRange
  pub loop_on : Bool
  pub generation : ℕ
  pub anchor_frame : ℕ
  pub state : EngineState
  pub timer : Bool
  pub pending_flush : Option ℕ
  pub message : Option ℕ
  -- whether the master's gain goes to its value, and not to 0
  pub audible : Bool
  -- the flushes that have been posted to the worklet
  pub posted : List ℕ

unfoldable pub is_playing : EngineState → Bool
is_playing EngineState.priming = true
is_playing EngineState.playing = true
is_playing _ = false

unfoldable pub is_priming : EngineState → Bool
is_priming EngineState.priming = true
is_priming _ = false

unfoldable pub is_sounding : EngineState → Bool
is_sounding EngineState.playing = true
is_sounding _ = false

unfoldable pub has_finished : EngineState → Bool
has_finished EngineState.ended = true
has_finished _ = false

-- `stopped` or `ready`
unfoldable pub is_waiting : EngineState → Bool
is_waiting EngineState.stopped = true
is_waiting EngineState.ready = true
is_waiting _ = false

-- `===` on a generation that may be null
unfoldable pub is_flush : Option ℕ → ℕ → Bool
is_flush none g = false
is_flush (some p) g = p == g

-- `x >= n`
unfoldable pub reaches : ℤ → ℕ → Bool
reaches (pos x) n = leb n x
reaches (negsuc x) n = false

-- A range of frames, as a plan is given it.
abbrev pub as_request : Option LoopRange → Option LoopRequest
as_request none = none
as_request (some l) = some (record { start = nonneg l.start 0; end = nonneg l.end 0 })

-- `Math.max(0, Math.min(frame, totalFrames))` of a rounded number.
unfoldable pub clamp_frame : ℤ → ℕ → ℕ
clamp_frame (pos n) total = min n total
clamp_frame (negsuc n) total = 0

pub data EngineError : Type 0 where
  not_initialised : EngineError
