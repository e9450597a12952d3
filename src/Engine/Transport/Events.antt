-- ===== src/Engine/Transport/Events.antt =====
-- The transport as a machine: its events and its runs.
use rehearse_kit.Engine.Transport.Stream.{tick, destroy_begun, destroy_closed, flushed, fail}
use rehearse_kit.Engine.Transport.Control.{
  init_made, init_resumed, play, stop, return_to_start, seek, set_loop, set_loop_region,
  set_loop_enabled, post_flush,
}
use rehearse_kit.Engine.Transport.{RingControl, LoopRequest, StreamControl, Engine, EngineError}
use rehearse_kit.Engine.Ring.{ℤ}
use rehearse_kit.Common.{
  Bool, List, Option, Result, [], err, if◌then◌else◌, none, ok, some, ℕ, ◌∷◌, false, true,
}

-- What the page, the timers, the worklet and the streamers do, one at a time. `ticked` is the
-- interval, or a chunk of a stream that has been restarted: both stop when the transport halts. `init`
-- is three events, its call with the guard, what it makes behind the worklet's module, and its end
-- behind the resumption of the context; `destroy` is two, around the closing of the context. The
-- last two are the audio thread and the requests, which change what the engine reads of them.
pub data EngineEvent (R S : Type 0) : Type 0 where
  made : R → List S → EngineEvent R S
  init_called resumed destroy_called closed : EngineEvent R S
  pressed_play pressed_stop returned ticked : EngineEvent R S
  sought : ℤ → EngineEvent R S
  loop_set : Option LoopRequest → EngineEvent R S
  region_set : LoopRequest → EngineEvent R S
  loop_switched : Bool → EngineEvent R S
  timed_out acknowledged failed : ℕ → EngineEvent R S
  rings_moved : R → EngineEvent R S
  streams_moved : List S → EngineEvent R S

-- The events that are no part of `init` or `destroy`.
unfoldable pub is_steady : {R S : Type 0} → EngineEvent R S → Bool
is_steady (made r streamers) = false
is_steady EngineEvent.init_called = false
is_steady EngineEvent.resumed = false
is_steady EngineEvent.destroy_called = false
is_steady EngineEvent.closed = false
is_steady _ = true

module _ {R S : Type 0} (rc : RingControl R) (sc : StreamControl S) where
  abbrev pub or_same : Engine R S → Result EngineError (Engine R S) → Engine R S
  or_same e (ok e') = e'
  or_same e (err _) = e

  abbrev pub moved : Engine R S → Option R → R → Engine R S
  moved e none r = e
  moved e (some _) r = record e { rings = some r }

  unfoldable pub engine_step : Engine R S → EngineEvent R S → Engine R S
  engine_step e EngineEvent.init_called = e
  engine_step e (made r streamers) = init_made rc sc e r streamers
  engine_step e EngineEvent.resumed = init_resumed rc sc e
  engine_step e EngineEvent.pressed_play = or_same e (play rc sc e)
  engine_step e EngineEvent.pressed_stop = stop rc sc e
  engine_step e EngineEvent.returned = return_to_start rc sc e
  engine_step e EngineEvent.ticked = if e.timer then tick rc sc e else e
  engine_step e EngineEvent.destroy_called = destroy_begun rc sc e
  engine_step e EngineEvent.closed = destroy_closed rc sc e
  engine_step e (sought frame) = seek rc sc e frame
  engine_step e (loop_set range) = (set_loop rc sc e range).0
  engine_step e (region_set range) = (set_loop_region rc sc e range).0
  engine_step e (loop_switched on) = set_loop_enabled rc sc e on
  engine_step e (timed_out g) = post_flush rc sc e g
  engine_step e (acknowledged g) = flushed rc sc e g
  engine_step e (failed message) = fail rc sc e message
  engine_step e (rings_moved r) = moved e e.rings r
  engine_step e (streams_moved streamers) = record e { streamers = streamers }

  abbrev pub run_engine : Engine R S → List (EngineEvent R S) → Engine R S
  run_engine e [] = e
  run_engine e (x ∷ xs) = run_engine (engine_step e x) xs
