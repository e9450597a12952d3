-- ===== src/Engine/Transport/Session.antt =====
-- Runs of a page that awaits `init` and `destroy`, as web/src/player/use-mixer.ts does.
pub mod Idle
pub mod Closing
pub mod Runs
use rehearse_kit.Engine.Transport.Playing.{engine_step-IsSound}
use rehearse_kit.Common.{◌&&◌, ◌==◌, sym, subst, not, ◌||◌, arith}
use rehearse_kit.Engine.Transport.{is_waiting, ℤ, LoopRequest}
use rehearse_kit.Engine.Transport.Sound.{without_context}
use rehearse_kit.Engine.Transport.Keeping.{
  nothing_pending, not_playing, init_resumed-IsSound, init_made-IsSound,
}
use rehearse_kit.Common.{
  Bool, Bool-cases, List, Option, [], ◌∷◌, ◌≡◌, ◌∙◌, ◌≤◌, false, if_both, inl, inr, none, refl,
  some, true, ℕ, ap, if◌then◌else◌, is_some, if◌then◌else◌, is_some,
}
use rehearse_kit.Engine.Transport.{
  EngineState, LoopRange, RingControl, StreamControl, Engine, is_playing, is_sounding, is_flush,
  PlayPlan, has_finished, ℤ,
}
use rehearse_kit.Engine.Transport.Control.{
  init_resumed, stop, seek, return_to_start, replan, set_loop, set_loop_region, store_region,
  set_loop_enabled, engage, post_flush, halt_stream, init_made, new_engine,
}
use rehearse_kit.Engine.Transport.Stream.{flushed, fail, destroy_begun, destroy_closed}
use rehearse_kit.Engine.Transport.Events.{
  EngineEvent, made, sought, loop_set, region_set, loop_switched, timed_out, acknowledged, failed,
  rings_moved, streams_moved, engine_step, moved, is_steady, run_engine,
}
use rehearse_kit.Engine.Transport.Sound.{IsSound, InFile}
use rehearse_kit.Engine.Transport.Keeping.{not_flushing}
use rehearse_kit.Engine.Plan.Validity.{IsValid}

-- Where the page is: between calls, in `init` before and behind what it makes, in `destroy`.
pub data Phase : Type 0 where
  settled opening resuming closing : Phase

module _ {R S : Type 0} (rc : RingControl R) (sc : StreamControl S) where
  unfoldable pub next_phase : Phase → Engine R S → EngineEvent R S → Phase
  next_phase Phase.settled e EngineEvent.init_called =
      if e.context then Phase.settled else Phase.opening
  next_phase Phase.settled e EngineEvent.destroy_called = Phase.closing
  next_phase Phase.opening e (made r streamers) = Phase.resuming
  next_phase Phase.resuming e EngineEvent.resumed = Phase.settled
  next_phase Phase.closing e EngineEvent.closed = Phase.settled
  next_phase phase e x = phase

  -- What happens of itself: timers, acknowledgements, failures, the audio thread and the requests.
  unfoldable pub is_ambient : EngineEvent R S → Bool
  is_ambient EngineEvent.ticked = true
  is_ambient (timed_out g) = true
  is_ambient (acknowledged g) = true
  is_ambient (failed message) = true
  is_ambient (rings_moved r) = true
  is_ambient (streams_moved streamers) = true
  is_ambient _ = false

  -- Which events there are in a phase: `init` and `destroy` go on as they were called, `play` is not
  -- called while `init` is awaited, and nothing is while `destroy` is.
  unfoldable pub is_allowed : Phase → EngineEvent R S → Bool
  is_allowed Phase.settled EngineEvent.init_called = true
  is_allowed Phase.settled EngineEvent.destroy_called = true
  is_allowed Phase.settled x = is_steady x
  is_allowed Phase.opening EngineEvent.pressed_play = false
  is_allowed Phase.opening (made r streamers) = true
  is_allowed Phase.opening x = is_steady x
  is_allowed Phase.resuming EngineEvent.pressed_play = false
  is_allowed Phase.resuming EngineEvent.resumed = true
  is_allowed Phase.resuming x = is_steady x
  is_allowed Phase.closing EngineEvent.closed = true
  is_allowed Phase.closing x = is_ambient x

  unfoldable pub Awaits : Phase → Engine R S → List (EngineEvent R S) → Type 0
  Awaits phase e [] = Unit {0}
  Awaits phase e (x ∷ xs) =
      (is_allowed phase x ≡ true) × Awaits (next_phase phase e x) (engine_step rc sc e x) xs

  unfoldable pub last_phase : Phase → Engine R S → List (EngineEvent R S) → Phase
  last_phase phase e [] = phase
  last_phase phase e (x ∷ xs) = last_phase (next_phase phase e x) (engine_step rc sc e x) xs

  -- A transport that `destroy` has halted, whatever its state still says.
  pub record IsClosing (e : Engine R S) : Type 0 where
    pub no_node : e.node ≡ false
    pub no_timer : e.timer ≡ false
    pub no_flush : e.pending_flush ≡ none
    pub silent : e.audible ≡ false
    pub anchored : e.anchor_frame ≤ e.total_frames
    pub looped : e.loop_on ≡ true → is_some e.region ≡ true
    pub in_file : InFile e.region e.total_frames
    pub plan_valid :
        (p : PlayPlan) → e.plan ≡ some p → IsValid p × (p.total_frames ≡ e.total_frames)

  pub record Idles (e : Engine R S) : Type 0 where
    pub quiet : is_playing e.state ≡ false

  -- Sound, and while `init` is awaited also quiet.
  unfoldable pub IsSession : Phase → Engine R S → Type 0
  IsSession Phase.settled e = IsSound rc sc e
  IsSession Phase.opening e = IsSound rc sc e × Idles e
  IsSession Phase.resuming e = IsSound rc sc e × Idles e
  IsSession Phase.closing e = IsClosing e
