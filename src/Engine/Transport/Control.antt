-- ===== src/Engine/Transport/Control.antt =====
-- engine.ts: play, stop, seek and the loop.
use rehearse_kit.Common.{
  Bool, List, Option, Result, [], err, false, if◌then◌else◌, is_some, leb, map, none, not, ok, some,
  true, ℕ, ◌&&◌, ◌++◌, ◌+◌, ◌||◌, ◌∷◌,
}
use rehearse_kit.Engine.Transport.{
  pos, RingControl, StreamControl, Engine, PlayPlan, RingState, idle, ready, LoopRange,
  song_frame_at, is_playing, ring_stopped, priming, is_flush, has_finished, EngineError, is_waiting,
  ℤ, LoopRequest, not_initialised, stopped, clamp_frame, validate_loop, min_loop_frames,
}

module _ {R S : Type 0} (rc : RingControl R) (sc : StreamControl S) where
  unfoldable pub new_engine : ℕ → ℕ → Engine R S
  new_engine total min_fill = record {
    total_frames = total;
    min_fill = min_fill;
    context = false;
    node = false;
    rings = none;
    streamers = [];
    plan = none;
    region = none;
    loop_on = false;
    generation = 0;
    anchor_frame = 0;
    state = idle;
    timer = false;
    pending_flush = none;
    message = none;
    audible = false;
    posted = [];
  }

  -- What `init` has made once the worklet's module is there; its guard was passed when it was called.
  unfoldable pub init_made : Engine R S → R → List S → Engine R S
  init_made e r streamers = record e {
    context = true;
    node = true;
    rings = some (rc.reset_rings r);
    streamers = streamers;
    audible = false;
  }

  -- The end of `init`, behind the resumption of the context.
  unfoldable pub init_resumed : Engine R S → Engine R S
  init_resumed e = record e { state = ready }

  abbrev pub loop_range : Engine R S → Option LoopRange
  loop_range e = if e.loop_on then e.region else none

  abbrev pub heard_frame : Option PlayPlan → Option R → ℕ → ℕ
  heard_frame (some p) (some r) anchor = song_frame_at p (rc.read_pos r)
  heard_frame _ _ anchor = anchor

  unfoldable pub current_frame : Engine R S → ℕ
  current_frame e =
      if is_playing e.state then heard_frame e.plan e.rings e.anchor_frame else e.anchor_frame

  abbrev pub set_rings : Option R → RingState → Option R
  set_rings none st = none
  set_rings (some r) st = some (rc.set_ring_state r st)

  unfoldable pub halt_stream : Engine R S → Engine R S
  halt_stream e = record e {
    generation = e.generation + 1;
    pending_flush = none;
    audible = if e.context then false else e.audible;
    rings = set_rings e.rings ring_stopped;
    streamers = map sc.abort e.streamers;
    timer = false;
  }

  unfoldable pub start_from : Engine R S → ℕ → Engine R S
  unfolding halt_stream
  start_from e frame = if not e.node || not (is_some e.rings) then e else record (halt_stream e) {
    anchor_frame = frame;
    message = none;
    state = priming;
    pending_flush = some (e.generation + 1);
  }

  -- The callback of `setTimeout`.
  unfoldable pub post_flush : Engine R S → ℕ → Engine R S
  post_flush e generation =
      if not (is_flush e.pending_flush generation) || not e.node
      then e
      else record e { posted = e.posted ++ (generation ∷ []) }

  unfoldable pub play_frame : Engine R S → ℕ
  play_frame e =
      if has_finished e.state || leb e.total_frames e.anchor_frame
      then elim (loop_range e) [ none ↦ 0 | some l ↦ l.start ]
      else e.anchor_frame

  unfoldable pub play : Engine R S → Result EngineError (Engine R S)
  play e =
      if not e.context || not (is_some e.rings)
      then err not_initialised
      else (if is_playing e.state
          then ok e
          else ok (start_from (record e { anchor_frame = play_frame e }) (play_frame e)))

  unfoldable pub stop : Engine R S → Engine R S
  stop e =
      if not e.context || not (is_some e.rings) || is_waiting e.state
      then e
      else record (halt_stream e) { anchor_frame = current_frame e; state = stopped }

  unfoldable pub toggle : Engine R S → Result EngineError (Engine R S)
  toggle e = if is_playing e.state then ok (stop e) else play e

  -- The frame is `Math.round(seconds * this.sampleRate)`, for a time that is not NaN.
  unfoldable pub seek : Engine R S → ℤ → Engine R S
  seek e frame =
      if is_playing e.state then start_from e (clamp_frame frame e.total_frames) else record e {
        anchor_frame = clamp_frame frame e.total_frames;
        state = if has_finished e.state then stopped else e.state;
      }

  unfoldable pub return_to_start : Engine R S → Engine R S
  return_to_start e = seek e (elim (loop_range e) [ none ↦ pos 0 | some l ↦ pos l.start ])

  unfoldable pub replan : Engine R S → Engine R S
  replan e = if is_playing e.state then start_from e (current_frame e) else e

  unfoldable pub store_region : Engine R S → Option LoopRange → Engine R S × Bool
  store_region e none = (e, false)
  store_region e (some l) = (
    if e.loop_on then replan (record e { region = some l }) else record e { region = some l },
    true,
  )

  unfoldable pub set_loop_region : Engine R S → LoopRequest → Engine R S × Bool
  set_loop_region e range =
      store_region e (validate_loop (some range) e.total_frames min_loop_frames)

  unfoldable pub set_loop_enabled : Engine R S → Bool → Engine R S
  set_loop_enabled e on = elim (on && is_some e.region) [
    | true ↦ if e.loop_on then e else replan (record e { loop_on = true })
    | false ↦ if e.loop_on then replan (record e { loop_on = false }) else e
  ]

  abbrev pub engage : Engine R S × Bool → Engine R S × Bool
  engage (e, taken) = if taken then (set_loop_enabled e true, true) else (e, false)

  unfoldable pub set_loop : Engine R S → Option LoopRequest → Engine R S × Bool
  set_loop e none = (replan (record e { region = none; loop_on = false }), true)
  set_loop e (some range) = engage (set_loop_region e range)
