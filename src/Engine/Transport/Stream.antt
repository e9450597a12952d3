-- ===== src/Engine/Transport/Stream.antt =====
-- engine.ts: the acknowledged flush, the ticks, and the end of the engine.
use rehearse_kit.Engine.Transport.Control.{halt_stream, loop_range}
use rehearse_kit.Common.{
  Bool, List, Option, [], false, if◌then◌else◌, map, min, none, not, some, true, ℕ, ◌&&◌, ◌==◌,
  ◌||◌, ◌∷◌,
}
use rehearse_kit.Engine.Transport.{
  RingControl, StreamControl, PlayPlan, Engine, make_plan, ring_priming, is_priming, is_sounding,
  is_playing, is_flush, nonneg, reaches, ended, error, idle, as_request, ring_playing, playing,
}

module _ {R S : Type 0} (rc : RingControl R) (sc : StreamControl S) where
  abbrev pub set_end : R → Option PlayPlan → R
  set_end r (some p) = elim p.stream_length [ none ↦ r | some n ↦ rc.set_eof r n ]
  set_end r none = r

  abbrev pub restart_all : List S → Option PlayPlan → ℕ → List S
  restart_all streamers none g = streamers
  restart_all streamers (some p) g = map (λ s. sc.restart s p g) streamers

  abbrev pub next_plan : Engine R S → Option PlayPlan
  next_plan e = make_plan (nonneg e.anchor_frame 0) e.total_frames (as_request (loop_range rc sc e))

  -- `onWorkletMessage` behind its guards, up to `tick`.
  unfoldable pub prime : Engine R S → R → Engine R S
  prime e r = record e {
    pending_flush = none;
    plan = next_plan e;
    rings = some (rc.set_ring_state (set_end (rc.reset_rings r) (next_plan e)) ring_priming);
    streamers = restart_all e.streamers (next_plan e) e.generation;
    timer = true;
  }

  abbrev pub needed : Engine R S → PlayPlan → ℕ
  needed e p = elim p.stream_length [ none ↦ e.min_fill | some n ↦ min e.min_fill n ]

  unfoldable pub all_eof : List S → Bool
  all_eof [] = true
  all_eof (s ∷ streamers) = sc.eof_reached s && all_eof streamers

  -- The first half of `tick`: enough is buffered.
  unfoldable pub begin_playing : Engine R S → PlayPlan → R → Engine R S
  begin_playing e p r =
      if is_priming e.state && (reaches (rc.min_buffered r) (needed e p) || all_eof e.streamers)
      then record e {
        rings = some (rc.set_ring_state r ring_playing);
        audible = if e.context then true else e.audible;
        state = playing;
      }
      else e

  -- The other half, with the audio thread's flag.
  unfoldable pub finish_playing : Engine R S → Bool → Engine R S
  finish_playing e is_over =
      if is_sounding e.state && is_over
      then record (halt_stream rc sc e) { anchor_frame = e.total_frames; state = ended }
      else e

  abbrev pub ring_ended : Option R → Bool
  ring_ended none = false
  ring_ended (some r) = rc.has_ended r

  unfoldable pub tick_with : Engine R S → Option PlayPlan → Option R → Engine R S
  tick_with e (some p) (some r) =
      let begun = begin_playing (record e { streamers = map sc.tick_stream e.streamers }) p r in
      finish_playing begun (ring_ended begun.rings)
  tick_with e _ _ = e

  unfoldable pub tick : Engine R S → Engine R S
  tick e = if is_playing e.state then tick_with e e.plan e.rings else e

  unfoldable pub flushed_with : Engine R S → Option R → Engine R S
  flushed_with e none = e
  flushed_with e (some r) = tick (prime e r)

  -- `onWorkletMessage` for a message `flushed`.
  unfoldable pub flushed : Engine R S → ℕ → Engine R S
  flushed e generation =
      if not (generation == e.generation) || not (is_flush e.pending_flush generation)
      then e
      else flushed_with e e.rings

  unfoldable pub fail : Engine R S → ℕ → Engine R S
  fail e message = record (halt_stream rc sc (record e { message = some message })) {
    state = error;
  }

  -- `destroy` up to the closing of the context, and behind it.
  unfoldable pub destroy_begun : Engine R S → Engine R S
  destroy_begun e = record (halt_stream rc sc e) { node = false; streamers = [] }

  unfoldable pub destroy_closed : Engine R S → Engine R S
  destroy_closed e = record e { context = false; state = idle }
