-- ===== src/Engine/Transport/Starting.antt =====
-- What stop and play make of where the transport was.
use rehearse_kit.Engine.Transport.Seeking.{flushed-start, started-IsAwaiting}
use rehearse_kit.Engine.Transport.Keeping.{stop-IsSound}
use rehearse_kit.Engine.Plan.Validity.{plan_start}
use rehearse_kit.Engine.Transport.Sound.{IsSound, set_rings-is_some}
use rehearse_kit.Engine.Transport.Stream.{flushed}
use rehearse_kit.Engine.Transport.Control.{
  stop, play, halt_stream, current_frame, play_frame, start_from,
}
use rehearse_kit.Common.{
  arith, false, is_some, leb, ok, refl, some, subst, true, ℕ, ◌+◌, ◌<◌, ◌∙◌, ◌≡◌,
}
use rehearse_kit.Engine.Transport.{
  EngineState, RingControl, StreamControl, Engine, is_playing, is_waiting, PlayPlan, song_frame_at,
  has_finished, ring_stopped,
}

module _ {R S : Type 0} (rc : RingControl R) (sc : StreamControl S) where
  -- What `stop` leaves of a transport that plays, and what `play` makes of that.
  stopped_at : Engine R S → ℕ → Engine R S
  stopped_at e frame = record (halt_stream rc sc e) {
    anchor_frame = frame;
    state = EngineState.stopped;
  }

  stop_playing :
      (e : Engine R S) (p : PlayPlan) (r : R)
      → e.state ≡ EngineState.playing
      → e.context ≡ true
      → e.plan ≡ some p
      → e.rings ≡ some r
      → stop rc sc e ≡ stopped_at e (song_frame_at p (rc.read_pos r))
  unfolding stop is_waiting stopped_at current_frame is_playing halt_stream
  stop_playing e p r st c q h = simp (c, h, st, q) refl

  play_stopped :
      (e : Engine R S) (frame : ℕ)
      → e.context ≡ true
      → is_some e.rings ≡ true
      → frame < e.total_frames
      → play rc sc (stopped_at e frame) ≡ ok (start_from rc sc (stopped_at e frame) frame)
  unfolding play stopped_at halt_stream is_playing play_frame has_finished
  play_stopped e frame c r b =
      let r' = set_rings-is_some rc sc e.rings ring_stopped ∙ r in
      let inside : leb e.total_frames frame ≡ false = ground arith in simp (c, r', inside) refl

  -- A sound transport in the state playing, with its plan and rings and a frame before the end
  -- of the song, is not refused by play after stop, and the acknowledgement of that flush makes
  -- a plan that starts at the frame that was heard when it stopped.
  pub stop-play :
      (e : Engine R S) (p : PlayPlan) (r : R)
      → IsSound rc sc e
      → e.state ≡ EngineState.playing
      → e.plan ≡ some p
      → e.rings ≡ some r
      → song_frame_at p (rc.read_pos r) < e.total_frames
      → (e' : Engine R S) × (play rc sc (stop rc sc e) ≡ ok e')
        × (plan_start (flushed rc sc e' (e.generation + 1 + 1)).plan
            ≡ some (song_frame_at p (rc.read_pos r)))
  unfolding is_playing stopped_at halt_stream
  stop-play e p r v st q h b =
      let f = song_frame_at p (rc.read_pos r) in
      let (n, there, c) = v.equipped (rw st refl) in
      let w : IsSound rc sc (stopped_at e f) =
        subst (IsSound rc sc) (stop_playing e p r st c q h) (stop-IsSound rc sc e v) in
      (
        start_from rc sc (stopped_at e f) f,
        rw (stop_playing e p r st c q h) (play_stopped e f c there b),
        flushed-start rc sc f (e.generation + 1 + 1) _ (
            started-IsAwaiting rc sc (stopped_at e f) f w n
              (set_rings-is_some rc sc e.rings ring_stopped ∙ there) c (omega arith)),
      )
