-- ===== src/Engine/Transport/Seeking.antt =====
-- What a seek, a stop and a start lead to, once the worklet and the streams have answered.
use rehearse_kit.Engine.Transport.Control.{start_from, seek, halt_stream, post_flush, loop_range}
use rehearse_kit.Engine.Transport.Stream.{
  begin_playing, finish_playing, tick_with, tick, flushed, flushed_with, prime,
}
use rehearse_kit.Engine.Transport.Events.{
  is_steady, EngineEvent, timed_out, acknowledged, rings_moved, streams_moved, engine_step,
  run_engine, moved,
}
use rehearse_kit.Engine.Transport.Keeping.{clamp_frame-le}
use rehearse_kit.Engine.Transport.Playing.{engine_step-IsSound}
use rehearse_kit.Engine.Plan.Validity.{plan_start, make_plan-start}
use rehearse_kit.Engine.Transport.Sound.{IsSound, start_from-IsSound}
use rehearse_kit.Common.{
  All, List, Option, [], ap, false, if_both, none, refl, some, true, ℕ, ◌+◌, ◌==◌, ◌∙◌, ◌∷◌, ◌≡◌,
  ==_refl, Bool, arith, is_some, map, ◌≤◌,
}
use rehearse_kit.Engine.Transport.{
  RingControl, StreamControl, Engine, is_sounding, is_playing, ℤ, clamp_frame, PlayPlan, is_flush,
  as_request,
}

module _ {R S : Type 0} (rc : RingControl R) (sc : StreamControl S) where
  -- What may happen while a flush is awaited: everything that the page does not do itself, but
  -- for the failure of a stream and the acknowledgement that is awaited.
  unfoldable pub Quiet : ℕ → EngineEvent R S → Type 0
  Quiet gen (timed_out g) = Unit
  Quiet gen (acknowledged g) = (g == gen) ≡ false
  Quiet gen (rings_moved r) = Unit
  Quiet gen (streams_moved streamers) = Unit
  Quiet gen EngineEvent.ticked = Unit
  Quiet gen _ = ⊥

  -- A transport that waits for its flush, to play from `frame`.
  pub record IsAwaiting (frame gen : ℕ) (e : Engine R S) : Type 0 where
    pub sound : IsSound rc sc e
    pub awaited : e.pending_flush ≡ some gen
    pub at_frame : e.anchor_frame ≡ frame

  pub silent_until :
      (frame gen : ℕ) (e : Engine R S)
      → IsAwaiting frame gen e
      → (e.audible ≡ false) × (e.timer ≡ false)
  unfolding is_sounding is_playing
  silent_until frame gen e v =
      let (g, p) = v.sound.flushing gen v.awaited in
      (v.sound.sounding ∙ ap is_sounding p, v.sound.ticking ∙ rw (p, v.awaited) refl)

  -- That flush and the frame stay.
  Same : Engine R S → Engine R S → Type 0
  Same e s = (s.pending_flush ≡ e.pending_flush) × (s.anchor_frame ≡ e.anchor_frame)

  Quiet-Same :
      (frame gen : ℕ) (e : Engine R S) (x : EngineEvent R S)
      → IsAwaiting frame gen e
      → Quiet gen x
      → Same e (engine_step rc sc e x)
  unfolding Quiet engine_step Same post_flush flushed
  Quiet-Same frame gen e (timed_out g) v q = if_both (Same e) _ _ _ (refl, refl) (refl, refl)
  Quiet-Same frame gen e (acknowledged g) v q =
      let h = (v.sound.flushing gen v.awaited).0 in
      let other : (g == e.generation) ≡ false = rw h at q in rw other (refl, refl)
  Quiet-Same frame gen e (rings_moved r) v q = go e.rings
    where
      go : (o : Option R) → Same e (moved rc sc e o r)
      go none = (refl, refl)
      go (some _) = (refl, refl)
  Quiet-Same frame gen e (streams_moved streamers) v q = (refl, refl)
  Quiet-Same frame gen e EngineEvent.ticked v q =
      let t = (silent_until frame gen e v).1 in rw t (refl, refl)
  Quiet-Same frame gen e _ v q = absurd q

  Quiet-is_steady : (gen : ℕ) (x : EngineEvent R S) → Quiet gen x → is_steady x ≡ true
  unfolding Quiet is_steady
  Quiet-is_steady gen (timed_out g) q = refl
  Quiet-is_steady gen (acknowledged g) q = refl
  Quiet-is_steady gen (rings_moved r) q = refl
  Quiet-is_steady gen (streams_moved streamers) q = refl
  Quiet-is_steady gen EngineEvent.ticked q = refl
  Quiet-is_steady gen _ q = absurd q

  Quiet-step :
      (frame gen : ℕ) (e : Engine R S) (x : EngineEvent R S)
      → IsAwaiting frame gen e
      → Quiet gen x
      → IsAwaiting frame gen (engine_step rc sc e x)
  unfolding Same
  Quiet-step frame gen e x v q =
      let (a, f) = Quiet-Same frame gen e x v q in
      record {
        sound = engine_step-IsSound rc sc e x (Quiet-is_steady gen x q) v.sound;
        awaited = a ∙ v.awaited;
        at_frame = f ∙ v.at_frame;
      }

  Quiet-run :
      (frame gen : ℕ) (xs : List (EngineEvent R S)) (e : Engine R S)
      → IsAwaiting frame gen e
      → All (Quiet gen) xs
      → IsAwaiting frame gen (run_engine rc sc e xs)
  Quiet-run frame gen [] e v q = v
  Quiet-run frame gen (x ∷ xs) e v q =
      Quiet-run frame gen xs (engine_step rc sc e x) (Quiet-step frame gen e x v q.0) q.1

  begin_playing-plan :
      (e : Engine R S) (p : PlayPlan) (r : R) → (begin_playing rc sc e p r).plan ≡ e.plan
  unfolding begin_playing
  begin_playing-plan e p r = if_both (λ (s : Engine R S). s.plan ≡ e.plan) _ _ _ refl refl

  finish_playing-plan :
      (e : Engine R S) (is_over : Bool) → (finish_playing rc sc e is_over).plan ≡ e.plan
  unfolding finish_playing halt_stream
  finish_playing-plan e is_over = if_both (λ (s : Engine R S). s.plan ≡ e.plan) _ _ _ refl refl

  tick_with-plan :
      (e : Engine R S) (p : Option PlayPlan) (r : Option R) → (tick_with rc sc e p r).plan ≡ e.plan
  unfolding tick_with
  tick_with-plan e none none = refl
  tick_with-plan e none (some r) = refl
  tick_with-plan e (some p) none = refl
  tick_with-plan e (some p) (some r) =
      finish_playing-plan _ _
      ∙ begin_playing-plan (record e { streamers = map sc.tick_stream e.streamers }) p r

  tick-plan : (e : Engine R S) → (tick rc sc e).plan ≡ e.plan
  unfolding tick
  tick-plan e =
      if_both (λ (s : Engine R S). s.plan ≡ e.plan) (is_playing e.state) _ _
        (tick_with-plan e e.plan e.rings) refl

  pub flushed-start :
      (frame gen : ℕ) (e : Engine R S)
      → IsAwaiting frame gen e
      → plan_start (flushed rc sc e gen).plan ≡ some frame
  unfolding flushed flushed_with prime is_flush is_playing
  flushed-start frame gen e v =
      let (g, p) = v.sound.flushing gen v.awaited in
      let same : (gen == e.generation) ≡ true = ground arith in
      let own : (gen == gen) ≡ true = ==_refl gen in
      let (_, r, _) = v.sound.equipped (ap is_playing p) in
      simp (same, v.awaited, own) (go e.rings r)
    where
      go : (o : Option R) → is_some o ≡ true → plan_start (flushed_with rc sc e o).plan ≡ some frame
      go none r = absurd cc
      go (some r) _ =
          ap plan_start (tick-plan (prime rc sc e r))
          ∙ make_plan-start e.anchor_frame e.total_frames (as_request (loop_range rc sc e))
          ∙ ap some (omega (arith, v.sound.anchored, v.at_frame))

  pub started-IsAwaiting :
      (e : Engine R S) (frame : ℕ)
      → IsSound rc sc e
      → e.node ≡ true
      → is_some e.rings ≡ true
      → e.context ≡ true
      → frame ≤ e.total_frames
      → IsAwaiting frame (e.generation + 1) (start_from rc sc e frame)
  unfolding start_from
  started-IsAwaiting e frame v n r c b = record {
    sound = start_from-IsSound rc sc e frame n r c b v.looped v.in_file v.plan_valid;
    awaited = rw (n, r) refl;
    at_frame = rw (n, r) refl;
  }

  sought-IsAwaiting :
      (e : Engine R S) (frame : ℤ)
      → IsSound rc sc e
      → is_playing e.state ≡ true
      → IsAwaiting (clamp_frame frame e.total_frames) (e.generation + 1) (seek rc sc e frame)
  unfolding seek
  sought-IsAwaiting e frame v p =
      let (n, r, c) = v.equipped p in
      rw p (started-IsAwaiting e _ v n r c (clamp_frame-le frame e.total_frames))

  -- From a sound transport that plays, after a seek and any answers to earlier flushes,
  -- timeouts, ticks and moves of the rings and the streams the master is silent, and the
  -- acknowledgement of the seek's own flush makes a plan that starts at the frame sought, kept
  -- inside the song.
  pub last_seek_wins :
      (e : Engine R S) (frame : ℤ) (xs : List (EngineEvent R S))
      → IsSound rc sc e
      → is_playing e.state ≡ true
      → All (Quiet (e.generation + 1)) xs
      → ((run_engine rc sc (seek rc sc e frame) xs).audible ≡ false)
        × (plan_start
              (flushed rc sc (run_engine rc sc (seek rc sc e frame) xs) (e.generation + 1)).plan
            ≡ some (clamp_frame frame e.total_frames))
  last_seek_wins e frame xs v p q =
      let w =
        Quiet-run (clamp_frame frame e.total_frames) (e.generation + 1) xs (seek rc sc e frame)
          (sought-IsAwaiting e frame v p) q in
      ((silent_until _ _ _ w).0, flushed-start _ _ _ w)
