-- ===== src/Engine/Transport/Playing.antt =====
-- The start and the end of the stream keep the transport sound, and so does every event but those of
-- `init` and `destroy`.
use rehearse_kit.Engine.Transport.Control.{loop_range, play}
use rehearse_kit.Engine.Transport.Stream.{
  prime, begin_playing, finish_playing, tick_with, tick, flushed, needed, flushed_with, all_eof,
}
use rehearse_kit.Engine.Transport.Events.{
  EngineEvent, sought, loop_set, region_set, loop_switched, timed_out, acknowledged, failed,
  rings_moved, streams_moved, engine_step, or_same, moved, is_steady,
}
use rehearse_kit.Engine.Transport.Keeping.{
  nothing_pending, play-IsSound, stop-IsSound, return_to_start-IsSound, seek-IsSound,
  set_loop-IsSound, set_loop_region-IsSound, set_loop_enabled-IsSound, fail-IsSound,
}
use native.Mathlib.Nat.{le_refl}
use rehearse_kit.Engine.Plan.Validity.{make_plan-IsValid, make_plan-total}
use rehearse_kit.Engine.Transport.Sound.{IsSound, halted-IsSound, post_flush-IsSound}
use rehearse_kit.Common.{
  Bool, Bool-cases, List, Option, arith, if_both, inl, inr, map, none, refl, some, true, ℕ, ◌&&◌,
  ◌||◌, ◌∙◌, ◌≡◌, Result, err, not, ok, ◌==◌, Option-cases,
}
use rehearse_kit.Engine.Transport.{
  EngineState, RingControl, StreamControl, is_priming, Engine, is_playing, PlayPlan, is_sounding,
  reaches, nonneg, as_request, is_flush, EngineError,
}

module _ {R S : Type 0} (rc : RingControl R) (sc : StreamControl S) where
  prime-IsSound :
      (e : Engine R S) (r : R)
      → IsSound rc sc e
      → e.state ≡ EngineState.priming
      → IsSound rc sc (prime rc sc e r)
  unfolding prime is_playing is_sounding
  prime-IsSound e r v p =
      let (n, _, c) = v.equipped (rw p refl) in
      record {
        equipped = λ q. (n, refl, c);
        together = v.together;
        flushing = λ g q. absurd cc;
        ticking = rw p refl;
        anchored = v.anchored;
        looped = v.looped;
        in_file = v.in_file;
        sounding = v.sounding;
        plan_valid = λ q w. (
          make_plan-IsValid (nonneg e.anchor_frame 0) e.total_frames
              (as_request (loop_range rc sc e)) w,
          (make_plan-total e.anchor_frame e.total_frames (as_request (loop_range rc sc e)) w).0,
        );
        planned = λ _ _. refl;
      }

  priming-is_playing : (st : EngineState) → is_priming st ≡ true → is_playing st ≡ true
  unfolding is_priming is_playing
  priming-is_playing EngineState.priming h = refl
  priming-is_playing _ h = absurd cc

  streamed-IsSound :
      (e : Engine R S) (streamers : List S)
      → IsSound rc sc e
      → IsSound rc sc (record e { streamers = streamers })
  streamed-IsSound e streamers v = record {
    equipped = v.equipped;
    together = v.together;
    flushing = v.flushing;
    ticking = v.ticking;
    anchored = v.anchored;
    looped = v.looped;
    in_file = v.in_file;
    sounding = v.sounding;
    plan_valid = v.plan_valid;
    planned = v.planned;
  }

  begin_playing-IsSound :
      (e : Engine R S) (p : PlayPlan) (r : R)
      → IsSound rc sc e
      → e.pending_flush ≡ none
      → IsSound rc sc (begin_playing rc sc e p r)
  unfolding begin_playing is_playing is_sounding is_priming
  begin_playing-IsSound e p r v n =
      elim (Bool-cases (
        is_priming e.state
        && (reaches (rc.min_buffered r) (needed rc sc e p) || all_eof rc sc e.streamers))) [
          | inr h ↦ rw h v
          | inl h ↦
              let now = priming-is_playing e.state (ground arith) in
              let (d, _, c) = v.equipped now in
              rw h (record {
                equipped = λ q. (d, refl, c);
                together = v.together;
                flushing = λ g q. absurd (nothing_pending rc sc n q);
                ticking = v.ticking ∙ rw now refl;
                anchored = v.anchored;
                looped = v.looped;
                in_file = v.in_file;
                sounding = rw c refl;
                plan_valid = v.plan_valid;
                planned = λ _ m. v.planned now m;
              })
        ]

  finish_playing-IsSound :
      (e : Engine R S) (is_over : Bool)
      → IsSound rc sc e
      → IsSound rc sc (finish_playing rc sc e is_over)
  unfolding finish_playing is_playing is_sounding
  finish_playing-IsSound e is_over v =
      if_both (IsSound rc sc) (is_sounding e.state && is_over) _ _
        (halted-IsSound rc sc e e.total_frames EngineState.ended v (le_refl e.total_frames) refl
          refl)
        v

  pub tick_with-IsSound :
      (e : Engine R S) (p : Option PlayPlan) (r : Option R)
      → IsSound rc sc e
      → e.pending_flush ≡ none
      → IsSound rc sc (tick_with rc sc e p r)
  unfolding tick_with
  tick_with-IsSound e none none v n = v
  tick_with-IsSound e none (some r) v n = v
  tick_with-IsSound e (some p) none v n = v
  tick_with-IsSound e (some p) (some r) v n = finish_playing-IsSound _ _ (
      begin_playing-IsSound (record e { streamers = map sc.tick_stream e.streamers }) p r
        (streamed-IsSound e (map sc.tick_stream e.streamers) v) n)

  tick-IsSound :
      (e : Engine R S) → IsSound rc sc e → e.pending_flush ≡ none → IsSound rc sc (tick rc sc e)
  unfolding tick
  tick-IsSound e v n =
      if_both (IsSound rc sc) (is_playing e.state) _ _ (tick_with-IsSound e e.plan e.rings v n) v

  not_flush : (g : ℕ) → is_flush none g ≡ true → ⊥
  unfolding is_flush
  not_flush g h = cc

  flushed-IsSound : (e : Engine R S) (g : ℕ) → IsSound rc sc e → IsSound rc sc (flushed rc sc e g)
  unfolding flushed flushed_with prime
  flushed-IsSound e g v =
      elim (Bool-cases (not (g == e.generation) || not (is_flush e.pending_flush g))) [
        | inl h ↦ rw h v
        | inr h ↦ rw h (go e.pending_flush e.rings refl (ground arith))
      ]
    where
      go :
          (o : Option ℕ) (r : Option R)
          → e.pending_flush ≡ o
          → is_flush o g ≡ true
          → IsSound rc sc (flushed_with rc sc e r)
      go none r q h = absurd (not_flush g h)
      go (some p) none q h = v
      go (some p) (some r) q h =
          tick-IsSound (prime rc sc e r) (prime-IsSound e r v (v.flushing p q).1) refl

  pub idle_flush : (e : Engine R S) → IsSound rc sc e → e.timer ≡ true → e.pending_flush ≡ none
  idle_flush e v t = elim (Option-cases e.pending_flush) [
    | inl q ↦ q
    | inr (g, q) ↦ absurd (ground (arith, rw (t, q) at v.ticking))
  ]

  pub engine_step-IsSound :
      (e : Engine R S) (x : EngineEvent R S)
      → is_steady x ≡ true
      → IsSound rc sc e
      → IsSound rc sc (engine_step rc sc e x)
  unfolding engine_step is_steady
  engine_step-IsSound e EngineEvent.pressed_play k v = played (play rc sc e) refl
    where
      played :
          (o : Result EngineError (Engine R S))
          → play rc sc e ≡ o
          → IsSound rc sc (or_same rc sc e o)
      played (ok e') q = play-IsSound rc sc e e' v q
      played (err _) q = v
  engine_step-IsSound e EngineEvent.pressed_stop k v = stop-IsSound rc sc e v
  engine_step-IsSound e EngineEvent.returned k v = return_to_start-IsSound rc sc e v
  engine_step-IsSound e EngineEvent.ticked k v = elim (Bool-cases e.timer) [
    | inl t ↦ simp t (tick-IsSound e v (idle_flush e v t))
    | inr t ↦ simp t v
  ]
  engine_step-IsSound e (sought frame) k v = seek-IsSound rc sc e frame v
  engine_step-IsSound e (loop_set range) k v = set_loop-IsSound rc sc e range v
  engine_step-IsSound e (region_set range) k v = set_loop_region-IsSound rc sc e range v
  engine_step-IsSound e (loop_switched on) k v = set_loop_enabled-IsSound rc sc e on v
  engine_step-IsSound e (timed_out g) k v = post_flush-IsSound rc sc e g v
  engine_step-IsSound e (acknowledged g) k v = flushed-IsSound e g v
  engine_step-IsSound e (failed message) k v = fail-IsSound rc sc e message v
  engine_step-IsSound e (rings_moved r) k v = moved_rings e.rings refl
    where
      moved_rings : (o : Option R) → e.rings ≡ o → IsSound rc sc (moved rc sc e o r)
      moved_rings none q = v
      moved_rings (some _) q = record {
        equipped = λ p. ((v.equipped p).0, refl, (v.equipped p).2);
        together = v.together;
        flushing = v.flushing;
        ticking = v.ticking;
        anchored = v.anchored;
        looped = v.looped;
        in_file = v.in_file;
        sounding = v.sounding;
        plan_valid = v.plan_valid;
        planned = v.planned;
      }
  engine_step-IsSound e (streams_moved streamers) k v = streamed-IsSound e streamers v
  engine_step-IsSound e _ k v = absurd cc
