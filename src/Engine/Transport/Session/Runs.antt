-- ===== src/Engine/Transport/Session/Runs.antt =====
-- Every run keeps what holds in the phase that it is in.
use rehearse_kit.Engine.Transport.Playing.{engine_step-IsSound}
use rehearse_kit.Common.{arith}
use rehearse_kit.Engine.Transport.Keeping.{not_playing, init_resumed-IsSound, init_made-IsSound}
use rehearse_kit.Common.{Bool-cases, List, [], ◌∷◌, ◌≡◌, inl, inr, refl, true, ℕ}
use rehearse_kit.Engine.Transport.{RingControl, StreamControl, Engine, is_playing, is_sounding}
use rehearse_kit.Engine.Transport.Control.{init_made, new_engine}
use rehearse_kit.Engine.Transport.Events.{EngineEvent, made, engine_step, is_steady, run_engine}
use rehearse_kit.Engine.Transport.Sound.{IsSound, InFile}
use rehearse_kit.Engine.Transport.Session.{
  Phase, next_phase, is_allowed, Awaits, last_phase, Idles, IsSession,
}
use rehearse_kit.Engine.Transport.Session.Idle.{step-Idles}
use rehearse_kit.Engine.Transport.Session.Closing.{
  destroy_begun-IsClosing, destroy_closed-IsSound, step-IsClosing,
}

module _ {R S : Type 0} (rc : RingControl R) (sc : StreamControl S) where
  settled_step :
      (e : Engine R S) (x : EngineEvent R S)
      → IsSound rc sc e
      → is_allowed rc sc Phase.settled x ≡ true
      → IsSession rc sc (next_phase rc sc Phase.settled e x) (engine_step rc sc e x)
  unfolding IsSession next_phase is_allowed engine_step is_steady
  settled_step e EngineEvent.init_called v k = elim (Bool-cases e.context) [
    | inl c ↦ simp c v
    | inr c ↦ simp c (v, record { quiet = not_playing rc sc e v c })
  ]
  settled_step e EngineEvent.destroy_called v k = destroy_begun-IsClosing rc sc e v
  settled_step e x v k = engine_step-IsSound rc sc e x k v

  opening_step :
      (e : Engine R S) (x : EngineEvent R S)
      → IsSound rc sc e
      → Idles rc sc e
      → is_allowed rc sc Phase.opening x ≡ true
      → IsSession rc sc (next_phase rc sc Phase.opening e x) (engine_step rc sc e x)
  unfolding IsSession next_phase is_allowed engine_step is_steady init_made
  opening_step e (made r streamers) v p k =
      (init_made-IsSound rc sc e r streamers v p.quiet, record { quiet = p.quiet })
  opening_step e EngineEvent.pressed_play v p k = absurd cc
  opening_step e EngineEvent.resumed v p k = absurd cc
  opening_step e x v p k = (engine_step-IsSound rc sc e x k v, step-Idles rc sc e x v p k)

  resuming_step :
      (e : Engine R S) (x : EngineEvent R S)
      → IsSound rc sc e
      → Idles rc sc e
      → is_allowed rc sc Phase.resuming x ≡ true
      → IsSession rc sc (next_phase rc sc Phase.resuming e x) (engine_step rc sc e x)
  unfolding IsSession next_phase is_allowed engine_step is_steady
  resuming_step e EngineEvent.resumed v p k = init_resumed-IsSound rc sc e v p.quiet
  resuming_step e EngineEvent.pressed_play v p k = absurd cc
  resuming_step e x v p k = (engine_step-IsSound rc sc e x k v, step-Idles rc sc e x v p k)

  step-IsSession :
      (phase : Phase) (e : Engine R S) (x : EngineEvent R S)
      → IsSession rc sc phase e
      → is_allowed rc sc phase x ≡ true
      → IsSession rc sc (next_phase rc sc phase e x) (engine_step rc sc e x)
  unfolding IsSession next_phase is_allowed engine_step
  step-IsSession Phase.settled e x v k = settled_step e x v k
  step-IsSession Phase.opening e x v k = opening_step e x v.0 v.1 k
  step-IsSession Phase.resuming e x v k = resuming_step e x v.0 v.1 k
  step-IsSession Phase.closing e EngineEvent.closed v k = destroy_closed-IsSound rc sc e v
  step-IsSession Phase.closing e x v k = step-IsClosing rc sc e x v k

  run-IsSession :
      (xs : List (EngineEvent R S)) (phase : Phase) (e : Engine R S)
      → IsSession rc sc phase e
      → Awaits rc sc phase e xs
      → IsSession rc sc (last_phase rc sc phase e xs) (run_engine rc sc e xs)
  unfolding Awaits last_phase
  run-IsSession [] phase e v k = v
  run-IsSession (x ∷ xs) phase e v k =
      run-IsSession xs (next_phase rc sc phase e x) (engine_step rc sc e x)
        (step-IsSession phase e x v k.0) k.1

  -- After any sequence of calls, timers, acknowledgements, failures and moves of the rings and
  -- streams, where the page awaits init and destroy (play is not called while init is awaited,
  -- nothing while destroy is, and neither of the two while one of them is): between calls, and
  -- while init is awaited, the transport is sound, which is that it plays only with a context, a
  -- node and rings; a flush is pending only for the current generation and while priming; the
  -- interval runs exactly while it plays with no flush pending; the anchor, the stored loop and
  -- the plan lie inside the song; a loop is on only with a region; the master is open exactly in
  -- the state playing; and a plan that plays is the one that the anchor and the loop call for.
  -- While init is awaited it does not play, and while destroy is, it has no node, no interval
  -- and no pending flush, and the master is shut.
  pub run_engine-IsSession :
      (total min_fill : ℕ) (xs : List (EngineEvent R S))
      → Awaits rc sc Phase.settled (new_engine rc sc total min_fill) xs
      → IsSession rc sc
          (last_phase rc sc Phase.settled (new_engine rc sc total min_fill) xs)
          (run_engine rc sc (new_engine rc sc total min_fill) xs)
  unfolding IsSession new_engine is_playing is_sounding InFile
  run_engine-IsSession total min_fill xs k =
      run-IsSession xs Phase.settled (new_engine rc sc total min_fill) new_sound k
    where
      new_sound : IsSession rc sc Phase.settled (new_engine rc sc total min_fill)
      new_sound = record {
        equipped = λ q. absurd cc;
        together = refl;
        flushing = λ g q. absurd cc;
        ticking = refl;
        anchored = omega arith;
        looped = λ q. absurd cc;
        in_file = tt;
        sounding = refl;
        plan_valid = λ p q. absurd cc;
        planned = λ q. absurd cc;
      }
