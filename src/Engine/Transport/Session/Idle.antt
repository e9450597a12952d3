-- ===== src/Engine/Transport/Session/Idle.antt =====
-- A transport that does not play stays so, but for `play`.
use rehearse_kit.Common.{◌&&◌, ◌==◌, sym, subst, not, ◌||◌}
use rehearse_kit.Engine.Transport.{is_waiting, ℤ, LoopRequest}
use rehearse_kit.Common.{
  Bool, Bool-cases, List, Option, ◌≡◌, ◌∙◌, false, if_both, inl, inr, none, refl, some, true, ℕ, ap,
  is_some, is_some,
}
use rehearse_kit.Engine.Transport.{
  EngineState, LoopRange, RingControl, StreamControl, Engine, is_playing, is_flush, has_finished, ℤ,
}
use rehearse_kit.Engine.Transport.Control.{
  init_resumed, stop, seek, return_to_start, replan, set_loop, set_loop_region, store_region,
  set_loop_enabled, engage, post_flush,
}
use rehearse_kit.Engine.Transport.Stream.{flushed, fail}
use rehearse_kit.Engine.Transport.Events.{
  EngineEvent, made, sought, loop_set, region_set, loop_switched, timed_out, acknowledged, failed,
  rings_moved, streams_moved, engine_step, moved, is_steady,
}
use rehearse_kit.Engine.Transport.Sound.{IsSound}
use rehearse_kit.Engine.Transport.Keeping.{not_flushing}
use rehearse_kit.Engine.Transport.Session.{Phase, is_allowed, Idles}

module _ {R S : Type 0} (rc : RingControl R) (sc : StreamControl S) where
  replan-Idles : (e : Engine R S) → Idles rc sc e → Idles rc sc (replan rc sc e)
  unfolding replan
  replan-Idles e p = rw p.quiet p

  seek-Idles : (e : Engine R S) (frame : ℤ) → Idles rc sc e → Idles rc sc (seek rc sc e frame)
  unfolding seek is_playing
  seek-Idles e frame p = rw p.quiet (record {
    quiet =
        if_both (λ st. is_playing st ≡ false) (has_finished e.state) EngineState.stopped e.state
          refl p.quiet;
  })

  stop-Idles : (e : Engine R S) → Idles rc sc e → Idles rc sc (stop rc sc e)
  unfolding stop is_playing
  stop-Idles e p =
      elim (Bool-cases (not e.context || not (is_some e.rings) || is_waiting e.state)) [
        | inl h ↦ rw h p
        | inr h ↦ rw h (record { quiet = refl })
      ]

  set_loop_enabled-Idles :
      (e : Engine R S) (on : Bool) → Idles rc sc e → Idles rc sc (set_loop_enabled rc sc e on)
  unfolding set_loop_enabled
  set_loop_enabled-Idles e on p = elim (Bool-cases (on && is_some e.region)) [
    | inl h ↦
        rw (set_loop_enabled, h)
          (if_both (Idles rc sc) e.loop_on _ _ p (replan-Idles _ (record { quiet = p.quiet })))
    | inr h ↦
        rw (set_loop_enabled, h)
          (if_both (Idles rc sc) e.loop_on _ _ (replan-Idles _ (record { quiet = p.quiet })) p)
  ]

  store_region-Idles :
      (e : Engine R S) (l : Option LoopRange)
      → Idles rc sc e
      → Idles rc sc (store_region rc sc e l).0
  unfolding store_region
  store_region-Idles e none p = p
  store_region-Idles e (some l) p =
      if_both (Idles rc sc) e.loop_on _ _ (replan-Idles _ (record { quiet = p.quiet }))
        (record { quiet = p.quiet })

  set_loop-Idles :
      (e : Engine R S) (range : Option LoopRequest)
      → Idles rc sc e
      → Idles rc sc (set_loop rc sc e range).0
  unfolding set_loop set_loop_region
  set_loop-Idles e none p = replan-Idles _ (record { quiet = p.quiet })
  set_loop-Idles e (some range) p =
      engaged (set_loop_region rc sc e range) (store_region-Idles e _ p)
    where
      engaged : (o : Engine R S × Bool) → Idles rc sc o.0 → Idles rc sc (engage rc sc o).0
      engaged (e', true) w = set_loop_enabled-Idles e' true w
      engaged (e', false) w = w

  posted-Idles :
      (e : Engine R S) (posted : List ℕ)
      → Idles rc sc e
      → Idles rc sc (record e { posted = posted })
  posted-Idles e posted p = record { quiet = p.quiet }

  pub moved-state : (e : Engine R S) (o : Option R) (r : R) → (moved rc sc e o r).state ≡ e.state
  moved-state e none r = refl
  moved-state e (some _) r = refl

  pub flushed-none : (e : Engine R S) (g : ℕ) → e.pending_flush ≡ none → flushed rc sc e g ≡ e
  unfolding flushed is_flush
  flushed-none e g n = elim (Bool-cases (g == e.generation)) [
    | inl h ↦ rw (h, n) refl
    | inr h ↦ rw h refl
  ]

  -- Nothing but `play` makes a quiet transport play.
  pub step-Idles :
      (e : Engine R S) (x : EngineEvent R S)
      → IsSound rc sc e
      → Idles rc sc e
      → is_allowed rc sc Phase.resuming x ≡ true
      → Idles rc sc (engine_step rc sc e x)
  unfolding engine_step is_allowed is_steady set_loop_region post_flush return_to_start fail
      init_resumed is_playing
  step-Idles e EngineEvent.init_called v p k = p
  step-Idles e (made r streamers) v p k = absurd cc
  step-Idles e EngineEvent.resumed v p k = record { quiet = refl }
  step-Idles e EngineEvent.destroy_called v p k = absurd cc
  step-Idles e EngineEvent.closed v p k = absurd cc
  step-Idles e EngineEvent.pressed_play v p k = absurd cc
  step-Idles e EngineEvent.pressed_stop v p k = stop-Idles e p
  step-Idles e EngineEvent.returned v p k = seek-Idles e _ p
  step-Idles e EngineEvent.ticked v p k =
      let t : e.timer ≡ false = v.ticking ∙ rw p.quiet refl in simp t p
  step-Idles e (sought frame) v p k = seek-Idles e frame p
  step-Idles e (loop_set range) v p k = set_loop-Idles e range p
  step-Idles e (region_set range) v p k = store_region-Idles e _ p
  step-Idles e (loop_switched on) v p k = set_loop_enabled-Idles e on p
  step-Idles e (timed_out g) v p k = if_both (Idles rc sc) _ _ _ p (posted-Idles e _ p)
  step-Idles e (acknowledged g) v p k =
      subst (Idles rc sc) (sym (flushed-none e g (not_flushing rc sc e v p.quiet))) p
  step-Idles e (failed message) v p k = record { quiet = refl }
  step-Idles e (rings_moved r) v p k = record {
    quiet = ap is_playing (moved-state e e.rings r) ∙ p.quiet;
  }
  step-Idles e (streams_moved streamers) v p k = record { quiet = p.quiet }
