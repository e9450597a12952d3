-- ===== src/Engine/Transport/Session/Closing.antt =====
-- A transport that is being destroyed.
use rehearse_kit.Common.{sym, subst}
use rehearse_kit.Engine.Transport.Sound.{without_context}
use rehearse_kit.Engine.Transport.Keeping.{nothing_pending}
use rehearse_kit.Common.{
  Bool, List, Option, ◌≡◌, false, if_both, none, refl, some, true, ℕ, if◌then◌else◌, if◌then◌else◌,
}
use rehearse_kit.Engine.Transport.{RingControl, StreamControl, Engine, is_playing, is_sounding}
use rehearse_kit.Engine.Transport.Control.{post_flush, halt_stream}
use rehearse_kit.Engine.Transport.Stream.{fail, destroy_begun, destroy_closed}
use rehearse_kit.Engine.Transport.Events.{
  EngineEvent, timed_out, acknowledged, failed, rings_moved, streams_moved, engine_step, moved,
}
use rehearse_kit.Engine.Transport.Sound.{IsSound}
use rehearse_kit.Engine.Transport.Session.{is_ambient, IsClosing}
use rehearse_kit.Engine.Transport.Session.Idle.{flushed-none}

module _ {R S : Type 0} (rc : RingControl R) (sc : StreamControl S) where
  pub destroy_begun-IsClosing :
      (e : Engine R S) → IsSound rc sc e → IsClosing rc sc (destroy_begun rc sc e)
  unfolding destroy_begun halt_stream
  destroy_begun-IsClosing e v = record {
    no_node = refl;
    no_timer = refl;
    no_flush = refl;
    silent = silenced e.context refl;
    anchored = v.anchored;
    looped = v.looped;
    in_file = v.in_file;
    plan_valid = v.plan_valid;
  }
    where
      silenced : (c : Bool) → e.context ≡ c → (if c then false else e.audible) ≡ false
      silenced true q = refl
      silenced false q = without_context rc sc e v q

  pub destroy_closed-IsSound :
      (e : Engine R S) → IsClosing rc sc e → IsSound rc sc (destroy_closed rc sc e)
  unfolding destroy_closed is_playing is_sounding
  destroy_closed-IsSound e v = record {
    equipped = λ q. absurd cc;
    together = sym v.no_node;
    flushing = λ g q. absurd (nothing_pending rc sc v.no_flush q);
    ticking = v.no_timer;
    anchored = v.anchored;
    looped = v.looped;
    in_file = v.in_file;
    sounding = v.silent;
    plan_valid = v.plan_valid;
    planned = λ q. absurd cc;
  }

  fail-IsClosing :
      (e : Engine R S) (message : ℕ) → IsClosing rc sc e → IsClosing rc sc (fail rc sc e message)
  unfolding fail halt_stream
  fail-IsClosing e message v = record {
    no_node = v.no_node;
    no_timer = refl;
    no_flush = refl;
    silent = if_both (λ a. a ≡ false) e.context _ _ refl v.silent;
    anchored = v.anchored;
    looped = v.looped;
    in_file = v.in_file;
    plan_valid = v.plan_valid;
  }

  -- With the rings, the streams or the posted flushes changed.
  same-IsClosing :
      (e : Engine R S) (rings : Option R) (streamers : List S) (posted : List ℕ)
      → IsClosing rc sc e
      → IsClosing rc sc (record e { rings = rings; streamers = streamers; posted = posted })
  same-IsClosing e rings streamers posted v = record {
    no_node = v.no_node;
    no_timer = v.no_timer;
    no_flush = v.no_flush;
    silent = v.silent;
    anchored = v.anchored;
    looped = v.looped;
    in_file = v.in_file;
    plan_valid = v.plan_valid;
  }

  pub step-IsClosing :
      (e : Engine R S) (x : EngineEvent R S)
      → IsClosing rc sc e
      → is_ambient rc sc x ≡ true
      → IsClosing rc sc (engine_step rc sc e x)
  unfolding engine_step is_ambient post_flush
  step-IsClosing e EngineEvent.ticked v k = simp v.no_timer v
  step-IsClosing e (timed_out g) v k =
      if_both (IsClosing rc sc) _ _ _ v (same-IsClosing e e.rings e.streamers _ v)
  step-IsClosing e (acknowledged g) v k =
      subst (IsClosing rc sc) (sym (flushed-none rc sc e g v.no_flush)) v
  step-IsClosing e (failed message) v k = fail-IsClosing e message v
  step-IsClosing e (rings_moved r) v k = go e.rings
    where
      go : (o : Option R) → IsClosing rc sc (moved rc sc e o r)
      go none = v
      go (some _) = same-IsClosing e (some r) e.streamers e.posted v
  step-IsClosing e (streams_moved streamers) v k = same-IsClosing e e.rings streamers e.posted v
  step-IsClosing e _ v k = absurd cc
