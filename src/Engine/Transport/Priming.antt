-- ===== src/Engine/Transport/Priming.antt =====
-- When a transport that is priming comes to play.
use rehearse_kit.Common.{
  Option, Option-cases, Bool, [], ap, arith, false, if◌then◌else◌, inl, inr, is_some, ltb, min, map,
  none, refl, some, sym, true, ℕ, ◌+◌, ◌-◌, ◌≤◌, ◌∙◌, ◌∷◌, ◌≡◌, ◌||◌, some_inj, ◌/◌,
}
use native.Mathlib.Nat.{div-one}
use rehearse_kit.Engine.Number.{clamp_floor, nonneg}
use rehearse_kit.Engine.Plan.{
  LoopRange, make_plan, choose_plan, straight_plan, looping_plan, validate_loop, validate_ends,
  min_loop_frames,
}
use rehearse_kit.Engine.Plan.Validity.{plan_start, make_plan-start}
use rehearse_kit.Engine.Transport.Sound.{IsSound, InFile}
use rehearse_kit.Engine.Transport.Stream.{
  tick, next_plan, tick_with, needed, begin_playing, finish_playing, all_eof,
}
use rehearse_kit.Engine.Transport.Control.{loop_range}
use rehearse_kit.Engine.Transport.{
  EngineState, pos, negsuc, RingControl, StreamControl, reaches, Engine, is_playing, ℤ, RingState,
  PlayPlan, is_sounding, is_priming, ring_playing, as_request,
}
use rehearse_kit.Engine.Transport.Events.{EngineEvent, rings_moved, engine_step, run_engine}

-- The frames from `anchor` to the end of the song; `none` is a loop that ends ahead of it.
unfoldable pub rest_of : Option LoopRange → ℕ → ℕ → Option ℕ
rest_of none anchor total = some (total - anchor)
rest_of (some l) anchor total = if ltb anchor l.end then none else some (total - anchor)

unfoldable pub reaches_rest : ℤ → Option ℕ → Bool
reaches_rest x none = false
reaches_rest x (some n) = reaches x n

reaches-min : (x : ℤ) (a b : ℕ) → reaches x (min a b) ≡ (reaches x a || reaches x b)
unfolding reaches
reaches-min (negsuc x) a b = refl
reaches-min (pos x) a b = ground arith

-- A loop inside the file is taken as it is.
validate_loop-same :
    (l : Option LoopRange) (total : ℕ)
    → InFile l total
    → validate_loop (as_request l) total min_loop_frames ≡ l
unfolding validate_loop InFile clamp_floor validate_ends
validate_loop-same none total i = refl
validate_loop-same (some l) total i =
    let start : min (l.start / 1) total ≡ l.start =
      ap (λ n. min n total) (div-one l.start) ∙ omega (arith, i) in
    let end : min (l.end / 1) total ≡ l.end =
      ap (λ n. min n total) (div-one l.end) ∙ omega (arith, i) in
    let long : ltb l.end (l.start + min_loop_frames) ≡ false = ground (arith, i) in
    rw (start, end) (rw long refl)

choose_plan-length :
    (start total : ℕ) (l : Option LoopRange)
    → (choose_plan start total l).stream_length ≡ rest_of l start total
unfolding choose_plan rest_of straight_plan looping_plan
choose_plan-length start total none = refl
choose_plan-length start total (some l) = ground arith

make_plan-length :
    (start total : ℕ) (l : Option LoopRange) {p : PlayPlan}
    → start ≤ total
    → InFile l total
    → make_plan (nonneg start 0) total (as_request l) ≡ some p
    → p.stream_length ≡ rest_of l start total
unfolding make_plan clamp_floor
make_plan-length start total l {p} b i h =
    let at : min (start / 1) total ≡ start =
      ap (λ n. min n total) (div-one start) ∙ omega (arith, b) in
    sym (ap (λ q. q.stream_length) (some_inj h))
    ∙ choose_plan-length (min (start / 1) total) total
        (validate_loop (as_request l) total min_loop_frames)
    ∙ rw (at, validate_loop-same l total i) refl

module _ {R S : Type 0} (rc : RingControl R) (sc : StreamControl S) where
  -- The rings hold `min_fill` frames, or all that is left of the song, or every stream has come to
  -- its end.
  unfoldable pub is_enough : Engine R S → R → Bool
  is_enough e r =
      (reaches (rc.min_buffered r) e.min_fill
        || reaches_rest (rc.min_buffered r)
            (rest_of (loop_range rc sc e) e.anchor_frame e.total_frames))
      || all_eof rc sc (map sc.tick_stream e.streamers)

  reaches-needed :
      (x : ℤ) (e : Engine R S) (p : PlayPlan)
      → reaches x (needed rc sc e p) ≡ (reaches x e.min_fill || reaches_rest x p.stream_length)
  unfolding reaches_rest
  reaches-needed x e p = go p.stream_length
    where
      go :
          (o : Option ℕ)
          → reaches x (elim o [ none ↦ e.min_fill | some n ↦ min e.min_fill n ])
            ≡ (reaches x e.min_fill || reaches_rest x o)
      go none = ground arith
      go (some n) = reaches-min x e.min_fill n

  plan_there : (e : Engine R S) → e.plan ≡ next_plan rc sc e → is_some e.plan ≡ true
  plan_there e h = go e.plan (ap plan_start h ∙ make_plan-start _ _ _)
    where
      go : {n : ℕ} (o : Option PlayPlan) → plan_start o ≡ some n → is_some o ≡ true
      go none q = absurd cc
      go (some p) q = refl

  loop_range-InFile :
      (e : Engine R S) → IsSound rc sc e → InFile (loop_range rc sc e) e.total_frames
  unfolding InFile
  loop_range-InFile e v = go e.loop_on
    where
      go : (on : Bool) → InFile (if on then e.region else none) e.total_frames
      go true = v.in_file
      go false = tt

  ticked_once :
      (e : Engine R S) (p : PlayPlan) (r r' : R) (b : Bool)
      → ((x : R) (st : RingState) → rc.has_ended (rc.set_ring_state x st) ≡ rc.has_ended x)
      → (e.state ≡ EngineState.priming)
        × (e.timer ≡ true)
        × (e.context ≡ true)
        × (e.audible ≡ false)
      → (e.plan ≡ some p) × (e.rings ≡ some r')
      → (reaches (rc.min_buffered r) (needed rc sc e p)
          || all_eof rc sc (map sc.tick_stream e.streamers))
        ≡ b
      → rc.has_ended r ≡ false
      → let s = run_engine rc sc e (rings_moved r ∷ EngineEvent.ticked ∷ []) in
        (s.state ≡ (if b then EngineState.playing else EngineState.priming)) × (s.audible ≡ b)
  unfolding engine_step tick tick_with begin_playing finish_playing is_playing is_sounding
      is_priming
  ticked_once e p r r' true law (st, t, c, a) (q, h) b o =
      let over : rc.has_ended (rc.set_ring_state r ring_playing) ≡ false = law r ring_playing ∙ o in
      simp (h, t, st, q, c, b, over) (refl, refl)
  ticked_once e p r r' false law (st, t, c, a) (q, h) b o = simp (h, t, st, q, b, a) (refl, refl)

  -- A sound transport that is priming with no flush pending, with rings that have not ended and
  -- whose flag of the end is not changed by setting their state, plays and opens the master at
  -- the next tick exactly where the rings hold minFill frames, or hold as many frames as are
  -- left of the song from the anchor with no loop that ends ahead of it, or every stream has
  -- come to its end; else it stays priming and shut.
  pub starts_playing :
      (e : Engine R S) (r : R)
      → ((x : R) (st : RingState) → rc.has_ended (rc.set_ring_state x st) ≡ rc.has_ended x)
      → IsSound rc sc e
      → e.state ≡ EngineState.priming
      → e.pending_flush ≡ none
      → rc.has_ended r ≡ false
      → let s = run_engine rc sc e (rings_moved r ∷ EngineEvent.ticked ∷ []) in
        (s.state ≡ (if is_enough e r then EngineState.playing else EngineState.priming))
        × (s.audible ≡ is_enough e r)
  unfolding is_playing is_enough is_sounding
  starts_playing e r law v st n o =
      let now : is_playing e.state ≡ true = rw st refl in
      let (_, there, c) = v.equipped now in
      let t : e.timer ≡ true = v.ticking ∙ rw (st, n) refl in
      let a : e.audible ≡ false = v.sounding ∙ rw st refl in
      let planned = plan_there e (v.planned now n) in
      elim (Option-cases e.rings) [
        | inl h ↦ absurd (ground arith)
        | inr (r', h) ↦ elim (Option-cases e.plan) [
          | inl q ↦ absurd (ground arith)
          | inr (p, q) ↦
              let long : p.stream_length
                  ≡ rest_of (loop_range rc sc e) e.anchor_frame e.total_frames =
                make_plan-length e.anchor_frame e.total_frames (loop_range rc sc e) v.anchored
                  (loop_range-InFile e v) (sym (v.planned now n) ∙ q) in
              ticked_once e p r r' _ law (st, t, c, a) (q, h)
                (ap (λ b. b || all_eof rc sc (map sc.tick_stream e.streamers))
                  (reaches-needed (rc.min_buffered r) e p
                    ∙ ap
                        (λ l.
                          reaches (rc.min_buffered r) e.min_fill
                          || reaches_rest (rc.min_buffered r) l)
                        long))
                o
        ]
      ]
