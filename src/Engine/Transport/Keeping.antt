-- ===== src/Engine/Transport/Keeping.antt =====
-- Every operation of the transport keeps it sound.
use rehearse_kit.Engine.Transport.Stream.{fail, next_plan}
use rehearse_kit.Engine.Transport.Control.{
  stop, init_made, init_resumed, seek, return_to_start, play_frame, play, store_region,
  set_loop_enabled, set_loop_region, set_loop, current_frame, halt_stream, engage,
}
use rehearse_kit.Engine.Plan.Validity.{validate_loop-bounds}
use rehearse_kit.Engine.Transport.Sound.{
  IsSound, InFile, halted-IsSound, sounding-is_playing, start_from-IsSound, current_frame-le,
  replan-IsSound,
}
use rehearse_kit.Common.{
  Bool, Bool-cases, List, Option, Option-cases, arith, false, if_both, if◌then◌else◌, inl, inr,
  is_some, none, not, ok, refl, some, subst, true, ℕ, ◌||◌, ◌∙◌, ◌≡◌, ◌≤◌, err_no_ok, ok_inj, sym,
  ◌&&◌,
}
use rehearse_kit.Engine.Transport.{
  EngineState, clamp_frame, RingControl, ℤ, StreamControl, pos, is_playing, Engine, negsuc,
  is_sounding, is_waiting, has_finished, LoopRange, nonneg, make_plan, LoopRequest, validate_loop,
  min_loop_frames,
}

pub clamp_frame-le : (frame : ℤ) (total : ℕ) → clamp_frame frame total ≤ total
unfolding clamp_frame
clamp_frame-le (pos n) total = omega arith
clamp_frame-le (negsuc n) total = omega arith

module _ {R S : Type 0} (rc : RingControl R) (sc : StreamControl S) where
  pub stop-IsSound : (e : Engine R S) → IsSound rc sc e → IsSound rc sc (stop rc sc e)
  unfolding stop is_playing is_sounding
  stop-IsSound e v =
      if_both (IsSound rc sc) (not e.context || not (is_some e.rings) || is_waiting e.state) _ _ v (
        halted-IsSound rc sc e (current_frame rc sc e) EngineState.stopped v
          (current_frame-le rc sc e v) refl refl)

  pub fail-IsSound :
      (e : Engine R S) (message : ℕ) → IsSound rc sc e → IsSound rc sc (fail rc sc e message)
  unfolding fail halt_stream is_playing is_sounding
  fail-IsSound e message v =
      let w = halted-IsSound rc sc e e.anchor_frame EngineState.error v v.anchored refl refl in
      record {
        equipped = w.equipped;
        together = w.together;
        flushing = w.flushing;
        ticking = w.ticking;
        anchored = w.anchored;
        looped = w.looped;
        in_file = w.in_file;
        sounding = w.sounding;
        plan_valid = w.plan_valid;
        planned = w.planned;
      }

  pub not_flushing :
      (e : Engine R S) → IsSound rc sc e → is_playing e.state ≡ false → e.pending_flush ≡ none
  unfolding is_playing
  not_flushing e v p = elim (Option-cases e.pending_flush) [
    | inl q ↦ q
    | inr (g, q) ↦ absurd (playing_now (rw ((v.flushing g q).1) at p))
  ]
    where
      playing_now : true ≡ false → ⊥
      playing_now h = cc

  pub not_playing :
      (e : Engine R S) → IsSound rc sc e → e.context ≡ false → is_playing e.state ≡ false
  not_playing e v c = elim (Bool-cases (is_playing e.state)) [
    | inl p ↦ let q = v.equipped p in absurd cc
    | inr p ↦ p
  ]

  pub nothing_pending : {o : Option ℕ} {g : ℕ} → o ≡ none → o ≡ some g → ⊥
  nothing_pending h q = cc

  pub quiet : (e : Engine R S) → IsSound rc sc e → is_playing e.state ≡ false → e.audible ≡ false
  quiet e v p = elim (Bool-cases (is_sounding e.state)) [
    | inl q ↦ let p' = sounding-is_playing rc sc e.state q in absurd cc
    | inr q ↦ v.sounding ∙ q
  ]

  -- What `init` makes, while nothing plays.
  pub init_made-IsSound :
      (e : Engine R S) (r : R) (streamers : List S)
      → IsSound rc sc e
      → is_playing e.state ≡ false
      → IsSound rc sc (init_made rc sc e r streamers)
  unfolding init_made
  init_made-IsSound e r streamers v p = record {
    equipped = λ q. absurd cc;
    together = refl;
    flushing = λ g q. absurd (nothing_pending (not_flushing e v p) q);
    ticking = v.ticking;
    anchored = v.anchored;
    looped = v.looped;
    in_file = v.in_file;
    sounding = sym (quiet e v p) ∙ v.sounding;
    plan_valid = v.plan_valid;
    planned = λ q. absurd cc;
  }

  pub init_resumed-IsSound :
      (e : Engine R S)
      → IsSound rc sc e
      → is_playing e.state ≡ false
      → IsSound rc sc (init_resumed rc sc e)
  unfolding init_resumed is_playing is_sounding
  init_resumed-IsSound e v p = record {
    equipped = λ q. absurd cc;
    together = v.together;
    flushing = λ g q. absurd (nothing_pending (not_flushing e v p) q);
    ticking = v.ticking ∙ rw p refl;
    anchored = v.anchored;
    looped = v.looped;
    in_file = v.in_file;
    sounding = quiet e v p;
    plan_valid = v.plan_valid;
    planned = λ q. absurd cc;
  }

  -- What `seek` does to the state of a transport that does not play.
  pub sought-IsSound :
      (e : Engine R S) (frame : ℕ)
      → IsSound rc sc e
      → is_playing e.state ≡ false
      → frame ≤ e.total_frames
      → IsSound rc sc (record e {
        anchor_frame = frame;
        state = if has_finished e.state then EngineState.stopped else e.state;
      })
  unfolding is_playing is_sounding has_finished
  sought-IsSound e frame v p b = elim (Bool-cases (has_finished e.state)) [
    | inl f ↦ rw f (record {
      equipped = λ q. absurd cc;
      together = v.together;
      flushing = λ g q. absurd (nothing_pending (not_flushing e v p) q);
      ticking = v.ticking ∙ rw p refl;
      anchored = b;
      looped = v.looped;
      in_file = v.in_file;
      sounding = quiet e v p;
      plan_valid = v.plan_valid;
      planned = λ q. absurd cc;
    })
    | inr f ↦ rw f (record {
      equipped = v.equipped;
      together = v.together;
      flushing = v.flushing;
      ticking = v.ticking;
      anchored = b;
      looped = v.looped;
      in_file = v.in_file;
      sounding = v.sounding;
      plan_valid = v.plan_valid;
      planned = λ q. absurd cc;
    })
  ]

  pub seek-IsSound :
      (e : Engine R S) (frame : ℤ) → IsSound rc sc e → IsSound rc sc (seek rc sc e frame)
  unfolding seek
  seek-IsSound e frame v =
      let b = clamp_frame-le frame e.total_frames in
      elim (Bool-cases (is_playing e.state)) [
        | inl p ↦
            let (n, r, c) = v.equipped p in
            rw p (
              start_from-IsSound rc sc e (clamp_frame frame e.total_frames) n r c b v.looped
                v.in_file v.plan_valid)
        | inr p ↦ rw p (sought-IsSound e (clamp_frame frame e.total_frames) v p b)
      ]

  pub return_to_start-IsSound :
      (e : Engine R S) → IsSound rc sc e → IsSound rc sc (return_to_start rc sc e)
  unfolding return_to_start
  return_to_start-IsSound e v = seek-IsSound e _ v

  pub play_frame-le : (e : Engine R S) → IsSound rc sc e → play_frame rc sc e ≤ e.total_frames
  unfolding play_frame InFile
  play_frame-le e v =
      if_both (λ n. n ≤ e.total_frames) _ _ _ (from_loop e.loop_on e.region v.in_file) v.anchored
    where
      from_loop :
          (on : Bool) (l : Option LoopRange)
          → InFile l e.total_frames
          → elim (if on then l else none) [ none ↦ 0 | some r ↦ r.start ] ≤ e.total_frames
      from_loop false l i = omega arith
      from_loop true none i = omega arith
      from_loop true (some l) i = omega (arith, i)

  pub play-IsSound : (e e' : Engine R S) → IsSound rc sc e → play rc sc e ≡ ok e' → IsSound rc sc e'
  unfolding play
  play-IsSound e e' v h = elim (Bool-cases (not e.context || not (is_some e.rings))) [
    | inl c ↦ absurd (err_no_ok (rw c at h))
    | inr c ↦
        let there : e.context ≡ true = ground arith in
        elim (Bool-cases (is_playing e.state)) [
          | inl p ↦ subst (IsSound rc sc) (ok_inj (rw (c, p) at h)) v
          | inr p ↦ subst (IsSound rc sc) (ok_inj (rw (c, p) at h)) (
              start_from-IsSound rc sc (record e { anchor_frame = play_frame rc sc e })
                (play_frame rc sc e) (sym v.together ∙ there) (ground arith) there
                (play_frame-le e v) v.looped v.in_file v.plan_valid)
        ]
  ]

  pub store_region-IsSound :
      (e : Engine R S) (l : Option LoopRange)
      → IsSound rc sc e
      → InFile l e.total_frames
      → IsSound rc sc (store_region rc sc e l).0
  unfolding store_region
  store_region-IsSound e none v i = v
  store_region-IsSound e (some l) v i = elim (Bool-cases e.loop_on) [
    | inl o ↦ simp o (replan-IsSound rc sc e (some l) true v (λ _. refl) i)
    | inr o ↦
        let bare : next_plan rc sc e ≡ make_plan (nonneg e.anchor_frame 0) e.total_frames none =
          rw o refl in
        simp o (record {
          equipped = v.equipped;
          together = v.together;
          flushing = v.flushing;
          ticking = v.ticking;
          anchored = v.anchored;
          looped = λ q. absurd cc;
          in_file = i;
          sounding = v.sounding;
          plan_valid = v.plan_valid;
          planned = λ p n. v.planned p n ∙ bare;
        })
  ]

  pub set_loop_enabled-IsSound :
      (e : Engine R S) (on : Bool) → IsSound rc sc e → IsSound rc sc (set_loop_enabled rc sc e on)
  unfolding set_loop_enabled
  set_loop_enabled-IsSound e on v = elim (Bool-cases (on && is_some e.region)) [
    | inl h ↦
        rw (set_loop_enabled, h)
          (if_both (IsSound rc sc) e.loop_on _ _ v
            (replan-IsSound rc sc e e.region true v (λ _. ground arith) v.in_file))
    | inr h ↦
        rw (set_loop_enabled, h)
          (if_both (IsSound rc sc) e.loop_on _ _
            (replan-IsSound rc sc e e.region false v (λ q. absurd cc) v.in_file) v)
  ]

  pub set_loop_region-IsSound :
      (e : Engine R S) (range : LoopRequest)
      → IsSound rc sc e
      → IsSound rc sc (set_loop_region rc sc e range).0
  unfolding set_loop_region InFile
  set_loop_region-IsSound e range v =
      store_region-IsSound e (validate_loop (some range) e.total_frames min_loop_frames) v
        (validated (validate_loop (some range) e.total_frames min_loop_frames) refl)
    where
      validated :
          (l : Option LoopRange)
          → validate_loop (some range) e.total_frames min_loop_frames ≡ l
          → InFile l e.total_frames
      validated none q = tt
      validated (some l) q = validate_loop-bounds (some range) e.total_frames min_loop_frames q

  pub set_loop-IsSound :
      (e : Engine R S) (range : Option LoopRequest)
      → IsSound rc sc e
      → IsSound rc sc (set_loop rc sc e range).0
  unfolding set_loop InFile
  set_loop-IsSound e none v = replan-IsSound rc sc e none false v (λ q. absurd cc) tt
  set_loop-IsSound e (some range) v =
      engaged (set_loop_region rc sc e range) (set_loop_region-IsSound e range v)
    where
      engaged : (o : Engine R S × Bool) → IsSound rc sc o.0 → IsSound rc sc (engage rc sc o).0
      engaged (e', true) w = set_loop_enabled-IsSound e' true w
      engaged (e', false) w = w
