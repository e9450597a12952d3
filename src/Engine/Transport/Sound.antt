-- ===== src/Engine/Transport/Sound.antt =====
-- What holds of the transport between any two events.
use rehearse_kit.Engine.Transport.Control.{
  set_rings, start_from, halt_stream, post_flush, heard_frame, current_frame, replan,
}
use rehearse_kit.Engine.Transport.Stream.{next_plan}
use rehearse_kit.Engine.Plan.Bytes.{song_frame_at-le}
use rehearse_kit.Engine.Plan.Validity.{IsValid}
use rehearse_kit.Common.{
  Option, is_some, none, not, refl, some, true, ℕ, ◌&&◌, ◌+◌, ◌≡◌, ◌≤◌, false, if_both, some_inj,
  sym, ◌∙◌, Bool, Bool-cases, if◌then◌else◌, inl, inr, subst,
}
use rehearse_kit.Engine.Transport.{
  EngineState, LoopRange, RingControl, min_loop_frames, StreamControl, Engine, is_playing,
  is_sounding, RingState, ring_stopped, song_frame_at, PlayPlan,
}

-- A loop inside the file.
unfoldable pub InFile : Option LoopRange → ℕ → Type 0
InFile none total = Unit {0}
InFile (some l) total = (l.start + min_loop_frames ≤ l.end) × (l.end ≤ total)

module _ {R S : Type 0} (rc : RingControl R) (sc : StreamControl S) where
  pub record IsSound (e : Engine R S) : Type 0 where
    pub equipped :
        is_playing e.state ≡ true → (e.node ≡ true) × (is_some e.rings ≡ true) × (e.context ≡ true)
    pub together : e.context ≡ e.node
    pub flushing :
        (g : ℕ) → e.pending_flush ≡ some g → (g ≡ e.generation) × (e.state ≡ EngineState.priming)
    pub ticking : e.timer ≡ (is_playing e.state && not (is_some e.pending_flush))
    pub anchored : e.anchor_frame ≤ e.total_frames
    pub looped : e.loop_on ≡ true → is_some e.region ≡ true
    pub in_file : InFile e.region e.total_frames
    pub sounding : e.audible ≡ is_sounding e.state
    pub plan_valid :
        (p : PlayPlan) → e.plan ≡ some p → IsValid p × (p.total_frames ≡ e.total_frames)
    pub planned : is_playing e.state ≡ true → e.pending_flush ≡ none → e.plan ≡ next_plan rc sc e

  pub set_rings-is_some :
      (o : Option R) (st : RingState) → is_some (set_rings rc sc o st) ≡ is_some o
  set_rings-is_some none st = refl
  set_rings-is_some (some r) st = refl

  pub start_from-IsSound :
      (e : Engine R S) (frame : ℕ)
      → e.node ≡ true
      → is_some e.rings ≡ true
      → e.context ≡ true
      → frame ≤ e.total_frames
      → (e.loop_on ≡ true → is_some e.region ≡ true)
      → InFile e.region e.total_frames
      → ((p : PlayPlan) → e.plan ≡ some p → IsValid p × (p.total_frames ≡ e.total_frames))
      → IsSound (start_from rc sc e frame)
  unfolding start_from halt_stream is_playing is_sounding
  start_from-IsSound e frame n r c b l i w =
      let same = set_rings-is_some e.rings ring_stopped in
      rw (n, r)
        (record {
          equipped = λ _. (refl, same ∙ r, c);
          together = c;
          flushing = λ g q. (sym (some_inj q), refl);
          ticking = refl;
          anchored = b;
          looped = l;
          in_file = i;
          sounding = rw c refl;
          plan_valid = w;
          planned = λ _ q. absurd cc;
        })

  pub sounding-is_playing : (st : EngineState) → is_sounding st ≡ true → is_playing st ≡ true
  unfolding is_sounding is_playing
  sounding-is_playing EngineState.playing h = refl
  sounding-is_playing _ h = absurd cc

  pub without_context : (e : Engine R S) → IsSound e → e.context ≡ false → e.audible ≡ false
  without_context e v c = elim (Bool-cases (is_sounding e.state)) [
    | inl q ↦ let p = v.equipped (sounding-is_playing e.state q) in absurd cc
    | inr q ↦ v.sounding ∙ q
  ]

  -- A transport that halts in a state in which nothing plays.
  pub halted-IsSound :
      (e : Engine R S) (frame : ℕ) (st : EngineState)
      → IsSound e
      → frame ≤ e.total_frames
      → is_playing st ≡ false
      → is_sounding st ≡ false
      → IsSound (record (halt_stream rc sc e) { anchor_frame = frame; state = st })
  unfolding halt_stream
  halted-IsSound e frame st v b p s = record {
    equipped = λ q. absurd cc;
    together = v.together;
    flushing = λ g q. absurd cc;
    ticking = rw p refl;
    anchored = b;
    looped = v.looped;
    in_file = v.in_file;
    sounding = silent e.context refl;
    plan_valid = v.plan_valid;
    planned = λ q. absurd cc;
  }
    where
      silent : (c : Bool) → e.context ≡ c → (if c then false else e.audible) ≡ is_sounding st
      silent true q = sym s
      silent false q = without_context e v q ∙ sym s

  pub post_flush-IsSound : (e : Engine R S) (g : ℕ) → IsSound e → IsSound (post_flush rc sc e g)
  unfolding post_flush
  post_flush-IsSound e g v = if_both IsSound _ _ _ v (record {
    equipped = v.equipped;
    together = v.together;
    flushing = v.flushing;
    ticking = v.ticking;
    anchored = v.anchored;
    looped = v.looped;
    in_file = v.in_file;
    sounding = v.sounding;
    plan_valid = v.plan_valid;
    planned = v.planned;
  })

  pub heard_frame-le :
      (e : Engine R S)
      → IsSound e
      → heard_frame rc sc e.plan e.rings e.anchor_frame ≤ e.total_frames
  heard_frame-le e v = heard e.plan e.rings refl
    where
      heard :
          (p : Option PlayPlan) (r : Option R)
          → e.plan ≡ p
          → heard_frame rc sc p r e.anchor_frame ≤ e.total_frames
      heard none none q = v.anchored
      heard none (some r) q = v.anchored
      heard (some p) none q = v.anchored
      heard (some p) (some r) q =
          let (w, t) = v.plan_valid p q in
          subst (λ n. song_frame_at p (rc.read_pos r) ≤ n) t (song_frame_at-le p (rc.read_pos r) w)

  pub current_frame-le : (e : Engine R S) → IsSound e → current_frame rc sc e ≤ e.total_frames
  unfolding current_frame
  current_frame-le e v =
      if_both (λ n. n ≤ e.total_frames) (is_playing e.state) _ _ (heard_frame-le e v) v.anchored

  -- A transport that plays on from another frame, perhaps with another loop.
  pub restarted-IsSound :
      (e : Engine R S) (frame : ℕ) (region : Option LoopRange) (on : Bool)
      → IsSound e
      → is_playing e.state ≡ true
      → frame ≤ e.total_frames
      → (on ≡ true → is_some region ≡ true)
      → InFile region e.total_frames
      → IsSound (start_from rc sc (record e { region = region; loop_on = on }) frame)
  restarted-IsSound e frame region on v p b l i =
      let (n, r, c) = v.equipped p in
      start_from-IsSound (record e { region = region; loop_on = on }) frame n r c b l i v.plan_valid

  -- A transport that does not play, with another loop.
  pub kept-IsSound :
      (e : Engine R S) (region : Option LoopRange) (on : Bool)
      → IsSound e
      → is_playing e.state ≡ false
      → (on ≡ true → is_some region ≡ true)
      → InFile region e.total_frames
      → IsSound (record e { region = region; loop_on = on })
  kept-IsSound e region on v p l i = record {
    equipped = v.equipped;
    together = v.together;
    flushing = v.flushing;
    ticking = v.ticking;
    anchored = v.anchored;
    looped = l;
    in_file = i;
    sounding = v.sounding;
    plan_valid = v.plan_valid;
    planned = λ q. absurd cc;
  }

  pub replan-IsSound :
      (e : Engine R S) (region : Option LoopRange) (on : Bool)
      → IsSound e
      → (on ≡ true → is_some region ≡ true)
      → InFile region e.total_frames
      → IsSound (replan rc sc (record e { region = region; loop_on = on }))
  unfolding replan current_frame
  replan-IsSound e region on v l i = elim (Bool-cases (is_playing e.state)) [
    | inl p ↦ rw p (restarted-IsSound e _ region on v p (heard_frame-le e v) l i)
    | inr p ↦ rw p (kept-IsSound e region on v p l i)
  ]
