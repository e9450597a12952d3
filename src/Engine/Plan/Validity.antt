-- ===== src/Engine/Plan/Validity.antt =====
-- What the constructor of a play plan guarantees.
use native.Mathlib.Nat.{div-one}
use rehearse_kit.Common.{Bool, true, false, ◌^◌}
use rehearse_kit.Common.{
  ℕ, ◌+◌, ◌≤◌, ◌<◌, ◌≡◌, refl, Option, none, some, arith, Bool-cases, Option-cases, ltb, inl,
  ltb→lt, inr, subst, some_inj, min, ap, sym, ◌/◌, ◌∙◌,
}
use rehearse_kit.Engine.Number.{negative, Number, clamp_floor, nonneg}
use rehearse_kit.Engine.Plan.{
  LoopRange, LoopRequest, PlayPlan, min_loop_frames, validate_loop, make_plan, choose_plan,
  straight_plan, looping_plan,
}

-- A loop that a plan plays: inside the file, long enough, and ahead of the start.
pub record IsLoopOf (p : PlayPlan) (l : LoopRange) : Type 0 where
  pub long : l.start + min_loop_frames ≤ l.end
  pub inside : l.end ≤ p.total_frames
  pub ahead : p.start_frame < l.end
  pub prefix : p.start_frame + p.prefix_frames ≡ l.end
  pub period : l.start + p.loop_frames ≡ l.end
  pub endless : p.stream_length ≡ none

pub record IsStraight (p : PlayPlan) : Type 0 where
  pub rest : p.start_frame + p.prefix_frames ≡ p.total_frames
  pub finite : p.stream_length ≡ some p.prefix_frames

abbrev pub LoopValid : PlayPlan → Option LoopRange → Type 0
LoopValid p none = IsStraight p
LoopValid p (some l) = IsLoopOf p l

pub record IsValid (p : PlayPlan) : Type 0 where
  pub start_inside : p.start_frame ≤ p.total_frames
  pub segments : LoopValid p p.loop

-- `validateLoop` returns only ranges inside the file and at least `min` frames long.
pub validate_loop-bounds :
    (loop : Option LoopRequest) (total min : ℕ) {l : LoopRange}
    → validate_loop loop total min ≡ some l
    → (l.start + min ≤ l.end) × (l.end ≤ total)
unfolding validate_loop clamp_floor
validate_loop-bounds none total min h = ground arith
validate_loop-bounds (some loop) total min h = ground arith

clamp_floor-le : (x : Number) (total : ℕ) {n : ℕ} → clamp_floor x total ≡ some n → n ≤ total
unfolding clamp_floor
clamp_floor-le x total h = ground arith

abbrev InFile : Option LoopRange → ℕ → Type 0
InFile none total = Unit {0}
InFile (some l) total = (l.start + min_loop_frames ≤ l.end) × (l.end ≤ total)

validate_loop-InFile :
    (loop : Option LoopRequest) (total : ℕ)
    → InFile (validate_loop loop total min_loop_frames) total
validate_loop-InFile loop total = go (validate_loop loop total min_loop_frames) refl
  where
    go : (r : Option LoopRange) → validate_loop loop total min_loop_frames ≡ r → InFile r total
    go none e = tt
    go (some l) e = validate_loop-bounds loop total min_loop_frames e

choose_plan-IsValid :
    (start total : ℕ) (loop : Option LoopRange)
    → start ≤ total
    → InFile loop total
    → IsValid (choose_plan start total loop)
unfolding choose_plan
choose_plan-IsValid start total none h k = ground arith
choose_plan-IsValid start total (some l) h k = elim (Bool-cases (ltb start l.end)) [
  | inl e ↦ rw e (ground (arith, ltb→lt start l.end e))
  | inr e ↦ rw e (ground arith)
]

-- A plan with a start that is a number is valid.
pub make_plan-IsValid :
    (start_frame : Number) (total : ℕ) (loop : Option LoopRequest) {p : PlayPlan}
    → make_plan start_frame total loop ≡ some p
    → IsValid p
unfolding make_plan
make_plan-IsValid start_frame total loop {p} h =
    elim (Option-cases (clamp_floor start_frame total)) [
      | inl e ↦ absurd (ground arith)
      | inr (start, e) ↦ subst IsValid (some_inj (rw (e, make_plan) at h)) (
          choose_plan-IsValid start total (validate_loop loop total min_loop_frames)
            (clamp_floor-le start_frame total e) (validate_loop-InFile loop total))
    ]

choose_plan-total :
    (start total : ℕ) (loop : Option LoopRange)
    → ((choose_plan start total loop).total_frames ≡ total)
      × ((choose_plan start total loop).start_frame ≡ start)
unfolding choose_plan straight_plan looping_plan
choose_plan-total start total none = (refl, refl)
choose_plan-total start total (some l) = ground arith

-- The plan that starts at a whole frame, of a file of `total` frames.
pub make_plan-total :
    (start total : ℕ) (loop : Option LoopRequest) {p : PlayPlan}
    → make_plan (nonneg start 0) total loop ≡ some p
    → (p.total_frames ≡ total) × (p.start_frame ≡ min start total)
unfolding make_plan clamp_floor
make_plan-total start total loop {p} h =
    let same : start / 1 ≡ start = div-one start in
    let q : choose_plan (min (start / 1) total) total (validate_loop loop total min_loop_frames)
        ≡ p =
      some_inj h in
    let (t, s) =
      choose_plan-total (min (start / 1) total) total (validate_loop loop total min_loop_frames) in
    (
      sym (ap (λ r. r.total_frames) q) ∙ t,
      sym (ap (λ r. r.start_frame) q) ∙ s ∙ ap (λ n. min n total) same,
    )

-- Where a plan starts, if there is one.
abbrev pub plan_start : Option PlayPlan → Option ℕ
plan_start none = none
plan_start (some p) = some p.start_frame

pub make_plan-start :
    (start total : ℕ) (loop : Option LoopRequest)
    → plan_start (make_plan (nonneg start 0) total loop) ≡ some (min start total)
unfolding make_plan clamp_floor
make_plan-start start total loop =
    let (t, s) =
      choose_plan-total (min (start / 1) total) total (validate_loop loop total min_loop_frames) in
    ap some (s ∙ ap (λ n. min n total) (div-one start))

abbrev pub is_nan : Number → Bool
is_nan Number.nan = true
is_nan _ = false

clamp_floor-some :
    (x : Number) (total : ℕ) → is_nan x ≡ false → (n : ℕ) × (clamp_floor x total ≡ some n)
unfolding clamp_floor
clamp_floor-some Number.nan total h = absurd cc
clamp_floor-some Number.infinity total h = (total, refl)
clamp_floor-some Number.neg_infinity total h = (0, refl)
clamp_floor-some (nonneg n k) total h = (min (n / 2 ^ k) total, refl)
clamp_floor-some (negative n k) total h = (0, refl)

-- From every start that is not NaN the constructor builds a plan that has the file's frames and
-- starts at that start, floored and kept inside the file; with a loop, the loop is at least 1024
-- frames long, inside the file and ends ahead of the start, the prefix reaches its end and the
-- stream is endless; without one the stream is the rest of the file.
pub make_plan_lem :
    (start_frame : Number) (total : ℕ) (loop : Option LoopRequest)
    → is_nan start_frame ≡ false
    → (p : PlayPlan) × (make_plan start_frame total loop ≡ some p)
      × IsValid p
      × (p.total_frames ≡ total)
      × (clamp_floor start_frame total ≡ some p.start_frame)
unfolding make_plan
make_plan_lem start_frame total loop h =
    let (start, e) = clamp_floor-some start_frame total h in
    let l = validate_loop loop total min_loop_frames in
    let (t, s) = choose_plan-total start total l in
    rw (e, make_plan)
      (
        choose_plan start total l,
        refl,
        choose_plan-IsValid start total l (clamp_floor-le start_frame total e)
            (validate_loop-InFile loop total),
        t,
        ap some (sym s),
      )
