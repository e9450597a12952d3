-- ===== src/Drums/Search/Range.antt =====
-- What the search of the hits finds.
use rehearse_kit.Drums.Hits.Sorting.{Timed}
use rehearse_kit.Common.{
  ℕ, zero, suc, Bool, List, [], ◌∷◌, ◌+◌, ◌/◌, ◌≤◌, ◌<◌, ◌≡◌, All, Bool-cases, arith, drop, false,
  get_elem?, if◌then◌else◌, inl, inr, length, ltb, not, some, true, ◌&&◌, refl, ap, ◌∙◌,
}
use rehearse_kit.Drums.Double.{Double, IsOrdered}
use rehearse_kit.Drums.Types.{Articulation, DrumEvent}
use rehearse_kit.Drums.Hits.{keep, is_sorted}
use rehearse_kit.Drums.Search.{lower_bound_in, lower_bound, unmuted_before, hits_between}

half-between : (lo hi : ℕ) → lo < hi → (lo ≤ (lo + hi) / 2) × ((lo + hi) / 2 < hi)
half-between lo hi l = (omega arith, omega arith)

module _ {F : Type 0} ⦃d : Double F⦄ where
  open d use {lt, finite}

  abbrev NotBefore : F → DrumEvent F → Type 0
  NotBefore t h = lt h.t t ≡ false

  -- Once a hit is not before `t`, none behind it is.
  unfoldable pub Falls : F → List (DrumEvent F) → Type 0
  Falls t [] = Unit {0}
  Falls t (h ∷ hits) = (lt h.t t ≡ false → All (NotBefore t) hits) × Falls t hits

  -- How many hits at the front are before `t`.
  unfoldable pub leading : F → List (DrumEvent F) → ℕ
  leading t [] = 0
  leading t (h ∷ hits) = let n = leading t hits in if lt h.t t then suc n else 0

  leading-le : (t : F) (hits : List (DrumEvent F)) → leading t hits ≤ length hits
  unfolding leading
  leading-le t [] = omega arith
  leading-le t (h ∷ hits) = ground (arith, leading-le t hits)

  All-get :
      (t : F) (hits : List (DrumEvent F)) (i : ℕ) (h : DrumEvent F)
      → All (NotBefore t) hits
      → get_elem? hits i ≡ some h
      → lt h.t t ≡ false
  All-get t [] i h v g = absurd cc
  All-get t (x ∷ hits) zero h v g = cc
  All-get t (x ∷ hits) (suc i) h v g = All-get t hits i h v.1 g

  leading-gt :
      (t : F) (hits : List (DrumEvent F)) (i : ℕ) (h : DrumEvent F)
      → Falls t hits
      → get_elem? hits i ≡ some h
      → lt h.t t ≡ true
      → i < leading t hits
  unfolding leading Falls
  leading-gt t [] i h v g e = absurd cc
  leading-gt t (x ∷ hits) zero h v g e =
      let x_before : lt x.t t ≡ true = cc in rw x_before (omega arith)
  leading-gt t (x ∷ hits) (suc i) h v g e = elim (Bool-cases (lt x.t t)) [
    | inl k ↦ rw k (omega (arith, leading-gt t hits i h v.1 g e))
    | inr k ↦ let no : lt h.t t ≡ false = All-get t hits i h (v.0 k) g in absurd cc
  ]

  get_elem?-some :
      (hits : List (DrumEvent F)) (i : ℕ)
      → i < length hits
      → (h : DrumEvent F) × (get_elem? hits i ≡ some h)
  get_elem?-some [] i l = absurd (omega arith)
  get_elem?-some (h ∷ hits) zero l = (h, refl)
  get_elem?-some (h ∷ hits) (suc i) l = get_elem?-some hits i (omega arith)

  leading-at :
      (t : F) (hits : List (DrumEvent F)) (i : ℕ) (h : DrumEvent F)
      → get_elem? hits i ≡ some h
      → lt h.t t ≡ false
      → leading t hits ≤ i
  unfolding leading
  leading-at t [] i h g e = omega arith
  leading-at t (x ∷ hits) zero h g e = ground (arith, g, e)
  leading-at t (x ∷ hits) (suc i) h g e = ground (arith, leading-at t hits i h g e)

  lower_bound_in-leading :
      (fuel : ℕ) (hits : List (DrumEvent F)) (t : F) (lo hi : ℕ)
      → Falls t hits
      → lo ≤ leading t hits
      → leading t hits ≤ hi
      → hi ≤ length hits
      → hi ≤ lo + fuel
      → lower_bound_in fuel hits t lo hi ≡ some (leading t hits)
  unfolding lower_bound_in
  lower_bound_in-leading zero hits t lo hi v a b c e = ground arith
  lower_bound_in-leading (suc fuel) hits t lo hi v a b c e = elim (Bool-cases (ltb lo hi)) [
    | inr k ↦ rw (k, lower_bound_in) (ap some (ground (arith, k)))
    | inl k ↦
        let l : lo < hi = ground (arith, k) in
        let m = half-between lo hi l in
        let at = get_elem?-some hits ((lo + hi) / 2) (omega (arith, m)) in
        rw (k, lower_bound_in)
          (rw at.1 (elim (Bool-cases (lt at.0.t t)) [
            | inl q ↦ rw q (
                lower_bound_in-leading fuel hits t ((lo + hi) / 2 + 1) hi v
                  (omega (arith, leading-gt t hits ((lo + hi) / 2) at.0 v at.1 q)) b c
                  (omega (arith, m)))
            | inr q ↦ rw q (
                lower_bound_in-leading fuel hits t lo ((lo + hi) / 2) v a
                  (leading-at t hits ((lo + hi) / 2) at.0 at.1 q) (omega (arith, m))
                  (omega (arith, m)))
          ]))
  ]

  pub lower_bound-leading :
      (hits : List (DrumEvent F)) (t : F)
      → Falls t hits
      → lower_bound hits t ≡ some (leading t hits)
  unfolding lower_bound
  lower_bound-leading hits t v =
      lower_bound_in-leading (length hits) hits t 0 (length hits) v (omega arith)
        (leading-le t hits) (omega arith) (omega arith)

  keep-none :
      (t0 t1 : F) (muted : Articulation → Bool) (hits : List (DrumEvent F))
      → All (NotBefore t1) hits
      → keep (λ h. not (lt h.t t0) && (lt h.t t1 && not (muted h.art))) hits ≡ []
  unfolding keep
  keep-none t0 t1 muted [] v = refl
  keep-none t0 t1 muted (h ∷ hits) v = ground (arith, v, keep-none t0 t1 muted hits v.1)

  keep-later :
      (t0 t1 : F) (muted : Articulation → Bool) (hits : List (DrumEvent F))
      → All (NotBefore t0) hits
      → Falls t1 hits
      → unmuted_before t1 muted hits
        ≡ keep (λ h. not (lt h.t t0) && (lt h.t t1 && not (muted h.art))) hits
  unfolding unmuted_before keep Falls
  keep-later t0 t1 muted [] v w = refl
  keep-later t0 t1 muted (h ∷ hits) v w = elim (Bool-cases (lt h.t t1)) [
    | inl k ↦ ground (arith, k, v.0, keep-later t0 t1 muted hits v.1 w.1)
    | inr k ↦ ground (arith, k, keep-none t0 t1 muted hits (w.0 k))
  ]

  leading-none :
      (t : F) (h : DrumEvent F) (hits : List (DrumEvent F))
      → lt h.t t ≡ false
      → leading t (h ∷ hits) ≡ 0
  unfolding leading
  leading-none t h hits k = rw k refl

  unmuted_before-drop :
      (t0 t1 : F) (muted : Articulation → Bool) (hits : List (DrumEvent F))
      → Falls t0 hits
      → Falls t1 hits
      → unmuted_before t1 muted (drop (leading t0 hits) hits)
        ≡ keep (λ h. not (lt h.t t0) && (lt h.t t1 && not (muted h.art))) hits
  unfolding leading Falls keep unmuted_before
  unmuted_before-drop t0 t1 muted [] v w = refl
  unmuted_before-drop t0 t1 muted (h ∷ hits) v w = elim (Bool-cases (lt h.t t0)) [
    | inl k ↦ rw k (unmuted_before-drop t0 t1 muted hits v.1 w.1)
    | inr k ↦
        ap (λ n. unmuted_before t1 muted (drop n (h ∷ hits))) (leading-none t0 h hits k)
        ∙ keep-later t0 t1 muted (h ∷ hits) (k, v.0 k) w
  ]

  module _ (o : IsOrdered d) where
    none_before :
        (t : F) (h : DrumEvent F) (hits : List (DrumEvent F))
        → is_sorted (h ∷ hits) ≡ true
        → All Timed (h ∷ hits)
        → lt h.t t ≡ false
        → All (NotBefore t) hits
    unfolding is_sorted
    none_before t h [] s v k = tt
    none_before t h (g ∷ hits) s v k =
        let follows : lt g.t h.t ≡ false = ground (arith, s) in
        let now : lt g.t t ≡ false = o.trans t h.t g.t v.0 k follows in
        (now, none_before t g hits (ground (arith, s)) v.1 now)

    is_sorted-tail :
        (h : DrumEvent F) (hits : List (DrumEvent F))
        → is_sorted (h ∷ hits) ≡ true
        → is_sorted hits ≡ true
    unfolding is_sorted
    is_sorted-tail h [] s = refl
    is_sorted-tail h (g ∷ hits) s = ground (arith, s)

    is_sorted-Falls :
        (t : F) (hits : List (DrumEvent F)) → is_sorted hits ≡ true → All Timed hits → Falls t hits
    unfolding Falls
    is_sorted-Falls t [] s v = tt
    is_sorted-Falls t (h ∷ hits) s v =
        (none_before t h hits s v, is_sorted-Falls t hits (is_sorted-tail h hits s) v.1)

    -- With the laws of an order, for sorted hits with finite times, the binary search ends
    -- without a read past the end of the list, and the hits that the loop of queueRange gets to
    -- are those whose row is not muted that are not before t0 and are before t1, each once and
    -- in order.
    pub hits_between_lem :
        (hits : List (DrumEvent F)) (muted : Articulation → Bool) (t0 t1 : F)
        → is_sorted hits ≡ true
        → All Timed hits
        → hits_between hits muted t0 t1
          ≡ some (keep (λ h. not (lt h.t t0) && (lt h.t t1 && not (muted h.art))) hits)
    unfolding hits_between
    hits_between_lem hits muted t0 t1 s v =
        rw (lower_bound-leading hits t0 (is_sorted-Falls t0 hits s v)) (
          ap some (
            unmuted_before-drop t0 t1 muted hits (is_sorted-Falls t0 hits s v)
              (is_sorted-Falls t1 hits s v)))
