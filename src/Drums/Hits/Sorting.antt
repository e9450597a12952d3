-- ===== src/Drums/Hits/Sorting.antt =====
-- `sortHits`: sorted, stable, and the same hits.
use rehearse_kit.Common.{
  All, Bool-cases, List, [], arith, inl, inr, refl, true, ◌∷◌, ◌≡◌, Bool, not, ◌&&◌, ◌∙◌,
}
use rehearse_kit.Drums.Double.{Double, IsOrdered}
use rehearse_kit.Drums.Types.{HitId, DrumEvent}
use rehearse_kit.Drums.Hits.{
  any_of, has, ids_of, is_sorted, insert_hit, stable_sort, sort_hits, keep,
}
use rehearse_kit.Drums.Hits.Ids.{Distinct, id_eq_comm}

module _ {F : Type 0} ⦃d : Double F⦄ where
  open d use {lt, finite}

  -- A hit whose time is a number, and no infinity.
  abbrev pub Timed : DrumEvent F → Type 0
  Timed h = finite h.t ≡ true

  -- Membership of ids is not changed by sorting.
  has-insert_hit :
      (h : DrumEvent F) (hits : List (DrumEvent F)) (id : HitId)
      → has (ids_of (insert_hit h hits)) id ≡ has (ids_of (h ∷ hits)) id
  unfolding insert_hit has any_of
  has-insert_hit h [] id = refl
  has-insert_hit h (g ∷ hits) id = ground (arith, has-insert_hit h hits id)

  has-stable_sort :
      (hits : List (DrumEvent F)) (id : HitId)
      → has (ids_of (stable_sort hits)) id ≡ has (ids_of hits) id
  unfolding stable_sort has any_of
  has-stable_sort [] id = refl
  has-stable_sort (h ∷ hits) id =
      ground (arith, has-insert_hit h (stable_sort hits) id, has-stable_sort hits id)

  pub has-sort_hits :
      (hits : List (DrumEvent F)) (id : HitId)
      → has (ids_of (sort_hits hits)) id ≡ has (ids_of hits) id
  unfolding sort_hits
  has-sort_hits hits id = ground (arith, has-stable_sort hits id)

  Distinct-insert_hit :
      (h : DrumEvent F) (hits : List (DrumEvent F))
      → Distinct (ids_of (h ∷ hits))
      → Distinct (ids_of (insert_hit h hits))
  unfolding insert_hit has any_of
  Distinct-insert_hit h [] k = k
  Distinct-insert_hit h (g ∷ hits) k = elim (Bool-cases (lt g.t h.t)) [
    | inl e ↦ rw e (
      ground (arith, k, has-insert_hit h hits g.id, id_eq_comm g.id h.id),
      Distinct-insert_hit h hits (ground (arith, k), k.1.1),
    )
    | inr e ↦ rw e k
  ]

  Distinct-stable_sort :
      (hits : List (DrumEvent F)) → Distinct (ids_of hits) → Distinct (ids_of (stable_sort hits))
  unfolding stable_sort
  Distinct-stable_sort [] k = tt
  Distinct-stable_sort (h ∷ hits) (k, l) =
      Distinct-insert_hit h (stable_sort hits)
        (rw (has-stable_sort hits h.id) k, Distinct-stable_sort hits l)

  pub Distinct-sort_hits :
      (hits : List (DrumEvent F)) → Distinct (ids_of hits) → Distinct (ids_of (sort_hits hits))
  unfolding sort_hits
  Distinct-sort_hits hits k = elim (Bool-cases (is_sorted hits)) [
    | inl e ↦ rw e k
    | inr e ↦ rw e (Distinct-stable_sort hits k)
  ]

  All-insert_hit :
      (P : DrumEvent F → Type 0) (h : DrumEvent F) (hits : List (DrumEvent F))
      → P h
      → All P hits
      → All P (insert_hit h hits)
  unfolding insert_hit
  All-insert_hit P h [] p k = (p, tt)
  All-insert_hit P h (g ∷ hits) p (q, k) = elim (Bool-cases (lt g.t h.t)) [
    | inl e ↦ rw e (q, All-insert_hit P h hits p k)
    | inr e ↦ rw e (p, (q, k))
  ]

  All-stable_sort :
      (P : DrumEvent F → Type 0) (hits : List (DrumEvent F)) → All P hits → All P (stable_sort hits)
  unfolding stable_sort
  All-stable_sort P [] k = tt
  All-stable_sort P (h ∷ hits) (p, k) =
      All-insert_hit P h (stable_sort hits) p (All-stable_sort P hits k)

  -- What holds of every hit holds of every sorted hit.
  pub All-sort_hits :
      (P : DrumEvent F → Type 0) (hits : List (DrumEvent F)) → All P hits → All P (sort_hits hits)
  unfolding sort_hits
  All-sort_hits P hits k = elim (Bool-cases (is_sorted hits)) [
    | inl e ↦ rw e k
    | inr e ↦ rw e (All-stable_sort P hits k)
  ]

  module _ (o : IsOrdered d) where
    -- An insertion keeps the order: by the neighbour in front.
    is_sorted-insert_hit :
        (h : DrumEvent F) (hits : List (DrumEvent F))
        → is_sorted hits ≡ true
        → is_sorted (insert_hit h hits) ≡ true
    unfolding insert_hit is_sorted
    is_sorted-insert_hit h [] k = refl
    is_sorted-insert_hit h (g ∷ []) k = ground (arith, o.asym g.t h.t)
    is_sorted-insert_hit h (g ∷ f ∷ hits) k =
        ground (arith, o.asym g.t h.t, is_sorted-insert_hit h (f ∷ hits))

    is_sorted-stable_sort : (hits : List (DrumEvent F)) → is_sorted (stable_sort hits) ≡ true
    unfolding stable_sort is_sorted
    is_sorted-stable_sort [] = refl
    is_sorted-stable_sort (h ∷ hits) =
        is_sorted-insert_hit h (stable_sort hits) (is_sorted-stable_sort hits)

    -- What `sortHits` returns is sorted, whatever it is given.
    pub is_sorted-sort_hits : (hits : List (DrumEvent F)) → is_sorted (sort_hits hits) ≡ true
    unfolding sort_hits
    is_sorted-sort_hits hits = elim (Bool-cases (is_sorted hits)) [
      | inl e ↦ rw e e
      | inr e ↦ rw e (is_sorted-stable_sort hits)
    ]

    abbrev pub at_time : F → DrumEvent F → Bool
    at_time t h = not (lt h.t t) && not (lt t h.t)

    keep-insert_hit :
        (t : F)
        → finite t ≡ true
        → (h : DrumEvent F) (hits : List (DrumEvent F))
        → keep (at_time t) (insert_hit h hits) ≡ keep (at_time t) (h ∷ hits)
    unfolding insert_hit keep
    keep-insert_hit t k h [] = refl
    keep-insert_hit t k h (g ∷ hits) =
        ground (arith, keep-insert_hit t k h hits, o.trans h.t t g.t k)

    keep-stable_sort :
        (t : F)
        → finite t ≡ true
        → (hits : List (DrumEvent F)) → keep (at_time t) (stable_sort hits) ≡ keep (at_time t) hits
    unfolding stable_sort keep
    keep-stable_sort t k [] = refl
    keep-stable_sort t k (h ∷ hits) =
        keep-insert_hit t k h (stable_sort hits) ∙ ground (arith, keep-stable_sort t k hits)

    -- With the laws of an order, sortHits keeps the hits of each finite time in the order they
    -- had.
    pub keep-sort_hits :
        (t : F)
        → finite t ≡ true
        → (hits : List (DrumEvent F)) → keep (at_time t) (sort_hits hits) ≡ keep (at_time t) hits
    unfolding sort_hits
    keep-sort_hits t k hits = elim (Bool-cases (is_sorted hits)) [
      | inl e ↦ rw e
      | inr e ↦ rw e (keep-stable_sort t k hits)
    ]
