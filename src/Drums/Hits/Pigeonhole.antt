-- ===== src/Drums/Hits/Pigeonhole.antt =====
-- A list without repetition that lies within one that is no longer has every member of it. So the
-- comparison of `sameHits`, which looks up one side only, is an equality of the two sets of ids.
use rehearse_kit.Common.{
  Bool-cases, List, [], arith, false, if◌then◌else◌, inl, inr, length, length-map, refl, some, true,
  ◌+◌, ◌∙◌, ◌∷◌, ◌≡◌, ◌≤◌, Option-cases,
}
use rehearse_kit.Drums.Double.{Double}
use rehearse_kit.Drums.Types.{HitId, DrumEvent, id_eq, id_eq_iff}
use rehearse_kit.Drums.Hits.{has, any_of, ids_of, index_get, all_same, same_hits}
use rehearse_kit.Drums.Hits.Ids.{Within, Distinct, id_eq_comm}

drop_id : HitId → List HitId → List HitId
drop_id x [] = []
drop_id x (y ∷ ys) = if id_eq x y then ys else y ∷ drop_id x ys

length-drop_id :
    (x : HitId) (ys : List HitId) → has ys x ≡ true → length (drop_id x ys) + 1 ≡ length ys
unfolding drop_id has any_of
length-drop_id x [] h = cc
length-drop_id x (y ∷ ys) h = ground (arith, length-drop_id x ys)

has-drop_id : (x z : HitId) (ys : List HitId) → id_eq z x ≡ false → has (drop_id x ys) z ≡ has ys z
unfolding drop_id has any_of
has-drop_id x z [] e = refl
has-drop_id x z (y ∷ ys) e =
    ground (arith, has-drop_id x z ys e, id_eq_iff x y, id_eq_iff z y, id_eq_iff z x)

Within-drop_id :
    (x : HitId) (ys xs : List HitId) → has xs x ≡ false → Within ys xs → Within (drop_id x ys) xs
unfolding has any_of
Within-drop_id x ys [] e h = tt
Within-drop_id x ys (z ∷ xs) e (k, h) = (
  has-drop_id x z ys (ground (arith, id_eq_comm x z)) ∙ k,
  Within-drop_id x ys xs (ground arith) h,
)

pub pigeonhole :
    (xs ys : List HitId)
    → Distinct xs
    → Within ys xs
    → length ys ≤ length xs
    → (id : HitId) → has ys id ≡ true
    → has xs id ≡ true
unfolding has any_of
pigeonhole [] [] k w h id e = cc
pigeonhole [] (y ∷ ys) k w h id e = absurd (omega arith)
pigeonhole (x ∷ xs) ys (k, ks) (w, ws) h id e = elim (Bool-cases (id_eq id x)) [
  | inl q ↦ rw q
  | inr q ↦ rw q (
      pigeonhole xs (drop_id x ys) ks (Within-drop_id x ys xs k ws)
        (omega (arith, length-drop_id x ys w)) id (has-drop_id x id ys q ∙ e))
]

module _ {F : Type 0} ⦃d : Double F⦄ where
  has_of_index_get :
      (id : HitId) (b : List (DrumEvent F)) {o : DrumEvent F}
      → index_get id b ≡ some o
      → has (ids_of b) id ≡ true
  unfolding index_get has any_of
  has_of_index_get id [] e = cc
  has_of_index_get id (h ∷ b) e = elim (Option-cases (index_get id b)) [
    | inl gone ↦ ground (arith, id_eq_comm id h.id)
    | inr (o, there) ↦ ground (arith, has_of_index_get id b there)
  ]

  Within-all_same : (a b : List (DrumEvent F)) → all_same a b ≡ true → Within (ids_of b) (ids_of a)
  unfolding all_same
  Within-all_same [] b e = tt
  Within-all_same (h ∷ a) b e = elim (Option-cases (index_get h.id b)) [
    | inl gone ↦ absurd (ground arith)
    | inr (o, there) ↦ (has_of_index_get h.id b there, Within-all_same a b (ground arith))
  ]

  -- Where sameHits accepts and the first list has no id twice, every id of the second list is
  -- one of the first, although only the first is looked up.
  pub has-same_hits :
      (a b : List (DrumEvent F))
      → same_hits a b ≡ true
      → Distinct (ids_of a)
      → (id : HitId) → has (ids_of b) id ≡ true
      → has (ids_of a) id ≡ true
  unfolding same_hits
  has-same_hits a b e k = pigeonhole (ids_of a) (ids_of b) k (Within-all_same a b (ground arith)) (
      omega (
        arith,
        length-map (λ (h : DrumEvent F). h.id) a,
        length-map (λ (h : DrumEvent F). h.id) b,
        lengths,
      ))
    where
      lengths : length a ≡ length b
      lengths = ground arith
