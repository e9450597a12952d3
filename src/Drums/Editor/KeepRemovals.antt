-- ===== src/Drums/Editor/KeepRemovals.antt =====
-- The cases of the reducer that remove hits, load a document or copy keep the invariant.
use rehearse_kit.Common.{
  All, All-map, All-of_map, Bool, List, [], arith, false, if_both, length, not, refl, true, ℕ, ◌==◌,
  ◌∙◌, ◌∷◌, ◌≡◌, ◌≤◌, Option, none, some, ◌+◌,
}
use rehearse_kit.Drums.Double.{Double, IsOrdered}
use rehearse_kit.Drums.Types.{HitId, u, other, DrumEvent, id_eq, id_eq_iff}
use rehearse_kit.Drums.Hits.{
  has, any_of, keep, ids_of, without, remove_first, next_manual_id, manual_number, next_past,
}
use rehearse_kit.Drums.Hits.Ids.{Distinct, All-keep, All-keep_with, Distinct-keep}
use rehearse_kit.Drums.Hits.Sorting.{Timed}
use rehearse_kit.Drums.Editor.{EditorState}
use rehearse_kit.Drums.Editor.Validity.{
  Below, Below-mono, IsValid, commit-IsValid, IsGood-sort_hits,
}
use rehearse_kit.Drums.Editor.Edits.{picked, do_load, do_erase, do_delete, do_copy, clip_from}

next_past-le : (n : Option ℕ) (next : ℕ) → next ≤ next_past n next
next_past-le none next = omega arith
next_past-le (some n) next = omega arith

next_past-Below : (id : HitId) (next : ℕ) → Below (next_past (manual_number id) next) id
next_past-Below (u _ n) next = omega arith
next_past-Below (other _) next = tt

not-has_one : (x id : HitId) → not (has (id ∷ []) x) ≡ true → id_eq x id ≡ false
unfolding has any_of
not-has_one x id e = ground arith

module _ {F : Type 0} where
  All-remove_first :
      (P : DrumEvent F → Type 0) (id : HitId) (hits : List (DrumEvent F))
      → All P hits
      → All P (remove_first id hits)
  unfolding remove_first
  All-remove_first P id [] k = tt
  All-remove_first P id (h ∷ hits) (p, k) =
      if_both (All P) (id_eq h.id id) _ _ k (p, All-remove_first P id hits k)

  has-remove_first :
      (id x : HitId) (hits : List (DrumEvent F))
      → id_eq x id ≡ false
      → has (ids_of (remove_first id hits)) x ≡ has (ids_of hits) x
  unfolding remove_first has any_of
  has-remove_first id x [] e = refl
  has-remove_first id x (h ∷ hits) e =
      ground
        (arith, has-remove_first id x hits e, id_eq_iff h.id id, id_eq_iff x h.id, id_eq_iff x id)

  not_has-remove_first :
      (id x : HitId) (hits : List (DrumEvent F))
      → has (ids_of hits) x ≡ false
      → has (ids_of (remove_first id hits)) x ≡ false
  unfolding remove_first has any_of
  not_has-remove_first id x [] e = refl
  not_has-remove_first id x (h ∷ hits) e = ground (arith, not_has-remove_first id x hits)

  Distinct-remove_first :
      (id : HitId) (hits : List (DrumEvent F))
      → Distinct (ids_of hits)
      → Distinct (ids_of (remove_first id hits))
  unfolding remove_first
  Distinct-remove_first id [] k = tt
  Distinct-remove_first id (h ∷ hits) (e, k) =
      if_both (λ l. Distinct (ids_of {F = F} l)) (id_eq h.id id) _ _ k
        (not_has-remove_first id h.id hits e, Distinct-remove_first id hits k)

  ids_of-keep :
      (p : HitId → Bool) (hits : List (DrumEvent F))
      → ids_of (keep (λ h. p h.id) hits) ≡ keep p (ids_of hits)
  unfolding keep
  ids_of-keep p [] = refl
  ids_of-keep p (h ∷ hits) = ground (arith, ids_of-keep p hits)

  next_manual_id-le : (hits : List (DrumEvent F)) (next : ℕ) → next ≤ next_manual_id hits next
  unfolding next_manual_id
  next_manual_id-le [] next = omega arith
  next_manual_id-le (h ∷ hits) next = omega (
    arith,
    next_past-le (manual_number h.id) next,
    next_manual_id-le hits (next_past (manual_number h.id) next),
  )

  pub next_manual_id-Below :
      (hits : List (DrumEvent F)) (next : ℕ) → All (Below (next_manual_id hits next)) (ids_of hits)
  unfolding next_manual_id
  next_manual_id-Below [] next = tt
  next_manual_id-Below (h ∷ hits) next = (
    Below-mono _ _ (next_manual_id-le hits (next_past (manual_number h.id) next)) h.id
        (next_past-Below h.id next),
    next_manual_id-Below hits (next_past (manual_number h.id) next),
  )

module _ {F : Type 0} ⦃d : Double F⦄ (o : IsOrdered d) (s : EditorState F) (v : IsValid s) where
  pub do_erase-IsValid : (id : HitId) → IsValid (do_erase s id)
  unfolding do_erase without
  do_erase-IsValid id =
      if_both IsValid (has (ids_of s.hits.items) id) _ _
        (commit-IsValid o s _ _ v (record {
          next = omega arith;
          timed = All-remove_first (Timed {F = F}) id s.hits.items v.current.timed;
          below =
              All-map (Below s.next_id) (λ h. h.id) _
                (All-remove_first (λ h. Below s.next_id h.id) id s.hits.items
                  (All-of_map (Below s.next_id) (λ h. h.id) s.hits.items v.current.below));
          distinct = Distinct-remove_first id s.hits.items v.current.distinct;
          known =
              All-keep_with (λ x. has (ids_of s.hits.items) x ≡ true) _ _
                (λ x e k. has-remove_first id x s.hits.items (not-has_one x id e) ∙ k) s.selection
                v.known;
          selected_once = Distinct-keep _ s.selection v.selected_once;
        }))
        v

  pub do_delete-IsValid : IsValid (do_delete s)
  unfolding do_delete
  do_delete-IsValid =
      let p = λ (id : HitId). not (has s.selection id) in
      if_both IsValid (length s.selection == 0) _ _ v (
        commit-IsValid o s _ _ v (record {
          next = omega arith;
          timed = All-keep (Timed {F = F}) _ s.hits.items v.current.timed;
          below =
              rw (ids_of-keep p s.hits.items)
                (All-keep (Below s.next_id) p (ids_of s.hits.items) v.current.below);
          distinct =
              rw (ids_of-keep p s.hits.items)
                (Distinct-keep p (ids_of s.hits.items) v.current.distinct);
          known = tt;
          selected_once = tt;
        }))

  pub do_copy-IsValid : IsValid (do_copy s)
  unfolding do_copy clip_from
  do_copy-IsValid = go (picked s)
    where
      go : (l : List (DrumEvent F)) → IsValid (clip_from d.sub l s)
      go [] = v
      go (h ∷ l) = record {
        current = v.current;
        backward = v.backward;
        forward = v.forward;
        start = v.start;
        start_past = v.start_past;
        start_future = v.start_future;
        known = v.known;
        selected_once = v.selected_once;
        capped = v.capped;
        start_capped = v.start_capped;
        measured = v.measured;
      }

  -- What the server sends: every time a number, and no id twice.
  abbrev pub IsLoadable : List (DrumEvent F) → Type 0
  IsLoadable hits = All (Timed {F = F}) hits × Distinct (ids_of hits)

  pub do_load-IsValid : (hits : List (DrumEvent F)) → IsLoadable hits → IsValid (do_load s hits)
  unfolding do_load
  do_load-IsValid hits k = record {
    current =
        IsGood-sort_hits o _ s.next_ref (s.next_ref + 1) hits (omega arith) k.0
          (next_manual_id-Below hits s.next_id) k.1;
    backward = tt;
    forward = tt;
    start = tt;
    start_past = tt;
    start_future = tt;
    known = tt;
    selected_once = tt;
    capped = omega arith;
    start_capped = tt;
    measured = v.measured;
  }
