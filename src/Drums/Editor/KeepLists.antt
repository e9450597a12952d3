-- ===== src/Drums/Editor/KeepLists.antt =====
-- The cases of the reducer that add or remove hits, or load a document, keep the invariant.
use rehearse_kit.Common.{
  All, All-append, All-mono, List, [], arith, false, map-append, refl, suc, zero, ℕ, ◌++◌, ◌+◌, ◌∷◌,
  ◌≡◌, ◌≤◌, Option, ap, ap₂, if_both, length, or_else, true, ◌<◌, ◌==◌,
}
use rehearse_kit.Drums.Double.{Double, IsOrdered}
use rehearse_kit.Drums.Types.{HitId, u, other, DrumEvent, Articulation, id_eq}
use rehearse_kit.Drums.Hits.{has, any_of, ids_of}
use rehearse_kit.Drums.Hits.Ids.{Distinct, Distinct-append, Within-append_right}
use rehearse_kit.Drums.Hits.Sorting.{Timed}
use rehearse_kit.Drums.Editor.{EditorState}
use rehearse_kit.Drums.Editor.Validity.{Below, Below-mono, IsValid, IsReady, commit-IsValid}
use rehearse_kit.Drums.Editor.KeepEdits.{clamp_t-finite}
use rehearse_kit.Drums.Editor.Edits.{
  picked, numbered, do_add, commit_new, do_paste, do_duplicate, new_hit,
}

-- The ids of `k` new hits, from number `n` on.
abbrev fresh_ids : ℕ → ℕ → List HitId
fresh_ids n zero = []
fresh_ids n (suc k) = u 0 n ∷ fresh_ids (n + 1) k

fresh_ids-Below : (n k m : ℕ) → n + k ≤ m → All (Below m) (fresh_ids n k)
fresh_ids-Below n zero m h = tt
fresh_ids-Below n (suc k) m h = (omega arith, fresh_ids-Below (n + 1) k m (omega arith))

-- A fresh id is not among ids below it.
not-Below : (n m : ℕ) (xs : List HitId) → All (Below n) xs → n ≤ m → has xs (u 0 m) ≡ false
unfolding has any_of id_eq
not-Below n m [] b h = refl
not-Below n m (u z j ∷ xs) (c, b) h = ground (arith, not-Below n m xs b h)
not-Below n m (other j ∷ xs) (c, b) h = ground (arith, not-Below n m xs b h)

fresh_ids-apart :
    (n k m : ℕ) (xs : List HitId)
    → All (Below n) xs
    → n ≤ m
    → All (λ id. has xs id ≡ false) (fresh_ids m k)
fresh_ids-apart n zero m xs b h = tt
fresh_ids-apart n (suc k) m xs b h =
    (not-Below n m xs b h, fresh_ids-apart n k (m + 1) xs b (omega arith))

-- Nor among later ones.
not_later : (n k m : ℕ) → n < m → has (fresh_ids m k) (u 0 n) ≡ false
unfolding has any_of id_eq
not_later n zero m h = refl
not_later n (suc k) m h = ground (arith, not_later n k (m + 1))

fresh_ids-Distinct : (n k : ℕ) → Distinct (fresh_ids n k)
fresh_ids-Distinct n zero = tt
fresh_ids-Distinct n (suc k) = (not_later n k (n + 1) (omega arith), fresh_ids-Distinct (n + 1) k)

module _ {F : Type 0} ⦃d : Double F⦄ where
  open d use {finite}

  ids_of-append : (xs ys : List (DrumEvent F)) → ids_of (xs ++ ys) ≡ ids_of xs ++ ids_of ys
  ids_of-append xs ys = map-append _ xs ys

  module _ (o : IsOrdered d) (s : EditorState F) (v : IsValid s) where
    -- New hits with fresh ids behind the old ones.
    append-IsReady :
        (added : List (DrumEvent F)) (vel : F) (k : ℕ)
        → ids_of added ≡ fresh_ids s.next_id k
        → All (Timed {F = F}) added
        → IsReady s
            (s.hits.items ++ added)
            (record { selection = ids_of added; last_vel = vel; next_id = s.next_id + k })
    append-IsReady added vel k e t = record {
      next = omega arith;
      timed = All-append (Timed {F = F}) s.hits.items added v.current.timed t;
      below =
          rw (ids_of-append s.hits.items added, e)
            (All-append (Below (s.next_id + k)) (ids_of s.hits.items) (fresh_ids s.next_id k)
              (All-mono _ _ (Below-mono s.next_id (s.next_id + k) (omega arith))
                (ids_of s.hits.items) v.current.below)
              (fresh_ids-Below s.next_id k _ (omega arith)));
      distinct =
          rw (ids_of-append s.hits.items added, e)
            (Distinct-append (ids_of s.hits.items) (fresh_ids s.next_id k) v.current.distinct
              (fresh_ids-Distinct s.next_id k)
              (fresh_ids-apart s.next_id k s.next_id (ids_of s.hits.items) v.current.below
                (omega arith)));
      known =
          rw (ids_of-append s.hits.items added, e)
            (Within-append_right (ids_of s.hits.items) (fresh_ids s.next_id k));
      selected_once = rw e (fresh_ids-Distinct s.next_id k);
    }

    ids_of-numbered :
        {A : Type 0} (make : A → HitId → DrumEvent F)
        → ((a : A) (id : HitId) → (make a id).id ≡ id)
        → (n : ℕ) (xs : List A) → ids_of (numbered make n xs) ≡ fresh_ids n (length xs)
    unfolding numbered
    ids_of-numbered make f n [] = refl
    ids_of-numbered make f n (x ∷ xs) = ap₂ ◌∷◌ (f x (u 0 n)) (ids_of-numbered make f (n + 1) xs)

    Timed-numbered :
        {A : Type 0} (make : A → HitId → DrumEvent F)
        → ((a : A) (id : HitId) → finite (make a id).t ≡ true)
        → (n : ℕ) (xs : List A) → All (Timed {F = F}) (numbered make n xs)
    unfolding numbered
    Timed-numbered make f n [] = tt
    Timed-numbered make f n (x ∷ xs) = (f x (u 0 n), Timed-numbered make f (n + 1) xs)

    length-numbered :
        {A : Type 0} (make : A → HitId → DrumEvent F) (n : ℕ) (xs : List A)
        → length (numbered make n xs) ≡ length xs
    unfolding numbered
    length-numbered make n [] = refl
    length-numbered make n (x ∷ xs) = ap suc (length-numbered make (n + 1) xs)

    commit_new-IsValid :
        {A : Type 0} (make : A → HitId → DrumEvent F) (xs : List A)
        → ((a : A) (id : HitId) → (make a id).id ≡ id)
        → ((a : A) (id : HitId) → finite (make a id).t ≡ true)
        → IsValid (commit_new s (numbered make s.next_id xs))
    unfolding commit_new
    commit_new-IsValid make xs f g = commit-IsValid o s _ _ v (
        rw (length-numbered make s.next_id xs) (
          append-IsReady (numbered make s.next_id xs) s.last_vel (length xs)
            (ids_of-numbered make f s.next_id xs) (Timed-numbered make g s.next_id xs)))

    pub do_add-IsValid :
        (art : Articulation) (t : F) (vel : Option F) → IsValid (do_add s art t vel)
    unfolding do_add new_hit
    do_add-IsValid art t vel =
        commit-IsValid o s _ _ v
          (append-IsReady _ _ 1 refl (clamp_t-finite o t s.duration v.measured, tt))

    pub do_paste-IsValid : (at : F) → IsValid (do_paste s at)
    unfolding do_paste new_hit
    do_paste-IsValid at =
        if_both IsValid (length (or_else s.clipboard []) == 0) _ _ v
          (commit_new-IsValid _ _ (λ c id. refl) (λ c id. clamp_t-finite o _ s.duration v.measured))

    pub do_duplicate-IsValid : (offset : F) → IsValid (do_duplicate s offset)
    unfolding do_duplicate new_hit
    do_duplicate-IsValid offset =
        if_both IsValid (length (picked s) == 0) _ _ v
          (commit_new-IsValid _ _ (λ h id. refl) (λ h id. clamp_t-finite o _ s.duration v.measured))
