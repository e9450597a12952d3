-- ===== src/Drums/Editor/KeepHistory.antt =====
-- Gestures, undo and redo keep the invariant.
use rehearse_kit.Common.{
  All, Bool-cases, List, Option, [], arith, if_both, inl, inr, length, none, some, true, ◌-◌, ◌==◌,
  ◌∷◌, ◌≡◌, or_else,
}
use rehearse_kit.Drums.Double.{Double, IsOrdered}
use rehearse_kit.Drums.Types.{DrumEvent}
use rehearse_kit.Drums.Hits.{ids_of, keep_known, same_hits, last_of, but_last}
use rehearse_kit.Drums.Hits.Ids.{Within, Distinct, Within-keep, Within-mono, Distinct-keep}
use rehearse_kit.Drums.Hits.Pigeonhole.{has-same_hits}
use rehearse_kit.Drums.Editor.{HitArray, EditorState}
use rehearse_kit.Drums.Editor.Validity.{
  IsGood, AllGood, IsCapped, IsValid, OnSome, AllGood-push_past, length-push_past,
}
use rehearse_kit.Drums.Editor.History.{
  done, do_gesture_begin, do_gesture_end, do_undo, do_redo, restore, settle, end_from, undo_to,
  redo_to, undo_from, redo_from,
}

OnSome-or_else :
    {A : Type 0} (P : A → Type 0) (o : Option A) (a : A) → OnSome P o → P a → P (or_else o a)
OnSome-or_else P none a h p = p
OnSome-or_else P (some b) a h p = h

module _ {A : Type 0} where
  All-last_of : (P : A → Type 0) (xs : List A) → All P xs → OnSome P (last_of xs)
  unfolding last_of
  All-last_of P [] h = tt
  All-last_of P (x ∷ []) (p, h) = p
  All-last_of P (x ∷ y ∷ xs) (p, h) = All-last_of P (y ∷ xs) h

  All-but_last : (P : A → Type 0) (xs : List A) → All P xs → All P (but_last xs)
  unfolding but_last
  All-but_last P [] h = tt
  All-but_last P (x ∷ []) h = tt
  All-but_last P (x ∷ y ∷ xs) (p, h) = (p, All-but_last P (y ∷ xs) h)

  pub length-but_last : (xs : List A) → length (but_last xs) ≡ length xs - 1
  unfolding but_last
  length-but_last [] = omega arith
  length-but_last (x ∷ []) = omega arith
  length-but_last (x ∷ y ∷ xs) = omega (arith, length-but_last (y ∷ xs))

module _ {F : Type 0} ⦃d : Double F⦄ (o : IsOrdered d) (s : EditorState F) (v : IsValid s) where
  Within-keep_known :
      (hits : List (DrumEvent F)) → Within (ids_of hits) (keep_known s.selection hits)
  unfolding keep_known
  Within-keep_known hits = Within-keep (ids_of hits) s.selection

  Distinct-keep_known : (hits : List (DrumEvent F)) → Distinct (keep_known s.selection hits)
  unfolding keep_known
  Distinct-keep_known hits = Distinct-keep _ s.selection v.selected_once

  pub do_gesture_begin-IsValid : IsValid (do_gesture_begin s)
  unfolding do_gesture_begin
  do_gesture_begin-IsValid = if_both IsValid s.in_gesture _ _ v (record {
    current = v.current;
    backward = v.backward;
    forward = v.forward;
    start = v.current;
    start_past = v.backward;
    start_future = v.forward;
    known = v.known;
    selected_once = v.selected_once;
    capped = v.capped;
    start_capped = v.capped;
    measured = v.measured;
  })

  undo_step-IsValid :
      (hits : HitArray F) → IsGood s.next_id s.next_ref hits → IsValid (undo_to s hits)
  unfolding undo_to
  undo_step-IsValid hits g = record {
    current = g;
    backward = All-but_last (IsGood s.next_id s.next_ref) s.past v.backward;
    forward = (v.current, v.forward);
    start = v.start;
    start_past = v.start_past;
    start_future = v.start_future;
    known = Within-keep_known hits.items;
    selected_once = Distinct-keep_known hits.items;
    capped = omega (arith, v.capped, length-but_last s.past);
    start_capped = v.start_capped;
    measured = v.measured;
  }

  redo_step-IsValid :
      (hits : HitArray F) (rest : List (HitArray F))
      → AllGood s.next_id s.next_ref (hits ∷ rest)
      → IsValid (redo_to s hits rest)
  unfolding redo_to
  redo_step-IsValid hits rest (g, gs) = record {
    current = g;
    backward = AllGood-push_past s.next_id s.next_ref s.past s.hits v.backward v.current;
    forward = gs;
    start = v.start;
    start_past = v.start_past;
    start_future = v.start_future;
    known = Within-keep_known hits.items;
    selected_once = Distinct-keep_known hits.items;
    capped = ground (arith, v.capped, length-push_past s.past s.hits);
    start_capped = v.start_capped;
    measured = v.measured;
  }

  pub do_undo-IsValid : IsValid (do_undo s)
  unfolding do_undo undo_from
  do_undo-IsValid =
      if_both IsValid s.in_gesture _ _ v
        (go (last_of s.past) (All-last_of (IsGood s.next_id s.next_ref) s.past v.backward))
    where
      go :
          (l : Option (HitArray F))
          → OnSome (IsGood s.next_id s.next_ref) l
          → IsValid (undo_from s l)
      go none g = v
      go (some hits) g = undo_step-IsValid hits g

  pub do_redo-IsValid : IsValid (do_redo s)
  unfolding do_redo redo_from
  do_redo-IsValid = if_both IsValid s.in_gesture _ _ v (go s.future v.forward)
    where
      go : (l : List (HitArray F)) → AllGood s.next_id s.next_ref l → IsValid (redo_from s l)
      go [] g = v
      go (hits ∷ rest) g = redo_step-IsValid hits rest g

  done-IsValid : IsValid (done s)
  done-IsValid = record {
    current = v.current;
    backward = v.backward;
    forward = v.forward;
    start = tt;
    start_past = tt;
    start_future = tt;
    known = v.known;
    selected_once = v.selected_once;
    capped = v.capped;
    start_capped = tt;
    measured = v.measured;
  }

  settle-IsValid : IsValid (settle s)
  unfolding settle
  settle-IsValid = rw v.current.sorted done-IsValid

  restore-IsValid :
      (from : HitArray F)
      → IsGood s.next_id s.next_ref from
      → same_hits from.items s.hits.items ≡ true
      → IsValid (restore s from)
  unfolding restore
  restore-IsValid from g e = record {
    current = g;
    backward =
        OnSome-or_else (AllGood s.next_id s.next_ref) s.gesture_past s.past v.start_past v.backward;
    forward =
        OnSome-or_else (AllGood s.next_id s.next_ref) s.gesture_future s.future v.start_future
          v.forward;
    start = tt;
    start_past = tt;
    start_future = tt;
    known =
        Within-mono (ids_of s.hits.items) (ids_of from.items) s.selection
          (has-same_hits from.items s.hits.items e g.distinct) v.known;
    selected_once = v.selected_once;
    capped = OnSome-or_else IsCapped s.gesture_past s.past v.start_capped v.capped;
    start_capped = tt;
    measured = v.measured;
  }

  end_from-IsValid :
      (from : Option (HitArray F))
      → OnSome (IsGood s.next_id s.next_ref) from
      → IsValid (end_from from s)
  unfolding end_from
  end_from-IsValid none g = settle-IsValid
  end_from-IsValid (some from) g =
      if_both IsValid (from.ref == s.hits.ref) _ _ done-IsValid
        (elim (Bool-cases (same_hits from.items s.hits.items)) [
          | inl e ↦ rw e (restore-IsValid from g e)
          | inr e ↦ rw e settle-IsValid
        ])

  pub do_gesture_end-IsValid : IsValid (do_gesture_end s)
  unfolding do_gesture_end
  do_gesture_end-IsValid =
      if_both IsValid s.in_gesture _ _ (end_from-IsValid s.gesture_from v.start) v
