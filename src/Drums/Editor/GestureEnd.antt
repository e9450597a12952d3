-- ===== src/Drums/Editor/GestureEnd.antt =====
-- How a gesture ends.
use rehearse_kit.Common.{
  List, [], ==_refl, arith, false, if_both, inl, inr, refl, some, true, ◌++◌, ◌<◌, ◌==◌, ◌∷◌, ◌≡◌,
  ◌⊎◌,
}
use rehearse_kit.Drums.Double.{Double}
use rehearse_kit.Drums.Hits.{is_sorted, same_hits}
use rehearse_kit.Drums.Editor.{EditorState, EditorAction, gesture_begin, gesture_end, push_past}
use rehearse_kit.Drums.Editor.History.{
  done, do_undo, undo_from, undo_to, do_gesture_begin, do_gesture_end, restore, settle, end_from,
}
use rehearse_kit.Drums.Editor.Reducer.{reduce, run}
use rehearse_kit.Drums.Editor.UndoRedo.{last_of-push_past}
use rehearse_kit.Drums.Editor.Gestures.{
  AllWithin, IsUntouched, IsTouched, InGesture, reduce-InGesture,
}

module _ {F : Type 0} ⦃d : Double F⦄ where
  run-InGesture :
      (s : EditorState F)
      → s.hits.ref < s.next_ref
      → (t : EditorState F) (actions : List (EditorAction F)) → InGesture s t
      → AllWithin actions
      → InGesture s (run t actions)
  run-InGesture s old t [] g w = g
  run-InGesture s old t (a ∷ actions) g (w, ws) =
      run-InGesture s old (reduce t a) actions (reduce-InGesture s old t g a w) ws

  begun : (s : EditorState F) → s.in_gesture ≡ false → InGesture s (do_gesture_begin s)
  unfolding do_gesture_begin
  begun s out = simp out (record {
    active = refl;
    start = refl;
    start_past = refl;
    start_future = refl;
    start_changes = refl;
    refs = omega arith;
    state = inl (record { hits = refl; past = refl; future = refl; changes = refl });
  })

  -- How a gesture that began at `s` may end.
  pub data Ended (s e : EditorState F) : Type 0 where
    -- nothing changed, or it came back: hits, history and change count are those of the start
    unchanged :
        e.hits ≡ s.hits → e.past ≡ s.past → e.future ≡ s.future → e.changes ≡ s.changes → Ended s e
    -- one entry, from which undo gives back the hits of the start
    one_step :
        e.past ≡ push_past s.past s.hits → e.future ≡ [] → (do_undo e).hits ≡ s.hits → Ended s e

  abbrev IsOver : EditorState F → EditorState F → Type 0
  IsOver s e = (e.in_gesture ≡ false) × Ended s e

  module _ (s t : EditorState F) (g : InGesture s t) where
    -- A state outside every gesture with one new entry.
    stepped :
        (e : EditorState F)
        → e.in_gesture ≡ false
        → e.past ≡ push_past s.past s.hits
        → e.future ≡ []
        → Ended s e
    unfolding do_undo undo_from undo_to
    stepped e out p f =
        let undone : (do_undo e).hits ≡ s.hits =
          rw (out, p, last_of-push_past s.past s.hits) refl in
        one_step p f undone

    done-IsOver : IsUntouched s t → IsOver s (done t)
    done-IsOver w = (refl, unchanged w.hits w.past w.future w.changes)

    restore-IsOver : IsOver s (restore t s.hits)
    unfolding restore
    restore-IsOver =
        (refl, unchanged refl (rw g.start_past refl) (rw g.start_future refl) g.start_changes)

    settle-IsOver : IsTouched s t → IsOver s (settle t)
    unfolding settle
    settle-IsOver w =
        if_both (IsOver s) (is_sorted t.hits.items) _ _ (refl, stepped _ refl w.past w.future)
          (refl, stepped _ refl w.past w.future)

    end_from-IsOver :
        s.hits.ref < s.next_ref
        → IsUntouched s t ⊎ IsTouched s t
        → IsOver s (end_from (some s.hits) t)
    unfolding end_from
    end_from-IsOver old (inl w) =
        let same : (s.hits.ref == t.hits.ref) ≡ true = rw w.hits (==_refl s.hits.ref) in
        rw same (done-IsOver w)
    end_from-IsOver old (inr w) =
        let other : (s.hits.ref == t.hits.ref) ≡ false = ground arith in
        rw other (
          if_both (IsOver s) (same_hits s.hits.items t.hits.items) _ _ restore-IsOver
            (settle-IsOver w))

    end-IsOver : s.hits.ref < s.next_ref → IsOver s (do_gesture_end t)
    unfolding do_gesture_end
    end-IsOver old = simp (g.active, g.start) (end_from-IsOver old g.state)

  run-append :
      (t : EditorState F) (as' bs : List (EditorAction F)) → run t (as' ++ bs) ≡ run (run t as') bs
  run-append t [] bs = refl
  run-append t (a ∷ as') bs = run-append (reduce t a) as' bs

  -- Outside a gesture, with the number of the hits' array below the next number, a gesture of
  -- any actions but load and gestureEnd ends outside a gesture; it leaves hits, history and
  -- change count as they were, or leaves one entry more with nothing to redo, and then one undo
  -- gives back the hits from before it.
  pub gesture_one_step :
      (s : EditorState F) (actions : List (EditorAction F))
      → s.in_gesture ≡ false
      → s.hits.ref < s.next_ref
      → AllWithin actions
      → ((run s (gesture_begin ∷ actions ++ (gesture_end ∷ []))).in_gesture ≡ false)
        × Ended s (run s (gesture_begin ∷ actions ++ (gesture_end ∷ [])))
  unfolding reduce
  gesture_one_step s actions out old w =
      rw (run-append (do_gesture_begin s) actions (gesture_end ∷ []))
        (end-IsOver s _ (run-InGesture s old (do_gesture_begin s) actions (begun s out) w) old)
