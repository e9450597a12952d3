-- ===== src/Drums/Editor/History.antt =====
-- web/src/lib/drums/model.ts: gestures, undo and redo in `editorReducer`.
use rehearse_kit.Common.{
  Option, [], false, if◌then◌else◌, none, or_else, some, true, ◌+◌, ◌==◌, ◌∷◌, List,
}
use rehearse_kit.Drums.Double.{Double}
use rehearse_kit.Drums.Hits.{keep_known, is_sorted, stable_sort, same_hits, last_of, but_last}
use rehearse_kit.Drums.Editor.{HitArray, EditorState, push_past}

module _ {F : Type 0} where
  unfoldable pub do_gesture_begin : EditorState F → EditorState F
  do_gesture_begin s = if s.in_gesture then s else record s {
    in_gesture = true;
    gesture_from = some s.hits;
    gesture_changes = s.changes;
    gesture_past = some s.past;
    gesture_future = some s.future;
  }

  abbrev pub done : EditorState F → EditorState F
  done s = record s {
    in_gesture = false;
    gesture_from = none;
    gesture_past = none;
    gesture_future = none;
  }

  -- The state that undo returns for the array `hits`, the last of the past.
  unfoldable pub undo_to : EditorState F → HitArray F → EditorState F
  undo_to s hits = record s {
    hits = hits;
    selection = keep_known s.selection hits.items;
    past = but_last s.past;
    future = s.hits ∷ s.future;
    changes = s.changes + 1;
  }

  unfoldable pub undo_from : EditorState F → Option (HitArray F) → EditorState F
  undo_from s none = s
  undo_from s (some hits) = undo_to s hits

  unfoldable pub do_undo : EditorState F → EditorState F
  do_undo s = if s.in_gesture then s else undo_from s (last_of s.past)

  unfoldable pub redo_to : EditorState F → HitArray F → List (HitArray F) → EditorState F
  redo_to s hits rest = record s {
    hits = hits;
    selection = keep_known s.selection hits.items;
    past = push_past s.past s.hits;
    future = rest;
    changes = s.changes + 1;
  }

  unfoldable pub redo_from : EditorState F → List (HitArray F) → EditorState F
  redo_from s [] = s
  redo_from s (hits ∷ rest) = redo_to s hits rest

  unfoldable pub do_redo : EditorState F → EditorState F
  do_redo s = if s.in_gesture then s else redo_from s s.future

module _ {F : Type 0} ⦃d : Double F⦄ where
  -- The hits were changed and came back: everything is put back as the gesture found it.
  unfoldable pub restore : EditorState F → HitArray F → EditorState F
  restore s from = record (done s) {
    hits = from;
    past = or_else s.gesture_past s.past;
    future = or_else s.gesture_future s.future;
    changes = s.gesture_changes;
  }

  -- A new array only where the hits are not sorted.
  unfoldable pub settle : EditorState F → EditorState F
  settle s = if is_sorted s.hits.items then done s else record (done s) {
    hits = record { ref = s.next_ref; items = stable_sort s.hits.items };
    next_ref = s.next_ref + 1;
  }

  unfoldable pub end_from : Option (HitArray F) → EditorState F → EditorState F
  end_from none s = settle s
  end_from (some from) s =
      if from.ref == s.hits.ref
      then done s
      else (if same_hits from.items s.hits.items then restore s from else settle s)

  unfoldable pub do_gesture_end : EditorState F → EditorState F
  do_gesture_end s = if s.in_gesture then end_from s.gesture_from s else s
