-- ===== src/Drums/Editor/Sessions.antt =====
-- The invariant over whole sessions of the editor.
use rehearse_kit.Common.{All, List, [], arith, ◌∷◌}
use rehearse_kit.Drums.Double.{Double, IsOrdered}
use rehearse_kit.Drums.Types.{DrumEvent}
use rehearse_kit.Drums.Hits.{ids_of}
use rehearse_kit.Drums.Hits.Ids.{Distinct}
use rehearse_kit.Drums.Hits.Sorting.{Timed}
use rehearse_kit.Drums.Editor.{
  EditorState, EditorAction, load, add, erase, delete, select, select_range, gesture_begin,
  gesture_end, move_to, set_art, set_vel, vel_add, compress, vel_draw, set_time, quantize, nudge,
  copy, paste, duplicate, undo, redo,
}
use rehearse_kit.Drums.Editor.Validity.{IsValid, IsGood-sort_hits}
use rehearse_kit.Drums.Editor.Commit.{initial_editor}
use rehearse_kit.Drums.Editor.Reducer.{reduce, run}
use rehearse_kit.Drums.Editor.KeepEdits.{
  do_move_to-IsValid, do_set_art-IsValid, do_set_vel-IsValid, do_vel_add-IsValid,
  do_compress-IsValid, do_vel_draw-IsValid, do_set_time-IsValid, do_quantize-IsValid,
  do_nudge-IsValid,
}
use rehearse_kit.Drums.Editor.KeepLists.{do_add-IsValid, do_paste-IsValid, do_duplicate-IsValid}
use rehearse_kit.Drums.Editor.KeepRemovals.{
  do_erase-IsValid, do_delete-IsValid, do_copy-IsValid, do_load-IsValid, next_manual_id-Below,
}
use rehearse_kit.Drums.Editor.KeepHistory.{
  do_gesture_begin-IsValid, do_gesture_end-IsValid, do_undo-IsValid, do_redo-IsValid,
}
use rehearse_kit.Drums.Editor.KeepSelection.{do_select-IsValid, do_select_range-IsValid}

module _ {F : Type 0} ⦃d : Double F⦄ where
  -- What the server sends: every time a number, and no id twice.
  abbrev pub IsDocument : List (DrumEvent F) → Type 0
  IsDocument hits = All (Timed {F = F}) hits × Distinct (ids_of hits)

  abbrev pub IsAllowed : EditorAction F → Type 0
  IsAllowed (load hits) = IsDocument hits
  IsAllowed _ = Unit {0}

  abbrev pub AllAllowed : List (EditorAction F) → Type 0
  AllAllowed = All IsAllowed

  module _ (o : IsOrdered d) where
    pub initial_editor-IsValid :
        (duration : F) (hits : List (DrumEvent F))
        → IsDocument hits
        → IsValid (initial_editor duration hits)
    unfolding initial_editor
    initial_editor-IsValid duration hits k = record {
      current = IsGood-sort_hits o _ 0 1 hits (omega arith) k.0 (next_manual_id-Below hits 1) k.1;
      backward = tt;
      forward = tt;
      start = tt;
      start_past = tt;
      start_future = tt;
      known = tt;
      selected_once = tt;
      capped = omega arith;
      start_capped = tt;
      measured = ground (arith, o.finite_zero);
    }

    -- With the laws of an order, every action keeps the invariant of the editor (the hits and
    -- every array of the history sorted, no id twice, manual ids below the next; the selection
    -- only ids of hits; at most 100 entries of history); a load is given a document with times
    -- that are numbers and no id twice.
    pub reduce-IsValid :
        (s : EditorState F) (a : EditorAction F) → IsAllowed a → IsValid s → IsValid (reduce s a)
    unfolding reduce
    reduce-IsValid s (load hits) k v = do_load-IsValid o s v hits k
    reduce-IsValid s (add art t vel) k v = do_add-IsValid o s v art t vel
    reduce-IsValid s (erase id) k v = do_erase-IsValid o s v id
    reduce-IsValid s delete k v = do_delete-IsValid o s v
    reduce-IsValid s (select ids mode) k v = do_select-IsValid s v ids mode
    reduce-IsValid s (select_range t0 t1 arts adding) k v =
        do_select_range-IsValid s v t0 t1 arts adding
    reduce-IsValid s gesture_begin k v = do_gesture_begin-IsValid o s v
    reduce-IsValid s gesture_end k v = do_gesture_end-IsValid o s v
    reduce-IsValid s (move_to base dt art) k v = do_move_to-IsValid o s v base dt art
    reduce-IsValid s (set_art art) k v = do_set_art-IsValid o s v art
    reduce-IsValid s (set_vel vel) k v = do_set_vel-IsValid o s v vel
    reduce-IsValid s (vel_add delta) k v = do_vel_add-IsValid o s v delta
    reduce-IsValid s compress k v = do_compress-IsValid o s v
    reduce-IsValid s (vel_draw vels) k v = do_vel_draw-IsValid o s v vels
    reduce-IsValid s (set_time t) k v = do_set_time-IsValid o s v t
    reduce-IsValid s (quantize snap strength) k v = do_quantize-IsValid o s v snap strength
    reduce-IsValid s (nudge dt) k v = do_nudge-IsValid o s v dt
    reduce-IsValid s copy k v = do_copy-IsValid o s v
    reduce-IsValid s (paste at) k v = do_paste-IsValid o s v at
    reduce-IsValid s (duplicate offset) k v = do_duplicate-IsValid o s v offset
    reduce-IsValid s undo k v = do_undo-IsValid o s v
    reduce-IsValid s redo k v = do_redo-IsValid o s v

    -- With the laws of an order, from a valid editor, after any sequence of actions (each load
    -- given a document with times that are numbers and no id twice) the editor is valid: the
    -- hits and every array of the history are sorted by time, hold no id twice and only manual
    -- ids below the next one; the selection has only ids of hits, none twice; the history has at
    -- most 100 entries.
    pub run-IsValid :
        (s : EditorState F) (actions : List (EditorAction F))
        → AllAllowed actions
        → IsValid s
        → IsValid (run s actions)
    run-IsValid s [] k v = v
    run-IsValid s (a ∷ actions) (k, ks) v =
        run-IsValid (reduce s a) actions ks (reduce-IsValid s a k v)
