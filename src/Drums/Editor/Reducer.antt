-- ===== src/Drums/Editor/Reducer.antt =====
-- web/src/lib/drums/model.ts: `editorReducer`, by the action's type.
use rehearse_kit.Common.{List, [], ◌∷◌}
use rehearse_kit.Drums.Double.{Double}
use rehearse_kit.Drums.Editor.{
  EditorState, EditorAction, load, add, erase, delete, select, select_range, gesture_begin,
  gesture_end, move_to, set_art, set_vel, vel_add, compress, vel_draw, set_time, quantize, nudge,
  copy, paste, duplicate, undo, redo,
}
use rehearse_kit.Drums.Editor.Selecting.{do_select, do_select_range}
use rehearse_kit.Drums.Editor.History.{do_gesture_begin, do_gesture_end, do_undo, do_redo}
use rehearse_kit.Drums.Editor.Edits.{
  do_load, do_add, do_erase, do_delete, do_move_to, do_set_art, do_set_vel, do_vel_add, do_compress,
  do_vel_draw, do_set_time, do_quantize, do_nudge, do_copy, do_paste, do_duplicate,
}

module _ {F : Type 0} ⦃d : Double F⦄ where
  unfoldable pub reduce : EditorState F → EditorAction F → EditorState F
  reduce s (load hits) = do_load s hits
  reduce s (add art t vel) = do_add s art t vel
  reduce s (erase id) = do_erase s id
  reduce s delete = do_delete s
  reduce s (select ids mode) = do_select s ids mode
  reduce s (select_range t0 t1 arts adding) = do_select_range s t0 t1 arts adding
  reduce s gesture_begin = do_gesture_begin s
  reduce s gesture_end = do_gesture_end s
  reduce s (move_to base dt art) = do_move_to s base dt art
  reduce s (set_art art) = do_set_art s art
  reduce s (set_vel vel) = do_set_vel s vel
  reduce s (vel_add delta) = do_vel_add s delta
  reduce s compress = do_compress s
  reduce s (vel_draw vels) = do_vel_draw s vels
  reduce s (set_time t) = do_set_time s t
  reduce s (quantize snap strength) = do_quantize s snap strength
  reduce s (nudge dt) = do_nudge s dt
  reduce s copy = do_copy s
  reduce s (paste at) = do_paste s at
  reduce s (duplicate offset) = do_duplicate s offset
  reduce s undo = do_undo s
  reduce s redo = do_redo s

  -- A session.
  abbrev pub run : EditorState F → List (EditorAction F) → EditorState F
  run s [] = s
  run s (a ∷ actions) = run (reduce s a) actions
