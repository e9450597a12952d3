-- ===== src/Drums/Editor/Commit.antt =====
-- web/src/lib/drums/model.ts: `initialEditor`, `toEvents`, `commit` and `commitIfChanged`.
use rehearse_kit.Common.{
  List, Option, [], false, if◌then◌else◌, is_some, map, none, or_else, some, ℕ, ◌+◌,
}
use rehearse_kit.Drums.Double.{Double, zero_f}
use rehearse_kit.Drums.Types.{HitId, DrumEvent, from_model, manual, vel_from_127}
use rehearse_kit.Drums.Hits.{any_of, next_manual_id, sort_hits}
use rehearse_kit.Drums.Editor.{HitArray, EditorState, push_past, same_array}

-- What a commit sets beside the hits.
pub record Patch (F : Type 0) : Type 0 where
  pub selection : List HitId
  pub last_vel : F
  pub next_id : ℕ

module _ {F : Type 0} where
  abbrev pub no_patch : EditorState F → Patch F
  no_patch s = record { selection = s.selection; last_vel = s.last_vel; next_id = s.next_id }

  -- A manual hit carries no model index.
  abbrev pub to_event : DrumEvent F → DrumEvent F
  to_event h = record h { model = elim h.src [ from_model ↦ h.model | manual ↦ none ] }

module _ {F : Type 0} ⦃d : Double F⦄ where
  open d use {of_ℕ, finite}

  unfoldable pub initial_editor : F → List (DrumEvent F) → EditorState F
  initial_editor duration hits = record {
    hits = record { ref = 0; items = sort_hits hits };
    selection = [];
    past = [];
    future = [];
    clipboard = none;
    last_vel = vel_from_127 (of_ℕ 100);
    next_id = next_manual_id hits 1;
    duration = if finite duration then duration else zero_f;
    in_gesture = false;
    gesture_from = none;
    gesture_changes = 0;
    gesture_past = none;
    gesture_future = none;
    changes = 0;
    next_ref = 1;
  }

  unfoldable pub to_events : EditorState F → List (DrumEvent F)
  to_events s = sort_hits (map to_event s.hits.items)

  -- `past` after a commit. In a gesture only its first change is an entry.
  unfoldable pub committed_past : EditorState F → List (HitArray F)
  committed_past s =
      if s.in_gesture
      then (if same_array s.gesture_from s.hits then push_past s.past s.hits else s.past)
      else push_past s.past s.hits

  -- In a gesture a future that is not empty is dropped, and elsewhere any: it is empty behind it.
  unfoldable pub commit : EditorState F → List (DrumEvent F) → Patch F → EditorState F
  commit s items patch = record s {
    hits = record { ref = s.next_ref; items = sort_hits items };
    selection = patch.selection;
    last_vel = patch.last_vel;
    next_id = patch.next_id;
    past = committed_past s;
    future = [];
    changes = s.changes + 1;
    next_ref = s.next_ref + 1;
  }

  abbrev pub edited : (DrumEvent F → Option (DrumEvent F)) → DrumEvent F → DrumEvent F
  edited f h = or_else (f h) h

  -- `none` is the state given, the same object.
  unfoldable pub commit_if_changed :
      EditorState F → (DrumEvent F → Option (DrumEvent F)) → Patch F → Option (EditorState F)
  commit_if_changed s f patch =
      if any_of (λ h. is_some (f h)) s.hits.items
      then some (commit s (map (edited f) s.hits.items) patch)
      else none

  -- `commitIfChanged(state, f)`
  unfoldable pub apply_edit : EditorState F → (DrumEvent F → Option (DrumEvent F)) → EditorState F
  apply_edit s f = or_else (commit_if_changed s f (no_patch s)) s
