-- ===== src/Drums/Editor.antt =====
-- web/src/lib/drums/model.ts: the editor's state, its actions and the reducer.
-- Arrays of hits are compared by identity (`===`) in gestures, so an array is its items with the
-- number of its allocation, and the state carries the next number. Single hits are compared by
-- identity only in `commitIfChanged`, where the mapped function says whether it made a new object.
pub mod Validity
pub mod Commit
pub mod Selecting
pub mod History
pub mod Edits
pub mod Reducer
pub mod KeepEdits
pub mod Gestures
pub mod GestureEnd
pub mod UndoRedo
pub mod Sessions
pub mod KeepSelection
pub mod KeepHistory
pub mod KeepRemovals
pub mod KeepLists
mod Examples
use rehearse_kit.Common.{
  ℕ, Bool, List, Option, [], drop, false, if◌then◌else◌, leb, length, none, some, ◌++◌, ◌+◌, ◌-◌,
  ◌==◌, ◌∷◌,
}
use rehearse_kit.Drums.Types.{HitId, DrumEvent, Articulation}
use rehearse_kit.Drums.Hits.{find_hit, last_of, index_get}

pub record HitArray (F : Type 0) : Type 0 where
  pub ref : ℕ
  pub items : List (DrumEvent F)

pub record ClipItem (F : Type 0) : Type 0 where
  pub art : Articulation
  pub dt : F
  pub vel : F

pub record EditorState (F : Type 0) : Type 0 where
  pub hits : HitArray F
  pub selection : List HitId
  -- oldest first
  pub past : List (HitArray F)
  -- next first
  pub future : List (HitArray F)
  pub clipboard : Option (List (ClipItem F))
  pub last_vel : F
  pub next_id : ℕ
  pub duration : F
  pub in_gesture : Bool
  pub gesture_from : Option (HitArray F)
  pub gesture_changes : ℕ
  pub gesture_past : Option (List (HitArray F))
  pub gesture_future : Option (List (HitArray F))
  pub changes : ℕ
  -- not in the source: the number of the next array that is made
  pub next_ref : ℕ

pub data SelectMode : Type 0 where
  replace extend toggle : SelectMode

pub data EditorAction (F : Type 0) : Type 0 where
  load : List (DrumEvent F) → EditorAction F
  add : Articulation → F → Option F → EditorAction F
  erase : HitId → EditorAction F
  delete : EditorAction F
  select : List HitId → SelectMode → EditorAction F
  -- t0, t1, arts, and whether the mode is 'add'
  select_range : F → F → Option (List Articulation) → Bool → EditorAction F
  gesture_begin gesture_end : EditorAction F
  move_to : (HitId → Option (F × Articulation)) → F → Option Articulation → EditorAction F
  set_art : Articulation → EditorAction F
  set_vel : F → EditorAction F
  vel_add : F → EditorAction F
  compress : EditorAction F
  vel_draw : (HitId → Option F) → EditorAction F
  set_time : F → EditorAction F
  quantize : (F → F) → F → EditorAction F
  nudge : F → EditorAction F
  copy : EditorAction F
  paste : F → EditorAction F
  duplicate : F → EditorAction F
  undo redo : EditorAction F

abbrev pub history_limit : ℕ
history_limit = 100

module _ {F : Type 0} where
  unfoldable pub push_past : List (HitArray F) → HitArray F → List (HitArray F)
  push_past past hits =
      (if leb history_limit (length past)
        then drop (length past - history_limit + 1) past
        else past)
      ++ (hits ∷ [])

  abbrev pub same_array : Option (HitArray F) → HitArray F → Bool
  same_array none b = false
  same_array (some a) b = a.ref == b.ref

  unfoldable pub primary : EditorState F → Option (DrumEvent F)
  primary s = elim (last_of s.selection) [ none ↦ none | some id ↦ find_hit id s.hits.items ]

  lookup_all : List (DrumEvent F) → List HitId → List (DrumEvent F)
  lookup_all hits [] = []
  lookup_all hits (id ∷ ids) = elim (index_get id hits) [
    | none ↦ lookup_all hits ids
    | some h ↦ h ∷ lookup_all hits ids
  ]

  unfoldable pub selected_hits : EditorState F → List (DrumEvent F)
  unfolding lookup_all
  selected_hits s = lookup_all s.hits.items s.selection
