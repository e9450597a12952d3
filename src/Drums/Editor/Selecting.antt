-- ===== src/Drums/Editor/Selecting.antt =====
-- web/src/lib/drums/model.ts: the cases 'select' and 'selectRange' of `editorReducer`.
use rehearse_kit.Common.{Bool, List, Option, [], if◌then◌else◌, none, some, true, ◌++◌, ◌∷◌}
use rehearse_kit.Drums.Double.{Double, min_js, max_js}
use rehearse_kit.Drums.Types.{HitId, DrumEvent, Articulation, id_eq, art_eq}
use rehearse_kit.Drums.Hits.{keep, any_of, has, without, dedupe, same_ids, ids_of}
use rehearse_kit.Drums.Editor.{EditorState, SelectMode, replace, extend, toggle}

-- `splice(i, 1)` at the first place, or `push`.
unfoldable pub toggle_id : HitId → List HitId → List HitId
toggle_id id [] = id ∷ []
toggle_id id (x ∷ xs) = if id_eq x id then xs else x ∷ toggle_id id xs

unfoldable pub toggle_all : List HitId → List HitId → List HitId
toggle_all [] selection = selection
toggle_all (id ∷ given) selection = toggle_all given (toggle_id id selection)

unfoldable pub select_with : SelectMode → List HitId → List HitId → List HitId
select_with replace given selection = given
select_with extend given selection = without selection given ++ given
select_with toggle given selection = toggle_all given selection

module _ {F : Type 0} where
  -- `sameIds(selection, state.selection) ? state : { ...state, selection }`
  unfoldable pub set_selection : EditorState F → List HitId → EditorState F
  set_selection s selection =
      if same_ids selection s.selection then s else record s { selection = selection }

  unfoldable pub do_select : EditorState F → List HitId → SelectMode → EditorState F
  unfolding set_selection
  do_select s ids mode =
      let given = dedupe (keep (has (ids_of s.hits.items)) ids) in
      set_selection s (select_with mode given s.selection)

abbrev pub wanted : Option (List Articulation) → Articulation → Bool
wanted none art = true
wanted (some arts) art = any_of (art_eq art) arts

module _ {F : Type 0} ⦃d : Double F⦄ where
  open d use {lt}

  -- The loop: `continue` before the range, `break` behind it.
  unfoldable pub scan_range : F → F → Option (List Articulation) → List (DrumEvent F) → List HitId
  scan_range lo hi arts [] = []
  scan_range lo hi arts (h ∷ hits) =
      let rest = scan_range lo hi arts hits in
      if lt h.t lo
      then rest
      else (if lt hi h.t then [] else (if wanted arts h.art then h.id ∷ rest else rest))

  unfoldable pub do_select_range :
      EditorState F → F → F → Option (List Articulation) → Bool → EditorState F
  unfolding set_selection
  do_select_range s t0 t1 arts adding =
      let in_range = scan_range (min_js t0 t1) (max_js t0 t1) arts s.hits.items in
      set_selection s (if adding then without s.selection in_range ++ in_range else in_range)
