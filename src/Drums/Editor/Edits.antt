-- ===== src/Drums/Editor/Edits.antt =====
-- web/src/lib/drums/model.ts: the cases of `editorReducer` that change hits.
use rehearse_kit.Common.{
  List, Option, [], false, if◌then◌else◌, length, map, none, not, or_else, some, ℕ, ◌&&◌, ◌++◌, ◌+◌,
  ◌==◌, ◌||◌, ◌∷◌,
}
use rehearse_kit.Drums.Double.{Double, zero_f, one_f, truthy}
use rehearse_kit.Drums.Types.{
  HitId, u, DrumEvent, Articulation, manual, id_eq, art_eq, vel_from_127, vel_to_127,
}
use rehearse_kit.Drums.Hits.{
  keep, has, without, remove_first, ids_of, clamp_t, clamp_vel, next_manual_id, sort_hits,
}
use rehearse_kit.Drums.Editor.{EditorState, primary}
use rehearse_kit.Drums.Editor.Commit.{no_patch, commit, commit_if_changed, apply_edit}

module _ {F : Type 0} where
  -- The hits that are selected, in the order of the hits.
  unfoldable pub picked : EditorState F → List (DrumEvent F)
  picked s = keep (λ h. has s.selection h.id) s.hits.items

  -- An edit of the selected hits alone.
  abbrev pub on_selected :
      EditorState F → (DrumEvent F → Option (DrumEvent F)) → DrumEvent F → Option (DrumEvent F)
  on_selected s f h = if has s.selection h.id then f h else none

  -- `{ id: u<n + i>, ... }` for the i-th item.
  unfoldable pub numbered :
      {A : Type 0} → (A → HitId → DrumEvent F) → ℕ → List A → List (DrumEvent F)
  numbered make n [] = []
  numbered make n (x ∷ xs) = make x (u 0 n) ∷ numbered make (n + 1) xs

  unfoldable pub new_hit : HitId → Articulation → F → F → DrumEvent F
  new_hit id art t vel = record { id = id; art = art; t = t; vel = vel; src = manual; model = none }

  -- `{ ...state, clipboard }` at the hits picked, relative to the first of them.
  unfoldable pub clip_from : (F → F → F) → List (DrumEvent F) → EditorState F → EditorState F
  clip_from sub [] s = s
  clip_from sub (first ∷ rest) s = record s {
    clipboard =
        some (map (λ h. record { art = h.art; dt = sub h.t first.t; vel = h.vel }) (first ∷ rest));
  }

module _ {F : Type 0} ⦃d : Double F⦄ where
  open d use {of_ℕ, half, lt, same, finite, round}

  -- `t === h.t ? h : { ...h, t }`, and so for a velocity.
  abbrev pub at_time : F → DrumEvent F → Option (DrumEvent F)
  at_time t h = if d.same t h.t then none else some (record h { t = t })

  abbrev pub at_vel : F → DrumEvent F → Option (DrumEvent F)
  at_vel vel h = if d.same vel h.vel then none else some (record h { vel = vel })

  unfoldable pub do_load : EditorState F → List (DrumEvent F) → EditorState F
  do_load s hits = record s {
    hits = record { ref = s.next_ref; items = sort_hits hits };
    selection = [];
    past = [];
    future = [];
    next_id = next_manual_id hits s.next_id;
    in_gesture = false;
    gesture_from = none;
    gesture_changes = 0;
    gesture_past = none;
    gesture_future = none;
    changes = s.changes + 1;
    next_ref = s.next_ref + 1;
  }

  unfoldable pub do_add : EditorState F → Articulation → F → Option F → EditorState F
  unfolding new_hit
  do_add s art t vel =
      let v = clamp_vel (or_else vel s.last_vel) in
      let id = u 0 s.next_id in
      commit s (s.hits.items ++ (new_hit id art (clamp_t t s.duration) v ∷ []))
        (record { selection = id ∷ []; last_vel = v; next_id = s.next_id + 1 })

  unfoldable pub do_erase : EditorState F → HitId → EditorState F
  do_erase s id =
      if has (ids_of s.hits.items) id
      then commit s (remove_first id s.hits.items)
          (record (no_patch s) { selection = without s.selection (id ∷ []) })
      else s

  unfoldable pub do_delete : EditorState F → EditorState F
  do_delete s =
      if length s.selection == 0
      then s
      else commit s (keep (λ h. not (has s.selection h.id)) s.hits.items)
          (record (no_patch s) { selection = [] })

  -- `none` is a hit that the drag's base does not name.
  unfoldable pub place :
      Option Articulation → F → F → DrumEvent F → Option (F × Articulation) → Option (DrumEvent F)
  place art dt duration h none = none
  place art dt duration h (some (t0, art0)) =
      let t = clamp_t (d.add t0 dt) duration in
      let a = or_else art art0 in
      if d.same t h.t && art_eq a h.art then none else some (record h { t = t; art = a })

  unfoldable pub do_move_to :
      EditorState F → (HitId → Option (F × Articulation)) → F → Option Articulation → EditorState F
  do_move_to s base dt art = apply_edit s (λ h. place art dt s.duration h (base h.id))

  unfoldable pub do_set_art : EditorState F → Articulation → EditorState F
  do_set_art s art =
      apply_edit s
        (on_selected s (λ h. if art_eq h.art art then none else some (record h { art = art })))

  -- The two `return` statements behind `commitIfChanged`.
  unfoldable pub or_last_vel : EditorState F → F → Option (EditorState F) → EditorState F
  or_last_vel s vel (some next) = next
  or_last_vel s vel none = if d.same s.last_vel vel then s else record s { last_vel = vel }

  unfoldable pub do_set_vel : EditorState F → F → EditorState F
  do_set_vel s raw =
      let vel = clamp_vel raw in
      or_last_vel s vel
        (commit_if_changed s (on_selected s (at_vel vel)) (record (no_patch s) { last_vel = vel }))

  unfoldable pub do_vel_add : EditorState F → F → EditorState F
  do_vel_add s delta =
      if not (finite delta) || d.same delta zero_f
      then s
      else apply_edit s
          (on_selected s (λ h. at_vel (vel_from_127 (d.add (vel_to_127 h.vel) delta)) h))

  -- round(64 + (v127 - 64) * 0.5)
  unfoldable pub squeezed : F → F
  squeezed v = round (d.add (of_ℕ 64) (d.mul (d.sub (vel_to_127 v) (of_ℕ 64)) half))

  unfoldable pub do_compress : EditorState F → EditorState F
  do_compress s = apply_edit s (on_selected s (λ h. at_vel (vel_from_127 (squeezed h.vel)) h))

  -- `none` is a hit that is not drawn over.
  unfoldable pub draw : DrumEvent F → Option F → Option (DrumEvent F)
  draw h none = none
  draw h (some raw) = at_vel (clamp_vel raw) h

  unfoldable pub do_vel_draw : EditorState F → (HitId → Option F) → EditorState F
  do_vel_draw s vels = apply_edit s (λ h. draw h (vels h.id))

  abbrev pub shift_edit : DrumEvent F → F → F → F → DrumEvent F → Option (DrumEvent F)
  shift_edit p target dt duration h =
      at_time (if id_eq h.id p.id then target else clamp_t (d.add h.t dt) duration) h

  unfoldable pub set_time_of : Option (DrumEvent F) → EditorState F → F → EditorState F
  set_time_of none s t = s
  set_time_of (some p) s t =
      let target = clamp_t t s.duration in
      let dt = d.sub target p.t in
      if d.same dt zero_f
      then s
      else apply_edit s (on_selected s (shift_edit p target dt s.duration))

  unfoldable pub do_set_time : EditorState F → F → EditorState F
  unfolding set_time_of
  do_set_time s t = set_time_of (primary s) s t

  -- The snapped time, or as much of the way as the strength says.
  abbrev pub snap_edit : (F → F) → F → F → DrumEvent F → Option (DrumEvent F)
  snap_edit snap strength duration h =
      let target = snap h.t in
      if not (finite target)
      then none
      else at_time
          (clamp_t
            (if not (lt strength one_f)
              then target
              else d.add h.t (d.mul (d.sub target h.t) strength))
            duration)
          h

  unfoldable pub do_quantize : EditorState F → (F → F) → F → EditorState F
  do_quantize s snap strength =
      if (length s.selection == 0) || not (lt zero_f strength)
      then s
      else apply_edit s (on_selected s (snap_edit snap strength s.duration))

  unfoldable pub do_nudge : EditorState F → F → EditorState F
  do_nudge s dt =
      if (length s.selection == 0) || not (truthy dt)
      then s
      else apply_edit s (on_selected s (λ h. at_time (clamp_t (d.add h.t dt) s.duration) h))

  unfoldable pub do_copy : EditorState F → EditorState F
  unfolding clip_from
  do_copy s = clip_from d.sub (picked s) s

  -- `commit` with new hits behind the old ones, which are the new selection.
  unfoldable pub commit_new : EditorState F → List (DrumEvent F) → EditorState F
  commit_new s added =
      commit s (s.hits.items ++ added)
        (record (no_patch s) { selection = ids_of added; next_id = s.next_id + length added })

  unfoldable pub do_paste : EditorState F → F → EditorState F
  unfolding new_hit
  do_paste s at =
      let items = or_else s.clipboard [] in
      if length items == 0
      then s
      else commit_new s (
          numbered (λ c id. new_hit id c.art (clamp_t (d.add at c.dt) s.duration) (clamp_vel c.vel))
            s.next_id items)

  unfoldable pub do_duplicate : EditorState F → F → EditorState F
  unfolding new_hit
  do_duplicate s offset =
      if length (picked s) == 0
      then s
      else commit_new s (
          numbered (λ h id. new_hit id h.art (clamp_t (d.add h.t offset) s.duration) h.vel)
            s.next_id (picked s))
