-- ===== src/Drums/Editor/Gestures.antt =====
-- A gesture, a drag or a stroke of any length, is one undo step or none.
use rehearse_kit.Common.{
  ==_refl, List, Option, [], arith, false, if_both, inl, inr, is_some, length, none, not, or_else,
  refl, some, true, ◌<◌, ◌==◌, ◌||◌, ◌∷◌, ◌≡◌, ◌≤◌, ◌⊎◌, All,
}
use rehearse_kit.Drums.Double.{zero_f, truthy, Double}
use rehearse_kit.Drums.Types.{HitId, DrumEvent}
use rehearse_kit.Drums.Hits.{any_of, has, ids_of, same_ids, clamp_t, clamp_vel}
use rehearse_kit.Drums.Editor.{
  ClipItem, primary, EditorState, EditorAction, load, add, erase, delete, select, select_range,
  gesture_begin, gesture_end, move_to, set_art, set_vel, vel_add, compress, vel_draw, set_time,
  quantize, nudge, copy, paste, duplicate, undo, redo, push_past,
}
use rehearse_kit.Drums.Editor.Commit.{Patch, commit, committed_past, commit_if_changed, apply_edit}
use rehearse_kit.Drums.Editor.Selecting.{set_selection, do_select, do_select_range}
use rehearse_kit.Drums.Editor.History.{do_undo, do_redo, do_gesture_begin}
use rehearse_kit.Drums.Editor.Edits.{
  on_selected, at_vel, or_last_vel, do_add, do_erase, do_delete, do_move_to, do_set_art, do_set_vel,
  or_last_vel, do_vel_add, do_compress, do_vel_draw, do_set_time, set_time_of, do_quantize,
  do_nudge, do_copy, clip_from, picked, do_paste, do_duplicate, commit_new,
}
use rehearse_kit.Drums.Editor.Reducer.{reduce}

module _ {F : Type 0} ⦃d : Double F⦄ where
  -- What a drag may do: anything but load another document or end the gesture.
  abbrev pub IsWithin : EditorAction F → Type 0
  IsWithin (load hits) = ⊥
  IsWithin gesture_end = ⊥
  IsWithin _ = Unit {0}

  module _ (s : EditorState F) where
    -- Nothing has changed since the gesture began at `s`.
    pub record IsUntouched (t : EditorState F) : Type 0 where
      pub hits : t.hits ≡ s.hits
      pub past : t.past ≡ s.past
      pub future : t.future ≡ s.future
      pub changes : t.changes ≡ s.changes

    -- Something has: the hits at the start are the last entry of the past.
    pub record IsTouched (t : EditorState F) : Type 0 where
      pub hits : s.next_ref ≤ t.hits.ref
      pub past : t.past ≡ push_past s.past s.hits
      pub future : t.future ≡ []

    pub record InGesture (t : EditorState F) : Type 0 where
      pub active : t.in_gesture ≡ true
      pub start : t.gesture_from ≡ some s.hits
      pub start_past : t.gesture_past ≡ some s.past
      pub start_future : t.gesture_future ≡ some s.future
      pub start_changes : t.gesture_changes ≡ s.changes
      pub refs : s.next_ref ≤ t.next_ref
      pub state : IsUntouched t ⊎ IsTouched t

    module _ (old : s.hits.ref < s.next_ref) where
      pushed :
          (t : EditorState F)
          → InGesture t
          → IsUntouched t ⊎ IsTouched t
          → committed_past t ≡ push_past s.past s.hits
      unfolding committed_past
      pushed t g (inl w) = rw (g.active, g.start, w.hits, ==_refl s.hits.ref, w.past)
      pushed t g (inr w) =
          let other : (s.hits.ref == t.hits.ref) ≡ false = ground arith in
          rw (g.active, g.start, other, w.past)

      pub commit-InGesture :
          (t : EditorState F) (items : List (DrumEvent F)) (patch : Patch F)
          → InGesture t
          → InGesture (commit t items patch)
      unfolding commit
      commit-InGesture t items patch g = record {
        active = g.active;
        start = g.start;
        start_past = g.start_past;
        start_future = g.start_future;
        start_changes = g.start_changes;
        refs = omega arith;
        state = inr (record { hits = g.refs; past = pushed t g g.state; future = refl });
      }

      -- What an action may set beside the hits.
      set-InGesture :
          (t : EditorState F) (sel : List HitId) (vel : F) (clip : Option (List (ClipItem F)))
          → InGesture t
          → InGesture (record t { selection = sel; last_vel = vel; clipboard = clip })
      set-InGesture t sel vel clip g = record {
        active = g.active;
        start = g.start;
        start_past = g.start_past;
        start_future = g.start_future;
        start_changes = g.start_changes;
        refs = g.refs;
        state = set g.state;
      }
        where
          set :
              IsUntouched t ⊎ IsTouched t
              → IsUntouched (record t { selection = sel; last_vel = vel; clipboard = clip })
                ⊎ IsTouched (record t { selection = sel; last_vel = vel; clipboard = clip })
          set (inl w) =
              inl (record { hits = w.hits; past = w.past; future = w.future; changes = w.changes })
          set (inr w) = inr (record { hits = w.hits; past = w.past; future = w.future })

      module _ (t : EditorState F) (g : InGesture t) where
        apply_edit-InGesture : (f : DrumEvent F → Option (DrumEvent F)) → InGesture (apply_edit t f)
        unfolding apply_edit commit_if_changed
        apply_edit-InGesture f =
            if_both (λ r. InGesture (or_else r t)) (any_of (λ h. is_some (f h)) t.hits.items) _ _
              (commit-InGesture t _ _ g) g

        set_selection-InGesture : (sel : List HitId) → InGesture (set_selection t sel)
        unfolding set_selection
        set_selection-InGesture sel =
            if_both InGesture (same_ids sel t.selection) _ _ g
              (set-InGesture t sel t.last_vel t.clipboard g)

        clip_from-InGesture : (l : List (DrumEvent F)) → InGesture (clip_from d.sub l t)
        unfolding clip_from
        clip_from-InGesture [] = g
        clip_from-InGesture (h ∷ l) = set-InGesture t t.selection t.last_vel _ g

        set_time_of-InGesture : (p : Option (DrumEvent F)) (x : F) → InGesture (set_time_of p t x)
        unfolding set_time_of
        set_time_of-InGesture none x = g
        set_time_of-InGesture (some p) x =
            if_both InGesture (d.same (d.sub (clamp_t x t.duration) p.t) zero_f) _ _ g
              (apply_edit-InGesture _)

        set_vel-InGesture : (raw : F) → InGesture (do_set_vel t raw)
        unfolding do_set_vel or_last_vel commit_if_changed
        set_vel-InGesture raw =
            let vel = clamp_vel raw in
            let f = on_selected t (at_vel vel) in
            if_both (λ r. InGesture (or_last_vel t vel r))
              (any_of (λ h. is_some (f h)) t.hits.items) _ _ (commit-InGesture t _ _ g)
              (if_both InGesture (d.same t.last_vel vel) _ _ g
                (set-InGesture t t.selection vel t.clipboard g))

        -- Every action inside a gesture stays in it, and the first change alone makes an entry.
        pub reduce-InGesture : (a : EditorAction F) → IsWithin a → InGesture (reduce t a)
        unfolding reduce do_add do_erase do_delete do_move_to do_set_art do_vel_add do_compress
            do_vel_draw do_set_time do_quantize do_nudge do_copy do_paste do_duplicate commit_new
            do_select do_select_range do_gesture_begin do_undo do_redo
        reduce-InGesture (load hits) w = absurd w
        reduce-InGesture gesture_end w = absurd w
        reduce-InGesture (add art x vel) w = commit-InGesture t _ _ g
        reduce-InGesture (erase id) w =
            if_both InGesture (has (ids_of t.hits.items) id) _ _ (commit-InGesture t _ _ g) g
        reduce-InGesture delete w =
            if_both InGesture (length t.selection == 0) _ _ g (commit-InGesture t _ _ g)
        reduce-InGesture (select ids mode) w = set_selection-InGesture _
        reduce-InGesture (select_range t0 t1 arts adding) w = set_selection-InGesture _
        reduce-InGesture gesture_begin w = simp g.active g
        reduce-InGesture (move_to base dt art) w = apply_edit-InGesture _
        reduce-InGesture (set_art art) w = apply_edit-InGesture _
        reduce-InGesture (set_vel vel) w = set_vel-InGesture vel
        reduce-InGesture (vel_add delta) w =
            if_both InGesture (not (d.finite delta) || d.same delta zero_f) _ _ g
              (apply_edit-InGesture _)
        reduce-InGesture compress w = apply_edit-InGesture _
        reduce-InGesture (vel_draw vels) w = apply_edit-InGesture _
        reduce-InGesture (set_time x) w = set_time_of-InGesture (primary t) x
        reduce-InGesture (quantize snap strength) w =
            if_both InGesture ((length t.selection == 0) || not (d.lt zero_f strength)) _ _ g
              (apply_edit-InGesture _)
        reduce-InGesture (nudge dt) w =
            if_both InGesture ((length t.selection == 0) || not (truthy dt)) _ _ g
              (apply_edit-InGesture _)
        reduce-InGesture copy w = clip_from-InGesture (picked t)
        reduce-InGesture (paste at) w =
            if_both InGesture (length (or_else t.clipboard []) == 0) _ _ g
              (commit-InGesture t _ _ g)
        reduce-InGesture (duplicate offset) w =
            if_both InGesture (length (picked t) == 0) _ _ g (commit-InGesture t _ _ g)
        reduce-InGesture undo w = simp g.active g
        reduce-InGesture redo w = simp g.active g

  abbrev pub AllWithin : List (EditorAction F) → Type 0
  AllWithin = All IsWithin
