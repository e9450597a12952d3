-- ===== src/Drums/Editor/KeepEdits.antt =====
-- The cases of the reducer that map the hits, or add some, keep the invariant.
use rehearse_kit.Common.{
  All, Bool-cases, List, Option, [], ap₂, arith, inl, inr, is_some, map, none, or_else, refl, some,
  true, ◌∷◌, ◌≡◌, if_both, length, not, ◌&&◌, ◌==◌, ◌||◌,
}
use rehearse_kit.Drums.Double.{Double, IsOrdered, zero_f, truthy}
use rehearse_kit.Drums.Types.{HitId, DrumEvent, Articulation, id_eq, art_eq}
use rehearse_kit.Drums.Hits.{has, any_of, ids_of, clamp_t, clamp_vel}
use rehearse_kit.Drums.Hits.Sorting.{Timed}
use rehearse_kit.Drums.Editor.{EditorState, primary}
use rehearse_kit.Drums.Editor.Validity.{IsValid, IsReady, commit-IsValid}
use rehearse_kit.Drums.Editor.Commit.{no_patch, edited, commit_if_changed, apply_edit}
use rehearse_kit.Drums.Editor.Edits.{
  at_time, at_vel, or_last_vel, place, draw, set_time_of, on_selected, snap_edit, do_move_to,
  do_set_art, do_set_vel, do_vel_add, do_compress, do_vel_draw, do_set_time, do_quantize, do_nudge,
}

module _ {F : Type 0} ⦃d : Double F⦄ where
  open d use {finite, same}

  -- An edit leaves the hit alone, or keeps its id and gives it a time that is a number.
  abbrev pub KeepsAt : DrumEvent F → Option (DrumEvent F) → Type 0
  KeepsAt h none = Unit {0}
  KeepsAt h (some g) = (g.id ≡ h.id) × (finite g.t ≡ true)

  abbrev pub Keeps : (DrumEvent F → Option (DrumEvent F)) → Type 0
  Keeps f = (h : DrumEvent F) → finite h.t ≡ true → KeepsAt h (f h)

  ids_of-edited :
      (f : DrumEvent F → Option (DrumEvent F)) (hits : List (DrumEvent F))
      → Keeps f
      → All (Timed {F = F}) hits
      → ids_of (map (edited f) hits) ≡ ids_of hits
  ids_of-edited f [] k t = refl
  ids_of-edited f (h ∷ hits) k (t, ts) = ap₂ ◌∷◌ (at (f h) (k h t)) (ids_of-edited f hits k ts)
    where
      at : (r : Option (DrumEvent F)) → KeepsAt h r → (or_else r h).id ≡ h.id
      at none k' = refl
      at (some g) (e, _) = e

  Timed-edited :
      (f : DrumEvent F → Option (DrumEvent F)) (hits : List (DrumEvent F))
      → Keeps f
      → All (Timed {F = F}) hits
      → All (Timed {F = F}) (map (edited f) hits)
  Timed-edited f [] k t = tt
  Timed-edited f (h ∷ hits) k (t, ts) = (at (f h) (k h t), Timed-edited f hits k ts)
    where
      at : (r : Option (DrumEvent F)) → KeepsAt h r → finite (or_else r h).t ≡ true
      at none k' = t
      at (some g) (_, e) = e

  module _ (o : IsOrdered d) where
    edited-IsReady :
        (s : EditorState F) (f : DrumEvent F → Option (DrumEvent F)) (vel : F)
        → Keeps f
        → IsValid s
        → IsReady s (map (edited f) s.hits.items) (record (no_patch s) { last_vel = vel })
    edited-IsReady s f vel k v =
        let e = ids_of-edited f s.hits.items k v.current.timed in
        record {
          next = omega arith;
          timed = Timed-edited f s.hits.items k v.current.timed;
          below = rw e v.current.below;
          distinct = rw e v.current.distinct;
          known = rw e v.known;
          selected_once = v.selected_once;
        }

    pub apply_edit-IsValid :
        (s : EditorState F) (f : DrumEvent F → Option (DrumEvent F))
        → Keeps f
        → IsValid s
        → IsValid (apply_edit s f)
    unfolding apply_edit commit_if_changed
    apply_edit-IsValid s f k v = elim (Bool-cases (any_of (λ h. is_some (f h)) s.hits.items)) [
      | inl e ↦ rw e (commit-IsValid o s _ (no_patch s) v (edited-IsReady s f s.last_vel k v))
      | inr e ↦ rw e v
    ]

    pub clamp_t-finite :
        (t duration : F) → finite duration ≡ true → finite (clamp_t t duration) ≡ true
    unfolding clamp_t
    clamp_t-finite t duration h = ground (arith, o.finite_zero)

    Keeps-on_selected :
        (s : EditorState F) (f : DrumEvent F → Option (DrumEvent F))
        → Keeps f
        → Keeps (on_selected s f)
    Keeps-on_selected s f k h t = elim (Bool-cases (has s.selection h.id)) [
      | inl e ↦ rw e (k h t)
      | inr e ↦ rw e tt
    ]

    at_time-keeps : (t : F) → finite t ≡ true → (h : DrumEvent F) → KeepsAt h (at_time t h)
    at_time-keeps t e h = elim (Bool-cases (same t h.t)) [
      | inl x ↦ rw x tt
      | inr x ↦ rw x (refl, e)
    ]

    at_vel-keeps : (vel : F) (h : DrumEvent F) → finite h.t ≡ true → KeepsAt h (at_vel vel h)
    at_vel-keeps vel h e = elim (Bool-cases (same vel h.vel)) [
      | inl x ↦ rw x tt
      | inr x ↦ rw x (refl, e)
    ]

    place-keeps :
        (art : Option Articulation) (dt duration : F)
        → finite duration ≡ true
        → (h : DrumEvent F) (b : Option (F × Articulation)) → KeepsAt h (place art dt duration h b)
    unfolding place
    place-keeps art dt duration e h none = tt
    place-keeps art dt duration e h (some (t0, art0)) =
        let t = clamp_t (d.add t0 dt) duration in
        if_both (KeepsAt h) (same t h.t && art_eq (or_else art art0) h.art) _ _ tt
          (refl, clamp_t-finite _ duration e)

    draw-keeps : (h : DrumEvent F) → finite h.t ≡ true → (v : Option F) → KeepsAt h (draw h v)
    unfolding draw
    draw-keeps h t none = tt
    draw-keeps h t (some raw) = at_vel-keeps (clamp_vel raw) h t

    module _ (s : EditorState F) (v : IsValid s) where
      pub do_move_to-IsValid :
          (base : HitId → Option (F × Articulation)) (dt : F) (art : Option Articulation)
          → IsValid (do_move_to s base dt art)
      unfolding do_move_to
      do_move_to-IsValid base dt art =
          apply_edit-IsValid s _ (λ h t. place-keeps art dt s.duration v.measured h (base h.id)) v

      pub do_set_art-IsValid : (art : Articulation) → IsValid (do_set_art s art)
      unfolding do_set_art
      do_set_art-IsValid art =
          apply_edit-IsValid s _
            (Keeps-on_selected s _ (λ h t. if_both (KeepsAt h) (art_eq h.art art) _ _ tt (refl, t)))
            v

      pub do_vel_draw-IsValid : (vels : HitId → Option F) → IsValid (do_vel_draw s vels)
      unfolding do_vel_draw
      do_vel_draw-IsValid vels = apply_edit-IsValid s _ (λ h t. draw-keeps h t (vels h.id)) v

      pub do_compress-IsValid : IsValid (do_compress s)
      unfolding do_compress
      do_compress-IsValid =
          apply_edit-IsValid s _ (Keeps-on_selected s _ (λ h t. at_vel-keeps _ h t)) v

      pub do_vel_add-IsValid : (delta : F) → IsValid (do_vel_add s delta)
      unfolding do_vel_add
      do_vel_add-IsValid delta =
          if_both IsValid (not (finite delta) || same delta zero_f) _ _ v
            (apply_edit-IsValid s _ (Keeps-on_selected s _ (λ h t. at_vel-keeps _ h t)) v)

      pub do_nudge-IsValid : (dt : F) → IsValid (do_nudge s dt)
      unfolding do_nudge
      do_nudge-IsValid dt = if_both IsValid ((length s.selection == 0) || not (truthy dt)) _ _ v (
          apply_edit-IsValid s _
            (Keeps-on_selected s _
              (λ h t. at_time-keeps _ (clamp_t-finite _ s.duration v.measured) h))
            v)

      pub do_quantize-IsValid :
          (snap : F → F) (strength : F) → IsValid (do_quantize s snap strength)
      unfolding do_quantize
      do_quantize-IsValid snap strength =
          if_both IsValid ((length s.selection == 0) || not (d.lt zero_f strength)) _ _ v (
            apply_edit-IsValid s _
              (Keeps-on_selected s (snap_edit snap strength s.duration) (λ h t.
                if_both (KeepsAt h) (not (finite (snap h.t))) _ _ tt
                  (at_time-keeps _ (clamp_t-finite _ s.duration v.measured) h)))
              v)

      set_time_of-IsValid : (p : Option (DrumEvent F)) (t : F) → IsValid (set_time_of p s t)
      unfolding set_time_of
      set_time_of-IsValid none t = v
      set_time_of-IsValid (some p) t =
          let target = clamp_t t s.duration in
          let placed = clamp_t-finite t s.duration v.measured in
          if_both IsValid (same (d.sub target p.t) zero_f) _ _ v (
            apply_edit-IsValid s _
              (Keeps-on_selected s _ (λ h _.
                at_time-keeps _
                  (if_both (λ x. finite x ≡ true) (id_eq h.id p.id) _ _ placed
                    (clamp_t-finite _ s.duration v.measured))
                  h))
              v)

      pub do_set_time-IsValid : (t : F) → IsValid (do_set_time s t)
      unfolding do_set_time
      do_set_time-IsValid t = set_time_of-IsValid (primary s) t

      last_vel-IsValid : (vel : F) → IsValid (record s { last_vel = vel })
      last_vel-IsValid vel = record {
        current = v.current;
        backward = v.backward;
        forward = v.forward;
        start = v.start;
        start_past = v.start_past;
        start_future = v.start_future;
        known = v.known;
        selected_once = v.selected_once;
        capped = v.capped;
        start_capped = v.start_capped;
        measured = v.measured;
      }

      pub do_set_vel-IsValid : (raw : F) → IsValid (do_set_vel s raw)
      unfolding do_set_vel commit_if_changed or_last_vel
      do_set_vel-IsValid raw =
          let vel = clamp_vel raw in
          let f : DrumEvent F → Option (DrumEvent F) = on_selected s (at_vel vel) in
          if_both (λ r. IsValid (or_last_vel s vel r)) (any_of (λ h. is_some (f h)) s.hits.items) _
            _
            (commit-IsValid o s _ _ v
              (edited-IsReady s f vel (Keeps-on_selected s _ (λ h t. at_vel-keeps vel h t)) v))
            (if_both IsValid (same s.last_vel vel) _ _ v (last_vel-IsValid vel))
