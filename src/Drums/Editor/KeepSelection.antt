-- ===== src/Drums/Editor/KeepSelection.antt =====
-- Selecting keeps the invariant: only known ids, and none twice.
use rehearse_kit.Common.{
  All, All-append, All-mono, Bool, List, Option, [], arith, false, if_both, if◌then◌else◌, not,
  refl, true, ◌++◌, ◌∙◌, ◌∷◌, ◌≡◌, Bool-cases, inl, inr,
}
use rehearse_kit.Drums.Double.{Double, min_js, max_js}
use rehearse_kit.Drums.Types.{HitId, DrumEvent, Articulation, id_eq}
use rehearse_kit.Drums.Hits.{has, any_of, keep, ids_of, without, dedupe, same_ids}
use rehearse_kit.Drums.Hits.Ids.{
  Within, Distinct, Within-keep, Within-refl, Within-mono, Distinct-keep, Distinct-dedupe,
  Distinct-append, All-keep, has-keep, id_eq_refl,
}
use rehearse_kit.Drums.Editor.{EditorState, SelectMode, replace, extend, toggle}
use rehearse_kit.Drums.Editor.Validity.{IsValid}
use rehearse_kit.Drums.Editor.Selecting.{
  toggle_id, toggle_all, select_with, set_selection, do_select, scan_range, do_select_range, wanted,
}

-- A selection: ids of the list, none twice.
abbrev IsSelection : List HitId → List HitId → Type 0
IsSelection known sel = Within known sel × Distinct sel

has_cons : (x : HitId) (xs : List HitId) (id : HitId) → has xs id ≡ true → has (x ∷ xs) id ≡ true
unfolding has any_of
has_cons x xs id e = ground arith

has_head : (x : HitId) (xs : List HitId) → has (x ∷ xs) x ≡ true
unfolding has any_of
has_head x xs = ground (arith, id_eq_refl x)

All-dedupe : (P : HitId → Type 0) (xs : List HitId) → All P xs → All P (dedupe xs)
unfolding dedupe
All-dedupe P [] h = tt
All-dedupe P (x ∷ xs) (p, h) = (p, All-keep P _ (dedupe xs) (All-dedupe P xs h))

extend-IsSelection :
    (known sel given : List HitId)
    → IsSelection known sel
    → IsSelection known given
    → IsSelection known (without sel given ++ given)
unfolding without
extend-IsSelection known sel given (w, k) (w', k') = (
  All-append _ (keep _ sel) given (All-keep _ _ sel w) w',
  Distinct-append (keep _ sel) given (Distinct-keep _ sel k) k' (
      All-mono (λ id. has given id ≡ true) _
        (λ id e. has-keep (λ id. not (has given id)) sel id ∙ ground arith) given
        (Within-refl given)),
)

has-toggle_id :
    (id x : HitId) (sel : List HitId)
    → has sel x ≡ false
    → id_eq x id ≡ false
    → has (toggle_id id sel) x ≡ false
unfolding toggle_id has any_of
has-toggle_id id x [] h e = ground arith
has-toggle_id id x (y ∷ sel) h e = ground (arith, has-toggle_id id x sel)

toggle_id-IsSelection :
    (known : List HitId) (id : HitId) (sel : List HitId)
    → has known id ≡ true
    → IsSelection known sel
    → IsSelection known (toggle_id id sel)
unfolding toggle_id
toggle_id-IsSelection known id [] h k = ((h, tt), (unfold has any_of in refl, tt))
toggle_id-IsSelection known id (x ∷ sel) h ((w, ws), (k, ks)) =
    let ih = toggle_id-IsSelection known id sel h (ws, ks) in
    elim (Bool-cases (id_eq x id)) [
      | inl e ↦ rw e (ws, ks)
      | inr e ↦ rw e ((w, ih.0), (has-toggle_id id x sel k e, ih.1))
    ]

toggle_all-IsSelection :
    (known given sel : List HitId)
    → Within known given
    → IsSelection known sel
    → IsSelection known (toggle_all given sel)
unfolding toggle_all
toggle_all-IsSelection known [] sel h k = k
toggle_all-IsSelection known (id ∷ given) sel (h, hs) k =
    toggle_all-IsSelection known given (toggle_id id sel) hs
      (toggle_id-IsSelection known id sel h k)

select_with-IsSelection :
    (known given sel : List HitId) (mode : SelectMode)
    → IsSelection known given
    → IsSelection known sel
    → IsSelection known (select_with mode given sel)
unfolding select_with
select_with-IsSelection known given sel replace g k = g
select_with-IsSelection known given sel extend g k = extend-IsSelection known sel given k g
select_with-IsSelection known given sel toggle g k = toggle_all-IsSelection known given sel g.0 k

module _ {F : Type 0} ⦃d : Double F⦄ where
  has-scan_range :
      (lo hi : F) (arts : Option (List Articulation)) (hits : List (DrumEvent F)) (id : HitId)
      → has (ids_of hits) id ≡ false
      → has (scan_range lo hi arts hits) id ≡ false
  unfolding scan_range has any_of
  has-scan_range lo hi arts [] id h = refl
  has-scan_range lo hi arts (g ∷ hits) id h = ground (arith, has-scan_range lo hi arts hits id)

  scan_range-IsSelection :
      (lo hi : F) (arts : Option (List Articulation)) (hits : List (DrumEvent F))
      → Distinct (ids_of hits)
      → IsSelection (ids_of hits) (scan_range lo hi arts hits)
  unfolding scan_range
  scan_range-IsSelection lo hi arts [] k = (tt, tt)
  scan_range-IsSelection lo hi arts (g ∷ hits) (k, ks) =
      let (w, once) = scan_range-IsSelection lo hi arts hits ks in
      let known = g.id ∷ ids_of hits in
      let weak = Within-mono (ids_of hits) known _ (λ id e. has_cons g.id (ids_of hits) id e) w in
      if_both (IsSelection known) (d.lt g.t lo) _ _ (weak, once)
        (if_both (IsSelection known) (d.lt hi g.t) _ _ (tt, tt)
          (if_both (IsSelection known) (wanted arts g.art) _ _
            ((has_head g.id (ids_of hits), weak), (has-scan_range lo hi arts hits g.id k, once))
            (weak, once)))

  module _ (s : EditorState F) (v : IsValid s) where
    set_selection-IsValid :
        (sel : List HitId) → IsSelection (ids_of s.hits.items) sel → IsValid (set_selection s sel)
    unfolding set_selection
    set_selection-IsValid sel (w, k) = if_both IsValid (same_ids sel s.selection) _ _ v (record {
      current = v.current;
      backward = v.backward;
      forward = v.forward;
      start = v.start;
      start_past = v.start_past;
      start_future = v.start_future;
      known = w;
      selected_once = k;
      capped = v.capped;
      start_capped = v.start_capped;
      measured = v.measured;
    })

    pub do_select-IsValid : (ids : List HitId) (mode : SelectMode) → IsValid (do_select s ids mode)
    unfolding do_select
    do_select-IsValid ids mode =
        let known = ids_of s.hits.items in
        let given = dedupe (keep (has known) ids) in
        set_selection-IsValid (select_with mode given s.selection) (
          select_with-IsSelection known given s.selection mode
            (
              All-dedupe _ (keep (has known) ids) (Within-keep known ids),
              Distinct-dedupe (keep (has known) ids),
            )
            (v.known, v.selected_once))

    pub do_select_range-IsValid :
        (t0 t1 : F) (arts : Option (List Articulation)) (adding : Bool)
        → IsValid (do_select_range s t0 t1 arts adding)
    unfolding do_select_range
    do_select_range-IsValid t0 t1 arts adding =
        let known = ids_of s.hits.items in
        let found = scan_range (min_js t0 t1) (max_js t0 t1) arts s.hits.items in
        let sel =
          scan_range-IsSelection (min_js t0 t1) (max_js t0 t1) arts s.hits.items
            v.current.distinct in
        set_selection-IsValid (if adding then without s.selection found ++ found else found) (
          if_both (IsSelection known) adding _ _
            (extend-IsSelection known s.selection found (v.known, v.selected_once) sel) sel)
