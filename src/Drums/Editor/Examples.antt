-- ===== src/Drums/Editor/Examples.antt =====
-- Sessions of the editor at numbers of a fixed point, a thousandth each.
use rehearse_kit.Drums.Hits.{last_of, but_last, index_get, ids_of}
use rehearse_kit.Drums.Types.{id_eq, art_eq}
use rehearse_kit.Drums.Search.{hits_between, lower_bound, lower_bound_in, unmuted_before}
use rehearse_kit.Drums.Search.Range.{hits_between_lem}
use rehearse_kit.Drums.Types.{art_index}
use rehearse_kit.Common.{Bool, not, ◌&&◌}
use rehearse_kit.Drums.Hits.Pigeonhole.{has-same_hits}
use rehearse_kit.Drums.Editor.{EditorState, EditorAction, history_limit, push_past}
use rehearse_kit.Drums.Editor.Commit.{initial_editor, commit, no_patch, committed_past}
use rehearse_kit.Drums.Editor.Edits.{do_add}
use rehearse_kit.Drums.Editor.History.{do_undo, do_redo, undo_from, undo_to}
use rehearse_kit.Drums.Editor.UndoRedo.{redo-undo, undo-redo, undo-commit, SameHistory}
use rehearse_kit.Common.{length, ◌≤◌, ◌<◌, some}
use rehearse_kit.Common.{
  ℕ, none, true, false, refl, List, [], ◌∷◌, ◌+◌, ◌-◌, ◌*◌, ◌/◌, ltb, ◌==◌, arith, ◌≡◌,
}
use rehearse_kit.Drums.Double.{Double, IsOrdered}
use rehearse_kit.Drums.Types.{u, DrumEvent, kick, snare, manual, Articulation}
use rehearse_kit.Drums.Hits.{keep, is_sorted, sort_hits, same_hits, has, any_of}
use rehearse_kit.Drums.Hits.Sorting.{is_sorted-sort_hits, keep-sort_hits, at_time}
use rehearse_kit.Drums.Editor.{EditorState, EditorAction}
use rehearse_kit.Drums.Editor.Commit.{initial_editor}
use rehearse_kit.Drums.Editor.Reducer.{reduce, run}
use rehearse_kit.Drums.Editor.Validity.{IsValid}
use rehearse_kit.Drums.Editor.Sessions.{run-IsValid, initial_editor-IsValid}
use rehearse_kit.Drums.Editor.GestureEnd.{gesture_one_step, Ended}

abbrev milli : Double ℕ
milli = record {
  of_ℕ = λ n. n * 1000;
  half = 500;
  add = λ a b. a + b;
  sub = λ a b. a - b;
  mul = λ a b. a * b / 1000;
  div = λ a b. a * 1000 / b;
  round = λ a. (a + 500) / 1000 * 1000;
  lt = ltb;
  same = λ a b. a == b;
  finite = λ a. true;
}

milli-IsOrdered : IsOrdered milli
milli-IsOrdered = record {
  finite_zero = refl;
  irrefl = λ a. ground arith;
  asym = λ a b h. ground arith;
  trans = λ a b c f h k. ground arith;
}

abbrev hit : ℕ → Articulation → ℕ → DrumEvent ℕ
hit n art t = record { id = u 0 n; art = art; t = t; vel = 800; src = manual; model = none }

abbrev document : List (DrumEvent ℕ)
document = hit 2 snare 1500 ∷ hit 1 kick 500 ∷ []

abbrev opened : EditorState ℕ
opened = initial_editor ⦃d = milli⦄ 60000 document

opened-IsValid : IsValid ⦃d = milli⦄ opened
unfolding has any_of id_eq
opened-IsValid =
    initial_editor-IsValid ⦃d = milli⦄ milli-IsOrdered 60000 document
      ((refl, (refl, tt)), (refl, (refl, tt)))

is_sorted-sort_hits_example : is_sorted ⦃d = milli⦄ (sort_hits ⦃d = milli⦄ document) ≡ true
is_sorted-sort_hits_example = is_sorted-sort_hits ⦃d = milli⦄ milli-IsOrdered document

keep-sort_hits_example :
    keep (at_time ⦃d = milli⦄ milli-IsOrdered 500) (sort_hits ⦃d = milli⦄ document)
    ≡ keep (at_time ⦃d = milli⦄ milli-IsOrdered 500) document
keep-sort_hits_example = keep-sort_hits ⦃d = milli⦄ milli-IsOrdered 500 refl document

abbrev bar : List (DrumEvent ℕ)
bar = hit 1 kick 500 ∷ hit 2 snare 500 ∷ hit 3 kick 700 ∷ hit 4 kick 900 ∷ []

abbrev snare_muted : Articulation → Bool
snare_muted a = art_eq a snare

-- The search from 500 to 900 with the snare muted: two kicks.
hits_between_example :
    hits_between ⦃d = milli⦄ bar snare_muted 500 900
    ≡ some (keep (λ h. not (ltb h.t 500) && (ltb h.t 900 && not (snare_muted h.art))) bar)
unfolding is_sorted
hits_between_example =
    hits_between_lem ⦃d = milli⦄ milli-IsOrdered bar snare_muted 500 900 refl
      (refl, (refl, (refl, (refl, tt))))

two_kicks :
    hits_between ⦃d = milli⦄ bar snare_muted 500 900 ≡ some (hit 1 kick 500 ∷ hit 3 kick 700 ∷ [])
unfolding hits_between lower_bound lower_bound_in unmuted_before art_eq art_index
two_kicks = refl

-- The same hits in another order.
same_reordered : same_hits ⦃d = milli⦄ document (hit 1 kick 500 ∷ hit 2 snare 1500 ∷ []) ≡ true
unfolding same_hits index_get id_eq art_eq
same_reordered = refl

abbrev drawn : EditorAction ℕ
drawn = EditorAction.add kick 1000 none

run-IsValid_example : IsValid ⦃d = milli⦄ (run ⦃d = milli⦄ opened (drawn ∷ EditorAction.undo ∷ []))
run-IsValid_example =
    run-IsValid ⦃d = milli⦄ milli-IsOrdered opened (drawn ∷ EditorAction.undo ∷ []) (tt, (tt, tt))
      opened-IsValid

gesture_one_step_example :
    ((run ⦃d = milli⦄ opened
        (EditorAction.gesture_begin ∷ drawn ∷ drawn ∷ EditorAction.gesture_end ∷ [])).in_gesture
      ≡ false)
    × Ended ⦃d = milli⦄ opened (
        run ⦃d = milli⦄ opened
          (EditorAction.gesture_begin ∷ drawn ∷ drawn ∷ EditorAction.gesture_end ∷ []))
unfolding initial_editor
gesture_one_step_example =
    gesture_one_step ⦃d = milli⦄ opened (drawn ∷ drawn ∷ []) refl (omega arith) (tt, (tt, tt))

has-same_hits_example : has (ids_of document) (u 0 1) ≡ true
unfolding has any_of id_eq
has-same_hits_example =
    has-same_hits ⦃d = milli⦄ document (hit 1 kick 500 ∷ hit 2 snare 1500 ∷ []) same_reordered
      (refl, (refl, tt)) (u 0 1) refl

abbrev added : EditorState ℕ
added = reduce ⦃d = milli⦄ opened drawn

undo-redo_ready : (added.in_gesture ≡ false) × (last_of added.past ≡ some opened.hits)
unfolding reduce do_add commit committed_past push_past last_of initial_editor
undo-redo_ready = (refl, refl)

few : length added.past ≤ history_limit
unfolding reduce do_add commit committed_past push_past initial_editor
few = omega arith

redo-undo_example : SameHistory ⦃d = milli⦄ added (do_redo (do_undo added))
redo-undo_example = redo-undo ⦃d = milli⦄ added opened.hits undo-redo_ready.0 undo-redo_ready.1 few

abbrev undone : EditorState ℕ
undone = reduce ⦃d = milli⦄ added EditorAction.undo

undone_future : undone.future ≡ added.hits ∷ []
unfolding reduce do_undo undo_from undo_to do_add commit committed_past push_past last_of
    initial_editor
undone_future = refl

undone_few : (undone.in_gesture ≡ false) × (length undone.past < history_limit)
unfolding reduce do_undo undo_from undo_to do_add commit committed_past push_past last_of but_last
    initial_editor
undone_few = (refl, omega arith)

undo-redo_example : SameHistory ⦃d = milli⦄ undone (do_undo (do_redo undone))
undo-redo_example =
    undo-redo ⦃d = milli⦄ undone added.hits [] undone_few.0 undone_future undone_few.1

undo-commit_example :
    ((do_undo (commit ⦃d = milli⦄ opened [] (no_patch opened))).hits ≡ opened.hits)
    × ((do_undo (commit ⦃d = milli⦄ opened [] (no_patch opened))).future
        ≡ (commit ⦃d = milli⦄ opened [] (no_patch opened)).hits ∷ [])
    × ((do_redo (do_undo (commit ⦃d = milli⦄ opened [] (no_patch opened)))).hits
        ≡ (commit ⦃d = milli⦄ opened [] (no_patch opened)).hits)
    × (length opened.past < history_limit
        → (do_undo (commit ⦃d = milli⦄ opened [] (no_patch opened))).past ≡ opened.past)
unfolding initial_editor
undo-commit_example = undo-commit ⦃d = milli⦄ opened [] (no_patch opened) refl
