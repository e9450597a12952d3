-- ===== src/Drums/Autosave/Examples.antt =====
-- Runs of the autosave of a line at revision 3, whose events are numbers.
use rehearse_kit.Drums.Autosave.Server.{
  WorldEvent, IsSynced, world_step, saved_is_stored, edited, World, no_edit_lost, deliver,
  delivered, run_world, new_world, lost, flushing, is_saved,
}
use rehearse_kit.Drums.Autosave.Chain.{
  NoReset, IsHalted, IsDone, one_put, is_reset, round, halts, flush-IsDone, after_retry, retries,
}
use rehearse_kit.Drums.Autosave.Steady.{IsSteady}
use rehearse_kit.Drums.Autosave.{
  AutosaveEvent, Request, step, run_autosave, updated, Autosave, answer, update, answered, flushed,
  refused, new_autosave, answer_open, flush, failed, on_answer, wait, on_conflict, start_save,
  on_saved, fire, start_save_with, on_error, send, settle, set_state, settle_due, is_conflict,
  settle_held, is_saving,
}
use rehearse_kit.Common.{
  List, [], if◌then◌else◌, is_some, length, or_else, refl, true, ℕ, ◌++◌, ◌+◌, ◌∷◌, ◌≡◌, ◌≤◌,
}

abbrev started : List (AutosaveEvent ℕ)
started = updated 7 ∷ AutosaveEvent.fired ∷ []

abbrev waiting : List (AutosaveEvent ℕ)
waiting = updated 7 ∷ flushed 1 ∷ updated 8 ∷ []

abbrev conflicting : List (AutosaveEvent ℕ)
conflicting = updated 7 ∷ AutosaveEvent.fired ∷ updated 8 ∷ answered (refused 5) ∷ []

abbrev put : Request ℕ
put = record { base_rev = 3; events = 7; generation = 0 }

abbrev saver : List (AutosaveEvent ℕ) → Autosave ℕ
saver es = run_autosave (new_autosave 3) es

one_put_example : IsSteady (saver waiting) × (length (saver waiting).open_puts ≤ 1)
one_put_example = one_put 3 waiting

conflict_now : is_conflict (saver conflicting).current.status ≡ true
unfolding step answer answer_open on_answer on_conflict update fire start_save start_save_with send
    set_state is_conflict is_saving new_autosave
conflict_now = refl

no_reset : NoReset {E = ℕ} (updated 9 ∷ AutosaveEvent.settled ∷ AutosaveEvent.fired ∷ [])
unfolding NoReset is_reset
no_reset = (refl, (refl, (refl, tt)))

halts_example : IsHalted (
    run_autosave (saver conflicting) (updated 9 ∷ AutosaveEvent.settled ∷ AutosaveEvent.fired ∷ []))
halts_example =
    halts (saver conflicting) (updated 9 ∷ AutosaveEvent.settled ∷ AutosaveEvent.fired ∷ [])
      (one_put 3 conflicting).0 conflict_now no_reset

put_open : (saver waiting).open_puts ≡ put ∷ []
unfolding step update flush wait start_save start_save_with send set_state is_conflict is_saving
    new_autosave
put_open = refl

put_ours : put.generation ≡ (saver waiting).generation
unfolding step update flush wait start_save start_save_with send set_state is_conflict is_saving
    new_autosave
put_ours = refl

flush-IsDone_example :
    IsDone
      (run_autosave (saver waiting) (round 4 100 ++ round 5 200))
      (if is_some (saver waiting).held then 5 else 4)
      ((saver waiting).resolved ++ (saver waiting).waiters)
flush-IsDone_example =
    flush-IsDone (saver waiting) put 4 100 5 200 (one_put 3 waiting).0 put_open put_ours

retries_example :
    run_autosave (saver waiting) (answered (failed 1) ∷ AutosaveEvent.settled ∷ flushed 2 ∷ [])
    ≡ after_retry (saver waiting) put 2 (or_else (saver waiting).held put.events)
retries_example = retries (saver waiting) put 1 2 (one_put 3 waiting).0 put_open put_ours

abbrev stored : List (WorldEvent ℕ)
stored =
    edited 7
    ∷ WorldEvent.elapsed
    ∷ edited 8
    ∷ delivered 100
    ∷ WorldEvent.continued
    ∷ lost 1
    ∷ WorldEvent.continued
    ∷ flushing 2
    ∷ delivered 200
    ∷ WorldEvent.continued
    ∷ []

abbrev world : List (WorldEvent ℕ) → World ℕ
world es = run_world (λ r. r + 1) (new_world 3 0) es

no_edit_lost_example :
    IsSynced (world stored).rev (world stored).doc (world stored).latest (world stored).saver
no_edit_lost_example = no_edit_lost (λ r. r + 1) 3 0 stored

saved_now : is_saved (world stored).saver.current.status ≡ true
unfolding world_step deliver new_world step answer answer_open on_answer on_saved on_error update
    fire flush wait settle settle_due settle_held start_save start_save_with send set_state
    is_conflict is_saving new_autosave is_saved
saved_now = refl

saved_is_stored_example :
    ((world stored).doc ≡ (world stored).latest)
    × ((world stored).saver.current.edit_rev ≡ (world stored).rev)
saved_is_stored_example = saved_is_stored (λ r. r + 1) 3 0 stored saved_now
