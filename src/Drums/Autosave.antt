-- ===== src/Drums/Autosave.antt =====
-- web/src/lib/drums/autosave.ts: the class `Autosave`. Events, messages and times are only passed on,
-- so events are of any type and numbers stand for the strings. The server, the timers and the
-- listener are the environment: a cleared timer does not fire, and the listener does not call
-- back (the page's only sets a React state).
pub mod Steady
pub mod Chain
pub mod Server
pub mod Examples
use rehearse_kit.Common.{
  ℕ, Bool, List, Option, [], false, if◌then◌else◌, is_some, none, not, or_else, some, true, ◌&&◌,
  ◌++◌, ◌+◌, ◌==◌, ◌||◌, ◌∷◌,
}

pub data AutosaveStatus : Type 0 where
  idle pending saving saved conflict error : AutosaveStatus

pub record AutosaveState : Type 0 where
  pub status : AutosaveStatus
  pub edit_rev : ℕ
  pub saved_at : Option ℕ
  pub message : Option ℕ
  pub conflict_rev : Option ℕ
  pub pending_changes : Bool

-- A call of `save`, with what its continuations have closed over.
pub record Request (E : Type 0) : Type 0 where
  pub base_rev : ℕ
  pub events : E
  pub generation : ℕ

-- How a PUT ends: its response, a conflict with the server's revision, or any other failure.
pub data Answer : Type 0 where
  accepted : ℕ → ℕ → Answer
  refused : ℕ → Answer
  failed : ℕ → Answer

pub record Autosave (E : Type 0) : Type 0 where
  pub current : AutosaveState
  pub held : Option E
  pub timer : Bool
  pub in_flight : Bool
  pub queued : Bool
  pub waiters : List ℕ
  pub disposed : Bool
  pub generation : ℕ
  -- not in the source: the PUTs that the server has not answered, the calls of `settle` that are
  -- due, and the promises that have been resolved
  pub open_puts : List (Request E)
  pub settling : List Bool
  pub resolved : List ℕ

unfoldable pub is_conflict : AutosaveStatus → Bool
is_conflict conflict = true
is_conflict _ = false

unfoldable pub is_saving : AutosaveStatus → Bool
is_saving saving = true
is_saving _ = false

module _ {E : Type 0} where
  unfoldable pub new_autosave : ℕ → Autosave E
  new_autosave rev = record {
    current = record {
      status = idle;
      edit_rev = rev;
      saved_at = none;
      message = none;
      conflict_rev = none;
      pending_changes = false;
    };
    held = none;
    timer = false;
    in_flight = false;
    queued = false;
    waiters = [];
    disposed = false;
    generation = 0;
    open_puts = [];
    settling = [];
    resolved = [];
  }

  unfoldable pub set_state : Autosave E → AutosaveState → Autosave E
  set_state a st = record a { current = if a.disposed then a.current else st }

  abbrev pub cancel_timer : Autosave E → Autosave E
  cancel_timer a = record a { timer = false }

  abbrev pub resolve_waiters : Autosave E → Autosave E
  resolve_waiters a = record a { waiters = []; resolved = a.resolved ++ a.waiters }

  -- Behind the guard of `startSave`. A `save` that throws is a PUT that fails.
  unfoldable pub send : Autosave E → E → Autosave E
  unfolding set_state
  send a events =
      record (set_state (record a { held = none })
        (record (a.current) { status = saving; pending_changes = false; message = none })) {
          in_flight = true;
          open_puts =
              a.open_puts
              ++ (record {
                base_rev = a.current.edit_rev;
                events = events;
                generation = a.generation;
              }
                  ∷ []);
        }

  unfoldable pub start_save_with : Autosave E → Option E → Autosave E
  start_save_with a none = a
  start_save_with a (some events) = if a.disposed || a.in_flight then a else send a events

  unfoldable pub start_save : Autosave E → Autosave E
  start_save a = start_save_with a a.held

  unfoldable pub update : Autosave E → E → Autosave E
  unfolding set_state
  update a events =
      if a.disposed || is_conflict a.current.status
      then a
      else (if a.in_flight
          then set_state (record a { held = some events; timer = false; queued = true })
              (record (a.current) {
                status = if is_saving a.current.status then saving else pending;
                pending_changes = true;
                message = none;
              })
          else record (set_state (record a { held = some events })
              (record (a.current) { status = pending; pending_changes = true; message = none })) {
                timer = true;
              })

  -- The timer's callback.
  unfoldable pub fire : Autosave E → Autosave E
  fire a = if a.timer then start_save (cancel_timer a) else a

  -- The end of `flush`, with the promise that it returns.
  unfoldable pub wait : Autosave E → ℕ → Autosave E
  wait a promise =
      if a.in_flight
      then record a { waiters = a.waiters ++ (promise ∷ []) }
      else record a { resolved = a.resolved ++ (promise ∷ []) }

  unfoldable pub flush : Autosave E → ℕ → Autosave E
  flush a promise =
      wait
        (if not a.disposed && not a.in_flight && is_some a.held
          then start_save (cancel_timer a)
          else cancel_timer a)
        promise

  unfoldable pub reset : Autosave E → ℕ → Autosave E
  unfolding set_state
  reset a rev =
      if a.disposed
      then a
      else set_state (record a { timer = false; held = none; generation = a.generation + 1 })
          (record {
            status = idle;
            edit_rev = rev;
            saved_at = none;
            message = none;
            conflict_rev = none;
            pending_changes = false;
          })

  unfoldable pub dispose : Autosave E → Autosave E
  dispose a =
      if a.disposed
      then a
      else resolve_waiters
          (record a { disposed = true; timer = false; held = none; generation = a.generation + 1 })

  unfoldable pub on_saved : Autosave E → ℕ → ℕ → ℕ → Autosave E
  unfolding set_state
  on_saved a rev at gen =
      if not (gen == a.generation)
      then a
      else set_state a (record (a.current) {
        status = if is_some a.held then pending else saved;
        edit_rev = rev;
        saved_at = some at;
        pending_changes = is_some a.held;
      })

  -- The state and what `onFailed` returns.
  unfoldable pub on_conflict : Autosave E → ℕ → Autosave E
  unfolding set_state
  on_conflict a rev =
      set_state (record a { held = none })
        (record (a.current) {
          status = conflict;
          conflict_rev = some rev;
          message = none;
          pending_changes = false;
        })

  unfoldable pub on_error : Autosave E → ℕ → E → Autosave E
  unfolding set_state
  on_error a message events =
      set_state (record a { held = some (or_else a.held events) })
        (record (a.current) { status = error; message = some message; pending_changes = true })

  unfoldable pub on_answer : Autosave E → Request E → Answer → Autosave E × Bool
  on_answer a r (accepted rev at) = (on_saved a rev at r.generation, true)
  on_answer a r (refused rev) =
      if not (r.generation == a.generation) then (a, true) else (on_conflict a rev, false)
  on_answer a r (failed message) =
      if not (r.generation == a.generation) then (a, true) else (on_error a message r.events, false)

  abbrev pub due : Autosave E × Bool → Autosave E
  due (a, proceed) = record a { settling = a.settling ++ (proceed ∷ []) }

  -- The server answers one of the PUTs; `settle` is due behind it.
  unfoldable pub answer_open : Autosave E → List (Request E) → Answer → Autosave E
  unfolding on_answer
  answer_open a [] ans = a
  answer_open a (r ∷ rest) ans = due (on_answer (record a { open_puts = rest }) r ans)

  unfoldable pub answer : Autosave E → Answer → Autosave E
  answer a ans = answer_open a a.open_puts ans

  -- What `settle` does with events that are held.
  unfoldable pub settle_held : Autosave E → Bool → Bool → Autosave E
  settle_held a proceed queued =
      if not a.disposed && is_some a.held
      then (if proceed
          then start_save a
          else (if queued && not (is_conflict a.current.status) && not a.timer
              then record a { timer = true }
              else a))
      else a

  abbrev pub resolve_if_idle : Autosave E → Autosave E
  resolve_if_idle a = if a.in_flight then a else resolve_waiters a

  unfoldable pub settle : Autosave E → Bool → Autosave E
  settle a proceed =
      resolve_if_idle
        (settle_held (record a { in_flight = false; queued = false }) proceed a.queued)

  unfoldable pub settle_due : Autosave E → List Bool → Autosave E
  settle_due a [] = a
  settle_due a (proceed ∷ rest) = settle (record a { settling = rest }) proceed

-- What the page, the timer and the server do to it, one at a time.
pub data AutosaveEvent (E : Type 0) : Type 0 where
  updated : E → AutosaveEvent E
  fired : AutosaveEvent E
  flushed : ℕ → AutosaveEvent E
  was_reset : ℕ → AutosaveEvent E
  was_disposed : AutosaveEvent E
  answered : Answer → AutosaveEvent E
  settled : AutosaveEvent E

module _ {E : Type 0} where
  unfoldable pub step : Autosave E → AutosaveEvent E → Autosave E
  step a (updated events) = update a events
  step a fired = fire a
  step a (flushed promise) = flush a promise
  step a (was_reset rev) = reset a rev
  step a was_disposed = dispose a
  step a (answered ans) = answer a ans
  step a settled = settle_due a a.settling

  abbrev pub run_autosave : Autosave E → List (AutosaveEvent E) → Autosave E
  run_autosave a [] = a
  run_autosave a (e ∷ es) = run_autosave (step a e) es
