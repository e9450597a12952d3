-- ===== src/Drums/Autosave/Chain.antt =====
-- The chain of PUTs that the autosave sends one after the other.
use rehearse_kit.Drums.Autosave.{
  AutosaveEvent, new_autosave, Autosave, step, run_autosave, is_conflict, updated, flushed,
  was_reset, answered, start_save, fire, flush, dispose, settle, settle_due, update,
  start_save_with, cancel_timer, wait, settle_held, answer, answer_open, accepted, on_answer,
  on_saved, send, set_state, Request, saved, saving, on_error, failed,
}
use rehearse_kit.Common.{
  ℕ, Bool, List, [], arith, false, length, none, refl, true, ◌∷◌, ◌≡◌, ◌≤◌, if_both, is_some, ◌++◌,
  some, ◌==◌, Option, if◌then◌else◌, Bool-cases, inl, inr, or_else,
}
use rehearse_kit.Drums.Autosave.Steady.{IsSteady, AllBased, step-IsSteady, only_open, only_based}

-- The events that the page does not recover from: everything but `reset`.
unfoldable pub is_reset : {E : Type 0} → AutosaveEvent E → Bool
is_reset (AutosaveEvent.was_reset rev) = true
is_reset _ = false

unfoldable pub NoReset : {E : Type 0} → List (AutosaveEvent E) → Type 0
NoReset [] = Unit {0}
NoReset (e ∷ es) = (is_reset e ≡ false) × NoReset es

module _ {E : Type 0} where
  run-IsSteady :
      (es : List (AutosaveEvent E)) (a : Autosave E) → IsSteady a → IsSteady (run_autosave a es)
  run-IsSteady [] a v = v
  run-IsSteady (e ∷ es) a v = run-IsSteady es (step a e) (step-IsSteady a e v)

  pub new-IsSteady : (rev : ℕ) → IsSteady (new_autosave {E = E} rev)
  unfolding new_autosave AllBased is_conflict
  new-IsSteady rev = record {
    one = refl;
    no_waiter = λ e. refl;
    armed = λ e. cc;
    dropped = λ e. refl;
    stopped = λ e. (refl, refl);
    told = λ e. refl;
    based = tt;
  }

  -- After any sequence of updates, timers, flushes, resets, dispose, answers and settles the
  -- autosave is steady: there is at most one PUT, open or about to settle, and it is one exactly
  -- while a request is in flight; a PUT of this generation is based on the revision that the
  -- next one would be; a timer runs only with events to send; nothing is held after a conflict
  -- or dispose; no promise waits while nothing is in flight.
  pub one_put :
      (rev : ℕ) (es : List (AutosaveEvent E))
      → IsSteady (run_autosave (new_autosave rev) es)
        × (length (run_autosave (new_autosave rev) es).open_puts ≤ 1)
  one_put rev es =
      let v = run-IsSteady es (new_autosave rev) (new-IsSteady rev) in (v, ground (arith, v.one))

  -- What is left of an autosave after a conflict.
  pub record IsHalted (a : Autosave E) : Type 0 where
    pub conflicting : is_conflict a.current.status ≡ true
    pub nothing_held : a.held ≡ none
    pub nothing_open : a.open_puts ≡ []

  start_save-none : (a : Autosave E) → a.held ≡ none → start_save a ≡ a
  unfolding start_save start_save_with
  start_save-none a h = rw h refl

  fire-IsHalted : (a : Autosave E) → IsHalted a → IsHalted (fire a)
  unfolding fire
  fire-IsHalted a v =
      let same = start_save-none (cancel_timer a) v.nothing_held in
      if_both IsHalted a.timer _ _
        (rw same (record {
          conflicting = v.conflicting;
          nothing_held = v.nothing_held;
          nothing_open = v.nothing_open;
        }))
        v

  flush-IsHalted : (a : Autosave E) (promise : ℕ) → IsHalted a → IsHalted (flush a promise)
  unfolding flush wait
  flush-IsHalted a promise v =
      let h : is_some a.held ≡ false = rw (v.nothing_held) refl in ground arith

  dispose-IsHalted : (a : Autosave E) → IsHalted a → IsHalted (dispose a)
  unfolding dispose
  dispose-IsHalted a v = ground arith

  settle-IsHalted : (a : Autosave E) (proceed : Bool) → IsHalted a → IsHalted (settle a proceed)
  unfolding settle settle_held
  settle-IsHalted a proceed v =
      let h : is_some a.held ≡ false = rw (v.nothing_held) refl in ground arith

  settle_due-IsHalted : (a : Autosave E) (l : List Bool) → IsHalted a → IsHalted (settle_due a l)
  unfolding settle_due
  settle_due-IsHalted a [] v = v
  settle_due-IsHalted a (p ∷ l) v =
      settle-IsHalted (record a { settling = l }) p
        (record {
          conflicting = v.conflicting;
          nothing_held = v.nothing_held;
          nothing_open = v.nothing_open;
        })

  step-IsHalted :
      (a : Autosave E) (e : AutosaveEvent E) → IsHalted a → is_reset e ≡ false → IsHalted (step a e)
  unfolding step is_reset update answer answer_open
  step-IsHalted a (updated events) v n = ground arith
  step-IsHalted a AutosaveEvent.fired v n = fire-IsHalted a v
  step-IsHalted a (flushed promise) v n = flush-IsHalted a promise v
  step-IsHalted a (was_reset rev) v n = absurd cc
  step-IsHalted a AutosaveEvent.was_disposed v n = dispose-IsHalted a v
  step-IsHalted a (answered ans) v n = simp (v.nothing_open) v
  step-IsHalted a AutosaveEvent.settled v n = settle_due-IsHalted a a.settling v

  run-IsHalted :
      (es : List (AutosaveEvent E)) (a : Autosave E)
      → IsHalted a
      → NoReset es
      → IsHalted (run_autosave a es)
  unfolding NoReset
  run-IsHalted [] a v n = v
  run-IsHalted (e ∷ es) a v n = run-IsHalted es (step a e) (step-IsHalted a e v n.0) n.1

  -- From a steady state whose status is conflict, after any events but a reset the status is
  -- still conflict, nothing is held and no PUT is open.
  pub halts :
      (a : Autosave E) (es : List (AutosaveEvent E))
      → IsSteady a
      → is_conflict a.current.status ≡ true
      → NoReset es
      → IsHalted (run_autosave a es)
  halts a es v c n =
      run-IsHalted es a
        (record { conflicting = c; nothing_held = (v.stopped c).0; nothing_open = (v.stopped c).1 })
        n

  -- What a promise of `flush` waits for: the PUT that is open is stored, and so is the next one,
  -- which `settle` sends where events were queued behind it.
  abbrev pub round : ℕ → ℕ → List (AutosaveEvent E)
  round rev at = answered (accepted rev at) ∷ AutosaveEvent.settled ∷ []

  -- A PUT of this generation, whose events are stored at `rev`, with nothing queued behind it.
  unfoldable pub after_last : Autosave E → ℕ → ℕ → Autosave E
  after_last a rev at = record a {
    current = record (a.current) {
      status = saved;
      edit_rev = rev;
      saved_at = some at;
      pending_changes = false;
    };
    in_flight = false;
    queued = false;
    waiters = [];
    open_puts = [];
    settling = [];
    resolved = a.resolved ++ a.waiters;
  }

  -- The same where events were queued, and are now sent.
  unfoldable pub after_queued : Autosave E → ℕ → ℕ → E → Autosave E
  after_queued a rev at events = record a {
    current = record (a.current) {
      status = saving;
      edit_rev = rev;
      saved_at = some at;
      message = none;
      pending_changes = false;
    };
    held = none;
    in_flight = true;
    queued = false;
    open_puts = record { base_rev = rev; events = events; generation = a.generation } ∷ [];
    settling = [];
  }

  stored-last :
      (a : Autosave E) (r : Request E) (rev at : ℕ)
      → (a.settling ≡ []) × (a.in_flight ≡ true) × (a.disposed ≡ false)
      → a.open_puts ≡ r ∷ []
      → r.generation ≡ a.generation
      → a.held ≡ none
      → run_autosave a (round rev at) ≡ after_last a rev at
  unfolding step answer answer_open on_answer on_saved settle_due settle settle_held start_save
      start_save_with send set_state is_conflict after_last
  stored-last a r rev at (s, f, d) e g h =
      let same : (r.generation == a.generation) ≡ true = ground arith in
      simp (e, same, s, d, h) refl

  stored-queued :
      (a : Autosave E) (r : Request E) (rev at : ℕ) (events : E)
      → (a.settling ≡ []) × (a.in_flight ≡ true) × (a.disposed ≡ false)
      → a.open_puts ≡ r ∷ []
      → r.generation ≡ a.generation
      → a.held ≡ some events
      → run_autosave a (round rev at) ≡ after_queued a rev at events
  unfolding step answer answer_open on_answer on_saved settle_due settle settle_held start_save
      start_save_with send set_state is_conflict after_queued
  stored-queued a r rev at events (s, f, d) e g h =
      let same : (r.generation == a.generation) ≡ true = ground arith in
      simp (e, same, s, d, h) refl

  second_round :
      (a : Autosave E) (rev at rev' at' : ℕ)
      → run_autosave (after_last a rev at) (round rev' at') ≡ after_last a rev at
  unfolding step answer answer_open settle_due after_last
  second_round a rev at rev' at' = refl

  -- What is left of an autosave whose edits are all stored.
  pub record IsDone (a : Autosave E) (rev : ℕ) (promises : List ℕ) : Type 0 where
    pub idle_now : a.in_flight ≡ false
    pub none_waits : a.waiters ≡ []
    pub all_resolved : a.resolved ≡ promises
    pub all_sent : a.held ≡ none
    pub all_answered : a.open_puts ≡ []
    pub stored : a.current.status ≡ saved
    pub at_rev : a.current.edit_rev ≡ rev

  last-IsDone :
      (a : Autosave E) (rev at : ℕ)
      → a.held ≡ none
      → IsDone (after_last a rev at) rev (a.resolved ++ a.waiters)
  unfolding after_last
  last-IsDone a rev at h = record {
    idle_now = refl;
    none_waits = refl;
    all_resolved = refl;
    all_sent = h;
    all_answered = refl;
    stored = refl;
    at_rev = refl;
  }

  queued_none :
      (a : Autosave E) (rev at : ℕ) (events : E) → (after_queued a rev at events).held ≡ none
  unfolding after_queued
  queued_none a rev at events = refl

  queued_last :
      (a : Autosave E) (rev at rev' at' : ℕ) (events : E)
      → a.disposed ≡ false
      → run_autosave (after_queued a rev at events) (round rev' at')
        ≡ after_last (after_queued a rev at events) rev' at'
  unfolding after_queued
  queued_last a rev at rev' at' events d =
      stored-last (after_queued a rev at events)
        (record { base_rev = rev; events = events; generation = a.generation }) rev' at'
        (refl, refl, d) refl refl refl

  -- From a steady state with an open PUT of this generation, once the server has stored it and
  -- the PUT that settle sends for events queued behind it, every promise that waited is
  -- resolved, nothing is held, open or in flight, the status is saved and the revision is the
  -- last one returned.
  pub flush-IsDone :
      (a : Autosave E) (r : Request E) (rev at rev' at' : ℕ)
      → IsSteady a
      → a.open_puts ≡ r ∷ []
      → r.generation ≡ a.generation
      → IsDone
          (run_autosave a (round rev at ++ round rev' at'))
          (if is_some a.held then rev' else rev)
          (a.resolved ++ a.waiters)
  unfolding after_queued
  flush-IsDone a r rev at rev' at' v e g =
      go a.held refl (only_open a v r e) (only_based a v r e g).1
    where
      Goal : Option E → Type 0
      Goal o =
          IsDone (run_autosave a (round rev at ++ round rev' at')) (if is_some o then rev' else rev)
            (a.resolved ++ a.waiters)

      go :
          (o : Option E)
          → a.held ≡ o
          → (a.settling ≡ []) × (a.in_flight ≡ true)
          → a.disposed ≡ false
          → Goal o
      go none h (s, f) d =
          let one = stored-last a r rev at (s, f, d) e g h in
          rw (one, second_round a rev at rev' at') (last-IsDone a rev at h)
      go (some events) h (s, f) d =
          let one = stored-queued a r rev at events (s, f, d) e g h in
          let two = queued_last a rev at rev' at' events d in
          rw (one, two)
            (last-IsDone (after_queued a rev at events) rev' at' (queued_none a rev at events))

  -- What `flush` leaves after a PUT that failed.
  unfoldable pub after_retry : Autosave E → Request E → ℕ → E → Autosave E
  after_retry a r promise events = record a {
    current = record (a.current) { status = saving; pending_changes = false; message = none };
    held = none;
    timer = false;
    in_flight = true;
    queued = false;
    waiters = promise ∷ [];
    open_puts = record { base_rev = r.base_rev; events = events; generation = a.generation } ∷ [];
    settling = [];
    resolved = a.resolved ++ a.waiters;
  }

  -- From a steady state with an open PUT of this generation that fails, settles and is followed
  -- by a flush: the PUT is sent again with the same base revision, with the events queued
  -- meanwhile or else its own, the promises that waited are resolved and the flush waits.
  pub retries :
      (a : Autosave E) (r : Request E) (message promise : ℕ)
      → IsSteady a
      → a.open_puts ≡ r ∷ []
      → r.generation ≡ a.generation
      → run_autosave a (answered (failed message) ∷ AutosaveEvent.settled ∷ flushed promise ∷ [])
        ≡ after_retry a r promise (or_else a.held r.events)
  unfolding step answer answer_open on_answer on_error settle_due settle settle_held start_save
      start_save_with send set_state is_conflict flush wait after_retry
  retries a r message promise v e g =
      let (s, f) = only_open a v r e in
      let (b, d) = only_based a v r e g in
      let t : a.timer ≡ false = ground (arith, v.armed) in
      let same : (r.generation == a.generation) ≡ true = ground arith in
      elim (Bool-cases a.queued) [
        | inl q ↦ simp (e, same, s, d, t, b, q) refl
        | inr q ↦ simp (e, same, s, d, t, b, q) refl
      ]
