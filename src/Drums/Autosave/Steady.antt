-- ===== src/Drums/Autosave/Steady.antt =====
-- What holds of an autosave between any two events.
use native.Mathlib.Nat.{le_refl}
use rehearse_kit.Common.{
  ℕ, List, Option, [], arith, false, if◌then◌else◌, is_some, length, none, refl, true, ◌+◌, ◌≡◌,
  ◌≤◌, ◌∷◌, Bool-cases, if_both, inl, inr, not, some, ◌&&◌, ◌||◌, Bool, ◌==◌, subst, sym,
}
use rehearse_kit.Drums.Autosave.{
  Autosave, Request, is_conflict, cancel_timer, send, reset, update, set_state, is_saving,
  start_save, fire, wait, flush, dispose, start_save_with, on_answer, answer, settle, settle_due,
  on_saved, answer_open, settle_held, on_conflict, Answer, on_error, due, accepted, refused, failed,
  resolve_if_idle, step, AutosaveEvent, updated, flushed, was_reset, answered,
}

pub no_length : {A : Type 0} (l : List A) → length l ≡ 0 → l ≡ []
no_length [] h = refl
no_length (x ∷ l) h = absurd (omega arith)

module _ {E : Type 0} where
  -- A PUT of this generation is based on the revision that the next one would be based on, and
  -- there is none when the autosave is disposed.
  unfoldable pub AllBased : Bool → ℕ → ℕ → List (Request E) → Type 0
  AllBased gone gen rev [] = Unit {0}
  AllBased gone gen rev (r ∷ rs) =
      (r.generation ≤ gen)
      × (r.generation ≡ gen → (r.base_rev ≡ rev) × (gone ≡ false))
      × AllBased gone gen rev rs

  pub record IsSteady (a : Autosave E) : Type 0 where
    pub one : length a.open_puts + length a.settling ≡ (if a.in_flight then 1 else 0)
    pub no_waiter : a.in_flight ≡ false → a.waiters ≡ []
    pub armed :
        a.timer ≡ true → (a.in_flight ≡ false) × (is_some a.held ≡ true) × (a.disposed ≡ false)
    pub dropped : a.disposed ≡ true → a.held ≡ none
    pub stopped : is_conflict a.current.status ≡ true → (a.held ≡ none) × (a.open_puts ≡ [])
    pub told : a.disposed ≡ false → a.current.pending_changes ≡ is_some a.held
    pub based : AllBased a.disposed a.generation a.current.edit_rev a.open_puts

  AllBased-next :
      (gone gone' : Bool) (gen rev rev' : ℕ) (rs : List (Request E))
      → AllBased gone gen rev rs
      → AllBased gone' (gen + 1) rev' rs
  unfolding AllBased
  AllBased-next gone gone' gen rev rev' [] v = tt
  AllBased-next gone gone' gen rev rev' (r ∷ rs) v = (
    omega (arith, v.0),
    λ e. absurd (omega (arith, v.0)),
    AllBased-next gone gone' gen rev rev' rs v.2,
  )

  pub none_open :
      (a : Autosave E) → IsSteady a → a.in_flight ≡ false → (a.open_puts ≡ []) × (a.settling ≡ [])
  none_open a v f =
      let total : length a.open_puts + length a.settling ≡ 0 = ground (arith, v.one) in
      (no_length a.open_puts (omega arith), no_length a.settling (omega arith))

  pub cancel_timer-IsSteady : (a : Autosave E) → IsSteady a → IsSteady (cancel_timer a)
  cancel_timer-IsSteady a v = ground arith

  pub send-IsSteady :
      (a : Autosave E) (events : E)
      → (a.open_puts ≡ []) × (a.settling ≡ [])
      → a.disposed ≡ false
      → a.timer ≡ false
      → IsSteady (send a events)
  unfolding send set_state is_conflict AllBased
  send-IsSteady a events (o, s) d t = record {
    one = rw (o, s) refl;
    no_waiter = λ e. cc;
    armed = λ e. cc;
    dropped = λ e. refl;
    stopped = λ e. absurd (no_conflict (rw d at e));
    told = λ e. rw d refl;
    based = rw (o, d) (le_refl a.generation, λ e. (refl, refl), tt);
  }
    where
      no_conflict : false ≡ true → ⊥
      no_conflict e = cc

  pub start_save-IsSteady :
      (a : Autosave E) → IsSteady a → a.timer ≡ false → IsSteady (start_save a)
  unfolding start_save start_save_with
  start_save-IsSteady a v t = go a.held
    where
      go : (o : Option E) → IsSteady (start_save_with a o)
      go none = v
      go (some events) = elim (Bool-cases (a.disposed || a.in_flight)) [
        | inl e ↦ rw e v
        | inr e ↦ rw e (send-IsSteady a events (none_open a v (ground arith)) (ground arith) t)
      ]

  pub update-IsSteady : (a : Autosave E) (events : E) → IsSteady a → IsSteady (update a events)
  unfolding update set_state is_conflict is_saving
  update-IsSteady a events v = ground arith

  pub fire-IsSteady : (a : Autosave E) → IsSteady a → IsSteady (fire a)
  unfolding fire
  fire-IsSteady a v =
      if_both IsSteady a.timer _ _
        (start_save-IsSteady (cancel_timer a) (cancel_timer-IsSteady a v) refl) v

  pub wait-IsSteady : (a : Autosave E) (promise : ℕ) → IsSteady a → IsSteady (wait a promise)
  unfolding wait
  wait-IsSteady a promise v = ground arith

  pub flush-IsSteady : (a : Autosave E) (promise : ℕ) → IsSteady a → IsSteady (flush a promise)
  unfolding flush
  flush-IsSteady a promise v =
      let c = cancel_timer-IsSteady a v in
      wait-IsSteady _ promise (
        if_both IsSteady (not a.disposed && not a.in_flight && is_some a.held) _ _
          (start_save-IsSteady (cancel_timer a) c refl) c)

  pub reset-IsSteady : (a : Autosave E) (rev : ℕ) → IsSteady a → IsSteady (reset a rev)
  unfolding reset set_state is_conflict
  reset-IsSteady a rev v = ground (
    arith,
    AllBased-next a.disposed a.disposed a.generation a.current.edit_rev rev a.open_puts v.based,
  )

  pub dispose-IsSteady : (a : Autosave E) → IsSteady a → IsSteady (dispose a)
  unfolding dispose
  dispose-IsSteady a v = ground (
    arith,
    AllBased-next a.disposed true a.generation a.current.edit_rev a.current.edit_rev a.open_puts
        v.based,
  )

  pub only_open :
      (a : Autosave E)
      → IsSteady a
      → (r : Request E) → a.open_puts ≡ r ∷ []
      → (a.settling ≡ []) × (a.in_flight ≡ true)
  only_open a v r e =
      let total : 1 + length a.settling ≡ (if a.in_flight then 1 else 0) = rw e at v.one in
      (no_length a.settling (ground arith), ground arith)

  pub only_settling :
      (a : Autosave E)
      → IsSteady a
      → (p : Bool) → a.settling ≡ p ∷ []
      → (a.open_puts ≡ []) × (a.in_flight ≡ true) × (a.timer ≡ false)
  only_settling a v p e =
      let total : length a.open_puts + 1 ≡ (if a.in_flight then 1 else 0) = rw e at v.one in
      (no_length a.open_puts (ground arith), ground arith, ground (arith, v.armed))

  pub only_based :
      (a : Autosave E)
      → IsSteady a
      → (r : Request E) → a.open_puts ≡ r ∷ []
      → r.generation ≡ a.generation
      → (r.base_rev ≡ a.current.edit_rev) × (a.disposed ≡ false)
  unfolding AllBased
  only_based a v r e g =
      let b : AllBased a.disposed a.generation a.current.edit_rev (r ∷ []) = rw e at v.based in
      b.1 g

  -- What `onSaved` and `onFailed` leave, where the PUT that is answered was the only one.
  pub handled-IsSteady :
      (a : Autosave E) (r : Request E) (ans : Answer)
      → IsSteady a
      → a.open_puts ≡ r ∷ []
      → IsSteady (due (on_answer (record a { open_puts = [] }) r ans))
  unfolding on_answer on_saved on_conflict on_error set_state is_conflict AllBased
  handled-IsSteady a r ans v e = go ans (only_open a v r e)
    where
      live : (r.generation == a.generation) ≡ true → a.disposed ≡ false
      live g = (only_based a v r e (ground arith)).1

      go :
          (ans : Answer)
          → (a.settling ≡ []) × (a.in_flight ≡ true)
          → IsSteady (due (on_answer (record a { open_puts = [] }) r ans))
      go (accepted rev at) (s, f) = elim (Bool-cases (r.generation == a.generation)) [
        | inl g ↦ let d = live g in rw g (ground arith)
        | inr g ↦ rw g (ground arith)
      ]
      go (refused rev) (s, f) = elim (Bool-cases (r.generation == a.generation)) [
        | inl g ↦ let d = live g in rw g (ground arith)
        | inr g ↦ rw g (ground arith)
      ]
      go (failed message) (s, f) = elim (Bool-cases (r.generation == a.generation)) [
        | inl g ↦ let d = live g in rw g (ground arith)
        | inr g ↦ rw g (ground arith)
      ]

  pub answer-IsSteady : (a : Autosave E) (ans : Answer) → IsSteady a → IsSteady (answer a ans)
  unfolding answer answer_open
  answer-IsSteady a ans v = go a.open_puts refl
    where
      go : (l : List (Request E)) → a.open_puts ≡ l → IsSteady (answer_open a l ans)
      go [] e = v
      go (r ∷ []) e = handled-IsSteady a r ans v e
      go (r ∷ q ∷ rest) e = absurd (two (rw e at v.one))
        where
          two : length (r ∷ q ∷ rest) + length a.settling ≡ (if a.in_flight then 1 else 0) → ⊥
          two h = ground arith

  pub settle_held-IsSteady :
      (a : Autosave E) (proceed queued : Bool)
      → IsSteady a
      → a.timer ≡ false
      → a.in_flight ≡ false
      → IsSteady (settle_held a proceed queued)
  unfolding settle_held
  settle_held-IsSteady a proceed queued v t f =
      elim (Bool-cases (not a.disposed && is_some a.held)) [
        | inl h ↦ rw h (
            if_both IsSteady proceed _ _ (start_save-IsSteady a v t) (
              if_both IsSteady (queued && not (is_conflict a.current.status) && not a.timer) _ _
                (ground arith) v))
        | inr h ↦ rw h v
      ]

  pub resolve_if_idle-IsSteady :
      (a : Autosave E) (w : List ℕ)
      → IsSteady a
      → IsSteady (resolve_if_idle (record a { waiters = w }))
  resolve_if_idle-IsSteady a w v = ground arith

  start_save_with-waiters :
      (a : Autosave E) (w : List ℕ) (o : Option E)
      → start_save_with (record a { waiters = w }) o ≡ record (start_save_with a o) { waiters = w }
  unfolding start_save_with send set_state
  start_save_with-waiters a w none = refl
  start_save_with-waiters a w (some events) = elim (Bool-cases (a.disposed || a.in_flight)) [
    | inl e ↦ rw e refl
    | inr e ↦ rw e refl
  ]

  settle_held-waiters :
      (a : Autosave E) (w : List ℕ) (p q : Bool)
      → settle_held (record a { waiters = w }) p q ≡ record (settle_held a p q) { waiters = w }
  unfolding settle_held start_save
  settle_held-waiters a w p q =
      let same = start_save_with-waiters a w a.held in
      elim (Bool-cases (not a.disposed && is_some a.held)) [
        | inl e ↦ elim (Bool-cases p) [
          | inl g ↦ rw (e, g) same
          | inr g ↦ elim (Bool-cases (q && not (is_conflict a.current.status) && not a.timer)) [
            | inl h ↦ rw (e, g, h) refl
            | inr h ↦ rw (e, g, h) refl
          ]
        ]
        | inr e ↦ rw e refl
      ]

  pub finished-IsSteady :
      (a : Autosave E)
      → IsSteady a
      → (a.open_puts ≡ []) × (a.in_flight ≡ true) × (a.timer ≡ false)
      → IsSteady (record a { in_flight = false; queued = false; settling = []; waiters = [] })
  finished-IsSteady a v (o, f, t) = ground arith

  pub settle-IsSteady :
      (a : Autosave E) (proceed : Bool)
      → IsSteady a
      → a.settling ≡ proceed ∷ []
      → IsSteady (settle (record a { settling = [] }) proceed)
  unfolding settle
  settle-IsSteady a proceed v e =
      let only = only_settling a v proceed e in
      let b : Autosave E = record a {
        in_flight = false;
        queued = false;
        settling = [];
        waiters = [];
      } in
      let still =
        settle_held-IsSteady b proceed a.queued (finished-IsSteady a v only) only.2 refl in
      subst (λ s. IsSteady (resolve_if_idle s))
        (sym (settle_held-waiters b a.waiters proceed a.queued))
        (resolve_if_idle-IsSteady (settle_held b proceed a.queued) a.waiters still)

  pub settle_due-IsSteady : (a : Autosave E) → IsSteady a → IsSteady (settle_due a a.settling)
  unfolding settle_due
  settle_due-IsSteady a v = go a.settling refl
    where
      go : (l : List Bool) → a.settling ≡ l → IsSteady (settle_due a l)
      go [] e = v
      go (p ∷ []) e = settle-IsSteady a p v e
      go (p ∷ q ∷ rest) e = absurd (two (rw e at v.one))
        where
          two : length a.open_puts + length (p ∷ q ∷ rest) ≡ (if a.in_flight then 1 else 0) → ⊥
          two h = ground arith

  pub step-IsSteady : (a : Autosave E) (e : AutosaveEvent E) → IsSteady a → IsSteady (step a e)
  unfolding step
  step-IsSteady a (updated events) v = update-IsSteady a events v
  step-IsSteady a AutosaveEvent.fired v = fire-IsSteady a v
  step-IsSteady a (flushed promise) v = flush-IsSteady a promise v
  step-IsSteady a (was_reset rev) v = reset-IsSteady a rev v
  step-IsSteady a AutosaveEvent.was_disposed v = dispose-IsSteady a v
  step-IsSteady a (answered ans) v = answer-IsSteady a ans v
  step-IsSteady a AutosaveEvent.settled v = settle_due-IsSteady a v
