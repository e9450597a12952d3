-- ===== src/Drums/Autosave/Server.antt =====
-- The autosave beside the server that stores the drum line: a PUT is stored where its base revision
-- is the stored one, and `next` is the revision that it is stored at. A PUT may fail before it
-- reaches the server.
use rehearse_kit.Drums.Autosave.Chain.{new-IsSteady}
use rehearse_kit.Drums.Autosave.Steady.{
  IsSteady, none_open, no_length, AllBased, update-IsSteady, only_based, fire-IsSteady,
  answer-IsSteady, flush-IsSteady, settle_due-IsSteady,
}
use rehearse_kit.Drums.Autosave.{
  AutosaveStatus, Autosave, new_autosave, Request, update, send, start_save, fire, wait, flush,
  answer, settle_due, accepted, failed, is_conflict, set_state, start_save_with, cancel_timer,
  answer_open, settle, refused, is_saving, on_answer, settle_held, on_error, on_saved,
  resolve_if_idle, pending,
}
use rehearse_kit.Common.{
  Bool, Bool-cases, List, Option, [], arith, false, if_both, if◌then◌else◌, inl, inr, is_some, none,
  not, or_else, refl, some, true, ℕ, ◌&&◌, ◌==◌, ◌||◌, ◌∷◌, ◌≡◌, length, subst, sym, ◌+◌,
}

unfoldable pub is_saved : AutosaveStatus → Bool
is_saved AutosaveStatus.saved = true
is_saved _ = false

-- The stored revision and document, the latest edit, and the autosave.
pub record World (E : Type 0) : Type 0 where
  pub rev : ℕ
  pub doc : E
  pub latest : E
  pub saver : Autosave E

pub data WorldEvent (E : Type 0) : Type 0 where
  edited : E → WorldEvent E
  elapsed : WorldEvent E
  flushing : ℕ → WorldEvent E
  delivered : ℕ → WorldEvent E
  lost : ℕ → WorldEvent E
  continued : WorldEvent E

unfoldable pub new_world : {E : Type 0} → ℕ → E → World E
new_world rev doc = record { rev = rev; doc = doc; latest = doc; saver = new_autosave rev }

module _ {E : Type 0} (next : ℕ → ℕ) where
  unfoldable pub deliver : World E → List (Request E) → ℕ → World E
  deliver w [] at = w
  deliver w (r ∷ rest) at =
      if r.base_rev == w.rev
      then record w {
        rev = next (w.rev);
        doc = r.events;
        saver = answer w.saver (accepted (next (w.rev)) at);
      }
      else record w { saver = answer w.saver (refused (w.rev)) }

  unfoldable pub world_step : World E → WorldEvent E → World E
  world_step w (edited events) = record w { latest = events; saver = update w.saver events }
  world_step w WorldEvent.elapsed = record w { saver = fire w.saver }
  world_step w (flushing promise) = record w { saver = flush w.saver promise }
  world_step w (delivered at) = deliver w w.saver.open_puts at
  world_step w (lost message) = record w { saver = answer w.saver (failed message) }
  world_step w WorldEvent.continued = record w { saver = settle_due w.saver w.saver.settling }

  abbrev pub run_world : World E → List (WorldEvent E) → World E
  run_world w [] = w
  run_world w (e ∷ es) = run_world (world_step w e) es

pending_saved : is_saved pending ≡ true → ⊥
unfolding is_saved
pending_saved q = cc

module _ {E : Type 0} where
  unfoldable pub newest : E → List (Request E) → E
  newest doc [] = doc
  newest doc (r ∷ rs) = r.events

  unfoldable pub AllOf : ℕ → List (Request E) → Type 0
  AllOf gen [] = Unit {0}
  AllOf gen (r ∷ rs) = (r.generation ≡ gen) × AllOf gen rs

  -- The autosave has the server's revision, and every edit is stored, open or held.
  pub record IsSynced (rev : ℕ) (doc latest : E) (a : Autosave E) : Type 0 where
    pub alive : a.disposed ≡ false
    pub agrees : a.current.edit_rev ≡ rev
    pub calm : is_conflict a.current.status ≡ false
    pub ours : AllOf a.generation a.open_puts
    pub kept : latest ≡ or_else a.held (newest doc a.open_puts)
    pub rested : is_saved a.current.status ≡ true → (a.held ≡ none) × (a.open_puts ≡ [])

  module _ {rev : ℕ} {doc : E} where
    send-IsSynced :
        (a : Autosave E) (events : E)
        → a.open_puts ≡ []
        → a.held ≡ some events
        → (latest : E) → IsSynced rev doc latest a
        → IsSynced rev doc latest (send a events)
    unfolding send set_state is_conflict is_saved AllOf newest
    send-IsSynced a events o h latest v =
        let k : latest ≡ events = rw h at v.kept in
        let d = v.alive in
        record {
          alive = d;
          agrees = rw d (v.agrees);
          calm = rw d refl;
          ours = rw o (refl, tt);
          kept = rw o k;
          rested = λ e. absurd (not_saved (rw d at e));
        }
      where
        not_saved : false ≡ true → ⊥
        not_saved e = cc

    start_save-IsSynced :
        (a : Autosave E) (latest : E)
        → (a.in_flight ≡ false → a.open_puts ≡ [])
        → IsSynced rev doc latest a
        → IsSynced rev doc latest (start_save a)
    unfolding start_save start_save_with
    start_save-IsSynced a latest s v = go a.held refl
      where
        go : (o : Option E) → a.held ≡ o → IsSynced rev doc latest (start_save_with a o)
        go none e = v
        go (some events) h = elim (Bool-cases (a.disposed || a.in_flight)) [
          | inl e ↦ rw e v
          | inr e ↦ rw e (send-IsSynced a events (s (ground arith)) h latest v)
        ]

    cancel_timer-IsSynced :
        (a : Autosave E) (latest : E)
        → IsSynced rev doc latest a
        → IsSynced rev doc latest (cancel_timer a)
    cancel_timer-IsSynced a latest v = ground arith

    update-IsSynced :
        (a : Autosave E) (latest events : E)
        → IsSteady a
        → IsSynced rev doc latest a
        → IsSynced rev doc events (update a events)
    unfolding update set_state is_conflict is_saving is_saved
    update-IsSynced a latest events s v = ground arith

    fire-IsSynced :
        (a : Autosave E) (latest : E)
        → IsSteady a
        → IsSynced rev doc latest a
        → IsSynced rev doc latest (fire a)
    unfolding fire
    fire-IsSynced a latest s v =
        if_both (IsSynced rev doc latest) a.timer _ _
          (start_save-IsSynced (cancel_timer a) latest (λ f. (none_open a s f).0)
            (cancel_timer-IsSynced a latest v))
          v

    wait-IsSynced :
        (a : Autosave E) (latest : E) (promise : ℕ)
        → IsSynced rev doc latest a
        → IsSynced rev doc latest (wait a promise)
    unfolding wait
    wait-IsSynced a latest promise v = ground arith

    flush-IsSynced :
        (a : Autosave E) (latest : E) (promise : ℕ)
        → IsSteady a
        → IsSynced rev doc latest a
        → IsSynced rev doc latest (flush a promise)
    unfolding flush
    flush-IsSynced a latest promise s v =
        let c = cancel_timer-IsSynced a latest v in
        wait-IsSynced _ latest promise (
          if_both (IsSynced rev doc latest) (not a.disposed && not a.in_flight && is_some a.held) _
            _ (start_save-IsSynced (cancel_timer a) latest (λ f. (none_open a s f).0) c) c)

    failed-IsSynced :
        (a : Autosave E) (latest : E) (message : ℕ)
        → IsSteady a
        → IsSynced rev doc latest a
        → IsSynced rev doc latest (answer a (failed message))
    unfolding answer answer_open on_answer on_error set_state is_conflict is_saved AllOf newest
    failed-IsSynced a latest message s v = go a.open_puts refl
      where
        go :
            (l : List (Request E))
            → a.open_puts ≡ l
            → IsSynced rev doc latest (answer_open a l (failed message))
        go [] e = v
        go (r ∷ rest) e =
            let own : AllOf a.generation (r ∷ rest) = rw e at v.ours in
            let same : (r.generation == a.generation) ≡ true = ground (arith, own.0) in
            let d = v.alive in
            let k : latest ≡ or_else a.held r.events = rw e at v.kept in
            rw (same, d)
              (record {
                alive = refl;
                agrees = v.agrees;
                calm = refl;
                ours = own.1;
                kept = k;
                rested = λ q. absurd cc;
              })

    accepted-IsSynced :
        (a : Autosave E) (latest : E) (rev' at : ℕ) (r : Request E)
        → IsSteady a
        → IsSynced rev doc latest a
        → a.open_puts ≡ r ∷ []
        → IsSynced rev' (r.events) latest (answer_open a (r ∷ []) (accepted rev' at))
    unfolding answer_open on_answer on_saved set_state is_conflict is_saved AllOf newest
    accepted-IsSynced a latest rev' at r s v e =
        let own : AllOf a.generation (r ∷ []) = rw e at v.ours in
        let same : (r.generation == a.generation) ≡ true = ground (arith, own.0) in
        let k : latest ≡ or_else a.held r.events = rw e at v.kept in go a.held refl same k
      where
        go :
            (o : Option E)
            → a.held ≡ o
            → (r.generation == a.generation) ≡ true
            → latest ≡ or_else o (r.events)
            → IsSynced rev' (r.events) latest (answer_open a (r ∷ []) (accepted rev' at))
        go none h same k =
            simp (h, same, v.alive)
              (record {
                alive = refl;
                agrees = refl;
                calm = refl;
                ours = tt;
                kept = k;
                rested = λ q. (refl, refl);
              })
        go (some events) h same k =
            simp (h, same, v.alive)
              (record {
                alive = refl;
                agrees = refl;
                calm = refl;
                ours = tt;
                kept = k;
                rested = λ q. absurd (pending_saved q);
              })

    settle_held-IsSynced :
        (a : Autosave E) (latest : E) (proceed queued : Bool)
        → a.open_puts ≡ []
        → IsSynced rev doc latest a
        → IsSynced rev doc latest (settle_held a proceed queued)
    unfolding settle_held
    settle_held-IsSynced a latest proceed queued o v =
        if_both (IsSynced rev doc latest) (not a.disposed && is_some a.held) _ _
          (if_both (IsSynced rev doc latest) proceed _ _ (start_save-IsSynced a latest (λ f. o) v) (
            if_both (IsSynced rev doc latest)
              (queued && not (is_conflict a.current.status) && not a.timer) _ _ (ground arith) v))
          v

    resolve_if_idle-IsSynced :
        (a : Autosave E) (latest : E)
        → IsSynced rev doc latest a
        → IsSynced rev doc latest (resolve_if_idle a)
    resolve_if_idle-IsSynced a latest v = ground arith

    settle-IsSynced :
        (a : Autosave E) (latest : E)
        → IsSteady a
        → IsSynced rev doc latest a
        → IsSynced rev doc latest (settle_due a a.settling)
    unfolding settle_due settle
    settle-IsSynced a latest s v = go a.settling refl
      where
        go : (l : List Bool) → a.settling ≡ l → IsSynced rev doc latest (settle_due a l)
        go [] e = v
        go (p ∷ rest) e = resolve_if_idle-IsSynced _ latest (
            settle_held-IsSynced _ latest p a.queued (no_length a.open_puts (ground arith))
              (record {
                alive = v.alive;
                agrees = v.agrees;
                calm = v.calm;
                ours = v.ours;
                kept = v.kept;
                rested = v.rested;
              }))

module _ {E : Type 0} (next : ℕ → ℕ) where
  pub record IsKept (w : World E) : Type 0 where
    pub steady : IsSteady w.saver
    pub synced : IsSynced w.rev w.doc w.latest w.saver

  deliver-IsKept : (w : World E) (at : ℕ) → IsKept w → IsKept (deliver next w w.saver.open_puts at)
  unfolding deliver AllOf AllBased answer
  deliver-IsKept w at v = go w.saver.open_puts refl
    where
      go : (l : List (Request E)) → w.saver.open_puts ≡ l → IsKept (deliver next w l at)
      go [] e = v
      go (r ∷ q ∷ rest) e = absurd (two (rw e at v.steady.one))
        where
          two :
              length (r ∷ q ∷ rest) + length w.saver.settling ≡ (if w.saver.in_flight then 1 else 0)
              → ⊥
          two h = ground arith
      go (r ∷ []) e =
          let own : AllOf w.saver.generation (r ∷ []) = rw e at v.synced.ours in
          let b = (only_based w.saver v.steady r e own.0).0 in
          let same : (r.base_rev == w.rev) ≡ true = ground (arith, v.synced.agrees) in
          let kept = accepted-IsSynced w.saver w.latest (next (w.rev)) at r v.steady v.synced e in
          rw same (record {
            steady = answer-IsSteady w.saver (accepted (next (w.rev)) at) v.steady;
            synced =
                subst
                  (λ l.
                    IsSynced (next (w.rev)) (r.events) w.latest
                      (answer_open w.saver l (accepted (next (w.rev)) at)))
                  (sym e) kept;
          })

  step-IsKept : (w : World E) (e : WorldEvent E) → IsKept w → IsKept (world_step next w e)
  unfolding world_step
  step-IsKept w (edited events) v = record {
    steady = update-IsSteady w.saver events v.steady;
    synced = update-IsSynced w.saver w.latest events v.steady v.synced;
  }
  step-IsKept w WorldEvent.elapsed v = record {
    steady = fire-IsSteady w.saver v.steady;
    synced = fire-IsSynced w.saver w.latest v.steady v.synced;
  }
  step-IsKept w (flushing promise) v = record {
    steady = flush-IsSteady w.saver promise v.steady;
    synced = flush-IsSynced w.saver w.latest promise v.steady v.synced;
  }
  step-IsKept w (delivered at) v = deliver-IsKept w at v
  step-IsKept w (lost message) v = record {
    steady = answer-IsSteady w.saver (failed message) v.steady;
    synced = failed-IsSynced w.saver w.latest message v.steady v.synced;
  }
  step-IsKept w WorldEvent.continued v = record {
    steady = settle_due-IsSteady w.saver v.steady;
    synced = settle-IsSynced w.saver w.latest v.steady v.synced;
  }

  run-IsKept : (es : List (WorldEvent E)) (w : World E) → IsKept w → IsKept (run_world next w es)
  run-IsKept [] w v = v
  run-IsKept (e ∷ es) w v = run-IsKept es (world_step next w e) (step-IsKept w e v)

  new-IsKept : (rev : ℕ) (doc : E) → IsKept (new_world rev doc)
  unfolding new_world new_autosave AllOf newest is_saved is_conflict
  new-IsKept rev doc = record {
    steady = new-IsSteady rev;
    synced = record {
      alive = refl;
      agrees = refl;
      calm = refl;
      ours = tt;
      kept = refl;
      rested = λ q. (refl, refl);
    };
  }

  -- With the same server, from the stored document at its revision and under the same events,
  -- the status is never conflict, the autosave has the server's revision, and the last events
  -- given are those held, or else those of the open PUT, or else those stored.
  pub no_edit_lost :
      (rev : ℕ) (doc : E) (es : List (WorldEvent E))
      → IsSynced
          (run_world next (new_world rev doc) es).rev
          (run_world next (new_world rev doc) es).doc
          (run_world next (new_world rev doc) es).latest
          (run_world next (new_world rev doc) es).saver
  no_edit_lost rev doc es = (run-IsKept es (new_world rev doc) (new-IsKept rev doc)).synced

  -- With a server that stores a PUT exactly where its base revision is the stored one, and calls
  -- of update, flush and the timer, PUTs that are answered or that fail before they reach the
  -- server, and settle in any order: whenever the status is saved, the server holds the events
  -- of the last update, and the autosave has the server's revision.
  pub saved_is_stored :
      (rev : ℕ) (doc : E) (es : List (WorldEvent E))
      → is_saved (run_world next (new_world rev doc) es).saver.current.status ≡ true
      → ((run_world next (new_world rev doc) es).doc
          ≡ (run_world next (new_world rev doc) es).latest)
        × ((run_world next (new_world rev doc) es).saver.current.edit_rev
            ≡ (run_world next (new_world rev doc) es).rev)
  unfolding newest
  saved_is_stored rev doc es q =
      let v = no_edit_lost rev doc es in
      (sym (rw ((v.rested q).0, (v.rested q).1) at v.kept), v.agrees)
