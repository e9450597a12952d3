-- ===== src/Engine/Streamer/Flight.antt =====
-- What the requests of a streamer are for.
use rehearse_kit.Engine.Streamer.Due.{
  AllDue, Chain, AllDue-none, AllDue-without, AllDue-send, AllDue-at,
}
use native.Mathlib.Nat.{le_refl}
use rehearse_kit.Common.{
  List, Option, Result, [], arith, err, is_some, none, ok, refl, some, ℕ, ◌++◌, ◌+◌, ◌∷◌, ◌≡◌, ap,
  if_both, suc, sym, zero, ◌||◌, ◌∙◌, Bool-cases, append_assoc, inl, inr, subst,
}
use rehearse_kit.Engine.Streamer.Ending.{Over, end_fetch-superseded, end_fetch-Over}
use rehearse_kit.Engine.Streamer.{
  StreamEvent, restarted, fetch_ended, PlayPlan, is_current, StemRing, Fetch, StreamOptions, Chunk,
  Streamer, next_chunk, Response, end_at, fetch_chunk, tick, stream_step, run_stream, PlanError,
  tick_plan, restart, ByteRange, tick_chunk, abort, byte_range_for, or_thrown, max_frames, no_chunk,
  PcmError,
}

module _ {R A : Type 0} (ring : StemRing R A) (o : StreamOptions)
    (decode : List ℕ → ℕ → Result PcmError (List (List A))) where
  pub record IsFlying (s : Streamer R) : Type 0 where
    pub flagged : s.in_flight ≡ is_some s.controller
    pub all_due :
        AllDue o.fmt s.controller s.plan s.stream_pos s.generation s.next_controller s.open_fetches
    pub chained : Chain o.fmt s.plan s.generation s.stream_pos s.written

  Over-IsFlying :
      (s r : Streamer R) (c : Option ℕ) (plan : Option PlayPlan) (n gen : ℕ)
      → AllDue o.fmt c plan n gen s.next_controller s.open_fetches
      → Over o.fmt s r
      → IsFlying r
  unfolding Over
  Over-IsFlying s r c plan n gen v (k, f, l, x, w) = record {
    chained = w;
    flagged = f ∙ ap is_some (sym k);
    all_due =
        rw (k, l, x)
          (AllDue-none o.fmt c plan r.plan n r.stream_pos gen r.generation s.next_controller
            s.next_controller s.open_fetches (le_refl s.next_controller) v);
  }

  end_at-IsFlying :
      (s : Streamer R) (before fs : List Fetch) (i : ℕ) (response : Response)
      → IsFlying s
      → s.open_fetches ≡ before ++ fs
      → IsFlying (end_at ring o decode s before fs i response)
  unfolding end_at
  end_at-IsFlying s before [] i response v e = v
  end_at-IsFlying s before (f ∷ fs) zero response v e =
      let t : Streamer R = record s { open_fetches = before ++ fs } in
      let there : AllDue o.fmt s.controller s.plan s.stream_pos s.generation s.next_controller
          (before ++ (f ∷ fs)) =
        subst (AllDue o.fmt s.controller s.plan s.stream_pos s.generation s.next_controller) e
          v.all_due in
      let rest : AllDue o.fmt s.controller s.plan s.stream_pos s.generation s.next_controller
          (before ++ fs) =
        AllDue-without o.fmt s.controller s.plan s.stream_pos s.generation s.next_controller before
          f fs there in
      elim (Bool-cases (is_current s.controller f.controller)) [
        | inl h ↦ Over-IsFlying t _ s.controller s.plan s.stream_pos s.generation rest (
            end_fetch-Over ring o decode t f response h
              (AllDue-at o.fmt s.controller s.plan s.stream_pos s.generation s.next_controller
                before f fs there h)
              v.chained)
        | inr h ↦
            subst IsFlying (sym (end_fetch-superseded ring o decode t f response h))
              (record { flagged = v.flagged; all_due = rest; chained = v.chained })
      ]
  end_at-IsFlying s before (f ∷ fs) (suc i) response v e =
      end_at-IsFlying s (before ++ (f ∷ [])) fs i response v
        (e ∙ sym (append_assoc before (f ∷ []) fs))

  fetch_chunk-IsFlying :
      (s : Streamer R) (p : PlayPlan) (size : ℕ) (chunk : Chunk)
      → IsFlying s
      → s.plan ≡ some p
      → next_chunk p s.stream_pos size ≡ ok (some chunk)
      → IsFlying (fetch_chunk ring o decode s chunk)
  unfolding fetch_chunk
  fetch_chunk-IsFlying s p size chunk v q d =
      go (byte_range_for o.fmt chunk.song_start chunk.frames) refl
    where
      go :
          (b : Result PlanError ByteRange)
          → byte_range_for o.fmt chunk.song_start chunk.frames ≡ b
          → IsFlying (fetch_chunk ring o decode s chunk)
      go (err e) h =
          simp (fetch_chunk, h)
            (record {
              chained = v.chained;
              flagged = refl;
              all_due =
                  AllDue-none o.fmt s.controller s.plan s.plan s.stream_pos s.stream_pos
                    s.generation s.generation s.next_controller (s.next_controller + 1)
                    s.open_fetches (omega arith) v.all_due;
            })
      go (ok range) h =
          simp (fetch_chunk, h)
            (record {
              chained = v.chained;
              flagged = refl;
              all_due =
                  AllDue-send o.fmt s.controller s.plan s.stream_pos s.generation s.next_controller
                    s.open_fetches _ v.all_due refl
                    (record {
                      p = p;
                      size = size;
                      chunk = chunk;
                      follows = q;
                      due = d;
                      same_start = refl;
                      same_frames = refl;
                      same_generation = refl;
                      fetched = h;
                    });
            })

  tick-IsFlying :
      (s : Streamer R) → IsFlying s → IsFlying (or_thrown ring o decode s (tick ring o decode s))
  unfolding tick tick_plan tick_chunk
  tick-IsFlying s v = go s.plan refl
    where
      chunked :
          (p : PlayPlan) (c : Option Chunk)
          → s.plan ≡ some p
          → next_chunk p s.stream_pos (max_frames ring o decode s) ≡ ok c
          → IsFlying (tick_chunk ring o decode s c)
      chunked p none q d = record { flagged = v.flagged; all_due = v.all_due; chained = v.chained }
      chunked p (some chunk) q d =
          if_both IsFlying _ _ _ v
            (fetch_chunk-IsFlying s p (max_frames ring o decode s) chunk v q d)

      asked :
          (p : PlayPlan) (r : Result PlanError (Option Chunk))
          → s.plan ≡ some p
          → next_chunk p s.stream_pos (max_frames ring o decode s) ≡ r
          → IsFlying (
              or_thrown ring o decode s (elim r [
                | err e ↦ err (no_chunk e)
                | ok chunk ↦ ok (tick_chunk ring o decode s chunk)
              ]))
      asked p (err e) q d = v
      asked p (ok c) q d = chunked p c q d

      go :
          (p : Option PlayPlan)
          → s.plan ≡ p
          → IsFlying (or_thrown ring o decode s (tick_plan ring o decode s p))
      go none q = v
      go (some p) q =
          if_both (λ r. IsFlying (or_thrown ring o decode s r))
            (is_some s.controller || s.eof_reached) _ _ v
            (asked p (next_chunk p s.stream_pos (max_frames ring o decode s)) q refl)

  stream_step-IsFlying :
      (s : Streamer R) (x : StreamEvent) → IsFlying s → IsFlying (stream_step ring o decode s x)
  unfolding stream_step restart abort Chain
  stream_step-IsFlying s (restarted p gen) v = record {
    flagged = refl;
    chained = refl;
    all_due =
        AllDue-none o.fmt s.controller s.plan (some p) s.stream_pos 0 s.generation gen
          s.next_controller s.next_controller s.open_fetches (le_refl s.next_controller) v.all_due;
  }
  stream_step-IsFlying s StreamEvent.was_aborted v = record {
    flagged = refl;
    chained = tt;
    all_due =
        AllDue-none o.fmt s.controller s.plan none s.stream_pos s.stream_pos s.generation
          s.generation s.next_controller s.next_controller s.open_fetches
          (le_refl s.next_controller) v.all_due;
  }
  stream_step-IsFlying s StreamEvent.was_ticked v = tick-IsFlying s v
  stream_step-IsFlying s (fetch_ended i response) v =
      end_at-IsFlying s [] s.open_fetches i response v refl

  -- From a state with these properties, as a new streamer is, after any restarts, aborts, ticks
  -- and ends of requests in any order: every open request has a controller below the next
  -- number; the one that the streamer holds, if it is open, is for the chunk that the current
  -- plan has at the stream position, in the current generation, and its byte range is the one of
  -- that chunk in the file; inFlight tells whether a controller is held; and while a plan is
  -- held, the requests whose frames were written since the start are for chunks of that plan and
  -- of this generation, with the chunk's byte range, each where the one before it ended, from
  -- stream frame 0 up to the stream position.
  pub run_stream-IsFlying :
      (xs : List StreamEvent) (s : Streamer R)
      → IsFlying s
      → IsFlying (run_stream ring o decode s xs)
  run_stream-IsFlying [] s v = v
  run_stream-IsFlying (x ∷ xs) s v =
      run_stream-IsFlying xs (stream_step ring o decode s x) (stream_step-IsFlying s x v)
