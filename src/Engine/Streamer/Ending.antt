-- ===== src/Engine/Streamer/Ending.antt =====
-- How a request ends: one that is superseded changes nothing, and the current one is over.
use rehearse_kit.Engine.Plan.{AudioLayout}
use rehearse_kit.Engine.Streamer.Due.{IsDue, Chain, Chain-next}
use rehearse_kit.Common.{
  List, Option, Result, err, false, none, ok, refl, some, true, ℕ, ◌≡◌, ap, if_both, length, not,
  ◌*◌, ◌==◌, ◌||◌, Bool,
}
use rehearse_kit.Engine.Streamer.{
  unreachable, answered, is_current, StemRing, Fetch, StreamOptions, Streamer, finish, end_fetch,
  StreamError, Response, caught, request_failed, RangeError, ContentRange, take_answer,
  assert_partial, bad_answer, take_body, overflow, stored, short_body, PcmError, undecodable,
}

either_way : (a : Bool) {b : Bool} → b ≡ false → (not a || not b) ≡ true
either_way true h = ap not h
either_way false h = refl

-- What is left where the current request has ended.
unfoldable pub Over : {R : Type 0} → AudioLayout → Streamer R → Streamer R → Type 0
Over fmt s r =
    (r.controller ≡ none)
    × (r.in_flight ≡ false)
    × (r.open_fetches ≡ s.open_fetches)
    × (r.next_controller ≡ s.next_controller)
    × Chain fmt r.plan r.generation r.stream_pos r.written

module _ {R A : Type 0} (ring : StemRing R A) (o : StreamOptions)
    (decode : List ℕ → ℕ → Result PcmError (List (List A))) where
  finish-superseded :
      (s : Streamer R) (f : Fetch)
      → is_current s.controller f.controller ≡ false
      → finish ring o decode s f ≡ s
  unfolding finish
  finish-superseded s f h = simp h refl

  caught-superseded :
      (s : Streamer R) (f : Fetch) (e : StreamError)
      → is_current s.controller f.controller ≡ false
      → caught ring o decode s f e ≡ s
  caught-superseded s f e h = simp h (finish-superseded s f h)

  -- A request whose controller is no longer held changes nothing when it ends, however it ends:
  -- it writes no frame, moves no position and reports no error.
  pub end_fetch-superseded :
      (s : Streamer R) (f : Fetch) (response : Response)
      → is_current s.controller f.controller ≡ false
      → end_fetch ring o decode s f response ≡ s
  unfolding end_fetch take_answer
  end_fetch-superseded s f unreachable h = caught-superseded s f request_failed h
  end_fetch-superseded s f (answered status content_range body) h =
      go (assert_partial status content_range f.range.start f.range.end)
    where
      go : (c : Result RangeError ContentRange) → take_answer ring o decode s f c body ≡ s
      go (err e) = caught-superseded s f (bad_answer e) h
      go (ok cr) =
          let dropped : (not (f.generation == s.generation)
                || not (is_current s.controller f.controller))
              ≡ true =
            either_way (f.generation == s.generation) h in
          simp dropped (finish-superseded s f h)

  finish-Over :
      (s : Streamer R) (f : Fetch)
      → is_current s.controller f.controller ≡ true
      → IsDue o.fmt s.plan s.stream_pos s.generation f
      → Chain o.fmt s.plan s.generation s.stream_pos s.written
      → Over o.fmt s (finish ring o decode s f)
  unfolding finish Over
  finish-Over s f h d k = simp h (refl, refl, refl, refl, k)

  caught-Over :
      (s : Streamer R) (f : Fetch) (e : StreamError)
      → is_current s.controller f.controller ≡ true
      → IsDue o.fmt s.plan s.stream_pos s.generation f
      → Chain o.fmt s.plan s.generation s.stream_pos s.written
      → Over o.fmt s (caught ring o decode s f e)
  unfolding finish Over
  caught-Over s f e h d k = simp h (refl, refl, refl, refl, k)

  take_body-Over :
      (s : Streamer R) (f : Fetch) (body : List ℕ)
      → is_current s.controller f.controller ≡ true
      → IsDue o.fmt s.plan s.stream_pos s.generation f
      → Chain o.fmt s.plan s.generation s.stream_pos s.written
      → Over o.fmt s (take_body ring o decode s f body)
  unfolding take_body finish Over
  take_body-Over s f body h d k =
      if_both (Over o.fmt s) (not (length body == f.frames * o.fmt.block_align)) _ _
        (caught-Over s f short_body h d k) (decoded (decode body f.frames))
    where
      written :
          (w : Option R)
          → Over o.fmt s (elim w [
            | none ↦ caught ring o decode s f overflow
            | some rings ↦ finish ring o decode (stored ring o decode s f body rings) f
          ])
      written none = caught-Over s f overflow h d k
      written (some rings) = simp h (
        refl,
        refl,
        refl,
        refl,
        Chain-next o.fmt s.plan s.generation s.stream_pos f s.written d k,
      )

      decoded :
          (d : Result PcmError (List (List A)))
          → Over o.fmt s (elim d [
            | err e ↦ caught ring o decode s f (undecodable e)
            | ok samples ↦ elim (ring.write_ring s.rings samples f.frames) [
              | none ↦ caught ring o decode s f overflow
              | some rings ↦ finish ring o decode (stored ring o decode s f body rings) f
            ]
          ])
      decoded (err e) = caught-Over s f (undecodable e) h d k
      decoded (ok samples) = written (ring.write_ring s.rings samples f.frames)

  pub end_fetch-Over :
      (s : Streamer R) (f : Fetch) (response : Response)
      → is_current s.controller f.controller ≡ true
      → IsDue o.fmt s.plan s.stream_pos s.generation f
      → Chain o.fmt s.plan s.generation s.stream_pos s.written
      → Over o.fmt s (end_fetch ring o decode s f response)
  unfolding end_fetch take_answer
  end_fetch-Over s f unreachable h d k = caught-Over s f request_failed h d k
  end_fetch-Over s f (answered status content_range body) h d k =
      go (assert_partial status content_range f.range.start f.range.end)
    where
      go :
          (c : Result RangeError ContentRange) → Over o.fmt s (take_answer ring o decode s f c body)
      go (err e) = caught-Over s f (bad_answer e) h d k
      go (ok cr) =
          if_both (Over o.fmt s)
            (not (f.generation == s.generation) || not (is_current s.controller f.controller)) _ _
            (finish-Over s f h d k) (take_body-Over s f body h d k)
