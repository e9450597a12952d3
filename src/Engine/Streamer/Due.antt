-- ===== src/Engine/Streamer/Due.antt =====
-- Requests for the chunks of a plan (web/src/player/engine/stem-stream.ts): the ones that are open,
-- and the ones whose frames are in the ring.
use rehearse_kit.Engine.Streamer.{is_current, Fetch}
use rehearse_kit.Engine.Plan.{PlayPlan, Chunk, next_chunk, AudioLayout, byte_range_for}
use rehearse_kit.Common.{
  List, Option, [], arith, none, ok, refl, some, true, ℕ, ◌++◌, ◌+◌, ◌<◌, ◌∷◌, ◌≡◌, ◌≤◌,
}

-- A request for the chunk that the plan has at a stream frame, in its generation.
pub record IsDue (fmt : AudioLayout) (plan : Option PlayPlan) (stream_pos generation : ℕ)
    (f : Fetch) : Type 0 where
  pub p : PlayPlan
  pub size : ℕ
  pub chunk : Chunk
  pub follows : plan ≡ some p
  pub due : next_chunk p stream_pos size ≡ ok (some chunk)
  pub same_start : f.song_start ≡ chunk.song_start
  pub same_frames : f.frames ≡ chunk.frames
  pub same_generation : f.generation ≡ generation
  -- and what is fetched are the chunk's bytes
  pub fetched : byte_range_for fmt chunk.song_start chunk.frames ≡ ok f.range

-- What has been written since the start: the plan's chunks, one behind the other, up to `stream_pos`.
unfoldable pub Chain : AudioLayout → Option PlayPlan → ℕ → ℕ → List Fetch → Type 0
Chain fmt none gen stream_pos fs = Unit {0}
Chain fmt (some p) gen stream_pos [] = stream_pos ≡ 0
Chain fmt (some p) gen stream_pos (f ∷ fs) =
    (start : ℕ) × (stream_pos ≡ start + f.frames)
    × IsDue fmt (some p) start gen f
    × Chain fmt (some p) gen start fs

pub Chain-next :
    (fmt : AudioLayout) (plan : Option PlayPlan) (gen stream_pos : ℕ) (f : Fetch) (fs : List Fetch)
    → IsDue fmt plan stream_pos gen f
    → Chain fmt plan gen stream_pos fs
    → Chain fmt plan gen (stream_pos + f.frames) (f ∷ fs)
unfolding Chain
Chain-next fmt none gen stream_pos f fs d v = tt
Chain-next fmt (some p) gen stream_pos f fs d v = (stream_pos, refl, d, v)

-- Every request has a controller of its own, and the one that is current is due.
unfoldable pub AllDue : AudioLayout → Option ℕ → Option PlayPlan → ℕ → ℕ → ℕ → List Fetch → Type 0
AllDue fmt c plan stream_pos gen next [] = Unit {0}
AllDue fmt c plan stream_pos gen next (f ∷ fs) =
    (f.controller < next)
    × (is_current c f.controller ≡ true → IsDue fmt plan stream_pos gen f)
    × AllDue fmt c plan stream_pos gen next fs

pub AllDue-none :
    (fmt : AudioLayout) (c : Option ℕ) (plan plan' : Option PlayPlan) (n n' gen gen' next next' : ℕ)
    (fs : List Fetch)
    → next ≤ next'
    → AllDue fmt c plan n gen next fs
    → AllDue fmt none plan' n' gen' next' fs
unfolding AllDue is_current
AllDue-none fmt c plan plan' n n' gen gen' next next' [] l v = tt
AllDue-none fmt c plan plan' n n' gen gen' next next' (f ∷ fs) l v = (
  omega (arith, v.0),
  λ q. absurd cc,
  AllDue-none fmt c plan plan' n n' gen gen' next next' fs l v.2,
)

pub AllDue-without :
    (fmt : AudioLayout) (c : Option ℕ) (plan : Option PlayPlan) (n gen next : ℕ)
    (before : List Fetch) (f : Fetch) (fs : List Fetch)
    → AllDue fmt c plan n gen next (before ++ (f ∷ fs))
    → AllDue fmt c plan n gen next (before ++ fs)
unfolding AllDue
AllDue-without fmt c plan n gen next [] f fs v = v.2
AllDue-without fmt c plan n gen next (g ∷ before) f fs v =
    (v.0, v.1, AllDue-without fmt c plan n gen next before f fs v.2)

pub AllDue-at :
    (fmt : AudioLayout) (c : Option ℕ) (plan : Option PlayPlan) (n gen next : ℕ)
    (before : List Fetch) (f : Fetch) (fs : List Fetch)
    → AllDue fmt c plan n gen next (before ++ (f ∷ fs))
    → is_current c f.controller ≡ true
    → IsDue fmt plan n gen f
unfolding AllDue
AllDue-at fmt c plan n gen next [] f fs v h = v.1 h
AllDue-at fmt c plan n gen next (g ∷ before) f fs v h =
    AllDue-at fmt c plan n gen next before f fs v.2 h

pub AllDue-send :
    (fmt : AudioLayout) (c : Option ℕ) (plan : Option PlayPlan) (n gen next : ℕ) (fs : List Fetch)
    (f : Fetch)
    → AllDue fmt c plan n gen next fs
    → f.controller ≡ next
    → IsDue fmt plan n gen f
    → AllDue fmt (some next) plan n gen (next + 1) (fs ++ (f ∷ []))
unfolding AllDue is_current
AllDue-send fmt c plan n gen next [] f v k d = (omega arith, λ _. d, tt)
AllDue-send fmt c plan n gen next (g ∷ fs) f v k d = (
  omega (arith, v.0),
  λ q. absurd (ground (arith, v.0)),
  AllDue-send fmt c plan n gen next fs f v.2 k d,
)
