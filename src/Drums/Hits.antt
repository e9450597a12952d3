-- ===== src/Drums/Hits.antt =====
-- The helpers at the foot of web/src/lib/drums/model.ts: sorting, sets of ids, clamps.
pub mod Ids
pub mod Sorting
pub mod Pigeonhole
use rehearse_kit.Common.{
  ℕ, Bool, List, Option, [], drop, false, if◌then◌else◌, length, map, max, none, not, some, true,
  ◌&&◌, ◌+◌, ◌==◌, ◌||◌, ◌∷◌,
}
use rehearse_kit.Drums.Double.{Double, min_f, max_f, one_f, zero_f}
use rehearse_kit.Drums.Types.{HitId, u, other, DrumEvent, id_eq, vel_from_127, art_eq}

-- `Array.prototype.filter`, and `some` on a list.
module _ {A : Type 0} where
  unfoldable pub keep : (A → Bool) → List A → List A
  keep p [] = []
  keep p (x ∷ xs) = if p x then x ∷ keep p xs else keep p xs

  unfoldable pub any_of : (A → Bool) → List A → Bool
  any_of p [] = false
  any_of p (x ∷ xs) = p x || any_of p xs

  -- `xs[xs.length - 1]` and `xs.slice(0, -1)`
  unfoldable pub last_of : List A → Option A
  last_of [] = none
  last_of (x ∷ []) = some x
  last_of (x ∷ y ∷ xs) = last_of (y ∷ xs)

  unfoldable pub but_last : List A → List A
  but_last [] = []
  but_last (x ∷ []) = []
  but_last (x ∷ y ∷ xs) = x ∷ but_last (y ∷ xs)

-- `new Set(ids).has(id)`
unfoldable pub has : List HitId → HitId → Bool
has ids id = any_of (id_eq id) ids

unfoldable pub without : List HitId → List HitId → List HitId
without ids drop = keep (λ id. not (has drop id)) ids

-- `Array.from(new Set(ids))`: the first of each, in order.
unfoldable pub dedupe : List HitId → List HitId
dedupe [] = []
dedupe (id ∷ ids) = id ∷ keep (λ x. not (id_eq id x)) (dedupe ids)

unfoldable pub same_ids : List HitId → List HitId → Bool
same_ids [] [] = true
same_ids (a ∷ as') (b ∷ bs) = id_eq a b && same_ids as' bs
same_ids _ _ = false

-- The number of an id that /^u(\d+)$/ matches.
abbrev pub manual_number : HitId → Option ℕ
manual_number (u _ n) = some n
manual_number (other _) = none

abbrev pub next_past : Option ℕ → ℕ → ℕ
next_past none next = next
next_past (some n) next = max next (n + 1)

module _ {F : Type 0} where
  abbrev pub ids_of : List (DrumEvent F) → List HitId
  ids_of = map (λ h. h.id)

  -- `keepKnown`, up to the identity of the array.
  unfoldable pub keep_known : List HitId → List (DrumEvent F) → List HitId
  keep_known selection hits = keep (has (ids_of hits)) selection

  -- `hits.find`
  unfoldable pub find_hit : HitId → List (DrumEvent F) → Option (DrumEvent F)
  find_hit id [] = none
  find_hit id (h ∷ hits) = if id_eq h.id id then some h else find_hit id hits

  -- `indexById(hits).get(id)`: a later hit with the id replaces an earlier one.
  unfoldable pub index_get : HitId → List (DrumEvent F) → Option (DrumEvent F)
  index_get id [] = none
  index_get id (h ∷ hits) = elim (index_get id hits) [
    | some o ↦ some o
    | none ↦ if id_eq h.id id then some h else none
  ]

  -- `hits.findIndex` and `splice(i, 1)`
  unfoldable pub remove_first : HitId → List (DrumEvent F) → List (DrumEvent F)
  remove_first id [] = []
  remove_first id (h ∷ hits) = if id_eq h.id id then hits else h ∷ remove_first id hits

  unfoldable pub next_manual_id : List (DrumEvent F) → ℕ → ℕ
  next_manual_id [] next = next
  next_manual_id (h ∷ hits) next = next_manual_id hits (next_past (manual_number h.id) next)

module _ {F : Type 0} ⦃d : Double F⦄ where
  open d use {of_ℕ, lt, same, finite}

  unfoldable pub is_sorted : List (DrumEvent F) → Bool
  is_sorted [] = true
  is_sorted (h ∷ []) = true
  is_sorted (h ∷ g ∷ hits) = not (lt g.t h.t) && is_sorted (g ∷ hits)

  -- Behind the hits that are earlier, and in front of those that are not.
  unfoldable pub insert_hit : DrumEvent F → List (DrumEvent F) → List (DrumEvent F)
  insert_hit h [] = h ∷ []
  insert_hit h (g ∷ hits) = if lt g.t h.t then g ∷ insert_hit h hits else h ∷ g ∷ hits

  -- `hits.sort((a, b) => a.t - b.t)`, a stable sort: equal times keep their order.
  unfoldable pub stable_sort : List (DrumEvent F) → List (DrumEvent F)
  unfolding insert_hit
  stable_sort [] = []
  stable_sort (h ∷ hits) = insert_hit h (stable_sort hits)

  unfoldable pub sort_hits : List (DrumEvent F) → List (DrumEvent F)
  sort_hits hits = if is_sorted hits then hits else stable_sort hits

  unfoldable pub clamp_t : F → F → F
  clamp_t t duration =
      if not (finite t)
      then zero_f
      else (if lt t zero_f
          then zero_f
          else (if lt zero_f duration && lt duration t then duration else t))

  unfoldable pub vel_min : F
  vel_min = vel_from_127 one_f

  unfoldable pub clamp_vel : F → F
  clamp_vel v = if not (finite v) then vel_min else max_f vel_min (min_f one_f v)

  -- The loop of `sameHits`: every hit of `a` stands in `b` with the same values.
  unfoldable pub all_same : List (DrumEvent F) → List (DrumEvent F) → Bool
  all_same [] b = true
  all_same (h ∷ a) b = elim (index_get h.id b) [
    | none ↦ false
    | some o ↦ same o.t h.t && art_eq o.art h.art && same o.vel h.vel && all_same a b
  ]

  unfoldable pub same_hits : List (DrumEvent F) → List (DrumEvent F) → Bool
  unfolding all_same
  same_hits a b = length a == length b && all_same a b
