-- ===== src/Drums/Search.antt =====
-- web/src/player/kit/scheduler.ts: the search for the hits between two song
-- times. A list of hits has far fewer than 2^31, so `>> 1` halves.
pub mod Range
use rehearse_kit.Common.{
  ℕ, zero, suc, Bool, List, Option, [], ◌∷◌, ◌+◌, ◌/◌, drop, false, get_elem?, if◌then◌else◌,
  length, ltb, none, some, true,
}
use rehearse_kit.Drums.Double.{Double}
use rehearse_kit.Drums.Types.{Articulation, DrumEvent}

module _ {F : Type 0} ⦃d : Double F⦄ where
  open d use {lt}

  -- The loop of `lowerBound` on fuel; `none` is out of fuel, or a read past the end.
  unfoldable pub lower_bound_in : ℕ → List (DrumEvent F) → F → ℕ → ℕ → Option ℕ
  lower_bound_in zero hits t lo hi = if ltb lo hi then none else some lo
  lower_bound_in (suc fuel) hits t lo hi = elim (ltb lo hi) [
    | false ↦ some lo
    | true ↦ elim (get_elem? hits ((lo + hi) / 2)) [
      | none ↦ none
      | some h ↦ elim (lt h.t t) [
        | true ↦ lower_bound_in fuel hits t ((lo + hi) / 2 + 1) hi
        | false ↦ lower_bound_in fuel hits t lo ((lo + hi) / 2)
      ]
    ]
  ]

  unfoldable pub lower_bound : List (DrumEvent F) → F → Option ℕ
  lower_bound hits t = lower_bound_in (length hits) hits t 0 (length hits)

  -- The loop of `queueRange` from a hit on: it stops at the first hit that is not before `t1`, and
  -- goes on behind the ones whose row is muted.
  unfoldable pub unmuted_before :
      F → (Articulation → Bool) → List (DrumEvent F) → List (DrumEvent F)
  unmuted_before t1 muted [] = []
  unmuted_before t1 muted (h ∷ hits) =
      let rest = unmuted_before t1 muted hits in
      if lt h.t t1 then (if muted h.art then rest else h ∷ rest) else []

  abbrev from_index :
      F → (Articulation → Bool) → List (DrumEvent F) → Option ℕ → Option (List (DrumEvent F))
  from_index t1 muted hits none = none
  from_index t1 muted hits (some i) = some (unmuted_before t1 muted (drop i hits))

  -- The hits that `queueRange` gets to, in order.
  unfoldable pub hits_between :
      List (DrumEvent F) → (Articulation → Bool) → F → F → Option (List (DrumEvent F))
  hits_between hits muted t0 t1 = from_index t1 muted hits (lower_bound hits t0)
