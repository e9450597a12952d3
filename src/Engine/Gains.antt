-- ===== src/Engine/Gains.antt =====
-- web/src/player/engine/engine.ts: mute, solo and gain of the class `StreamEngine`. Gains are of any
-- type, with the two ends of their range, the order's minimum and maximum, and the silence. The
-- sources of a stem are held by one entry for each array of the class.
pub mod Solo
mod Examples
use rehearse_kit.Common.{
  Bool, List, Option, [], false, if◌then◌else◌, map, none, not, or_else, some, suc, true, zero, ℕ,
  ◌&&◌, ◌||◌, ◌∷◌,
}

pub record Channel (G : Type 0) : Type 0 where
  pub muted : Bool
  pub forced_mute : Bool
  pub soloed : Bool
  pub gain_value : G
  -- the gain node: what its gain was last told to go to
  pub applied : G

module _ {G : Type 0} (clamp : G → G) (silence : G) where
  unfoldable pub any_solo : List (Channel G) → Bool
  any_solo [] = false
  any_solo (c ∷ cs) = c.soloed || any_solo cs

  -- `isSilenced`, given `anySolo`
  abbrev pub silenced_by_solo : Bool → Channel G → Bool
  silenced_by_solo any c = any && not c.soloed

  unfoldable pub effective_gain : Bool → Channel G → G
  effective_gain any c =
      if c.muted || c.forced_mute || silenced_by_solo any c then silence else c.gain_value

  abbrev pub apply : Bool → Channel G → Channel G
  apply any c = record c { applied = effective_gain any c }

  -- A change of one channel with `applyGain`. Outside the array nothing is applied.
  unfoldable pub change_at :
      Bool → (Channel G → Channel G) → List (Channel G) → ℕ → List (Channel G)
  change_at any f [] i = []
  change_at any f (c ∷ cs) zero = apply any (f c) ∷ cs
  change_at any f (c ∷ cs) (suc i) = c ∷ change_at any f cs i

  unfoldable pub set_gain : List (Channel G) → ℕ → G → List (Channel G)
  set_gain cs i value = change_at (any_solo cs) (λ c. record c { gain_value = clamp value }) cs i

  unfoldable pub set_mute : List (Channel G) → ℕ → Bool → List (Channel G)
  set_mute cs i muted = change_at (any_solo cs) (λ c. record c { muted = muted }) cs i

  -- `forcedMute[index]`
  unfoldable pub forced_at : List (Channel G) → ℕ → Option Bool
  forced_at [] i = none
  forced_at (c ∷ cs) zero = some c.forced_mute
  forced_at (c ∷ cs) (suc i) = forced_at cs i

  -- What `forcedMute[index] === on` tests, with the early return on an index outside the array.
  abbrev pub unchanged : Option Bool → Bool → Bool
  unchanged none on = true
  unchanged (some old) on = if on then old else not old

  unfoldable pub set_forced_mute : List (Channel G) → ℕ → Bool → List (Channel G)
  set_forced_mute cs i on =
      if unchanged (forced_at cs i) on
      then cs
      else change_at (any_solo cs) (λ c. record c { forced_mute = on }) cs i

  -- `applyAllGains`
  abbrev pub apply_all : List (Channel G) → List (Channel G)
  apply_all cs = map (apply (any_solo cs)) cs

  abbrev pub unsolo : Channel G → Channel G
  unsolo c = record c { soloed = false }

  -- The loop of `setSolo`.
  unfoldable pub mark_solo : List (Channel G) → ℕ → Bool → List (Channel G)
  mark_solo [] i next = []
  mark_solo (c ∷ cs) zero next = record c { soloed = next } ∷ map unsolo cs
  mark_solo (c ∷ cs) (suc i) next = unsolo c ∷ mark_solo cs i next

  unfoldable pub soloed_at : List (Channel G) → ℕ → Bool
  soloed_at [] i = false
  soloed_at (c ∷ cs) zero = c.soloed
  soloed_at (c ∷ cs) (suc i) = soloed_at cs i

  unfoldable pub set_solo : List (Channel G) → ℕ → Option Bool → List (Channel G)
  set_solo cs i on = apply_all (mark_solo cs i (or_else on (not (soloed_at cs i))))

  unfoldable pub clear_solo : List (Channel G) → List (Channel G)
  clear_solo cs = apply_all (map unsolo cs)

pub data GainEvent (G : Type 0) : Type 0 where
  gain_set : ℕ → G → GainEvent G
  mute_set forced_mute_set : ℕ → Bool → GainEvent G
  solo_set : ℕ → Option Bool → GainEvent G
  solo_cleared : GainEvent G

module _ {G : Type 0} (clamp : G → G) (silence : G) where
  unfoldable pub gain_step : List (Channel G) → GainEvent G → List (Channel G)
  gain_step cs (gain_set i value) = set_gain clamp silence cs i value
  gain_step cs (mute_set i muted) = set_mute clamp silence cs i muted
  gain_step cs (forced_mute_set i on) = set_forced_mute clamp silence cs i on
  gain_step cs (solo_set i on) = set_solo clamp silence cs i on
  gain_step cs GainEvent.solo_cleared = clear_solo clamp silence cs

  abbrev pub run_gains : List (Channel G) → List (GainEvent G) → List (Channel G)
  run_gains cs [] = cs
  run_gains cs (x ∷ xs) = run_gains (gain_step cs x) xs
