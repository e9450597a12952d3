-- ===== src/Drums/Types.antt =====
-- web/src/lib/drums/types.ts and taxonomy.ts: hits, articulations, velocities.
use rehearse_kit.Common.{ℕ, Bool, Option, arith, false, true, ◌&&◌, ◌==◌, ◌↔◌, ◌≡◌}
use rehearse_kit.Drums.Double.{Double, min_f, max_f, one_f}

pub data Articulation : Type 0 where
  kick snare stick hhc hho hhp tomh tomm tomf ride bell crash : Articulation

pub data GroupKey : Type 0 where
  kick snare hh toms ride crash : GroupKey

-- A hit's id is a string. `u zeros n` is 'u', that many more leading zeros, and `n` in decimal: the
-- strings that /^u(\d+)$/ matches. `other` is any string that it does not match; such strings are
-- only compared, so a number stands for each.
pub data HitId : Type 0 where
  u : ℕ → ℕ → HitId
  other : ℕ → HitId

pub data Source : Type 0 where
  from_model manual : Source

pub record DrumEvent (F : Type 0) : Type 0 where
  pub id : HitId
  pub art : Articulation
  pub t : F
  pub vel : F
  pub src : Source
  pub model : Option ℕ

unfoldable pub id_eq : HitId → HitId → Bool
id_eq (u z n) (u y m) = z == y && n == m
id_eq (other n) (other m) = n == m
id_eq _ _ = false

pub id_eq_iff : (a b : HitId) → (id_eq a b ≡ true) ↔ (a ≡ b)
unfolding id_eq
id_eq_iff (u z n) (u y m) = ground arith
id_eq_iff (other n) (other m) = ground arith
id_eq_iff (u z n) (other m) = ground arith
id_eq_iff (other n) (u z m) = ground arith

unfoldable pub art_index : Articulation → ℕ
art_index kick = 0
art_index snare = 1
art_index stick = 2
art_index hhc = 3
art_index hho = 4
art_index hhp = 5
art_index tomh = 6
art_index tomm = 7
art_index tomf = 8
art_index ride = 9
art_index bell = 10
art_index crash = 11

-- `===` on articulations
unfoldable pub art_eq : Articulation → Articulation → Bool
unfolding art_index
art_eq a b = art_index a == art_index b

module _ {F : Type 0} ⦃d : Double F⦄ where
  open d use {of_ℕ, mul, div, round}

  abbrev clamp_127 : F → F
  clamp_127 v = max_f one_f (min_f (of_ℕ 127) v)

  -- 0..1 to 1..127, and back.
  unfoldable pub vel_to_127 : F → F
  vel_to_127 vel = clamp_127 (round (mul vel (of_ℕ 127)))

  unfoldable pub vel_from_127 : F → F
  vel_from_127 v = div (clamp_127 (round v)) (of_ℕ 127)
