-- ===== src/Drums/Double.antt =====
-- The JavaScript numbers of the drum editor: times in seconds and velocities. Their arithmetic is an
-- instance argument; the laws are those of IEEE 754 that the proofs rely on.
use rehearse_kit.Common.{ℕ, Bool, false, if◌then◌else◌, not, true, ◌&&◌, ◌≡◌}

pub record Double (F : Type 0) : Type 0 where
  pub of_ℕ : ℕ → F
  pub half : F
  pub add : F → F → F
  pub sub : F → F → F
  pub mul : F → F → F
  pub div : F → F → F
  pub round : F → F
  -- `<`, `===` and `Number.isFinite`
  pub lt : F → F → Bool
  pub same : F → F → Bool
  pub finite : F → Bool

module _ {F : Type 0} ⦃d : Double F⦄ where
  open d use {of_ℕ, lt, same}

  abbrev pub zero_f : F
  zero_f = of_ℕ 0

  abbrev pub one_f : F
  one_f = of_ℕ 1

  -- `Math.min` and `Math.max` on arguments that are no NaN.
  abbrev pub min_f : F → F → F
  min_f a b = if lt b a then b else a

  abbrev pub max_f : F → F → F
  max_f a b = if lt a b then b else a

  -- The same on any arguments: NaN if there is one.
  abbrev pub min_js : F → F → F
  min_js a b = if not (same a a) then a else (if not (same b b) then b else min_f a b)

  abbrev pub max_js : F → F → F
  max_js a b = if not (same a a) then a else (if not (same b b) then b else max_f a b)

  -- `!x` fails: neither a zero nor NaN.
  abbrev pub truthy : F → Bool
  truthy x = same x x && not (same x zero_f)

-- What the proofs use of `<`, on numbers that are finite.
pub record IsOrdered {F : Type 0} (d : Double F) : Type 0 where
  pub finite_zero : d.finite (d.of_ℕ 0) ≡ true
  pub irrefl : (a : F) → d.lt a a ≡ false
  pub asym : (a b : F) → d.lt a b ≡ true → d.lt b a ≡ false
  -- "not less" is transitive past a finite number
  pub trans :
      (a b c : F) → d.finite b ≡ true → d.lt b a ≡ false → d.lt c b ≡ false → d.lt c a ≡ false

-- What they use of the arithmetic of velocities, v / 127 for a whole v.
pub record IsVelocity {F : Type 0} (d : Double F) : Type 0 where
  pub round_one : d.round (d.of_ℕ 1) ≡ d.of_ℕ 1
  pub div_self : d.div (d.of_ℕ 127) (d.of_ℕ 127) ≡ d.of_ℕ 1
  pub one_le : d.lt (d.of_ℕ 127) (d.of_ℕ 1) ≡ false
  pub div_mono :
      (a b : F) → d.lt b a ≡ false → d.lt (d.div b (d.of_ℕ 127)) (d.div a (d.of_ℕ 127)) ≡ false
