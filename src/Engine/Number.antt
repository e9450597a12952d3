-- ===== src/Engine/Number.antt =====
-- JavaScript numbers, as far as the engine reads them: not a number, an infinity, or a finite value.
-- A finite double is a whole number over a power of two, so `Math.floor` is exact here.
use rehearse_kit.Common.{ℕ, ◌/◌, ◌^◌, Option, none, some, min}

pub data Number : Type 0 where
  nan infinity neg_infinity : Number
  -- n / 2 ^ k
  nonneg : ℕ → ℕ → Number
  -- - (n + 1) / 2 ^ k
  negative : ℕ → ℕ → Number

-- `Math.max(0, Math.min(Math.floor(x), total))` at a natural number `total`; `none` is NaN.
unfoldable pub clamp_floor : Number → ℕ → Option ℕ
clamp_floor nan total = none
clamp_floor infinity total = some total
clamp_floor neg_infinity total = some 0
clamp_floor (nonneg n k) total = some (min (n / 2 ^ k) total)
clamp_floor (negative n k) total = some 0
