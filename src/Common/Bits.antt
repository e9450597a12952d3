-- ===== src/Common/Bits.antt =====
-- `x & mask` for a mask of low bits.
use Prim.Native.Nat.{
  ℕ, zero, suc, ◌+◌, ◌-◌, ◌*◌, ◌/◌, ◌%◌, ◌^◌, ◌≤◌, ◌<◌, min, bit_and, digits, bit_and-bitwise,
}
use mathlib.Core.Path.{◌≡◌, refl, sym, ap, ◌∙◌}
use native.Mathlib.Nat.{mod-eq_of_lt, mod-lt, div-add-mod, add-mul-mod_self_left}
use native.Mathlib.Nat.{mod-add-mod, add-mod_right, mul_right_comm}
use mathlib.Core.Logic.{◌⊎◌, inl, inr}
use rehearse_kit.Common.Tests.{ltb, Bool-cases, ltb→lt, ltb→le}
use native.Mathlib.Omega.{arith}

pub two_pow_pos : (k : ℕ) → 0 < 2 ^ k
two_pow_pos zero = omega arith
two_pow_pos (suc k) = omega (arith, two_pow_pos k)

-- The lowest digit apart.
mod-double : (a p : ℕ) → 0 < p → a % (p * 2) ≡ a / 2 % p * 2 + a % 2
mod-double a p h =
    let q = a / 2 / p in
    let r = a / 2 % p * 2 + a % 2 in
    let bound : a / 2 % p < p = mod-lt (a / 2) h in
    let product : p * 2 * q ≡ p * q * 2 = mul_right_comm p 2 q in
    let split : r + p * 2 * q ≡ a = omega (arith, product, div-add-mod (a / 2) p) in
    ap (λ x. x % (p * 2)) (sym split)
    ∙ (add-mul-mod_self_left r (p * 2) q ∙ mod-eq_of_lt (omega arith))

low_digits : (n a k : ℕ) → a ≤ n → digits (λ b. zero) min n a (2 ^ k - 1) ≡ a % 2 ^ k
low_digits n zero k h = go n k
  where
    go : (n k : ℕ) → digits (λ b. zero) min n zero (2 ^ k - 1) ≡ zero % 2 ^ k
    go zero k = sym (mod-eq_of_lt (two_pow_pos k))
    go (suc n) k = sym (mod-eq_of_lt (two_pow_pos k))
low_digits zero (suc a) k h = absurd (omega arith)
low_digits (suc n) (suc a) zero h = omega (arith, low_digits n (suc a / 2) zero (omega arith))
low_digits (suc n) (suc a) (suc k) h =
    let half : (2 ^ suc k - 1) / 2 ≡ 2 ^ k - 1 = omega (arith, two_pow_pos k) in
    let odd : (2 ^ suc k - 1) % 2 ≡ 1 = omega (arith, two_pow_pos k) in
    let power : 2 ^ suc k ≡ 2 ^ k * 2 = omega arith in
    let rest : suc a % 2 ^ suc k ≡ suc a / 2 % 2 ^ k * 2 + suc a % 2 =
      ap (λ x. suc a % x) power ∙ mod-double (suc a) (2 ^ k) (two_pow_pos k) in
    let step : digits (λ b. zero) min (suc n) (suc a) (2 ^ suc k - 1)
        ≡ digits (λ b. zero) min n (suc a / 2) ((2 ^ suc k - 1) / 2) * 2
          + min (suc a % 2) ((2 ^ suc k - 1) % 2) =
      refl in
    step ∙ rw (half, odd) (omega (arith, rest, low_digits n (suc a / 2) k (omega arith)))

-- `x & (2 ^ k - 1)` is the remainder.
pub bit_and_low : (a k : ℕ) → bit_and a (2 ^ k - 1) ≡ a % 2 ^ k
bit_and_low a k = bit_and-bitwise a (2 ^ k - 1) ∙ low_digits a a k (omega arith)

-- The count is one step of at most a full turn ahead.
pub add-mod_cases :
    (a d n : ℕ)
    → 0 < n
    → d ≤ n
    → ((a % n + d < n) × ((a + d) % n ≡ a % n + d))
      ⊎ ((n ≤ a % n + d) × ((a + d) % n ≡ a % n + d - n))
add-mod_cases a d n h k = elim (Bool-cases (ltb (a % n + d) n)) [
  | inl e ↦
      let stays = ltb→lt (a % n + d) n e in
      inl (stays, sym (mod-add-mod a n d) ∙ mod-eq_of_lt stays)
  | inr e ↦
      let wraps = ltb→le (a % n + d) n e in
      let back : a % n + d - n + n ≡ a % n + d = omega arith in
      let small : a % n + d - n < n = omega (arith, mod-lt a h) in
      inr (
        wraps,
        sym (mod-add-mod a n d)
            ∙ (ap (λ x. x % n) (sym back) ∙ (add-mod_right (a % n + d - n) n ∙ mod-eq_of_lt small)),
      )
]
