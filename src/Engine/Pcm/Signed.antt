-- ===== src/Engine/Pcm/Signed.antt =====
-- Sign extension.
use native.Mathlib.Nat.{mod-eq_of_lt}
use rehearse_kit.Engine.Wav.{floor_div}
use rehearse_kit.Engine.Ring.{pos, negsuc}
use rehearse_kit.Engine.Pcm.{extend_24, signed}
use rehearse_kit.Common.{
  ℕ, ◌<◌, ◌^◌, ◌≡◌, Bool-cases, ap, arith, false, inl, inr, ltb, true, ◌%◌, ◌*◌,
}

-- For every pattern below 2^24, the shift by 8 to the left and back on 32 bits with a sign is
-- the two's complement of 24 bits.
pub extend_24_lem : (n : ℕ) → n < 2 ^ 24 → extend_24 n ≡ signed 24 n
unfolding extend_24 signed floor_div
extend_24_lem n h =
    let whole : n * 256 % 4294967296 ≡ n * 256 = mod-eq_of_lt (omega arith) in
    elim (Bool-cases (ltb n 8388608)) [
      | inl e ↦
          let low : ltb (n * 256) 2147483648 ≡ true = ground arith in
          rw (whole, e, low) (ap pos (omega arith))
      | inr e ↦
          let high : ltb (n * 256) 2147483648 ≡ false = ground arith in
          rw (whole, e, high) (ap negsuc (omega arith))
    ]
