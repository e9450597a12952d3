-- ===== src/Engine/Ring/Words.antt =====
-- Positions that wrap at 32 bits, against the counts that they stand for.
use rehearse_kit.Common.{
  subst, ℕ, arith, ltb, suc, zero, ◌%◌, ◌*◌, ◌+◌, ◌-◌, ◌<◌, ◌^◌, ◌≡◌, ◌≤◌, ap, sym, ◌∙◌,
}
use rehearse_kit.Engine.Ring.{pos, to_signed, sub_word, lacks_room}
use Prim.Native.Nat.{◌∣◌}
use native.Mathlib.Nat.{
  pow-suc, pow-le-pow_right, mul_assoc, mul-one, mod-mod_of_dvd, dvd-mul_right,
}

-- The difference of two positions is the number of frames between them.
pub sub_word_lem : (r d : ℕ) → d < 0x80000000 → sub_word ((r + d) % 2 ^ 32) (r % 2 ^ 32) ≡ pos d
unfolding sub_word to_signed
sub_word_lem r d h =
    let whole : ((r + d) % 2 ^ 32 + 2 ^ 32 - r % 2 ^ 32) % 2 ^ 32 ≡ d = difference in
    rw whole (ground arith)
  where
    difference : ((r + d) % 2 ^ 32 + 2 ^ 32 - r % 2 ^ 32) % 2 ^ 32 ≡ d
    difference = ground arith

pow_split : (k j : ℕ) → 2 ^ (k + j) ≡ 2 ^ k * 2 ^ j
pow_split k zero = ap (λ x. 2 ^ x) (omega arith) ∙ sym (mul-one (2 ^ k))
pow_split k (suc j) =
    let next : k + suc j ≡ suc (k + j) = omega arith in
    ap (λ x. 2 ^ x) next
    ∙ (pow-suc 2 (k + j)
        ∙ (ap (λ x. x * 2) (pow_split k j)
            ∙ (mul_assoc (2 ^ k) (2 ^ j) 2 ∙ ap (λ x. 2 ^ k * x) (sym (pow-suc 2 j)))))

-- A position wraps at a multiple of the ring's size, so its place in the ring is the count's.
pub word-mod : (k r : ℕ) → k ≤ 30 → r % 2 ^ 32 % 2 ^ k ≡ r % 2 ^ k
word-mod k r h =
    let whole : k + (32 - k) ≡ 32 = omega arith in
    let factors : 2 ^ k * 2 ^ (32 - k) ≡ 2 ^ 32 =
      sym (pow_split k (32 - k)) ∙ ap (λ x. 2 ^ x) whole in
    mod-mod_of_dvd (2 ^ k) r (subst (λ x. 2 ^ k ∣ x) factors (dvd-mul_right (2 ^ k) (2 ^ (32 - k))))

pub ring_small : (k : ℕ) → k ≤ 30 → 2 ^ k ≤ 0x40000000
ring_small k h = pow-le-pow_right (omega arith) h

-- The test of `write` is about the room that is left.
pub lacks_room_lem :
    (frames n w r d : ℕ)
    → w ≡ r + d
    → d < 0x80000000
    → lacks_room frames n (sub_word (w % 2 ^ 32) (r % 2 ^ 32)) ≡ ltb (r + n) (w + frames)
unfolding lacks_room
lacks_room_lem frames n w r d e h =
    let apart : sub_word (w % 2 ^ 32) (r % 2 ^ 32) ≡ pos d =
      ap (λ x. sub_word (x % 2 ^ 32) (r % 2 ^ 32)) e ∙ sub_word_lem r d h in
    rw apart (ground arith)
