-- ===== src/Mixer/Examples.antt =====
-- A mixer at numbers of a fixed point, a thousandth each.
use rehearse_kit.Common.{◌⊎◌, false, none}
use rehearse_kit.Common.{
  ℕ, none, some, true, false, refl, [], ◌∷◌, ◌+◌, ◌-◌, ◌*◌, ◌/◌, ltb, ◌==◌, arith, ◌≡◌,
}
use rehearse_kit.Drums.Double.{Double, IsOrdered}
use rehearse_kit.Mixer.{MixAction, RawMix, MixLoop, mix_reduce, sanitize, take_loop}
use rehearse_kit.Mixer.Validity.{IsMix}
use rehearse_kit.Mixer.Loading.{sanitize-IsMix, take_loop_lem, IsTaken}
use rehearse_kit.Mixer.Reducer.{mix_reduce-IsMix}

abbrev milli : Double ℕ
milli = record {
  of_ℕ = λ n. n * 1000;
  half = 500;
  add = λ a b. a + b;
  sub = λ a b. a - b;
  mul = λ a b. a * b / 1000;
  div = λ a b. a * 1000 / b;
  round = λ a. (a + 500) / 1000 * 1000;
  lt = ltb;
  same = λ a b. a == b;
  finite = λ a. true;
}

milli-IsOrdered : IsOrdered milli
milli-IsOrdered = record {
  finite_zero = refl;
  irrefl = λ a. ground arith;
  asym = λ a b h. ground arith;
  trans = λ a b c f h k. ground arith;
}

-- What a broken server might send: a position of 7, a solo of no stem, and a loop.
abbrev stored : RawMix ℕ
stored = record {
  stems = record { name = 2; position = some 7000; muted = true } ∷ [];
  solo = some 9;
  loop = some (record { start = 500; end = 2500 });
  loop_enabled = true;
  selected = some 2;
  master_position = none;
}

sanitize-IsMix_example : IsMix ⦃d = milli⦄ (sanitize ⦃d = milli⦄ (some stored) (1 ∷ 2 ∷ []) 800)
sanitize-IsMix_example =
    sanitize-IsMix ⦃d = milli⦄ milli-IsOrdered refl (some stored) (1 ∷ 2 ∷ []) 800 (refl, refl)

mix_reduce-IsMix_example : IsMix ⦃d = milli⦄ (
    mix_reduce ⦃d = milli⦄
      (sanitize ⦃d = milli⦄ (some stored) (1 ∷ 2 ∷ []) 800)
      (MixAction.gain 2 4000))
mix_reduce-IsMix_example =
    mix_reduce-IsMix ⦃d = milli⦄ milli-IsOrdered refl
      (sanitize ⦃d = milli⦄ (some stored) (1 ∷ 2 ∷ []) 800) sanitize-IsMix_example
      (MixAction.gain 2 4000) tt

abbrev intro : MixLoop ℕ
intro = record { start = 500; end = 2500 }

take_loop_lem_example :
    ((ltb 500 2500 ≡ false) × (take_loop ⦃d = milli⦄ (some intro) ≡ none))
    ⊎ ((ltb 500 2500 ≡ true)
        × ((l' : MixLoop ℕ) × (take_loop ⦃d = milli⦄ (some intro) ≡ some l')
            × IsTaken ⦃d = milli⦄ milli-IsOrdered refl intro l'))
take_loop_lem_example = take_loop_lem ⦃d = milli⦄ milli-IsOrdered refl intro
