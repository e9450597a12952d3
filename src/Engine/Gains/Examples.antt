-- ===== src/Engine/Gains/Examples.antt =====
-- Three stems whose gains are at most 2.
use rehearse_kit.Engine.Gains.Solo.{solos, IsMixed, IsHeard, run_gains-IsMixed}
use rehearse_kit.Common.{
  List, [], arith, false, map, none, refl, some, true, ℕ, ◌∷◌, ◌≡◌, if◌then◌else◌, ltb,
}
use rehearse_kit.Engine.Gains.{
  GainEvent, gain_set, mute_set, forced_mute_set, solo_set, Channel, gain_step, run_gains, set_gain,
  any_solo, set_solo, effective_gain, change_at, mark_solo, soloed_at,
}

abbrev stem : Channel ℕ
stem = record { muted = false; forced_mute = false; soloed = false; gain_value = 1; applied = 1 }

abbrev stems : List (Channel ℕ)
stems = stem ∷ stem ∷ stem ∷ []

abbrev calls : List (GainEvent ℕ)
calls =
    gain_set 1 5
    ∷ solo_set 0 none
    ∷ mute_set 1 true
    ∷ solo_set 2 (some true)
    ∷ forced_mute_set 2 true
    ∷ []

stem-IsHeard : IsHeard (λ x. if ltb 2 x then 2 else x) 0 0 stem
stem-IsHeard = record {
  when_muted = λ m. absurd cc;
  when_forced = λ m. absurd cc;
  when_silenced = λ l m. absurd (omega (arith, l));
  else_own = λ m f k. refl;
}

stems-IsMixed : IsMixed (λ x. if ltb 2 x then 2 else x) 0 stems
unfolding solos
stems-IsMixed = record {
  exclusive = omega arith;
  heard = (stem-IsHeard, (stem-IsHeard, (stem-IsHeard, tt)));
}

run_gains-IsMixed_example :
    IsMixed
      (λ x. if ltb 2 x then 2 else x)
      0
      (run_gains (λ x. if ltb 2 x then 2 else x) 0 stems calls)
run_gains-IsMixed_example =
    run_gains-IsMixed (λ x. if ltb 2 x then 2 else x) 0 calls stems stems-IsMixed

abbrev nodes : List (Channel ℕ) → List ℕ
nodes cs = map (λ c. c.applied) cs

after_calls :
    nodes (run_gains (λ x. if ltb 2 x then 2 else x) 0 stems (gain_set 1 5 ∷ solo_set 1 none ∷ []))
    ≡ 0 ∷ 2 ∷ 0 ∷ []
unfolding gain_step set_gain set_solo change_at mark_solo any_solo soloed_at effective_gain
after_calls = refl
