-- ===== src/Engine/Range/Examples.antt =====
-- An answer that has the first ten bytes of a hundred.
use rehearse_kit.Engine.Range.Partial.{assert_partial_lem}
use rehearse_kit.Engine.Range.{
  ContentRange, assert_partial, parse_content_range, from_groups, full_body, match_range,
  match_total, match_number, more_digits, match_spaces, match_word, trim, skip_spaces, is_space,
  check_range,
}
use rehearse_kit.Common.{List, [], err, min, ok, refl, some, ℕ, ◌-◌, ◌<◌, ◌∷◌, ◌≡◌, ◌≤◌}

-- ` Bytes  0-9/100 `
abbrev header : List ℕ
header =
    0x20 ∷ 0x42 ∷ 0x79 ∷ 0x74 ∷ 0x65 ∷ 0x73 ∷ 0x20 ∷ 0x20 ∷ 0x30 ∷ 0x2d ∷ 0x39 ∷ 0x2f ∷ 0x31 ∷ 0x30
    ∷ 0x30 ∷ 0x20 ∷ []

abbrev first_ten : ContentRange
first_ten = record { start = 0; end = 9; total = 100 }

accepted : assert_partial 206 (some header) 0 9 ≡ ok first_ten
unfolding assert_partial parse_content_range from_groups match_range match_total match_number
    more_digits match_spaces match_word trim skip_spaces is_space check_range
accepted = refl

ignored : assert_partial 200 (some header) 0 9 ≡ err full_body
unfolding assert_partial
ignored = refl

assert_partial_lem_example :
    (◌≡◌ {A = ℕ} 206 206)
    × (parse_content_range (some header) ≡ ok first_ten)
    × (first_ten.start ≡ 0)
    × (first_ten.end ≡ min 9 (first_ten.total - 1))
    × (0 ≤ first_ten.end)
    × (first_ten.end < first_ten.total)
assert_partial_lem_example = assert_partial_lem 206 (some header) 0 9 first_ten accepted
