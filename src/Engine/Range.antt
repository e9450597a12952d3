-- ===== src/Engine/Range.antt =====
-- web/src/player/engine/range-utils.ts: the answers to range requests. A header is the list of its
-- code units; numbers in it are far below 2 ^ 53.
pub mod Partial
mod Examples
use mathlib.Core.List.{reverse}
use rehearse_kit.Common.{
  Bool, List, Option, Result, [], err, if◌then◌else◌, leb, ltb, min, none, not, ok, some, ℕ, ◌&&◌,
  ◌*◌, ◌+◌, ◌-◌, ◌==◌, ◌>>=◌, ◌||◌, ◌∷◌,
}

pub data RangeError : Type 0 where
  missing unparseable no_total inconsistent full_body unexpected_status start_mismatch
        end_mismatch :
      RangeError

pub record ContentRange : Type 0 where
  pub start : ℕ
  pub end : ℕ
  pub total : ℕ

abbrev pub between : ℕ → ℕ → ℕ → Bool
between low high c = leb low c && leb c high

-- `\s` and what `trim` takes off.
unfoldable pub is_space : ℕ → Bool
is_space c =
    between 9 13 c
    || (c == 0x20)
    || (c == 0xa0)
    || (c == 0x1680)
    || between 0x2000 0x200a c
    || (c == 0x2028)
    || (c == 0x2029)
    || (c == 0x202f)
    || (c == 0x205f)
    || (c == 0x3000)
    || (c == 0xfeff)

unfoldable pub skip_spaces : List ℕ → List ℕ
skip_spaces [] = []
skip_spaces (c ∷ text) = if is_space c then skip_spaces text else c ∷ text

unfoldable pub trim : List ℕ → List ℕ
trim text = reverse (skip_spaces (reverse (skip_spaces text)))

-- A letter with the flag `i`.
abbrev pub lower : ℕ → ℕ
lower c = if between 0x41 0x5a c then c + 0x20 else c

unfoldable pub match_word : List ℕ → List ℕ → Option (List ℕ)
match_word [] text = some text
match_word (w ∷ word) [] = none
match_word (w ∷ word) (c ∷ text) = if lower c == w then match_word word text else none

unfoldable pub match_spaces : List ℕ → Option (List ℕ)
match_spaces [] = none
match_spaces (c ∷ text) = if is_space c then some (skip_spaces text) else none

abbrev pub is_digit : ℕ → Bool
is_digit c = between 0x30 0x39 c

-- `\d*` behind digits that read as `n`: their number, and the rest.
unfoldable pub more_digits : ℕ → List ℕ → ℕ × List ℕ
more_digits n [] = (n, [])
more_digits n (c ∷ text) =
    if is_digit c then more_digits (n * 10 + (c - 0x30)) text else (n, c ∷ text)

unfoldable pub match_number : List ℕ → Option (ℕ × List ℕ)
match_number [] = none
match_number (c ∷ text) = if is_digit c then some (more_digits (c - 0x30) text) else none

-- The total: `none` is an asterisk.
unfoldable pub match_total : List ℕ → Option (Option ℕ)
match_total [] = none
match_total (c ∷ text) =
    if c == 0x2a
    then (elim text [ [] ↦ some none | _ ↦ none ])
    else elim (match_number (c ∷ text)) [ some (n, []) ↦ some (some n) | _ ↦ none ]

-- `bytes`
abbrev pub bytes_word : List ℕ
bytes_word = 0x62 ∷ 0x79 ∷ 0x74 ∷ 0x65 ∷ 0x73 ∷ []

abbrev pub then_match {ℓ κ} : {A : Type ℓ} {B : Type κ} → Option A → (A → Option B) → Option B
then_match none f = none
then_match (some a) f = f a

-- `CONTENT_RANGE.exec`: the three groups.
unfoldable pub match_range : List ℕ → Option (ℕ × ℕ × Option ℕ)
match_range text = then_match (match_word bytes_word text) (λ a. then_match (match_spaces a) (λ b.
    then_match (match_number b) (λ start. then_match (match_word (0x2d ∷ []) start.1) (λ c.
      then_match (match_number c) (λ end.
        then_match (match_word (0x2f ∷ []) end.1)
          (λ d. then_match (match_total d) (λ total. some (start.0, end.0, total))))))))

unfoldable pub from_groups : Option (ℕ × ℕ × Option ℕ) → Result RangeError ContentRange
from_groups none = err unparseable
from_groups (some (start, end, none)) = err no_total
from_groups (some (start, end, some total)) =
    if ltb end start || leb total end
    then err inconsistent
    else ok (record { start = start; end = end; total = total })

unfoldable pub parse_content_range : Option (List ℕ) → Result RangeError ContentRange
parse_content_range none = err missing
parse_content_range (some []) = err missing
parse_content_range (some (c ∷ header)) = from_groups (match_range (trim (c ∷ header)))

unfoldable pub check_range : ℕ → ℕ → ContentRange → Result RangeError ContentRange
check_range start end cr =
    if not (cr.start == start)
    then err start_mismatch
    else (if not (cr.end == min end (cr.total - 1)) then err end_mismatch else ok cr)

unfoldable pub assert_partial : ℕ → Option (List ℕ) → ℕ → ℕ → Result RangeError ContentRange
assert_partial status content_range start end =
    if status == 200
    then err full_body
    else (if not (status == 206)
        then err unexpected_status
        else (parse_content_range content_range >>= check_range start end))
