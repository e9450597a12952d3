-- ===== src/Engine/Range/Partial.antt =====
-- What an accepted answer covers.
use rehearse_kit.Engine.Range.{
  from_groups, ContentRange, parse_content_range, assert_partial, match_range, check_range, trim,
  RangeError, full_body, unexpected_status,
}
use rehearse_kit.Common.{
  Option, arith, err_no_ok, none, ok, some, ℕ, ◌<◌, ◌≡◌, ◌≤◌, List, Result, [], err, min, refl, ◌-◌,
  ◌>>=◌, ◌∷◌, Bool-cases, ap, if◌then◌else◌, inl, inr, not, ok_inj, subst, ◌==◌, ◌∙◌,
}

from_groups-IsRange :
    (g : Option (ℕ × ℕ × Option ℕ)) {cr : ContentRange}
    → from_groups g ≡ ok cr
    → (cr.start ≤ cr.end) × (cr.end < cr.total)
unfolding from_groups
from_groups-IsRange none h = absurd (err_no_ok h)
from_groups-IsRange (some (start, end, none)) h = absurd (err_no_ok h)
from_groups-IsRange (some (start, end, some total)) h = ground arith

parse_content_range-IsRange :
    (header : Option (List ℕ)) {cr : ContentRange}
    → parse_content_range header ≡ ok cr
    → (cr.start ≤ cr.end) × (cr.end < cr.total)
unfolding parse_content_range
parse_content_range-IsRange none h = absurd (err_no_ok h)
parse_content_range-IsRange (some []) h = absurd (err_no_ok h)
parse_content_range-IsRange (some (c ∷ header)) h =
    from_groups-IsRange (match_range (trim (c ∷ header))) h

check_range_lem :
    (start end : ℕ) (r cr : ContentRange)
    → check_range start end r ≡ ok cr
    → (r ≡ cr) × (cr.start ≡ start) × (cr.end ≡ min end (cr.total - 1))
unfolding check_range
check_range_lem start end r cr h = elim (Bool-cases (r.start == start)) [
  | inr a ↦ absurd (err_no_ok (rw a at h))
  | inl a ↦ elim (Bool-cases (r.end == min end (r.total - 1))) [
    | inr b ↦ absurd (err_no_ok (rw (a, b) at h))
    | inl b ↦
        let same : r ≡ cr = ok_inj (rw (a, b) at h) in
        (
          same,
          subst (λ x. x.start ≡ start) same (ground arith),
          subst (λ x. x.end ≡ min end (x.total - 1)) same (ground arith),
        )
  ]
]

accepted-status :
    (status start end : ℕ) (o : Result RangeError ContentRange) {cr : ContentRange}
    → (if status == 200
        then err full_body
        else (if not (status == 206) then err unexpected_status else (o >>= check_range start end)))
      ≡ ok cr
    → (status ≡ 206) × ((o >>= check_range start end) ≡ ok cr)
accepted-status status start end o h = elim (Bool-cases (status == 200)) [
  | inl a ↦ absurd (err_no_ok (rw a at h))
  | inr a ↦ elim (Bool-cases (status == 206)) [
    | inr b ↦ absurd (err_no_ok (rw (a, b) at h))
    | inl b ↦ (ground arith, rw (a, b) at h)
  ]
]

-- An answer that assertPartial accepts has status 206 and a Content-Range that can be read,
-- starts where it was asked, ends where it was asked or at the end of the file, and covers at
-- least the first byte; every other answer is refused.
pub assert_partial_lem :
    (status : ℕ) (content_range : Option (List ℕ)) (start end : ℕ) (cr : ContentRange)
    → assert_partial status content_range start end ≡ ok cr
    → (status ≡ 206)
      × (parse_content_range content_range ≡ ok cr)
      × (cr.start ≡ start)
      × (cr.end ≡ min end (cr.total - 1))
      × (start ≤ cr.end)
      × (cr.end < cr.total)
unfolding assert_partial
assert_partial_lem status content_range start end cr h =
    let (s, k) = accepted-status status start end (parse_content_range content_range) h in
    go (parse_content_range content_range) refl s k
  where
    go :
        (o : Result RangeError ContentRange)
        → parse_content_range content_range ≡ o
        → status ≡ 206
        → (o >>= check_range start end) ≡ ok cr
        → (status ≡ 206)
          × (parse_content_range content_range ≡ ok cr)
          × (cr.start ≡ start)
          × (cr.end ≡ min end (cr.total - 1))
          × (start ≤ cr.end)
          × (cr.end < cr.total)
    go (err e) q s k = absurd (err_no_ok k)
    go (ok r) q s k =
        let (same, a, b) = check_range_lem start end r cr k in
        let q' : parse_content_range content_range ≡ ok cr = q ∙ ap ok same in
        let (c, d) = parse_content_range-IsRange content_range q' in (s, q', a, b, omega arith, d)
