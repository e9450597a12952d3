-- ===== src/Drums/Hits/Ids.antt =====
-- Sets of ids: membership, filtering, and lists of ids without repetition.
use rehearse_kit.Common.{
  All, Bool, Bool-cases, List, [], arith, false, inl, inr, not, refl, subst, sym, true, ◌&&◌, ◌++◌,
  ◌||◌, ◌∷◌, ◌≡◌, All-mono,
}
use rehearse_kit.Drums.Types.{HitId, id_eq, id_eq_iff}
use rehearse_kit.Drums.Hits.{keep, any_of, has, dedupe}

pub id_eq_refl : (a : HitId) → id_eq a a ≡ true
id_eq_refl a = (id_eq_iff a a).1 refl

-- Every id of `xs` is in `ys`.
abbrev pub Within : List HitId → List HitId → Type 0
Within ys xs = All (λ id. has ys id ≡ true) xs

abbrev pub Distinct : List HitId → Type 0
Distinct [] = Unit {0}
Distinct (x ∷ xs) = (has xs x ≡ false) × Distinct xs

pub has-append : (xs ys : List HitId) (id : HitId) → has (xs ++ ys) id ≡ (has xs id || has ys id)
unfolding has any_of
has-append [] ys id = refl
has-append (x ∷ xs) ys id = ground (arith, has-append xs ys id)

pub has-keep :
    (p : HitId → Bool) (xs : List HitId) (id : HitId) → has (keep p xs) id ≡ (p id && has xs id)
unfolding has any_of keep
has-keep p [] id = ground arith
has-keep p (x ∷ xs) id = ground (arith, has-keep p xs id, id_eq_iff id x)

pub id_eq_comm : (a b : HitId) → id_eq a b ≡ id_eq b a
id_eq_comm a b = ground (arith, id_eq_iff a b, id_eq_iff b a)

-- Each member of a filtered list passes what every member passed.
pub All-keep {ℓ} :
    {A : Type 0} (P : A → Type ℓ) (p : A → Bool) (xs : List A) → All P xs → All P (keep p xs)
unfolding keep
All-keep P p [] h = tt
All-keep P p (x ∷ xs) (q, h) = elim (Bool-cases (p x)) [
  | inl e ↦ rw e (q, All-keep P p xs h)
  | inr e ↦ rw e (All-keep P p xs h)
]

pub Within-keep : (ys xs : List HitId) → Within ys (keep (has ys) xs)
unfolding keep
Within-keep ys [] = tt
Within-keep ys (x ∷ xs) = ground (arith, Within-keep ys xs)

pub Distinct-keep : (p : HitId → Bool) (xs : List HitId) → Distinct xs → Distinct (keep p xs)
unfolding keep
Distinct-keep p [] h = tt
Distinct-keep p (x ∷ xs) h = ground (arith, Distinct-keep p xs h.1, has-keep p xs x)

pub has-none : (x : HitId) (ys : List HitId) → All (λ id. id_eq id x ≡ false) ys → has ys x ≡ false
unfolding has any_of
has-none x [] h = refl
has-none x (y ∷ ys) h = ground (arith, has-none x ys h.1, id_eq_comm x y)

pub Distinct-append :
    (xs ys : List HitId)
    → Distinct xs
    → Distinct ys
    → All (λ id. has xs id ≡ false) ys
    → Distinct (xs ++ ys)
unfolding has any_of
Distinct-append [] ys h k l = k
Distinct-append (x ∷ xs) ys h k l =
    let apart : has ys x ≡ false = has-none x ys (All-mono _ _ (λ id e. ground arith) ys l) in
    (
      rw (has-append, h.0, apart) refl,
      Distinct-append xs ys h.1 k (All-mono _ _ (λ id e. ground arith) ys l),
    )

pub Distinct-dedupe : (xs : List HitId) → Distinct (dedupe xs)
unfolding dedupe
Distinct-dedupe [] = tt
Distinct-dedupe (x ∷ xs) = ground (
  arith,
  Distinct-keep (λ y. not (id_eq x y)) (dedupe xs) (Distinct-dedupe xs),
  has-keep (λ y. not (id_eq x y)) (dedupe xs) x,
  id_eq_refl x,
)

-- What holds of every member holds of what is in the list.
pub All_has :
    (P : HitId → Type 0) (xs : List HitId) (id : HitId) → All P xs → has xs id ≡ true → P id
unfolding has any_of
All_has P [] id h k = cc
All_has P (x ∷ xs) id (p, h) k = elim (Bool-cases (id_eq id x)) [
  | inl e ↦ subst P (sym ((id_eq_iff id x).0 e)) p
  | inr e ↦ All_has P xs id h (rw e at k)
]

pub Within-mono :
    (ys zs xs : List HitId)
    → ((id : HitId) → has ys id ≡ true → has zs id ≡ true)
    → Within ys xs
    → Within zs xs
Within-mono ys zs xs f h = All-mono (λ id. has ys id ≡ true) (λ id. has zs id ≡ true) f xs h

pub Within-refl : (xs : List HitId) → Within xs xs
unfolding has any_of
Within-refl [] = tt
Within-refl (x ∷ xs) = (
  ground (arith, id_eq_refl x),
  Within-mono xs (x ∷ xs) xs (λ id e. ground arith) (Within-refl xs),
)

pub Within-append_right : (xs ys : List HitId) → Within (xs ++ ys) ys
Within-append_right xs ys =
    Within-mono ys (xs ++ ys) ys (λ id e. ground (arith, has-append xs ys id)) (Within-refl ys)

pub All-keep_with {ℓ κ} :
    {A : Type 0} (P : A → Type ℓ) (Q : A → Type κ) (p : A → Bool)
    → ((a : A) → p a ≡ true → P a → Q a)
    → (xs : List A) → All P xs
    → All Q (keep p xs)
unfolding keep
All-keep_with P Q p f [] h = tt
All-keep_with P Q p f (x ∷ xs) (q, h) = elim (Bool-cases (p x)) [
  | inl e ↦ rw e (f x e q, All-keep_with P Q p f xs h)
  | inr e ↦ rw e (All-keep_with P Q p f xs h)
]
