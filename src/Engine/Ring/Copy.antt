-- ===== src/Engine/Ring/Copy.antt =====
-- What a copy into a ring changes.
use rehearse_kit.Common.{
  ℕ, List, length, get_elem?, set, take, drop, [], ap, arith, length-set, refl, some, suc, zero,
  ◌+◌, ◌<◌, ◌∙◌, ◌∷◌, ◌≡◌, ◌≢◌, ◌≤◌, ◌⊎◌,
}
use rehearse_kit.Engine.Ring.{copy_at}

module _ {A : Type 0} where
  get_elem?-set_self :
      (xs : List A) (i : ℕ) (v : A) → i < length xs → get_elem? (set xs i v) i ≡ some v
  get_elem?-set_self [] i v h = absurd (omega arith)
  get_elem?-set_self (x ∷ xs) zero v h = refl
  get_elem?-set_self (x ∷ xs) (suc i) v h = get_elem?-set_self xs i v (omega arith)

  get_elem?-set_ne :
      (xs : List A) (i j : ℕ) (v : A) → i ≢ j → get_elem? (set xs i v) j ≡ get_elem? xs j
  get_elem?-set_ne [] i j v h = refl
  get_elem?-set_ne (x ∷ xs) zero zero v h = absurd (h refl)
  get_elem?-set_ne (x ∷ xs) zero (suc j) v h = refl
  get_elem?-set_ne (x ∷ xs) (suc i) zero v h = refl
  get_elem?-set_ne (x ∷ xs) (suc i) (suc j) v h = get_elem?-set_ne xs i j v (λ e. h (ap suc e))

  pub get_elem?-take :
      (n : ℕ) (xs : List A) (i : ℕ) → i < n → get_elem? (take n xs) i ≡ get_elem? xs i
  get_elem?-take zero xs i h = absurd (omega arith)
  get_elem?-take (suc n) [] i h = refl
  get_elem?-take (suc n) (x ∷ xs) zero h = refl
  get_elem?-take (suc n) (x ∷ xs) (suc i) h = get_elem?-take n xs i (omega arith)

  pub get_elem?-drop :
      (n : ℕ) (xs : List A) (i : ℕ) → get_elem? (drop n xs) i ≡ get_elem? xs (n + i)
  get_elem?-drop zero xs i = ap (get_elem? xs) (omega arith)
  get_elem?-drop (suc n) [] i = refl
  get_elem?-drop (suc n) (x ∷ xs) i =
      let next : suc (n + i) ≡ suc n + i = omega arith in
      get_elem?-drop n xs i ∙ ap (get_elem? (x ∷ xs)) next

  pub length-copy_at : (p : ℕ) (src ring : List A) → length (copy_at p src ring) ≡ length ring
  unfolding copy_at
  length-copy_at p [] ring = refl
  length-copy_at p (x ∷ src) ring = length-copy_at (p + 1) src (set ring p x) ∙ length-set ring p x

  -- Outside the copied places nothing changes.
  pub copy_at_outside :
      (p : ℕ) (src ring : List A) (i : ℕ)
      → (i < p) ⊎ (p + length src ≤ i)
      → get_elem? (copy_at p src ring) i ≡ get_elem? ring i
  unfolding copy_at
  copy_at_outside p [] ring i h = refl
  copy_at_outside p (x ∷ src) ring i h =
      copy_at_outside (p + 1) src (set ring p x) i (ground arith)
      ∙ get_elem?-set_ne ring p i x (ground arith)

  -- The copied places hold what was copied.
  pub copy_at_inside :
      (p : ℕ) (src ring : List A) (j : ℕ)
      → j < length src
      → p + length src ≤ length ring
      → get_elem? (copy_at p src ring) (p + j) ≡ get_elem? src j
  unfolding copy_at
  copy_at_inside p [] ring j h k = absurd (omega arith)
  copy_at_inside p (x ∷ src) ring zero h k =
      let same : p + 0 ≡ p = omega arith in
      ap (get_elem? (copy_at (p + 1) src (set ring p x))) same
      ∙ (copy_at_outside (p + 1) src (set ring p x) p (ground arith)
          ∙ get_elem?-set_self ring p x (omega arith))
  copy_at_inside p (x ∷ src) ring (suc j) h k =
      ap (get_elem? (copy_at (p + 1) src (set ring p x))) (omega arith)
      ∙ copy_at_inside (p + 1) src (set ring p x) j (omega arith)
          (omega (arith, length-set ring p x))
