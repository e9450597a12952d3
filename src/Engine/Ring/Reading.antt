-- ===== src/Engine/Ring/Reading.antt =====
-- What the reader of a ring gets.
use rehearse_kit.Common.{ℕ, List, [], arith, suc, zero, ◌%◌, ◌+◌, ◌-◌, ◌<◌, ◌^◌, ◌∷◌, ◌≡◌, ◌≤◌}
use rehearse_kit.Engine.Ring.{read_from}
use rehearse_kit.Engine.Ring.Stream.{IsStream}
use rehearse_kit.Common.{bit_and_low, get_elem?, length, take, drop, map, some, ap, sym, ◌∙◌, refl}
use Prim.Native.Nat.{bit_and}
use native.Mathlib.Nat.{mod-add-mod}

module _ {A : Type 0} where
  next_of :
      (xs : List A) (r : ℕ)
      → r < length xs
      → (x : A) × (get_elem? xs r ≡ some x) × (drop r xs ≡ x ∷ drop (r + 1) xs)
  next_of [] r h = absurd (omega arith)
  next_of (y ∷ xs) zero h = (y, refl, refl)
  next_of (y ∷ xs) (suc r) h =
      let (x, found, left) = next_of xs r (omega arith) in
      let same : suc r + 1 ≡ suc (r + 1) = omega arith in
      (x, found, left ∙ ap (λ i. x ∷ drop i (y ∷ xs)) (sym same))

  -- Reading frees their places.
  pub consume-IsStream :
      (n r need : ℕ) (ring xs : List A)
      → IsStream n r ring xs
      → r + need ≤ length xs
      → IsStream n (r + need) ring xs
  consume-IsStream n r need ring xs v h = record {
    size = v.size;
    read = h;
    fits = omega (arith, v);
    holds = λ i k l. v.holds i (omega arith) l;
  }

  -- From a ring that holds its stream, with a read position that has the count's place in the
  -- ring, the reader gets the next frames of the stream in order, as many as are written.
  pub read_from_lem :
      (k r word_r need : ℕ) (ring xs : List A)
      → IsStream (2 ^ k) r ring xs
      → word_r % 2 ^ k ≡ r % 2 ^ k
      → r + need ≤ length xs
      → read_from (2 ^ k - 1) word_r need ring ≡ map some (take need (drop r xs))
  unfolding read_from
  read_from_lem k r w zero ring xs v e h = refl
  read_from_lem k r w (suc need) ring xs v e h =
      let (x, found, left) = next_of xs r (omega arith) in
      let here : bit_and w (2 ^ k - 1) ≡ r % 2 ^ k = bit_and_low w k ∙ e in
      let value : get_elem? ring (bit_and w (2 ^ k - 1)) ≡ some x =
        ap (get_elem? ring) here ∙ (v.holds r (omega arith) (omega arith) ∙ found) in
      let next : (w + 1) % 2 ^ k ≡ (r + 1) % 2 ^ k =
        sym (mod-add-mod w (2 ^ k) 1) ∙ (ap (λ a. (a + 1) % 2 ^ k) e ∙ mod-add-mod r (2 ^ k) 1) in
      let rest : read_from (2 ^ k - 1) (w + 1) need ring ≡ map some (take need (drop (r + 1) xs)) =
        read_from_lem k (r + 1) (w + 1) need ring xs
          (consume-IsStream (2 ^ k) r 1 ring xs v (omega arith)) next (omega arith) in
      rw (value, rest, left) refl
