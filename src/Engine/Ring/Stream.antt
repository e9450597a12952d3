-- ===== src/Engine/Ring/Stream.antt =====
-- What the ring of a channel holds: the frames of the stream that are written and not yet read.
use rehearse_kit.Common.{
  ℕ, List, length, get_elem?, take, drop, add-mod_cases, [], ap, arith, length-drop, length-take,
  min, refl, suc, zero, ◌%◌, ◌++◌, ◌+◌, ◌-◌, ◌<◌, ◌∙◌, ◌∷◌, ◌≡◌, ◌≤◌, ◌⊎◌, ltb→lt, subst,
}
use rehearse_kit.Engine.Ring.{copy_at, write_channel}
use rehearse_kit.Engine.Ring.Copy.{
  length-copy_at, copy_at_outside, copy_at_inside, get_elem?-take, get_elem?-drop,
}
use rehearse_kit.Common.{
  Bool-cases, ltb, ltb→le, length-append, length-take, length-drop, inl, inr, ◌⊎◌, ap, sym, ◌∙◌,
  ◌++◌, min, refl, [],
}
use native.Mathlib.Nat.{mod-lt}

module _ {A : Type 0} where
  -- `xs` is all that was ever written to the channel, and `r` of it has been read.
  pub record IsStream (n r : ℕ) (ring xs : List A) : Type 0 where
    pub size : length ring ≡ n
    pub read : r ≤ length xs
    pub fits : length xs ≤ r + n
    pub holds : (i : ℕ) → r ≤ i → i < length xs → get_elem? ring (i % n) ≡ get_elem? xs i

  get_elem?-append_left :
      (xs ys : List A) (i : ℕ) → i < length xs → get_elem? (xs ++ ys) i ≡ get_elem? xs i
  get_elem?-append_left [] ys i h = absurd (omega arith)
  get_elem?-append_left (x ∷ xs) ys zero h = refl
  get_elem?-append_left (x ∷ xs) ys (suc i) h = get_elem?-append_left xs ys i (omega arith)

  get_elem?-append_right :
      (xs ys : List A) (j : ℕ) → get_elem? (xs ++ ys) (length xs + j) ≡ get_elem? ys j
  get_elem?-append_right [] ys j = ap (get_elem? ys) (omega arith)
  get_elem?-append_right (x ∷ xs) ys j =
      let next : length (x ∷ xs) + j ≡ suc (length xs + j) = omega arith in
      ap (get_elem? (x ∷ (xs ++ ys))) next ∙ get_elem?-append_right xs ys j

  module _ (n start frames : ℕ) (src ring : List A) (sized : length ring ≡ n) (inside : start < n)
      (few : frames ≤ n) (enough : frames ≤ length src) where
    abbrev first : ℕ
    first = min frames (n - start)

    abbrev head_part : List A
    head_part = take first src

    abbrev tail_part : List A
    tail_part = drop first (take frames src)

    length-head : length head_part ≡ first
    length-head = omega (arith, length-take first src)

    length-tail : length tail_part ≡ frames - first
    length-tail = omega (arith, length-take frames src, length-drop first (take frames src))

    no_length : (l : List A) → length l ≡ 0 → l ≡ []
    no_length [] e = refl
    no_length (x ∷ l) e = absurd (omega arith)

    abbrev ring_1 : List A
    ring_1 = copy_at start head_part ring

    -- A copy of no frames is none.
    two_copies : write_channel n start frames src ring ≡ copy_at 0 tail_part ring_1
    unfolding write_channel
    two_copies = elim (Bool-cases (ltb first frames)) [
      | inl e ↦ rw e refl
      | inr e ↦
          let none_left : tail_part ≡ [] =
            no_length tail_part (omega (arith, length-tail, ltb→le first frames e)) in
          rw (e, none_left) (unfold copy_at in refl)
    ]

    length-ring_1 : length ring_1 ≡ n
    length-ring_1 = length-copy_at start head_part ring ∙ sized

    pub length-write_channel : length (write_channel n start frames src ring) ≡ n
    length-write_channel =
        ap length two_copies ∙ (length-copy_at 0 tail_part ring_1 ∙ length-ring_1)

    -- A place that no written frame goes to.
    pub write_channel_outside :
        (i : ℕ)
        → (i < start) ⊎ (start + frames ≤ i)
        → start + frames ≤ i + n
        → get_elem? (write_channel n start frames src ring) i ≡ get_elem? ring i
    write_channel_outside i h k =
        ap (λ l. get_elem? l i) two_copies
        ∙ (copy_at_outside 0 tail_part ring_1 i (inr (omega (arith, length-tail)))
            ∙ copy_at_outside start head_part ring i (apart h))
      where
        apart : (i < start) ⊎ (start + frames ≤ i) → (i < start) ⊎ (start + length head_part ≤ i)
        apart (inl l) = inl l
        apart (inr l) = inr (omega (arith, length-head))

    -- Frame `j` written, at its place.
    pub write_channel_inside :
        (j i : ℕ)
        → j < frames
        → (i ≡ start + j) ⊎ (i + n ≡ start + j)
        → i < n
        → get_elem? (write_channel n start frames src ring) i ≡ get_elem? src j
    write_channel_inside j i h k l = ap (λ l. get_elem? l i) two_copies ∙ go k
      where
        go :
            (i ≡ start + j) ⊎ (i + n ≡ start + j)
            → get_elem? (copy_at 0 tail_part ring_1) i ≡ get_elem? src j
        go (inl e) =
            copy_at_outside 0 tail_part ring_1 i (inr (omega (arith, length-tail)))
            ∙ (ap (get_elem? ring_1) e
                ∙ (copy_at_inside start head_part ring j (omega (arith, length-head))
                      (omega (arith, length-head))
                    ∙ get_elem?-take first src j (omega arith)))
        go (inr e) =
            let place : 0 + i ≡ i = omega arith in
            let index : first + i ≡ j = omega arith in
            ap (get_elem? (copy_at 0 tail_part ring_1)) (sym place)
            ∙ (copy_at_inside 0 tail_part ring_1 i (omega (arith, length-tail))
                  (omega (arith, length-tail, length-ring_1))
                ∙ (get_elem?-drop first (take frames src) i
                    ∙ (get_elem?-take frames src (first + i) (omega arith)
                        ∙ ap (get_elem? src) index)))

  module _ (n r frames : ℕ) (src ring xs : List A) (p : 0 < n) (v : IsStream n r ring xs)
      (enough : frames ≤ length src) (room : length xs + frames ≤ r + n) where
    abbrev start : ℕ
    start = length xs % n

    abbrev written : List A
    written = write_channel n start frames src ring

    -- A frame that is not read yet keeps its place.
    kept :
        (i : ℕ)
        → r ≤ i
        → i < length xs
        → get_elem? written (i % n) ≡ get_elem? (xs ++ take frames src) i
    kept i h k =
        write_channel_outside n start frames src ring v.size (mod-lt (length xs) p)
          (omega (arith, v)) enough (i % n) (place.0) (place.1)
        ∙ (v.holds i h k ∙ sym (get_elem?-append_left xs (take frames src) i k))
      where
        place : ((i % n < start) ⊎ (start + frames ≤ i % n)) × (start + frames ≤ i % n + n)
        place =
            let there : i + (length xs - i) ≡ length xs = omega arith in
            let same : (i + (length xs - i)) % n ≡ start = ap (λ x. x % n) there in
            elim (add-mod_cases i (length xs - i) n p (omega (arith, v))) [
              | inl (a, e) ↦ (inl (omega arith), omega arith)
              | inr (a, e) ↦ (inr (omega arith), omega arith)
            ]

    added :
        (j : ℕ)
        → j < frames
        → get_elem? written ((length xs + j) % n)
          ≡ get_elem? (xs ++ take frames src) (length xs + j)
    added j h =
        write_channel_inside n start frames src ring v.size (mod-lt (length xs) p)
          (omega (arith, v)) enough j ((length xs + j) % n) h place (mod-lt (length xs + j) p)
        ∙ (sym (get_elem?-take frames src j h)
            ∙ sym (get_elem?-append_right xs (take frames src) j))
      where
        place : ((length xs + j) % n ≡ start + j) ⊎ ((length xs + j) % n + n ≡ start + j)
        place = elim (add-mod_cases (length xs) j n p (omega (arith, v))) [
          | inl (a, e) ↦ inl e
          | inr (a, e) ↦ inr (omega arith)
        ]

    all_held :
        (i : ℕ)
        → r ≤ i
        → i < length (xs ++ take frames src)
        → get_elem? written (i % n) ≡ get_elem? (xs ++ take frames src) i
    all_held i h k = elim (Bool-cases (ltb i (length xs))) [
      | inl e ↦ kept i h (ltb→lt i (length xs) e)
      | inr e ↦
          let behind : length xs ≤ i = ltb→le i (length xs) e in
          let there : length xs + (i - length xs) ≡ i = omega arith in
          subst (λ x. get_elem? written (x % n) ≡ get_elem? (xs ++ take frames src) x) there
            (added (i - length xs)
              (omega (arith, length-append xs (take frames src), length-take frames src)))
    ]

    -- A write into the room that is left appends its frames to the stream.
    pub write_channel-IsStream : IsStream n r written (xs ++ take frames src)
    write_channel-IsStream = record {
      size =
          length-write_channel n start frames src ring v.size (mod-lt (length xs) p)
            (omega (arith, v)) enough;
      read = omega (arith, v, length-append xs (take frames src));
      fits = omega (arith, v, length-append xs (take frames src), length-take frames src);
      holds = all_held;
    }
