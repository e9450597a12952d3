-- ===== src/Mixer/Loading.antt =====
-- `sanitize` and the reducer.
use rehearse_kit.Common.{sym, ◌⊎◌}
use rehearse_kit.Common.{
  ℕ, Bool, List, Option, All, Bool-cases, [], arith, false, inl, inr, none, refl, some, true, ◌||◌,
  ◌∙◌, ◌∷◌, ◌≡◌, sym,
}
use rehearse_kit.Mixer.{MixLoop, take_loop}
use rehearse_kit.Drums.Double.{max_f, Double, IsOrdered, zero_f, one_f}
use rehearse_kit.Mixer.{
  Entry, RawMix, RawStem, clamp_01, put, put_all, sanitize, take_stem, take_stems, known_name,
  includes, find_raw,
}
use rehearse_kit.Mixer.Validity.{
  IsKnown, IsMix, InUnit, IsLevel, has_stem, has_stem-put, All-put, clamp_01-InUnit,
  put_all-IsLevel, initial_mix-IsMix,
}

pub IsKnown-mono :
    (p q : ℕ → Bool) (known : (name : ℕ) → p name ≡ true → q name ≡ true) (o : Option ℕ)
    → IsKnown p o
    → IsKnown q o
IsKnown-mono p q known none h = tt
IsKnown-mono p q known (some n) h = known n h

module _ {F : Type 0} where
  has_stem-put_all :
      (names : List ℕ) (stems : List (Entry F)) (unity : F) (name : ℕ)
      → has_stem (put_all stems names unity) name ≡ (includes names name || has_stem stems name)
  unfolding put_all includes
  has_stem-put_all [] stems unity name = refl
  has_stem-put_all (n ∷ names) stems unity name =
      has_stem-put_all names (put stems n (record { position = unity; muted = false })) unity name
      ∙ ground (arith, has_stem-put stems n name (record { position = unity; muted = false }))

module _ {F : Type 0} ⦃d : Double F⦄ (o : IsOrdered d) (zero_one : d.lt zero_f one_f ≡ true) where
  take_stem-IsLevel :
      (stems : List (Entry F)) (name : ℕ) (unity : F) (r : Option (RawStem F))
      → InUnit unity
      → All IsLevel stems
      → All IsLevel (take_stem stems name unity r)
  unfolding take_stem
  take_stem-IsLevel stems name unity none u h = h
  take_stem-IsLevel stems name unity (some r) u h =
      All-put IsLevel stems name _ (level r.position) h
    where
      level : (p : Option F) → InUnit (elim p [ none ↦ unity | some x ↦ clamp_01 x ])
      level none = u
      level (some x) = clamp_01-InUnit o zero_one x

  has_stem-take_stem :
      (stems : List (Entry F)) (n : ℕ) (unity : F) (r : Option (RawStem F)) (name : ℕ)
      → has_stem stems name ≡ true
      → has_stem (take_stem stems n unity r) name ≡ true
  unfolding take_stem
  has_stem-take_stem stems n unity none name h = h
  has_stem-take_stem stems n unity (some r) name h =
      rw (has_stem-put stems n name _, h) (ground arith)

  take_stems-IsLevel :
      (raws : List (RawStem F)) (unity : F) (names : List ℕ) (stems : List (Entry F))
      → InUnit unity
      → All IsLevel stems
      → All IsLevel (take_stems stems raws names unity)
  unfolding take_stems
  take_stems-IsLevel raws unity [] stems u h = h
  take_stems-IsLevel raws unity (name ∷ names) stems u h =
      take_stems-IsLevel raws unity names (take_stem stems name unity (find_raw raws name)) u
        (take_stem-IsLevel stems name unity (find_raw raws name) u h)

  has_stem-take_stems :
      (raws : List (RawStem F)) (unity : F) (name : ℕ) (names : List ℕ) (stems : List (Entry F))
      → has_stem stems name ≡ true
      → has_stem (take_stems stems raws names unity) name ≡ true
  unfolding take_stems
  has_stem-take_stems raws unity name [] stems h = h
  has_stem-take_stems raws unity name (n ∷ names) stems h =
      has_stem-take_stems raws unity name names (take_stem stems n unity (find_raw raws n))
        (has_stem-take_stem stems n unity (find_raw raws n) name h)

  known_name-IsKnown :
      (names : List ℕ) (name : Option ℕ) → IsKnown (includes names) (known_name names name)
  unfolding known_name
  known_name-IsKnown names none = tt
  known_name-IsKnown names (some n) = elim (Bool-cases (includes names n)) [
    | inl e ↦ rw e e
    | inr e ↦ rw e tt
  ]

  -- With the laws of an order, 0 below 1, and a position for new stems between them, sanitize
  -- turns whatever was stored into a state in which every fader stands between 0 and 1, the solo
  -- is a stem's or none, and the loop is on only where there is one.
  pub sanitize-IsMix :
      (raw : Option (RawMix F)) (names : List ℕ) (unity : F)
      → InUnit unity
      → IsMix (sanitize raw names unity)
  unfolding sanitize
  sanitize-IsMix none names unity u = initial_mix-IsMix o zero_one names unity u
  sanitize-IsMix (some r) names unity u = record {
    levels =
        take_stems-IsLevel r.stems unity names (put_all [] names unity) u
          (put_all-IsLevel o zero_one [] names unity u tt);
    level = level r.master_position;
    soloed =
        IsKnown-mono (includes names) _ there (known_name names r.solo)
          (known_name-IsKnown names r.solo);
    looped = λ e. ground arith;
  }
    where
      level : (p : Option F) → InUnit (elim p [ none ↦ unity | some x ↦ clamp_01 x ])
      level none = u
      level (some x) = clamp_01-InUnit o zero_one x

      there :
          (name : ℕ)
          → includes names name ≡ true
          → has_stem (take_stems (put_all [] names unity) r.stems names unity) name ≡ true
      there name h =
          has_stem-take_stems r.stems unity name names (put_all [] names unity)
            (has_stem-put_all names [] unity name ∙ ground arith)

  after_zero : (a b : F) → d.lt zero_f a ≡ true → d.lt a b ≡ true → d.lt zero_f b ≡ true
  after_zero a b e h = elim (Bool-cases (d.lt zero_f b)) [
    | inl k ↦ k
    | inr k ↦
        let no : d.lt a b ≡ false = o.trans b zero_f a o.finite_zero k (o.asym zero_f a e) in
        absurd cc
  ]

  -- What becomes of a stored loop that ends after it starts.
  pub record IsTaken (l l' : MixLoop F) : Type 0 where
    pub same_end : l'.end ≡ l.end
    pub inside : d.lt l'.start zero_f ≡ false
    pub starts :
        ((d.lt zero_f l.start ≡ true) × (l'.start ≡ l.start))
        ⊎ ((d.lt zero_f l.start ≡ false) × (l'.start ≡ zero_f))
    pub not_empty : d.lt l'.start l'.end ≡ d.lt zero_f l.end

  -- With the laws of an order and 0 below 1, a stored loop that does not end after it starts is
  -- dropped; any other is taken with its own end and a start that is its own where that is after
  -- 0, and else 0; it ends after it starts exactly where the stored end is after 0.
  pub take_loop_lem :
      (l : MixLoop F)
      → ((d.lt l.start l.end ≡ false) × (take_loop (some l) ≡ none))
        ⊎ ((d.lt l.start l.end ≡ true)
            × ((l' : MixLoop F) × (take_loop (some l) ≡ some l') × IsTaken l l'))
  unfolding take_loop
  take_loop_lem l = elim (Bool-cases (d.lt l.start l.end)) [
    | inr h ↦ inl (h, rw h refl)
    | inl h ↦ inr (h, (record { start = max_f zero_f l.start; end = l.end }, rw h refl, raised h))
  ]
    where
      raised :
          d.lt l.start l.end ≡ true
          → IsTaken l (record { start = max_f zero_f l.start; end = l.end })
      raised h = elim (Bool-cases (d.lt zero_f l.start)) [
        | inl e ↦ rw e (record {
          same_end = refl;
          inside = o.asym zero_f l.start e;
          starts = inl (e, refl);
          not_empty = h ∙ sym (after_zero l.start l.end e h);
        })
        | inr e ↦ rw e (record {
          same_end = refl;
          inside = o.irrefl zero_f;
          starts = inr (e, refl);
          not_empty = refl;
        })
      ]
