-- ===== src/Mixer/Validity.antt =====
-- What every action keeps of the mixer's state.
use rehearse_kit.Common.{
  ℕ, Bool, List, Option, All, Bool-cases, [], arith, false, if_both, inl, inr, is_some, none, some,
  some_inj, subst, true, ◌==◌, ◌||◌, ◌∷◌, ◌≡◌,
}
use rehearse_kit.Drums.Double.{max_f, min_f, Double, IsOrdered, zero_f, one_f}
use rehearse_kit.Mixer.{MixState, StemMix, Entry, clamp_01, put, put_all, find_stem, initial_mix}

abbrev pub IsKnown {ℓ} : {A : Type ℓ} → (A → Bool) → Option A → Type 0
IsKnown p none = Unit {0}
IsKnown p (some a) = p a ≡ true

module _ {F : Type 0} where
  abbrev pub has_stem : List (Entry F) → ℕ → Bool
  has_stem stems name = is_some (find_stem stems name)

  -- Setting a stem keeps every stem that there was.
  pub has_stem-put :
      (stems : List (Entry F)) (n name : ℕ) (mix : StemMix F)
      → has_stem (put stems n mix) name ≡ ((n == name) || has_stem stems name)
  unfolding put find_stem
  has_stem-put [] n name mix = ground arith
  has_stem-put (e ∷ stems) n name mix = ground (arith, has_stem-put stems n name mix)

  pub All-put :
      (P : Entry F → Type 0) (stems : List (Entry F)) (name : ℕ) (mix : StemMix F)
      → P (record { name = name; mix = mix })
      → All P stems
      → All P (put stems name mix)
  unfolding put
  All-put P [] name mix h k = (h, tt)
  All-put P (e ∷ stems) name mix h (p, k) =
      if_both (All P) (e.name == name) _ _ (h, k) (p, All-put P stems name mix h k)

  pub All-find_stem :
      (P : StemMix F → Type 0) (stems : List (Entry F)) (name : ℕ) (mix : StemMix F)
      → All (λ e. P e.mix) stems
      → find_stem stems name ≡ some mix
      → P mix
  unfolding find_stem
  All-find_stem P [] name mix k e = cc
  All-find_stem P (x ∷ stems) name mix (p, k) e = elim (Bool-cases (x.name == name)) [
    | inl h ↦ subst P (some_inj (rw h at e)) p
    | inr h ↦ All-find_stem P stems name mix k (rw h at e)
  ]

module _ {F : Type 0} ⦃d : Double F⦄ where
  -- A position of a fader: 0 to 1.
  abbrev pub InUnit : F → Type 0
  InUnit x = (d.lt x zero_f ≡ false) × (d.lt one_f x ≡ false)

  abbrev pub IsLevel : Entry F → Type 0
  IsLevel e = InUnit e.mix.position

  pub record IsMix (s : MixState F) : Type 0 where
    pub levels : All IsLevel s.stems
    pub level : InUnit s.master_position
    pub soloed : IsKnown (has_stem s.stems) s.solo
    pub looped : s.loop_enabled ≡ true → is_some s.loop ≡ true

  module _ (o : IsOrdered d) (zero_one : d.lt zero_f one_f ≡ true) where
    max_f-InUnit : (m : F) → d.lt one_f m ≡ false → InUnit (max_f zero_f m)
    max_f-InUnit m h = elim (Bool-cases (d.lt zero_f m)) [
      | inl e ↦ rw e (o.asym zero_f m e, h)
      | inr e ↦ rw e (o.irrefl zero_f, o.asym zero_f one_f zero_one)
    ]

    min_f-one : (x : F) → d.lt one_f (min_f one_f x) ≡ false
    min_f-one x = elim (Bool-cases (d.lt x one_f)) [
      | inl e ↦ rw e (o.asym x one_f e)
      | inr e ↦ rw e (o.irrefl one_f)
    ]

    pub clamp_01-InUnit : (x : F) → InUnit (clamp_01 x)
    unfolding clamp_01
    clamp_01-InUnit x = elim (Bool-cases (d.finite x)) [
      | inl e ↦ rw e (max_f-InUnit (min_f one_f x) (min_f-one x))
      | inr e ↦ rw e (o.irrefl zero_f, o.asym zero_f one_f zero_one)
    ]

    pub put_all-IsLevel :
        (stems : List (Entry F)) (names : List ℕ) (unity : F)
        → InUnit unity
        → All IsLevel stems
        → All IsLevel (put_all stems names unity)
    unfolding put_all
    put_all-IsLevel stems [] unity u h = h
    put_all-IsLevel stems (name ∷ names) unity u h =
        put_all-IsLevel (put stems name (record { position = unity; muted = false })) names unity u
          (All-put IsLevel stems name _ u h)

    pub initial_mix-IsMix :
        (names : List ℕ) (unity : F) → InUnit unity → IsMix (initial_mix names unity)
    unfolding initial_mix
    initial_mix-IsMix names unity u = record {
      levels = put_all-IsLevel [] names unity u tt;
      level = u;
      soloed = tt;
      looped = λ e. cc;
    }
