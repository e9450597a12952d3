-- ===== src/Engine/Gains/Solo.antt =====
-- What holds of the mixer between any two calls: solo is exclusive, and every gain node has the
-- gain that its stem should have.
use rehearse_kit.Common.{All, Bool-cases, inl, inr, ltb, ◌⊎◌}
use rehearse_kit.Common.{
  Bool, List, [], ap, arith, false, if_both, if◌then◌else◌, map, refl, subst, suc, sym, true, zero,
  ℕ, ◌+◌, ◌||◌, ◌∷◌, ◌≡◌, ◌≤◌,
}
use rehearse_kit.Engine.Gains.{
  GainEvent, gain_set, mute_set, forced_mute_set, solo_set, Channel, change_at, any_solo, mark_solo,
  gain_step, effective_gain, apply_all, set_gain, run_gains, apply, set_mute, set_forced_mute,
  set_solo, clear_solo, unchanged, forced_at, unsolo,
}

module _ {G : Type 0} (clamp : G → G) (silence : G) where
  -- The number of stems that are soloed.
  unfoldable pub solos : List (Channel G) → ℕ
  solos [] = 0
  solos (c ∷ cs) = (if c.soloed then 1 else 0) + solos cs

  unfoldable pub AllApplied : Bool → List (Channel G) → Type 0
  AllApplied any [] = Unit {0}
  AllApplied any (c ∷ cs) = (c.applied ≡ effective_gain clamp silence any c) × AllApplied any cs

  record InStep (cs : List (Channel G)) : Type 0 where
    exclusive : solos cs ≤ 1
    in_step : AllApplied (any_solo clamp silence cs) cs

  Keeps : (Channel G → Channel G) → Type 0
  Keeps f = (c : Channel G) → (f c).soloed ≡ c.soloed

  change_at-solo :
      (any : Bool) (f : Channel G → Channel G) (cs : List (Channel G)) (i : ℕ)
      → Keeps f
      → (any_solo clamp silence (change_at clamp silence any f cs i) ≡ any_solo clamp silence cs)
        × (solos (change_at clamp silence any f cs i) ≡ solos cs)
  unfolding change_at any_solo solos Keeps
  change_at-solo any f [] i k = (refl, refl)
  change_at-solo any f (c ∷ cs) zero k = rw (k c) (refl, refl)
  change_at-solo any f (c ∷ cs) (suc i) k =
      let (a, n) = change_at-solo any f cs i k in
      (ap (λ b. c.soloed || b) a, ap (λ m. (if c.soloed then 1 else 0) + m) n)

  change_at-AllApplied :
      (any : Bool) (f : Channel G → Channel G) (cs : List (Channel G)) (i : ℕ)
      → AllApplied any cs
      → AllApplied any (change_at clamp silence any f cs i)
  unfolding change_at AllApplied effective_gain
  change_at-AllApplied any f [] i v = tt
  change_at-AllApplied any f (c ∷ cs) zero v = (refl, v.1)
  change_at-AllApplied any f (c ∷ cs) (suc i) v = (v.0, change_at-AllApplied any f cs i v.1)

  change_at-InStep :
      (f : Channel G → Channel G) (cs : List (Channel G)) (i : ℕ)
      → Keeps f
      → InStep cs
      → InStep (change_at clamp silence (any_solo clamp silence cs) f cs i)
  change_at-InStep f cs i k v =
      let any = any_solo clamp silence cs in
      let (a, n) = change_at-solo any f cs i k in
      record {
        exclusive = subst (λ m. m ≤ 1) (sym n) v.exclusive;
        in_step =
            subst (λ b. AllApplied b (change_at clamp silence any f cs i)) (sym a)
              (change_at-AllApplied any f cs i v.in_step);
      }

  apply_all-solo :
      (any : Bool) (cs : List (Channel G))
      → (any_solo clamp silence (map (apply clamp silence any) cs) ≡ any_solo clamp silence cs)
        × (solos (map (apply clamp silence any) cs) ≡ solos cs)
        × AllApplied any (map (apply clamp silence any) cs)
  unfolding any_solo solos AllApplied effective_gain
  apply_all-solo any [] = (refl, refl, tt)
  apply_all-solo any (c ∷ cs) =
      let (a, n, v) = apply_all-solo any cs in
      (ap (λ b. c.soloed || b) a, ap (λ m. (if c.soloed then 1 else 0) + m) n, (refl, v))

  apply_all-InStep : (cs : List (Channel G)) → solos cs ≤ 1 → InStep (apply_all clamp silence cs)
  apply_all-InStep cs h =
      let any = any_solo clamp silence cs in
      let (a, n, v) = apply_all-solo any cs in
      record {
        exclusive = subst (λ m. m ≤ 1) (sym n) h;
        in_step = subst (λ b. AllApplied b (map (apply clamp silence any) cs)) (sym a) v;
      }

  cleared-solos : (cs : List (Channel G)) → solos (map (unsolo clamp silence) cs) ≡ 0
  unfolding solos
  cleared-solos [] = refl
  cleared-solos (c ∷ cs) = omega (arith, cleared-solos cs)

  mark_solo-solos :
      (cs : List (Channel G)) (i : ℕ) (next : Bool) → solos (mark_solo clamp silence cs i next) ≤ 1
  unfolding mark_solo solos
  mark_solo-solos [] i next = omega arith
  mark_solo-solos (c ∷ cs) zero true = omega (arith, cleared-solos cs)
  mark_solo-solos (c ∷ cs) zero false = omega (arith, cleared-solos cs)
  mark_solo-solos (c ∷ cs) (suc i) next = omega (arith, mark_solo-solos cs i next)

  gain_step-InStep :
      (cs : List (Channel G)) (x : GainEvent G) → InStep cs → InStep (gain_step clamp silence cs x)
  unfolding gain_step set_gain set_mute set_forced_mute set_solo clear_solo Keeps
  gain_step-InStep cs (gain_set i value) v = change_at-InStep _ cs i (λ c. refl) v
  gain_step-InStep cs (mute_set i muted) v = change_at-InStep _ cs i (λ c. refl) v
  gain_step-InStep cs (forced_mute_set i on) v =
      if_both InStep (unchanged clamp silence (forced_at clamp silence cs i) on) _ _ v
        (change_at-InStep _ cs i (λ c. refl) v)
  gain_step-InStep cs (solo_set i on) v = apply_all-InStep _ (mark_solo-solos cs i _)
  gain_step-InStep cs GainEvent.solo_cleared v =
      apply_all-InStep (map (unsolo clamp silence) cs) (omega (arith, cleared-solos cs))

  -- What is heard of a stem among `n` soloed ones.
  pub record IsHeard (n : ℕ) (c : Channel G) : Type 0 where
    pub when_muted : c.muted ≡ true → c.applied ≡ silence
    pub when_forced : c.forced_mute ≡ true → c.applied ≡ silence
    pub when_silenced : 1 ≤ n → c.soloed ≡ false → c.applied ≡ silence
    pub else_own :
        c.muted ≡ false
        → c.forced_mute ≡ false
        → (n ≡ 0) ⊎ (c.soloed ≡ true)
        → c.applied ≡ c.gain_value

  pub record IsMixed (cs : List (Channel G)) : Type 0 where
    pub exclusive : solos cs ≤ 1
    pub heard : All (IsHeard (solos cs)) cs

  any_solo-solos : (cs : List (Channel G)) → any_solo clamp silence cs ≡ ltb 0 (solos cs)
  unfolding any_solo solos
  any_solo-solos [] = refl
  any_solo-solos (c ∷ cs) = ground (arith, any_solo-solos cs)

  applied-IsHeard :
      (n : ℕ) (c : Channel G) → c.applied ≡ effective_gain clamp silence (ltb 0 n) c → IsHeard n c
  unfolding effective_gain
  applied-IsHeard n c h = record {
    when_muted = λ m. ground (arith, h, m);
    when_forced = λ m. ground (arith, h, m);
    when_silenced = λ l m. ground (arith, h, l, m);
    else_own =
        λ m f k. elim k [ inl z ↦ ground (arith, h, m, f, z) | inr z ↦ ground (arith, h, m, f, z) ];
  }

  IsHeard-applied :
      (n : ℕ) (c : Channel G) → IsHeard n c → c.applied ≡ effective_gain clamp silence (ltb 0 n) c
  unfolding effective_gain
  IsHeard-applied n c v = elim (Bool-cases c.muted) [
    | inl m ↦ rw m (v.when_muted m)
    | inr m ↦ elim (Bool-cases c.forced_mute) [
      | inl f ↦ rw (m, f) (v.when_forced f)
      | inr f ↦ elim (Bool-cases c.soloed) [
        | inl z ↦ let own = v.else_own m f (inr z) in ground (arith, m, f, z, own)
        | inr z ↦ elim (Bool-cases (ltb 0 n)) [
          | inl k ↦
              let none_heard = v.when_silenced (ground (arith, k)) z in
              ground (arith, m, f, z, k, none_heard)
          | inr k ↦
              let own = v.else_own m f (inl (ground (arith, k))) in ground (arith, m, f, z, k, own)
        ]
      ]
    ]
  ]

  AllApplied-IsHeard :
      (n : ℕ) (cs : List (Channel G)) → AllApplied (ltb 0 n) cs → All (IsHeard n) cs
  unfolding AllApplied
  AllApplied-IsHeard n [] v = tt
  AllApplied-IsHeard n (c ∷ cs) v = (applied-IsHeard n c v.0, AllApplied-IsHeard n cs v.1)

  IsHeard-AllApplied :
      (n : ℕ) (cs : List (Channel G)) → All (IsHeard n) cs → AllApplied (ltb 0 n) cs
  unfolding AllApplied
  IsHeard-AllApplied n [] v = tt
  IsHeard-AllApplied n (c ∷ cs) v = (IsHeard-applied n c v.0, IsHeard-AllApplied n cs v.1)

  InStep-IsMixed : (cs : List (Channel G)) → InStep cs → IsMixed cs
  InStep-IsMixed cs v = record {
    exclusive = v.exclusive;
    heard =
        AllApplied-IsHeard (solos cs) cs
          (subst (λ b. AllApplied b cs) (any_solo-solos cs) v.in_step);
  }

  IsMixed-InStep : (cs : List (Channel G)) → IsMixed cs → InStep cs
  IsMixed-InStep cs v = record {
    exclusive = v.exclusive;
    in_step =
        subst (λ b. AllApplied b cs) (sym (any_solo-solos cs))
          (IsHeard-AllApplied (solos cs) cs v.heard);
  }

  run_gains-InStep :
      (xs : List (GainEvent G)) (cs : List (Channel G))
      → InStep cs
      → InStep (run_gains clamp silence cs xs)
  run_gains-InStep [] cs v = v
  run_gains-InStep (x ∷ xs) cs v =
      run_gains-InStep xs (gain_step clamp silence cs x) (gain_step-InStep cs x v)

  -- From channels of which at most one is soloed and of which each is heard as follows, after
  -- any calls of setGain, setMute, setForcedMute, setSolo and clearSolo that is still so: the
  -- gain node of a stem that is muted, or forced mute, or not soloed while some stem is, has
  -- silence; and that of every other stem has the stem's own gain.
  pub run_gains-IsMixed :
      (xs : List (GainEvent G)) (cs : List (Channel G))
      → IsMixed cs
      → IsMixed (run_gains clamp silence cs xs)
  run_gains-IsMixed xs cs v = InStep-IsMixed _ (run_gains-InStep xs cs (IsMixed-InStep cs v))
