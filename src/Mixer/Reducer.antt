-- ===== src/Mixer/Reducer.antt =====
-- `mixReducer` keeps the mixer's invariant.
use rehearse_kit.Common.{
  ℕ, Bool, List, Option, All, Bool-cases, [], arith, if_both, inl, inr, is_some, none, not, refl,
  some, true, ◌&&◌, ◌∷◌, ◌≡◌,
}
use rehearse_kit.Drums.Double.{Double, IsOrdered, zero_f, one_f}
use rehearse_kit.Mixer.{
  MixState, StemMix, Entry, MixLoop, MixAction, gain, mute, solo, set_loop, enable_loop, select,
  master, reset, load, clamp_01, put, find_stem, mix_reduce, do_gain, do_mute, do_solo, do_set_loop,
  do_enable_loop, names_of, first_position, is_empty, same_name, same_flag,
}
use rehearse_kit.Mixer.Validity.{
  IsKnown, IsMix, InUnit, IsLevel, has_stem, has_stem-put, All-put, All-find_stem, clamp_01-InUnit,
  initial_mix-IsMix,
}
use rehearse_kit.Mixer.Loading.{sanitize-IsMix, IsKnown-mono}

module _ {F : Type 0} ⦃d : Double F⦄ where
  -- A reset gives a position between 0 and 1.
  abbrev pub IsAllowed : MixAction F → Type 0
  IsAllowed (reset names unity) = InUnit unity
  IsAllowed _ = Unit {0}

  module _ (o : IsOrdered d) (zero_one : d.lt zero_f one_f ≡ true) where
    module _ (s : MixState F) (v : IsMix s) where
      put-IsMix :
          (name : ℕ) (mix : StemMix F)
          → InUnit mix.position
          → IsMix (record s { stems = put s.stems name mix })
      put-IsMix name mix u = record {
        levels = All-put IsLevel s.stems name mix u v.levels;
        level = v.level;
        soloed =
            IsKnown-mono (has_stem s.stems) (has_stem (put s.stems name mix))
              (λ n h. rw (has_stem-put s.stems name n mix, h) (ground arith)) s.solo v.soloed;
        looped = v.looped;
      }

      do_gain-IsMix : (name : ℕ) (x : F) (cur : Option (StemMix F)) → IsMix (do_gain s name x cur)
      unfolding do_gain
      do_gain-IsMix name x none = v
      do_gain-IsMix name x (some cur) =
          if_both IsMix (d.same cur.position (clamp_01 x)) _ _ v
            (put-IsMix name _ (clamp_01-InUnit o zero_one x))

      do_mute-IsMix :
          (name : ℕ) (muted : Bool) (cur : Option (StemMix F))
          → find_stem s.stems name ≡ cur
          → IsMix (do_mute s name muted cur)
      unfolding do_mute
      do_mute-IsMix name muted none e = v
      do_mute-IsMix name muted (some cur) e =
          if_both IsMix (same_flag cur.muted muted) _ _ v
            (put-IsMix name _ (All-find_stem (λ m. InUnit m.position) s.stems name cur v.levels e))

      do_solo-IsMix : (name : Option ℕ) → IsMix (do_solo s name)
      unfolding do_solo
      do_solo-IsMix none = if_both IsMix (same_name s.solo none) _ _ v (with_solo none tt)
        where
          with_solo :
              (name : Option ℕ) → IsKnown (has_stem s.stems) name → IsMix (record s { solo = name })
          with_solo name k = record {
            levels = v.levels;
            level = v.level;
            soloed = k;
            looped = v.looped;
          }
      do_solo-IsMix (some name) =
          if_both IsMix (same_name s.solo (some name)) _ _ v
            (elim (Bool-cases (has_stem s.stems name)) [
              | inl e ↦
                  rw e
                    (record { levels = v.levels; level = v.level; soloed = e; looped = v.looped })
              | inr e ↦ rw e v
            ])

      do_set_loop-IsMix : (loop : Option (MixLoop F)) → IsMix (do_set_loop s loop)
      unfolding do_set_loop
      do_set_loop-IsMix loop = if_both IsMix (is_empty loop) _ _ v (record {
        levels = v.levels;
        level = v.level;
        soloed = v.soloed;
        looped = λ e. ground arith;
      })

      do_enable_loop-IsMix : (enabled : Bool) → IsMix (do_enable_loop s enabled)
      unfolding do_enable_loop
      do_enable_loop-IsMix enabled = elim (Bool-cases (not (is_some s.loop) && enabled)) [
        | inl e ↦ rw e v
        | inr e ↦ rw e (
            if_both IsMix (same_flag s.loop_enabled enabled) _ _ v (record {
              levels = v.levels;
              level = v.level;
              soloed = v.soloed;
              looped = λ on. ground arith;
            }))
      ]

      first_position-InUnit :
          (stems : List (Entry F)) → All IsLevel stems → InUnit (first_position stems one_f)
      first_position-InUnit [] h = (o.asym zero_f one_f zero_one, o.irrefl one_f)
      first_position-InUnit (e ∷ stems) (p, h) = p

      -- With the laws of an order and 0 below 1, every action of the mixer keeps its state
      -- valid: faders between 0 and 1, the solo a stem's or none, the loop on only where there
      -- is one; a reset is given a position between 0 and 1.
      pub mix_reduce-IsMix : (a : MixAction F) → IsAllowed a → IsMix (mix_reduce s a)
      unfolding mix_reduce
      mix_reduce-IsMix (gain name x) k = do_gain-IsMix name x (find_stem s.stems name)
      mix_reduce-IsMix (mute name muted) k = do_mute-IsMix name muted (find_stem s.stems name) refl
      mix_reduce-IsMix (solo name) k = do_solo-IsMix name
      mix_reduce-IsMix (set_loop loop) k = do_set_loop-IsMix loop
      mix_reduce-IsMix (enable_loop enabled) k = do_enable_loop-IsMix enabled
      mix_reduce-IsMix (select name) k =
          if_both IsMix (same_name s.selected name) _ _ v
            (record { levels = v.levels; level = v.level; soloed = v.soloed; looped = v.looped })
      mix_reduce-IsMix (master x) k = record {
        levels = v.levels;
        level = clamp_01-InUnit o zero_one x;
        soloed = v.soloed;
        looped = v.looped;
      }
      mix_reduce-IsMix (reset names unity) k = initial_mix-IsMix o zero_one names unity k
      mix_reduce-IsMix (load raw) k =
          sanitize-IsMix o zero_one raw (names_of s.stems) (first_position s.stems one_f)
            (first_position-InUnit s.stems v.levels)
