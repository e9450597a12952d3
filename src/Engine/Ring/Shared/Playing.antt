-- ===== src/Engine/Ring/Shared/Playing.antt =====
-- One quantum of the audio thread.
use rehearse_kit.Common.{
  Bool-cases, inl, inr, ℕ, Bool, List, Option, length, take, drop, get_or, map, ltb, if◌then◌else◌,
  ◌||◌, [], ap, ap₂, arith, false, refl, some, suc, zero, ◌%◌, ◌+◌, ◌-◌, ◌<◌, ◌^◌, ◌∷◌, ◌≡◌, ◌≤◌,
  ◌∙◌,
}
use rehearse_kit.Engine.Ring.{Stem, sub_word, pos}
use rehearse_kit.Engine.Ring.Stream.{IsStream}
use rehearse_kit.Engine.Ring.Reading.{read_from_lem}
use rehearse_kit.Engine.Ring.Words.{word-mod, ring_small, sub_word_lem}
use rehearse_kit.Engine.Ring.Shared.{available, read_channels, read_stems, lt_ℤ}
use rehearse_kit.Engine.Ring.Shared.Lockstep.{AllStreams, IsStem}

module _ {A : Type 0} where
  -- All stems at the one read position, each with at least one channel.
  abbrev pub AllStems : ℕ → ℕ → List (Stem A) → List (List (List A)) → Type 0
  AllStems k r [] [] = Unit {0}
  AllStems k r (st ∷ stems) (logs ∷ logss) =
      IsStem k r st logs × (0 < length logs) × AllStems k r stems logss
  AllStems k r _ _ = ⊥

  -- Some stem has fewer than `need` frames.
  abbrev pub is_short :
      (k r need : ℕ) (stems : List (Stem A)) (logss : List (List (List A)))
      → AllStems k r stems logss
      → Bool
  is_short k r need [] [] v = false
  is_short k r need [] (logs ∷ logss) v = false
  is_short k r need (st ∷ stems) [] v = false
  is_short k r need (st ∷ stems) (logs ∷ logss) (v, p, vs) =
      ltb v.written (r + need) || is_short k r need stems logss vs

  -- What a stem puts out on `count` channels, from the one with index `c`: the next `need` frames of
  -- each stream, the last stream for the channels that it does not have.
  abbrev pub played : ℕ → ℕ → List (List A) → ℕ → ℕ → List (List (Option A))
  played r need logs c zero = []
  played r need logs c (suc count) =
      map some
        (take need (drop r (get_or logs (if ltb c (length logs) then c else length logs - 1) [])))
      ∷ played r need logs (c + 1) count

  abbrev pub all_played : ℕ → ℕ → List (List (List A)) → List ℕ → List (List (List (Option A)))
  all_played r need [] outputs = []
  all_played r need (logs ∷ logss) [] = []
  all_played r need (logs ∷ logss) (count ∷ outputs) =
      played r need logs 0 count ∷ all_played r need logss outputs

  length-streams :
      (n r w : ℕ) (rings logs : List (List A))
      → AllStreams n r w rings logs
      → length rings ≡ length logs
  length-streams n r w [] [] v = refl
  length-streams n r w [] (xs ∷ logs) v = absurd v
  length-streams n r w (ring ∷ rings) [] v = absurd v
  length-streams n r w (ring ∷ rings) (xs ∷ logs) (a, b, v) =
      ap suc (length-streams n r w rings logs v)

  IsStream-at :
      (n r w : ℕ) (rings logs : List (List A)) (i : ℕ)
      → AllStreams n r w rings logs
      → i < length logs
      → IsStream n r (get_or rings i []) (get_or logs i []) × (length (get_or logs i []) ≡ w)
  IsStream-at n r w [] [] i v h = absurd (omega arith)
  IsStream-at n r w [] (xs ∷ logs) i v h = absurd v
  IsStream-at n r w (ring ∷ rings) [] i v h = absurd v
  IsStream-at n r w (ring ∷ rings) (xs ∷ logs) zero (a, b, v) h = (a, b)
  IsStream-at n r w (ring ∷ rings) (xs ∷ logs) (suc i) (a, b, v) h =
      IsStream-at n r w rings logs i v (omega arith)

  read_channels_lem :
      (k r w need : ℕ) (rings logs : List (List A))
      → k ≤ 30
      → AllStreams (2 ^ k) r w rings logs
      → 0 < length logs
      → r + need ≤ w
      → (c count : ℕ)
      → read_channels (2 ^ k - 1) (r % 2 ^ 32) need rings c count ≡ played r need logs c count
  unfolding read_channels
  read_channels_lem k r w need rings logs h v p e c zero = refl
  read_channels_lem k r w need rings logs h v p e c (suc count) =
      let i = if ltb c (length logs) then c else length logs - 1 in
      let inside : i < length logs = ground arith in
      let (stream, sized) = IsStream-at (2 ^ k) r w rings logs i v inside in
      rw (length-streams (2 ^ k) r w rings logs v) (
        ap₂ (λ a b. a ∷ b)
          (read_from_lem k r (r % 2 ^ 32) need (get_or rings i []) (get_or logs i []) stream
            (word-mod k r h) (omega arith))
          (read_channels_lem k r w need rings logs h v p e (c + 1) count))

  stem_lead :
      (k r : ℕ) (st : Stem A) (logs : List (List A))
      → k ≤ 30
      → (v : IsStem k r st logs) → sub_word st.write_pos (r % 2 ^ 32) ≡ pos (v.written - r)
  stem_lead k r st logs h v =
      let count : v.written ≡ r + (v.written - r) = omega (arith, v) in
      ap (λ x. sub_word x (r % 2 ^ 32)) (v.at_word ∙ ap (λ x. x % 2 ^ 32) count)
      ∙ sub_word_lem r (v.written - r) (omega (arith, v, ring_small k h))

  pub available_lem :
      (k r need m : ℕ) (stems : List (Stem A)) (logss : List (List (List A)))
      → k ≤ 30
      → (v : AllStems k r stems logss)
      → lt_ℤ (available (r % 2 ^ 32) (pos m) stems) (pos need)
        ≡ (ltb m need || is_short k r need stems logss v)
  unfolding available
  available_lem k r need m [] [] h v = ground arith
  available_lem k r need m [] (logs ∷ logss) h v = absurd v
  available_lem k r need m (st ∷ stems) [] h v = absurd v
  available_lem k r need m (st ∷ stems) (logs ∷ logss) h (v, p, vs) =
      let lead : sub_word st.write_pos (r % 2 ^ 32) ≡ pos (v.written - r) =
        stem_lead k r st logs h v in
      rw lead (elim (Bool-cases (ltb (v.written - r) m)) [
        | inl e ↦
            rw e
              (available_lem k r need (v.written - r) stems logss h vs ∙ ground (arith, v.behind))
        | inr e ↦ rw e (available_lem k r need m stems logss h vs ∙ ground (arith, v.behind))
      ])

  pub read_stems_lem :
      (k r need : ℕ) (stems : List (Stem A)) (logss : List (List (List A))) (outputs : List ℕ)
      → k ≤ 30
      → (v : AllStems k r stems logss) → is_short k r need stems logss v ≡ false
      → read_stems (2 ^ k - 1) (r % 2 ^ 32) need stems outputs ≡ all_played r need logss outputs
  unfolding read_stems
  read_stems_lem k r need [] [] outputs h v e = refl
  read_stems_lem k r need [] (logs ∷ logss) outputs h v e = absurd v
  read_stems_lem k r need (st ∷ stems) [] outputs h v e = absurd v
  read_stems_lem k r need (st ∷ stems) (logs ∷ logss) [] h v e = refl
  read_stems_lem k r need (st ∷ stems) (logs ∷ logss) (count ∷ outputs) h (v, p, vs) e =
      ap₂ (λ a b. a ∷ b)
        (read_channels_lem k r v.written need st.channels logs h v.streams p (ground arith) 0 count)
        (read_stems_lem k r need stems logss outputs h vs (ground arith))
