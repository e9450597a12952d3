-- ===== src/Engine/Ring/Shared/Quantum.antt =====
-- A quantum in lockstep: all stems move on together, or none does.
use rehearse_kit.Common.{Option, subst, none}
use rehearse_kit.Common.{
  ℕ, List, Bool-cases, inl, inr, ap, ap₂, ◌∙◌, refl, some, none, true, false, [], arith, min, ◌%◌,
  ◌+◌, ◌-◌, ◌<◌, ◌^◌, ◌∷◌, ◌≡◌, ◌≤◌, ◌⊎◌, ltb, suc, sym, zero,
}
use rehearse_kit.Engine.Ring.{Stem, pos, sub_word}
use rehearse_kit.Engine.Ring.Reading.{consume-IsStream}
use rehearse_kit.Engine.Ring.Shared.{
  Shared, playing, available, read_stems, consume, lt_ℤ, publish_clock, process, process_playing,
  until_end,
}
use rehearse_kit.Engine.Ring.Shared.Lockstep.{AllStreams}
use rehearse_kit.Engine.Ring.Shared.Playing.{
  AllStems, is_short, all_played, available_lem, read_stems_lem,
}
use rehearse_kit.Engine.Ring.Words.{sub_word_lem}
use rehearse_kit.Engine.Ring.Shared.{process_in}
use native.Mathlib.Nat.{mod-add-mod}

module _ {A : Type 0} where
  consume-AllStreams :
      (n r w need : ℕ) (rings logs : List (List A))
      → r + need ≤ w
      → AllStreams n r w rings logs
      → AllStreams n (r + need) w rings logs
  consume-AllStreams n r w need [] [] h v = tt
  consume-AllStreams n r w need [] (xs ∷ logs) h v = absurd v
  consume-AllStreams n r w need (ring ∷ rings) [] h v = absurd v
  consume-AllStreams n r w need (ring ∷ rings) (xs ∷ logs) h (a, b, v) = (
    consume-IsStream n r need ring xs a (omega arith),
    b,
    consume-AllStreams n r w need rings logs h v,
  )

  consume-AllStems :
      (k r need : ℕ) (stems : List (Stem A)) (logss : List (List (List A)))
      → (v : AllStems k r stems logss) → is_short k r need stems logss v ≡ false
      → AllStems k (r + need) stems logss
  consume-AllStems k r need [] [] v e = tt
  consume-AllStems k r need [] (logs ∷ logss) v e = absurd v
  consume-AllStems k r need (st ∷ stems) [] v e = absurd v
  consume-AllStems k r need (st ∷ stems) (logs ∷ logss) (v, p, vs) e =
      let enough : r + need ≤ v.written = ground arith in
      (
        record {
          written = v.written;
          at_word = v.at_word;
          behind = enough;
          fits = omega (arith, v);
          streams = consume-AllStreams (2 ^ k) r v.written need st.channels logs enough v.streams;
        },
        p,
        consume-AllStems k r need stems logss vs (ground arith),
      )

  -- The rings of a shared block against the logs, at a read count of `r` frames.
  pub record IsShared (k r : ℕ) (s : Shared A) (logss : List (List (List A))) : Type 0 where
    pub small : k ≤ 30
    pub size : s.ring_frames ≡ 2 ^ k
    pub masks : s.mask ≡ 2 ^ k - 1
    pub read_word : s.read_pos ≡ r % 2 ^ 32
    pub stems : AllStems k r s.stems logss

  -- With rings of 2^k frames, k at most 30, that hold their streams, and fewer than 2^31 frames
  -- due, a quantum either finds some stem short, and then nothing is put out, one underrun is
  -- counted and no stem moves, or puts out of every stem exactly the next frames of its
  -- channels' streams and moves all stems on together.
  pub consume_lem :
      (k r : ℕ) (s : Shared A) (logss : List (List (List A))) (now quantum need : ℕ)
      (outputs : List ℕ)
      → (v : IsShared k r s logss) → need < 0x80000000
      → ((is_short k r need s.stems logss v.stems ≡ true)
          × ((consume s now quantum outputs need).0 ≡ none)
          × ((consume s now quantum outputs need).1.underruns ≡ (s.underruns + 1) % 2 ^ 32)
          × IsShared k r (consume s now quantum outputs need).1 logss)
        ⊎ ((is_short k r need s.stems logss v.stems ≡ false)
            × ((consume s now quantum outputs need).0 ≡ some (all_played r need logss outputs))
            × ((consume s now quantum outputs need).1.underruns ≡ s.underruns)
            × IsShared k (r + need) (consume s now quantum outputs need).1 logss)
  unfolding consume publish_clock
  consume_lem k r s logss now quantum need outputs v h =
      elim (Bool-cases (is_short k r need s.stems logss v.stems)) [
        | inl e ↦ inl (
            rw (test ∙ e) (
              e,
              refl,
              refl,
              record {
                small = v.small;
                size = v.size;
                masks = v.masks;
                read_word = v.read_word;
                stems = v.stems;
              },
            ))
        | inr e ↦ inr (
            rw (test ∙ e) (
              e,
              output e,
              refl,
              record {
                small = v.small;
                size = v.size;
                masks = v.masks;
                read_word = ap (λ x. (x + need) % 2 ^ 32) v.read_word ∙ mod-add-mod r (2 ^ 32) need;
                stems = consume-AllStems k r need s.stems logss v.stems e;
              },
            ))
      ]
    where
      test :
          lt_ℤ (available s.read_pos (pos 0x7fffffff) s.stems) (pos need)
          ≡ is_short k r need s.stems logss v.stems
      test =
          ap (λ x. lt_ℤ (available x (pos 0x7fffffff) s.stems) (pos need)) v.read_word
          ∙ (available_lem k r need 0x7fffffff s.stems logss v.small v.stems ∙ ground arith)

      output :
          is_short k r need s.stems logss v.stems ≡ false
          → some (read_stems s.mask s.read_pos need s.stems outputs)
            ≡ some (all_played r need logss outputs)
      output e = ap some (
          ap₂ (λ m x. read_stems m x need s.stems outputs) v.masks v.read_word
          ∙ read_stems_lem k r need s.stems logss outputs v.small v.stems e)

  -- A quantum of `need` frames that finds a stem short of them, and one that does not.
  pub record IsStalled (k r need : ℕ) (s : Shared A) (logss : List (List (List A)))
      (v : IsShared k r s logss) (out : Option (List (List (List (Option A)))) × Shared A)
      : Type 0 where
    pub short : is_short k r need s.stems logss v.stems ≡ true
    pub silent : out.0 ≡ none
    pub counted : out.1.underruns ≡ (s.underruns + 1) % 2 ^ 32
    pub unmoved : IsShared k r out.1 logss

  pub record IsPlayed (k r need : ℕ) (s : Shared A) (logss : List (List (List A)))
      (outputs : List ℕ) (v : IsShared k r s logss)
      (out : Option (List (List (List (Option A)))) × Shared A) : Type 0 where
    pub enough : is_short k r need s.stems logss v.stems ≡ false
    pub frames : out.0 ≡ some (all_played r need logss outputs)
    pub uncounted : out.1.underruns ≡ s.underruns
    pub moved : IsShared k (r + need) out.1 logss

  abbrev pub IsQuantum :
      (k r need : ℕ) (s : Shared A) (logss : List (List (List A))) (outputs : List ℕ)
      → IsShared k r s logss
      → Option (List (List (List (Option A)))) × Shared A
      → Type 0
  IsQuantum k r need s logss outputs v out =
      IsStalled k r need s logss v out ⊎ IsPlayed k r need s logss outputs v out

  -- At the end of the stream.
  pub record IsOver (k r : ℕ) (logss : List (List (List A)))
      (out : Option (List (List (List (Option A)))) × Shared A) : Type 0 where
    pub silent : out.0 ≡ none
    pub reported : out.1.ended ≡ true
    pub unmoved : IsShared k r out.1 logss

  consume-IsQuantum :
      (k r : ℕ) (s : Shared A) (logss : List (List (List A))) (now quantum need : ℕ)
      (outputs : List ℕ)
      → (v : IsShared k r s logss) → need < 0x80000000
      → IsQuantum k r need s logss outputs v (consume s now quantum outputs need)
  consume-IsQuantum k r s logss now quantum need outputs v h =
      elim (consume_lem k r s logss now quantum need outputs v h) [
        | inl (a, b, c, e) ↦ inl (record { short = a; silent = b; counted = c; unmoved = e })
        | inr (a, b, c, e) ↦ inr (record { enough = a; frames = b; uncounted = c; moved = e })
      ]

  over :
      (k r : ℕ) (s : Shared A) (logss : List (List (List A)))
      → IsShared k r s logss
      → IsOver k r logss (none, record s { ended = true })
  over k r s logss v = record {
    silent = refl;
    reported = refl;
    unmoved = record {
      small = v.small;
      size = v.size;
      masks = v.masks;
      read_word = v.read_word;
      stems = v.stems;
    };
  }

  -- With rings of 2^k frames, k at most 30, that hold their streams, while playing, with an end
  -- of the stream whose word is below 2^31 and which is fewer than 2^31 frames ahead of the read
  -- count: where no frame is left, process is silent, reports the end and moves no stem; else it
  -- does what a quantum cut off at the end does, which is that it either finds some stem short,
  -- puts nothing out, counts one underrun and moves no stem, or puts out of every stem exactly
  -- the next frames of its channels' streams, none behind the end, and moves all stems on
  -- together.
  pub process-end :
      (k r left : ℕ) (s : Shared A) (logss : List (List (List A))) (now quantum : ℕ)
      (outputs : List ℕ)
      → (v : IsShared k r s logss) → s.play_state ≡ playing
      → left < 0x80000000
      → s.eof_pos ≡ (r + left) % 2 ^ 32
      → s.eof_pos < 0x80000000
      → ((left ≡ 0) × IsOver k r logss (process s now quantum outputs))
        ⊎ ((0 < left)
            × IsQuantum k r (min quantum left) s logss outputs v (process s now quantum outputs))
  unfolding process process_in process_playing until_end
  process-end k r left s logss now quantum outputs v e h f b =
      let below : ltb s.eof_pos 0x80000000 ≡ true = ground arith in
      let ahead : sub_word s.eof_pos s.read_pos ≡ pos left =
        ap₂ sub_word f v.read_word ∙ sub_word_lem r left h in
      let runs : process s now quantum outputs ≡ until_end s now quantum outputs (pos left) =
        ap (λ st. process_in st s now quantum outputs) e ∙ rw (below, ahead) refl in
      go left runs h
    where
      go :
          (n : ℕ)
          → process s now quantum outputs ≡ until_end s now quantum outputs (pos n)
          → n < 0x80000000
          → ((n ≡ 0) × IsOver k r logss (process s now quantum outputs))
            ⊎ ((0 < n)
                × IsQuantum k r (min quantum n) s logss outputs v (process s now quantum outputs))
      go zero q l = inl (refl, subst (IsOver k r logss) (sym q) (over k r s logss v))
      go (suc n) q l = inr (
        omega arith,
        subst (IsQuantum k r (min quantum (suc n)) s logss outputs v) (sym q) (
            consume-IsQuantum k r s logss now quantum (min quantum (suc n)) outputs v
              (omega arith)),
      )
