-- ===== src/Engine/Ring/Shared/Lockstep.antt =====
-- The rings as queues: what the page writes to the stems comes out in order, and of every stem the
-- same frames at the same time.
use rehearse_kit.Engine.Ring.{to_word}
use native.Mathlib.Nat.{mod-add-mod}
use Prim.Native.Nat.{bit_and}
use rehearse_kit.Common.{
  bit_and_low, two_pow_pos, ltb→lt, ltb→le, Bool-cases, ltb, inl, inr, ap, subst, sym, refl, true,
  false, ℕ, List, length, take, [], arith, false, length-append, length-take, subst, true, ◌%◌,
  ◌++◌, ◌+◌, ◌-◌, ◌<◌, ◌^◌, ◌∷◌, ◌≡◌, ◌≤◌, ◌⊎◌, ◌∙◌,
}
use rehearse_kit.Engine.Ring.{Stem, write_channel, sub_word, lacks_room}
use rehearse_kit.Engine.Ring.Stream.{IsStream, write_channel-IsStream}
use rehearse_kit.Engine.Ring.Words.{lacks_room_lem, word-mod, ring_small}
use rehearse_kit.Engine.Ring.Shared.{write_channels, write_stem, source_for}

module _ {A : Type 0} where
  -- The channels of a stem against all that was ever written to them: `w` frames each.
  abbrev pub AllStreams : ℕ → ℕ → ℕ → List (List A) → List (List A) → Type 0
  AllStreams n r w [] [] = Unit {0}
  AllStreams n r w (ring ∷ rings) (xs ∷ logs) =
      IsStream n r ring xs × (length xs ≡ w) × AllStreams n r w rings logs
  AllStreams n r w _ _ = ⊥

  pub record IsStem (k r : ℕ) (st : Stem A) (logs : List (List A)) : Type 0 where
    pub written : ℕ
    pub at_word : st.write_pos ≡ written % 2 ^ 32
    pub behind : r ≤ written
    pub fits : written ≤ r + 2 ^ k
    pub streams : AllStreams (2 ^ k) r written st.channels logs

  -- The logs behind a write.
  abbrev pub logged : ℕ → List (List A) → ℕ → List (List A) → List (List A)
  logged frames planar c [] = []
  logged frames planar c (xs ∷ logs) =
      (xs ++ take frames (source_for planar c)) ∷ logged frames planar (c + 1) logs

  write_channels-AllStreams :
      (n r w frames : ℕ) (planar : List (List A))
      → 0 < n
      → w + frames ≤ r + n
      → ((c : ℕ) → frames ≤ length (source_for planar c))
      → (c : ℕ) (rings logs : List (List A)) → AllStreams n r w rings logs
      → AllStreams n r
          (w + frames)
          (write_channels n (w % n) frames planar c rings)
          (logged frames planar c logs)
  unfolding write_channels
  write_channels-AllStreams n r w frames planar p room enough c [] [] h = tt
  write_channels-AllStreams n r w frames planar p room enough c [] (xs ∷ logs) h = absurd h
  write_channels-AllStreams n r w frames planar p room enough c (ring ∷ rings) [] h = absurd h
  write_channels-AllStreams n r w frames planar p room enough c (ring ∷ rings) (xs ∷ logs)
        (v, e, h) =
      let src = source_for planar c in
      let one : IsStream n r (write_channel n (length xs % n) frames src ring)
          (xs ++ take frames src) =
        write_channel-IsStream n r frames src ring xs p v (enough c) (omega arith) in
      (
        subst (λ x. IsStream n r (write_channel n (x % n) frames src ring) (xs ++ take frames src))
            e one,
        omega (arith, length-append xs (take frames src), length-take frames src, enough c),
        write_channels-AllStreams n r w frames planar p room enough (c + 1) rings logs h,
      )

  module _ (k r frames : ℕ) (st : Stem A) (logs planar : List (List A)) (h : k ≤ 30)
      (v : IsStem k r st logs) (enough : (c : ℕ) → frames ≤ length (source_for planar c)) where
    room_test :
        lacks_room frames (2 ^ k) (sub_word st.write_pos (r % 2 ^ 32))
        ≡ ltb (r + 2 ^ k) (v.written + frames)
    room_test =
        ap (λ x. lacks_room frames (2 ^ k) (sub_word x (r % 2 ^ 32))) v.at_word
        ∙ lacks_room_lem frames (2 ^ k) v.written r (v.written - r) (omega (arith, v))
            (omega (arith, v, ring_small k h))

    abbrev stem_after : Stem A
    stem_after = record {
      write_pos = to_word (st.write_pos + frames);
      channels =
          write_channels (2 ^ k) (bit_and st.write_pos (2 ^ k - 1)) frames planar 0 st.channels;
    }

    stem_after-IsStem :
        v.written + frames ≤ r + 2 ^ k → IsStem k r stem_after (logged frames planar 0 logs)
    stem_after-IsStem room =
        let place : bit_and st.write_pos (2 ^ k - 1) ≡ v.written % 2 ^ k =
          bit_and_low st.write_pos k ∙ (ap (λ x. x % 2 ^ k) v.at_word ∙ word-mod k v.written h) in
        record {
          written = v.written + frames;
          at_word =
              ap (λ x. (x + frames) % 2 ^ 32) v.at_word ∙ mod-add-mod v.written (2 ^ 32) frames;
          behind = omega (arith, v);
          fits = room;
          streams =
              subst
                (λ x.
                  AllStreams (2 ^ k) r (v.written + frames)
                    (write_channels (2 ^ k) x frames planar 0 st.channels)
                    (logged frames planar 0 logs))
                (sym place)
                (write_channels-AllStreams (2 ^ k) r v.written frames planar (two_pow_pos k) room
                  enough 0 st.channels logs v.streams);
        }

    -- With a ring of 2^k frames, k at most 30, that holds its stream, and as many frames given
    -- as asked for, write is refused and changes nothing exactly where the ring lacks room for
    -- the whole block, and else appends the block to the stream of every channel; positions may
    -- have wrapped at 32 bits.
    pub write_stem_lem :
        ((r + 2 ^ k < v.written + frames)
          × (write_stem (2 ^ k) (2 ^ k - 1) (r % 2 ^ 32) st planar frames ≡ (false, st)))
        ⊎ ((v.written + frames ≤ r + 2 ^ k)
            × ((st' : Stem A) × (write_stem (2 ^ k) (2 ^ k - 1) (r % 2 ^ 32) st planar frames
                  ≡ (true, st'))
                × IsStem k r st' (logged frames planar 0 logs)))
    unfolding write_stem
    write_stem_lem = elim (Bool-cases (ltb (r + 2 ^ k) (v.written + frames))) [
      | inl e ↦ inl (ltb→lt _ _ e, rw (room_test ∙ e) refl)
      | inr e ↦
          let room = ltb→le _ _ e in
          inr (room, (stem_after, rw (room_test ∙ e) refl, stem_after-IsStem room))
    ]
