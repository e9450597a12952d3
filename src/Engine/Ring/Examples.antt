-- ===== src/Engine/Ring/Examples.antt =====
-- A ring of eight frames.
use rehearse_kit.Common.{
  ℕ, List, some, none, true, false, refl, [], ◌∷◌, ◌⊎◌, length, get_elem?, ◌++◌, arith, suc, zero,
  ◌%◌, ◌+◌, ◌-◌, ◌<◌, ◌^◌, ◌≡◌, ◌≤◌, min,
}
use rehearse_kit.Engine.Ring.{Stem, write_channel, read_from}
use rehearse_kit.Engine.Ring.Stream.{IsStream, write_channel-IsStream}
use rehearse_kit.Engine.Ring.Reading.{read_from_lem}
use rehearse_kit.Engine.Ring.Shared.{Shared, playing, consume, process, write_stem, source_for}
use rehearse_kit.Engine.Ring.Shared.Lockstep.{IsStem, write_stem_lem, logged}
use rehearse_kit.Engine.Ring.Shared.Playing.{is_short, all_played}
use rehearse_kit.Engine.Ring.Shared.Quantum.{IsShared, IsOver, IsQuantum, consume_lem, process-end}

abbrev log : List ℕ
log = 10 ∷ 20 ∷ 30 ∷ []

abbrev ring : List ℕ
ring = 10 ∷ 20 ∷ 30 ∷ 0 ∷ 0 ∷ 0 ∷ 0 ∷ 0 ∷ []

ring-IsStream : IsStream (2 ^ 3) 0 ring log
ring-IsStream = record { size = refl; read = omega arith; fits = omega arith; holds = held }
  where
    held : (i : ℕ) → 0 ≤ i → i < 3 → get_elem? ring (i % 2 ^ 3) ≡ get_elem? log i
    held zero h k = refl
    held (suc zero) h k = refl
    held (suc (suc zero)) h k = refl
    held (suc (suc (suc i))) h k = absurd (omega arith)

abbrev stem : Stem ℕ
stem = record { write_pos = 3; channels = ring ∷ [] }

abbrev stem_valid : IsStem 3 0 stem (log ∷ [])
stem_valid = record {
  written = 3;
  at_word = refl;
  behind = omega arith;
  fits = omega arith;
  streams = (ring-IsStream, refl, tt);
}

abbrev block : List ℕ
block = 40 ∷ 50 ∷ []

enough : (c : ℕ) → 2 ≤ length (source_for (block ∷ []) c)
enough zero = omega arith
enough (suc c) = let first : min (suc c) 0 ≡ 0 = omega arith in rw first (omega arith)

write_stem_lem_example :
    ((0 + 2 ^ 3 < 3 + 2)
      × (write_stem (2 ^ 3) (2 ^ 3 - 1) (0 % 2 ^ 32) stem (block ∷ []) 2 ≡ (false, stem)))
    ⊎ ((3 + 2 ≤ 0 + 2 ^ 3)
        × ((st' : Stem ℕ) × (write_stem (2 ^ 3) (2 ^ 3 - 1) (0 % 2 ^ 32) stem (block ∷ []) 2
              ≡ (true, st'))
            × IsStem 3 0 st' (logged 2 (block ∷ []) 0 (log ∷ []))))
write_stem_lem_example =
    write_stem_lem 3 0 2 stem (log ∷ []) (block ∷ []) (omega arith) stem_valid enough

write_channel-IsStream_example :
    IsStream (2 ^ 3) 0 (write_channel (2 ^ 3) 3 2 block ring) (log ++ block)
write_channel-IsStream_example =
    write_channel-IsStream (2 ^ 3) 0 2 block ring log (omega arith) ring-IsStream (omega arith)
      (omega arith)

read_from_lem_example : read_from 7 0 2 ring ≡ some 10 ∷ some 20 ∷ []
read_from_lem_example = read_from_lem 3 0 0 2 ring log ring-IsStream refl (omega arith)

abbrev shared : Shared ℕ
shared = record {
  ring_frames = 8;
  mask = 7;
  play_state = playing;
  read_pos = 0;
  eof_pos = 3;
  ended = false;
  underruns = 0;
  quanta = 0;
  clock = none;
  stems = stem ∷ [];
}

abbrev shared_valid : IsShared 3 0 shared ((log ∷ []) ∷ [])
shared_valid = record {
  small = omega arith;
  size = refl;
  masks = refl;
  read_word = refl;
  stems = (stem_valid, omega arith, tt);
}

consume_lem_example :
    ((is_short 3 0 2 (stem ∷ []) ((log ∷ []) ∷ []) shared_valid.stems ≡ true)
      × ((consume shared 0 2 (1 ∷ []) 2).0 ≡ none)
      × ((consume shared 0 2 (1 ∷ []) 2).1.underruns ≡ (0 + 1) % 2 ^ 32)
      × IsShared 3 0 (consume shared 0 2 (1 ∷ []) 2).1 ((log ∷ []) ∷ []))
    ⊎ ((is_short 3 0 2 (stem ∷ []) ((log ∷ []) ∷ []) shared_valid.stems ≡ false)
        × ((consume shared 0 2 (1 ∷ []) 2).0 ≡ some (all_played 0 2 ((log ∷ []) ∷ []) (1 ∷ [])))
        × ((consume shared 0 2 (1 ∷ []) 2).1.underruns ≡ 0)
        × IsShared 3 (0 + 2) (consume shared 0 2 (1 ∷ []) 2).1 ((log ∷ []) ∷ []))
consume_lem_example =
    consume_lem 3 0 shared ((log ∷ []) ∷ []) 0 2 2 (1 ∷ []) shared_valid (omega arith)

-- The stream ends at frame 3: a quantum of 128 is cut off there.
abbrev three : ℕ
three = 3

process-end_example :
    ((three ≡ 0) × IsOver 3 0 ((log ∷ []) ∷ []) (process shared 0 128 (1 ∷ [])))
    ⊎ ((0 < three)
        × IsQuantum 3 0 3 shared
            ((log ∷ []) ∷ [])
            (1 ∷ [])
            shared_valid
            (process shared 0 128 (1 ∷ [])))
process-end_example =
    process-end 3 0 3 shared ((log ∷ []) ∷ []) 0 128 (1 ∷ []) shared_valid refl (omega arith) refl
      (omega arith)
