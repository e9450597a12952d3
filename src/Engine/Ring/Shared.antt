-- ===== src/Engine/Ring/Shared.antt =====
-- web/src/player/engine/shared-ring.ts: `write`, `resetWriters` and the control block; and `process`
-- of web/public/stream-processor.js. The meters, which are sums of floats, are left out.
pub mod Lockstep
pub mod Playing
pub mod Quantum
use rehearse_kit.Common.{
  ℕ, Bool, List, Option, true, false, none, some, length, get_elem?, get_or, set, map, min, ltb, [],
  if◌then◌else◌, suc, zero, ◌+◌, ◌-◌, ◌^◌, ◌∷◌,
}
use rehearse_kit.Engine.Ring.{
  ℤ, pos, negsuc, to_word, sub_word, lacks_room, Stem, write_channel, read_from,
}
use Prim.Native.Nat.{bit_and}

pub data PlayState : Type 0 where
  stopped priming playing : PlayState

pub record Shared (A : Type 0) : Type 0 where
  pub ring_frames : ℕ
  pub mask : ℕ
  pub play_state : PlayState
  pub read_pos : ℕ
  pub eof_pos : ℕ
  pub ended : Bool
  pub underruns : ℕ
  pub quanta : ℕ
  -- `none` where CLOCK_VALID is 0
  pub clock : Option ℕ
  pub stems : List (Stem A)

abbrev pub lt_ℤ : ℤ → ℤ → Bool
lt_ℤ (pos a) (pos b) = ltb a b
lt_ℤ (pos a) (negsuc b) = false
lt_ℤ (negsuc a) (pos b) = true
lt_ℤ (negsuc a) (negsuc b) = ltb b a

module _ {A : Type 0} where
  -- `planar[Math.min(c, planar.length - 1)]`; a caller gives one channel at least.
  abbrev pub source_for : List (List A) → ℕ → List A
  source_for planar c = get_or planar (min c (length planar - 1)) []

  -- The loop over the channels, from the one with index `c`.
  unfoldable pub write_channels : ℕ → ℕ → ℕ → List (List A) → ℕ → List (List A) → List (List A)
  write_channels n start frames planar c [] = []
  write_channels n start frames planar c (ring ∷ rings) =
      write_channel n start frames (source_for planar c) ring
      ∷ write_channels n start frames planar (c + 1) rings

  unfoldable pub write_stem : ℕ → ℕ → ℕ → Stem A → List (List A) → ℕ → Bool × Stem A
  write_stem ring_frames mask read_pos stem planar frames =
      if lacks_room frames ring_frames (sub_word stem.write_pos read_pos) then (false, stem) else (
        true,
        record {
          write_pos = to_word (stem.write_pos + frames);
          channels =
              write_channels ring_frames (bit_and stem.write_pos mask) frames planar 0
                stem.channels;
        },
      )

  -- `write`. `none` is a stem that there is not: the source throws.
  unfoldable pub write : Shared A → ℕ → List (List A) → ℕ → Option (Bool × Shared A)
  write s stem planar frames = elim (get_elem? s.stems stem) [
    | none ↦ none
    | some st ↦
        let (done, st') = write_stem s.ring_frames s.mask s.read_pos st planar frames in
        some (done, record s { stems = set s.stems stem st' })
  ]

  rewound : Stem A → Stem A
  rewound st = record st { write_pos = 0 }

  unfoldable pub reset_writers : Shared A → Shared A
  unfolding rewound
  reset_writers s = record s { stems = map rewound s.stems; eof_pos = 0xffffffff; ended = false }

  -- The message 'flush'.
  unfoldable pub flush : Shared A → Shared A
  flush s = record s { read_pos = 0; ended = false; clock = none }

  -- The loop that finds the least that any stem has buffered.
  unfoldable pub available : ℕ → ℤ → List (Stem A) → ℤ
  available r avail [] = avail
  available r avail (st ∷ stems) =
      let a = sub_word st.write_pos r in available r (if lt_ℤ a avail then a else avail) stems

  unfoldable pub publish_clock : Shared A → ℕ → ℕ → Shared A
  publish_clock s now delay = record s {
    clock = some (to_word (now + delay + 2 ^ 32 - s.read_pos));
  }

  -- One output: `count` channels, from the one with index `c`.
  unfoldable pub read_channels : ℕ → ℕ → ℕ → List (List A) → ℕ → ℕ → List (List (Option A))
  read_channels mask r need rings c zero = []
  read_channels mask r need rings c (suc count) =
      read_from mask r need (get_or rings (if ltb c (length rings) then c else length rings - 1) [])
      ∷ read_channels mask r need rings (c + 1) count

  -- `outputs` has the number of channels of each output. A stem without one is not read.
  unfoldable pub read_stems : ℕ → ℕ → ℕ → List (Stem A) → List ℕ → List (List (List (Option A)))
  read_stems mask r need [] outputs = []
  read_stems mask r need (st ∷ stems) [] = []
  read_stems mask r need (st ∷ stems) (count ∷ outputs) =
      read_channels mask r need st.channels 0 count ∷ read_stems mask r need stems outputs

  -- Behind the tests of the stream's end: `need` frames are to be put out.
  unfoldable pub consume :
      Shared A → ℕ → ℕ → List ℕ → ℕ → Option (List (List (List (Option A)))) × Shared A
  consume s now quantum outputs need =
      if lt_ℤ (available s.read_pos (pos 0x7fffffff) s.stems) (pos need)
      then (none, publish_clock (record s { underruns = to_word (s.underruns + 1) }) now quantum)
      else (
        some (read_stems s.mask s.read_pos need s.stems outputs),
        record (publish_clock s now 0) {
          read_pos = to_word (s.read_pos + need);
          quanta = to_word (s.quanta + 1);
        },
      )

  -- `left` frames of the stream are left.
  unfoldable pub until_end :
      Shared A → ℕ → ℕ → List ℕ → ℤ → Option (List (List (List (Option A)))) × Shared A
  until_end s now quantum outputs (pos zero) = (none, record s { ended = true })
  until_end s now quantum outputs (pos (suc left)) =
      consume s now quantum outputs (min quantum (suc left))
  until_end s now quantum outputs (negsuc n) = (none, record s { ended = true })

  unfoldable pub process_playing :
      Shared A → ℕ → ℕ → List ℕ → Option (List (List (List (Option A)))) × Shared A
  process_playing s now quantum outputs =
      if ltb s.eof_pos 0x80000000
      then until_end s now quantum outputs (sub_word s.eof_pos s.read_pos)
      else consume s now quantum outputs quantum

  -- By the word STATE.
  unfoldable pub process_in :
      PlayState → Shared A → ℕ → ℕ → List ℕ → Option (List (List (List (Option A)))) × Shared A
  process_in playing s now quantum outputs = process_playing s now quantum outputs
  process_in stopped s now quantum outputs = (none, s)
  process_in priming s now quantum outputs = (none, s)

  -- `process`, at the audio thread's frame `now`.
  unfoldable pub process :
      Shared A → ℕ → ℕ → List ℕ → Option (List (List (List (Option A)))) × Shared A
  process s now quantum outputs = process_in s.play_state s now quantum outputs
