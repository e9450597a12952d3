-- ===== src/Engine/Pcm.antt =====
-- web/src/player/engine/pcm-decode.ts: samples out of the bytes of a range. What the platform does with
-- floats is an argument: `scale v d` is v / d, and `float32` reads the pattern of a float. A typed
-- array on an aligned offset reads the same little-endian patterns as a DataView does.
pub mod Signed
mod Examples
use rehearse_kit.Common.{◌>>=◌, ◌>>◌}
use rehearse_kit.Engine.Wav.{floor_div}
use rehearse_kit.Engine.Ring.{ℤ, pos, negsuc}
use rehearse_kit.Common.{
  Bool, List, Result, [], err, false, get_elem?, if◌then◌else◌, length, ltb, none, not, ok, some,
  suc, throw_if, zero, ℕ, ◌%◌, ◌*◌, ◌+◌, ◌-◌, ◌/◌, ◌==◌, ◌^◌, ◌||◌, ◌∷◌,
}

pub data PcmError : Type 0 where
  few_outputs source_small output_small unsupported_depth out_of_bounds : PcmError

pub record PcmSpec : Type 0 where
  pub channels : ℕ
  pub bits_per_sample : ℕ
  pub is_float : Bool

-- The number that a pattern of `w` bits stands for.
unfoldable pub signed : ℕ → ℕ → ℤ
signed w n = if ltb n (2 ^ (w - 1)) then pos n else negsuc (2 ^ w - 1 - n)

abbrev pub byte_at : List ℕ → ℕ → Result PcmError ℕ
byte_at bytes i = elim (get_elem? bytes i) [ none ↦ err out_of_bounds | some b ↦ ok b ]

-- The little-endian pattern of `n` bytes.
unfoldable pub pattern_at : List ℕ → ℕ → ℕ → Result PcmError ℕ
pattern_at bytes i zero = ok 0
pattern_at bytes i (suc n) = do
  low ← byte_at bytes i
  high ← pattern_at bytes (i + 1) n
  ok (low + high * 2 ^ 8)

-- `((pattern << 8) >> 8)` on 32 bits.
unfoldable pub extend_24 : ℕ → ℤ
extend_24 n = floor_div (signed 32 (n * 2 ^ 8 % 2 ^ 32)) (2 ^ 8)

module _ {A : Type 0} (scale : ℤ → ℕ → A) (float32 : ℕ → A) where
  unfoldable pub sample_of : PcmSpec → ℕ → Result PcmError A
  sample_of spec n =
      if spec.is_float
      then ok (float32 n)
      else (if spec.bits_per_sample == 16
          then ok (scale (signed 16 n) 32768)
          else (if spec.bits_per_sample == 24
              then ok (scale (extend_24 n) 8388608)
              else (if spec.bits_per_sample == 32
                  then ok (scale (signed 32 n) 2147483648)
                  else err unsupported_depth)))

  -- The bytes that one sample is read from: a float is read as four.
  abbrev pub width : PcmSpec → ℕ
  width spec = if spec.is_float then 4 else spec.bits_per_sample / 8

  -- The inner loop, from the frame `i` on.
  unfoldable pub decode_channel : PcmSpec → List ℕ → ℕ → ℕ → ℕ → ℕ → Result PcmError (List A)
  decode_channel spec bytes offset c i zero = ok []
  decode_channel spec bytes offset c i (suc frames) = do
    n ← pattern_at bytes (offset + (i * spec.channels + c) * width spec) (width spec)
    sample ← sample_of spec n
    rest ← decode_channel spec bytes offset c (i + 1) frames
    ok (sample ∷ rest)

  unfoldable pub decode_channels :
      PcmSpec → List ℕ → ℕ → ℕ → ℕ → ℕ → Result PcmError (List (List A))
  decode_channels spec bytes offset frames c zero = ok []
  decode_channels spec bytes offset frames c (suc count) = do
    channel ← decode_channel spec bytes offset c 0 frames
    rest ← decode_channels spec bytes offset frames (c + 1) count
    ok (channel ∷ rest)

  -- The test on the outputs that are used.
  unfoldable pub too_short : ℕ → List ℕ → ℕ → Bool
  too_short zero out_lengths frames = false
  too_short (suc count) [] frames = false
  too_short (suc count) (n ∷ out_lengths) frames =
      ltb n frames || too_short count out_lengths frames

  unfoldable pub is_supported : PcmSpec → Bool
  is_supported spec =
      spec.is_float
      || (spec.bits_per_sample == 16)
      || (spec.bits_per_sample == 24)
      || (spec.bits_per_sample == 32)

  -- The samples that are written at `out_offset`, given the lengths of the outputs.
  unfoldable pub decode_interleaved :
      List ℕ → ℕ → ℕ → PcmSpec → List ℕ → ℕ → Result PcmError (List (List A))
  decode_interleaved bytes offset frames spec out_lengths out_offset = do
    throw_if (ltb (length out_lengths) spec.channels) few_outputs
    throw_if (ltb (length bytes * 8) (offset * 8 + frames * spec.channels * spec.bits_per_sample))
        source_small
    throw_if (too_short spec.channels out_lengths (out_offset + frames)) output_small
    throw_if (not (is_supported spec)) unsupported_depth
    decode_channels spec bytes offset frames 0 spec.channels
