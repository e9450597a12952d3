-- ===== src/Engine/Pcm/Examples.antt =====
-- Two stereo frames of 24 bits.
use rehearse_kit.Common.{arith}
use rehearse_kit.Engine.Pcm.Signed.{extend_24_lem}
use rehearse_kit.Engine.Wav.{floor_div}
use rehearse_kit.Engine.Pcm.{
  PcmSpec, decode_interleaved, decode_channels, decode_channel, sample_of, pattern_at, extend_24,
  signed, floor_div, too_short, is_supported, ℤ, pos, negsuc,
}
use rehearse_kit.Common.{[], false, ok, refl, ◌∷◌, ◌≡◌}

abbrev spec : PcmSpec
spec = record { channels = 2; bits_per_sample = 24; is_float = false }

decoded :
    decode_interleaved {A = ℤ}
      (λ v d. v)
      (λ n. pos n)
      (1 ∷ 0 ∷ 0 ∷ 0xff ∷ 0xff ∷ 0xff ∷ 0 ∷ 0 ∷ 0x80 ∷ 0xff ∷ 0xff ∷ 0x7f ∷ [])
      0
      2
      spec
      (2 ∷ 2 ∷ [])
      0
    ≡ ok ((pos 1 ∷ negsuc 8388607 ∷ []) ∷ (negsuc 0 ∷ pos 8388607 ∷ []) ∷ [])
unfolding decode_interleaved decode_channels decode_channel sample_of pattern_at extend_24 signed
    floor_div too_short is_supported
decoded = refl

extend_24_lem_example : extend_24 0xffff80 ≡ signed 24 0xffff80
extend_24_lem_example = extend_24_lem 0xffff80 (omega arith)
