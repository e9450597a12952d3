-- ===== src/Engine/Wav/Examples.antt =====
-- A file of 12 bytes, two stereo frames of 16 bits with a placeholder for their size, behind a chunk of odd size.
use rehearse_kit.Engine.Plan.{ByteRange, byte_range_for}
use rehearse_kit.Engine.Wav.Safety.{
  Good, IsFormat, parse_wav_header-Good, audio_layout, byte_range_for-parse,
}
use rehearse_kit.Engine.Wav.{
  WavFormat, parse_wav_header, pos, scan, too_small, scan_chunk, parse_fmt, parse_data, check_fmt,
  resolve_tag, declared_bytes, clamp_bytes, exceeds, whole_frames, floor_div, times, fourcc,
  get_uint32, get_uint16, get_uint8, same_code,
}
use rehearse_kit.Common.{List, [], arith, err, false, ok, refl, some, ℕ, ◌*◌, ◌+◌, ◌<◌, ◌∷◌, ◌≡◌}

abbrev file : List ℕ
file =
    0x52 ∷ 0x49 ∷ 0x46 ∷ 0x46 ∷ 0 ∷ 0 ∷ 0 ∷ 0 ∷ 0x57 ∷ 0x41 ∷ 0x56 ∷ 0x45 ∷ 0x4a ∷ 0x55 ∷ 0x4e
    ∷ 0x4b ∷ 1 ∷ 0 ∷ 0 ∷ 0 ∷ 7 ∷ 0 ∷ 0x66 ∷ 0x6d ∷ 0x74 ∷ 0x20 ∷ 16 ∷ 0 ∷ 0 ∷ 0 ∷ 1 ∷ 0 ∷ 2 ∷ 0
    ∷ 0x80 ∷ 0xbb ∷ 0 ∷ 0 ∷ 0 ∷ 0xee ∷ 2 ∷ 0 ∷ 4 ∷ 0 ∷ 16 ∷ 0 ∷ 0x64 ∷ 0x61 ∷ 0x74 ∷ 0x61 ∷ 0xff
    ∷ 0xff ∷ 0xff ∷ 0xff ∷ 1 ∷ 2 ∷ 3 ∷ 4 ∷ 5 ∷ 6 ∷ 7 ∷ 8 ∷ 9 ∷ []

abbrev stereo : WavFormat
stereo = record {
  fmt = record {
    format_tag = 1;
    channels = 2;
    sample_rate = 48000;
    bits_per_sample = 16;
    block_align = 4;
    is_float = false;
  };
  data_offset = 54;
  data_bytes = pos 8;
  total_frames = pos 2;
}

parsed : parse_wav_header file (some 63) ≡ ok stereo
unfolding parse_wav_header scan scan_chunk parse_fmt parse_data check_fmt resolve_tag declared_bytes
    clamp_bytes exceeds whole_frames floor_div times fourcc get_uint32 get_uint16 get_uint8
    same_code
parsed = refl

no_header : parse_wav_header (0x52 ∷ []) (some 1) ≡ err too_small
unfolding parse_wav_header
no_header = refl

parse_wav_header-Good_example : Good (IsFormat 63) (parse_wav_header file (some 63))
parse_wav_header-Good_example = parse_wav_header-Good file 63 (omega arith)

byte_range_for-parse_example :
    (r : ByteRange) × (byte_range_for (audio_layout stereo) 1 1 ≡ ok r)
    × (r.end + 1 ≡ r.start + 1 * stereo.fmt.block_align)
    × (r.end < 63)
byte_range_for-parse_example =
    byte_range_for-parse file 63 stereo 1 1 (omega arith) parsed (omega arith) (omega arith)
