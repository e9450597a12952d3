-- ===== src/Engine/Wav.antt =====
-- web/src/player/engine/wav-header.ts: the parser of a WAV header. A buffer is the list of its bytes.
-- A read outside it is an error here, as it is in a DataView. Sizes and counts of the data are signed,
-- since the source subtracts an offset from the size of the file.
pub mod Safety
mod Examples
use rehearse_kit.Engine.Ring.{ℤ, pos, negsuc}
use rehearse_kit.Common.{
  Bool, List, Option, Result, [], err, false, get_elem?, if◌then◌else◌, leb, length, ltb, none, not,
  ok, some, suc, throw_if, true, zero, ℕ, ◌%◌, ◌&&◌, ◌*◌, ◌+◌, ◌-◌, ◌/◌, ◌==◌, ◌>>=◌, ◌>>◌, ◌^◌,
  ◌||◌, ◌∷◌,
}

pub data WavHeaderError : Type 0 where
  too_small no_riff no_wave fmt_truncated extensible_truncated bad_tag bad_channels bad_depth
        bad_block bad_rate data_before_fmt size_unknown no_data outside out_of_fuel :
      WavHeaderError

abbrev pub Parsed : Type 0 → Type 0
Parsed A = Result WavHeaderError A

abbrev pub format_pcm : ℕ
format_pcm = 1

abbrev pub format_ieee_float : ℕ
format_ieee_float = 3

abbrev pub format_extensible : ℕ
format_extensible = 0xfffe

-- What the `fmt ` chunk says.
pub record Fmt : Type 0 where
  pub format_tag : ℕ
  pub channels : ℕ
  pub sample_rate : ℕ
  pub bits_per_sample : ℕ
  pub block_align : ℕ
  pub is_float : Bool

pub record WavFormat : Type 0 where
  pub fmt : Fmt
  pub data_offset : ℕ
  pub data_bytes : ℤ
  pub total_frames : ℤ

unfoldable pub get_uint8 : List ℕ → ℕ → Parsed ℕ
get_uint8 bytes i = elim (get_elem? bytes i) [ none ↦ err outside | some b ↦ ok b ]

unfoldable pub get_uint16 : List ℕ → ℕ → Parsed ℕ
get_uint16 bytes i = do
  low ← get_uint8 bytes i
  high ← get_uint8 bytes (i + 1)
  ok (low + high * 2 ^ 8)

unfoldable pub get_uint32 : List ℕ → ℕ → Parsed ℕ
get_uint32 bytes i = do
  low ← get_uint16 bytes i
  high ← get_uint16 bytes (i + 2)
  ok (low + high * 2 ^ 16)

unfoldable pub fourcc : List ℕ → ℕ → Parsed (List ℕ)
fourcc bytes i = do
  a ← get_uint8 bytes i
  b ← get_uint8 bytes (i + 1)
  c ← get_uint8 bytes (i + 2)
  d ← get_uint8 bytes (i + 3)
  ok (a ∷ b ∷ c ∷ d ∷ [])

unfoldable pub same_code : List ℕ → List ℕ → Bool
same_code [] [] = true
same_code (a ∷ xs) (b ∷ ys) = (a == b) && same_code xs ys
same_code _ _ = false

abbrev pub riff_code : List ℕ
riff_code = 0x52 ∷ 0x49 ∷ 0x46 ∷ 0x46 ∷ []

abbrev pub wave_code : List ℕ
wave_code = 0x57 ∷ 0x41 ∷ 0x56 ∷ 0x45 ∷ []

abbrev pub fmt_code : List ℕ
fmt_code = 0x66 ∷ 0x6d ∷ 0x74 ∷ 0x20 ∷ []

abbrev pub data_code : List ℕ
data_code = 0x64 ∷ 0x61 ∷ 0x74 ∷ 0x61 ∷ []

-- The tag of an extensible format stands in its SubFormat.
unfoldable pub resolve_tag : List ℕ → ℕ → ℕ → ℕ → Parsed ℕ
resolve_tag bytes size body tag =
    if tag == format_extensible
    then (throw_if (ltb size 40 || ltb (length bytes) (body + 26)) extensible_truncated
        >> get_uint16 bytes (body + 24))
    else ok tag

-- The tests on the fields. `blockAlign !== (channels * bitsPerSample) / 8` is a test on rationals.
unfoldable pub check_fmt : ℕ → ℕ → ℕ → ℕ → ℕ → Parsed Fmt
check_fmt tag channels sample_rate block_align bits = do
  throw_if (not (tag == format_pcm) && not (tag == format_ieee_float)) bad_tag
  throw_if (ltb channels 1 || ltb 2 channels) bad_channels
  throw_if ((tag == format_ieee_float) && not (bits == 32)) bad_depth
  throw_if ((tag == format_pcm) && not (bits == 16) && not (bits == 24) && not (bits == 32))
      bad_depth
  throw_if (not (block_align * 8 == channels * bits)) bad_block
  throw_if (ltb sample_rate 8000 || ltb 384000 sample_rate) bad_rate
  ok (record {
    format_tag = tag;
    channels = channels;
    sample_rate = sample_rate;
    bits_per_sample = bits;
    block_align = block_align;
    is_float = tag == format_ieee_float;
  })

unfoldable pub parse_fmt : List ℕ → ℕ → ℕ → Parsed Fmt
parse_fmt bytes size body = do
  throw_if (ltb size 16 || ltb (length bytes) (body + 16)) fmt_truncated
  tag ← get_uint16 bytes body
  channels ← get_uint16 bytes (body + 2)
  sample_rate ← get_uint32 bytes (body + 4)
  block_align ← get_uint16 bytes (body + 12)
  bits ← get_uint16 bytes (body + 14)
  resolved ← resolve_tag bytes size body tag
  check_fmt resolved channels sample_rate block_align bits

-- `a - b`
abbrev pub sub_ℤ : ℕ → ℕ → ℤ
sub_ℤ a b = if leb b a then pos (a - b) else negsuc (b - a - 1)

abbrev pub placeholder : ℕ
placeholder = 0xffffffff

unfoldable pub declared_bytes : ℕ → ℕ → Option ℕ → Parsed ℤ
declared_bytes size body file_size =
    if size == placeholder
    then elim file_size [ none ↦ err size_unknown | some n ↦ ok (sub_ℤ n body) ]
    else ok (pos size)

-- `body + dataBytes > fileSize`
unfoldable pub exceeds : ℕ → ℤ → ℕ → Bool
exceeds body (pos n) file_size = ltb file_size (body + n)
exceeds body (negsuc n) file_size = ltb (file_size + n + 1) body

unfoldable pub clamp_bytes : ℕ → ℤ → Option ℕ → ℤ
clamp_bytes body bytes none = bytes
clamp_bytes body bytes (some n) = if exceeds body bytes n then pos (n - body) else bytes

-- `Math.floor(x / d)` and `x * d` for a positive `d`.
unfoldable pub floor_div : ℤ → ℕ → ℤ
floor_div (pos n) d = pos (n / d)
floor_div (negsuc n) d = negsuc (n / d)

unfoldable pub times : ℤ → ℕ → ℤ
times (pos n) d = pos (n * d)
times (negsuc n) d = negsuc ((n + 1) * d - 1)

unfoldable pub whole_frames : Fmt → ℕ → ℤ → WavFormat
whole_frames fmt body bytes = record {
  fmt = fmt;
  data_offset = body;
  data_bytes = times (floor_div bytes fmt.block_align) fmt.block_align;
  total_frames = floor_div bytes fmt.block_align;
}

unfoldable pub parse_data : Option Fmt → ℕ → ℕ → Option ℕ → Parsed WavFormat
parse_data none size body file_size = err data_before_fmt
parse_data (some fmt) size body file_size = do
  bytes ← declared_bytes size body file_size
  ok (whole_frames fmt body (clamp_bytes body bytes file_size))

-- The body of the loop, with the turns after it: skip a chunk with its pad byte.
unfoldable pub scan_chunk :
    (Option Fmt → ℕ → Parsed WavFormat)
    → List ℕ
    → Option ℕ
    → Option Fmt
    → ℕ
    → List ℕ
    → ℕ
    → Parsed WavFormat
scan_chunk again bytes file_size fmt offset id size = elim (same_code id fmt_code) [
  | true ↦ parse_fmt bytes size (offset + 8) >>= λ f. again (some f) (offset + 8 + size + size % 2)
  | false ↦ elim (same_code id data_code) [
    | true ↦ parse_data fmt size (offset + 8) file_size
    | false ↦ again fmt (offset + 8 + size + size % 2)
  ]
]

-- The loop over the chunks from `offset` on.
unfoldable pub scan : ℕ → List ℕ → Option ℕ → Option Fmt → ℕ → Parsed WavFormat
scan zero bytes file_size fmt offset =
    if leb (offset + 8) (length bytes) then err out_of_fuel else err no_data
scan (suc fuel) bytes file_size fmt offset = elim (leb (offset + 8) (length bytes)) [
  | false ↦ err no_data
  | true ↦ do
    id ← fourcc bytes offset
    size ← get_uint32 bytes (offset + 4)
    scan_chunk (scan fuel bytes file_size) bytes file_size fmt offset id size
]

unfoldable pub parse_wav_header : List ℕ → Option ℕ → Parsed WavFormat
parse_wav_header bytes file_size = do
  throw_if (ltb (length bytes) 12) too_small
  riff ← fourcc bytes 0
  throw_if (not (same_code riff riff_code)) no_riff
  wave ← fourcc bytes 8
  throw_if (not (same_code wave wave_code)) no_wave
  scan (length bytes) bytes file_size none 12
