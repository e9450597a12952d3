-- ===== src/Engine/Wav/Safety.antt =====
-- What the header parser returns: it never reads outside the buffer, its loop ends, and the format
-- that it finds lies inside the file.
use rehearse_kit.Engine.Plan.Bytes.{byte_range_for_lem}
use rehearse_kit.Engine.Plan.{AudioLayout, ByteRange, byte_range_for}
use native.Mathlib.Nat.{div-mul-le_self, mul-le-mul}
use rehearse_kit.Engine.Ring.{ℤ, pos, negsuc}
use rehearse_kit.Engine.Wav.{
  Parsed, WavHeaderError, get_uint8, get_uint16, get_uint32, fourcc, Fmt, check_fmt, resolve_tag,
  parse_fmt, WavFormat, whole_frames, declared_bytes, parse_data, scan, bad_tag, format_extensible,
  fmt_truncated, floor_div, clamp_bytes, bad_channels, extensible_truncated, times, exceeds,
  bad_depth, bad_block, bad_rate, format_pcm, placeholder, scan_chunk, format_ieee_float, same_code,
  fmt_code, data_code, parse_wav_header, too_small, no_riff, no_wave, riff_code, wave_code,
}
use rehearse_kit.Common.{
  Bool, List, Option, [], arith, err, false, if_both, inl, inr, length, none, ok, refl, some, suc,
  throw_if, true, zero, ℕ, ◌*◌, ◌+◌, ◌<◌, ◌==◌, ◌>>=◌, ◌>>◌, ◌∷◌, ◌≡◌, ◌≤◌, ◌⊎◌, Bool-cases, leb,
  ltb, not, some_inj, subst, ◌%◌, ◌&&◌, ◌-◌, ◌||◌,
}

-- An error that the source throws.
unfoldable pub Thrown : WavHeaderError → Type 0
Thrown WavHeaderError.outside = ⊥
Thrown WavHeaderError.out_of_fuel = ⊥
Thrown _ = Unit {0}

-- What holds of a value, where there is one.
unfoldable pub Good : {A : Type 0} → (A → Type 0) → Parsed A → Type 0
Good P (ok a) = P a
Good P (err e) = Thrown e

module _ {A B : Type 0} where
  Good-bind :
      (P : A → Type 0) (Q : B → Type 0) (m : Parsed A) (f : A → Parsed B)
      → Good P m
      → ((a : A) → P a → Good Q (f a))
      → Good Q (m >>= f)
  unfolding Good
  Good-bind P Q (ok a) f v k = k a v
  Good-bind P Q (err e) f v k = v

-- Any value will do.
abbrev Any : {A : Type 0} → A → Type 0
Any a = Unit {0}

module _ {B : Type 0} where
  Good-throw :
      (Q : B → Type 0) (b : Bool) (e : WavHeaderError) (m : Parsed B)
      → Good Q (err e)
      → (b ≡ false → Good Q m)
      → Good Q (throw_if b e >> m)
  Good-throw Q true e m v k = v
  Good-throw Q false e m v k = k refl

get_uint8-Good : (bytes : List ℕ) (i : ℕ) → i < length bytes → Good Any (get_uint8 bytes i)
unfolding get_uint8 Good
get_uint8-Good [] i h = absurd (omega arith)
get_uint8-Good (b ∷ bytes) zero h = tt
get_uint8-Good (b ∷ bytes) (suc i) h = get_uint8-Good bytes i (omega arith)

get_uint16-Good : (bytes : List ℕ) (i : ℕ) → i + 1 < length bytes → Good Any (get_uint16 bytes i)
unfolding get_uint16 Good
get_uint16-Good bytes i h =
    Good-bind Any Any _ _ (get_uint8-Good bytes i (omega arith))
      (λ low _. Good-bind Any Any _ _ (get_uint8-Good bytes (i + 1) h) (λ high _. tt))

get_uint32-Good : (bytes : List ℕ) (i : ℕ) → i + 3 < length bytes → Good Any (get_uint32 bytes i)
unfolding get_uint32 Good
get_uint32-Good bytes i h =
    Good-bind Any Any _ _ (get_uint16-Good bytes i (omega arith))
      (λ low _. Good-bind Any Any _ _ (get_uint16-Good bytes (i + 2) (omega arith)) (λ high _. tt))

fourcc-Good : (bytes : List ℕ) (i : ℕ) → i + 3 < length bytes → Good Any (fourcc bytes i)
unfolding fourcc Good
fourcc-Good bytes i h = Good-bind Any Any _ _ (get_uint8-Good bytes i (omega arith)) (λ a _.
    Good-bind Any Any _ _ (get_uint8-Good bytes (i + 1) (omega arith)) (λ b _.
      Good-bind Any Any _ _ (get_uint8-Good bytes (i + 2) (omega arith))
        (λ c _. Good-bind Any Any _ _ (get_uint8-Good bytes (i + 3) h) (λ d _. tt))))

pub record IsFmt (f : Fmt) : Type 0 where
  pub one_or_two : (1 ≤ f.channels) × (f.channels ≤ 2)
  pub depth : (f.bits_per_sample ≡ 16) ⊎ (f.bits_per_sample ≡ 24) ⊎ (f.bits_per_sample ≡ 32)
  pub blocks : f.block_align * 8 ≡ f.channels * f.bits_per_sample
  pub plausible : (8000 ≤ f.sample_rate) × (f.sample_rate ≤ 384000)
  pub float_32 : f.is_float ≡ true → f.bits_per_sample ≡ 32

IsFmt-block : (f : Fmt) → IsFmt f → 2 ≤ f.block_align
IsFmt-block f v = elim v.depth [
  | inl e ↦
      let b : f.block_align * 8 ≡ f.channels * 16 = rw e at v.blocks in omega (arith, v.one_or_two)
  | inr (inl e) ↦
      let b : f.block_align * 8 ≡ f.channels * 24 = rw e at v.blocks in omega (arith, v.one_or_two)
  | inr (inr e) ↦
      let b : f.block_align * 8 ≡ f.channels * 32 = rw e at v.blocks in omega (arith, v.one_or_two)
]

checked-IsFmt :
    (tag channels sample_rate block_align bits : ℕ)
    → (not (tag == format_pcm) && not (tag == format_ieee_float)) ≡ false
    → (ltb channels 1 || ltb 2 channels) ≡ false
    → ((tag == format_ieee_float) && not (bits == 32)) ≡ false
    → ((tag == format_pcm) && not (bits == 16) && not (bits == 24) && not (bits == 32)) ≡ false
    → not (block_align * 8 == channels * bits) ≡ false
    → (ltb sample_rate 8000 || ltb 384000 sample_rate) ≡ false
    → IsFmt (record {
      format_tag = tag;
      channels = channels;
      sample_rate = sample_rate;
      bits_per_sample = bits;
      block_align = block_align;
      is_float = tag == format_ieee_float;
    })
checked-IsFmt tag channels sample_rate block_align bits t c d e b r = record {
  one_or_two = ground arith;
  depth = ground arith;
  blocks = ground arith;
  plausible = ground arith;
  float_32 = λ q. ground arith;
}

check_fmt-Good :
    (tag channels sample_rate block_align bits : ℕ)
    → Good IsFmt (check_fmt tag channels sample_rate block_align bits)
unfolding check_fmt Good Thrown
check_fmt-Good tag channels sample_rate block_align bits = Good-throw IsFmt _ bad_tag _ tt (λ t.
    Good-throw IsFmt _ bad_channels _ tt (λ c. Good-throw IsFmt _ bad_depth _ tt (λ d.
      Good-throw IsFmt _ bad_depth _ tt (λ e. Good-throw IsFmt _ bad_block _ tt (λ b.
        Good-throw IsFmt _ bad_rate (ok _) tt
          (λ r. checked-IsFmt tag channels sample_rate block_align bits t c d e b r))))))

resolve_tag-Good : (bytes : List ℕ) (size body tag : ℕ) → Good Any (resolve_tag bytes size body tag)
unfolding resolve_tag Good Thrown
resolve_tag-Good bytes size body tag =
    if_both (Good Any) (tag == format_extensible) _ _
      (Good-throw Any _ extensible_truncated _ tt
        (λ h. get_uint16-Good bytes (body + 24) (ground arith)))
      tt

parse_fmt-Good : (bytes : List ℕ) (size body : ℕ) → Good IsFmt (parse_fmt bytes size body)
unfolding parse_fmt Good Thrown
parse_fmt-Good bytes size body = Good-throw IsFmt _ fmt_truncated _ tt (λ h.
    let room : body + 16 ≤ length bytes = ground arith in
    Good-bind Any IsFmt _ _ (get_uint16-Good bytes body (omega arith)) (λ tag _.
      Good-bind Any IsFmt _ _ (get_uint16-Good bytes (body + 2) (omega arith)) (λ channels _.
        Good-bind Any IsFmt _ _ (get_uint32-Good bytes (body + 4) (omega arith)) (λ rate _.
          Good-bind Any IsFmt _ _ (get_uint16-Good bytes (body + 12) (omega arith)) (λ block _.
            Good-bind Any IsFmt _ _ (get_uint16-Good bytes (body + 14) (omega arith)) (λ bits _.
              Good-bind Any IsFmt _ _ (resolve_tag-Good bytes size body tag)
                (λ resolved _. check_fmt-Good resolved channels rate block bits)))))))

-- The number that a count which is not negative stands for.
abbrev pub count : ℤ → ℕ
count (pos n) = n
count (negsuc n) = 0

pub record IsFormat (file_size : ℕ) (f : WavFormat) : Type 0 where
  pub valid : IsFmt f.fmt
  pub whole : f.total_frames ≡ pos (count f.total_frames)
  pub bytes : f.data_bytes ≡ pos (count f.total_frames * f.fmt.block_align)
  pub inside : f.data_offset + count f.total_frames * f.fmt.block_align ≤ file_size

whole_frames-IsFormat :
    (fmt : Fmt) (body n file_size : ℕ)
    → IsFmt fmt
    → body + n ≤ file_size
    → IsFormat file_size (whole_frames fmt body (pos n))
unfolding whole_frames floor_div times
whole_frames-IsFormat fmt body n file_size v h = record {
  valid = v;
  whole = refl;
  bytes = refl;
  inside = let k = div-mul-le_self n fmt.block_align in omega arith;
}

-- What is left of a size behind `body`, cut off at the end of the file.
abbrev IsClamped : ℕ → ℕ → ℤ → Type 0
IsClamped body file_size bytes =
    (n : ℕ) × (clamp_bytes body bytes (some file_size) ≡ pos n) × (body + n ≤ file_size)

clamped : (body file_size n : ℕ) → body ≤ file_size → IsClamped body file_size (pos n)
unfolding clamp_bytes exceeds
clamped body file_size n h = elim (Bool-cases (ltb file_size (body + n))) [
  | inl e ↦ rw e (file_size - body, refl, omega arith)
  | inr e ↦ rw e (n, refl, ground arith)
]

clamped_inside :
    (size body file_size : ℕ)
    → body ≤ file_size
    → Good
        (λ bytes.
          (n : ℕ) × (clamp_bytes body bytes (some file_size) ≡ pos n) × (body + n ≤ file_size))
        (declared_bytes size body (some file_size))
unfolding declared_bytes Good
clamped_inside size body file_size h = elim (Bool-cases (size == placeholder)) [
  | inl e ↦
      let whole : leb body file_size ≡ true = ground arith in
      rw (e, whole) (clamped body file_size (file_size - body) h)
  | inr e ↦ rw e (clamped body file_size size h)
]

parse_data-Good :
    (fmt : Option Fmt) (size body file_size : ℕ)
    → body ≤ file_size
    → ((f : Fmt) → fmt ≡ some f → IsFmt f)
    → Good (IsFormat file_size) (parse_data fmt size body (some file_size))
unfolding parse_data Good Thrown
parse_data-Good none size body file_size h v = tt
parse_data-Good (some fmt) size body file_size h v =
    Good-bind {A = ℤ} (IsClamped body file_size) (IsFormat file_size) _ _
      (clamped_inside size body file_size h)
      (λ bytes (n, e, k). rw e (whole_frames-IsFormat fmt body n file_size (v fmt refl) k))

-- The format that has been found, if any.
abbrev Known : Option Fmt → Type 0
Known fmt = (f : Fmt) → fmt ≡ some f → IsFmt f

scan_chunk-Good :
    (again : Option Fmt → ℕ → Parsed WavFormat) (bytes : List ℕ) (file_size : ℕ) (fmt : Option Fmt)
    (offset : ℕ) (id : List ℕ) (size : ℕ)
    → offset + 8 ≤ length bytes
    → length bytes ≤ file_size
    → Known fmt
    → ((fmt' : Option Fmt) (offset' : ℕ)
        → offset + 8 ≤ offset'
        → Known fmt'
        → Good (IsFormat file_size) (again fmt' offset'))
    → Good (IsFormat file_size) (scan_chunk again bytes (some file_size) fmt offset id size)
unfolding scan_chunk Good
scan_chunk-Good again bytes file_size fmt offset id size room l v k =
    elim (Bool-cases (same_code id fmt_code)) [
      | inl e ↦
          rw (Good, e)
            (Good-bind IsFmt (IsFormat file_size) _ _ (parse_fmt-Good bytes size (offset + 8))
              (λ f w.
                k (some f) (offset + 8 + size + size % 2) (omega arith)
                  (λ g q. subst IsFmt (some_inj q) w)))
      | inr e ↦ elim (Bool-cases (same_code id data_code)) [
        | inl d ↦ rw (Good, e, d) (parse_data-Good fmt size (offset + 8) file_size (omega arith) v)
        | inr d ↦ rw (Good, e, d) (k fmt (offset + 8 + size + size % 2) (omega arith) v)
      ]
    ]

scan-Good :
    (fuel : ℕ) (bytes : List ℕ) (file_size : ℕ) (fmt : Option Fmt) (offset : ℕ)
    → length bytes < offset + 8 + fuel
    → length bytes ≤ file_size
    → Known fmt
    → Good (IsFormat file_size) (scan fuel bytes (some file_size) fmt offset)
unfolding scan Good Thrown
scan-Good zero bytes file_size fmt offset h l v =
    let past : leb (offset + 8) (length bytes) ≡ false = ground arith in rw past tt
scan-Good (suc fuel) bytes file_size fmt offset h l v =
    elim (Bool-cases (leb (offset + 8) (length bytes))) [
      | inr e ↦ rw (Good, e) tt
      | inl e ↦
          let room : offset + 8 ≤ length bytes = ground arith in
          rw (Good, e)
            (Good-bind Any (IsFormat file_size) _ _ (fourcc-Good bytes offset (omega arith))
              (λ id _.
                Good-bind Any (IsFormat file_size) _ _
                  (get_uint32-Good bytes (offset + 4) (omega arith))
                  (λ size _.
                    scan_chunk-Good (scan fuel bytes (some file_size)) bytes file_size fmt offset id
                      size room l v
                      (λ fmt' offset' o w.
                        scan-Good fuel bytes file_size fmt' offset' (omega arith) l w))))
    ]

-- Given a buffer no longer than the file, the parser reads nothing outside the buffer and its
-- loop over the chunks ends within one turn for each byte; it throws, or returns a format with
-- one or two channels, a depth of 16, 24 or 32 bits, a block size that fits both, a plausible
-- rate, and whole frames of data that lie inside the file.
pub parse_wav_header-Good :
    (bytes : List ℕ) (file_size : ℕ)
    → length bytes ≤ file_size
    → Good (IsFormat file_size) (parse_wav_header bytes (some file_size))
unfolding parse_wav_header Good Thrown
parse_wav_header-Good bytes file_size l =
    Good-throw (IsFormat file_size) (ltb (length bytes) 12) too_small _ tt (λ h.
      Good-bind Any (IsFormat file_size) _ _ (fourcc-Good bytes 0 (ground arith)) (λ riff _.
        Good-throw (IsFormat file_size) (not (same_code riff riff_code)) no_riff _ tt (λ _.
          Good-bind Any (IsFormat file_size) _ _ (fourcc-Good bytes 8 (ground arith)) (λ wave _.
            Good-throw (IsFormat file_size) (not (same_code wave wave_code)) no_wave _ tt (λ _.
              scan-Good (length bytes) bytes file_size none 12 (omega arith) l
                (λ f q. absurd cc))))))

-- What the streamer reads of the format.
abbrev pub audio_layout : WavFormat → AudioLayout
audio_layout f = record {
  data_offset = f.data_offset;
  block_align = f.fmt.block_align;
  total_frames = count f.total_frames;
}

end_of : (n : ℕ) (r : ByteRange) → r.end + 1 - r.start ≡ n → 1 ≤ n → r.end + 1 ≡ r.start + n
end_of n r z h = omega arith

-- For a header that was parsed from a buffer no longer than the file, and some frames inside the
-- song it describes, byteRangeFor returns a range of exactly frames * blockAlign bytes that ends
-- inside the file.
pub byte_range_for-parse :
    (bytes : List ℕ) (file_size : ℕ) (f : WavFormat) (song_start frames : ℕ)
    → length bytes ≤ file_size
    → parse_wav_header bytes (some file_size) ≡ ok f
    → 0 < frames
    → song_start + frames ≤ count f.total_frames
    → (r : ByteRange) × (byte_range_for (audio_layout f) song_start frames ≡ ok r)
      × (r.end + 1 ≡ r.start + frames * f.fmt.block_align)
      × (r.end < file_size)
unfolding Good
byte_range_for-parse bytes file_size f song_start frames l e p k =
    let v : IsFormat file_size f =
      subst (Good (IsFormat file_size)) e (parse_wav_header-Good bytes file_size l) in
    let b = IsFmt-block f.fmt v.valid in
    let some_bytes : 1 * 1 ≤ frames * f.fmt.block_align = mul-le-mul {m₁ = 1} p (omega arith) in
    elim (byte_range_for_lem (audio_layout f) song_start frames (omega arith)) [
      | inl (r, q, _, _, s, z, i) ↦
          (r, q, end_of (frames * f.fmt.block_align) r z some_bytes, omega (arith, v.inside))
      | inr (inl (q, z)) ↦ absurd (omega arith)
      | inr (inr (q, z)) ↦ absurd (omega arith)
    ]
