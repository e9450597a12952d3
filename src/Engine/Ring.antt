-- ===== src/Engine/Ring.antt =====
-- web/src/player/engine/shared-ring.ts and web/public/stream-processor.js: the rings that the page
-- writes and the audio thread reads. Words of the control block are Int32: they are kept as their bit
-- patterns, numbers below 2 ^ 32, and read as signed where the source does.
pub mod Copy
pub mod Stream
pub mod Reading
pub mod Words
pub mod Shared
mod Examples
use rehearse_kit.Common.{
  ℕ, List, length, min, take, drop, map, get_elem?, Option, none, some, Bool, [], if◌then◌else◌,
  ltb, set, suc, zero, ◌%◌, ◌+◌, ◌-◌, ◌^◌, ◌∷◌,
}
use Prim.Native.Nat.{bit_and}

-- A signed 32-bit value: `pos n` is n and `negsuc n` is - (n + 1).
pub data ℤ : Type 0 where
  pos negsuc : ℕ → ℤ

abbrev pub word : ℕ
word = 2 ^ 32

-- `x | 0` of a sum, as a bit pattern; and the number that a pattern stands for.
abbrev pub to_word : ℕ → ℕ
to_word n = n % 2 ^ 32

unfoldable pub to_signed : ℕ → ℤ
to_signed n = if ltb n 0x80000000 then pos n else negsuc (0xffffffff - n)

-- `(a - b) | 0`
unfoldable pub sub_word : ℕ → ℕ → ℤ
unfolding to_signed
sub_word a b = to_signed ((a + 2 ^ 32 - b) % 2 ^ 32)

-- One stem: its write position and a ring for each channel.
pub record Stem (A : Type 0) : Type 0 where
  pub write_pos : ℕ
  pub channels : List (List A)

-- `frames > ringFrames - buffered`, without the subtraction.
unfoldable pub lacks_room : ℕ → ℕ → ℤ → Bool
lacks_room frames ring_frames (pos n) = ltb ring_frames (frames + n)
lacks_room frames ring_frames (negsuc n) = ltb (ring_frames + n + 1) frames

module _ {A : Type 0} where
  -- `ring.set(src, start)`
  unfoldable pub copy_at : ℕ → List A → List A → List A
  copy_at start [] ring = ring
  copy_at start (x ∷ src) ring = copy_at (start + 1) src (set ring start x)

  -- One channel of `write`: up to the end of the ring, and the rest from its start.
  unfoldable pub write_channel : ℕ → ℕ → ℕ → List A → List A → List A
  write_channel ring_frames start frames src ring =
      let first = min frames (ring_frames - start) in
      let ring1 = copy_at start (take first src) ring in
      if ltb first frames then copy_at 0 (drop first (take frames src)) ring1 else ring1

  -- `dst[k] = ring[(r + k) & mask]` for k below `need`. The index is inside the ring; outside it the
  -- source would read undefined.
  unfoldable pub read_from : ℕ → ℕ → ℕ → List A → List (Option A)
  read_from mask r zero ring = []
  read_from mask r (suc need) ring =
      get_elem? ring (bit_and r mask) ∷ read_from mask (r + 1) need ring
