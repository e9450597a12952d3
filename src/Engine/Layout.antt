-- ===== src/Engine/Layout.antt =====
-- web/src/player/engine/ring-layout.ts: the byte layout of the shared memory. Channel counts and ring
-- sizes are natural numbers; the source also refuses numbers that are no integers.
pub mod Regions
mod Examples
use rehearse_kit.Common.{
  ℕ, Bool, List, [], ◌∷◌, ◌+◌, ◌-◌, ◌*◌, ◌==◌, ◌&&◌, ◌||◌, not, ltb, length, if◌then◌else◌, Result,
  ok, err, suc, zero,
}
use Prim.Native.Nat.{bit_and}

abbrev pub ctrl_bytes : ℕ
ctrl_bytes = 16 * 4

abbrev pub max_stems : ℕ
max_stems = 16 - 8

abbrev pub max_channels : ℕ
max_channels = 2

abbrev pub meter_bytes : ℕ
meter_bytes = max_stems * 3 * 4

pub record StemLayout : Type 0 where
  pub channels : ℕ
  pub channel_byte_offsets : List ℕ

pub record RingLayout : Type 0 where
  pub ring_frames : ℕ
  pub mask : ℕ
  pub ctrl_byte_offset : ℕ
  pub meter_byte_offset : ℕ
  pub stems : List StemLayout
  pub total_bytes : ℕ

pub data LayoutError : Type 0 where
  frames_not_power stem_count channel_count : LayoutError

unfoldable pub is_power_of_two : ℕ → Bool
is_power_of_two n = ltb 0 n && (bit_and n (n - 1) == 0)

-- The inner loop, with the offset that it leaves.
unfoldable pub channel_offsets : ℕ → ℕ → ℕ → List ℕ × ℕ
channel_offsets frames offset zero = ([], offset)
channel_offsets frames offset (suc count) =
    let rest = channel_offsets frames (offset + frames * 4) count in (offset ∷ rest.0, rest.1)

-- The stems in front of those that are laid out.
abbrev pub with_stem :
    ℕ → List ℕ → Result LayoutError (List StemLayout × ℕ) → Result LayoutError (List StemLayout × ℕ)
with_stem channels offsets (err e) = err e
with_stem channels offsets (ok (stems, offset)) =
    ok (record { channels = channels; channel_byte_offsets = offsets } ∷ stems, offset)

-- The map over the stems, with the offset behind the last.
unfoldable pub lay_out : ℕ → ℕ → List ℕ → Result LayoutError (List StemLayout × ℕ)
lay_out frames offset [] = ok ([], offset)
lay_out frames offset (channels ∷ rest) =
    let here = channel_offsets frames offset channels in
    let behind = lay_out frames here.1 rest in
    if ltb channels 1 || ltb max_channels channels
    then err channel_count
    else with_stem channels here.0 behind

abbrev pub finish : ℕ → Result LayoutError (List StemLayout × ℕ) → Result LayoutError RingLayout
finish frames (err e) = err e
finish frames (ok (stems, offset)) = ok (record {
  ring_frames = frames;
  mask = frames - 1;
  ctrl_byte_offset = 0;
  meter_byte_offset = ctrl_bytes;
  stems = stems;
  total_bytes = offset;
})

unfoldable pub create_ring_layout : List ℕ → ℕ → Result LayoutError RingLayout
create_ring_layout stem_channels frames =
    if not (is_power_of_two frames)
    then err frames_not_power
    else (if (length stem_channels == 0) || ltb max_stems (length stem_channels)
        then err stem_count
        else finish frames (lay_out frames (ctrl_bytes + meter_bytes) stem_channels))
