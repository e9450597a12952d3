-- ===== src/Engine/Layout/Examples.antt =====
-- A stereo and a mono stem, with rings of eight frames.
use rehearse_kit.Common.{[], ◌∷◌, ok, err, refl, ◌≡◌}
use rehearse_kit.Engine.Layout.{
  RingLayout, frames_not_power, create_ring_layout, lay_out, channel_offsets, is_power_of_two,
}
use rehearse_kit.Engine.Layout.Regions.{IsLayout, create_ring_layout_lem}

abbrev layout : RingLayout
layout = record {
  ring_frames = 8;
  mask = 7;
  ctrl_byte_offset = 0;
  meter_byte_offset = 64;
  stems =
      record { channels = 2; channel_byte_offsets = 160 ∷ 192 ∷ [] }
      ∷ record { channels = 1; channel_byte_offsets = 224 ∷ [] }
      ∷ [];
  total_bytes = 256;
}

layout_eq : create_ring_layout (2 ∷ 1 ∷ []) 8 ≡ ok layout
unfolding create_ring_layout lay_out channel_offsets is_power_of_two
layout_eq = refl

not_a_power : create_ring_layout (2 ∷ []) 12 ≡ err frames_not_power
unfolding create_ring_layout is_power_of_two
not_a_power = refl

create_ring_layout_lem_example : IsLayout (2 ∷ 1 ∷ []) 8 layout
create_ring_layout_lem_example = create_ring_layout_lem (2 ∷ 1 ∷ []) 8 layout layout_eq
