-- ===== src/Engine/Streamer/Examples.antt =====
-- A streamer over a ring that is the number of frames in it, of a stem of 10 frames.
use rehearse_kit.Engine.Streamer.Due.{AllDue, Chain}
use rehearse_kit.Engine.Streamer.Flight.{IsFlying, run_stream-IsFlying}
use rehearse_kit.Engine.Streamer.Ending.{end_fetch-superseded}
use rehearse_kit.Common.{List, [], false, none, refl, some, ℕ, ◌+◌, ◌-◌, ◌∷◌, ◌≡◌, Result}
use rehearse_kit.Engine.Ring.{pos, ℤ}
use rehearse_kit.Engine.Streamer.{
  StreamEvent, restarted, fetch_ended, unreachable, StemRing, StreamOptions, PlayPlan, new_streamer,
  Fetch, end_fetch, run_stream, is_current, PcmError, stem_decoder,
}

abbrev counter : StemRing ℕ ℤ
counter = record {
  buffered = λ n. n;
  space = λ n. 100 - n;
  write_ring = λ n samples frames. some (n + frames);
}

abbrev options : StreamOptions
options = record {
  fmt = record { data_offset = 44; block_align = 2; total_frames = 10 };
  spec = record { channels = 1; bits_per_sample = 16; is_float = false };
  chunk_frames = 4;
  first_chunk_frames = 2;
  prefetch_frames = 8;
}

abbrev plain : List ℕ → ℕ → Result PcmError (List (List ℤ))
plain = stem_decoder (λ v d. v) (λ n. pos n) options

abbrev ten : PlayPlan
ten = record {
  start_frame = 0;
  total_frames = 10;
  loop = none;
  prefix_frames = 10;
  loop_frames = 0;
  stream_length = some 10;
}

-- Started, asked for a chunk, started again, and answered too late.
abbrev calls : List StreamEvent
calls =
    restarted ten 1
    ∷ StreamEvent.was_ticked
    ∷ restarted ten 2
    ∷ StreamEvent.was_ticked
    ∷ fetch_ended 0 unreachable
    ∷ []

new_streamer-IsFlying : IsFlying counter options plain (new_streamer 0)
unfolding new_streamer AllDue Chain
new_streamer-IsFlying = record { flagged = refl; all_due = tt; chained = tt }

run_stream-IsFlying_example :
    IsFlying counter options plain (run_stream counter options plain (new_streamer 0) calls)
run_stream-IsFlying_example =
    run_stream-IsFlying counter options plain calls (new_streamer 0) new_streamer-IsFlying

abbrev late : Fetch
late = record {
  controller = 0;
  song_start = 0;
  frames = 2;
  generation = 1;
  range = record { start = 44; end = 47 };
}

late-superseded : is_current (new_streamer {R = ℕ} 0).controller 0 ≡ false
unfolding new_streamer is_current
late-superseded = refl

end_fetch-superseded_example :
    end_fetch counter options plain (new_streamer 0) late unreachable ≡ new_streamer 0
end_fetch-superseded_example =
    end_fetch-superseded counter options plain (new_streamer 0) late unreachable late-superseded
