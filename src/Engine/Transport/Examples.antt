-- ===== src/Engine/Transport/Examples.antt =====
-- A transport over rings that are a read position and a number of frames that are buffered.
use rehearse_kit.Engine.Transport.Starting.{stop-play}
use rehearse_kit.Engine.Transport.Priming.{starts_playing, is_enough}
use rehearse_kit.Engine.Transport.Session.{
  Phase, Awaits, IsSession, last_phase, is_allowed, is_ambient, next_phase,
}
use rehearse_kit.Engine.Transport.Session.Runs.{run_engine-IsSession}
use rehearse_kit.Common.{if◌then◌else◌}
use rehearse_kit.Engine.Transport.Events.{made, is_steady, engine_step}
use rehearse_kit.Engine.Transport.Stream.{flushed}
use rehearse_kit.Engine.Transport.Control.{play, new_engine, seek, stop}
use rehearse_kit.Engine.Transport.Events.{
  EngineEvent, sought, timed_out, acknowledged, rings_moved, run_engine,
}
use rehearse_kit.Engine.Number.{clamp_floor}
use rehearse_kit.Engine.Plan.{straight_plan, validate_loop, make_plan, song_frame_at, choose_plan}
use rehearse_kit.Engine.Plan.Validity.{plan_start, make_plan-IsValid, make_plan-total}
use rehearse_kit.Engine.Transport.Seeking.{Quiet, last_seek_wins}
use rehearse_kit.Engine.Transport.Sound.{IsSound, InFile}
use rehearse_kit.Common.{
  List, [], false, refl, ℕ, ◌∷◌, ◌≡◌, All, Bool, arith, none, ok, some, true, ◌<◌,
}
use rehearse_kit.Engine.Transport.{
  EngineState, RingControl, StreamControl, Engine, pos, is_playing, reaches, PlayPlan, nonneg,
  is_sounding, clamp_frame,
}

pub record Tape : Type 0 where
  pub position : ℕ
  pub filled : ℕ

abbrev tape : RingControl Tape
tape = record {
  set_ring_state = λ t st. t;
  reset_rings = λ t. record { position = 0; filled = 0 };
  set_eof = λ t n. t;
  read_pos = λ t. t.position;
  min_buffered = λ t. pos t.filled;
  has_ended = λ t. false;
}

abbrev silent_stream : StreamControl ℕ
silent_stream = record {
  restart = λ s p g. g;
  abort = λ s. s;
  tick_stream = λ s. s;
  eof_reached = λ s. false;
}

abbrev machine : List (EngineEvent Tape ℕ) → Engine Tape ℕ
machine xs = run_engine tape silent_stream (new_engine tape silent_stream 48000 100) xs

abbrev full : Tape
full = record { position = 70; filled = 400 }

-- Opened, played and closed.
abbrev pressed : List (EngineEvent Tape ℕ)
pressed =
    EngineEvent.init_called
    ∷ made (record { position = 0; filled = 0 }) (0 ∷ [])
    ∷ EngineEvent.resumed
    ∷ sought (pos 500)
    ∷ EngineEvent.pressed_play
    ∷ acknowledged 1
    ∷ rings_moved full
    ∷ EngineEvent.ticked
    ∷ EngineEvent.destroy_called
    ∷ timed_out 1
    ∷ EngineEvent.closed
    ∷ []

pressed-Awaits :
    Awaits tape silent_stream Phase.settled (new_engine tape silent_stream 48000 100) pressed
unfolding Awaits is_allowed is_steady is_ambient next_phase new_engine engine_step
pressed-Awaits =
    (refl, (refl, (refl, (refl, (refl, (refl, (refl, (refl, (refl, (refl, (refl, tt)))))))))))

run_engine-IsSession_example :
    IsSession tape silent_stream
      (last_phase tape silent_stream Phase.settled
        (new_engine tape silent_stream 48000 100)
        pressed)
      (machine pressed)
run_engine-IsSession_example =
    run_engine-IsSession tape silent_stream 48000 100 pressed pressed-Awaits

-- A song of 48000 frames that plays from frame 500.
abbrev engine_in : EngineState → Bool → Engine Tape ℕ
engine_in st sounds = record {
  total_frames = 48000;
  min_fill = 100;
  context = true;
  node = true;
  rings = some full;
  streamers = 1 ∷ [];
  plan = make_plan (nonneg 500 0) 48000 none;
  region = none;
  loop_on = false;
  generation = 1;
  anchor_frame = 500;
  state = st;
  timer = true;
  pending_flush = none;
  message = none;
  audible = sounds;
  posted = [];
}

engine_in-IsSound :
    (st : EngineState) (sounds : Bool)
    → is_playing st ≡ true
    → sounds ≡ is_sounding st
    → IsSound tape silent_stream (engine_in st sounds)
unfolding InFile
engine_in-IsSound st sounds p s = record {
  equipped = λ _. (refl, refl, refl);
  together = refl;
  flushing = λ g q. absurd cc;
  ticking = rw p refl;
  anchored = omega arith;
  looped = λ q. absurd cc;
  in_file = tt;
  sounding = s;
  plan_valid =
      λ p q. (make_plan-IsValid (nonneg 500 0) 48000 none q, (make_plan-total 500 48000 none q).0);
  planned = λ _ _. refl;
}

priming_now : IsSound tape silent_stream (engine_in EngineState.priming false)
unfolding is_playing is_sounding
priming_now = engine_in-IsSound EngineState.priming false refl refl

playing_now : IsSound tape silent_stream (engine_in EngineState.playing true)
unfolding is_playing is_sounding
playing_now = engine_in-IsSound EngineState.playing true refl refl

abbrev late : List (EngineEvent Tape ℕ)
late = acknowledged 1 ∷ EngineEvent.ticked ∷ timed_out 2 ∷ rings_moved full ∷ []

late-Quiet : All (Quiet tape silent_stream 2) late
unfolding Quiet
late-Quiet = (refl, (tt, (tt, (tt, tt))))

is_playing_now : is_playing EngineState.playing ≡ true
unfolding is_playing
is_playing_now = refl

last_seek_wins_example :
    ((run_engine tape silent_stream
        (seek tape silent_stream (engine_in EngineState.playing true) (pos 9000))
        late).audible
      ≡ false)
    × (plan_start
          (flushed tape silent_stream
            (run_engine tape silent_stream
              (seek tape silent_stream (engine_in EngineState.playing true) (pos 9000))
              late)
            2).plan
        ≡ some (clamp_frame (pos 9000) 48000))
last_seek_wins_example =
    last_seek_wins tape silent_stream (engine_in EngineState.playing true) (pos 9000) late
      playing_now is_playing_now late-Quiet

starts_playing_example :
    let s =
      run_engine tape silent_stream
        (engine_in EngineState.priming false)
        (rings_moved full ∷ EngineEvent.ticked ∷ []) in
    (s.state ≡ (
      if is_enough tape silent_stream (engine_in EngineState.priming false) full
      then EngineState.playing
      else EngineState.priming))
    × (s.audible ≡ is_enough tape silent_stream (engine_in EngineState.priming false) full)
starts_playing_example =
    starts_playing tape silent_stream (engine_in EngineState.priming false) full (λ x st. refl)
      priming_now refl refl refl

full_enough : is_enough tape silent_stream (engine_in EngineState.priming false) full ≡ true
unfolding is_enough reaches
full_enough = refl

abbrev plan_500 : PlayPlan
plan_500 = record {
  start_frame = 500;
  total_frames = 48000;
  loop = none;
  prefix_frames = 47500;
  loop_frames = 0;
  stream_length = some 47500;
}

is_plan : make_plan (nonneg 500 0) 48000 none ≡ some plan_500
unfolding make_plan choose_plan straight_plan clamp_floor validate_loop
is_plan = refl

heard_inside : song_frame_at plan_500 70 < 48000
unfolding song_frame_at
heard_inside = omega arith

stop-play_example :
    (e' : Engine Tape ℕ) × (play tape silent_stream
        (stop tape silent_stream (engine_in EngineState.playing true))
      ≡ ok e')
    × (plan_start (flushed tape silent_stream e' 3).plan ≡ some (song_frame_at plan_500 70))
stop-play_example =
    stop-play tape silent_stream (engine_in EngineState.playing true) plan_500 full playing_now refl
      is_plan refl heard_inside
