-- ===== src/Lib.antt =====
-- RehearseKit: the web player and the drum editor.
--
-- The program separates a song into stems and plays them in the browser. The parts modelled are
-- the ones under web/src that decide what is heard and what is saved:
--
--   Engine.Plan    web/src/player/engine/chunk-scheduler.ts. `PlayPlan` is the class; `make_plan` its
--                  constructor with `validateLoop`, `song_frame_at` and `next_chunk` its methods,
--                  `byte_range_for` and `should_fetch` the functions of the same names. Every stem of a
--                  song follows the same plan. `walk` is the loop of `tick` in
--                  web/src/player/kit/scheduler.ts, which asks the plan for chunks up to a horizon.
--                  Engine.Number has the JavaScript numbers that the page passes in.
--   Engine.Layout  web/src/player/engine/ring-layout.ts: `create_ring_layout`.
--   Engine.Wav     web/src/player/engine/wav-header.ts: `parse_wav_header` over the bytes of a buffer; `scan` is
--                  its loop.
--   Engine.Range   web/src/player/engine/range-utils.ts: `parse_content_range` and `assert_partial`.
--   Engine.Pcm     web/src/player/engine/pcm-decode.ts: `decode_interleaved`.
--   Engine.Streamer
--                  web/src/player/engine/stem-stream.ts: `Streamer` is the class `StemStreamer` with the requests
--                  that have not ended; `tick`, `restart` and `abort` are its methods, `fetch_chunk` and
--                  `end_fetch` the two halves of `fetchChunk`.
--   Engine.Transport
--                  web/src/player/engine/engine.ts: `Engine` is the transport of `StreamEngine`. Control has
--                  play, stop, seek and the loop, Stream the flush that the worklet acknowledges and the
--                  ticks, Events the machine of both, Session the runs of a page that awaits `init` and
--                  `destroy`. Rings and streamers are the records `RingControl` and
--                  `StreamControl` of the calls that the engine makes.
--   Engine.Gains   the same file: gain, mute, forced mute and exclusive solo, with the gain nodes.
--   Engine.Ring    web/src/player/engine/shared-ring.ts (`write_stem`, `write`, `reset_writers`) and
--                  web/public/stream-processor.js (`process`, `flush`). `Shared` is the control block with
--                  the rings; Stream says what a ring holds, Words how 32-bit positions stand for
--                  counts, Shared.Lockstep and Shared.Quantum what a write and a quantum do.
--   Drums.Types    web/src/lib/drums/types.ts and taxonomy.ts.
--   Drums.Hits     the helpers at the foot of web/src/lib/drums/model.ts.
--   Drums.Search   web/src/player/kit/scheduler.ts: `lower_bound`, and the hits that `queueRange` gets to.
--   Drums.Editor   web/src/lib/drums/model.ts. `EditorState` and `EditorAction` have the source's
--                  fields and cases; `reduce` is `editorReducer`, one `do_` function for each case, in
--                  Selecting, History and Edits; Commit has `commit` and what goes through it.
--   Drums.Autosave web/src/lib/drums/autosave.ts: `Autosave` is the class, with the requests that are open and
--                  the promises that wait. Server has the server as the file's comment states it.
--   Mixer          web/src/lib/mix-state.ts: `mix_reduce` is `mixReducer`, and `sanitize` reads a stored
--                  state, given as what the source tests of it.
--   Claims         web/src/lib/claim-tokens.ts: `remember_claim`, `claim_for` and `forget_claim` over a
--                  storage that may be full or unusable.
--   Common         shared names, Boolean tests, lists and results.
--
-- The plan's chunks are fetched and written to the rings, which the audio thread reads. The editor
-- and the player meet in the kit: the editor's hits are sorted by time, which the kit's search of
-- them relies on, and the kit walks the plan's chunks.
--
-- Numbers. Frames, bytes and counters, the numbers in the ids of manual hits among them, are natural
-- numbers, assumed below 2^53. The time given to `seek` is assumed not to be NaN. Times and
-- velocities are doubles: their type and arithmetic are an instance argument, and the proofs use the
-- laws of an order alone, as IsOrdered states them. Arrays of hits are compared by identity in a
-- gesture, so an array carries the number of its allocation.
--
-- Fuel. `walk` takes one unit for each frame between its start and the horizon, and no chunk is empty,
-- so that is enough; the theorem about it has that bound as a hypothesis.
--
-- `scan` has one unit for each byte of the buffer, and every chunk takes at least 8 bytes: the theorem about
-- the parser shows that it does not run out.
--
-- Environment. Promises, timers and messages are events, in any order that the code allows: a cleared
-- timer does not fire, and an answer comes at most once. Listeners do not call back. The engine ticks
-- only while its interval is set. A request of the streamer ends with its whole response. `init` and
-- `destroy` of the engine are several events, around what they await; the page awaits them, as
-- web/src/player/use-mixer.ts does, and Engine.Transport.Session says which events there are
-- meanwhile. An `init` that throws has changed nothing.
--
-- Samples are of any type. A position in a ring is a bit pattern of 32 bits; a ring has at most 2^30
-- frames.
--
-- Not modelled: the meters, the audio graph, the statistics and resuming a suspended context in
-- web/src/player/engine, the musical grid, the kit's scheduling of hits beyond its walk of the plan
-- and its search of the hits, views and network calls, the servers in Go and Python, and the older
-- front end under frontend.
pub mod Common
pub mod Claims
pub mod Drums
pub mod Engine
pub mod Mixer
