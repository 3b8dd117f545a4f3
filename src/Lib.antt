-- ===== src/Lib.antt =====
-- A model of ggml-viz, the profiler for the ggml library, and what is proved of it.
--
-- The program has two halves. A shared library is loaded into a process that uses ggml: it
-- overrides ggml's entry points, records an event for every computation and allocation into a ring
-- buffer, and writes the events to a trace file. A viewer opens such a file, or takes the events
-- from the ring while the process runs, and shows timings and memory use. Configuration comes from
-- defaults, JSON files, the environment and the command line.
--
-- Which file models which part (paths from the repository's root):
--   Event            src/instrumentation/ggml_hook.hpp: EventType and Event. The union of an event is
--                    its four machine words.
--   Trace            the trace file. Trace.Format is the encoding in GGMLHook::start and
--                    GGMLHook::flush_to_file (src/instrumentation/ggml_hook.cpp); Trace.Reader is
--                    TraceReader's constructor and load_events (src/utils/trace_reader.cpp) on the
--                    bytes of a file; Trace.Queries has its queries and get_op_timings; Trace.Memory
--                    is update_memory_stats, with the hash tables as association lists.
--   Config           src/utils/config.hpp and config.cpp: the structs (Defs), merge_from (Merge),
--                    apply_env_overrides with std::stoull (Env), ConfigManager (Manager), to_json and
--                    from_json over the JSON library (Json). Proofs: validation (Validity), the order of
--                    the sources (Precedence), JSON and back (RoundTrip), files in force (Files).
--   Hook             src/instrumentation/ggml_hook.cpp: the record Hook is GGMLHook's state, with one
--                    function for each operation on it (Defs), the callbacks (Callbacks), the overrides
--                    of graph computations (Interpose) and of allocations (Allocs). The other files
--                    are proofs: the ring (Ring), the file (File, Session), the ring against a queue
--                    (Queue, Refine), one intercepted computation (Brackets) and its timings (Profile).
--   Ipc              src/ipc: the ring in shared memory, as calls (Defs), on Windows (Windows),
--                    and as the interleaved steps of a writer and a reader (Steps), with the proofs in
--                    Invariant, Releases, Interleave and Drain.
--   App              src/frontend/imgui_app.cpp: live mode, the watched file, loading (Defs); a frame,
--                    by what it opens, shows and closes (Screen, Menu, Timeline, Panels), with
--                    proofs in Nesting, Frames, Readable, Closing, MenuClosing, Safety and Selection;
--                    what happens in any order (Steps). Proofs on the limit of live events (Limit),
--                    the watched file (Watch, Replaced) and loading (Load).
--   Cli              src/main.cpp: arguments, validation and the mode that main enters (Defs); the two
--                    parsers (Parse) and the start (Start) are proofs.
--   Init             src/instrumentation/ggml_viz_init.cpp: the constructor of the shared library
--                    (Defs), and what it leaves in the trace file (Trace).
--   Graph            src/frontend/imgui_widgets.cpp: the nodes of the graph view and the walk that gives
--                    them their depths (Defs, Depths); the lanes of the timeline (Lanes).
--   Server           src/server/live_data_collector.hpp: the queue and its batches (Stream, Order),
--                    the clients' threads and their count (Clients, Counting), the text of an event
--                    (EventText).
--   Logger           src/utils/logger.hpp and logger.cpp: levels, settings and the printed line (Defs,
--                    Levels), streams and formats (Stream).
--   Base             helpers: tests on numbers and texts, lists measured by native numbers, maps, and
--                    the law that masks with 2 ^ k - 1 is the remainder by 2 ^ k.
-- The parts meet as in the source: the overrides of Hook.Interpose call the callbacks, these call
-- record_event, which writes the bytes of Trace.Format that Trace.Reader reads; start loads the
-- configuration through Config.Manager; Server takes its events by consume_available_events.
--
-- Numbers are natural numbers with the source's wrap-around written out: 64-bit counters, 32-bit
-- positions in shared memory, the 32-bit size of a label's buffer. A write past the end of that
-- buffer is the result `undefined` of the reader.
--
-- Fuel: the loop of load_events has one round for each byte of the file and one more. A round that
-- goes on has read at least one byte, so they suffice for every file. The walk over the graph takes
-- a number of rounds; one for each node is enough.
--
-- What the model takes as given: what getopt_long, std::stoi and std::atoi return, what Dear ImGui
-- answers in a frame, what recv, send and snprintf give, a JSON library with the laws of
-- Config.RoundTrip, the texts of the configuration files, whether fopen and the system calls for
-- shared memory succeed, the environment, the symbols that dlsym finds and what ggml's own
-- functions do to the hook, the clock and the thread's hash at each call, std::sort, and ggml's
-- structs with the fields that the source reads. What the labels of live events read as after their
-- reader has been destroyed is an input of each look at the watched file. Each function of the
-- model is atomic, but for the clients of the live server, whose threads take their steps in any
-- order, and the shared ring: there every byte copied and every store of a counter is a step, and
-- the two processes take theirs in any order. Memory orders weaker than that are not modelled.
--
-- Not modelled: the appearance of the user interface, the sockets of the live server, the platform
-- interposers, and the older collector in src/server/data_collector.cpp.
pub mod Base
pub mod Event
pub mod Trace
pub mod Config
pub mod Hook
pub mod Ipc
pub mod App
pub mod Cli
pub mod Init
pub mod Graph
pub mod Logger
pub mod Server
