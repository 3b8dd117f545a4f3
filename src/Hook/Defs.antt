-- ===== src/Hook/Defs.antt =====
-- The state of GGMLHook (instrumentation/ggml_hook.hpp) and the operations of ggml_hook.cpp on it.
use ggml_viz.Base.{
  ℕ, zero, suc, ◌+◌, ◌-◌, ◌%◌, ◌^◌, Bool, true, false, not, ◌&&◌, List, [], ◌∷◌, ◌++◌, Option, none,
  some, String, bit_and, leb, ◌==◌, if◌then◌else◌, length,
}
use ggml_viz.Event.{Event}
use ggml_viz.Trace.Format.{trace_header, encode_events}
use ggml_viz.Config.Defs.{Config}
use ggml_viz.Config.Env.{Env}
use ggml_viz.Config.Manager.{Manager, Load, loads, throws, Files, load_with_precedence}

-- `write_pos` is the producer's counter and `read_pos` the consumer's. `written` is what the trace
-- file holds that was opened last, and `output_file` whether it is open (`output_file_ !=
-- nullptr`).
pub record Hook : Type 0 where
  pub active : Bool
  pub event_count : ℕ
  pub event_buffer : ℕ → Event
  pub write_pos : ℕ
  pub read_pos : ℕ
  pub dropped_events : ℕ
  pub output_file : Bool
  pub written : List ℕ

abbrev pub buffer_size : ℕ
buffer_size = 65536

-- `i & (BUFFER_SIZE - 1)`
unfoldable pub slot : ℕ → ℕ
slot i = bit_and i (buffer_size - 1)

abbrev pub add64 : ℕ → ℕ → ℕ
add64 a b = (a + b) % 2 ^ 64

-- `event_buffer_[i] = e`
unfoldable pub store : (ℕ → Event) → ℕ → Event → ℕ → Event
store buffer i e j = if j == i then e else buffer j

-- `for (i = from; i < from + n; ++i)` over the ring: the events met, in order.
unfoldable pub copy : (ℕ → Event) → ℕ → ℕ → List Event
copy buffer from zero = []
copy buffer from (suc n) = buffer (slot from) ∷ copy buffer (from + 1) n

-- The loop runs `write_pos - read_pos` rounds, or none where the difference is not positive.
unfoldable pub flush_to_file : Hook → Hook
flush_to_file h =
    let n = h.write_pos - h.read_pos in
    if h.output_file
    then record h {
      written = h.written ++ encode_events (copy h.event_buffer h.read_pos n);
      read_pos = h.read_pos + n;
    }
    else h

unfoldable pub close_file : Hook → Hook
close_file h = if h.output_file then record (flush_to_file h) { output_file = false } else h

unfoldable pub stop : Hook → Hook
stop h = if h.active then close_file (record h { active = false }) else h

-- The four counters that `start` and `reset_stats` clear.
unfoldable pub clear_counters : Hook → Hook
clear_counters h = record h { event_count = 0; write_pos = 0; read_pos = 0; dropped_events = 0 }

unfoldable pub reset_stats : Hook → Hook
reset_stats h = if h.active then h else clear_counters h

-- `fopen(..., "wb")`, and the header.
unfoldable pub open_file : Bool → Hook → Hook
open_file true h = record h { output_file = true; written = trace_header }
open_file false h = record h { output_file = false; active = false }

-- `start` from `config_mgr.get()` on; `opens` is whether `fopen` succeeds.
unfoldable pub start_with : Config → Bool → Hook → Hook
start_with c opens h =
    if not c.instrumentation.enable_op_timing && not c.instrumentation.enable_memory_tracking
    then h
    else if h.active
    then h
    else if c.output.write_to_file
    then open_file opens (clear_counters (record h { active = true }))
    else clear_counters (record h { active = true })

unfoldable pub env_config_path : Option String → String
env_config_path none = ""
env_config_path (some path) = path

-- The configuration is loaded first if none is; loading may throw.
unfoldable pub ensure_loaded : Files → Env → Manager → Load Manager
ensure_loaded files env m =
    if m.loaded
    then loads m
    else load_with_precedence files env "" (env_config_path (env "GGML_VIZ_CONFIG")) "ggml-viz.json"
        m

unfoldable pub start_loaded : Load Manager → Bool → Hook → Load (Manager × Hook)
start_loaded (throws e) opens h = throws e
start_loaded (loads m) opens h = loads (m, start_with m.config opens h)

unfoldable pub start : Files → Env → Bool → Manager → Hook → Load (Manager × Hook)
start files env opens m h = start_loaded (ensure_loaded files env m) opens h

-- `(new_count & 0xFFF) == 0` with file output: a flush every 4096 events.
unfoldable pub flush_if_due : Config → Hook → Hook
flush_if_due c h =
    if c.output.write_to_file && (bit_and h.event_count 0xFFF == 0) then flush_to_file h else h

-- The slot is written, then published, then counted.
unfoldable pub push_event : Config → Event → Hook → Hook
push_event c e h =
    if slot (add64 h.write_pos 1) == slot h.read_pos
    then record h { dropped_events = add64 h.dropped_events 1 }
    else flush_if_due c (record h {
      event_buffer = store h.event_buffer (slot h.write_pos) e;
      write_pos = add64 h.write_pos 1;
      event_count = add64 h.event_count 1;
    })

unfoldable pub record_event : Config → Event → Hook → Hook
record_event c e h =
    if not h.active
    then h
    else if leb c.instrumentation.max_events h.event_count
    then stop h
    else push_event c e h

-- `consume_available_events`: the events and the state after it.
unfoldable pub consume_available_events : Hook → List Event × Hook
consume_available_events h =
    if not h.active
    then ([], h)
    else if (h.write_pos + 2 ^ 64 - h.read_pos) % 2 ^ 64 == 0
    then ([], h)
    else (
      copy h.event_buffer h.read_pos (h.write_pos - h.read_pos),
      record h { read_pos = h.write_pos },
    )

-- The events up to a time, to the first that is later.
unfoldable pub up_to : ℕ → List Event → List Event
up_to t [] = []
up_to t (e ∷ es) = if leb e.timestamp_ns t then e ∷ up_to t es else []

unfoldable pub get_events_size : ℕ → Hook → List Event × Hook
get_events_size t h =
    let events = up_to t (copy h.event_buffer h.read_pos (h.write_pos - h.read_pos)) in
    if not h.active
    then ([], h)
    else (events, record h { read_pos = add64 h.read_pos (length events) })
