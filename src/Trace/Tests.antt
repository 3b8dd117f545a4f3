-- ===== src/Trace/Tests.antt =====
-- Small traces, and the theorems on the format at them.
use ggml_viz.Base.{
  ◌+◌, ◌%◌, ◌^◌, List, insert, erase, lookup, ◌≡◌, refl, [], ◌∷◌, ◌++◌, arith, none, some, length,
  take, ◌⊎◌,
}
use ggml_viz.Event.{
  Event, op_compute_end, tensor_alloc, tensor_free, memory_payload, graph_compute_begin,
  op_compute_begin, op_payload, graph_payload,
}
use ggml_viz.Trace.Bytes.{le_bytes}
use ggml_viz.Trace.Format.{
  trace_header, encode_event, encode_events, encode_payload, encode_label, Fits,
}
use ggml_viz.Trace.Reader.{open_trace, load_events, undefined, valid, events}
use ggml_viz.Trace.Total.{load_events_ends}
use ggml_viz.Trace.RoundTrip.{open_trace-encode_events}
use ggml_viz.Trace.Truncated.{open_trace-cut}
use ggml_viz.Trace.Memory.{get_memory_stats}
use ggml_viz.Trace.Queries.{
  timing, pair_ops, pair_op, end_op, get_memory_events, get_alloc_events, get_free_events,
}
use ggml_viz.Trace.Pairing.{paired, pair_ops-paired}
use ggml_viz.Trace.Counts.{get_memory_stats-counts}

abbrev graph_event : Event
graph_event = record {
  type = graph_compute_begin;
  timestamp_ns = 1000;
  thread_id = 7;
  payload = graph_payload 4096 2 0 0;
  label = none;
}

abbrev op_event : Event
op_event = record {
  type = op_compute_begin;
  timestamp_ns = 1500;
  thread_id = 7;
  payload = op_payload 8192 26 64 0;
  label = some (b'm' ∷ b'u' ∷ b'l' ∷ []);
}

graph_event-Fits : Fits graph_event
graph_event-Fits = omega arith

op_event-Fits : Fits op_event
op_event-Fits = omega arith

length-encode_event : length (encode_event op_event) ≡ 53
unfolding encode_event encode_payload encode_label le_bytes
length-encode_event = refl

open_trace-encode_events_example :
    open_trace (some (trace_header ++ encode_events (graph_event ∷ op_event ∷ [])))
    ≡ valid (events (graph_event ∷ op_event ∷ []))
open_trace-encode_events_example =
    open_trace-encode_events (graph_event ∷ op_event ∷ []) (graph_event-Fits, (op_event-Fits, tt))

-- The second event is cut off in its label.
open_trace-cut_example :
    open_trace
      (some (trace_header ++ (encode_events (graph_event ∷ []) ++ take 51 (encode_event op_event))))
    ≡ valid (events (graph_event ∷ []))
unfolding encode_event encode_payload encode_label le_bytes
open_trace-cut_example =
    open_trace-cut (graph_event ∷ []) op_event 51 (graph_event-Fits, tt) op_event-Fits (omega arith)

-- An end without a begin, an operation that is begun again, and its end.
abbrev op_end : Event
op_end = record op_event { type = op_compute_end; timestamp_ns = 2500 }

abbrev op_again : Event
op_again = record op_event { timestamp_ns = 2000 }

abbrev op_trace : List Event
op_trace = op_end ∷ op_event ∷ op_again ∷ graph_event ∷ op_end ∷ op_end ∷ []

pair_ops-op_trace : pair_ops op_trace [] ≡ timing op_again op_end ∷ []
unfolding pair_ops pair_op end_op insert erase lookup
pair_ops-op_trace = refl

pair_ops-paired_example : pair_ops op_trace [] ≡ paired [] op_trace
pair_ops-paired_example = pair_ops-paired op_trace

abbrev memory_trace : List Event
memory_trace =
    record graph_event { type = tensor_alloc; payload = memory_payload 64 16 }
    ∷ record graph_event { type = tensor_free; payload = memory_payload 64 0 }
    ∷ record graph_event { type = tensor_free; payload = memory_payload 64 0 }
    ∷ []

get_memory_stats-counts_example :
    ((get_memory_stats memory_trace).total_allocations % 2 ^ 64
      ≡ length (get_alloc_events memory_trace) % 2 ^ 64)
    × ((get_memory_stats memory_trace).total_frees % 2 ^ 64
        ≡ length (get_free_events memory_trace) % 2 ^ 64)
    × (length (get_memory_events memory_trace)
        ≡ length (get_alloc_events memory_trace) + length (get_free_events memory_trace))
get_memory_stats-counts_example = get_memory_stats-counts memory_trace

-- Six bytes are no event, so nothing is loaded.
load_events_ends_example :
    ((es : List Event) × (load_events (1 ∷ 2 ∷ 3 ∷ 4 ∷ 5 ∷ 6 ∷ []) ≡ events es))
    ⊎ (load_events (1 ∷ 2 ∷ 3 ∷ 4 ∷ 5 ∷ 6 ∷ []) ≡ undefined)
load_events_ends_example = load_events_ends (1 ∷ 2 ∷ 3 ∷ 4 ∷ 5 ∷ 6 ∷ [])
