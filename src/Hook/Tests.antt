-- ===== src/Hook/Tests.antt =====
-- Short traces with few events, and the theorems on the hook at them.
use ggml_viz.Base.{◌≡◌, refl, true, false, List, [], ◌∷◌, ◌++◌, arith, none, some, ℕ}
use ggml_viz.Event.{Event, op_compute_begin, op_compute_end, op_payload}
use ggml_viz.Trace.Format.{trace_header, encode_events}
use ggml_viz.Trace.Reader.{open_trace, valid, events}
use ggml_viz.Config.Defs.{Config, default_config}
use ggml_viz.Config.Manager.{loads}
use ggml_viz.Hook.Defs.{
  Hook, stop, start_with, get_events_size, consume_available_events, record_event, clear_counters,
  push_event, slot, flush_if_due, up_to, copy, store, open_file,
}
use ggml_viz.Hook.Queue.{Call, records, consumes, consumes_until, Log, run, run_log}
use ggml_viz.Hook.Refine.{Refines, run-Refines, start_with-Refines}
use ggml_viz.Hook.Callbacks.{
  pos, Tensor, Graph, Moment, f32, graph_event, op_event, get_thread_id, graph_address, node_count,
  thread_count, nbytes_simple, total_elements, element_size, label_of,
}
use ggml_viz.Hook.Interpose.{
  Original, System, Process, Times, theirs, no_originals, intercept, initialize, install_ggml_hooks,
  found, stored,
}
use ggml_viz.Hook.Allocs.{
  ggml_backend_alloc_ctx_tensors, ggml_backend_alloc_ctx_tensors-records_nothing,
}
use ggml_viz.Hook.Brackets.{TracesAll, compute_events, intercept-written, start_with-Holding}
use ggml_viz.Trace.Queries.{pair_ops}
use ggml_viz.Hook.Profile.{node_timings, intercept-op_timings}
use ggml_viz.Hook.Session.{Closed, record_all, record_all-start-stop, open_trace-record_all}

abbrev blank : Event
blank = record {
  type = op_compute_begin;
  timestamp_ns = 5;
  thread_id = 1;
  payload = op_payload 4096 26 64 0;
  label = none;
}

abbrev ending : Event
ending = record blank { type = op_compute_end; timestamp_ns = 9 }

abbrev idle : Hook
idle = record {
  active = false;
  event_count = 0;
  event_buffer = λ _. blank;
  write_pos = 0;
  read_pos = 0;
  dropped_events = 0;
  output_file = false;
  written = [];
}

abbrev two_events : Config
two_events = record default_config {
  instrumentation = record default_config.instrumentation { max_events = 2 };
}

record_all-start-stop_example :
    Closed
      (stop (record_all two_events (blank ∷ ending ∷ blank ∷ []) (start_with two_events true idle)))
      (blank ∷ ending ∷ [])
record_all-start-stop_example =
    record_all-start-stop two_events (blank ∷ ending ∷ blank ∷ []) idle refl refl (omega arith) refl

open_trace-record_all_example :
    open_trace (
      some
        (stop (
          record_all two_events
            (blank ∷ ending ∷ blank ∷ [])
            (start_with two_events true idle))).written)
    ≡ valid (events (blank ∷ ending ∷ []))
open_trace-record_all_example =
    open_trace-record_all two_events (blank ∷ ending ∷ blank ∷ []) idle refl refl (omega arith) refl
      (omega arith)

-- A viewer on a hook without a file.
abbrev live_config : Config
live_config = record default_config {
  output = record default_config.output { write_to_file = false };
}

abbrev viewing : List Call
viewing = records blank ∷ records ending ∷ consumes_until 6 ∷ consumes ∷ []

abbrev empty_log : Log
empty_log = record { live = true; queue = []; taken = 0; dropped = 0 }

run-viewing :
    (run live_config viewing (start_with live_config true idle)).0
    ≡ [] ∷ [] ∷ (blank ∷ []) ∷ (ending ∷ []) ∷ []
unfolding get_events_size consume_available_events record_event start_with clear_counters push_event
    slot flush_if_due up_to copy store
run-viewing = refl

run-Refines_example :
    ((run live_config viewing (start_with live_config true idle)).0
      ≡ (run_log live_config viewing empty_log).0)
    × Refines live_config
        (run live_config viewing (start_with live_config true idle)).1
        (run_log live_config viewing empty_log).1
run-Refines_example =
    run-Refines live_config viewing (start_with live_config true idle) empty_log refl (omega arith)
      (start_with-Refines live_config idle refl refl refl refl)

-- One graph of two nodes, of which one is null, with an original that returns 3.
abbrev node : Tensor
node = record {
  address = 4096;
  ne0 = 4;
  ne1 = 2;
  ne2 = 1;
  ne3 = 1;
  element = f32;
  op = 26;
  name = [];
}

abbrev small_graph : Graph
small_graph = record { address = 8192; nodes = some node ∷ none ∷ []; leafs = [] }

abbrev moment : Moment
moment = record { now = 12; thread_hash = 3 }

abbrev times : Times
times = record {
  graph_begin = moment;
  node_begin = λ _. moment;
  node_end = λ _. moment;
  graph_end = moment;
}

abbrev compute : Original
compute h = (3, h)

abbrev sys : System
sys = record {
  files = λ _. none;
  env = λ _. none;
  opens = true;
  dlsym = some (λ _. some (theirs compute));
  status_success = 0;
}

abbrev tracing : Process
tracing = record {
  hook = start_with default_config true idle;
  manager = record { config = default_config; loaded = true };
  originals = no_originals;
  hooks_initialized = false;
}

default-TracesAll : TracesAll default_config
default-TracesAll = record { timing = refl; to_file = refl; unfiltered = refl; most = omega arith }

intercept-written_example :
    (intercept sys
      (λ o. o.backend_graph_compute)
      times
      small_graph
      0
      (pos 0)
      tracing).1.hook.written
    ≡ trace_header
      ++ encode_events ([] ++ compute_events default_config times small_graph 0 (pos 0))
unfolding initialize install_ggml_hooks found stored
intercept-written_example =
    intercept-written sys (λ o. o.backend_graph_compute) times small_graph 0 (pos 0) tracing 0 []
      default-TracesAll (omega arith)
      (start_with-Holding default_config idle default-TracesAll refl) (λ h. refl)

intercept-op_timings_example :
    (es : List Event) × (open_trace (
        some
          (intercept sys
            (λ o. o.backend_graph_compute)
            times
            small_graph
            0
            (pos 0)
            tracing).1.hook.written)
      ≡ valid (events es))
    × (pair_ops es [] ≡ node_timings default_config times 0 (some node ∷ none ∷ []) 0)
unfolding initialize install_ggml_hooks found stored graph_event op_event get_thread_id
    graph_address node_count thread_count nbytes_simple total_elements element_size label_of
intercept-op_timings_example =
    intercept-op_timings sys (λ o. o.backend_graph_compute) times small_graph 0 (pos 0) tracing
      default-TracesAll (omega arith)
      (start_with-Holding default_config idle default-TracesAll refl) (λ h. refl) (tt, tt)
      (omega arith)

ggml_backend_alloc_ctx_tensors-records_nothing_example :
    (status : ℕ) × (q : Process) × (ggml_backend_alloc_ctx_tensors sys moment true tracing
      ≡ loads (status, q))
    × (q.hook ≡ tracing.hook)
unfolding initialize install_ggml_hooks found stored start_with open_file clear_counters
ggml_backend_alloc_ctx_tensors-records_nothing_example =
    ggml_backend_alloc_ctx_tensors-records_nothing sys moment true tracing refl (λ h. refl)
