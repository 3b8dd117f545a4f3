-- ===== src/Graph/Tests.antt =====
-- The graph of two operations.
use ggml_viz.Base.{true, All, List, [], ◌∷◌, none, arith}
use ggml_viz.Event.{Event, op_compute_begin, op_compute_end, op_payload}
use ggml_viz.Trace.Queries.{OpTiming, timing}
use ggml_viz.Graph.Defs.{build_graph_from_trace, assign_depths}
use ggml_viz.Graph.Lanes.{collect_ids, Apart, get_thread_lane-Apart}
use ggml_viz.Graph.Depths.{Placed, assign_depths-Placed}

abbrev begin : Event
begin = record {
  type = op_compute_begin;
  timestamp_ns = 5;
  thread_id = 1;
  payload = op_payload 4096 26 64 0;
  label = none;
}

abbrev op_timing : OpTiming
op_timing = timing begin (record begin { type = op_compute_end; timestamp_ns = 9 })

assign_depths-Placed_example :
    Placed 2 (assign_depths 2 (build_graph_from_trace (op_timing ∷ op_timing ∷ [])))
assign_depths-Placed_example = assign_depths-Placed 2 op_timing (op_timing ∷ []) (omega arith)

abbrev two_threads : List Event
two_threads = begin ∷ record begin { thread_id = 9 } ∷ []

get_thread_lane-Apart_example :
    All (λ e. All (Apart true (collect_ids [] two_threads) e) two_threads) two_threads
get_thread_lane-Apart_example = get_thread_lane-Apart true two_threads
