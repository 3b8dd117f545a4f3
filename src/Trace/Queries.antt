-- ===== src/Trace/Queries.antt =====
-- The queries of TraceReader (utils/trace_reader.cpp) on the loaded events.
use ggml_viz.Base.{
  ℕ, ◌+◌, ◌-◌, ◌%◌, ◌^◌, Bool, ◌&&◌, ◌||◌, List, [], ◌∷◌, ◌++◌, Option, none, some, ◌==◌,
  if◌then◌else◌, lookup, insert, erase,
}
use ggml_viz.Event.{
  EventType, op_compute_begin, op_compute_end, Event, tensor_ptr, op_type, is_graph, is_op,
  is_alloc, is_free,
}

-- The loop that keeps the events with a test.
unfoldable pub select : (Event → Bool) → List Event → List Event
select test [] = []
select test (e ∷ es) = let rest = select test es in if test e then e ∷ rest else rest

unfoldable pub get_graph_events : List Event → List Event
get_graph_events es = select (λ e. is_graph e.type) es

unfoldable pub get_op_events_for_type : ℕ → List Event → List Event
get_op_events_for_type t es = select (λ e. is_op e.type && op_type e.payload == t) es

unfoldable pub get_memory_events : List Event → List Event
get_memory_events es = select (λ e. is_alloc e.type || is_free e.type) es

unfoldable pub get_alloc_events : List Event → List Event
get_alloc_events es = select (λ e. is_alloc e.type) es

unfoldable pub get_free_events : List Event → List Event
get_free_events es = select (λ e. is_free e.type) es

abbrev last_of : Event → List Event → Event
last_of e [] = e
last_of e (x ∷ xs) = last_of x xs

abbrev pub sub64 : ℕ → ℕ → ℕ
sub64 a b = (a + 2 ^ 64 - b) % 2 ^ 64

-- `events_.back()` less `events_.front()`.
unfoldable pub get_total_duration_ns : List Event → ℕ
get_total_duration_ns [] = 0
get_total_duration_ns (e ∷ []) = 0
get_total_duration_ns (e ∷ x ∷ xs) = sub64 (last_of x xs).timestamp_ns e.timestamp_ns

-- TraceReader::OpTiming; the fields `begin` and `end` of the source.
pub record OpTiming : Type 0 where
  pub begin : Event
  pub end : Event
  pub duration_ns : ℕ
  pub name : List ℕ

-- The bytes of "unnamed" for an event without a label.
unfoldable pub name_of : Option (List ℕ) → List ℕ
name_of none = 117 ∷ 110 ∷ 110 ∷ 97 ∷ 109 ∷ 101 ∷ 100 ∷ []
name_of (some label) = label

unfoldable pub timing : Event → Event → OpTiming
timing b e = record {
  begin = b;
  end = e;
  duration_ns = sub64 e.timestamp_ns b.timestamp_ns;
  name = name_of e.label;
}

-- What an end makes of the begin that is found, or of none; and `pending_ops` after it.
unfoldable pub end_op : Event → Option Event → List (ℕ × Event) → List OpTiming × List (ℕ × Event)
end_op e none pending = ([], pending)
end_op e (some b) pending = (timing b e ∷ [], erase (tensor_ptr e.payload) pending)

-- One round of the loop: the timings it appends, and `pending_ops`.
unfoldable pub pair_op : EventType → Event → List (ℕ × Event) → List OpTiming × List (ℕ × Event)
pair_op op_compute_begin e pending = ([], insert (tensor_ptr e.payload) e pending)
pair_op op_compute_end e pending = end_op e (lookup (tensor_ptr e.payload) pending) pending
pair_op _ e pending = ([], pending)

unfoldable pub pair_ops : List Event → List (ℕ × Event) → List OpTiming
pair_ops [] pending = []
pair_ops (e ∷ es) pending =
    let (timings, pending1) = pair_op e.type e pending in timings ++ pair_ops es pending1

-- `sort` is std::sort with the longest duration first.
unfoldable pub get_op_timings : (List OpTiming → List OpTiming) → List Event → List OpTiming
get_op_timings sort es = sort (pair_ops es [])
