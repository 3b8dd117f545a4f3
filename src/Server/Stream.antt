-- ===== src/Server/Stream.antt =====
-- LiveDataCollector and LiveStreamServer (server/live_data_collector.hpp): from the hook's ring to
-- the batches that clients are sent.
use ggml_viz.Base.{ℕ, suc, not, List, [], ◌∷◌, ◌++◌, String, ltb, if◌then◌else◌, length}
use ggml_viz.Event.{
  EventType, graph_compute_begin, graph_compute_end, op_compute_begin, op_compute_end, tensor_alloc,
  tensor_free, barrier_wait, thread_begin, thread_free, unnamed, Event,
}
use ggml_viz.Hook.Defs.{Hook, consume_available_events}

-- `while (event_queue_.size() > 10000) event_queue_.pop();`
unfoldable pub limit_queue : List Event → List Event
limit_queue [] = []
limit_queue (e ∷ q) = let rest = limit_queue q in if ltb 10000 (length (e ∷ q)) then rest else e ∷ q

unfoldable pub handle_new_events : List Event → List Event → List Event
handle_new_events events queue = limit_queue (queue ++ events)

-- One round of the collector's loop: the callback is made only with events.
unfoldable pub collect : Hook → List Event → Hook × List Event
collect h queue =
    let (events, h1) = consume_available_events h in
    if not h.active
    then (h, queue)
    else if ltb 0 (length events)
    then (h1, handle_new_events events queue)
    else (h1, queue)

-- The batch of one client: `size` events are in it already; the events, and the queue after it.
unfoldable pub next_batch_from : ℕ → List Event → List Event × List Event
next_batch_from size [] = ([], [])
next_batch_from size (e ∷ queue) =
    let (events, rest) = next_batch_from (suc size) queue in
    if ltb size 10 then (e ∷ events, rest) else ([], e ∷ queue)

unfoldable pub next_batch : List Event → List Event × List Event
next_batch queue = next_batch_from 0 queue

unfoldable pub get_queue_size : List Event → ℕ
get_queue_size queue = length queue

unfoldable pub event_type_to_string : EventType → String
event_type_to_string graph_compute_begin = "graph_begin"
event_type_to_string graph_compute_end = "graph_end"
event_type_to_string op_compute_begin = "op_begin"
event_type_to_string op_compute_end = "op_end"
event_type_to_string tensor_alloc = "tensor_alloc"
event_type_to_string tensor_free = "tensor_free"
event_type_to_string barrier_wait = "barrier_wait"
event_type_to_string thread_begin = "thread_begin"
event_type_to_string thread_free = "thread_free"
event_type_to_string (unnamed b) = "unknown"
