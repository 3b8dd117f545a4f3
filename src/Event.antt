-- ===== src/Event.antt =====
-- src/instrumentation/ggml_hook.hpp: the event that the hook records and the trace file holds.
use ggml_viz.Base.{ℕ, ◌+◌, ◌*◌, ◌/◌, ◌%◌, ◌^◌, List, Option, Bool, true, false, ◌==◌, if◌then◌else◌}

-- `enum class EventType : uint8_t`. A trace file may hold any byte, so the values that the source
-- does not name are kept as `unnamed`.
pub data EventType : Type 0 where
  graph_compute_begin graph_compute_end op_compute_begin op_compute_end : EventType
  tensor_alloc tensor_free barrier_wait thread_begin thread_free : EventType
  unnamed : ℕ → EventType

unfoldable pub to_byte : EventType → ℕ
to_byte graph_compute_begin = 0
to_byte graph_compute_end = 1
to_byte op_compute_begin = 2
to_byte op_compute_end = 3
to_byte tensor_alloc = 4
to_byte tensor_free = 5
to_byte barrier_wait = 6
to_byte thread_begin = 7
to_byte thread_free = 8
to_byte (unnamed b) = b

unfoldable pub of_byte : ℕ → EventType
of_byte b =
    if b == 0
    then graph_compute_begin
    else if b == 1
    then graph_compute_end
    else if b == 2
    then op_compute_begin
    else if b == 3
    then op_compute_end
    else if b == 4
    then tensor_alloc
    else if b == 5
    then tensor_free
    else if b == 6
    then barrier_wait
    else if b == 7
    then thread_begin
    else if b == 8
    then thread_free
    else unnamed b

-- The union `Event::data` as its 32 bytes on a 64-bit little-endian machine: four words.
pub record Payload : Type 0 where
  pub word0 : ℕ
  pub word1 : ℕ
  pub word2 : ℕ
  pub word3 : ℕ

-- The member `op`: tensor_ptr, op_type (32 bits, and 4 bytes of padding), op_size, backend_ptr.
abbrev pub op_payload : ℕ → ℕ → ℕ → ℕ → Payload
op_payload tensor_ptr op_type op_size backend_ptr = record {
  word0 = tensor_ptr;
  word1 = op_type;
  word2 = op_size;
  word3 = backend_ptr;
}

-- The member `graph`: graph_ptr, n_nodes and n_threads (32 bits each), backend_ptr.
abbrev pub graph_payload : ℕ → ℕ → ℕ → ℕ → Payload
graph_payload graph_ptr n_nodes n_threads backend_ptr = record {
  word0 = graph_ptr;
  word1 = n_nodes + n_threads * 2 ^ 32;
  word2 = backend_ptr;
  word3 = 0;
}

-- The member `memory`: ptr, size.
abbrev pub memory_payload : ℕ → ℕ → Payload
memory_payload ptr size = record { word0 = ptr; word1 = size; word2 = 0; word3 = 0 }

abbrev pub tensor_ptr : Payload → ℕ
tensor_ptr p = p.word0

abbrev pub op_type : Payload → ℕ
op_type p = p.word1 % 2 ^ 32

abbrev pub memory_ptr : Payload → ℕ
memory_ptr p = p.word0

abbrev pub memory_size : Payload → ℕ
memory_size p = p.word1

abbrev pub n_threads : Payload → ℕ
n_threads p = p.word1 / 2 ^ 32

-- `struct Event`. The label is the C string's bytes, `none` for a null pointer.
pub record Event : Type 0 where
  pub type : EventType
  pub timestamp_ns : ℕ
  pub thread_id : ℕ
  pub payload : Payload
  pub label : Option (List ℕ)

-- The tests on `event.type` that the readers make.
abbrev pub is_graph : EventType → Bool
is_graph graph_compute_begin = true
is_graph graph_compute_end = true
is_graph _ = false

abbrev pub is_op : EventType → Bool
is_op op_compute_begin = true
is_op op_compute_end = true
is_op _ = false

abbrev pub is_alloc : EventType → Bool
is_alloc tensor_alloc = true
is_alloc _ = false

abbrev pub is_free : EventType → Bool
is_free tensor_free = true
is_free _ = false
