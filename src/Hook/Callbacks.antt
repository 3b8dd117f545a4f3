-- ===== src/Hook/Callbacks.antt =====
-- The callbacks of GGMLHook (instrumentation/ggml_hook.cpp): which calls record which event.
use ggml_viz.Base.{
  ℕ, ◌*◌, ◌%◌, ◌^◌, Bool, true, not, List, [], ◌∷◌, Option, none, some, bit_and, contains, length,
  if◌then◌else◌,
}
use ggml_viz.Event.{
  EventType, graph_compute_begin, graph_compute_end, op_compute_begin, op_compute_end, tensor_alloc,
  tensor_free, Event, op_payload, graph_payload, memory_payload,
}
use ggml_viz.Config.Defs.{Config}
use ggml_viz.Hook.Defs.{Hook, record_event, flush_to_file}

-- A C++ `int`: `negsuc n` is -(n + 1).
pub data ℤ : Type 0 where
  pos : ℕ → ℤ
  negsuc : ℕ → ℤ

-- The enumerators of `ggml_type` that the source names; any other is `other`.
pub data GgmlType : Type 0 where
  f32 f16 q4_0 q4_1 q5_0 q5_1 q8_0 q8_1 i8 i16 i32 other : GgmlType

-- What the hook reads of a `ggml_tensor` of the ggml library: its address, the four extents as
-- size_t, the element type, the operation and the name.
pub record Tensor : Type 0 where
  pub address : ℕ
  pub ne0 : ℕ
  pub ne1 : ℕ
  pub ne2 : ℕ
  pub ne3 : ℕ
  pub element : GgmlType
  pub op : ℕ
  pub name : List ℕ

-- What it reads of a `ggml_cgraph`: a node or leaf may be a null pointer.
pub record Graph : Type 0 where
  pub address : ℕ
  pub nodes : List (Option Tensor)
  pub leafs : List (Option Tensor)

-- The clock and the thread at the time of a call: get_timestamp_ns and the hash of the thread's id.
pub record Moment : Type 0 where
  pub now : ℕ
  pub thread_hash : ℕ

unfoldable pub get_thread_id : Moment → ℕ
get_thread_id t = bit_and t.thread_hash 0xFFFF_FFFF

unfoldable pub element_size : GgmlType → ℕ
element_size f32 = 4
element_size f16 = 2
element_size q4_0 = 1
element_size q4_1 = 1
element_size q5_0 = 1
element_size q5_1 = 1
element_size q8_0 = 1
element_size q8_1 = 1
element_size i8 = 1
element_size i16 = 2
element_size i32 = 4
element_size other = 4

abbrev mul64 : ℕ → ℕ → ℕ
mul64 a b = a * b % 2 ^ 64

unfoldable pub total_elements : Tensor → ℕ
total_elements t = mul64 (mul64 (mul64 (mul64 1 t.ne0) t.ne1) t.ne2) t.ne3

unfoldable pub nbytes_simple : Option Tensor → ℕ
nbytes_simple none = 0
nbytes_simple (some t) = mul64 (total_elements t) (element_size t.element)

-- `(graph != nullptr) ? graph->n_nodes : 0`
unfoldable pub node_count : Option Graph → ℕ
node_count none = 0
node_count (some g) = length g.nodes

unfoldable pub graph_address : Option Graph → ℕ
graph_address none = 0
graph_address (some g) = g.address

-- `n_threads < 0 ? 0 : static_cast<uint32_t>(n_threads)`
unfoldable pub thread_count : ℤ → ℕ
thread_count (pos n) = n % 2 ^ 32
thread_count (negsuc n) = 0

unfoldable pub graph_event : EventType → Moment → Option Graph → ℕ → ℤ → Event
graph_event type t g backend n_threads = record {
  type = type;
  timestamp_ns = t.now;
  thread_id = get_thread_id t;
  payload =
      graph_payload (graph_address g) (node_count g % 2 ^ 32) (thread_count n_threads) backend;
  label = none;
}

unfoldable pub on_graph_compute_begin : Config → Moment → Option Graph → ℕ → ℤ → Hook → Hook
on_graph_compute_begin c t g backend n_threads h =
    if not h.active
    then h
    else if not c.instrumentation.enable_op_timing
    then h
    else record_event c (graph_event graph_compute_begin t g backend n_threads) h

-- With file output the ring is flushed after every graph.
unfoldable pub flush_graph : Config → Hook → Hook
flush_graph c h = if c.output.write_to_file then flush_to_file h else h

unfoldable pub on_graph_compute_end : Config → Moment → Option Graph → ℕ → ℤ → Hook → Hook
on_graph_compute_end c t g backend n_threads h =
    if not h.active
    then h
    else if not c.instrumentation.enable_op_timing
    then h
    else flush_graph c (record_event c (graph_event graph_compute_end t g backend n_threads) h)

-- An empty list of operations traces all.
unfoldable pub is_traced : List ℕ → ℕ → Bool
is_traced [] op = true
is_traced (x ∷ xs) op = contains op (x ∷ xs)

unfoldable pub label_of : Config → Tensor → Option (List ℕ)
label_of c x = if c.instrumentation.record_tensor_names then some x.name else none

unfoldable pub op_event : Config → EventType → Moment → Tensor → ℕ → Event
op_event c type t x backend = record {
  type = type;
  timestamp_ns = t.now;
  thread_id = get_thread_id t;
  payload = op_payload x.address x.op (nbytes_simple (some x)) backend;
  label = label_of c x;
}

-- The part that the two callbacks on operations share, behind the null test.
unfoldable pub record_op : Config → EventType → Moment → Option Tensor → ℕ → Hook → Hook
record_op c type t none backend h = h
record_op c type t (some x) backend h =
    if is_traced c.instrumentation.op_types_to_trace x.op
    then record_event c (op_event c type t x backend) h
    else h

unfoldable pub on_op_compute_begin : Config → Moment → Option Tensor → ℕ → Hook → Hook
on_op_compute_begin c t x backend h =
    if not h.active
    then h
    else if not c.instrumentation.enable_op_timing
    then h
    else record_op c op_compute_begin t x backend h

unfoldable pub on_op_compute_end : Config → Moment → Option Tensor → ℕ → Hook → Hook
on_op_compute_end c t x backend h =
    if not h.active
    then h
    else if not c.instrumentation.enable_op_timing
    then h
    else record_op c op_compute_end t x backend h

unfoldable pub memory_event : Config → EventType → Moment → Tensor → ℕ → Event
memory_event c type t x size = record {
  type = type;
  timestamp_ns = t.now;
  thread_id = get_thread_id t;
  payload = memory_payload x.address size;
  label = label_of c x;
}

unfoldable pub record_memory : Config → EventType → Moment → Option Tensor → ℕ → Hook → Hook
record_memory c type t none size h = h
record_memory c type t (some x) size h = record_event c (memory_event c type t x size) h

unfoldable pub on_tensor_alloc : Config → Moment → Option Tensor → ℕ → Hook → Hook
on_tensor_alloc c t x size h =
    if not h.active
    then h
    else if not c.instrumentation.enable_memory_tracking
    then h
    else record_memory c tensor_alloc t x size h

-- The size is not known at a free.
unfoldable pub on_tensor_free : Config → Moment → Option Tensor → Hook → Hook
on_tensor_free c t x h =
    if not h.active
    then h
    else if not c.instrumentation.enable_memory_tracking
    then h
    else record_memory c tensor_free t x 0 h
