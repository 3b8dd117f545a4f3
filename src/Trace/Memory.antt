-- ===== src/Trace/Memory.antt =====
-- TraceReader::update_memory_stats (utils/trace_reader.cpp). Counters are uint64_t and wrap.
pub mod Accounts
pub mod Live
pub mod Leaks
pub mod Peak
mod Tests
use ggml_viz.Base.{
  ℕ, ◌+◌, ◌-◌, ◌%◌, ◌^◌, Bool, true, false, List, [], ◌∷◌, Option, none, some, ltb, ◌==◌,
  if◌then◌else◌, lookup, insert, erase, contains, remove, total,
}
use ggml_viz.Event.{EventType, tensor_alloc, tensor_free, Event, memory_ptr, memory_size}

pub record MemoryStats : Type 0 where
  pub total_allocations : ℕ
  pub total_frees : ℕ
  pub bytes_allocated : ℕ
  pub bytes_freed : ℕ
  pub current_usage : ℕ
  pub peak_usage : ℕ
  pub leaked_bytes : ℕ
  pub first_alloc_time : ℕ
  pub last_free_time : ℕ

-- The cached state: `cached_memory_stats_`, `allocations_`, `freed_pointers_`, `current_usage_`.
pub record Memory : Type 0 where
  pub stats : MemoryStats
  pub allocations : List (ℕ × ℕ)
  pub freed_pointers : List ℕ
  pub usage : ℕ

abbrev pub no_stats : MemoryStats
no_stats = record {
  total_allocations = 0;
  total_frees = 0;
  bytes_allocated = 0;
  bytes_freed = 0;
  current_usage = 0;
  peak_usage = 0;
  leaked_bytes = 0;
  first_alloc_time = 0;
  last_free_time = 0;
}

abbrev pub reset_state : Memory
reset_state = record { stats = no_stats; allocations = []; freed_pointers = []; usage = 0 }

abbrev pub add64 : ℕ → ℕ → ℕ
add64 a b = (a + b) % 2 ^ 64

abbrev pub sub64 : ℕ → ℕ → ℕ
sub64 a b = (a + 2 ^ 64 - b) % 2 ^ 64

-- The branch for TENSOR_ALLOC.
unfoldable pub on_alloc : Event → Memory → Memory
on_alloc e m =
    let ptr = memory_ptr e.payload in
    let size = memory_size e.payload in
    let now = add64 m.usage size in
    record {
      stats = record m.stats {
        total_allocations = add64 m.stats.total_allocations 1;
        bytes_allocated = add64 m.stats.bytes_allocated size;
        first_alloc_time =
            if m.stats.first_alloc_time == 0 then e.timestamp_ns else m.stats.first_alloc_time;
        peak_usage = if ltb m.stats.peak_usage now then now else m.stats.peak_usage;
      };
      allocations = insert ptr size m.allocations;
      freed_pointers =
          if contains ptr m.freed_pointers then remove ptr m.freed_pointers else m.freed_pointers;
      usage = now;
    }

-- What a free does to an allocation that is found, or to none (a warning).
unfoldable pub release : ℕ → Option ℕ → Memory → Memory
release ptr none m = m
release ptr (some size) m = record {
  stats = record m.stats { bytes_freed = add64 m.stats.bytes_freed size };
  allocations = erase ptr m.allocations;
  freed_pointers = ptr ∷ m.freed_pointers;
  usage = sub64 m.usage size;
}

-- The branch for TENSOR_FREE. A double free is warned of and skipped.
unfoldable pub on_free : Event → Memory → Memory
on_free e m =
    let ptr = memory_ptr e.payload in
    let counted = record m {
      stats = record m.stats {
        total_frees = add64 m.stats.total_frees 1;
        last_free_time = e.timestamp_ns;
      };
    } in
    if contains ptr m.freed_pointers
    then counted
    else release ptr (lookup ptr m.allocations) counted

unfoldable pub on_type : EventType → Event → Memory → Memory
on_type tensor_alloc e m = on_alloc e m
on_type tensor_free e m = on_free e m
on_type _ e m = m

unfoldable pub on_event : Event → Memory → Memory
on_event e m = on_type e.type e m

-- `for (const auto& event : events_)`
unfoldable pub scan : List Event → Memory → Memory
scan [] m = m
scan (e ∷ es) m = scan es (on_event e m)

-- `for (const auto& pair : allocations_) leaked_bytes += pair.second`
unfoldable pub leaked : List (ℕ × ℕ) → ℕ → ℕ
leaked [] acc = acc
leaked ((ptr, size) ∷ m) acc = leaked m (add64 acc size)

unfoldable pub finish : Memory → MemoryStats
finish m = record m.stats { current_usage = m.usage; leaked_bytes = leaked m.allocations 0 }

-- `get_memory_stats`. The cache holds what this computes, for `events_` never changes after
-- loading.
unfoldable pub get_memory_stats : List Event → MemoryStats
get_memory_stats es = finish (scan es reset_state)
