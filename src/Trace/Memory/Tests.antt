-- ===== src/Trace/Memory/Tests.antt =====
-- A trace with a double free, and one with a reused pointer; the theorems on memory at them.
use ggml_viz.Base.{
  ℕ, ◌+◌, ◌≡◌, refl, ◌≤◌, List, [], ◌∷◌, arith, none, some, lookup, insert, erase, contains, remove,
}
use ggml_viz.Event.{Event, tensor_alloc, tensor_free, memory_payload}
use ggml_viz.Trace.Memory.{
  reset_state, on_alloc, release, on_free, on_type, on_event, scan, leaked, finish,
  get_memory_stats,
}
use ggml_viz.Trace.Memory.Accounts.{get_memory_stats_balance}
use ggml_viz.Trace.Memory.Live.{lookup-scan}
use ggml_viz.Trace.Memory.Leaks.{NoReuse, leaked_bytes-eq-current_usage, leaked_bytes-reuse}
use ggml_viz.Trace.Memory.Peak.{usage_at, peak_usage-is_maximum}

abbrev alloc_at : ℕ → ℕ → ℕ → Event
alloc_at now ptr size = record {
  type = tensor_alloc;
  timestamp_ns = now;
  thread_id = 1;
  payload = memory_payload ptr size;
  label = none;
}

abbrev free_at : ℕ → ℕ → Event
free_at now ptr = record {
  type = tensor_free;
  timestamp_ns = now;
  thread_id = 1;
  payload = memory_payload ptr 0;
  label = none;
}

-- Two blocks, one of them freed twice.
abbrev double_free : List Event
double_free = alloc_at 10 4096 100 ∷ alloc_at 20 8192 50 ∷ free_at 30 4096 ∷ free_at 40 4096 ∷ []

double_free_stats : get_memory_stats double_free ≡ record {
  total_allocations = 2;
  total_frees = 2;
  bytes_allocated = 150;
  bytes_freed = 100;
  current_usage = 50;
  peak_usage = 150;
  leaked_bytes = 50;
  first_alloc_time = 10;
  last_free_time = 40;
}
unfolding get_memory_stats finish scan on_event on_type on_alloc on_free release leaked lookup
    insert erase contains remove
double_free_stats = refl

get_memory_stats_balance_example :
    let s = get_memory_stats double_free in
    (s.bytes_allocated ≡ 150)
    × (s.current_usage + s.bytes_freed ≡ s.bytes_allocated)
    × (s.leaked_bytes ≤ s.current_usage)
    × (s.current_usage ≤ s.peak_usage)
    × (s.peak_usage ≤ s.bytes_allocated)
get_memory_stats_balance_example = get_memory_stats_balance double_free (omega arith)

peak_usage-is_maximum_example :
    ((k : ℕ) × ((get_memory_stats double_free).peak_usage ≡ usage_at k double_free))
    × ((k : ℕ) → usage_at k double_free ≤ (get_memory_stats double_free).peak_usage)
peak_usage-is_maximum_example = peak_usage-is_maximum double_free (omega arith)

lookup-scan_example : lookup 8192 (scan double_free reset_state).allocations ≡ some 50
lookup-scan_example = lookup-scan 8192 double_free

double_free-NoReuse : NoReuse (λ p. none) double_free
double_free-NoReuse = (λ _. refl, (λ _. refl, (λ h. cc, (λ h. cc, tt))))

leaked_bytes-eq-current_usage_example :
    (get_memory_stats double_free).leaked_bytes ≡ (get_memory_stats double_free).current_usage
leaked_bytes-eq-current_usage_example =
    leaked_bytes-eq-current_usage double_free (omega arith) double_free-NoReuse

-- The block at 4096 is allocated once more with no free in between.
leaked_bytes-reuse_example :
    let s = get_memory_stats (alloc_at 10 4096 100 ∷ alloc_at 20 4096 30 ∷ []) in
    s.leaked_bytes + 100 ≤ s.current_usage
leaked_bytes-reuse_example =
    leaked_bytes-reuse (alloc_at 10 4096 100 ∷ []) (alloc_at 20 4096 30) 100 refl refl (omega arith)
