-- ===== src/Trace/Memory/Leaks.antt =====
-- When leaked_bytes of update_memory_stats (utils/trace_reader.cpp) is what is still in use.
use ggml_viz.Base.{
  ℕ, ◌+◌, ◌^◌, ◌≤◌, ◌<◌, ◌≡◌, refl, ◌∙◌, ap, inl, inr, List, [], ◌∷◌, ◌++◌, arith, contains, lookup,
  insert, Bool-cases, Option, none, some, total, total-erase, total-insert_new, total-insert_old,
}
use native.Mathlib.Nat.{zero-add}
use ggml_viz.Event.{
  EventType, graph_compute_begin, tensor_alloc, tensor_free, Event, memory_ptr, memory_size,
}
use ggml_viz.Trace.Memory.{
  Memory, reset_state, on_alloc, release, on_free, on_type, on_event, scan, finish, leaked,
  get_memory_stats,
}
use ggml_viz.Trace.Memory.Accounts.{
  requested, requested_by, Balanced, on_type-Balanced, scan-Balanced, reset_state-Balanced,
  leaked-total,
}
use ggml_viz.Trace.Memory.Live.{
  size_after, size_from, lookup-scan, IsTable, on_type-IsTable, reset_state-IsTable, lookup-on_type,
}

-- No alloc names a pointer that is still allocated; `live` says which are at the start.
abbrev pub NoReuse : (ℕ → Option ℕ) → List Event → Type 0
NoReuse live [] = Unit {0}
NoReuse live (e ∷ es) =
    (e.type ≡ tensor_alloc → live (memory_ptr e.payload) ≡ none)
    × NoReuse (λ p. size_after p e.type e (live p)) es

abbrev Exact : Memory → Type 0
Exact m = total m.allocations ≡ m.usage

on_alloc-Exact :
    (e : Event) (n : ℕ) (m : Memory)
    → n + memory_size e.payload < 2 ^ 64
    → Balanced n m
    → lookup (memory_ptr e.payload) m.allocations ≡ none
    → Exact m
    → Exact (on_alloc e m)
unfolding on_alloc
on_alloc-Exact e n m h b new x =
    omega (arith, total-insert_new (memory_ptr e.payload) (memory_size e.payload) m.allocations new)

release-Exact :
    (ptr n : ℕ) (o : Option ℕ) (m : Memory)
    → n < 2 ^ 64
    → Balanced n m
    → lookup ptr m.allocations ≡ o
    → Exact m
    → Exact (release ptr o m)
unfolding release
release-Exact ptr n none m h b e x = x
release-Exact ptr n (some size) m h b e x = omega (arith, total-erase ptr size m.allocations e)

restated :
    {n : ℕ} {m : Memory} {c f : ℕ}
    → Balanced n m
    → Balanced n (record m { stats = record m.stats { total_frees = c; last_free_time = f } })
restated v = ground arith

on_free-Exact :
    (e : Event) (n : ℕ) (m : Memory) → n < 2 ^ 64 → Balanced n m → Exact m → Exact (on_free e m)
unfolding on_free
on_free-Exact e n m h b x = elim (Bool-cases (contains (memory_ptr e.payload) m.freed_pointers)) [
  | inl again ↦ rw again x
  | inr first ↦ rw first (release-Exact (memory_ptr e.payload) n _ _ h (restated b) refl x)
]

on_type-Exact :
    (t : EventType) (e : Event) (n : ℕ) (m : Memory)
    → n + requested_by t e < 2 ^ 64
    → Balanced n m
    → (t ≡ tensor_alloc → lookup (memory_ptr e.payload) m.allocations ≡ none)
    → Exact m
    → Exact (on_type t e m)
unfolding on_type
on_type-Exact tensor_alloc e n m h b new x = on_alloc-Exact e n m h b (new refl) x
on_type-Exact tensor_free e n m h b new x = on_free-Exact e n m (omega arith) b x
on_type-Exact graph_compute_begin e n m h b new x = x
on_type-Exact _ e n m h b new x = x

scan-Exact :
    (es : List Event) (live : ℕ → Option ℕ) (n : ℕ) (m : Memory)
    → n + requested es < 2 ^ 64
    → Balanced n m
    → IsTable m
    → ((p : ℕ) → lookup p m.allocations ≡ live p)
    → NoReuse live es
    → Exact m
    → Exact (scan es m)
unfolding scan on_event
scan-Exact [] live n m h b t same fresh x = x
scan-Exact (e ∷ es) live n m h b t same (new, fresh) x =
    scan-Exact es (λ p. size_after p e.type e (live p)) (n + requested_by e.type e)
      (on_type e.type e m) (omega arith) (on_type-Balanced e.type e n m (omega arith) b)
      (on_type-IsTable e.type e m t)
      (λ p. lookup-on_type p e.type e m t ∙ ap (size_after p e.type e) (same p)) fresh
      (on_type-Exact e.type e n m (omega arith) b (λ q. same (memory_ptr e.payload) ∙ new q) x)

-- Where no alloc names a pointer that is still allocated, leaked_bytes is current_usage (for a
-- trace that asks for less than 2 ^ 64 bytes in all).
pub leaked_bytes-eq-current_usage :
    (es : List Event)
    → requested es < 2 ^ 64
    → NoReuse (λ p. none) es
    → (get_memory_stats es).leaked_bytes ≡ (get_memory_stats es).current_usage
unfolding get_memory_stats finish lookup total
leaked_bytes-eq-current_usage es h fresh =
    let b = scan-Balanced es 0 reset_state (omega arith) reset_state-Balanced in
    let l = leaked-total (scan es reset_state).allocations 0 (omega arith) in
    let x =
      scan-Exact es (λ p. none) 0 reset_state (omega arith) reset_state-Balanced reset_state-IsTable
        (λ p. refl) fresh refl in
    omega arith

scan-append_one :
    (es : List Event) (e : Event) (m : Memory) → scan (es ++ e ∷ []) m ≡ on_event e (scan es m)
unfolding scan
scan-append_one [] e m = refl
scan-append_one (x ∷ es) e m = scan-append_one es e (on_event x m)

on_event-alloc : (e : Event) (m : Memory) → e.type ≡ tensor_alloc → on_event e m ≡ on_alloc e m
unfolding on_event on_type
on_event-alloc e m h = ap (λ t. on_type t e m) h

overwritten :
    (e : Event) (size n : ℕ) (m : Memory)
    → n + memory_size e.payload < 2 ^ 64
    → Balanced n m
    → lookup (memory_ptr e.payload) m.allocations ≡ some size
    → leaked (on_alloc e m).allocations 0 + size ≤ (on_alloc e m).usage
unfolding on_alloc
overwritten e size n m h b p =
    let q = total-insert_old (memory_ptr e.payload) (memory_size e.payload) size m.allocations p in
    omega (
      arith,
      leaked-total (insert (memory_ptr e.payload) (memory_size e.payload) m.allocations) 0
          (omega arith),
    )

-- A trace that ends with an alloc of a pointer whose last event before it was an alloc of `size`
-- bytes: the reported leak is below the reported usage by these bytes at least. No more than 2 ^ 64 - 1
-- bytes are requested in all.
pub leaked_bytes-reuse :
    (es : List Event) (e : Event) (size : ℕ)
    → e.type ≡ tensor_alloc
    → size_from (memory_ptr e.payload) none es ≡ some size
    → requested es + memory_size e.payload < 2 ^ 64
    → let s = get_memory_stats (es ++ e ∷ []) in s.leaked_bytes + size ≤ s.current_usage
unfolding get_memory_stats finish
leaked_bytes-reuse es e size t old h =
    rw (scan-append_one es e reset_state, on_event-alloc e (scan es reset_state) t)
      (overwritten e size _ (scan es reset_state) h
        (rw zero-add at (scan-Balanced es 0 reset_state (omega arith) reset_state-Balanced))
        (lookup-scan (memory_ptr e.payload) es ∙ old))
