-- ===== src/Trace/Counts.antt =====
-- The queries of trace_reader.cpp and its memory statistics agree on the numbers of events.
use ggml_viz.Base.{
  ℕ, ◌+◌, ◌%◌, ◌^◌, ◌≡◌, refl, Bool, true, false, ◌||◌, List, [], ◌∷◌, arith, length, Bool-cases,
  inl, inr, Option, none, some, contains,
}
use ggml_viz.Event.{
  EventType, graph_compute_begin, tensor_alloc, tensor_free, Event, memory_ptr, is_alloc, is_free,
}
use ggml_viz.Trace.Memory.{
  Memory, reset_state, add64, on_alloc, on_free, on_type, on_event, scan, release, finish,
  get_memory_stats,
}
use ggml_viz.Trace.Queries.{select, get_memory_events, get_alloc_events, get_free_events}

-- One more event of a kind that the test accepts.
abbrev one_if : Bool → ℕ
one_if true = 1
one_if false = 0

length-select :
    (test : Event → Bool) (e : Event) (es : List Event)
    → length (select test (e ∷ es)) ≡ one_if (test e) + length (select test es)
unfolding select
length-select test e es = ground arith

release-counts :
    (p : ℕ) (o : Option ℕ) (m : Memory)
    → ((release p o m).stats.total_allocations ≡ m.stats.total_allocations)
      × ((release p o m).stats.total_frees ≡ m.stats.total_frees)
unfolding release
release-counts p none m = (refl, refl)
release-counts p (some size) m = (refl, refl)

on_free-counts :
    (e : Event) (m : Memory)
    → ((on_free e m).stats.total_allocations ≡ m.stats.total_allocations)
      × ((on_free e m).stats.total_frees ≡ add64 m.stats.total_frees 1)
unfolding on_free
on_free-counts e m = elim (Bool-cases (contains (memory_ptr e.payload) m.freed_pointers)) [
  | inl again ↦ rw again (refl, refl)
  | inr first ↦ rw first (release-counts _ _ _)
]

on_type-allocations :
    (t : EventType) (e : Event) (m : Memory)
    → (on_type t e m).stats.total_allocations % 2 ^ 64
      ≡ (m.stats.total_allocations + one_if (is_alloc t)) % 2 ^ 64
unfolding on_type on_alloc
on_type-allocations tensor_alloc e m = omega arith
on_type-allocations tensor_free e m = omega (arith, (on_free-counts e m).0)
on_type-allocations graph_compute_begin e m = omega arith
on_type-allocations _ e m = omega arith

on_type-frees :
    (t : EventType) (e : Event) (m : Memory)
    → (on_type t e m).stats.total_frees % 2 ^ 64
      ≡ (m.stats.total_frees + one_if (is_free t)) % 2 ^ 64
unfolding on_type on_alloc
on_type-frees tensor_alloc e m = omega arith
on_type-frees tensor_free e m = omega (arith, (on_free-counts e m).1)
on_type-frees graph_compute_begin e m = omega arith
on_type-frees _ e m = omega arith

scan-allocations :
    (es : List Event) (m : Memory)
    → (scan es m).stats.total_allocations % 2 ^ 64
      ≡ (m.stats.total_allocations + length (get_alloc_events es)) % 2 ^ 64
unfolding scan on_event get_alloc_events select
scan-allocations [] m = omega arith
scan-allocations (e ∷ es) m = omega (
  arith,
  scan-allocations es (on_type e.type e m),
  on_type-allocations e.type e m,
  length-select (λ x. is_alloc x.type) e es,
)

scan-frees :
    (es : List Event) (m : Memory)
    → (scan es m).stats.total_frees % 2 ^ 64
      ≡ (m.stats.total_frees + length (get_free_events es)) % 2 ^ 64
unfolding scan on_event get_free_events select
scan-frees [] m = omega arith
scan-frees (e ∷ es) m = omega (
  arith,
  scan-frees es (on_type e.type e m),
  on_type-frees e.type e m,
  length-select (λ x. is_free x.type) e es,
)

one_if-type :
    (t : EventType) → one_if (is_alloc t || is_free t) ≡ one_if (is_alloc t) + one_if (is_free t)
one_if-type tensor_alloc = omega arith
one_if-type tensor_free = omega arith
one_if-type graph_compute_begin = omega arith
one_if-type _ = omega arith

length-get_memory_events :
    (es : List Event)
    → length (get_memory_events es) ≡ length (get_alloc_events es) + length (get_free_events es)
unfolding get_memory_events get_alloc_events get_free_events select
length-get_memory_events [] = omega arith
length-get_memory_events (e ∷ es) = omega (
  arith,
  length-get_memory_events es,
  one_if-type e.type,
  length-select (λ x. is_alloc x.type || is_free x.type) e es,
  length-select (λ x. is_alloc x.type) e es,
  length-select (λ x. is_free x.type) e es,
)

-- Modulo 2 ^ 64 the statistics count as many allocations as get_alloc_events returns events, and as
-- many frees (double frees and frees of unknown pointers included) as get_free_events;
-- get_memory_events returns as many as both together.
pub get_memory_stats-counts :
    (es : List Event)
    → ((get_memory_stats es).total_allocations % 2 ^ 64 ≡ length (get_alloc_events es) % 2 ^ 64)
      × ((get_memory_stats es).total_frees % 2 ^ 64 ≡ length (get_free_events es) % 2 ^ 64)
      × (length (get_memory_events es) ≡ length (get_alloc_events es) + length (get_free_events es))
unfolding get_memory_stats finish
get_memory_stats-counts es = (
  omega (arith, scan-allocations es reset_state),
  omega (arith, scan-frees es reset_state),
  length-get_memory_events es,
)
