-- ===== src/Trace/Memory/Live.antt =====
-- Which pointers `allocations_` (utils/trace_reader.cpp) holds: those whose last event is an alloc.
use ggml_viz.Base.{
  ℕ, ◌≡◌, refl, List, [], ◌∷◌, arith, Option, none, some, true, ◌==◌, lookup, contains, Unique,
  insert-Unique, erase-Unique, lookup-insert, lookup-erase, contains-remove, Bool-cases, inl, inr,
  if◌then◌else◌,
}
use ggml_viz.Event.{
  EventType, graph_compute_begin, tensor_alloc, tensor_free, Event, memory_ptr, memory_size,
}
use ggml_viz.Trace.Memory.{
  MemoryStats, Memory, reset_state, on_alloc, release, on_free, on_type, on_event, scan,
}

-- The size of the block at `p`, if the last event about `p` allocated it: an account of the trace
-- that keeps no table. `before` is what the earlier events say.
abbrev pub size_after : ℕ → EventType → Event → Option ℕ → Option ℕ
size_after p tensor_alloc e before =
    if memory_ptr e.payload == p then some (memory_size e.payload) else before
size_after p tensor_free e before = if memory_ptr e.payload == p then none else before
size_after p _ e before = before

abbrev pub size_from : ℕ → Option ℕ → List Event → Option ℕ
size_from p before [] = before
size_from p before (e ∷ es) = size_from p (size_after p e.type e before) es

-- One entry a pointer, and none for a pointer in the set of freed ones.
pub record IsTable (m : Memory) : Type 0 where
  unique : Unique m.allocations
  gone : (p : ℕ) → contains p m.freed_pointers ≡ true → lookup p m.allocations ≡ none

on_alloc-IsTable : (e : Event) (m : Memory) → IsTable m → IsTable (on_alloc e m)
unfolding on_alloc
on_alloc-IsTable e m t = record {
  unique = insert-Unique _ _ m.allocations t.unique;
  gone = λ p h. ground (
    arith,
    lookup-insert (memory_ptr e.payload) p (memory_size e.payload) m.allocations,
    contains-remove (memory_ptr e.payload) p m.freed_pointers,
    t.gone p,
    h,
  );
}

release-IsTable : (ptr : ℕ) (o : Option ℕ) (m : Memory) → IsTable m → IsTable (release ptr o m)
unfolding release contains
release-IsTable ptr none m t = t
release-IsTable ptr (some size) m t = record {
  unique = erase-Unique ptr m.allocations t.unique;
  gone = λ p h. ground (arith, lookup-erase ptr p m.allocations t.unique, t.gone p, h);
}

restated : {m : Memory} (s : MemoryStats) → IsTable m → IsTable (record m { stats = s })
restated s t = record { unique = t.unique; gone = t.gone }

on_free-IsTable : (e : Event) (m : Memory) → IsTable m → IsTable (on_free e m)
unfolding on_free
on_free-IsTable e m t = elim (Bool-cases (contains (memory_ptr e.payload) m.freed_pointers)) [
  | inl again ↦ rw again (restated _ t)
  | inr first ↦ rw first (release-IsTable (memory_ptr e.payload) _ _ (restated _ t))
]

pub on_type-IsTable : (t : EventType) (e : Event) (m : Memory) → IsTable m → IsTable (on_type t e m)
unfolding on_type
on_type-IsTable tensor_alloc e m t = on_alloc-IsTable e m t
on_type-IsTable tensor_free e m t = on_free-IsTable e m t
on_type-IsTable graph_compute_begin e m t = t
on_type-IsTable _ e m t = t

lookup-release :
    (p ptr : ℕ) (o : Option ℕ) (m : Memory)
    → IsTable m
    → lookup ptr m.allocations ≡ o
    → lookup p (release ptr o m).allocations ≡ (if ptr == p then none else lookup p m.allocations)
unfolding release
lookup-release p ptr none m t e = ground arith
lookup-release p ptr (some size) m t e = lookup-erase ptr p m.allocations t.unique

lookup-on_free :
    (p : ℕ) (e : Event) (m : Memory)
    → IsTable m
    → lookup p (on_free e m).allocations
      ≡ (if memory_ptr e.payload == p then none else lookup p m.allocations)
unfolding on_free
lookup-on_free p e m t = elim (Bool-cases (contains (memory_ptr e.payload) m.freed_pointers)) [
  | inl again ↦ rw again (ground (arith, t.gone p, again))
  | inr first ↦ rw first (lookup-release p (memory_ptr e.payload) _ _ (restated _ t) refl)
]

pub lookup-on_type :
    (p : ℕ) (t : EventType) (e : Event) (m : Memory)
    → IsTable m
    → lookup p (on_type t e m).allocations ≡ size_after p t e (lookup p m.allocations)
unfolding on_type on_alloc
lookup-on_type p tensor_alloc e m t = lookup-insert _ p _ m.allocations
lookup-on_type p tensor_free e m t = lookup-on_free p e m t
lookup-on_type p graph_compute_begin e m t = refl
lookup-on_type p _ e m t = refl

lookup-scan_from :
    (p : ℕ) (es : List Event) (m : Memory)
    → IsTable m
    → lookup p (scan es m).allocations ≡ size_from p (lookup p m.allocations) es
unfolding scan on_event
lookup-scan_from p [] m t = refl
lookup-scan_from p (e ∷ es) m t =
    rw (← lookup-on_type p e.type e m t)
      (lookup-scan_from p es (on_type e.type e m) (on_type-IsTable e.type e m t))

pub reset_state-IsTable : IsTable reset_state
unfolding contains
reset_state-IsTable = record { unique = tt; gone = λ p h. cc }

-- After any trace the table holds a pointer exactly when the last event about it is an alloc, and
-- then with the size of that alloc: double frees and frees of unknown pointers leave it as it is.
pub lookup-scan :
    (p : ℕ) (es : List Event) → lookup p (scan es reset_state).allocations ≡ size_from p none es
unfolding lookup
lookup-scan p es = lookup-scan_from p es reset_state reset_state-IsTable
