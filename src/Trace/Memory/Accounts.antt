-- ===== src/Trace/Memory/Accounts.antt =====
-- The books of update_memory_stats (utils/trace_reader.cpp) balance: bytes allocated, freed, in
-- use.
use ggml_viz.Base.{
  ℕ, ◌+◌, ◌^◌, ◌≤◌, ◌<◌, ◌≡◌, refl, List, [], ◌∷◌, arith, Option, none, some, lookup, insert,
  contains, total, total-erase, total-insert_new, total-insert_old, Option-cases, Bool-cases, inl,
  inr,
}
use native.Mathlib.Nat.{add-zero, add_assoc}
use ggml_viz.Event.{
  EventType, graph_compute_begin, tensor_alloc, tensor_free, Event, memory_ptr, memory_size,
}
use ggml_viz.Trace.Memory.{
  Memory, reset_state, on_alloc, release, on_free, on_type, on_event, scan, leaked, finish,
  get_memory_stats, add64,
}

-- The bytes that an event asks for, and those of a whole trace, as plain numbers.
abbrev pub requested_by : EventType → Event → ℕ
requested_by tensor_alloc e = memory_size e.payload
requested_by _ e = 0

abbrev pub requested : List Event → ℕ
requested [] = 0
requested (e ∷ es) = requested_by e.type e + requested es

-- After `n` bytes were asked for: each of them is in use or freed, the table holds no more than is
-- in use, and the peak lies between.
pub record Balanced (n : ℕ) (m : Memory) : Type 0 where
  pub allocated : m.stats.bytes_allocated ≡ n
  pub balance : m.usage + m.stats.bytes_freed ≡ n
  pub covered : total m.allocations ≤ m.usage
  pub peak_above : m.usage ≤ m.stats.peak_usage
  pub peak_below : m.stats.peak_usage ≤ n

pub reset_state-Balanced : Balanced 0 reset_state
unfolding total
reset_state-Balanced = omega arith

total-insert-le : (k v : ℕ) (m : List (ℕ × ℕ)) → total (insert k v m) ≤ total m + v
total-insert-le k v m = elim (Option-cases (lookup k m)) [
  | inl e ↦ omega (arith, total-insert_new k v m e)
  | inr (w, e) ↦ omega (arith, total-insert_old k v w m e)
]

on_alloc-Balanced :
    (e : Event) (n : ℕ) (m : Memory)
    → n + memory_size e.payload < 2 ^ 64
    → Balanced n m
    → Balanced (n + memory_size e.payload) (on_alloc e m)
unfolding on_alloc
on_alloc-Balanced e n m h b =
    ground (arith, total-insert-le (memory_ptr e.payload) (memory_size e.payload) m.allocations)

release-Balanced :
    (ptr n : ℕ) (o : Option ℕ) (m : Memory)
    → n < 2 ^ 64
    → lookup ptr m.allocations ≡ o
    → Balanced n m
    → Balanced n (release ptr o m)
unfolding release
release-Balanced ptr n none m h e b = b
release-Balanced ptr n (some size) m h e b = ground (arith, total-erase ptr size m.allocations e)

on_free-Balanced :
    (e : Event) (n : ℕ) (m : Memory) → n < 2 ^ 64 → Balanced n m → Balanced n (on_free e m)
unfolding on_free
on_free-Balanced e n m h b = elim (Bool-cases (contains (memory_ptr e.payload) m.freed_pointers)) [
  | inl again ↦ rw again (counted b)
  | inr first ↦ rw first (release-Balanced (memory_ptr e.payload) n _ _ h refl (counted b))
]
  where
    counted :
        {c f : ℕ}
        → Balanced n m
        → Balanced n (record m { stats = record m.stats { total_frees = c; last_free_time = f } })
    counted v = ground arith

pub on_type-Balanced :
    (t : EventType) (e : Event) (n : ℕ) (m : Memory)
    → n + requested_by t e < 2 ^ 64
    → Balanced n m
    → Balanced (n + requested_by t e) (on_type t e m)
unfolding on_type
on_type-Balanced tensor_alloc e n m h b = on_alloc-Balanced e n m h b
on_type-Balanced tensor_free e n m h b = rw add-zero (on_free-Balanced e n m (omega arith) b)
on_type-Balanced graph_compute_begin e n m h b = rw add-zero b
on_type-Balanced _ e n m h b = rw add-zero b

pub scan-Balanced :
    (es : List Event) (n : ℕ) (m : Memory)
    → n + requested es < 2 ^ 64
    → Balanced n m
    → Balanced (n + requested es) (scan es m)
unfolding scan on_event
scan-Balanced [] n m h b = rw add-zero b
scan-Balanced (e ∷ es) n m h b = rw (← add_assoc) (
    scan-Balanced es (n + requested_by e.type e) (on_event e m) (omega arith)
      (on_type-Balanced e.type e n m (omega arith) b))

pub leaked-total :
    (m : List (ℕ × ℕ)) (acc : ℕ) → acc + total m < 2 ^ 64 → leaked m acc ≡ acc + total m
unfolding leaked total
leaked-total [] acc h = omega arith
leaked-total ((k, v) ∷ m) acc h = omega (arith, leaked-total m (add64 acc v) (omega arith))

-- For a trace that asks for less than 2 ^ 64 bytes in all, whatever its order and whatever frees it
-- has: bytes_allocated is their exact sum, current_usage and bytes_freed make it up, the reported
-- leak is at most the current usage, and the peak lies between the current usage and the sum.
pub get_memory_stats_balance :
    (es : List Event)
    → requested es < 2 ^ 64
    → let s = get_memory_stats es in
      (s.bytes_allocated ≡ requested es)
      × (s.current_usage + s.bytes_freed ≡ s.bytes_allocated)
      × (s.leaked_bytes ≤ s.current_usage)
      × (s.current_usage ≤ s.peak_usage)
      × (s.peak_usage ≤ s.bytes_allocated)
unfolding get_memory_stats finish total
get_memory_stats_balance es h =
    let b = scan-Balanced es 0 reset_state (omega arith) reset_state-Balanced in
    let l = leaked-total (scan es reset_state).allocations 0 (omega arith) in omega arith
