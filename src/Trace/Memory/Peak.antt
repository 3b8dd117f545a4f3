-- ===== src/Trace/Memory/Peak.antt =====
-- The peak that update_memory_stats (utils/trace_reader.cpp) reports.
use ggml_viz.Base.{
  ℕ, zero, suc, ◌+◌, ◌^◌, ◌≤◌, ◌<◌, ◌≡◌, refl, ◌∙◌, ◌⊎◌, inl, inr, List, [], ◌∷◌, arith, take,
  contains, Bool-cases, Option, none, some,
}
use ggml_viz.Event.{EventType, graph_compute_begin, tensor_alloc, tensor_free, Event, memory_ptr}
use ggml_viz.Trace.Memory.{
  Memory, reset_state, on_alloc, release, on_free, on_type, on_event, scan, finish,
  get_memory_stats,
}
use ggml_viz.Trace.Memory.Accounts.{
  requested, requested_by, Balanced, on_type-Balanced, reset_state-Balanced,
}

-- What is in use after the first `k` events.
abbrev pub usage_at : ℕ → List Event → ℕ
usage_at k es = (scan (take k es) reset_state).usage

peak-release :
    (ptr : ℕ) (o : Option ℕ) (m : Memory) → (release ptr o m).stats.peak_usage ≡ m.stats.peak_usage
unfolding release
peak-release ptr none m = refl
peak-release ptr (some size) m = refl

peak-on_free : (e : Event) (m : Memory) → (on_free e m).stats.peak_usage ≡ m.stats.peak_usage
unfolding on_free
peak-on_free e m = elim (Bool-cases (contains (memory_ptr e.payload) m.freed_pointers)) [
  | inl again ↦ rw again
  | inr first ↦ rw first (peak-release (memory_ptr e.payload) _ _)
]

-- An event leaves the peak, or sets it to what is in use after it.
peak-on_type :
    (t : EventType) (e : Event) (m : Memory)
    → ((on_type t e m).stats.peak_usage ≡ m.stats.peak_usage)
      ⊎ ((m.stats.peak_usage < (on_type t e m).usage)
          × ((on_type t e m).stats.peak_usage ≡ (on_type t e m).usage))
unfolding on_type on_alloc
peak-on_type tensor_alloc e m = ground arith
peak-on_type tensor_free e m = inl (peak-on_free e m)
peak-on_type graph_compute_begin e m = inl refl
peak-on_type _ e m = inl refl

peak-scan-le : (es : List Event) (m : Memory) → m.stats.peak_usage ≤ (scan es m).stats.peak_usage
unfolding scan on_event
peak-scan-le [] m = omega arith
peak-scan-le (e ∷ es) m =
    omega (arith, peak-on_type e.type e m, peak-scan-le es (on_type e.type e m))

usage-le-peak :
    (es : List Event) (k n : ℕ) (m : Memory)
    → n + requested es < 2 ^ 64
    → Balanced n m
    → (scan (take k es) m).usage ≤ (scan es m).stats.peak_usage
unfolding scan on_event
usage-le-peak es zero n m h b = omega (arith, peak-scan-le es m)
usage-le-peak [] (suc k) n m h b = omega arith
usage-le-peak (e ∷ es) (suc k) n m h b =
    usage-le-peak es k (n + requested_by e.type e) (on_type e.type e m) (omega arith)
      (on_type-Balanced e.type e n m (omega arith) b)

peak_reached :
    (es : List Event) (m : Memory)
    → ((scan es m).stats.peak_usage ≡ m.stats.peak_usage)
      ⊎ ((k : ℕ) × ((scan es m).stats.peak_usage ≡ (scan (take k es) m).usage))
unfolding scan on_event
peak_reached [] m = inl refl
peak_reached (e ∷ es) m = go (peak_reached es m') (peak-on_type e.type e m)
  where
    m' : Memory
    m' = on_type e.type e m

    go :
        ((scan es m').stats.peak_usage ≡ m'.stats.peak_usage)
          ⊎ ((k : ℕ) × ((scan es m').stats.peak_usage ≡ (scan (take k es) m').usage))
        → (m'.stats.peak_usage ≡ m.stats.peak_usage)
          ⊎ ((m.stats.peak_usage < m'.usage) × (m'.stats.peak_usage ≡ m'.usage))
        → ((scan es m').stats.peak_usage ≡ m.stats.peak_usage)
          ⊎ ((k : ℕ) × ((scan es m').stats.peak_usage ≡ (scan (take k (e ∷ es)) m).usage))
    go (inr (k, p)) q = inr (suc k, p)
    go (inl p) (inl q) = inl (p ∙ q)
    go (inl p) (inr q) = inr (suc zero, p ∙ q.1)

-- For a trace that asks for less than 2 ^ 64 bytes in all, peak_usage is the maximum over its
-- prefixes of what is in use after them: it is reached after one of them, and none exceeds it.
pub peak_usage-is_maximum :
    (es : List Event)
    → requested es < 2 ^ 64
    → ((k : ℕ) × ((get_memory_stats es).peak_usage ≡ usage_at k es))
      × ((k : ℕ) → usage_at k es ≤ (get_memory_stats es).peak_usage)
unfolding get_memory_stats finish scan
peak_usage-is_maximum es h = (
  reached (peak_reached es reset_state),
  λ k. usage-le-peak es k 0 reset_state (omega arith) reset_state-Balanced,
)
  where
    reached :
        ((scan es reset_state).stats.peak_usage ≡ 0)
          ⊎ ((k : ℕ) × ((scan es reset_state).stats.peak_usage ≡ usage_at k es))
        → (k : ℕ) × ((scan es reset_state).stats.peak_usage ≡ usage_at k es)
    reached (inl p) = (zero, p)
    reached (inr p) = p
