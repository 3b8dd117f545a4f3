-- ===== src/Hook/Profile.antt =====
-- From ggml_hook.cpp to trace_reader.cpp: the timings that one intercepted graph computation gives.
use ggml_viz.Base.{
  ℕ, suc, ◌≤◌, ◌≡◌, refl, ap, ◌∙◌, false, List, [], ◌∷◌, ◌++◌, Option, none, some, arith, length,
  All, ◌==◌, if◌then◌else◌, lookup, insert, erase, Unique, insert-Unique, erase-Unique,
  lookup-insert, lookup-erase,
}
use ggml_viz.Event.{graph_compute_begin, graph_compute_end, op_compute_begin, op_compute_end, Event}
use ggml_viz.Trace.Format.{Fits}
use ggml_viz.Trace.Reader.{open_trace, valid, events}
use ggml_viz.Trace.RoundTrip.{open_trace-encode_events}
use ggml_viz.Trace.Queries.{OpTiming, timing, end_op, pair_op, pair_ops}
use ggml_viz.Config.Defs.{Config}
use ggml_viz.Hook.Callbacks.{ℤ, Tensor, Graph, Moment, op_event, graph_event}
use ggml_viz.Hook.Interpose.{Original, Originals, System, Process, Times, initialize, intercept}
use ggml_viz.Hook.Brackets.{
  TracesAll, Holding, IsQuiet, node_events, compute_events, end_events, intercept-written,
}

-- No node has the address `p`.
abbrev pub Fresh : ℕ → List (Option Tensor) → Type 0
Fresh p [] = Unit
Fresh p (none ∷ ns) = Fresh p ns
Fresh p (some x ∷ ns) = ((x.address == p) ≡ false) × Fresh p ns

-- The nodes that are not null are different tensors.
abbrev pub Distinct : List (Option Tensor) → Type 0
Distinct [] = Unit
Distinct (none ∷ ns) = Distinct ns
Distinct (some x ∷ ns) = Fresh x.address ns × Distinct ns

-- One timing a node that is not null, from the callback before the computation to the one after it.
abbrev pub node_timings : Config → Times → ℕ → List (Option Tensor) → ℕ → List OpTiming
node_timings c t i [] backend = []
node_timings c t i (none ∷ ns) backend = node_timings c t (suc i) ns backend
node_timings c t i (some x ∷ ns) backend =
    timing (op_event c op_compute_begin (t.node_begin i) x backend)
      (op_event c op_compute_end (t.node_end i) x backend)
    ∷ node_timings c t (suc i) ns backend

module _ (c : Config) (t : Times) (backend : ℕ) where
  -- The table after the begins.
  abbrev opened : ℕ → List (Option Tensor) → List (ℕ × Event) → List (ℕ × Event)
  opened i [] pending = pending
  opened i (none ∷ ns) pending = opened (suc i) ns pending
  opened i (some x ∷ ns) pending =
      opened (suc i) ns
        (insert x.address (op_event c op_compute_begin (t.node_begin i) x backend) pending)

  -- The begin of every node is open.
  abbrev Opens : ℕ → List (Option Tensor) → List (ℕ × Event) → Type 0
  Opens i [] pending = Unit
  Opens i (none ∷ ns) pending = Opens (suc i) ns pending
  Opens i (some x ∷ ns) pending =
      (lookup x.address pending ≡ some (op_event c op_compute_begin (t.node_begin i) x backend))
      × Opens (suc i) ns pending

  pair_ops-begins :
      (i : ℕ) (ns : List (Option Tensor)) (rest : List Event) (pending : List (ℕ × Event))
      → pair_ops (node_events c op_compute_begin t.node_begin i ns backend ++ rest) pending
        ≡ pair_ops rest (opened i ns pending)
  unfolding pair_ops pair_op op_event
  pair_ops-begins i [] rest pending = refl
  pair_ops-begins i (none ∷ ns) rest pending = pair_ops-begins (suc i) ns rest pending
  pair_ops-begins i (some x ∷ ns) rest pending = pair_ops-begins (suc i) ns rest _

  lookup-opened-Fresh :
      (p i : ℕ) (ns : List (Option Tensor)) (pending : List (ℕ × Event))
      → Fresh p ns
      → lookup p (opened i ns pending) ≡ lookup p pending
  lookup-opened-Fresh p i [] pending f = refl
  lookup-opened-Fresh p i (none ∷ ns) pending f = lookup-opened-Fresh p (suc i) ns pending f
  lookup-opened-Fresh p i (some x ∷ ns) pending f =
      lookup-opened-Fresh p (suc i) ns _ f.1
      ∙ lookup-insert x.address p _ pending
      ∙ ap
          (λ b.
            if b
            then some (op_event c op_compute_begin (t.node_begin i) x backend)
            else lookup p pending)
          f.0

  opened-Opens :
      (i : ℕ) (ns : List (Option Tensor)) (pending : List (ℕ × Event))
      → Distinct ns
      → Opens i ns (opened i ns pending)
  opened-Opens i [] pending d = tt
  opened-Opens i (none ∷ ns) pending d = opened-Opens (suc i) ns pending d
  opened-Opens i (some x ∷ ns) pending d = (
    lookup-opened-Fresh x.address (suc i) ns _ d.0
        ∙ lookup-insert x.address x.address _ pending
        ∙ ground arith,
    opened-Opens (suc i) ns _ d.1,
  )

  opened-Unique :
      (i : ℕ) (ns : List (Option Tensor)) (pending : List (ℕ × Event))
      → Unique pending
      → Unique (opened i ns pending)
  opened-Unique i [] pending u = u
  opened-Unique i (none ∷ ns) pending u = opened-Unique (suc i) ns pending u
  opened-Unique i (some x ∷ ns) pending u =
      opened-Unique (suc i) ns _ (insert-Unique x.address _ pending u)

  lookup-erase_other :
      (p q : ℕ) (pending : List (ℕ × Event))
      → Unique pending
      → (q == p) ≡ false
      → lookup q (erase p pending) ≡ lookup q pending
  lookup-erase_other p q pending u f = lookup-erase p q pending u ∙ ground arith

  erase-Opens :
      (p i : ℕ) (ns : List (Option Tensor)) (pending : List (ℕ × Event))
      → Unique pending
      → Fresh p ns
      → Opens i ns pending
      → Opens i ns (erase p pending)
  erase-Opens p i [] pending u f o = tt
  erase-Opens p i (none ∷ ns) pending u f o = erase-Opens p (suc i) ns pending u f o
  erase-Opens p i (some x ∷ ns) pending u f o = (
    lookup-erase_other p x.address pending u f.0 ∙ o.0,
    erase-Opens p (suc i) ns pending u f.1 o.1,
  )

  pair_ops-end :
      (e b : Event) (rest : List Event) (pending : List (ℕ × Event))
      → e.type ≡ op_compute_end
      → lookup e.payload.word0 pending ≡ some b
      → pair_ops (e ∷ rest) pending ≡ timing b e ∷ pair_ops rest (erase e.payload.word0 pending)
  unfolding pair_ops pair_op end_op
  pair_ops-end e b rest pending is_end found = rw (is_end, found) refl

  pair_ops-ends :
      (i : ℕ) (ns : List (Option Tensor)) (e : Event) (pending : List (ℕ × Event))
      → Unique pending
      → Distinct ns
      → Opens i ns pending
      → ((p : List (ℕ × Event)) → pair_ops (e ∷ []) p ≡ [])
      → pair_ops (node_events c op_compute_end t.node_end i ns backend ++ e ∷ []) pending
        ≡ node_timings c t i ns backend
  unfolding op_event
  pair_ops-ends i [] e pending u d o last = last pending
  pair_ops-ends i (none ∷ ns) e pending u d o last = pair_ops-ends (suc i) ns e pending u d o last
  pair_ops-ends i (some x ∷ ns) e pending u d o last =
      pair_ops-end (op_event c op_compute_end (t.node_end i) x backend) _ _ pending refl o.0
      ∙ ap
          (λ l.
            timing (op_event c op_compute_begin (t.node_begin i) x backend)
              (op_event c op_compute_end (t.node_end i) x backend)
            ∷ l)
          (pair_ops-ends (suc i) ns e (erase x.address pending) (erase-Unique x.address pending u)
            d.1 (erase-Opens x.address (suc i) ns pending u d.0 o.1) last)

pair_ops-graph_begin :
    (m : Moment) (g : Option Graph) (backend : ℕ) (k : ℤ) (rest : List Event)
    (pending : List (ℕ × Event))
    → pair_ops (graph_event graph_compute_begin m g backend k ∷ rest) pending
      ≡ pair_ops rest pending
unfolding pair_ops pair_op graph_event
pair_ops-graph_begin m g backend k rest pending = refl

pair_ops-graph_end :
    (m : Moment) (g : Option Graph) (backend : ℕ) (k : ℤ) (pending : List (ℕ × Event))
    → pair_ops (graph_event graph_compute_end m g backend k ∷ []) pending ≡ []
unfolding pair_ops pair_op graph_event
pair_ops-graph_end m g backend k pending = refl

pair_ops-compute_events :
    (c : Config) (t : Times) (g : Graph) (backend : ℕ) (k : ℤ)
    → Distinct g.nodes
    → pair_ops (compute_events c t g backend k) [] ≡ node_timings c t 0 g.nodes backend
pair_ops-compute_events c t g backend k d =
    pair_ops-graph_begin t.graph_begin (some g) backend k _ []
    ∙ pair_ops-begins c t backend 0 g.nodes (end_events c t g backend k) []
    ∙ pair_ops-ends c t backend 0 g.nodes _ (opened c t backend 0 g.nodes [])
        (opened-Unique c t backend 0 g.nodes [] tt) d (opened-Opens c t backend 0 g.nodes [] d)
        (pair_ops-graph_end t.graph_end (some g) backend k)

-- A graph computation that is the first of a trace leaves a file that opens as a valid trace,
-- whose events give, before they are sorted, one timing a node that is not null, in the order of
-- the nodes: from the callback before the original function to the callback after it. The
-- conditions: the trace has just begun, timing and file output are on and nothing is filtered, the
-- event limit is at most 100000000 and leaves room, the original does not touch the hook, the
-- nodes are different tensors, and the fields of the events have their machine widths.
pub intercept-op_timings :
    (sys : System) (original : Originals → Option Original) (t : Times) (g : Graph) (backend : ℕ)
    (k : ℤ) (p : Process)
    → TracesAll p.manager.config
    → length (compute_events p.manager.config t g backend k)
      ≤ p.manager.config.instrumentation.max_events
    → Holding p.manager.config p.hook 0 []
    → IsQuiet (original (initialize sys p).originals)
    → Distinct g.nodes
    → All Fits (compute_events p.manager.config t g backend k)
    → (es : List Event) × (open_trace (some (intercept sys original t g backend k p).1.hook.written)
        ≡ valid (events es))
      × (pair_ops es [] ≡ node_timings p.manager.config t 0 g.nodes backend)
intercept-op_timings sys original t g backend k p all room r quiet d fits =
    let es = compute_events p.manager.config t g backend k in
    (
      es,
      ap (λ w. open_trace (some w))
            (intercept-written sys original t g backend k p 0 [] all (omega arith) r quiet)
          ∙ open_trace-encode_events es fits,
      pair_ops-compute_events p.manager.config t g backend k d,
    )
