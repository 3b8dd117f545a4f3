-- ===== src/Hook/Brackets.antt =====
-- What one intercepted graph computation (ggml_hook.cpp) leaves in the trace file.
use ggml_viz.Base.{
  ℕ, suc, ◌+◌, ◌≤◌, ◌<◌, ◌≡◌, refl, sym, ap, subst, ◌∙◌, true, false, ◌||◌, List, [], ◌∷◌, ◌++◌,
  Option, none, some, arith, length, length-append, append-nil, append_assoc,
}
use ggml_viz.Event.{
  EventType, graph_compute_begin, graph_compute_end, op_compute_begin, op_compute_end, Event,
}
use ggml_viz.Trace.Format.{trace_header, encode_events}
use ggml_viz.Config.Defs.{Config}
use ggml_viz.Config.Manager.{Manager}
use ggml_viz.Hook.Defs.{Hook, flush_to_file, record_event, start_with}
use ggml_viz.Hook.File.{LoggedAll, record_event-below, flush_to_file-open, written-flushed}
use ggml_viz.Hook.Session.{start_with-started, started-Logged}
use ggml_viz.Hook.Callbacks.{
  ℤ, Tensor, Graph, Moment, graph_event, op_event, is_traced, record_op, flush_graph,
  on_graph_compute_begin, on_graph_compute_end, on_op_compute_begin, on_op_compute_end,
}
use ggml_viz.Hook.Interpose.{
  Original, Originals, System, Process, Times, initialize, install_ggml_hooks, begin_nodes,
  end_nodes, before_compute, after_compute, call_original, intercept,
}

-- Every event reaches the trace: timing and file output are on, no operation is filtered out.
pub record TracesAll (c : Config) : Type 0 where
  pub timing : c.instrumentation.enable_op_timing ≡ true
  pub to_file : c.output.write_to_file ≡ true
  pub unfiltered : c.instrumentation.op_types_to_trace ≡ []
  pub most : c.instrumentation.max_events ≤ 100000000

-- One event a node that is not null, in the order of the nodes.
abbrev pub node_events :
    Config → EventType → (ℕ → Moment) → ℕ → List (Option Tensor) → ℕ → List Event
node_events c type times i [] backend = []
node_events c type times i (none ∷ ns) backend = node_events c type times (suc i) ns backend
node_events c type times i (some x ∷ ns) backend =
    op_event c type (times i) x backend ∷ node_events c type times (suc i) ns backend

-- The trace holds `xs`, which were all counted.
pub record Holding (c : Config) (h : Hook) (n : ℕ) (xs : List Event) : Type 0 where
  pub all : LoggedAll c h xs
  pub number : h.event_count ≡ n

abbrev running : (c : Config) (h : Hook) (xs : List Event) → LoggedAll c h xs → h.active ≡ true
running c h xs (ys, zs, split, g) = g.running

record_event-Holding :
    (c : Config) (e : Event) (h : Hook) (n : ℕ) (xs : List Event)
    → TracesAll c
    → n < c.instrumentation.max_events
    → Holding c h n xs
    → Holding c (record_event c e h) (suc n) (xs ++ e ∷ [])
record_event-Holding c e h n xs t below r = go r.all
  where
    go : LoggedAll c h xs → Holding c (record_event c e h) (suc n) (xs ++ e ∷ [])
    go (ys, zs, split, g) =
        let (all, one) =
          record_event-below c e h ys zs t.to_file t.most
            (let b : h.event_count < c.instrumentation.max_events = omega (arith, r.number) in b)
            g in
        record {
          all =
              subst (LoggedAll c (record_event c e h))
                (sym (append_assoc ys zs (e ∷ [])) ∙ ap (λ l. l ++ e ∷ []) split) all;
          number = omega (arith, r.number, one);
        }

on_op_compute_begin-records :
    (c : Config) (t : Moment) (x : Tensor) (backend : ℕ) (h : Hook)
    → TracesAll c
    → h.active ≡ true
    → on_op_compute_begin c t (some x) backend h
      ≡ record_event c (op_event c op_compute_begin t x backend) h
unfolding on_op_compute_begin record_op is_traced
on_op_compute_begin-records c t x backend h all a = simp (a, all.timing, all.unfiltered)

on_op_compute_end-records :
    (c : Config) (t : Moment) (x : Tensor) (backend : ℕ) (h : Hook)
    → TracesAll c
    → h.active ≡ true
    → on_op_compute_end c t (some x) backend h
      ≡ record_event c (op_event c op_compute_end t x backend) h
unfolding on_op_compute_end record_op is_traced
on_op_compute_end-records c t x backend h all a = simp (a, all.timing, all.unfiltered)

on_graph_compute_begin-records :
    (c : Config) (t : Moment) (g : Option Graph) (backend : ℕ) (n : ℤ) (h : Hook)
    → TracesAll c
    → h.active ≡ true
    → on_graph_compute_begin c t g backend n h
      ≡ record_event c (graph_event graph_compute_begin t g backend n) h
unfolding on_graph_compute_begin
on_graph_compute_begin-records c t g backend n h all a = simp (a, all.timing)

on_graph_compute_end-records :
    (c : Config) (t : Moment) (g : Option Graph) (backend : ℕ) (n : ℤ) (h : Hook)
    → TracesAll c
    → h.active ≡ true
    → on_graph_compute_end c t g backend n h
      ≡ flush_to_file (record_event c (graph_event graph_compute_end t g backend n) h)
unfolding on_graph_compute_end flush_graph
on_graph_compute_end-records c t g backend n h all a = simp (a, all.timing, all.to_file)

Holding-snoc :
    (c : Config) (h : Hook) (n : ℕ) (xs ys : List Event) (y : Event)
    → Holding c h (suc n + length ys) ((xs ++ y ∷ []) ++ ys)
    → Holding c h (n + length (y ∷ ys)) (xs ++ y ∷ ys)
Holding-snoc c h n xs ys y r = record {
  all = subst (LoggedAll c h) (append_assoc xs (y ∷ []) ys) r.all;
  number = omega (arith, r.number);
}

Holding-nil :
    (c : Config) (h : Hook) (n : ℕ) (xs : List Event)
    → Holding c h n xs
    → Holding c h (n + 0) (xs ++ [])
Holding-nil c h n xs r = record {
  all = subst (LoggedAll c h) (sym (append-nil xs)) r.all;
  number = omega (arith, r.number);
}

begin_nodes-Holding :
    (m : Manager) (times : ℕ → Moment) (i : ℕ) (ns : List (Option Tensor)) (backend : ℕ) (h : Hook)
    (n : ℕ) (xs : List Event)
    → TracesAll m.config
    → n + length (node_events m.config op_compute_begin times i ns backend)
      ≤ m.config.instrumentation.max_events
    → Holding m.config h n xs
    → Holding m.config
        (begin_nodes m times i ns backend h)
        (n + length (node_events m.config op_compute_begin times i ns backend))
        (xs ++ node_events m.config op_compute_begin times i ns backend)
unfolding begin_nodes
begin_nodes-Holding m times i [] backend h n xs t fits r = Holding-nil m.config h n xs r
begin_nodes-Holding m times i (none ∷ ns) backend h n xs t fits r =
    begin_nodes-Holding m times (suc i) ns backend h n xs t fits r
begin_nodes-Holding m times i (some x ∷ ns) backend h n xs t fits r =
    let e = op_event m.config op_compute_begin (times i) x backend in
    let rest = node_events m.config op_compute_begin times (suc i) ns backend in
    let one : Holding m.config (on_op_compute_begin m.config (times i) (some x) backend h) (suc n)
        (xs ++ e ∷ []) =
      subst (λ h1. Holding m.config h1 (suc n) (xs ++ e ∷ []))
        (sym (
          on_op_compute_begin-records m.config (times i) x backend h t
            (running m.config h xs r.all)))
        (record_event-Holding m.config e h n xs t (omega arith) r) in
    Holding-snoc m.config _ n xs rest e
      (begin_nodes-Holding m times (suc i) ns backend _ (suc n) (xs ++ e ∷ []) t (omega arith) one)

end_nodes-Holding :
    (m : Manager) (times : ℕ → Moment) (i : ℕ) (ns : List (Option Tensor)) (backend : ℕ) (h : Hook)
    (n : ℕ) (xs : List Event)
    → TracesAll m.config
    → n + length (node_events m.config op_compute_end times i ns backend)
      ≤ m.config.instrumentation.max_events
    → Holding m.config h n xs
    → Holding m.config
        (end_nodes m times i ns backend h)
        (n + length (node_events m.config op_compute_end times i ns backend))
        (xs ++ node_events m.config op_compute_end times i ns backend)
unfolding end_nodes
end_nodes-Holding m times i [] backend h n xs t fits r = Holding-nil m.config h n xs r
end_nodes-Holding m times i (none ∷ ns) backend h n xs t fits r =
    end_nodes-Holding m times (suc i) ns backend h n xs t fits r
end_nodes-Holding m times i (some x ∷ ns) backend h n xs t fits r =
    let e = op_event m.config op_compute_end (times i) x backend in
    let rest = node_events m.config op_compute_end times (suc i) ns backend in
    let one : Holding m.config (on_op_compute_end m.config (times i) (some x) backend h) (suc n)
        (xs ++ e ∷ []) =
      subst (λ h1. Holding m.config h1 (suc n) (xs ++ e ∷ []))
        (sym (
          on_op_compute_end-records m.config (times i) x backend h t (running m.config h xs r.all)))
        (record_event-Holding m.config e h n xs t (omega arith) r) in
    Holding-snoc m.config _ n xs rest e
      (end_nodes-Holding m times (suc i) ns backend _ (suc n) (xs ++ e ∷ []) t (omega arith) one)

abbrev pub begin_events : Config → Times → Graph → ℕ → ℤ → List Event
begin_events c t g backend n =
    graph_event graph_compute_begin t.graph_begin (some g) backend n
    ∷ node_events c op_compute_begin t.node_begin 0 g.nodes backend

abbrev pub end_events : Config → Times → Graph → ℕ → ℤ → List Event
end_events c t g backend n =
    node_events c op_compute_end t.node_end 0 g.nodes backend
    ++ graph_event graph_compute_end t.graph_end (some g) backend n ∷ []

before_compute-Holding :
    (t : Times) (g : Graph) (backend : ℕ) (k : ℤ) (p : Process) (n : ℕ) (xs : List Event)
    → TracesAll p.manager.config
    → n + length (begin_events p.manager.config t g backend k)
      ≤ p.manager.config.instrumentation.max_events
    → Holding p.manager.config p.hook n xs
    → (h : Hook) × (before_compute t g backend k p ≡ record p { hook = h })
      × Holding p.manager.config h
          (n + length (begin_events p.manager.config t g backend k))
          (xs ++ begin_events p.manager.config t g backend k)
unfolding before_compute
before_compute-Holding t g backend k p n xs all fits r =
    let c = p.manager.config in
    let e = graph_event graph_compute_begin t.graph_begin (some g) backend k in
    let a = running c p.hook xs r.all in
    let first : Holding c (on_graph_compute_begin c t.graph_begin (some g) backend k p.hook) (suc n)
        (xs ++ e ∷ []) =
      subst (λ h1. Holding c h1 (suc n) (xs ++ e ∷ []))
        (sym (on_graph_compute_begin-records c t.graph_begin (some g) backend k p.hook all a))
        (record_event-Holding c e p.hook n xs all (omega arith) r) in
    (
      _,
      simp a,
      Holding-snoc c _ n xs (node_events c op_compute_begin t.node_begin 0 g.nodes backend) e (
          begin_nodes-Holding p.manager t.node_begin 0 g.nodes backend _ (suc n) (xs ++ e ∷ []) all
            (omega arith) first),
    )

-- The last event is flushed: the file holds all.
flush_to_file-Holding :
    (c : Config) (h : Hook) (n : ℕ) (xs : List Event)
    → Holding c h n xs
    → (flush_to_file h).written ≡ trace_header ++ encode_events xs
flush_to_file-Holding c h n xs r = go r.all
  where
    go : LoggedAll c h xs → (flush_to_file h).written ≡ trace_header ++ encode_events xs
    go (ys, zs, split, g) =
        ap (λ h1. h1.written) (flush_to_file-open h g.opened)
        ∙ written-flushed h ys zs g.in_file g.ring
        ∙ ap (λ l. trace_header ++ encode_events l) split

after_compute-written :
    (t : Times) (g : Graph) (backend : ℕ) (k : ℤ) (p : Process) (n : ℕ) (xs : List Event)
    → TracesAll p.manager.config
    → n + length (end_events p.manager.config t g backend k)
      ≤ p.manager.config.instrumentation.max_events
    → Holding p.manager.config p.hook n xs
    → (after_compute t g backend k p).hook.written
      ≡ trace_header ++ encode_events (xs ++ end_events p.manager.config t g backend k)
unfolding after_compute
after_compute-written t g backend k p n xs all fits r =
    let c = p.manager.config in
    let e = graph_event graph_compute_end t.graph_end (some g) backend k in
    let ends = node_events c op_compute_end t.node_end 0 g.nodes backend in
    let total = length-append ends (e ∷ []) in
    let nodes =
      end_nodes-Holding p.manager t.node_end 0 g.nodes backend p.hook n xs all
        (omega (arith, total)) r in
    let last =
      record_event-Holding c e _ (n + length ends) (xs ++ ends) all (omega (arith, total)) nodes in
    let a = running c p.hook xs r.all in
    simp a (
      ap (λ h1. h1.written)
        (on_graph_compute_end-records c t.graph_end (some g) backend k _ all
          (running c _ (xs ++ ends) nodes.all))
      ∙ flush_to_file-Holding c _ _ _ last
      ∙ ap (λ l. trace_header ++ encode_events l) (append_assoc xs ends (e ∷ [])))

initialize-hook :
    (sys : System) (p : Process) (h : Hook)
    → initialize sys (record p { hook = h }) ≡ record p {
      hook = h;
      originals = (initialize sys p).originals;
      hooks_initialized = (initialize sys p).hooks_initialized;
    }
unfolding initialize install_ggml_hooks
initialize-hook sys p h = ground arith

-- The original leaves the hook alone: it does not call an override itself.
abbrev pub IsQuiet : Option Original → Type 0
IsQuiet none = Unit
IsQuiet (some f) = (h : Hook) → (f h).1 ≡ h

pub call_original-quiet :
    (o : Option Original) (missing : ℕ) (p : Process)
    → IsQuiet o
    → (call_original o missing p).1 ≡ p
unfolding call_original
call_original-quiet none missing p quiet = refl
call_original-quiet (some f) missing p quiet = ap (λ h. record p { hook = h }) (quiet p.hook)

-- What an intercepted computation records: the begins of the graph and of its nodes before the
-- original, and the ends of the nodes and of the graph after it.
abbrev pub compute_events : Config → Times → Graph → ℕ → ℤ → List Event
compute_events c t g backend k = begin_events c t g backend k ++ end_events c t g backend k

intercept-after :
    (sys : System) (original : Originals → Option Original) (t : Times) (g : Graph) (backend : ℕ)
    (k : ℤ) (p : Process)
    → (intercept sys original t g backend k p).1
      ≡ after_compute t g backend k
          (call_original
            (original (initialize sys (before_compute t g backend k p)).originals)
            sys.status_success
            (initialize sys (before_compute t g backend k p))).1
unfolding intercept
intercept-after sys original t g backend k p = refl

-- A graph computation that is intercepted while a trace is written leaves in the file the events
-- so far, the begin of the graph, the begins of its nodes that are not null in their order, the
-- ends of the same nodes in the same order, and the end of the graph, all flushed. The conditions:
-- timing and file output are on and nothing is filtered, every event so far is in the file or in
-- the ring and counted, the event limit is at most 100000000 and leaves room for the new events,
-- and the original function, where there is one, does not touch the hook.
pub intercept-written :
    (sys : System) (original : Originals → Option Original) (t : Times) (g : Graph) (backend : ℕ)
    (k : ℤ) (p : Process) (n : ℕ) (xs : List Event)
    → TracesAll p.manager.config
    → n + length (compute_events p.manager.config t g backend k)
      ≤ p.manager.config.instrumentation.max_events
    → Holding p.manager.config p.hook n xs
    → IsQuiet (original (initialize sys p).originals)
    → (intercept sys original t g backend k p).1.hook.written
      ≡ trace_header ++ encode_events (xs ++ compute_events p.manager.config t g backend k)
intercept-written sys original t g backend k p n xs all fits r quiet =
    let c = p.manager.config in
    let begins = begin_events c t g backend k in
    let ends = end_events c t g backend k in
    let (h, before, r1) =
      before_compute-Holding t g backend k p n xs all (omega (arith, length-append begins ends))
        r in
    let q : Process = record p {
      hook = h;
      originals = (initialize sys p).originals;
      hooks_initialized = (initialize sys p).hooks_initialized;
    } in
    let same : initialize sys (before_compute t g backend k p) ≡ q =
      ap (initialize sys) before ∙ initialize-hook sys p h in
    let called : (call_original
          (original (initialize sys (before_compute t g backend k p)).originals) sys.status_success
          (initialize sys (before_compute t g backend k p))).1
        ≡ q =
      ap (λ q1. (call_original (original q1.originals) sys.status_success q1).1) same
      ∙ call_original-quiet (original (initialize sys p).originals) sys.status_success q quiet in
    ap (λ q1. q1.hook.written) (intercept-after sys original t g backend k p)
    ∙ ap (λ q1. (after_compute t g backend k q1).hook.written) called
    ∙ after_compute-written t g backend k q (n + length begins) (xs ++ begins) all
        (omega (arith, length-append begins ends)) r1
    ∙ ap (λ l. trace_header ++ encode_events l) (append_assoc xs begins ends)

-- Right after `start` the trace holds no event.
pub start_with-Holding :
    (c : Config) (h : Hook) → TracesAll c → h.active ≡ false → Holding c (start_with c true h) 0 []
start_with-Holding c h t idle =
    let enabled : (c.instrumentation.enable_op_timing || c.instrumentation.enable_memory_tracking)
        ≡ true =
      ap (λ b. b || c.instrumentation.enable_memory_tracking) t.timing in
    subst (λ h1. Holding c h1 0 []) (sym (start_with-started c h enabled t.to_file idle))
      (record { all = ([], [], refl, started-Logged c h); number = refl })
