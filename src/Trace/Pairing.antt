-- ===== src/Trace/Pairing.antt =====
-- Which begin and end events TraceReader::get_op_timings (utils/trace_reader.cpp) pairs.
use ggml_viz.Base.{
  ℕ, ◌≡◌, refl, sym, ap, ap₂, ◌∙◌, List, [], ◌∷◌, ◌++◌, arith, Option, none, some, ◌==◌,
  if◌then◌else◌, lookup, Unique, insert-Unique, erase-Unique, lookup-insert, lookup-erase,
}
use ggml_viz.Event.{
  EventType, graph_compute_begin, op_compute_begin, op_compute_end, Event, tensor_ptr,
}
use ggml_viz.Trace.Queries.{OpTiming, timing, end_op, pair_op, pair_ops}

-- The begin that is open for the tensor `p`: an account of the trace that keeps no table. `before`
-- is what the earlier events say.
abbrev pub begun_after : ℕ → EventType → Event → Option Event → Option Event
begun_after p op_compute_begin e before = if tensor_ptr e.payload == p then some e else before
begun_after p op_compute_end e before = if tensor_ptr e.payload == p then none else before
begun_after p _ e before = before

abbrev pub begun_from : ℕ → Option Event → List Event → Option Event
begun_from p before [] = before
begun_from p before (e ∷ es) = begun_from p (begun_after p e.type e before) es

-- The timing that ends at `e`, where the begin `b` is open.
abbrev pub closed_by : EventType → Event → Option Event → List OpTiming
closed_by op_compute_end e (some b) = timing b e ∷ []
closed_by _ e b = []

-- Behind the events `seen`: every end of an operation whose tensor has an open begin.
abbrev pub paired : List Event → List Event → List OpTiming
paired seen [] = []
paired seen (e ∷ es) =
    closed_by e.type e (begun_from (tensor_ptr e.payload) none seen) ++ paired (seen ++ e ∷ []) es

-- The table agrees with the account of the events seen.
record Agrees (seen : List Event) (pending : List (ℕ × Event)) : Type 0 where
  unique : Unique pending
  same : (p : ℕ) → lookup p pending ≡ begun_from p none seen

begun_from-snoc :
    (p : ℕ) (before : Option Event) (seen : List Event) (e : Event)
    → begun_from p before (seen ++ e ∷ []) ≡ begun_after p e.type e (begun_from p before seen)
begun_from-snoc p before [] e = refl
begun_from-snoc p before (x ∷ xs) e = begun_from-snoc p (begun_after p x.type x before) xs e

end_op-Unique :
    (e : Event) (o : Option Event) (pending : List (ℕ × Event))
    → Unique pending
    → Unique (end_op e o pending).1
unfolding end_op
end_op-Unique e none pending u = u
end_op-Unique e (some b) pending u = erase-Unique _ pending u

pair_op-Unique :
    (t : EventType) (e : Event) (pending : List (ℕ × Event))
    → Unique pending
    → Unique (pair_op t e pending).1
unfolding pair_op
pair_op-Unique op_compute_begin e pending u = insert-Unique _ e pending u
pair_op-Unique op_compute_end e pending u = end_op-Unique e _ pending u
pair_op-Unique graph_compute_begin e pending u = u
pair_op-Unique _ e pending u = u

lookup-end_op :
    (p : ℕ) (e : Event) (o : Option Event) (pending : List (ℕ × Event))
    → Unique pending
    → lookup (tensor_ptr e.payload) pending ≡ o
    → lookup p (end_op e o pending).1
      ≡ (if tensor_ptr e.payload == p then none else lookup p pending)
unfolding end_op
lookup-end_op p e none pending u h = ground arith
lookup-end_op p e (some b) pending u h = lookup-erase _ p pending u

lookup-pair_op :
    (p : ℕ) (t : EventType) (e : Event) (pending : List (ℕ × Event))
    → Unique pending
    → lookup p (pair_op t e pending).1 ≡ begun_after p t e (lookup p pending)
unfolding pair_op
lookup-pair_op p op_compute_begin e pending u = lookup-insert _ p e pending
lookup-pair_op p op_compute_end e pending u = lookup-end_op p e _ pending u refl
lookup-pair_op p graph_compute_begin e pending u = refl
lookup-pair_op p _ e pending u = refl

pair_op-Agrees :
    (seen : List Event) (e : Event) (pending : List (ℕ × Event))
    → Agrees seen pending
    → Agrees (seen ++ e ∷ []) (pair_op e.type e pending).1
pair_op-Agrees seen e pending a = record {
  unique = pair_op-Unique e.type e pending a.unique;
  same = λ p.
      lookup-pair_op p e.type e pending a.unique
      ∙ ap (begun_after p e.type e) (a.same p)
      ∙ sym (begun_from-snoc p none seen e);
}

end_op-closed_by :
    (e : Event) (o : Option Event) (pending : List (ℕ × Event))
    → (end_op e o pending).0 ≡ closed_by op_compute_end e o
unfolding end_op
end_op-closed_by e none pending = refl
end_op-closed_by e (some b) pending = refl

pair_op-closed_by :
    (t : EventType) (e : Event) (pending : List (ℕ × Event))
    → (pair_op t e pending).0 ≡ closed_by t e (lookup (tensor_ptr e.payload) pending)
unfolding pair_op
pair_op-closed_by op_compute_begin e pending = refl
pair_op-closed_by op_compute_end e pending = end_op-closed_by e _ pending
pair_op-closed_by graph_compute_begin e pending = refl
pair_op-closed_by _ e pending = refl

pair_ops-paired_from :
    (seen es : List Event) (pending : List (ℕ × Event))
    → Agrees seen pending
    → pair_ops es pending ≡ paired seen es
unfolding pair_ops
pair_ops-paired_from seen [] pending a = refl
pair_ops-paired_from seen (e ∷ es) pending a =
    ap₂ ◌++◌
      (pair_op-closed_by e.type e pending ∙ ap (closed_by e.type e) (a.same (tensor_ptr e.payload)))
      (pair_ops-paired_from (seen ++ e ∷ []) es _ (pair_op-Agrees seen e pending a))

-- Before sorting, the timings of any trace are one for each end of an operation whose tensor's
-- last earlier operation event is a begin, paired with that begin, in the order of the ends. An
-- end without an open begin gives none, and of two begins of a tensor without an end between them
-- only the later is paired.
pub pair_ops-paired : (es : List Event) → pair_ops es [] ≡ paired [] es
unfolding lookup
pair_ops-paired es = pair_ops-paired_from [] es [] (record { unique = tt; same = λ p. refl })
