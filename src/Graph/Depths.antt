-- ===== src/Graph/Depths.antt =====
-- The layout of the graph of a trace (frontend/imgui_widgets.cpp).
use ggml_viz.Base.{
  ℕ, zero, suc, ◌+◌, ◌-◌, ◌≤◌, ◌<◌, ◌≡◌, refl, sym, ap, ap₂, subst, ◌∙◌, true, false, List, [], ◌∷◌,
  Option, none, some, ltb, if◌then◌else◌, length, max, arith, dec_lt,
}
use ggml_viz.Trace.Queries.{OpTiming}
use ggml_viz.Graph.Defs.{
  GraphNode, number_nodes, connect, build_graph_from_trace, has_none, roots_from, or_first, Depths,
  set_depth, root_depths, outputs_at, is_less, visit_outputs, depth_of, walk, assign_depths,
}

-- What node `k` of `n` points to.
abbrev next : ℕ → ℕ → List ℕ
next k n = if ltb (suc k) n then suc k ∷ [] else []

length-connect :
    (before : List ℕ) (i : ℕ) (ts : List OpTiming)
    → length (connect before (number_nodes i ts)) ≡ length ts
unfolding connect number_nodes
length-connect before i [] = refl
length-connect before i (t ∷ []) = refl
length-connect before i (t ∷ (u ∷ ts)) = ap suc (length-connect (i ∷ []) (suc i) (u ∷ ts))

roots_from-connect :
    (j i p : ℕ) (ts : List OpTiming) → roots_from j (connect (p ∷ []) (number_nodes i ts)) ≡ []
unfolding connect number_nodes roots_from has_none
roots_from-connect j i p [] = refl
roots_from-connect j i p (t ∷ []) = refl
roots_from-connect j i p (t ∷ (u ∷ ts)) = roots_from-connect (suc j) (suc i) i (u ∷ ts)

outputs_at-connect :
    (k i : ℕ) (before : List ℕ) (ts : List OpTiming)
    → k < length ts
    → outputs_at k (connect before (number_nodes i ts)) ≡ next (i + k) (i + length ts)
unfolding connect number_nodes outputs_at
outputs_at-connect k i before [] low = absurd (omega arith)
outputs_at-connect zero i before (t ∷ []) low = ground arith
outputs_at-connect (suc k) i before (t ∷ []) low = absurd (omega arith)
outputs_at-connect zero i before (t ∷ (u ∷ ts)) low = ground arith
outputs_at-connect (suc k) i before (t ∷ (u ∷ ts)) low =
    outputs_at-connect k (suc i) (i ∷ []) (u ∷ ts) (omega arith)
    ∙ (let e : suc i + k ≡ i + suc k = omega arith in
        let f : suc i + suc (length ts) ≡ i + suc (suc (length ts)) = omega arith in ap₂ next e f)

-- The first `k + 1` nodes have their depths, and the others none.
record Reached (k : ℕ) (d : Depths) : Type 0 where
  known : (j : ℕ) → j ≤ k → d j ≡ some j
  unknown : (j : ℕ) → k < j → d j ≡ none

-- The walk has ended, node `j` has depth `j`, and the last node is the deepest.
abbrev pub Placed : ℕ → Option (Depths × ℕ) → Type 0
Placed n none = ⊥
Placed n (some (d, max_depth)) = ((j : ℕ) → j < n → d j ≡ some j) × (max_depth + 1 ≡ n)

set_depth-Reached :
    (k : ℕ) (d : Depths) → Reached k d → Reached (suc k) (set_depth (suc k) (suc k) d)
unfolding set_depth
set_depth-Reached k d r = record {
  known = λ j low. ground (arith, r.known j);
  unknown = λ j high. ground (arith, r.unknown j (omega (arith, high)));
}

visit_next :
    (n k : ℕ) (d : Depths)
    → k < n
    → Reached k d
    → suc k < n
    → visit_outputs n (suc k) (next k n) d ≡ (set_depth (suc k) (suc k) d, suc k ∷ [])
unfolding visit_outputs is_less
visit_next n k d low r more =
    let inside : ltb (suc k) n ≡ true = ground (arith, more) in
    rw (inside, inside, r.unknown (suc k) (omega arith)) refl

visit_last : (n k : ℕ) (d : Depths) → n ≤ suc k → visit_outputs n (suc k) (next k n) d ≡ (d, [])
unfolding visit_outputs
visit_last n k d last = let outside : ltb (suc k) n ≡ false = ground (arith, last) in rw outside

walk-visited :
    (rounds k m depth : ℕ) (nodes : List GraphNode) (d : Depths) (v : Depths × List ℕ)
    → d k ≡ some depth
    → visit_outputs (length nodes) (suc depth) (outputs_at k nodes) d ≡ v
    → walk (suc rounds) nodes d (k ∷ []) m ≡ walk rounds nodes v.0 v.1 (max m depth)
unfolding walk depth_of
walk-visited rounds k m depth nodes d v known visited =
    let visit : Option ℕ → Depths × List ℕ =
      λ o. visit_outputs (length nodes) (suc (depth_of o)) (outputs_at k nodes) d in
    ap (λ o. walk rounds nodes (visit o).0 (visit o).1 (max m (depth_of o))) known
    ∙ ap (λ w. walk rounds nodes w.0 w.1 (max m depth)) visited

module _ (n : ℕ) (nodes : List GraphNode) (size : length nodes ≡ n)
    (chain : (j : ℕ) → j < n → outputs_at j nodes ≡ next j n) where
  visit_chain :
      (k : ℕ) (d : Depths)
      → k < n
      → visit_outputs (length nodes) (suc k) (outputs_at k nodes) d
        ≡ visit_outputs n (suc k) (next k n) d
  visit_chain k d low = ap₂ (λ s os. visit_outputs s (suc k) os d) size (chain k low)

  walk-Placed :
      (rounds k m : ℕ) (d : Depths)
      → k < n
      → n - k ≤ rounds
      → m ≤ k
      → Reached k d
      → Placed n (walk rounds nodes d (k ∷ []) m)
  unfolding walk
  walk-Placed zero k m d low enough small r = absurd (omega (arith, low, enough))
  walk-Placed (suc rounds) k m d low enough small r = elim (dec_lt (suc k) n) [
    | yes more ↦
        subst (Placed n)
          (sym (
            walk-visited rounds k m k nodes d (set_depth (suc k) (suc k) d, suc k ∷ [])
              (r.known k (omega arith)) (visit_chain k d low ∙ visit_next n k d low r more)))
          (walk-Placed rounds (suc k) (max m k) (set_depth (suc k) (suc k) d) more (omega arith)
            (omega arith) (set_depth-Reached k d r))
    | no done ↦
        subst (Placed n)
          (sym (
            walk-visited rounds k m k nodes d (d, []) (r.known k (omega arith))
              (visit_chain k d low ∙ visit_last n k d (omega arith))))
          (λ j below. r.known j (omega (arith, below, low)), omega arith)
  ]

root-Reached : Reached 0 (root_depths (0 ∷ []))
unfolding root_depths set_depth
root-Reached = record {
  known = λ j low. ground (arith, ap some (let z : 0 ≡ j = omega arith in z));
  unknown = λ j high. ground (arith, high);
}

roots-connect :
    (t : OpTiming) (ts : List OpTiming)
    → or_first (build_graph_from_trace (t ∷ ts)) (roots_from 0 (build_graph_from_trace (t ∷ ts)))
      ≡ 0 ∷ []
unfolding build_graph_from_trace connect number_nodes roots_from has_none or_first
roots-connect t [] = refl
roots-connect t (u ∷ ts) =
    ap (λ rs. or_first (build_graph_from_trace (t ∷ (u ∷ ts))) (0 ∷ rs))
      (roots_from-connect 1 1 0 (u ∷ ts))

-- The breadth-first walk over the graph of any trace ends, after as many rounds as there are nodes,
-- or more: the node of timing `i` has depth `i`, so every layer of the layout holds one node, and
-- the last node is the deepest. There is at least one timing.
pub assign_depths-Placed :
    (rounds : ℕ) (t : OpTiming) (ts : List OpTiming)
    → length (t ∷ ts) ≤ rounds
    → Placed (length (t ∷ ts)) (assign_depths rounds (build_graph_from_trace (t ∷ ts)))
unfolding assign_depths build_graph_from_trace
assign_depths-Placed rounds t ts enough =
    let nodes = build_graph_from_trace (t ∷ ts) in
    subst (λ rs. Placed (length (t ∷ ts)) (walk rounds nodes (root_depths rs) rs 0))
      (sym (roots-connect t ts))
      (walk-Placed (length (t ∷ ts)) nodes (length-connect [] 0 (t ∷ ts))
        (λ j low.
          outputs_at-connect j 0 [] (t ∷ ts) low
          ∙ ap₂ next (let e : 0 + j ≡ j = omega arith in e)
              (let e : 0 + length (t ∷ ts) ≡ length (t ∷ ts) = omega arith in e))
        rounds 0 0 (root_depths (0 ∷ [])) (omega arith) (omega (arith, enough)) (omega arith)
        root-Reached)
