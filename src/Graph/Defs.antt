-- ===== src/Graph/Defs.antt =====
-- GraphWidget: the nodes that build_graph_from_trace makes, and the depths that auto_layout_nodes
-- gives them (frontend/imgui_widgets.cpp).
use ggml_viz.Base.{
  ℕ, zero, suc, Bool, true, false, ◌&&◌, List, [], ◌∷◌, ◌++◌, Option, none, some, ltb, ◌==◌,
  if◌then◌else◌, length, max,
}
use ggml_viz.Trace.Queries.{OpTiming}

-- The fields of GraphWidget::GraphNode that the layout reads, and the timing that the others come
-- from.
pub record GraphNode : Type 0 where
  pub node_id : ℕ
  pub timing : OpTiming
  pub inputs : List ℕ
  pub outputs : List ℕ

unfoldable pub number_nodes : ℕ → List OpTiming → List GraphNode
number_nodes i [] = []
number_nodes i (t ∷ ts) =
    record { node_id = i; timing = t; inputs = []; outputs = [] } ∷ number_nodes (suc i) ts

-- The loop over neighbours; `before` is the node before this one.
unfoldable pub connect : List ℕ → List GraphNode → List GraphNode
connect before [] = []
connect before (x ∷ []) = record x { inputs = before } ∷ []
connect before (x ∷ (y ∷ ys)) =
    record x { inputs = before; outputs = y.node_id ∷ [] } ∷ connect (x.node_id ∷ []) (y ∷ ys)

-- The timings as get_op_timings returns them.
unfoldable pub build_graph_from_trace : List OpTiming → List GraphNode
build_graph_from_trace timings = connect [] (number_nodes 0 timings)

unfoldable pub has_none : List ℕ → Bool
has_none [] = true
has_none (i ∷ is) = false

unfoldable pub roots_from : ℕ → List GraphNode → List ℕ
roots_from i [] = []
roots_from i (x ∷ xs) =
    let others = roots_from (suc i) xs in if has_none x.inputs then i ∷ others else others

-- Without a root the first node is one.
unfoldable pub or_first : List GraphNode → List ℕ → List ℕ
or_first [] [] = []
or_first (x ∷ xs) [] = 0 ∷ []
or_first nodes (r ∷ rs) = r ∷ rs

-- `node_depths`; `none` is -1.
abbrev pub Depths : Type 0
Depths = ℕ → Option ℕ

unfoldable pub set_depth : ℕ → ℕ → Depths → Depths
set_depth i depth d j = if j == i then some depth else d j

unfoldable pub root_depths : List ℕ → Depths
root_depths [] j = none
root_depths (r ∷ rs) j = set_depth r 0 (root_depths rs) j

unfoldable pub outputs_at : ℕ → List GraphNode → List ℕ
outputs_at i [] = []
outputs_at zero (x ∷ xs) = x.outputs
outputs_at (suc i) (x ∷ xs) = outputs_at i xs

-- `node_depths[output_id] < depth`
unfoldable pub is_less : Option ℕ → ℕ → Bool
is_less none depth = true
is_less (some old) depth = ltb old depth

-- The loop over the outputs of a node: the depths, and the nodes that join the queue.
unfoldable pub visit_outputs : ℕ → ℕ → List ℕ → Depths → Depths × List ℕ
visit_outputs size depth [] d = (d, [])
visit_outputs size depth (o ∷ os) d =
    let deeper = ltb o size && is_less (d o) depth in
    let rest = visit_outputs size depth os (if deeper then set_depth o depth d else d) in
    if deeper then (rest.0, o ∷ rest.1) else rest

-- A node in the queue has a depth.
unfoldable pub depth_of : Option ℕ → ℕ
depth_of none = 0
depth_of (some depth) = depth

-- The breadth-first walk, one node of the queue a round; `none` if the rounds run out.
unfoldable pub walk : ℕ → List GraphNode → Depths → List ℕ → ℕ → Option (Depths × ℕ)
walk rounds nodes d [] max_depth = some (d, max_depth)
walk zero nodes d (current ∷ queue) max_depth = none
walk (suc rounds) nodes d (current ∷ queue) max_depth =
    let visited =
      visit_outputs (length nodes) (suc (depth_of (d current))) (outputs_at current nodes) d in
    walk rounds nodes visited.0 (queue ++ visited.1) (max max_depth (depth_of (d current)))

unfoldable pub assign_depths : ℕ → List GraphNode → Option (Depths × ℕ)
assign_depths rounds nodes =
    let roots = or_first nodes (roots_from 0 nodes) in walk rounds nodes (root_depths roots) roots 0
