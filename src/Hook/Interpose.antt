-- ===== src/Hook/Interpose.antt =====
-- The functions of ggml that the shared library overrides (instrumentation/ggml_hook.cpp), and
-- install_ggml_hooks and uninstall_ggml_hooks.
use ggml_viz.Base.{ℕ, suc, Bool, true, List, [], ◌∷◌, Option, none, some, String, if◌then◌else◌}
use ggml_viz.Config.Env.{Env}
use ggml_viz.Config.Manager.{Manager, Load, loads, throws, Files}
use ggml_viz.Hook.Defs.{Hook, start}
use ggml_viz.Hook.Callbacks.{
  ℤ, pos, Tensor, Graph, Moment, on_graph_compute_begin, on_graph_compute_end, on_op_compute_begin,
  on_op_compute_end,
}

-- An original function of ggml: its status, and what it does to the hook's state where it calls
-- back.
abbrev pub Original : Type 0
Original = Hook → ℕ × Hook

-- What `dlsym` finds: our own override, or the original.
pub data Symbol : Type 0 where
  ours : Symbol
  theirs : Original → Symbol

-- The function pointers that install_ggml_hooks fills.
pub record Originals : Type 0 where
  pub backend_graph_compute : Option Original
  pub graph_compute : Option Original
  pub graph_compute_with_ctx : Option Original
  pub metal_graph_compute : Option Original
  pub tallocr_alloc : Option Original
  pub gallocr_alloc_graph : Option Original
  pub backend_alloc_ctx_tensors : Option Original

-- The process: the hook, the configuration manager, the pointers and `hooks_initialized`.
pub record Process : Type 0 where
  pub hook : Hook
  pub manager : Manager
  pub originals : Originals
  pub hooks_initialized : Bool

-- What the process finds outside: files, environment, whether the trace file opens, and its symbols
-- (`none` where `dlopen` fails). GGML_STATUS_SUCCESS is a number that the ggml library fixes.
pub record System : Type 0 where
  pub files : Files
  pub env : Env
  pub opens : Bool
  pub dlsym : Option (String → Option Symbol)
  pub status_success : ℕ

abbrev pub no_originals : Originals
no_originals = record {
  backend_graph_compute = none;
  graph_compute = none;
  graph_compute_with_ctx = none;
  metal_graph_compute = none;
  tallocr_alloc = none;
  gallocr_alloc_graph = none;
  backend_alloc_ctx_tensors = none;
}

-- A symbol is stored if it is found and is not the override itself.
unfoldable pub stored : Option Symbol → Option Original → Option Original
stored none old = old
stored (some ours) old = old
stored (some (theirs f)) old = some f

unfoldable pub found : Option (String → Option Symbol) → Originals → Originals
found none o = o
found (some find) o = record {
  backend_graph_compute = stored (find "ggml_backend_graph_compute") o.backend_graph_compute;
  graph_compute = stored (find "ggml_graph_compute") o.graph_compute;
  graph_compute_with_ctx = stored (find "ggml_graph_compute_with_ctx") o.graph_compute_with_ctx;
  metal_graph_compute = stored (find "ggml_backend_metal_graph_compute") o.metal_graph_compute;
  tallocr_alloc = stored (find "ggml_tallocr_alloc") o.tallocr_alloc;
  gallocr_alloc_graph = stored (find "ggml_gallocr_alloc_graph") o.gallocr_alloc_graph;
  backend_alloc_ctx_tensors =
      stored (find "ggml_backend_alloc_ctx_tensors") o.backend_alloc_ctx_tensors;
}

unfoldable pub install_ggml_hooks : System → Process → Process
install_ggml_hooks sys p = record p { originals = found sys.dlsym p.originals }

unfoldable pub uninstall_ggml_hooks : Process → Process
uninstall_ggml_hooks p = record p { originals = no_originals }

-- `if (!hooks_initialized) { install_ggml_hooks(); hooks_initialized = true; }`
unfoldable pub initialize : System → Process → Process
initialize sys p =
    if p.hooks_initialized
    then p
    else record (install_ggml_hooks sys p) { hooks_initialized = true }

unfoldable pub started : Process → Load (Manager × Hook) → Load Process
started p (throws e) = throws e
started p (loads (m, h)) = loads (record p { manager = m; hook = h })

unfoldable pub start_if_asked : System → Process → Option String → Load Process
start_if_asked sys p none = loads p
start_if_asked sys p (some output) = started p (start sys.files sys.env sys.opens p.manager p.hook)

-- `if (!hook.is_active() && getenv("GGML_VIZ_OUTPUT")) hook.start();`
unfoldable pub auto_start : System → Process → Load Process
auto_start sys p =
    if p.hook.active then loads p else start_if_asked sys p (sys.env "GGML_VIZ_OUTPUT")

-- The loops over the nodes; `times i` is the moment of the callback of node `i`.
unfoldable pub begin_nodes : Manager → (ℕ → Moment) → ℕ → List (Option Tensor) → ℕ → Hook → Hook
begin_nodes m times i [] backend h = h
begin_nodes m times i (none ∷ ns) backend h = begin_nodes m times (suc i) ns backend h
begin_nodes m times i (some x ∷ ns) backend h =
    begin_nodes m times (suc i) ns backend
      (on_op_compute_begin m.config (times i) (some x) backend h)

unfoldable pub end_nodes : Manager → (ℕ → Moment) → ℕ → List (Option Tensor) → ℕ → Hook → Hook
end_nodes m times i [] backend h = h
end_nodes m times i (none ∷ ns) backend h = end_nodes m times (suc i) ns backend h
end_nodes m times i (some x ∷ ns) backend h =
    end_nodes m times (suc i) ns backend (on_op_compute_end m.config (times i) (some x) backend h)

-- The moments of one intercepted call: the graph's begin and end, and the nodes' begins and ends.
pub record Times : Type 0 where
  pub graph_begin : Moment
  pub node_begin : ℕ → Moment
  pub node_end : ℕ → Moment
  pub graph_end : Moment

unfoldable pub before_compute : Times → Graph → ℕ → ℤ → Process → Process
before_compute t g backend n_threads p =
    if p.hook.active
    then record p {
      hook =
          begin_nodes p.manager t.node_begin 0 g.nodes backend (
            on_graph_compute_begin p.manager.config t.graph_begin (some g) backend n_threads
              p.hook);
    }
    else p

unfoldable pub after_compute : Times → Graph → ℕ → ℤ → Process → Process
after_compute t g backend n_threads p =
    if p.hook.active
    then record p {
      hook =
          on_graph_compute_end p.manager.config t.graph_end (some g) backend n_threads
            (end_nodes p.manager t.node_end 0 g.nodes backend p.hook);
    }
    else p

-- The original, or the status that is returned without one.
unfoldable pub call_original : Option Original → ℕ → Process → ℕ × Process
call_original none missing p = (missing, p)
call_original (some f) missing p = let (status, h) = f p.hook in (status, record p { hook = h })

-- From the begin callbacks on: what all four overrides of a graph computation do.
unfoldable pub intercept :
    System → (Originals → Option Original) → Times → Graph → ℕ → ℤ → Process → ℕ × Process
intercept sys original t g backend n_threads p =
    let p1 = initialize sys (before_compute t g backend n_threads p) in
    let (status, p2) = call_original (original p1.originals) sys.status_success p1 in
    (status, after_compute t g backend n_threads p2)

unfoldable pub intercept_started :
    System → (Originals → Option Original) → Times → Graph → ℕ → Load Process → Load (ℕ × Process)
intercept_started sys original t g backend (throws e) = throws e
intercept_started sys original t g backend (loads p) =
    loads (intercept sys original t g backend (pos 0) p)

unfoldable pub ggml_backend_graph_compute :
    System → Times → ℕ → Graph → Process → Load (ℕ × Process)
ggml_backend_graph_compute sys t backend g p =
    intercept_started sys (λ o. o.backend_graph_compute) t g backend (auto_start sys p)

-- The older entry point has no backend, and its status is not returned.
unfoldable pub ggml_graph_compute : System → Times → Graph → Process → Load (ℕ × Process)
ggml_graph_compute sys t g p = intercept_started sys (λ o. o.graph_compute) t g 0 (auto_start sys p)

-- No automatic start here; the number of threads is known.
unfoldable pub ggml_graph_compute_with_ctx : System → Times → Graph → ℤ → Process → ℕ × Process
ggml_graph_compute_with_ctx sys t g n_threads p =
    intercept sys (λ o. o.graph_compute_with_ctx) t g 0 n_threads p

unfoldable pub ggml_backend_metal_graph_compute :
    System → Times → ℕ → Graph → Process → Load (ℕ × Process)
ggml_backend_metal_graph_compute sys t backend g p =
    intercept_started sys (λ o. o.metal_graph_compute) t g backend (auto_start sys p)
