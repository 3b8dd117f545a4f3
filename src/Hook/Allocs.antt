-- ===== src/Hook/Allocs.antt =====
-- The overrides of ggml's allocation functions (instrumentation/ggml_hook.cpp).
use ggml_viz.Base.{
  ℕ, suc, Bool, true, false, List, [], ◌∷◌, Option, none, some, if◌then◌else◌, ◌≡◌, refl, ap,
  fun_ext, arith, ◌∙◌, inl, inr, Bool-cases,
}
use ggml_viz.Config.Manager.{Manager, Load, loads, throws}
use ggml_viz.Hook.Defs.{Hook}
use ggml_viz.Hook.Callbacks.{Tensor, Graph, Moment, nbytes_simple, on_tensor_alloc, record_memory}
use ggml_viz.Hook.Interpose.{
  System, Process, Originals, Original, initialize, install_ggml_hooks, auto_start, call_original,
}
use ggml_viz.Hook.Brackets.{IsQuiet, call_original-quiet}

unfoldable pub alloc_one : Manager → Moment → Option Tensor → Hook → Hook
alloc_one m t none h = h
alloc_one m t (some x) h = on_tensor_alloc m.config t (some x) (nbytes_simple (some x)) h

unfoldable pub alloc_list : Manager → (ℕ → Moment) → ℕ → List (Option Tensor) → Hook → Hook
alloc_list m times i [] h = h
alloc_list m times i (x ∷ xs) h = alloc_list m times (suc i) xs (alloc_one m (times i) x h)

-- The nodes, then the leafs; `graph` may be null.
unfoldable pub alloc_graph : Manager → (ℕ → Moment) → (ℕ → Moment) → Option Graph → Hook → Hook
alloc_graph m node_times leaf_times none h = h
alloc_graph m node_times leaf_times (some g) h =
    alloc_list m leaf_times 0 g.leafs (alloc_list m node_times 0 g.nodes h)

-- The events are recorded before the original runs, and whatever it returns.
unfoldable pub intercept_alloc :
    System → (Originals → Option Original) → ℕ → (Manager → Hook → Hook) → Process → ℕ × Process
intercept_alloc sys original missing record_allocs p =
    let p1 =
      initialize sys
        (if p.hook.active then record p { hook = record_allocs p.manager p.hook } else p) in
    call_original (original p1.originals) missing p1

unfoldable pub intercept_alloc_started :
    System
    → (Originals → Option Original)
    → ℕ
    → (Manager → Hook → Hook)
    → Load Process
    → Load (ℕ × Process)
intercept_alloc_started sys original missing record_allocs (throws e) = throws e
intercept_alloc_started sys original missing record_allocs (loads p) =
    loads (intercept_alloc sys original missing record_allocs p)

unfoldable pub ggml_tallocr_alloc : System → Moment → Option Tensor → Process → Load (ℕ × Process)
ggml_tallocr_alloc sys t x p =
    intercept_alloc_started sys (λ o. o.tallocr_alloc) sys.status_success (λ m h. alloc_one m t x h)
      (auto_start sys p)

-- `false` (0) without an original.
unfoldable pub ggml_gallocr_alloc_graph :
    System → (ℕ → Moment) → (ℕ → Moment) → Option Graph → Process → Load (ℕ × Process)
ggml_gallocr_alloc_graph sys node_times leaf_times g p =
    intercept_alloc_started sys (λ o. o.gallocr_alloc_graph) 0
      (λ m h. alloc_graph m node_times leaf_times g h) (auto_start sys p)

-- `ctx` is whether the context is not null. The callback is given a null tensor; a null pointer (0)
-- is returned without an original.
unfoldable pub ggml_backend_alloc_ctx_tensors :
    System → Moment → Bool → Process → Load (ℕ × Process)
ggml_backend_alloc_ctx_tensors sys t ctx p =
    intercept_alloc_started sys (λ o. o.backend_alloc_ctx_tensors) 0
      (λ m h. if ctx then on_tensor_alloc m.config t none 0 h else h) (auto_start sys p)

on_tensor_alloc-none :
    (m : Manager) (t : Moment) (h : Hook) → on_tensor_alloc m.config t none 0 h ≡ h
unfolding on_tensor_alloc record_memory
on_tensor_alloc-none m t h = ground arith

alloc_none-if :
    (t : Moment) (ctx : Bool) (m : Manager) (h : Hook)
    → (if ctx then on_tensor_alloc m.config t none 0 h else h) ≡ h
alloc_none-if t true m h = on_tensor_alloc-none m t h
alloc_none-if t false m h = refl

without_callback :
    (sys : System) (t : Moment) (ctx : Bool) (p : Process)
    → ggml_backend_alloc_ctx_tensors sys t ctx p
      ≡ intercept_alloc_started sys
          (λ o. o.backend_alloc_ctx_tensors)
          0
          (λ m h. h)
          (auto_start sys p)
unfolding ggml_backend_alloc_ctx_tensors
without_callback sys t ctx p =
    ap (λ f. intercept_alloc_started sys (λ o. o.backend_alloc_ctx_tensors) 0 f (auto_start sys p))
      (fun_ext (λ m. fun_ext (alloc_none-if t ctx m)))

intercept_alloc-none :
    (sys : System) (p : Process)
    → intercept_alloc sys (λ o. o.backend_alloc_ctx_tensors) 0 (λ m h. h) p
      ≡ call_original (initialize sys p).originals.backend_alloc_ctx_tensors 0 (initialize sys p)
unfolding intercept_alloc
intercept_alloc-none sys p = elim (Bool-cases p.hook.active) [
  | inl e ↦ rw e refl
  | inr e ↦ rw e refl
]

auto_start-active : (sys : System) (p : Process) → p.hook.active ≡ true → auto_start sys p ≡ loads p
unfolding auto_start
auto_start-active sys p on = rw on refl

initialize-keeps_hook : (sys : System) (p : Process) → (initialize sys p).hook ≡ p.hook
unfolding initialize install_ggml_hooks
initialize-keeps_hook sys p = ground arith

-- The override of ggml_backend_alloc_ctx_tensors, called while the hook is active, loads and leaves
-- the whole state of the hook as it was, its ring, its counts and its file: no event is recorded,
-- with a context or without. The original, where there is one, does not touch the hook.
pub ggml_backend_alloc_ctx_tensors-records_nothing :
    (sys : System) (t : Moment) (ctx : Bool) (p : Process)
    → p.hook.active ≡ true
    → IsQuiet (initialize sys p).originals.backend_alloc_ctx_tensors
    → (status : ℕ) × (q : Process) × (ggml_backend_alloc_ctx_tensors sys t ctx p
        ≡ loads (status, q))
      × (q.hook ≡ p.hook)
unfolding intercept_alloc_started
ggml_backend_alloc_ctx_tensors-records_nothing sys t ctx p on quiet =
    let called =
      call_original (initialize sys p).originals.backend_alloc_ctx_tensors 0 (initialize sys p) in
    (
      called.0,
      called.1,
      without_callback sys t ctx p
          ∙ ap (intercept_alloc_started sys (λ o. o.backend_alloc_ctx_tensors) 0 (λ m h. h))
              (auto_start-active sys p on)
          ∙ ap loads (intercept_alloc-none sys p),
      ap (λ q. q.hook)
            (call_original-quiet (initialize sys p).originals.backend_alloc_ctx_tensors 0
              (initialize sys p) quiet)
          ∙ initialize-keeps_hook sys p,
    )
