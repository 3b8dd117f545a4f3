-- ===== src/App/Closing.antt =====
-- The graph, tensor and memory panels close what they open (frontend/imgui_app.cpp).
use ggml_viz.Base.{
  ℕ, ◌≡◌, refl, ◌∙◌, Bool, true, false, List, [], ◌∷◌, Option, none, some, if-cases,
}
use ggml_viz.Event.{Event}
use ggml_viz.App.Defs.{App, is_empty}
use ggml_viz.App.Screen.{
  Panel, stats, browser, timeline, graph, inspector, memory, Scope, window, style, Draw, closes, Ui,
  Gui, Frame, same_panel, same_scope, left_open,
}
use ggml_viz.App.Panels.{
  has_no_source, render_panel, draw_graph, live_graph, selected_node, trace_graph, graph_contents,
  detail_of, event_details, trace_details, inspector_contents, render_graph_view,
  render_tensor_inspector, render_memory_view, when, render_panels,
}
use ggml_viz.App.Timeline.{event_at}
use ggml_viz.App.Nesting.{IsClosed, append-IsClosed, left_open-then, Draws, bind-Draws}
use ggml_viz.App.Frames.{IsSourced, IsClipper, render_timeline_view-Draws}

closes_panel :
    (p : Panel) (st : List Scope)
    → left_open (window p ∷ style p ∷ st) (closes (window p) ∷ closes (style p) ∷ []) ≡ some st
unfolding same_scope same_panel
closes_panel stats st = refl
closes_panel browser st = refl
closes_panel timeline st = refl
closes_panel graph st = refl
closes_panel inspector st = refl
closes_panel memory st = refl

render_panel-IsClosed :
    (p : Panel) (begun : Bool) (app : App) (contents : List Draw)
    → has_no_source app ≡ false
    → IsClosed contents
    → IsClosed (render_panel p begun app contents)
unfolding render_panel
render_panel-IsClosed p false app contents s f st = closes_panel p st
render_panel-IsClosed p true app contents s f st = rw s (
    left_open-then (window p ∷ style p ∷ st) (window p ∷ style p ∷ st) contents
      (closes (window p) ∷ closes (style p) ∷ []) (f (window p ∷ style p ∷ st))
    ∙ closes_panel p st)

draw_graph-IsClosed : (es : List Event) → IsClosed (draw_graph es)
unfolding draw_graph
draw_graph-IsClosed es = if-cases IsClosed (is_empty es) _ _ (λ e st. refl) (λ e st. refl)

selected_node-IsClosed : (n : Option ℕ) → IsClosed (selected_node n)
unfolding selected_node
selected_node-IsClosed none st = refl
selected_node-IsClosed (some n) st = refl

live_graph-IsClosed : (r : Option (List Event)) → IsClosed (live_graph r)
unfolding live_graph
live_graph-IsClosed none st = refl
live_graph-IsClosed (some es) st = draw_graph-IsClosed es st

trace_graph-IsClosed : (n : Option ℕ) (r : Option (List Event)) → IsClosed (trace_graph n r)
unfolding trace_graph
trace_graph-IsClosed n none st = refl
trace_graph-IsClosed n (some es) st =
    append-IsClosed (draw_graph es) (selected_node n) (draw_graph-IsClosed es)
      (selected_node-IsClosed n) st

graph_contents-IsClosed : (app : App) (n : Option ℕ) → IsClosed (graph_contents app n)
unfolding graph_contents
graph_contents-IsClosed app n =
    if-cases IsClosed app.live_mode _ _ (λ e st. live_graph-IsClosed app.live_trace_reader st)
      (λ e. trace_graph-IsClosed n app.trace_reader)

detail_of-IsClosed : (e : Option Event) → IsClosed (detail_of e)
unfolding detail_of
detail_of-IsClosed none st = refl
detail_of-IsClosed (some e) st = refl

event_details-IsClosed : (n : Option ℕ) (es : List Event) → IsClosed (event_details n es)
unfolding event_details
event_details-IsClosed none es = detail_of-IsClosed none
event_details-IsClosed (some i) es = detail_of-IsClosed (event_at i es)

trace_details-IsClosed : (n : Option ℕ) (r : Option (List Event)) → IsClosed (trace_details n r)
unfolding trace_details
trace_details-IsClosed n none st = refl
trace_details-IsClosed n (some es) st = event_details-IsClosed n es st

inspector_contents-IsClosed : (app : App) → IsClosed (inspector_contents app)
unfolding inspector_contents
inspector_contents-IsClosed app =
    if-cases IsClosed app.live_mode _ _
      (λ e st. event_details-IsClosed app.selected_event app.live_events st)
      (λ e. trace_details-IsClosed app.selected_event app.trace_reader)

pub when-Draws :
    (st : List Scope) (P : App → Type 0) (shown : Bool) (f : Ui → Frame Ui) (u : Ui)
    → P u.app
    → Draws st st P (f u)
    → Draws st st P (when shown f u)
unfolding when
when-Draws st P true f u p d = d
when-Draws st P false f u p d = (refl, p)

pub render_panels-Draws :
    (st : List Scope) (g : Gui) (u : Ui)
    → IsClipper g
    → IsSourced u.app
    → Draws st st IsSourced (render_panels g u)
unfolding render_panels render_graph_view render_tensor_inspector render_memory_view has_no_source
render_panels-Draws st g u c p =
    bind-Draws st st st IsSourced IsSourced _ _
      (when-Draws st IsSourced u.show_timeline _ u p (render_timeline_view-Draws g st u c p))
      (λ u1 p1.
        bind-Draws st st st IsSourced IsSourced _ _
          (when-Draws st IsSourced u1.show_graph _ u1 p1 (
            render_panel-IsClosed graph g.begin_graph u1.app _ p1.1
                (graph_contents-IsClosed u1.app _) st,
            p1,
          ))
          (λ u2 p2.
            bind-Draws st st st IsSourced IsSourced _ _
              (when-Draws st IsSourced u2.show_tensor_inspector _ u2 p2 (
                render_panel-IsClosed inspector g.begin_inspector u2.app _ p2.1
                    (inspector_contents-IsClosed u2.app) st,
                p2,
              ))
              (λ u3 p3.
                when-Draws st IsSourced u3.show_memory_view _ u3 p3
                  (render_panel-IsClosed memory g.begin_memory u3.app _ p3.1 (λ ts. refl) st, p3))))
