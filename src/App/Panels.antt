-- ===== src/App/Panels.antt =====
-- The graph, tensor and memory panels of frontend/imgui_app.cpp, and the whole frame.
use ggml_viz.Base.{
  ℕ, suc, Bool, false, not, ◌&&◌, ◌||◌, List, [], ◌∷◌, ◌++◌, Option, none, some, if◌then◌else◌,
  length,
}
use ggml_viz.Event.{Event, graph_compute_begin, graph_compute_end}
use ggml_viz.Trace.Queries.{get_graph_events}
use ggml_viz.App.Defs.{App, is_empty, update_live_data}
use ggml_viz.App.Screen.{
  Panel, graph, inspector, memory, window, style, live_count, graph_begins, graph_ends, graph_count,
  node, nothing_loaded, no_trace_data, loading_graph, select_an_event, memory_soon, node_graph,
  details, Draw, opens, closes, shows, Ui, Gui, Frame, drawn, ◌>>=◌,
}
use ggml_viz.App.Menu.{
  has_reader, render_main_menu_bar, render_hook_status_notification, render_stats_overlay,
  render_file_browser, render_error_popup,
}
use ggml_viz.App.Timeline.{clicked_or, event_at, render_timeline_view}

unfoldable pub count_begins : List Event → ℕ
count_begins [] = 0
count_begins (e ∷ es) = elim e.type [
  | graph_compute_begin ↦ suc (count_begins es)
  | t ↦ count_begins es
]

unfoldable pub count_ends : List Event → ℕ
count_ends [] = 0
count_ends (e ∷ es) = elim e.type [ graph_compute_end ↦ suc (count_ends es) | t ↦ count_ends es ]

-- A panel that needs a trace or live mode: without either it returns early and leaves its colour
-- pushed.
unfoldable pub has_no_source : App → Bool
has_no_source app = not (has_reader app.trace_reader) && not app.live_mode

unfoldable pub render_panel : Panel → Bool → App → List Draw → List Draw
render_panel p begun app contents =
    opens (style p)
    ∷ opens (window p)
    ∷ (if begun
        then if has_no_source app
          then shows nothing_loaded ∷ closes (window p) ∷ []
          else contents ++ (closes (window p) ∷ closes (style p) ∷ [])
        else closes (window p) ∷ closes (style p) ∷ [])

-- GraphWidget::render.
unfoldable pub draw_graph : List Event → List Draw
draw_graph es = if is_empty es then shows no_trace_data ∷ [] else shows (node_graph es) ∷ []

unfoldable pub live_graph : Option (List Event) → List Draw
live_graph none = shows loading_graph ∷ []
live_graph (some es) = draw_graph es

unfoldable pub selected_node : Option ℕ → List Draw
selected_node none = []
selected_node (some n) = shows (node n) ∷ []

unfoldable pub trace_graph : Option ℕ → Option (List Event) → List Draw
trace_graph selected none = []
trace_graph selected (some es) =
    shows (graph_count (length (get_graph_events es))) ∷ draw_graph es ++ selected_node selected

unfoldable pub graph_contents : App → Option ℕ → List Draw
graph_contents app selected =
    if app.live_mode
    then shows (live_count (length app.live_events))
      ∷ shows (graph_begins (count_begins app.live_events))
      ∷ shows (graph_ends (count_ends app.live_events))
      ∷ live_graph app.live_trace_reader
    else trace_graph selected app.trace_reader

-- The reader that the graph widget is given.
unfoldable pub graph_reader : App → Option (List Event)
graph_reader app = if app.live_mode then app.live_trace_reader else app.trace_reader

unfoldable pub has_events : Option (List Event) → Bool
has_events none = false
has_events (some es) = not (is_empty es)

-- A click selects a node before its number is shown.
unfoldable pub node_after : Gui → App → Option ℕ → Option ℕ
node_after g app old =
    if g.begin_graph && has_events (graph_reader app) then clicked_or g.node_clicked old else old

unfoldable pub render_graph_view : Gui → Ui → Frame Ui
render_graph_view g u =
    let selected = node_after g u.app u.graph_selected in
    drawn (render_panel graph g.begin_graph u.app (graph_contents u.app selected))
      (record u { graph_selected = selected })

unfoldable pub detail_of : Option Event → List Draw
detail_of none = shows select_an_event ∷ []
detail_of (some e) = shows (details e) ∷ []

-- `selected_event` is tested against the number of events.
unfoldable pub event_details : Option ℕ → List Event → List Draw
event_details none es = detail_of none
event_details (some i) es = detail_of (event_at i es)

unfoldable pub trace_details : Option ℕ → Option (List Event) → List Draw
trace_details selected none = []
trace_details selected (some es) = event_details selected es

unfoldable pub inspector_contents : App → List Draw
inspector_contents app =
    if app.live_mode
    then shows (live_count (length app.live_events))
      ∷ event_details app.selected_event app.live_events
    else trace_details app.selected_event app.trace_reader

unfoldable pub render_tensor_inspector : Gui → Ui → List Draw
render_tensor_inspector g u =
    render_panel inspector g.begin_inspector u.app (inspector_contents u.app)

unfoldable pub render_memory_view : Gui → Ui → List Draw
render_memory_view g u = render_panel memory g.begin_memory u.app (shows memory_soon ∷ [])

unfoldable pub when : Bool → (Ui → Frame Ui) → Ui → Frame Ui
when shown render u = if shown then render u else drawn [] u

unfoldable pub render_panels : Gui → Ui → Frame Ui
render_panels g u = do
  u1 ← when u.show_timeline (render_timeline_view g) u
  u2 ← when u1.show_graph (render_graph_view g) u1
  u3 ← when u2.show_tensor_inspector (λ v. drawn (render_tensor_inspector g v) v) u2
  when u3.show_memory_view (λ v. drawn (render_memory_view g v) v) u3

unfoldable pub has_source : App → Bool
has_source app = (app.trace_loaded && has_reader app.trace_reader) || app.live_mode

-- The demo window's own button to close it clears its flag.
unfoldable pub show_demo : Gui → Ui → Ui
show_demo g u = record u { show_demo_window = not g.close_demo && u.show_demo_window }

unfoldable pub update_ui : Gui → Ui → Ui
update_ui g u =
    let (app1, h1) = update_live_data g.now g.watched (u.app, u.hook) in
    record u { app = app1; hook = h1 }

unfoldable pub render_frame : Gui → Ui → Frame Ui
render_frame g u = do
  u1 ← render_main_menu_bar g (update_ui g u)
  u2 ← drawn (render_hook_status_notification g u1) u1
  u3 ← drawn (render_stats_overlay g u2) u2
  u4 ← when u3.show_file_browser (render_file_browser g) u3
  u5 ← when (has_source u4.app) (render_panels g) u4
  u6 ← drawn [] (show_demo g u5)
  render_error_popup g u6
