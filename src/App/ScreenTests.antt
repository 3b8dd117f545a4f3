-- ===== src/App/ScreenTests.antt =====
-- Frames of a viewer that watches a file.
use ggml_viz.Base.{ℕ, suc, zero, true, false, List, [], ◌∷◌, arith, none, some}
use ggml_viz.Event.{Event}
use ggml_viz.App.Defs.{App, limit_events, disable_live_mode, missing}
use ggml_viz.App.Steps.{disabling}
use ggml_viz.App.Screen.{Ui, Gui}
use ggml_viz.App.Panels.{render_frame}
use ggml_viz.App.Frames.{IsReadable, IsClipper}
use ggml_viz.App.Nesting.{Draws}
use ggml_viz.App.Safety.{opened, later, between, Runs-Draws}
use ggml_viz.App.Tests.{mul, watching, idle_hook}

-- Events at the times from `t` on.
ticks : ℕ → ℕ → List Event
ticks zero t = []
ticks (suc n) t = record mul { timestamp_ns = t } ∷ ticks n (suc t)

abbrev many : List Event
many = ticks 50001 0

abbrev watched_app : App
watched_app = record watching {
  live_mode = true;
  live_trace_reader = some many;
  live_events = limit_events many;
}

abbrev ui : App → Ui
ui app = record {
  app = app;
  hook = idle_hook;
  show_demo_window = false;
  show_timeline = true;
  show_graph = true;
  show_tensor_inspector = true;
  show_memory_view = true;
  show_file_browser = false;
  timeline_selected = none;
  graph_selected = none;
  closing = false;
}

abbrev rows_of : ℕ → List ℕ
rows_of zero = []
rows_of (suc n) = 0 ∷ []

-- Every control is used at once.
abbrev busy : Gui
busy = record {
  now = 200;
  watched = none;
  files = λ name. missing;
  sort = λ ts. ts;
  clip = rows_of;
  main_menu_bar = true;
  file_menu = true;
  open_trace = true;
  close_trace = true;
  exit = true;
  view_menu = true;
  timeline_item = true;
  graph_item = true;
  inspector_item = true;
  memory_item = true;
  demo_item = true;
  help_menu = true;
  begin_browser = true;
  close_browser = true;
  open_button = true;
  cancel_button = true;
  begin_stats = true;
  status_popup = true;
  status_is_open = true;
  error_popup = true;
  error_ok = true;
  close_demo = true;
  begin_timeline = true;
  timeline_tabs = true;
  visual_tab = true;
  events_tab = true;
  event_list = true;
  timings_tab = true;
  timing_list = true;
  begin_graph = true;
  begin_inspector = true;
  begin_memory = true;
  file_path = b'a' ∷ [];
  bar_clicked = some 7;
  row_clicked = some 0;
  row_hovered = some 0;
  node_clicked = some 1;
}

busy-IsClipper : IsClipper busy
busy-IsClipper zero = tt
busy-IsClipper (suc n) = (omega arith, tt)

abbrev left : Ui
left = record (ui watching) {
  app = (disable_live_mode (watching, idle_hook)).0;
  hook = (disable_live_mode (watching, idle_hook)).1;
}

Runs-Draws_example : Draws [] [] IsReadable (render_frame busy left)
Runs-Draws_example =
    Runs-Draws (ui watching) left busy (λ e. absurd (ground (arith, e)))
      (later opened (between _ _ (disabling (watching, idle_hook)))) busy-IsClipper
