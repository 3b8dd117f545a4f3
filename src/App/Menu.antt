-- ===== src/App/Menu.antt =====
-- The menu bar, the file browser and the popups of frontend/imgui_app.cpp.
use ggml_viz.Base.{
  ℕ, Bool, true, false, not, ◌&&◌, ◌||◌, List, [], ◌∷◌, ◌++◌, Option, none, some, if◌then◌else◌,
  length, ◌==◌,
}
use ggml_viz.Event.{Event}
use ggml_viz.Trace.Queries.{get_total_duration_ns}
use ggml_viz.Hook.Defs.{Hook}
use ggml_viz.App.Defs.{App, Message, is_empty, load_trace_file}
use ggml_viz.App.Screen.{
  stats, browser, menu_bar, menu, popup, window, Notice, waiting_for_file, hook_inactive,
  waiting_for_operations, no_trace_loaded, live_status, loaded_status, hook_events, hook_dropped,
  hook_state, total_events, trace_duration, notice, problem, Draw, opens, closes, shows, open_popup,
  Ui, Gui, null_pointer, overrun, Frame, drawn, faults, ◌>>=◌,
}

unfoldable pub has_reader : Option (List Event) → Bool
has_reader none = false
has_reader (some es) = true

unfoldable pub close_trace : App → App
close_trace app = record app { trace_reader = none; trace_loaded = false; current_filename = [] }

-- A menu item that is disabled is not used, whatever is clicked.
unfoldable pub render_file_menu : Gui → Ui → Ui
render_file_menu g u =
    let app = u.app in
    record u {
      show_file_browser = g.open_trace || u.show_file_browser;
      app = if g.close_trace && app.trace_loaded then close_trace app else app;
      closing = g.exit || u.closing;
    }

unfoldable pub toggled : Bool → Bool → Bool
toggled used flag = if used then not flag else flag

unfoldable pub render_view_menu : Gui → Ui → Ui
render_view_menu g u =
    let app = u.app in
    let enabled = app.trace_loaded || app.live_mode in
    record u {
      show_timeline = toggled (g.timeline_item && enabled) u.show_timeline;
      show_graph = toggled (g.graph_item && enabled) u.show_graph;
      show_tensor_inspector = toggled (g.inspector_item && enabled) u.show_tensor_inspector;
      show_memory_view = toggled (g.memory_item && enabled) u.show_memory_view;
      show_demo_window = toggled g.demo_item u.show_demo_window;
    }

-- The reader is dereferenced without a test.
unfoldable pub loaded_text : List ℕ → Option (List Event) → Ui → Frame Ui
loaded_text name none u = faults null_pointer
loaded_text name (some es) u = drawn (shows (loaded_status name (length es)) ∷ []) u

unfoldable pub render_menu_status : Ui → Frame Ui
render_menu_status u =
    let app = u.app in
    let h = u.hook in
    if app.trace_loaded || app.live_mode
    then if app.live_mode
      then drawn (shows (live_status h.active (length app.live_events)) ∷ []) u
      else loaded_text app.current_filename app.trace_reader u
    else drawn [] u

unfoldable pub in_menu : Bool → (Ui → Ui) → Ui → Frame Ui
in_menu shown use_items u =
    if shown then drawn (opens menu ∷ closes menu ∷ []) (use_items u) else drawn [] u

unfoldable pub render_menus : Gui → Ui → Frame Ui
render_menus g u = do
  u1 ← drawn (opens menu_bar ∷ []) u
  u2 ← in_menu g.file_menu (render_file_menu g) u1
  u3 ← in_menu g.view_menu (render_view_menu g) u2
  u4 ← in_menu g.help_menu (λ v. v) u3
  u5 ← render_menu_status u4
  drawn (closes menu_bar ∷ []) u5

unfoldable pub render_main_menu_bar : Gui → Ui → Frame Ui
render_main_menu_bar g u = if g.main_menu_bar then render_menus g u else drawn [] u

-- `shown` is whether the notification is due, and its text.
unfoldable pub hook_notice : Hook → Option Notice
hook_notice h =
    if not h.active
    then some hook_inactive
    else if h.event_count == 0
    then some waiting_for_operations
    else none

unfoldable pub file_notice : List ℕ → Option (List Event) → Option Notice
file_notice path none = some (waiting_for_file path)
file_notice path (some es) = if is_empty es then some (waiting_for_file path) else none

unfoldable pub status_notice : App → Hook → Option Notice
status_notice app h =
    if app.live_mode
    then if app.live_mode_no_hook
      then file_notice app.live_file_path app.live_trace_reader
      else hook_notice h
    else if not app.trace_loaded
    then some no_trace_loaded
    else none

unfoldable pub notice_popup : Gui → Notice → List Draw
notice_popup g n = if g.status_popup then opens popup ∷ shows (notice n) ∷ closes popup ∷ [] else []

unfoldable pub open_notice : Gui → List Draw
open_notice g = if not g.status_is_open then open_popup ∷ [] else []

unfoldable pub show_notice : Gui → Option Notice → List Draw
show_notice g none = []
show_notice g (some n) = notice_popup g n ++ open_notice g

unfoldable pub render_hook_status_notification : Gui → Ui → List Draw
render_hook_status_notification g u = show_notice g (status_notice u.app u.hook)

unfoldable pub trace_stats : Option (List Event) → List Draw
trace_stats none = []
trace_stats (some es) =
    shows (total_events (length es)) ∷ shows (trace_duration (get_total_duration_ns es)) ∷ []

unfoldable pub stats_text : App → Hook → List Draw
stats_text app h =
    if app.live_mode
    then shows (hook_events h.event_count)
      ∷ shows (hook_dropped h.dropped_events)
      ∷ shows (hook_state h.active)
      ∷ []
    else trace_stats app.trace_reader

unfoldable pub render_stats_overlay : Gui → Ui → List Draw
render_stats_overlay g u =
    opens (window stats) ∷ (if g.begin_stats then stats_text u.app u.hook else [])
    ++ (closes (window stats) ∷ [])

-- The state after load_trace_file, with the browser closed where it succeeds.
unfoldable pub loaded_ui : Ui → Option (Bool × App × Hook) → Frame Ui
loaded_ui u none = faults overrun
loaded_ui u (some (ok, app1, h1)) = drawn [] (record u {
  app = app1;
  hook = h1;
  show_file_browser = if ok then false else u.show_file_browser;
})

unfoldable pub press_open : Gui → Ui → Frame Ui
press_open g u =
    if g.open_button && not (is_empty g.file_path)
    then loaded_ui u (load_trace_file g.file_path (g.files g.file_path) (u.app, u.hook))
    else drawn [] u

unfoldable pub press_cancel : Gui → Ui → Ui
press_cancel g u = record u { show_file_browser = not g.cancel_button && u.show_file_browser }

unfoldable pub browse : Gui → Ui → Frame Ui
browse g u = do u1 ← press_open g u; drawn [] (press_cancel g u1)

-- The window's own button to close it clears the flag.
unfoldable pub render_file_browser : Gui → Ui → Frame Ui
render_file_browser g u = do
  u1 ←
      drawn (opens (window browser) ∷ [])
        (record u { show_file_browser = not g.close_browser && u.show_file_browser })
  u2 ← if g.begin_browser then browse g u1 else drawn [] u1
  drawn (closes (window browser) ∷ []) u2

unfoldable pub press_ok : Gui → App → App
press_ok g app = record app { error_message = if g.error_ok then none else app.error_message }

unfoldable pub error_popup_of : Gui → Option Message → Ui → Frame Ui
error_popup_of g none u = drawn [] u
error_popup_of g (some m) u =
    if g.error_popup
    then drawn (open_popup ∷ opens popup ∷ shows (problem m) ∷ closes popup ∷ [])
        (record u { app = press_ok g u.app })
    else drawn (open_popup ∷ []) u

unfoldable pub render_error_popup : Gui → Ui → Frame Ui
render_error_popup g u = let app = u.app in error_popup_of g app.error_message u
