-- ===== src/App/Timeline.antt =====
-- The timeline panel of frontend/imgui_app.cpp.
use ggml_viz.Base.{
  ℕ, ◌-◌, zero, suc, Bool, false, ◌&&◌, List, [], ◌∷◌, ◌++◌, Option, none, some, if◌then◌else◌,
  length, ltb, ◌==◌,
}
use ggml_viz.Event.{Event}
use ggml_viz.Trace.Queries.{OpTiming, get_total_duration_ns, get_op_timings}
use ggml_viz.Hook.Defs.{Hook}
use ggml_viz.App.Defs.{App, is_empty}
use ggml_viz.App.Screen.{
  timeline, tab_bar, tab_item, child, tooltip, window, style, Shown, hook_state, live_count,
  last_update, total_events, duration, operations, nothing_loaded, no_duration, no_trace_data,
  waiting, chart, row, hovered_row, live_timings, op_row, Draw, opens, closes, shows, Ui, Gui,
  past_end, Frame, drawn, faults, ◌>>=◌,
}
use ggml_viz.App.Menu.{has_reader}

-- TimelineWidget::render, with the selection of the bar that is clicked.
unfoldable pub clicked_or : Option ℕ → Option ℕ → Option ℕ
clicked_or none old = old
clicked_or (some i) old = some i

unfoldable pub render_chart : Gui → List Event → Ui → Frame Ui
render_chart g es u =
    if is_empty es
    then drawn (shows no_trace_data ∷ []) u
    else drawn (shows (chart es) ∷ [])
        (record u { timeline_selected = clicked_or g.bar_clicked u.timeline_selected })

unfoldable pub sync_selection : Ui → Ui
sync_selection u =
    let app = u.app in record u { app = record app { selected_event = u.timeline_selected } }

unfoldable pub widget_reader : App → Option (List Event)
widget_reader app =
    if app.live_mode && has_reader app.live_trace_reader
    then app.live_trace_reader
    else app.trace_reader

unfoldable pub chart_or_backdrop : Gui → Option (List Event) → Ui → Frame Ui
chart_or_backdrop g none u = drawn (shows waiting ∷ []) u
chart_or_backdrop g (some es) u = do u1 ← render_chart g es u; drawn [] (sync_selection u1)

unfoldable pub visual_contents : Gui → Ui → Frame Ui
visual_contents g u = do
  u1 ← drawn (opens tab_item ∷ []) u
  u2 ← chart_or_backdrop g (widget_reader u1.app) u1
  drawn (closes tab_item ∷ []) u2

unfoldable pub render_visual_tab : Gui → Ui → Frame Ui
render_visual_tab g u = if g.visual_tab then visual_contents g u else drawn [] u

unfoldable pub event_at : ℕ → List Event → Option Event
event_at i [] = none
event_at zero (e ∷ es) = some e
event_at (suc i) (e ∷ es) = event_at i es

unfoldable pub is_at : Option ℕ → ℕ → Bool
is_at none i = false
is_at (some n) i = n == i

unfoldable pub select_row : Gui → ℕ → Ui → Ui
select_row g i u =
    let app = u.app in
    if is_at g.row_clicked i
    then record u { app = record app { selected_event = some i }; timeline_selected = some i }
    else u

unfoldable pub row_tooltip : Gui → ℕ → Event → List Draw
row_tooltip g i e =
    if is_at g.row_hovered i
    then opens tooltip ∷ shows (hovered_row e) ∷ closes tooltip ∷ []
    else []

-- `events[i]` is not checked.
unfoldable pub render_row : Gui → ℕ → Option Event → Ui → Frame Ui
render_row g i none u = faults past_end
render_row g i (some e) u =
    let app = u.app in
    drawn (shows (row i (is_at app.selected_event i) e) ∷ row_tooltip g i e) (select_row g i u)

unfoldable pub render_rows : Gui → List Event → List ℕ → Ui → Frame Ui
render_rows g es [] u = drawn [] u
render_rows g es (i ∷ is) u = do u1 ← render_row g i (event_at i es) u; render_rows g es is u1

unfoldable pub render_event_list : Gui → List Event → Ui → Frame Ui
render_event_list g es u =
    if g.event_list then render_rows g es (g.clip (length es)) u else drawn [] u

-- EndChild is called whatever BeginChild returned.
unfoldable pub events_contents : Gui → List Event → Ui → Frame Ui
events_contents g es u = do
  u1 ← drawn (opens tab_item ∷ opens child ∷ []) u
  u2 ← render_event_list g es u1
  drawn (closes child ∷ closes tab_item ∷ []) u2

unfoldable pub render_events_tab : Gui → List Event → Ui → Frame Ui
render_events_tab g es u = if g.events_tab then events_contents g es u else drawn [] u

unfoldable pub op_rows : ℕ → List OpTiming → List Draw
op_rows total [] = []
op_rows total (t ∷ ts) = shows (op_row t total) ∷ op_rows total ts

unfoldable pub timing_text : Gui → App → List Event → Option (List Event) → List Draw
timing_text g app es reader =
    if app.live_mode then shows (live_timings (length es)) ∷ [] else elim reader [
      | none ↦ []
      | some rs ↦ op_rows (get_total_duration_ns rs) (get_op_timings g.sort rs)
    ]

unfoldable pub timing_rows : Gui → App → List Event → List Draw
timing_rows g app es = if g.timing_list then timing_text g app es app.trace_reader else []

unfoldable pub render_timings_tab : Gui → App → List Event → List Draw
render_timings_tab g app es =
    if g.timings_tab
    then opens tab_item ∷ opens child ∷ timing_rows g app es
      ++ (closes child ∷ closes tab_item ∷ [])
    else []

unfoldable pub tabs_contents : Gui → List Event → Ui → Frame Ui
tabs_contents g es u = do
  u1 ← drawn (opens tab_bar ∷ []) u
  u2 ← render_visual_tab g u1
  u3 ← render_events_tab g es u2
  u4 ← drawn (render_timings_tab g u3.app es) u3
  drawn (closes tab_bar ∷ []) u4

unfoldable pub render_tabs : Gui → List Event → Ui → Frame Ui
render_tabs g es u = if g.timeline_tabs then tabs_contents g es u else drawn [] u

unfoldable pub live_duration : List Event → Shown
live_duration es = if ltb 1 (length es) then duration (get_total_duration_ns es) else no_duration

unfoldable pub update_text : Gui → App → List Draw
update_text g app =
    if ltb 0 (length app.live_events)
    then shows (last_update (g.now - app.last_live_update)) ∷ []
    else []

unfoldable pub live_header : Gui → App → Hook → List Draw
live_header g app h =
    shows (hook_state h.active) ∷ shows (live_count (length app.live_events)) ∷ update_text g app
    ++ (shows (total_events (length app.live_events)) ∷ shows (live_duration app.live_events) ∷ [])

unfoldable pub trace_header_text : Gui → List Event → List Draw
trace_header_text g es =
    shows (total_events (length es))
    ∷ shows (duration (get_total_duration_ns es))
    ∷ shows (operations (length (get_op_timings g.sort es)))
    ∷ []

-- The events that the panel lists, under their header.
unfoldable pub timeline_body : Gui → List Draw → List Event → Ui → Frame Ui
timeline_body g header es u = do
  u1 ← drawn header u
  u2 ← render_tabs g es u1
  drawn (closes (window timeline) ∷ closes (style timeline) ∷ []) u2

-- Without a reader the function returns early and leaves the colour pushed.
unfoldable pub timeline_of_trace : Gui → Option (List Event) → Ui → Frame Ui
timeline_of_trace g none u = drawn (shows nothing_loaded ∷ closes (window timeline) ∷ []) u
timeline_of_trace g (some es) u = timeline_body g (trace_header_text g es) es u

unfoldable pub timeline_contents : Gui → Ui → Frame Ui
timeline_contents g u =
    let app = u.app in
    if app.live_mode
    then timeline_body g (live_header g app u.hook) app.live_events u
    else timeline_of_trace g app.trace_reader u

unfoldable pub begun_timeline : Gui → Ui → Frame Ui
begun_timeline g u =
    if g.begin_timeline
    then timeline_contents g u
    else drawn (closes (window timeline) ∷ closes (style timeline) ∷ []) u

unfoldable pub render_timeline_view : Gui → Ui → Frame Ui
render_timeline_view g u = do
  u1 ← drawn (opens (style timeline) ∷ opens (window timeline) ∷ []) u
  begun_timeline g u1
