-- ===== src/App/Frames.antt =====
-- The panels of a frame close what they open (frontend/imgui_app.cpp).
use ggml_viz.Base.{
  ℕ, zero, suc, ◌<◌, ◌≡◌, refl, sym, subst, true, false, List, [], ◌∷◌, Option, none, some,
  if-cases, All, length, arith, ltb,
}
use ggml_viz.Event.{Event}
use ggml_viz.Trace.Queries.{OpTiming, get_op_timings, get_total_duration_ns}
use ggml_viz.Hook.Defs.{Hook}
use ggml_viz.App.Defs.{App, is_empty}
use ggml_viz.App.Screen.{
  timeline, Scope, window, style, tab_bar, tab_item, child, total_events, Draw, closes, shows, Ui,
  Gui, same_panel, same_scope,
}
use ggml_viz.App.Menu.{has_reader}
use ggml_viz.App.Timeline.{
  render_chart, sync_selection, chart_or_backdrop, visual_contents, render_visual_tab, event_at,
  is_at, select_row, row_tooltip, render_row, render_rows, render_event_list, events_contents,
  render_events_tab, op_rows, timing_text, timing_rows, update_text, live_duration,
  render_timings_tab, tabs_contents, render_tabs, live_header, trace_header_text, timeline_body,
  timeline_of_trace, timeline_contents, begun_timeline, render_timeline_view,
}
use ggml_viz.App.Panels.{has_no_source}
use ggml_viz.App.Nesting.{IsClosed, append-IsClosed, left_open-then, Draws, bind-Draws}

-- A trace that is loaded has its reader.
abbrev pub IsReadable : App → Type 0
IsReadable app = app.trace_loaded ≡ true → has_reader app.trace_reader ≡ true

-- The same, and there is a trace or live mode.
abbrev pub IsSourced : App → Type 0
IsSourced app = IsReadable app × (has_no_source app ≡ false)

-- Dear ImGui's list clipper shows rows that exist.
abbrev pub IsClipper : Gui → Type 0
IsClipper g = (n : ℕ) → All (λ i. i < n) (g.clip n)

event_at_found : (i : ℕ) (es : List Event) → i < length es → (e : Event) × (event_at i es ≡ some e)
unfolding event_at
event_at_found i [] h = absurd (omega (arith, h))
event_at_found zero (e ∷ es) h = (e, refl)
event_at_found (suc i) (e ∷ es) h = event_at_found i es (omega (arith, h))

row_tooltip-IsClosed : (g : Gui) (i : ℕ) (e : Event) → IsClosed (row_tooltip g i e)
unfolding row_tooltip same_scope
row_tooltip-IsClosed g i e =
    if-cases IsClosed (is_at g.row_hovered i) _ _ (λ h st. refl) (λ h st. refl)

module _ (g : Gui) where
  select_row-IsSourced : (i : ℕ) (u : Ui) → IsSourced u.app → IsSourced (select_row g i u).app
  unfolding select_row has_no_source
  select_row-IsSourced i u p =
      if-cases (λ (v : Ui). IsSourced v.app) (is_at g.row_clicked i) _ _ (λ h. p) (λ h. p)

  render_row-Draws :
      (st : List Scope) (i : ℕ) (e : Event) (u : Ui)
      → IsSourced u.app
      → Draws st st IsSourced (render_row g i (some e) u)
  unfolding render_row
  render_row-Draws st i e u p = (row_tooltip-IsClosed g i e st, select_row-IsSourced i u p)

  render_rows-Draws :
      (st : List Scope) (es : List Event) (is : List ℕ) (u : Ui)
      → All (λ i. i < length es) is
      → IsSourced u.app
      → Draws st st IsSourced (render_rows g es is u)
  unfolding render_rows
  render_rows-Draws st es [] u a p = (refl, p)
  render_rows-Draws st es (i ∷ is) u (h, hs) p =
      let (e, found) = event_at_found i es h in
      bind-Draws st st st IsSourced IsSourced _ _
        (subst (λ o. Draws st st IsSourced (render_row g i o u)) (sym found)
          (render_row-Draws st i e u p))
        (λ u1 p1. render_rows-Draws st es is u1 hs p1)

  render_event_list-Draws :
      (st : List Scope) (es : List Event) (u : Ui)
      → IsClipper g
      → IsSourced u.app
      → Draws st st IsSourced (render_event_list g es u)
  unfolding render_event_list
  render_event_list-Draws st es u c p =
      if-cases (Draws st st IsSourced) g.event_list _ _
        (λ h. render_rows-Draws st es (g.clip (length es)) u (c (length es)) p) (λ h. (refl, p))

  render_events_tab-Draws :
      (st : List Scope) (es : List Event) (u : Ui)
      → IsClipper g
      → IsSourced u.app
      → Draws st st IsSourced (render_events_tab g es u)
  unfolding render_events_tab events_contents same_scope
  render_events_tab-Draws st es u c p =
      if-cases (Draws st st IsSourced) g.events_tab _ _
        (λ h.
          bind-Draws st (child ∷ tab_item ∷ st) st IsSourced IsSourced _ _ (refl, p)
            (λ u1 p1.
              bind-Draws _ (child ∷ tab_item ∷ st) st IsSourced IsSourced _ _
                (render_event_list-Draws _ es u1 c p1) (λ u2 p2. (refl, p2))))
        (λ h. (refl, p))

  render_chart-Draws :
      (st : List Scope) (es : List Event) (u : Ui)
      → IsSourced u.app
      → Draws st st IsSourced (render_chart g es u)
  unfolding render_chart has_no_source
  render_chart-Draws st es u p =
      if-cases (Draws st st IsSourced) (is_empty es) _ _ (λ h. (refl, p)) (λ h. (refl, p))

  chart_or_backdrop-Draws :
      (st : List Scope) (r : Option (List Event)) (u : Ui)
      → IsSourced u.app
      → Draws st st IsSourced (chart_or_backdrop g r u)
  unfolding chart_or_backdrop sync_selection has_no_source
  chart_or_backdrop-Draws st none u p = (refl, p)
  chart_or_backdrop-Draws st (some es) u p =
      bind-Draws st st st IsSourced IsSourced _ _ (render_chart-Draws st es u p)
        (λ u1 p1. (refl, p1))

  render_visual_tab-Draws :
      (st : List Scope) (u : Ui) → IsSourced u.app → Draws st st IsSourced (render_visual_tab g u)
  unfolding render_visual_tab visual_contents same_scope
  render_visual_tab-Draws st u p =
      if-cases (Draws st st IsSourced) g.visual_tab _ _
        (λ h.
          bind-Draws st (tab_item ∷ st) st IsSourced IsSourced _ _ (refl, p)
            (λ u1 p1.
              bind-Draws _ (tab_item ∷ st) st IsSourced IsSourced _ _
                (chart_or_backdrop-Draws _ _ u1 p1) (λ u2 p2. (refl, p2))))
        (λ h. (refl, p))

  op_rows-IsClosed : (total : ℕ) (ts : List OpTiming) → IsClosed (op_rows total ts)
  unfolding op_rows
  op_rows-IsClosed total [] st = refl
  op_rows-IsClosed total (t ∷ ts) st = op_rows-IsClosed total ts st

  timing_text-IsClosed :
      (app : App) (es : List Event) (r : Option (List Event)) → IsClosed (timing_text g app es r)
  unfolding timing_text
  timing_text-IsClosed app es none =
      if-cases IsClosed app.live_mode _ _ (λ h st. refl) (λ h st. refl)
  timing_text-IsClosed app es (some rs) =
      if-cases IsClosed app.live_mode _ _ (λ h st. refl)
        (λ h. op_rows-IsClosed (get_total_duration_ns rs) (get_op_timings g.sort rs))

  timing_rows-IsClosed : (app : App) (es : List Event) → IsClosed (timing_rows g app es)
  unfolding timing_rows
  timing_rows-IsClosed app es =
      if-cases IsClosed g.timing_list _ _ (λ h. timing_text-IsClosed app es app.trace_reader)
        (λ h st. refl)

  render_timings_tab-IsClosed :
      (app : App) (es : List Event) → IsClosed (render_timings_tab g app es)
  unfolding render_timings_tab same_scope
  render_timings_tab-IsClosed app es =
      if-cases IsClosed g.timings_tab _ _
        (λ h st.
          left_open-then (child ∷ tab_item ∷ st) (child ∷ tab_item ∷ st) (timing_rows g app es)
            (closes child ∷ closes tab_item ∷ [])
            (timing_rows-IsClosed app es (child ∷ tab_item ∷ st)))
        (λ h st. refl)

  render_tabs-Draws :
      (st : List Scope) (es : List Event) (u : Ui)
      → IsClipper g
      → IsSourced u.app
      → Draws st st IsSourced (render_tabs g es u)
  unfolding render_tabs tabs_contents same_scope
  render_tabs-Draws st es u c p =
      if-cases (Draws st st IsSourced) g.timeline_tabs _ _
        (λ h.
          bind-Draws st (tab_bar ∷ st) st IsSourced IsSourced _ _ (refl, p)
            (λ u1 p1.
              bind-Draws _ (tab_bar ∷ st) st IsSourced IsSourced _ _
                (render_visual_tab-Draws _ u1 p1)
                (λ u2 p2.
                  bind-Draws _ (tab_bar ∷ st) st IsSourced IsSourced _ _
                    (render_events_tab-Draws _ es u2 c p2)
                    (λ u3 p3.
                      bind-Draws _ (tab_bar ∷ st) st IsSourced IsSourced _ _
                        (render_timings_tab-IsClosed u3.app es _, p3) (λ u4 p4. (refl, p4))))))
        (λ h. (refl, p))

  update_text-IsClosed : (app : App) → IsClosed (update_text g app)
  unfolding update_text
  update_text-IsClosed app =
      if-cases IsClosed (ltb 0 (length app.live_events)) _ _ (λ e st. refl) (λ e st. refl)

  live_header-IsClosed : (app : App) (h : Hook) → IsClosed (live_header g app h)
  unfolding live_header
  live_header-IsClosed app h st =
      append-IsClosed (update_text g app)
        (shows (total_events (length app.live_events)) ∷ shows (live_duration app.live_events) ∷ [])
        (update_text-IsClosed app) (λ ts. refl) st

  timeline_body-Draws :
      (st : List Scope) (header : List Draw) (es : List Event) (u : Ui)
      → IsClosed header
      → IsClipper g
      → IsSourced u.app
      → Draws (window timeline ∷ style timeline ∷ st) st IsSourced (timeline_body g header es u)
  unfolding timeline_body same_scope same_panel
  timeline_body-Draws st header es u f c p =
      bind-Draws _ (window timeline ∷ style timeline ∷ st) st IsSourced IsSourced _ _ (f _, p)
        (λ u1 p1.
          bind-Draws _ (window timeline ∷ style timeline ∷ st) st IsSourced IsSourced _ _
            (render_tabs-Draws _ es u1 c p1) (λ u2 p2. (refl, p2)))

  timeline_of_trace-Draws :
      (st : List Scope) (r : Option (List Event)) (u : Ui)
      → has_reader r ≡ true
      → IsClipper g
      → IsSourced u.app
      → Draws (window timeline ∷ style timeline ∷ st) st IsSourced (timeline_of_trace g r u)
  unfolding timeline_of_trace has_reader trace_header_text
  timeline_of_trace-Draws st none u h c p = absurd (ground (arith, h))
  timeline_of_trace-Draws st (some es) u h c p =
      timeline_body-Draws st (trace_header_text g es) es u (λ ts. refl) c p

  sourced_reader :
      (app : App) → IsSourced app → app.live_mode ≡ false → has_reader app.trace_reader ≡ true
  unfolding has_no_source
  sourced_reader app (r, s) off = ground (arith, s, off)

  pub render_timeline_view-Draws :
      (st : List Scope) (u : Ui)
      → IsClipper g
      → IsSourced u.app
      → Draws st st IsSourced (render_timeline_view g u)
  unfolding render_timeline_view begun_timeline timeline_contents same_scope same_panel
  render_timeline_view-Draws st u c p =
      bind-Draws st (window timeline ∷ style timeline ∷ st) st IsSourced IsSourced _ _ (refl, p)
        (λ u1 p1.
          if-cases (Draws _ st IsSourced) g.begin_timeline _ _
            (λ h.
              if-cases (Draws _ st IsSourced) u1.app.live_mode _ _
                (λ on. timeline_body-Draws st _ _ u1 (live_header-IsClosed u1.app u1.hook) c p1)
                (λ off.
                  timeline_of_trace-Draws st u1.app.trace_reader u1 (sourced_reader u1.app p1 off) c
                    p1))
            (λ h. (refl, p1)))
