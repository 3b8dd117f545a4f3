-- ===== src/App/Selection.antt =====
-- The event that is selected in the timeline and the event that the tensor inspector shows
-- (render_timeline_view and render_tensor_inspector of frontend/imgui_app.cpp).
use ggml_viz.Base.{ℕ, ◌<◌, ◌≡◌, List, [], ◌∷◌, some, All}
use ggml_viz.Event.{Event}
use ggml_viz.App.Defs.{App}
use ggml_viz.App.Screen.{Ui}
use ggml_viz.App.Timeline.{event_at}

abbrev pub selected : Ui → ℕ → Ui
selected u i =
    let app = u.app in
    record u { timeline_selected = some i; app = record app { selected_event = some i } }

-- Later events have later times.
abbrev pub IsOrdered : List Event → Type 0
IsOrdered [] = Unit
IsOrdered (e ∷ es) = All (λ f. e.timestamp_ns < f.timestamp_ns) es × IsOrdered es

-- Two places of an ordered list hold different events.
record Differ (es : List Event) (i j : ℕ) : Type 0 where
  first : Event
  second : Event
  first_found : event_at i es ≡ some first
  second_found : event_at j es ≡ some second
  earlier : first.timestamp_ns < second.timestamp_ns
