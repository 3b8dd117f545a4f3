-- ===== src/App/Screen.antt =====
-- What a frame of frontend/imgui_app.cpp draws, the state it draws from, and what the libraries answer.
use ggml_viz.Base.{ℕ, Bool, true, false, List, [], ◌∷◌, ◌++◌, Option, none, some}
use ggml_viz.Event.{Event}
use ggml_viz.Trace.Queries.{OpTiming}
use ggml_viz.Hook.Defs.{Hook}
use ggml_viz.App.Defs.{App, Message, FileState, Content}

pub data Panel : Type 0 where
  stats browser timeline graph inspector memory : Panel

-- What a call of Dear ImGui opens and another closes. `style` is PushStyleColor and PopStyleColor.
pub data Scope : Type 0 where
  menu_bar menu popup tab_bar tab_item child tooltip : Scope
  window style : Panel → Scope

-- The texts of the hook status notification.
pub data Notice : Type 0 where
  waiting_for_file : List ℕ → Notice
  hook_inactive waiting_for_operations no_trace_loaded : Notice

-- The texts and drawings that depend on the state; captions and separators are left out.
pub data Shown : Type 0 where
  live_status : Bool → ℕ → Shown
  loaded_status : List ℕ → ℕ → Shown
  hook_state : Bool → Shown
  live_count last_update total_events duration operations graph_begins graph_ends : ℕ → Shown
  graph_count node hook_events hook_dropped trace_duration : ℕ → Shown
  nothing_loaded no_duration no_trace_data waiting loading_graph select_an_event memory_soon : Shown
  chart node_graph : List Event → Shown
  row : ℕ → Bool → Event → Shown
  hovered_row details : Event → Shown
  live_timings : ℕ → Shown
  op_row : OpTiming → ℕ → Shown
  notice : Notice → Shown
  problem : Message → Shown

pub data Draw : Type 0 where
  opens closes : Scope → Draw
  shows : Shown → Draw
  open_popup : Draw

-- ImGuiApp's own fields beside AppData. The selections of the two widgets are `none` for -1;
-- `closing` is the window's flag to close.
pub record Ui : Type 0 where
  pub app : App
  pub hook : Hook
  pub show_demo_window : Bool
  pub show_timeline : Bool
  pub show_graph : Bool
  pub show_tensor_inspector : Bool
  pub show_memory_view : Bool
  pub show_file_browser : Bool
  pub timeline_selected : Option ℕ
  pub graph_selected : Option ℕ
  pub closing : Bool

-- What Dear ImGui, the clock, the files and std::sort answer in one frame: for each call that opens
-- something whether its inside is drawn, for each control whether it is used.
pub record Gui : Type 0 where
  pub now : ℕ
  pub watched : Option FileState
  pub files : List ℕ → Content
  pub sort : List OpTiming → List OpTiming
  -- The rows that ImGuiListClipper shows out of a number of rows.
  pub clip : ℕ → List ℕ
  pub main_menu_bar : Bool
  pub file_menu : Bool
  pub open_trace : Bool
  pub close_trace : Bool
  pub exit : Bool
  pub view_menu : Bool
  pub timeline_item : Bool
  pub graph_item : Bool
  pub inspector_item : Bool
  pub memory_item : Bool
  pub demo_item : Bool
  pub help_menu : Bool
  pub begin_browser : Bool
  pub close_browser : Bool
  pub open_button : Bool
  pub cancel_button : Bool
  pub file_path : List ℕ
  pub begin_stats : Bool
  pub status_popup : Bool
  pub status_is_open : Bool
  pub error_popup : Bool
  pub error_ok : Bool
  pub close_demo : Bool
  pub begin_timeline : Bool
  pub timeline_tabs : Bool
  pub visual_tab : Bool
  pub events_tab : Bool
  pub event_list : Bool
  pub timings_tab : Bool
  pub timing_list : Bool
  pub begin_graph : Bool
  pub begin_inspector : Bool
  pub begin_memory : Bool
  -- The event of the bar, the row and the node that is clicked, the row under the mouse.
  pub bar_clicked : Option ℕ
  pub row_clicked : Option ℕ
  pub row_hovered : Option ℕ
  pub node_clicked : Option ℕ

-- Undefined behaviour: a null pointer is dereferenced, an index is past the end, a label's buffer
-- is overrun while a trace is read.
pub data Fault : Type 0 where
  null_pointer past_end overrun : Fault

pub data Frame {ℓ} (A : Type ℓ) : Type ℓ where
  drawn : List Draw → A → Frame A
  faults : Fault → Frame A

unfoldable pub after {ℓ} : {A : Type ℓ} → List Draw → Frame A → Frame A
after ds (drawn es a) = drawn (ds ++ es) a
after ds (faults f) = faults f

infixl 5 ◌>>=◌
unfoldable pub ◌>>=◌ : {A B : Type 0} → Frame A → (A → Frame B) → Frame B
drawn ds a >>= f = after ds (f a)
faults e >>= f = faults e

unfoldable pub same_panel : Panel → Panel → Bool
same_panel stats stats = true
same_panel browser browser = true
same_panel timeline timeline = true
same_panel graph graph = true
same_panel inspector inspector = true
same_panel memory memory = true
same_panel p q = false

unfoldable pub same_scope : Scope → Scope → Bool
same_scope menu_bar menu_bar = true
same_scope menu menu = true
same_scope popup popup = true
same_scope tab_bar tab_bar = true
same_scope tab_item tab_item = true
same_scope child child = true
same_scope tooltip tooltip = true
same_scope (window p) (window q) = same_panel p q
same_scope (style p) (style q) = same_panel p q
same_scope a b = false

-- Dear ImGui's rule: only what was opened last can be closed. What is open after the calls, or
-- `none` where one of them breaks the rule.
abbrev pub closed : Scope → List Scope → Option (List Scope)
closed s [] = none
closed s (t ∷ ts) = elim (same_scope s t) [ true ↦ some ts | false ↦ none ]

abbrev pub left_open : List Scope → List Draw → Option (List Scope)
left_open st [] = some st
left_open st (opens s ∷ ds) = left_open (s ∷ st) ds
left_open st (closes s ∷ ds) = elim (closed s st) [ none ↦ none | some ts ↦ left_open ts ds ]
left_open st (shows x ∷ ds) = left_open st ds
left_open st (open_popup ∷ ds) = left_open st ds
