-- ===== src/App/Readable.antt =====
-- A trace that is loaded keeps its reader, whatever ImGuiApp does (frontend/imgui_app.cpp).
use ggml_viz.Base.{
  ℕ, ◌-◌, refl, subst, Bool, not, ◌&&◌, ◌||◌, List, [], ◌∷◌, Option, none, some, if-cases, ltb,
  ◌==◌, length,
}
use ggml_viz.Event.{Event}
use ggml_viz.Trace.Reader.{Opened, open_trace, invalid, valid, events, undefined, out_of_fuel}
use ggml_viz.Hook.Defs.{Hook, consume_available_events}
use ggml_viz.App.Defs.{
  App, is_empty, enable_live_mode, disable_live_mode, add_hook_events, update_from_hook, FileState,
  reader_events, start_index, add_file_events, destroy_reader, reload, check_file, update_from_file,
  update_live_data, leave_live_mode, fails, succeeds, load_opened, Content, missing, no_reads,
  vanishes, raises, holds, sized, load_bytes, load_trace_file,
}
use ggml_viz.App.Steps.{Step, enabling, disabling, updating, loading, computing}
use ggml_viz.App.Menu.{has_reader}
use ggml_viz.App.Frames.{IsReadable}

add_hook_events-IsReadable :
    (now : ℕ) (es : List Event) (app : App)
    → IsReadable app
    → IsReadable (add_hook_events now es app)
unfolding add_hook_events
add_hook_events-IsReadable now [] app v = v
add_hook_events-IsReadable now (e ∷ es) app v = v

update_from_hook-IsReadable :
    (now : ℕ) (app : App) (h : Hook) → IsReadable app → IsReadable (update_from_hook now (app, h)).0
unfolding update_from_hook
update_from_hook-IsReadable now app h v =
    if-cases (λ (s : App × Hook). IsReadable s.0) h.active _ _
      (λ e. add_hook_events-IsReadable now (consume_available_events h).0 app v) (λ e. v)

add_file_events-IsReadable :
    (now n : ℕ) (es : List Event) (app : App)
    → IsReadable app
    → IsReadable (add_file_events now n es app)
unfolding add_file_events
add_file_events-IsReadable now n es app v =
    if-cases IsReadable (ltb n (length es)) _ _ (λ e. v) (λ e. v)

reload-IsReadable :
    (now : ℕ) (f : FileState) (es : Option (List Event)) (app : App)
    → IsReadable app
    → IsReadable (reload now f es app)
unfolding reload
reload-IsReadable now f none app v = v
reload-IsReadable now f (some es) app v =
    add_file_events-IsReadable now (start_index app.live_trace_reader app.last_file_event_count es)
      es (destroy_reader f.freed app) v

check_file-IsReadable :
    (now : ℕ) (f : Option FileState) (app : App)
    → IsReadable app
    → IsReadable (check_file now f app)
unfolding check_file
check_file-IsReadable now none app v = v
check_file-IsReadable now (some f) app v =
    if-cases IsReadable (ltb app.last_file_mod_time f.mtime || ltb app.last_file_size f.size) _ _
      (λ e. reload-IsReadable now f (reader_events (open_trace f.bytes)) app v) (λ e. v)

update_from_file-IsReadable :
    (now : ℕ) (f : Option FileState) (app : App)
    → IsReadable app
    → IsReadable (update_from_file now f app)
unfolding update_from_file
update_from_file-IsReadable now f app v =
    if-cases IsReadable (not (is_empty app.live_file_path) && ltb 100 (now - app.last_file_check)) _
      _ (λ e. check_file-IsReadable now f (record app { last_file_check = now }) v) (λ e. v)

pub update_live_data-IsReadable :
    (now : ℕ) (f : Option FileState) (app : App) (h : Hook)
    → IsReadable app
    → IsReadable (update_live_data now f (app, h)).0
unfolding update_live_data
update_live_data-IsReadable now f app h v =
    if-cases (λ (s : App × Hook). IsReadable s.0) app.live_mode _ _
      (λ e. update_from_file-IsReadable now f _ (update_from_hook-IsReadable now app h v)) (λ e. v)

leave_live_mode-IsReadable :
    (app : App) (h : Hook) → IsReadable app → IsReadable (leave_live_mode (app, h)).0
unfolding leave_live_mode disable_live_mode
leave_live_mode-IsReadable app h v =
    if-cases (λ (s : App × Hook). IsReadable s.0) app.live_mode _ _ (λ e. v) (λ e. v)

abbrev pub LeavesReadable : Option (Bool × App × Hook) → Type 0
LeavesReadable none = Unit
LeavesReadable (some (ok, app, h)) = IsReadable app

load_opened-LeavesReadable :
    (filename bs : List ℕ) (o : Opened) (app : App) (h : Hook)
    → IsReadable app
    → LeavesReadable (load_opened filename bs o (app, h))
unfolding load_opened fails succeeds has_reader
load_opened-LeavesReadable filename bs invalid app h v = v
load_opened-LeavesReadable filename bs (valid (events es)) app h v = λ e. refl
load_opened-LeavesReadable filename bs (valid undefined) app h v = tt
load_opened-LeavesReadable filename bs (valid out_of_fuel) app h v = tt

sized-LeavesReadable :
    (size : Option ℕ) (rest : Option (Bool × App × Hook)) (app : App) (h : Hook)
    → IsReadable app
    → LeavesReadable rest
    → LeavesReadable (sized size rest (app, h))
unfolding sized fails
sized-LeavesReadable none rest app h v r = v
sized-LeavesReadable (some n) rest app h v r =
    if-cases LeavesReadable (n == 0) _ _ (λ e. v)
      (λ e. if-cases LeavesReadable (ltb n 12) _ _ (λ e1. v) (λ e1. r))

load_bytes-LeavesReadable :
    (filename : List ℕ) (content : Content) (app : App) (h : Hook)
    → IsReadable app
    → LeavesReadable (load_bytes filename content (app, h))
unfolding load_bytes fails
load_bytes-LeavesReadable filename missing app h v = v
load_bytes-LeavesReadable filename (no_reads size) app h v = sized-LeavesReadable size _ app h v v
load_bytes-LeavesReadable filename (vanishes size) app h v = sized-LeavesReadable size _ app h v v
load_bytes-LeavesReadable filename (raises e) app h v = v
load_bytes-LeavesReadable filename (holds bs) app h v =
    sized-LeavesReadable (some (length bs)) _ app h v
      (load_opened-LeavesReadable filename bs (open_trace (some bs)) app h v)

pub load_trace_file-LeavesReadable :
    (filename : List ℕ) (content : Content) (app : App) (h : Hook)
    → IsReadable app
    → LeavesReadable (load_trace_file filename content (app, h))
unfolding load_trace_file
load_trace_file-LeavesReadable filename content app h v =
    load_bytes-LeavesReadable filename content (leave_live_mode (app, h)).0
      (leave_live_mode (app, h)).1 (leave_live_mode-IsReadable app h v)

pub step-IsReadable : (s s1 : App × Hook) → IsReadable s.0 → Step s s1 → IsReadable s1.0
unfolding enable_live_mode disable_live_mode
step-IsReadable _ _ v (enabling no_hook trace_file output now result m app h) = v
step-IsReadable _ _ v (disabling (app, h)) = v
step-IsReadable _ _ v (updating now f (app, h)) = update_live_data-IsReadable now f app h v
step-IsReadable _ _ v (loading filename content ok (app0, h0) app1 h1 e) =
    subst LeavesReadable e (load_trace_file-LeavesReadable filename content app0 h0 v)
step-IsReadable _ _ v (computing app h h1) = v
