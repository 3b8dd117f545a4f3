-- ===== src/App/Steps.antt =====
-- What happens to ImGuiApp and the hook, one operation at a time.
use ggml_viz.Base.{
  ℕ, ◌-◌, ◌≤◌, ◌≡◌, inl, inr, refl, subst, ◌∙◌, Bool, true, false, not, ◌&&◌, ◌||◌, List, [], ◌∷◌,
  ◌++◌, Option, none, some, arith, ltb, ◌==◌, length, Bool-cases, if-cases,
}
use ggml_viz.Event.{Event}
use ggml_viz.Trace.Reader.{Opened, open_trace, invalid, valid, events, undefined, out_of_fuel}
use ggml_viz.Config.Manager.{Manager, Load}
use ggml_viz.Hook.Defs.{Hook, consume_available_events}
use ggml_viz.App.Defs.{
  App, is_empty, started_hook, enable_live_mode, disable_live_mode, add_hook_events,
  update_from_hook, FileState, reader_events, start_index, add_file_events, destroy_reader, reload,
  check_file, update_from_file, update_live_data, leave_live_mode, fails, succeeds, load_opened,
  Content, missing, no_reads, vanishes, raises, holds, sized, load_bytes, load_trace_file,
}
use ggml_viz.App.Limit.{length-limit_events}

-- `computing` is what the intercepted program does to the hook meanwhile. The file, the clock and
-- what GGMLHook::start comes to are whatever they are.
pub data Step : App × Hook → App × Hook → Type 0 where
  enabling :
      (no_hook : Bool) (trace_file : List ℕ) (output : Option (List ℕ)) (now : ℕ)
      (result : Load (Manager × Hook)) (m : Manager) (app : App) (h : Hook)
      → Step
          (app, h)
          (enable_live_mode no_hook trace_file output now app, (started_hook no_hook result m h).1)
  disabling : (s : App × Hook) → Step s (disable_live_mode s)
  updating : (now : ℕ) (f : Option FileState) (s : App × Hook) → Step s (update_live_data now f s)
  loading :
      (filename : List ℕ) (content : Content) (ok : Bool) (s : App × Hook) (app : App) (h : Hook)
      → load_trace_file filename content s ≡ some (ok, app, h)
      → Step s (app, h)
  computing : (app : App) (h h1 : Hook) → Step (app, h) (app, h1)

pub data Reach (s : App × Hook) : App × Hook → Type 0 where
  start : Reach s s
  later : {s1 s2 : App × Hook} → Reach s s1 → Step s1 s2 → Reach s s2

-- The live events are at most 50000, and out of live mode there are none and no file is watched.
pub record IsBounded (app : App) : Type 0 where
  pub short : length app.live_events ≤ 50000
  pub idle :
      app.live_mode ≡ false
      → (app.live_events ≡ []) × ((app.live_file_path ≡ []) × (app.live_trace_reader ≡ none))

-- The same of an app in live mode.
record IsLive (app : App) : Type 0 where
  on : app.live_mode ≡ true
  short : length app.live_events ≤ 50000

live-IsBounded : (app : App) → IsLive app → IsBounded app
live-IsBounded app v = record { short = v.short; idle = λ off. absurd (ground (arith, off, v.on)) }

add_hook_events-IsLive :
    (now : ℕ) (es : List Event) (app : App) → IsLive app → IsLive (add_hook_events now es app)
unfolding add_hook_events
add_hook_events-IsLive now [] app v = v
add_hook_events-IsLive now (e ∷ es) app v = record {
  on = v.on;
  short = length-limit_events (app.live_events ++ (e ∷ es));
}

update_from_hook-IsLive :
    (now : ℕ) (app : App) (h : Hook) → IsLive app → IsLive (update_from_hook now (app, h)).0
unfolding update_from_hook
update_from_hook-IsLive now app h v =
    if-cases (λ (s : App × Hook). IsLive s.0) h.active _ _
      (λ e. add_hook_events-IsLive now (consume_available_events h).0 app v) (λ e. v)

add_file_events-on :
    (now n : ℕ) (es : List Event) (app : App)
    → (add_file_events now n es app).live_mode ≡ app.live_mode
unfolding add_file_events
add_file_events-on now n es app = elim (Bool-cases (ltb n (length es))) [
  | inl e ↦ rw e
  | inr e ↦ rw e
]

reload-IsLive :
    (now : ℕ) (f : FileState) (es : Option (List Event)) (app : App)
    → IsLive app
    → IsLive (reload now f es app)
unfolding reload
reload-IsLive now f none app v = v
reload-IsLive now f (some es) app v =
    let n = start_index app.live_trace_reader app.last_file_event_count es in
    record {
      on = add_file_events-on now n es (destroy_reader f.freed app) ∙ v.on;
      short =
          length-limit_events (add_file_events now n es (destroy_reader f.freed app)).live_events;
    }

check_file-IsLive :
    (now : ℕ) (f : Option FileState) (app : App) → IsLive app → IsLive (check_file now f app)
unfolding check_file
check_file-IsLive now none app v = v
check_file-IsLive now (some f) app v =
    elim (Bool-cases (ltb app.last_file_mod_time f.mtime || ltb app.last_file_size f.size)) [
      | inl e ↦ rw e (reload-IsLive now f (reader_events (open_trace f.bytes)) app v)
      | inr e ↦ rw e v
    ]

update_from_file-IsLive :
    (now : ℕ) (f : Option FileState) (app : App) → IsLive app → IsLive (update_from_file now f app)
unfolding update_from_file
update_from_file-IsLive now f app v =
    elim (Bool-cases (not (is_empty app.live_file_path) && ltb 100 (now - app.last_file_check))) [
      | inl e ↦ rw e (
          check_file-IsLive now f (record app { last_file_check = now })
            (record { on = v.on; short = v.short }))
      | inr e ↦ rw e v
    ]

update_live_data-IsBounded :
    (now : ℕ) (f : Option FileState) (app : App) (h : Hook)
    → IsBounded app
    → IsBounded (update_live_data now f (app, h)).0
unfolding update_live_data
update_live_data-IsBounded now f app h v =
    if-cases (λ (s : App × Hook). IsBounded s.0) app.live_mode _ _
      (λ e. live-IsBounded _ (
        update_from_file-IsLive now f _
          (update_from_hook-IsLive now app h (record { on = e; short = v.short }))))
      (λ e. v)

disable_live_mode-IsBounded : (s : App × Hook) → IsBounded (disable_live_mode s).0
unfolding disable_live_mode
disable_live_mode-IsBounded (app, h) = record {
  short = omega arith;
  idle = λ off. (refl, (refl, refl));
}

leave_live_mode-IsBounded :
    (app : App) (h : Hook) → IsBounded app → IsBounded (leave_live_mode (app, h)).0
unfolding leave_live_mode
leave_live_mode-IsBounded app h v =
    if-cases (λ (s : App × Hook). IsBounded s.0) app.live_mode _ _
      (λ e. disable_live_mode-IsBounded (app, h)) (λ e. v)

abbrev Ends : Option (Bool × App × Hook) → Type 0
Ends none = Unit
Ends (some (ok, app, h)) = IsBounded app

load_opened-Ends :
    (filename bs : List ℕ) (o : Opened) (app : App) (h : Hook)
    → IsBounded app
    → Ends (load_opened filename bs o (app, h))
unfolding load_opened fails succeeds
load_opened-Ends filename bs invalid app h v = record { short = v.short; idle = v.idle }
load_opened-Ends filename bs (valid (events es)) app h v = record { short = v.short; idle = v.idle }
load_opened-Ends filename bs (valid undefined) app h v = tt
load_opened-Ends filename bs (valid out_of_fuel) app h v = tt

sized-Ends :
    (size : Option ℕ) (rest : Option (Bool × App × Hook)) (app : App) (h : Hook)
    → IsBounded app
    → Ends rest
    → Ends (sized size rest (app, h))
unfolding sized fails
sized-Ends none rest app h v r = record { short = v.short; idle = v.idle }
sized-Ends (some n) rest app h v r =
    if-cases Ends (n == 0) _ _ (λ e. record { short = v.short; idle = v.idle })
      (λ e.
        if-cases Ends (ltb n 12) _ _ (λ e1. record { short = v.short; idle = v.idle }) (λ e1. r))

load_bytes-Ends :
    (filename : List ℕ) (content : Content) (app : App) (h : Hook)
    → IsBounded app
    → Ends (load_bytes filename content (app, h))
unfolding load_bytes fails
load_bytes-Ends filename missing app h v = record { short = v.short; idle = v.idle }
load_bytes-Ends filename (no_reads size) app h v =
    sized-Ends size _ app h v (record { short = v.short; idle = v.idle })
load_bytes-Ends filename (vanishes size) app h v =
    sized-Ends size _ app h v (record { short = v.short; idle = v.idle })
load_bytes-Ends filename (raises e) app h v = record { short = v.short; idle = v.idle }
load_bytes-Ends filename (holds bs) app h v =
    sized-Ends (some (length bs)) _ app h v
      (load_opened-Ends filename bs (open_trace (some bs)) app h v)

load_trace_file-IsBounded :
    (filename : List ℕ) (content : Content) (ok : Bool) (s : App × Hook) (app : App) (h : Hook)
    → IsBounded s.0
    → load_trace_file filename content s ≡ some (ok, app, h)
    → IsBounded app
unfolding load_trace_file
load_trace_file-IsBounded filename content ok (app0, h0) app h v e = subst Ends e (
    load_bytes-Ends filename content (leave_live_mode (app0, h0)).0 (leave_live_mode (app0, h0)).1
      (leave_live_mode-IsBounded app0 h0 v))

step-IsBounded : (s s1 : App × Hook) → IsBounded s.0 → Step s s1 → IsBounded s1.0
unfolding enable_live_mode
step-IsBounded _ _ v (enabling no_hook trace_file output now result m app h) =
    live-IsBounded _ (record { on = refl; short = omega arith })
step-IsBounded _ _ v (disabling s) = disable_live_mode-IsBounded s
step-IsBounded _ _ v (updating now f (app, h)) = update_live_data-IsBounded now f app h v
step-IsBounded _ _ v (loading filename content ok s app1 h1 e) =
    load_trace_file-IsBounded filename content ok s app1 h1 v e
step-IsBounded _ _ v (computing app h h1) = v

-- Whatever order live mode is entered, left and updated in, files are loaded and the hook is used,
-- from a state without live events and out of live mode, the live events are at most 50000, and out
-- of live mode there are none, no file is watched and no reader of one is held.
pub reach-IsBounded : (s s1 : App × Hook) → IsBounded s.0 → Reach s s1 → IsBounded s1.0
reach-IsBounded s s1 v start = v
reach-IsBounded s s2 v (later {s1} r move) = step-IsBounded s1 s2 (reach-IsBounded s s1 v r) move
