-- ===== src/App/Tests.antt =====
-- An app that watches a small file, and loads one.
use ggml_viz.Base.{ℕ, ◌≡◌, ◌++◌, refl, true, false, List, [], ◌∷◌, arith, none, some, drop}
use ggml_viz.Event.{Event, op_compute_begin, op_payload}
use ggml_viz.Trace.Format.{Fits, trace_header, encode_events}
use ggml_viz.Hook.Defs.{Hook}
use ggml_viz.App.Defs.{
  App, missing, holds, is_empty, limit_events, enable_live_mode, disable_live_mode,
  update_from_file, update_live_data, load_trace_file, load_bytes, leave_live_mode, succeeds, fails,
  access_problem, base_name, after_separator,
}
use ggml_viz.App.Steps.{IsBounded, start, later, updating, disabling, reach-IsBounded}
use ggml_viz.App.Labels.{blanks}
use ggml_viz.App.Watch.{Look, watch, file_state, watch-limit_events}
use ggml_viz.App.Replaced.{update_from_file-replaced}
use ggml_viz.App.Load.{Refused, load_trace_file-Refused, load_trace_file-encode_events}

abbrev pub mul : Event
mul = record {
  type = op_compute_begin;
  timestamp_ns = 1500;
  thread_id = 7;
  payload = op_payload 8192 26 64 0;
  label = some (b'm' ∷ []);
}

abbrev add : Event
add = record mul { timestamp_ns = 1700; label = none }

mul-Fits : Fits mul
mul-Fits = omega arith

add-Fits : Fits add
add-Fits = omega arith

abbrev opened : App
opened = record {
  trace_reader = none;
  current_filename = [];
  error_message = none;
  trace_loaded = false;
  selected_event = none;
  live_mode = false;
  live_mode_no_hook = false;
  live_events = [];
  last_live_update = 0;
  live_data_available = false;
  live_file_path = [];
  last_file_mod_time = 0;
  last_file_size = 0;
  live_trace_reader = none;
  last_file_check = 0;
  last_file_event_count = 0;
}

abbrev pub idle_hook : Hook
idle_hook = record {
  active = false;
  event_count = 0;
  event_buffer = λ i. mul;
  write_pos = 0;
  read_pos = 0;
  dropped_events = 0;
  output_file = false;
  written = [];
}

abbrev trace_path : List ℕ
trace_path = b'd' ∷ b'/' ∷ b't' ∷ b'.' ∷ b'g' ∷ b'g' ∷ b'm' ∷ b'l' ∷ b'v' ∷ b'i' ∷ b'z' ∷ []

-- Freed labels read as something else.
abbrev scrambled : ℕ → List ℕ → List ℕ
scrambled i label = i ∷ []

-- The file has its header, then one event more at each of two looks.
abbrev looks : List Look
looks =
    record { clock = 200; mtime = 0; freed = scrambled; news = [] }
    ∷ record { clock = 400; mtime = 1; freed = scrambled; news = mul ∷ [] }
    ∷ record { clock = 600; mtime = 1; freed = scrambled; news = add ∷ [] }
    ∷ []

watch-limit_events_example :
    blanks (watch [] looks (enable_live_mode true trace_path none 50 opened)).live_events
    ≡ blanks (limit_events (mul ∷ add ∷ []))
watch-limit_events_example =
    watch-limit_events looks true b'd' (drop 1 trace_path) none 50 opened refl refl
      (mul-Fits, (add-Fits, tt)) (omega arith, (omega arith, (omega arith, tt)))

-- One event of another file was read before.
abbrev pub watching : App
watching = record opened {
  live_mode = true;
  live_file_path = trace_path;
  live_events = mul ∷ [];
  last_file_event_count = 1;
}

update_from_file-replaced_example :
    blanks
      (update_from_file 400
        (some (file_state scrambled 9 (mul ∷ add ∷ [])))
        (update_from_file 200 (some (file_state scrambled 8 [])) watching)).live_events
    ≡ blanks (limit_events (mul ∷ add ∷ []))
unfolding is_empty
update_from_file-replaced_example =
    update_from_file-replaced scrambled scrambled 200 8 400 9 (mul ∷ add ∷ []) watching refl
      (omega arith) (omega arith) (omega arith) (omega arith) (mul-Fits, (add-Fits, tt))
      (omega arith) (omega arith)

watching-IsBounded : IsBounded watching
watching-IsBounded = record { short = omega arith; idle = λ off. absurd (ground (arith, off)) }

abbrev looked_and_left : App × Hook
looked_and_left =
    disable_live_mode
      (update_live_data 400 (some (file_state scrambled 9 (mul ∷ add ∷ []))) (watching, idle_hook))

reach-IsBounded_example : IsBounded looked_and_left.0
reach-IsBounded_example =
    reach-IsBounded (watching, idle_hook) looked_and_left watching-IsBounded
      (later
        (later start
          (updating 400 (some (file_state scrambled 9 (mul ∷ add ∷ []))) (watching, idle_hook)))
        (disabling (
          update_live_data 400 (some (file_state scrambled 9 (mul ∷ add ∷ [])))
            (watching, idle_hook))))

base_name-trace_path : base_name trace_path ≡ drop 2 trace_path
unfolding base_name after_separator
base_name-trace_path = refl

loads_written_file :
    load_trace_file trace_path
      (holds (trace_header ++ encode_events (mul ∷ [])))
      (watching, idle_hook)
    ≡ some (succeeds trace_path (mul ∷ []) (leave_live_mode (watching, idle_hook)))
loads_written_file =
    load_trace_file-encode_events trace_path (mul ∷ []) watching idle_hook (mul-Fits, tt)

-- No file has that name.
abbrev refused : App × Hook
refused =
    let f = fails (access_problem trace_path) (leave_live_mode (watching, idle_hook)) in (f.1, f.2)

no_file :
    load_trace_file trace_path missing (watching, idle_hook) ≡ some (false, refused.0, refused.1)
unfolding load_trace_file load_bytes fails
no_file = refl

load_trace_file-Refused_example : Refused watching refused.0
load_trace_file-Refused_example =
    load_trace_file-Refused trace_path missing watching refused.0 idle_hook refused.1 no_file
