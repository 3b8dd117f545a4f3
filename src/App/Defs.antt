-- ===== src/App/Defs.antt =====
-- The state of ImGuiApp and the operations of frontend/imgui_app.cpp on it that do not draw.
use ggml_viz.Base.{
  ℕ, suc, ◌-◌, Bool, true, false, not, ◌&&◌, ◌||◌, List, [], ◌∷◌, ◌++◌, Option, none, some, ltb,
  leb, ◌==◌, if◌then◌else◌, length, drop, take,
}
use ggml_viz.Event.{Event}
use ggml_viz.Trace.Format.{magic}
use ggml_viz.Trace.Reader.{
  events, undefined, out_of_fuel, Opened, invalid, valid, open_trace, same_bytes,
}
use ggml_viz.Config.Manager.{Manager, Load, loads, throws}
use ggml_viz.Hook.Defs.{Hook, stop, consume_available_events}

-- The texts that load_trace_file leaves for the error popup, one constructor each. `too_small` has the
-- size, `none` for -1.
pub data Message : Type 0 where
  no_path invalid_type not_found empty_file : Message
  too_small : Option ℕ → Message
  invalid_format corrupted unreadable access_lost no_events : Message
  out_of_memory unexpected_error unknown_error : Message

-- AppData, and the function-local statics of update_live_data. A reader is the list of its events.
-- `selected_event` is `none` for -1. Names are the bytes of the std::string.
pub record App : Type 0 where
  pub trace_reader : Option (List Event)
  pub current_filename : List ℕ
  pub error_message : Option Message
  pub trace_loaded : Bool
  pub selected_event : Option ℕ
  pub live_mode : Bool
  pub live_mode_no_hook : Bool
  pub live_events : List Event
  pub last_live_update : ℕ
  pub live_data_available : Bool
  pub live_file_path : List ℕ
  pub last_file_mod_time : ℕ
  pub last_file_size : ℕ
  pub live_trace_reader : Option (List Event)
  pub last_file_check : ℕ
  pub last_file_event_count : ℕ

abbrev pub max_events : ℕ
max_events = 50000

-- The events before the last `max_events` are erased.
unfoldable pub limit_events : List Event → List Event
limit_events es = if ltb max_events (length es) then drop (length es - max_events) es else es

unfoldable pub is_empty {ℓ} : {A : Type ℓ} → List A → Bool
is_empty [] = true
is_empty (x ∷ xs) = false

-- "[Live Mode]"
abbrev pub live_title : List ℕ
live_title = b'[' ∷ b'L' ∷ b'i' ∷ b'v' ∷ b'e' ∷ 32 ∷ b'M' ∷ b'o' ∷ b'd' ∷ b'e' ∷ b']' ∷ []

-- "test.ggmlviz"
abbrev pub default_path : List ℕ
default_path =
    b't' ∷ b'e' ∷ b's' ∷ b't' ∷ b'.' ∷ b'g' ∷ b'g' ∷ b'm' ∷ b'l' ∷ b'v' ∷ b'i' ∷ b'z' ∷ []

-- The argument, then GGML_VIZ_OUTPUT, then the default.
unfoldable pub watched_path : List ℕ → Option (List ℕ) → List ℕ
watched_path [] none = default_path
watched_path [] (some output) = output
watched_path (c ∷ cs) output = c ∷ cs

-- `start` is what GGMLHook::start comes to; an exception is caught and reported. `configure` does
-- nothing to the hook.
unfoldable pub started_hook : Bool → Load (Manager × Hook) → Manager → Hook → Manager × Hook
started_hook true result m h = (m, h)
started_hook false (throws e) m h = (m, h)
started_hook false (loads (m1, h1)) m h = (m1, h1)

unfoldable pub enable_live_mode : Bool → List ℕ → Option (List ℕ) → ℕ → App → App
enable_live_mode no_hook trace_file output now app = record app {
  live_mode = true;
  live_mode_no_hook = no_hook;
  live_events = [];
  last_live_update = now;
  current_filename = live_title;
  live_file_path = watched_path trace_file output;
  last_file_mod_time = 0;
  last_file_size = 0;
}

unfoldable pub disable_live_mode : App × Hook → App × Hook
disable_live_mode (app, h) = (
  record app {
    live_mode = false;
    live_events = [];
    live_file_path = [];
    last_file_mod_time = 0;
    last_file_size = 0;
    live_trace_reader = none;
  },
  stop h,
)

-- The events of the ring join the live events.
unfoldable pub add_hook_events : ℕ → List Event → App → App
add_hook_events now [] app = app
add_hook_events now (e ∷ es) app = record app {
  live_events = limit_events (app.live_events ++ (e ∷ es));
  last_live_update = now;
  live_data_available = true;
}

unfoldable pub update_from_hook : ℕ → App × Hook → App × Hook
update_from_hook now (app, h) =
    let (new_events, h1) = consume_available_events h in
    if h.active then (add_hook_events now new_events app, h1) else (app, h)

-- What the file system shows of the watched file: `stat`, and the bytes that a reader finds. A label
-- of a live event points into the reader that brought it. `freed` is what the label of the live event
-- at each place reads as once the reader that this look replaces has been destroyed: any text, also
-- the old one, as for an event of the hook.
pub record FileState : Type 0 where
  pub mtime : ℕ
  pub size : ℕ
  pub bytes : Option (List ℕ)
  pub freed : ℕ → List ℕ → List ℕ

-- `is_valid()` and `events()` of a new reader. A label that overruns its buffer counts as a file
-- that does not load.
unfoldable pub reader_events : Opened → Option (List Event)
reader_events invalid = none
reader_events (valid (events es)) = some es
reader_events (valid undefined) = none
reader_events (valid out_of_fuel) = none

-- Where the new events of the file begin.
unfoldable pub start_index : Option (List Event) → ℕ → List Event → ℕ
start_index none count es = 0
start_index (some old) count es = if leb count (length es) then count else 0

unfoldable pub add_file_events : ℕ → ℕ → List Event → App → App
add_file_events now start es app =
    if ltb start (length es)
    then record app {
      live_events = app.live_events ++ drop start es;
      last_live_update = now;
      live_data_available = true;
      last_file_event_count = length es;
    }
    else app

unfoldable pub freed_label : (List ℕ → List ℕ) → Option (List ℕ) → Option (List ℕ)
freed_label freed none = none
freed_label freed (some label) = some (freed label)

unfoldable pub freed_events : (ℕ → List ℕ → List ℕ) → ℕ → List Event → List Event
freed_events freed i [] = []
freed_events freed i (e ∷ es) =
    record e { label = freed_label (freed i) e.label } ∷ freed_events freed (suc i) es

-- Assigning `live_trace_reader` destroys the reader that it held, after its events were joined by new
-- ones, whose labels are in the new reader.
unfoldable pub without_reader :
    (ℕ → List ℕ → List ℕ) → Option (List Event) → List Event → List Event
without_reader freed none es = es
without_reader freed (some old) es = freed_events freed 0 es

abbrev pub destroy_reader : (ℕ → List ℕ → List ℕ) → App → App
destroy_reader freed app = record app {
  live_events = without_reader freed app.live_trace_reader app.live_events;
}

unfoldable pub reload : ℕ → FileState → Option (List Event) → App → App
reload now f none app = app
reload now f (some es) app =
    let app1 =
      add_file_events now (start_index app.live_trace_reader app.last_file_event_count es) es
        (destroy_reader f.freed app) in
    record app1 {
      last_file_mod_time = f.mtime;
      last_file_size = f.size;
      live_trace_reader = some es;
      live_events = limit_events app1.live_events;
    }

unfoldable pub check_file : ℕ → Option FileState → App → App
check_file now none app = app
check_file now (some f) app =
    if ltb app.last_file_mod_time f.mtime || ltb app.last_file_size f.size
    then reload now f (reader_events (open_trace f.bytes)) app
    else app

-- The file is looked at when more than 100 ms have passed since the last time.
unfoldable pub update_from_file : ℕ → Option FileState → App → App
update_from_file now f app =
    if not (is_empty app.live_file_path) && ltb 100 (now - app.last_file_check)
    then check_file now f (record app { last_file_check = now })
    else app

unfoldable pub update_live_data : ℕ → Option FileState → App × Hook → App × Hook
update_live_data now f (app, h) =
    let (app1, h1) = update_from_hook now (app, h) in
    if app.live_mode then (update_from_file now f app1, h1) else (app, h)

-- `filename.substr(filename.find_last_of('.'))`, or `none` without a dot.
unfoldable pub last_extension : List ℕ → Option (List ℕ)
last_extension [] = none
last_extension (c ∷ cs) = elim (last_extension cs) [
  | some e ↦ some e
  | none ↦ if c == b'.' then some (c ∷ cs) else none
]

-- ".ggmlviz"
abbrev pub trace_extension : List ℕ
trace_extension = b'.' ∷ b'g' ∷ b'g' ∷ b'm' ∷ b'l' ∷ b'v' ∷ b'i' ∷ b'z' ∷ []

unfoldable pub has_trace_extension : Option (List ℕ) → Bool
has_trace_extension none = false
has_trace_extension (some e) = same_bytes e trace_extension

unfoldable pub access_problem : List ℕ → Message
access_problem [] = no_path
access_problem (c ∷ cs) =
    if has_trace_extension (last_extension (c ∷ cs)) then not_found else invalid_type

-- What follows the last slash or backslash, or `none` without one.
unfoldable pub after_separator : List ℕ → Option (List ℕ)
after_separator [] = none
after_separator (c ∷ cs) = elim (after_separator cs) [
  | some name ↦ some name
  | none ↦ if c == b'/' || c == 92 then some cs else none
]

-- `filename.substr(filename.find_last_of("/\\") + 1)`
unfoldable pub base_name : List ℕ → List ℕ
base_name name = elim (after_separator name) [ none ↦ name | some rest ↦ rest ]

-- Why a reader is not valid: the first 8 bytes are read again.
unfoldable pub reader_problem : List ℕ → Message
reader_problem bs =
    if ltb (length bs) 8
    then unreadable
    else if same_bytes (take 8 bs) magic
    then corrupted
    else invalid_format

unfoldable pub fails : Message → App × Hook → Bool × App × Hook
fails m (app, h) = (false, record app { error_message = some m }, h)

unfoldable pub succeeds : List ℕ → List Event → App × Hook → Bool × App × Hook
succeeds filename es (app, h) = (
  true,
  record app {
    error_message = if is_empty es then some no_events else app.error_message;
    trace_reader = some es;
    trace_loaded = true;
    current_filename = base_name filename;
    selected_event = none;
  },
  h,
)

-- `none` is a trace that overruns a label's buffer.
unfoldable pub load_opened : List ℕ → List ℕ → Opened → App × Hook → Option (Bool × App × Hook)
load_opened filename bs invalid s = some (fails (reader_problem bs) s)
load_opened filename bs (valid (events es)) s = some (succeeds filename es s)
load_opened filename bs (valid undefined) s = none
load_opened filename bs (valid out_of_fuel) s = none

-- What the loading of a trace throws.
pub data Exception : Type 0 where
  bad_alloc std_exception other_exception : Exception

unfoldable pub caught : Exception → Message
caught bad_alloc = out_of_memory
caught std_exception = unexpected_error
caught other_exception = unknown_error

-- A file, which does not change while it is loaded. `missing` cannot be opened. `no_reads` can be
-- opened, but no byte of it can be read, as of a directory; `none` is a size of -1, where it cannot be
-- told. `vanishes` can be opened only once. `raises` is a file in whose loading an exception is thrown.
pub data Content : Type 0 where
  missing : Content
  no_reads : Option ℕ → Content
  vanishes : Option ℕ → Content
  raises : Exception → Content
  holds : List ℕ → Content

-- The tests of the size, and then the rest of the function.
unfoldable pub sized :
    Option ℕ → Option (Bool × App × Hook) → App × Hook → Option (Bool × App × Hook)
sized none rest s = some (fails (too_small none) s)
sized (some n) rest s =
    if n == 0
    then some (fails empty_file s)
    else if ltb n 12
    then some (fails (too_small (some n)) s)
    else rest

unfoldable pub load_bytes : List ℕ → Content → App × Hook → Option (Bool × App × Hook)
load_bytes filename missing s = some (fails (access_problem filename) s)
load_bytes filename (no_reads size) s = sized size (some (fails unreadable s)) s
load_bytes filename (vanishes size) s = sized size (some (fails access_lost s)) s
load_bytes filename (raises e) s = some (fails (caught e) s)
load_bytes filename (holds bs) s =
    sized (some (length bs)) (load_opened filename bs (open_trace (some bs)) s) s

unfoldable pub leave_live_mode : App × Hook → App × Hook
leave_live_mode (app, h) = if app.live_mode then disable_live_mode (app, h) else (app, h)

unfoldable pub load_trace_file : List ℕ → Content → App × Hook → Option (Bool × App × Hook)
load_trace_file filename content s = load_bytes filename content (leave_live_mode s)
