-- ===== src/Config/Json.antt =====
-- Config::to_json, from_json and from_file, and ConfigManager::dump_json (src/utils/config.cpp), over the
-- JSON library that they call.
use ggml_viz.Base.{ℕ, Bool, ◌==◌, List, [], ◌∷◌, Option, none, some, String, if◌then◌else◌}
use ggml_viz.Config.Defs.{
  ConfigLogLevel, InstrumentationConfig, OutputConfig, LoggingConfig, UiConfig, Config,
  default_config, log_level_to_string, string_to_log_level, ValidationError, validation_error,
}
use ggml_viz.Config.Manager.{Files, Manager}

-- nlohmann::json. `none` is a json::exception. `put` is `j[key] = value` on a null or an object; `find`
-- is `contains` and then `operator[]`; the conversions to numbers take the width of their C++ type.
pub record Json : Type 1 where
  pub Text : Type 0
  pub Value : Type 0
  pub parse : Text → Option Value
  pub dump : Value → Text
  pub null : Value
  pub put : String → Value → Value → Value
  pub find : Value → String → Option Value
  pub of_bool : Bool → Value
  pub of_uint : ℕ → Value
  pub of_text : String → Value
  pub of_uints : List ℕ → Value
  pub of_texts : List String → Value
  pub to_bool : Value → Option Bool
  pub to_uint : ℕ → Value → Option ℕ
  pub to_text : Value → Option String
  pub to_uints : ℕ → Value → Option (List ℕ)
  pub to_texts : Value → Option (List String)

-- Why from_file throws.
pub data ReadError : Type 0 where
  cannot_open json_error : ReadError
  unsupported_version : ℕ → ReadError
  invalid : ValidationError → ReadError

pub data Read {ℓ} (A : Type ℓ) : Type ℓ where
  reads : A → Read A
  fails : ReadError → Read A

infixl 5 ◌>>=◌
unfoldable pub ◌>>=◌ : {A B : Type 0} → Read A → (A → Read B) → Read B
reads a >>= f = f a
fails e >>= f = fails e

unfoldable pub converted : {A : Type 0} → Option A → Read A
converted none = fails json_error
converted (some a) = reads a

-- `if (v.contains(key)) field = v[key];`
unfoldable pub field_or : {V A : Type 0} → (V → Option A) → Option V → A → Read A
field_or get none old = reads old
field_or get (some v) old = converted (get v)

unfoldable pub section_or : {V A : Type 0} → (V → A → Read A) → Option V → A → Read A
section_or get none old = reads old
section_or get (some v) old = get v old

unfoldable pub checked_version : ℕ → Read ℕ
checked_version v = if v == 1 then reads v else fails (unsupported_version v)

unfoldable pub validated : Config → Read Config
validated c = elim (validation_error c) [ none ↦ reads c | some e ↦ fails (invalid e) ]

unfoldable pub read_or_none : Read Config → Option Config
read_or_none (reads c) = some c
read_or_none (fails e) = none

module _ (J : Json) where
  open J use {
    Text, Value, parse, dump, null, put, find, of_bool, of_uint, of_text, of_uints, of_texts,
    to_bool, to_uint, to_text, to_uints, to_texts,
  }

  -- Assignments to the keys of an object, one after the other. `j[s][k] = v` makes the object `j[s]` at
  -- its first key.
  unfoldable pub put_all : Value → List (String × Value) → Value
  put_all v [] = v
  put_all v ((key, x) ∷ fields) = put_all (put key x v) fields

  unfoldable pub instrumentation_fields : InstrumentationConfig → List (String × Value)
  instrumentation_fields c =
      ("enable_op_timing", of_bool c.enable_op_timing)
      ∷ ("enable_memory_tracking", of_bool c.enable_memory_tracking)
      ∷ ("record_tensor_names", of_bool c.record_tensor_names)
      ∷ ("max_events", of_uint c.max_events)
      ∷ ("op_types_to_trace", of_uints c.op_types_to_trace)
      ∷ ("backends_to_trace", of_texts c.backends_to_trace)
      ∷ []

  unfoldable pub output_fields : OutputConfig → List (String × Value)
  output_fields c =
      ("filename", of_text c.filename)
      ∷ ("write_to_file", of_bool c.write_to_file)
      ∷ ("flush_interval", of_uint c.flush_interval)
      ∷ []

  unfoldable pub logging_fields : LoggingConfig → List (String × Value)
  logging_fields c =
      ("level", of_text (log_level_to_string c.level))
      ∷ ("timestamp", of_bool c.timestamp)
      ∷ ("thread_id", of_bool c.thread_id)
      ∷ ("prefix", of_text c.prefix)
      ∷ []

  unfoldable pub ui_fields : UiConfig → List (String × Value)
  ui_fields c =
      ("live_mode", of_bool c.live_mode)
      ∷ ("poll_interval_ms", of_uint c.poll_interval_ms)
      ∷ ("max_live_events", of_uint c.max_live_events)
      ∷ []

  unfoldable pub config_fields : Config → List (String × Value)
  config_fields c =
      ("schema_version", of_uint c.schema_version)
      ∷ ("instrumentation", put_all null (instrumentation_fields c.instrumentation))
      ∷ ("output", put_all null (output_fields c.output))
      ∷ ("logging", put_all null (logging_fields c.logging))
      ∷ ("ui", put_all null (ui_fields c.ui))
      ∷ []

  unfoldable pub to_json : Config → Text
  to_json c = dump (put_all null (config_fields c))

  unfoldable pub dump_json : Manager → Text
  dump_json m = to_json m.config

  unfoldable pub read_instrumentation : Value → InstrumentationConfig → Read InstrumentationConfig
  read_instrumentation inst c = do
    op_timing ← field_or to_bool (find inst "enable_op_timing") c.enable_op_timing
    memory ← field_or to_bool (find inst "enable_memory_tracking") c.enable_memory_tracking
    names ← field_or to_bool (find inst "record_tensor_names") c.record_tensor_names
    events ← field_or (to_uint 64) (find inst "max_events") c.max_events
    types ← field_or (to_uints 32) (find inst "op_types_to_trace") c.op_types_to_trace
    backends ← field_or to_texts (find inst "backends_to_trace") c.backends_to_trace
    reads (record {
      enable_op_timing = op_timing;
      enable_memory_tracking = memory;
      record_tensor_names = names;
      max_events = events;
      op_types_to_trace = types;
      backends_to_trace = backends;
    })

  unfoldable pub read_output : Value → OutputConfig → Read OutputConfig
  read_output out c = do
    name ← field_or to_text (find out "filename") c.filename
    to_file ← field_or to_bool (find out "write_to_file") c.write_to_file
    interval ← field_or (to_uint 32) (find out "flush_interval") c.flush_interval
    reads (record { filename = name; write_to_file = to_file; flush_interval = interval })

  -- A text that names no level is read as INFO.
  unfoldable pub to_level : Value → Option ConfigLogLevel
  to_level v = elim (to_text v) [ none ↦ none | some s ↦ some (string_to_log_level s) ]

  unfoldable pub read_logging : Value → LoggingConfig → Read LoggingConfig
  read_logging log c = do
    lv ← field_or to_level (find log "level") c.level
    time ← field_or to_bool (find log "timestamp") c.timestamp
    thread ← field_or to_bool (find log "thread_id") c.thread_id
    pre ← field_or to_text (find log "prefix") c.prefix
    reads (record { level = lv; timestamp = time; thread_id = thread; prefix = pre })

  unfoldable pub read_ui : Value → UiConfig → Read UiConfig
  read_ui ui_cfg c = do
    mode ← field_or to_bool (find ui_cfg "live_mode") c.live_mode
    interval ← field_or (to_uint 32) (find ui_cfg "poll_interval_ms") c.poll_interval_ms
    most ← field_or (to_uint 32) (find ui_cfg "max_live_events") c.max_live_events
    reads (record { live_mode = mode; poll_interval_ms = interval; max_live_events = most })

  unfoldable pub read_version : Value → ℕ → Read ℕ
  read_version v old = do version ← converted (to_uint 32 v); checked_version version

  -- Unknown keys are only warned of.
  unfoldable pub read_config : Value → Config → Read Config
  read_config j c = do
    version ← section_or read_version (find j "schema_version") c.schema_version
    inst ← section_or read_instrumentation (find j "instrumentation") c.instrumentation
    out ← section_or read_output (find j "output") c.output
    log ← section_or read_logging (find j "logging") c.logging
    ui_cfg ← section_or read_ui (find j "ui") c.ui
    validated (record {
      schema_version = version;
      instrumentation = inst;
      output = out;
      logging = log;
      ui = ui_cfg;
    })

  unfoldable pub from_json : Text → Read Config
  from_json text = do j ← converted (parse text); read_config j default_config

  -- What the file holds, or `none` where it cannot be opened.
  unfoldable pub from_file : Option Text → Read Config
  from_file none = fails cannot_open
  from_file (some text) = from_json text

  -- The files as load_with_precedence sees them.
  unfoldable pub config_files : (String → Option Text) → Files
  config_files texts path = read_or_none (from_file (texts path))
