-- ===== src/Config/Defs.antt =====
-- The structs of src/utils/config.hpp with their defaults, and Config::validation_error
-- (config.cpp).
use ggml_viz.Base.{
  ℕ, Bool, true, false, List, [], ◌∷◌, Option, none, some, String, ltb, not, ◌==◌, str_eq, has_text,
  if◌then◌else◌,
}

pub data ConfigLogLevel : Type 0 where
  debug info warn error_level fatal : ConfigLogLevel

pub record InstrumentationConfig : Type 0 where
  pub enable_op_timing : Bool
  pub enable_memory_tracking : Bool
  pub record_tensor_names : Bool
  pub max_events : ℕ
  pub op_types_to_trace : List ℕ
  pub backends_to_trace : List String

pub record OutputConfig : Type 0 where
  pub filename : String
  pub write_to_file : Bool
  pub flush_interval : ℕ

pub record LoggingConfig : Type 0 where
  pub level : ConfigLogLevel
  pub timestamp : Bool
  pub thread_id : Bool
  pub prefix : String

pub record UiConfig : Type 0 where
  pub live_mode : Bool
  pub poll_interval_ms : ℕ
  pub max_live_events : ℕ

-- `schema_version` is an enum over uint32_t, so any number can be cast into it.
pub record Config : Type 0 where
  pub schema_version : ℕ
  pub instrumentation : InstrumentationConfig
  pub output : OutputConfig
  pub logging : LoggingConfig
  pub ui : UiConfig

abbrev pub default_config : Config
default_config = record {
  schema_version = 1;
  instrumentation = record {
    enable_op_timing = true;
    enable_memory_tracking = false;
    record_tensor_names = true;
    max_events = 1000000;
    op_types_to_trace = [];
    backends_to_trace = "cpu" ∷ "metal" ∷ "cuda" ∷ [];
  };
  output = record { filename = "ggml_trace.ggmlviz"; write_to_file = true; flush_interval = 4096 };
  logging = record { level = info; timestamp = true; thread_id = false; prefix = "[GGML_VIZ]" };
  ui = record { live_mode = false; poll_interval_ms = 100; max_live_events = 50000 };
}

unfoldable pub log_level_to_string : ConfigLogLevel → String
log_level_to_string debug = "DEBUG"
log_level_to_string info = "INFO"
log_level_to_string warn = "WARN"
log_level_to_string error_level = "ERROR"
log_level_to_string fatal = "FATAL"

unfoldable pub string_to_log_level : String → ConfigLogLevel
string_to_log_level s =
    if str_eq s "DEBUG"
    then debug
    else if str_eq s "INFO"
    then info
    else if str_eq s "WARN"
    then warn
    else if str_eq s "ERROR"
    then error_level
    else if str_eq s "FATAL"
    then fatal
    else info

-- The messages of `validation_error`, one constructor each; `none` stands for the empty string.
pub data ValidationError : Type 0 where
  unsupported_schema : ℕ → ValidationError
  max_events_zero max_events_too_large filename_empty flush_interval_zero : ValidationError
  poll_interval_zero max_live_events_zero : ValidationError
  invalid_backend : String → ValidationError

abbrev pub valid_backends : List String
valid_backends = "cpu" ∷ "metal" ∷ "cuda" ∷ "vulkan" ∷ "opencl" ∷ []

-- The first backend of the list that is not a valid one.
unfoldable pub bad_backend : List String → Option ValidationError
bad_backend [] = none
bad_backend (b ∷ bs) =
    if has_text valid_backends b then bad_backend bs else some (invalid_backend b)

unfoldable pub validation_error : Config → Option ValidationError
validation_error c =
    if not (c.schema_version == 1)
    then some (unsupported_schema c.schema_version)
    else if c.instrumentation.max_events == 0
    then some max_events_zero
    else if ltb 100000000 c.instrumentation.max_events
    then some max_events_too_large
    else if str_eq c.output.filename ""
    then some filename_empty
    else if c.output.flush_interval == 0
    then some flush_interval_zero
    else if c.ui.poll_interval_ms == 0
    then some poll_interval_zero
    else if c.ui.max_live_events == 0
    then some max_live_events_zero
    else bad_backend c.instrumentation.backends_to_trace

unfoldable pub is_valid : Config → Bool
is_valid c = elim (validation_error c) [ none ↦ true | some e ↦ false ]
