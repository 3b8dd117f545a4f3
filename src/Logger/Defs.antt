-- ===== src/Logger/Defs.antt =====
-- The Logger of utils/logger.cpp: its settings, where they come from, and the lines it prints.
use Prim.Native.String.{◌++◌}
use ggml_viz.Base.{
  ℕ, Bool, true, false, ◌||◌, Option, none, some, String, leb, str_eq, if◌then◌else◌,
}
use ggml_viz.Config.Defs.{ConfigLogLevel, Config}
use ggml_viz.Config.Env.{Env}

pub data LogLevel : Type 0 where
  debug info warn error_level fatal : LogLevel

-- `static_cast<int>(level)`
unfoldable pub severity : LogLevel → ℕ
severity debug = 0
severity info = 1
severity warn = 2
severity error_level = 3
severity fatal = 4

pub record Logger : Type 0 where
  pub current_level : LogLevel
  pub timestamp_enabled : Bool
  pub thread_id_enabled : Bool
  pub prefix : String

-- The constructor's values before it reads the environment.
abbrev pub initial : Logger
initial = record {
  current_level = info;
  timestamp_enabled = true;
  thread_id_enabled = false;
  prefix = "[GGML_VIZ]";
}

-- GGML_VIZ_VERBOSE is "1".
unfoldable pub verbose_level : Option String → LogLevel → LogLevel
verbose_level none old = old
verbose_level (some v) old = if str_eq v "1" then debug else old

-- GGML_VIZ_LOG_LEVEL: any other text leaves the level.
unfoldable pub named_level : Option String → LogLevel → LogLevel
named_level none old = old
named_level (some s) old =
    if str_eq s "DEBUG" || str_eq s "debug"
    then debug
    else if str_eq s "INFO" || str_eq s "info"
    then info
    else if str_eq s "WARN" || str_eq s "warn"
    then warn
    else if str_eq s "ERROR" || str_eq s "error"
    then error_level
    else if str_eq s "FATAL" || str_eq s "fatal"
    then fatal
    else old

-- A set variable switches on with "1" or "true", and off with anything else.
unfoldable pub switch : Option String → Bool → Bool
switch none old = old
switch (some s) old = str_eq s "1" || str_eq s "true"

unfoldable pub text_or : Option String → String → String
text_or none old = old
text_or (some s) old = s

unfoldable pub configure_from_env : Env → Logger → Logger
configure_from_env env l = record {
  current_level =
      named_level (env "GGML_VIZ_LOG_LEVEL")
        (verbose_level (env "GGML_VIZ_VERBOSE") l.current_level);
  timestamp_enabled = switch (env "GGML_VIZ_LOG_TIMESTAMP") l.timestamp_enabled;
  thread_id_enabled = switch (env "GGML_VIZ_LOG_THREAD_ID") l.thread_id_enabled;
  prefix = text_or (env "GGML_VIZ_LOG_PREFIX") l.prefix;
}

unfoldable pub new_logger : Env → Logger
new_logger env = configure_from_env env initial

-- The switch over the configuration's levels.
unfoldable pub level_of : ConfigLogLevel → LogLevel
level_of ConfigLogLevel.debug = debug
level_of ConfigLogLevel.info = info
level_of ConfigLogLevel.warn = warn
level_of ConfigLogLevel.error_level = error_level
level_of ConfigLogLevel.fatal = fatal

unfoldable pub configure_from_config : Config → Logger → Logger
configure_from_config c l = record {
  current_level = level_of c.logging.level;
  timestamp_enabled = c.logging.timestamp;
  thread_id_enabled = c.logging.thread_id;
  prefix = c.logging.prefix;
}

unfoldable pub should_log : LogLevel → Logger → Bool
should_log level l = leb (severity l.current_level) (severity level)

unfoldable pub level_to_string : LogLevel → String
level_to_string debug = "DEBUG"
level_to_string info = "INFO"
level_to_string warn = "WARN"
level_to_string error_level = "ERROR"
level_to_string fatal = "FATAL"

pub data Sink : Type 0 where
  cout cerr : Sink

-- The line without its end, from the time and the thread's name that the system gives.
unfoldable pub line : String → String → LogLevel → String → Logger → String
line timestamp thread level message l =
    (if str_eq l.prefix "" then "" else l.prefix ++ " ")
    ++ ((if l.timestamp_enabled then "[" ++ (timestamp ++ "] ") else "")
        ++ (("[" ++ (level_to_string level ++ "] "))
            ++ ((if l.thread_id_enabled then "[T:" ++ (thread ++ "] ") else "") ++ message)))

-- `none` where the level is too low.
unfoldable pub log : String → String → LogLevel → String → Logger → Option (Sink × String)
log timestamp thread level message l =
    if should_log level l
    then some (
      (if leb (severity error_level) (severity level) then cerr else cout),
      line timestamp thread level message l,
    )
    else none
