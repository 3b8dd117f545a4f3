-- ===== src/Logger/Levels.antt =====
-- Which messages logger.cpp prints, under the levels of the environment and of a configuration.
use ggml_viz.Base.{◌≤◌, ◌<◌, ◌≡◌, ◌⊎◌, refl, arith, none, some, String, leb, str_eq, if◌then◌else◌}
use ggml_viz.Config.Defs.{ConfigLogLevel, log_level_to_string}
use ggml_viz.Config.Env.{Env}
use ggml_viz.Logger.Defs.{
  LogLevel, error_level, severity, Logger, named_level, configure_from_env, level_of, should_log,
  cout, cerr, line, log,
}

-- A message is printed exactly if it is at least as severe as the level; it is then the built line,
-- on the error stream from ERROR on and on the output stream below.
pub log_iff :
    (timestamp thread message : String) (level : LogLevel) (l : Logger)
    → ((severity level < severity l.current_level) × (log timestamp thread level message l ≡ none))
      ⊎ ((severity l.current_level ≤ severity level)
          × (log timestamp thread level message l
              ≡ some (
                (if leb (severity error_level) (severity level) then cerr else cout),
                line timestamp thread level message l,
              )))
unfolding log should_log
log_iff timestamp thread message level l = ground arith

-- The name of a level that a configuration prints, in GGML_VIZ_LOG_LEVEL, gives the logger the
-- level that this configuration gives it, whatever it was before and whatever GGML_VIZ_VERBOSE
-- says.
pub configure_from_env-log_level :
    (level : ConfigLogLevel) (env : Env) (l : Logger)
    → env "GGML_VIZ_LOG_LEVEL" ≡ some (log_level_to_string level)
    → (configure_from_env env l).current_level ≡ level_of level
unfolding configure_from_env named_level level_of log_level_to_string str_eq
configure_from_env-log_level ConfigLogLevel.debug env l h = rw h refl
configure_from_env-log_level ConfigLogLevel.info env l h = rw h refl
configure_from_env-log_level ConfigLogLevel.warn env l h = rw h refl
configure_from_env-log_level ConfigLogLevel.error_level env l h = rw h refl
configure_from_env-log_level ConfigLogLevel.fatal env l h = rw h refl
