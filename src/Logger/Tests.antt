-- ===== src/Logger/Tests.antt =====
-- A logger of level WARN, and the theorems on levels at it.
use ggml_viz.Base.{◌<◌, ◌≤◌, ◌≡◌, ◌⊎◌, refl, [], ◌∷◌, none, some, false, leb, if◌then◌else◌, str_eq}
use ggml_viz.Config.Defs.{ConfigLogLevel, log_level_to_string}
use ggml_viz.Config.Env.{Env}
use ggml_viz.Logger.Defs.{
  Logger, initial, configure_from_env, level_of, severity, debug, warn, error_level, log, line,
  cout, cerr, level_to_string, should_log,
}
use ggml_viz.Logger.Stream.{new_stream, put_values, end_stream, joined, end_stream-put_values}
use ggml_viz.Logger.Levels.{log_iff, configure_from_env-log_level}

abbrev bare : Logger
bare = record initial { current_level = warn; timestamp_enabled = false }

log-bare : log "now" "7" error_level "disk full" bare ≡ some (cerr, "[GGML_VIZ] [ERROR] disk full")
unfolding log line should_log severity level_to_string str_eq
log-bare = refl

debug_is_hidden :
    ((severity debug < severity warn) × (log "now" "7" debug "hello" bare ≡ none))
    ⊎ ((severity warn ≤ severity debug)
        × (log "now" "7" debug "hello" bare
            ≡ some (
              (if leb (severity error_level) (severity debug) then cerr else cout),
              line "now" "7" debug "hello" bare,
            )))
debug_is_hidden = log_iff "now" "7" "hello" debug bare

abbrev fatal_only : Env
fatal_only s = some "FATAL"

levels_alike : (configure_from_env fatal_only bare).current_level ≡ level_of ConfigLogLevel.fatal
unfolding log_level_to_string
levels_alike = configure_from_env-log_level ConfigLogLevel.fatal fatal_only bare refl

end_stream-put_values_example :
    end_stream "now" "7" (put_values ("disk " ∷ "full" ∷ []) (new_stream error_level bare)) bare
    ≡ log "now" "7" error_level (joined "" ("disk " ∷ "full" ∷ [])) bare
end_stream-put_values_example =
    end_stream-put_values "now" "7" error_level ("disk " ∷ "full" ∷ []) bare
