-- ===== src/Config/Tests.antt =====
-- Configurations on disk and in the environment, and the theorems on the configuration at them.
use ggml_viz.Base.{
  ◌≡◌, ◌↔◌, refl, List, [], ◌∷◌, none, some, str_eq, strs_eq, has_text, if◌then◌else◌,
}
use ggml_viz.Config.Defs.{
  Config, default_config, validation_error, bad_backend, log_level_to_string, string_to_log_level,
  fatal,
}
use ggml_viz.Config.Merge.{merge_from, nat_eq, bool_eq, level_eq, pick_list}
use ggml_viz.Config.Env.{
  Env, apply_env_overrides, env_output, env_max_events, env_verbose, env_disable, stoull,
}
use ggml_viz.Config.Manager.{
  Files, new_manager, loads, resolve, final_check, merge_cli_file, merge_or_throw,
  merge_optional_file, merge_found,
}
use ggml_viz.Config.Validity.{
  IsValid, validation_error_iff, default_config-IsValid, Call, load, resets, history,
  history-IsValid, string_to_log_level-log_level_to_string,
}
use ggml_viz.Config.Precedence.{decided, output_says, number_says, resolve_precedence}

-- The CLI file asks for the default file name and for 500 events.
abbrev cli_config : Config
cli_config = record default_config {
  instrumentation = record default_config.instrumentation { max_events = 500 };
}

abbrev files : Files
files path = if str_eq path "cli.json" then some cli_config else none

abbrev env : Env
env name = if str_eq name "GGML_VIZ_OUTPUT" then some "env.ggmlviz" else none

abbrev resolved : Config
resolved = record cli_config { output = record cli_config.output { filename = "env.ggmlviz" } }

resolved_test : resolve files env "cli.json" "" "ggml-viz.json" ≡ loads resolved
unfolding resolve final_check merge_cli_file merge_or_throw merge_optional_file merge_found
    merge_from nat_eq bool_eq level_eq pick_list apply_env_overrides env_output env_max_events
    env_verbose env_disable stoull validation_error bad_backend has_text str_eq strs_eq
resolved_test = refl

-- The environment's file name stands, although the CLI file names another.
resolve_precedence_example :
    (resolved.output.filename
      ≡ decided str_eq
          (λ d. d.output.filename)
          files
          (output_says env)
          "cli.json"
          ""
          "ggml-viz.json")
    × (resolved.instrumentation.max_events
        ≡ decided nat_eq
            (λ d. d.instrumentation.max_events)
            files
            (number_says (env "GGML_VIZ_MAX_EVENTS"))
            "cli.json"
            ""
            "ggml-viz.json")
resolve_precedence_example =
    resolve_precedence files env "cli.json" "" "ggml-viz.json" resolved resolved_test

errors_of_bad_config : (validation_error cli_config ≡ none) ↔ IsValid cli_config
errors_of_bad_config = validation_error_iff cli_config

abbrev calls : List Call
calls = load files env "missing.json" "" "" ∷ load files env "cli.json" "" "" ∷ resets ∷ []

history-IsValid_example : IsValid (history new_manager calls).config
history-IsValid_example = history-IsValid new_manager calls default_config-IsValid

error_level_again : string_to_log_level (log_level_to_string fatal) ≡ fatal
error_level_again = string_to_log_level-log_level_to_string fatal
