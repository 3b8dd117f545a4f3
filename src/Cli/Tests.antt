-- ===== src/Cli/Tests.antt =====
-- Command lines, and the theorems at them.
use ggml_viz.Base.{
  ◌≡◌, refl, ap, Bool, true, false, List, [], ◌∷◌, Option, none, some, String, str_eq,
  if◌then◌else◌, has_text,
}
use ggml_viz.Config.Defs.{default_config, ConfigLogLevel, validation_error, bad_backend}
use ggml_viz.Config.Env.{
  Env, env_verbose, env_output, env_max_events, env_disable, apply_env_overrides,
}
use ggml_viz.Config.Manager.{
  Manager, new_manager, Files, loads, load_with_precedence, resolve, publish, final_check,
  merge_cli_file, merge_optional_file, merge_found,
}
use ggml_viz.Hook.Callbacks.{ℤ, pos}
use ggml_viz.Logger.Defs.{initial, debug, configure_from_config}
use ggml_viz.Cli.Defs.{
  CliConfig, new_config, live, port_opt, no_hook_opt, argument, parse_arguments, parse_options,
  parse_option, set_port, in_port_range, parse_operands, parse_windows_args, setup_environment,
  set_verbose, configure_logger, env_config_file, main_action, starts_with_dash,
}
use ggml_viz.Cli.Parse.{Spelled, spell_all, opts, operand, parse_windows_args-parse_arguments}
use ggml_viz.Cli.Start.{Allowed, main_action-Allowed, setup_environment-verbose}

-- A stoi that knows one number.
abbrev stoi : String → Option ℤ
stoi s = if str_eq s "9000" then some (pos 9000) else none

abbrev number : Option ℤ → ℤ
number none = pos 0
number (some n) = n

abbrev atoi : String → ℤ
atoi s = number (stoi s)

-- --live -p 9000 --no-hook t.ggmlviz
abbrev spelled : List Spelled
spelled =
    record { short = false; opt = live }
    ∷ record { short = true; opt = port_opt "9000" }
    ∷ record { short = true; opt = no_hook_opt }
    ∷ []

abbrev read_config : CliConfig
read_config = record new_config {
  live_mode = true;
  port = pos 9000;
  no_hook = true;
  trace_file = "t.ggmlviz";
}

parse_windows_args-parse_arguments_example :
    parse_windows_args atoi argument (spell_all spelled (operand (some "t.ggmlviz"))) new_config
    ≡ read_config
unfolding starts_with_dash parse_arguments parse_options parse_option set_port in_port_range
    parse_operands str_eq
parse_windows_args-parse_arguments_example =
    parse_windows_args-parse_arguments stoi atoi (λ s n h. ap number h) spelled (some "t.ggmlviz")
      read_config refl refl

abbrev no_files : Files
no_files path = none

abbrev no_env : Env
no_env name = none

abbrev exists : String → Bool
exists path = str_eq path "t.ggmlviz"

main_action-Allowed_example : Allowed exists (
    main_action exists no_files no_env new_manager initial stoi
      (opts spelled)
      (operand (some "t.ggmlviz")))
main_action-Allowed_example =
    main_action-Allowed exists no_files no_env new_manager initial stoi (opts spelled)
      (operand (some "t.ggmlviz"))

abbrev loud_config : CliConfig
loud_config = record new_config { verbose = true }

abbrev loud_manager : Manager
loud_manager = record {
  config = record default_config {
    logging = record default_config.logging { level = ConfigLogLevel.debug };
  };
  loaded = true;
}

loud_setup :
    setup_environment no_files no_env loud_config new_manager initial
    ≡ loads (loud_manager, configure_from_config loud_manager.config initial)
unfolding setup_environment set_verbose configure_logger env_config_file load_with_precedence
    resolve publish final_check merge_cli_file merge_optional_file merge_found apply_env_overrides
    env_verbose env_output env_max_events env_disable validation_error bad_backend has_text str_eq
loud_setup = refl

verbose_is_exported : (configure_from_config loud_manager.config initial).current_level ≡ debug
verbose_is_exported =
    setup_environment-verbose no_files no_env loud_config new_manager loud_manager initial
      (configure_from_config loud_manager.config initial) refl refl loud_setup
