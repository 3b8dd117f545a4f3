-- ===== src/Init/Tests.antt =====
-- A process whose environment names a trace file.
use ggml_viz.Base.{
  ◌≡◌, refl, true, false, [], ◌∷◌, Option, none, some, String, str_eq, if◌then◌else◌, has_text,
  arith, take,
}
use ggml_viz.Event.{Event, op_compute_begin, op_payload}
use ggml_viz.Trace.Reader.{open_trace, valid, events}
use ggml_viz.Config.Defs.{Config, default_config, validation_error, bad_backend}
use ggml_viz.Config.Env.{
  Env, env_verbose, env_output, env_max_events, env_disable, apply_env_overrides,
}
use ggml_viz.Config.Manager.{
  new_manager, Files, loads, resolve, final_check, merge_cli_file, merge_optional_file, merge_found,
}
use ggml_viz.Hook.Defs.{Hook, env_config_path}
use ggml_viz.Hook.Session.{record_all}
use ggml_viz.Hook.Callbacks.{ℤ}
use ggml_viz.Hook.Interpose.{System, no_originals}
use ggml_viz.Init.Defs.{Init, auto_initialize, at_exit}
use ggml_viz.Init.Trace.{with_env, auto_initialize-ignores, open_trace-auto_initialize}

abbrev mul : Event
mul = record {
  type = op_compute_begin;
  timestamp_ns = 5;
  thread_id = 1;
  payload = op_payload 4096 26 64 0;
  label = none;
}

abbrev quiet_hook : Hook
quiet_hook = record {
  active = false;
  event_count = 0;
  event_buffer = λ i. mul;
  write_pos = 0;
  read_pos = 0;
  dropped_events = 0;
  output_file = false;
  written = [];
}

abbrev no_stoi : String → Option ℤ
no_stoi s = none

abbrev named : Env
named name = if str_eq name "GGML_VIZ_OUTPUT" then some "t.ggmlviz" else none

abbrev no_files : Files
no_files path = none

abbrev system : System
system = record { files = no_files; env = named; opens = true; dlsym = none; status_success = 0 }

abbrev loaded_library : Init
loaded_library = record {
  auto_initialized = false;
  verbose_logging = false;
  process = record {
    hook = quiet_hook;
    manager = new_manager;
    originals = no_originals;
    hooks_initialized = false;
  };
}

abbrev settings : Config
settings = record default_config {
  output = record default_config.output { filename = "t.ggmlviz"; write_to_file = true };
}

settings-resolved :
    resolve no_files named "" (env_config_path (named "GGML_VIZ_CONFIG")) "ggml-viz.json"
    ≡ loads settings
unfolding resolve final_check merge_cli_file merge_optional_file merge_found apply_env_overrides
    env_verbose env_output env_max_events env_disable validation_error bad_backend has_text str_eq
    env_config_path
settings-resolved = refl

open_trace-auto_initialize_example :
    open_trace (
      some
        (at_exit (
          record_all settings
            (mul ∷ [])
            (auto_initialize no_stoi system loaded_library).process.hook)).written)
    ≡ valid (events (take settings.instrumentation.max_events (mul ∷ [])))
unfolding str_eq
open_trace-auto_initialize_example =
    open_trace-auto_initialize no_stoi system loaded_library "t.ggmlviz" settings (mul ∷ []) refl
      refl refl refl refl refl settings-resolved refl (omega arith)

auto_initialize-ignores_example :
    (auto_initialize no_stoi (with_env "GGML_VIZ_OP_TIMING" (some "0") system) loaded_library
      ≡ auto_initialize no_stoi system loaded_library)
    × (auto_initialize no_stoi
          (with_env "GGML_VIZ_THREAD_TRACKING" (some "0") system)
          loaded_library
        ≡ auto_initialize no_stoi system loaded_library)
    × (auto_initialize no_stoi (with_env "GGML_VIZ_TENSOR_NAMES" (some "0") system) loaded_library
        ≡ auto_initialize no_stoi system loaded_library)
auto_initialize-ignores_example = auto_initialize-ignores no_stoi system (some "0") loaded_library
