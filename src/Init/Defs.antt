-- ===== src/Init/Defs.antt =====
-- AutoInitializer, its handlers at exit, and the exported tests
-- (instrumentation/ggml_viz_init.cpp).
use ggml_viz.Base.{
  ℕ, ◌+◌, ◌-◌, ◌^◌, Bool, true, false, ◌&&◌, ◌||◌, Option, none, some, String, str_eq,
  if◌then◌else◌,
}
use ggml_viz.Config.Env.{Env}
use ggml_viz.Config.Manager.{Load, loads, throws, Manager}
use ggml_viz.Hook.Defs.{Hook, start, stop}
use ggml_viz.Hook.Callbacks.{ℤ, pos, negsuc}
use ggml_viz.Hook.Interpose.{System, Process, install_ggml_hooks}

-- "1", "true", "TRUE", "on" or "ON".
unfoldable pub is_true : String → Bool
is_true s = str_eq s "1" || str_eq s "true" || str_eq s "TRUE" || str_eq s "on" || str_eq s "ON"

unfoldable pub parse_bool_env : Option String → Bool → Bool
parse_bool_env none default_value = default_value
parse_bool_env (some value) default_value = is_true value

-- `parsed` is what std::stoi returns, `none` where it throws.
unfoldable pub or_default : Option ℤ → ℤ → ℤ
or_default none default_value = default_value
or_default (some n) default_value = n

unfoldable pub parse_int_env : (String → Option ℤ) → Option String → ℤ → ℤ
parse_int_env stoi none default_value = default_value
parse_int_env stoi (some value) default_value = or_default (stoi value) default_value

-- An `int` as a `size_t`.
unfoldable pub size_of_int : ℤ → ℕ
size_of_int (pos n) = n
size_of_int (negsuc n) = 2 ^ 64 - (n + 1)

-- The fields of HookConfig that the constructor sets.
pub record HookConfig : Type 0 where
  pub enable_op_timing : Bool
  pub enable_thread_tracking : Bool
  pub enable_tensor_names : Bool
  pub write_to_file : Bool
  pub output_filename : String
  pub max_events : ℕ

unfoldable pub config_from_env : (String → Option ℤ) → Env → String → HookConfig
config_from_env stoi env output = record {
  enable_op_timing = parse_bool_env (env "GGML_VIZ_OP_TIMING") true;
  enable_thread_tracking = parse_bool_env (env "GGML_VIZ_THREAD_TRACKING") false;
  enable_tensor_names = parse_bool_env (env "GGML_VIZ_TENSOR_NAMES") true;
  write_to_file = true;
  output_filename = output;
  max_events = size_of_int (parse_int_env stoi (env "GGML_VIZ_MAX_EVENTS") (pos 10000000));
}

-- GGMLHook::configure prints a warning, whether the hook is active or not.
unfoldable pub configure : HookConfig → Hook → Hook
configure c h = if h.active then h else h

-- `g_auto_initialized`, `g_verbose_logging`, and the process.
pub record Init : Type 0 where
  pub auto_initialized : Bool
  pub verbose_logging : Bool
  pub process : Process

-- What follows `start`; where it throws, the flag is taken back.
unfoldable pub finish_start : System → Load (Manager × Hook) → Init → Init
finish_start sys (throws e) s = record s { auto_initialized = false }
finish_start sys (loads (m, h)) s = record s {
  auto_initialized = true;
  process = install_ggml_hooks sys (record s.process { manager = m; hook = h });
}

unfoldable pub start_configured : System → HookConfig → Init → Init
start_configured sys c s =
    let h = configure c s.process.hook in
    finish_start sys (start sys.files sys.env sys.opens s.process.manager h)
      (record s { process = record s.process { hook = h } })

unfoldable pub initialize_output : (String → Option ℤ) → System → Option String → Init → Init
initialize_output stoi sys none s = s
initialize_output stoi sys (some output) s =
    if s.auto_initialized then s else start_configured sys (config_from_env stoi sys.env output) s

unfoldable pub auto_initialize : (String → Option ℤ) → System → Init → Init
auto_initialize stoi sys s =
    if parse_bool_env (sys.env "GGML_VIZ_DISABLE") false
    then s
    else initialize_output stoi sys (sys.env "GGML_VIZ_OUTPUT")
        (record s { verbose_logging = parse_bool_env (sys.env "GGML_VIZ_VERBOSE") false })

-- The handler at exit, which the handlers of SIGINT and SIGTERM agree with.
unfoldable pub at_exit : Hook → Hook
at_exit h = if h.active then stop h else h

unfoldable pub ggml_viz_is_initialized : Init → Bool
ggml_viz_is_initialized s = s.auto_initialized && s.process.hook.active
