-- ===== src/Cli/Defs.antt =====
-- Arguments, validation and the choice of a mode (src/main.cpp).
use Prim.Native.Char.{code}
use ggml_viz.Base.{
  Bool, true, false, not, ◌&&◌, ◌||◌, List, [], ◌∷◌, Option, none, some, String, str_eq, leb, ◌==◌,
  if◌then◌else◌,
}
use ggml_viz.Config.Env.{Env}
use ggml_viz.Config.Manager.{Manager, Files, Load, loads, throws, load_with_precedence}
use ggml_viz.Hook.Callbacks.{ℤ, pos, negsuc}
use ggml_viz.Logger.Defs.{Logger, configure_from_config}

-- The `Config` of main.cpp.
pub record CliConfig : Type 0 where
  pub trace_file : String
  pub config_file : String
  pub live_mode : Bool
  pub web_mode : Bool
  pub verbose : Bool
  pub show_help : Bool
  pub show_version : Bool
  pub no_hook : Bool
  pub port : ℤ

abbrev pub new_config : CliConfig
new_config = record {
  trace_file = "";
  config_file = "";
  live_mode = false;
  web_mode = false;
  verbose = false;
  show_help = false;
  show_version = false;
  no_hook = false;
  port = pos 8080;
}

-- What getopt_long returns, with `optarg`. `unknown` stands for `?`.
pub data Opt : Type 0 where
  help version verbosely live web : Opt
  port_opt config_opt : String → Opt
  no_hook_opt unknown : Opt

unfoldable pub in_port_range : ℤ → Bool
in_port_range (pos n) = leb 1 n && leb n 65535
in_port_range (negsuc n) = false

-- `none` is `exit(1)`, and for std::stoi an exception.
unfoldable pub set_port : Option ℤ → CliConfig → Option CliConfig
set_port none c = none
set_port (some n) c = if in_port_range n then some (record c { port = n }) else none

unfoldable pub parse_option : (String → Option ℤ) → Opt → CliConfig → Option CliConfig
parse_option stoi help c = some (record c { show_help = true })
parse_option stoi version c = some (record c { show_version = true })
parse_option stoi verbosely c = some (record c { verbose = true })
parse_option stoi live c = some (record c { live_mode = true })
parse_option stoi web c = some (record c { web_mode = true })
parse_option stoi (port_opt optarg) c = set_port (stoi optarg) c
parse_option stoi (config_opt optarg) c = some (record c { config_file = optarg })
parse_option stoi no_hook_opt c = some (record c { no_hook = true })
parse_option stoi unknown c = none

unfoldable pub parse_options : (String → Option ℤ) → List Opt → CliConfig → Option CliConfig
parse_options stoi [] c = some c
parse_options stoi (o ∷ os) c = elim (parse_option stoi o c) [
  | none ↦ none
  | some c1 ↦ parse_options stoi os c1
]

-- The arguments that are no options.
unfoldable pub parse_operands : List String → CliConfig → Option CliConfig
parse_operands [] c = some c
parse_operands (file ∷ []) c = some (record c { trace_file = file })
parse_operands (file ∷ extra ∷ more) c = none

unfoldable pub parse_arguments : (String → Option ℤ) → List Opt → List String → Option CliConfig
parse_arguments stoi os operands = elim (parse_options stoi os new_config) [
  | none ↦ none
  | some c ↦ parse_operands operands c
]

-- `arg[0] == '-'`; the first byte of an empty text is 0.
unfoldable pub starts_with_dash : String → Bool
starts_with_dash String.[] = false
starts_with_dash (String.◌∷◌ first others) = code first == b'-'

unfoldable pub is_option : String → String → String → Bool
is_option arg short long = str_eq arg short || str_eq arg long

-- What the loop of parse_windows_args takes next: an argument, or the value that `argv[++i]` takes.
pub data Expecting : Type 0 where
  argument port_value config_value : Expecting

unfoldable pub expects : String → Expecting
expects arg =
    if is_option arg "-p" "--port"
    then port_value
    else if is_option arg "-c" "--config"
    then config_value
    else argument

unfoldable pub set_flag : String → CliConfig → CliConfig
set_flag arg c =
    if is_option arg "-h" "--help"
    then record c { show_help = true }
    else if is_option arg "-V" "--version"
    then record c { show_version = true }
    else if is_option arg "-v" "--verbose"
    then record c { verbose = true }
    else if is_option arg "-l" "--live"
    then record c { live_mode = true }
    else if is_option arg "-w" "--web"
    then record c { web_mode = true }
    else if is_option arg "-p" "--port"
    then c
    else if is_option arg "-c" "--config"
    then c
    else if str_eq arg "--no-hook"
    then record c { no_hook = true }
    else if not (starts_with_dash arg)
    then record c { trace_file = arg }
    else c

-- An option at the end without its value is passed over.
unfoldable pub parse_windows_args : (String → ℤ) → Expecting → List String → CliConfig → CliConfig
parse_windows_args atoi e [] c = c
parse_windows_args atoi argument (arg ∷ args) c =
    parse_windows_args atoi (expects arg) args (set_flag arg c)
parse_windows_args atoi port_value (arg ∷ args) c =
    parse_windows_args atoi argument args (record c { port = atoi arg })
parse_windows_args atoi config_value (arg ∷ args) c =
    parse_windows_args atoi argument args (record c { config_file = arg })

abbrev pub is_named : String → Bool
is_named path = not (str_eq path "")

-- `exists` says which files std::ifstream opens; `false` is `exit(1)`.
unfoldable pub validate_config : (String → Bool) → CliConfig → Bool
validate_config exists c =
    if is_named c.trace_file && not (exists c.trace_file)
    then false
    else if is_named c.config_file && not (exists c.config_file)
    then false
    else if c.live_mode && (is_named c.trace_file && not c.no_hook)
    then false
    else true

-- setenv of GGML_VIZ_VERBOSE.
unfoldable pub set_verbose : Bool → Env → Env
set_verbose false env name = env name
set_verbose true env name = if str_eq name "GGML_VIZ_VERBOSE" then some "1" else env name

unfoldable pub env_config_file : Option String → String
env_config_file none = ""
env_config_file (some path) = path

unfoldable pub configure_logger : Load Manager → Logger → Load (Manager × Logger)
configure_logger (throws e) l = throws e
configure_logger (loads m) l = loads (m, configure_from_config m.config l)

unfoldable pub setup_environment :
    Files → Env → CliConfig → Manager → Logger → Load (Manager × Logger)
setup_environment files env c m l =
    let env1 = set_verbose c.verbose env in
    configure_logger
      (load_with_precedence files env1 c.config_file (env_config_file (env1 "GGML_VIZ_CONFIG"))
        "ggml-viz.json" m)
      l

-- What main goes on to do.
pub data Action : Type 0 where
  prints_usage prints_version exits_with_error : Action
  serves : (port : ℤ) → Action
  watches : (no_hook : Bool) (trace_file : String) → Action
  opens : (trace_file : String) → Action
  shows_nothing : Action

unfoldable pub choose_mode : CliConfig → Action
choose_mode c =
    if c.web_mode
    then serves c.port
    else if c.live_mode
    then watches c.no_hook c.trace_file
    else if is_named c.trace_file
    then opens c.trace_file
    else shows_nothing

unfoldable pub after_setup : CliConfig → Load (Manager × Logger) → Action
after_setup c (throws e) = exits_with_error
after_setup c (loads s) = choose_mode c

unfoldable pub run_config : (String → Bool) → Files → Env → Manager → Logger → CliConfig → Action
run_config exists files env m l c =
    if c.show_help
    then prints_usage
    else if c.show_version
    then prints_version
    else if validate_config exists c
    then after_setup c (setup_environment files env c m l)
    else exits_with_error

unfoldable pub main_action :
    (String → Bool)
    → Files
    → Env
    → Manager
    → Logger
    → (String → Option ℤ)
    → List Opt
    → List String
    → Action
main_action exists files env m l stoi os operands = elim (parse_arguments stoi os operands) [
  | none ↦ exits_with_error
  | some c ↦ run_config exists files env m l c
]
