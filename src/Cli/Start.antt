-- ===== src/Cli/Start.antt =====
-- What main goes on to do, and under which settings (src/main.cpp).
use ggml_viz.Base.{
  ◌≡◌, refl, ap, subst, ◌∙◌, Bool, true, List, [], ◌∷◌, Option, none, some, String, str_eq,
  if-cases, arith,
}
use ggml_viz.Config.Env.{Env, is_on, env_verbose, env_disable, apply_env_overrides}
use ggml_viz.Config.Defs.{Config, ConfigLogLevel, ValidationError, validation_error}
use ggml_viz.Config.Manager.{
  Manager, Files, Load, loads, throws, load_with_precedence, resolve, merge_cli_file, publish,
  final_check, final_config_invalid,
}
use ggml_viz.Logger.Defs.{Logger, LogLevel, debug, level_of, configure_from_config}
use ggml_viz.Hook.Callbacks.{ℤ}
use ggml_viz.Cli.Defs.{
  CliConfig, new_config, Opt, help, version, verbosely, live, web, port_opt, config_opt,
  no_hook_opt, unknown, in_port_range, set_port, parse_option, parse_options, parse_operands,
  parse_arguments, validate_config, set_verbose, configure_logger, setup_environment, is_named,
  Action, exits_with_error, serves, watches, opens, choose_mode, after_setup, run_config,
  main_action,
}

-- A port that a server can listen on; a capture without a file; a file that exists.
abbrev pub Allowed : (String → Bool) → Action → Type 0
Allowed exists (serves port) = in_port_range port ≡ true
Allowed exists (watches no_hook file) =
    (is_named file ≡ true → (no_hook ≡ true) × (exists file ≡ true))
Allowed exists (opens file) = exists file ≡ true
Allowed exists _ = Unit

-- `P` of the configuration, where there is one.
abbrev Gives : (CliConfig → Type 0) → Option CliConfig → Type 0
Gives P none = Unit
Gives P (some c) = P c

abbrev HasPort : CliConfig → Type 0
HasPort c = in_port_range c.port ≡ true

set_port-HasPort : (value : Option ℤ) (c : CliConfig) → Gives HasPort (set_port value c)
unfolding set_port
set_port-HasPort none c = tt
set_port-HasPort (some n) c = if-cases (Gives HasPort) (in_port_range n) _ _ (λ ok. ok) (λ bad. tt)

parse_option-HasPort :
    (stoi : String → Option ℤ) (o : Opt) (c : CliConfig)
    → HasPort c
    → Gives HasPort (parse_option stoi o c)
unfolding parse_option
parse_option-HasPort stoi (port_opt s) c h = set_port-HasPort (stoi s) c
parse_option-HasPort stoi unknown c h = tt
parse_option-HasPort stoi help c h = h
parse_option-HasPort stoi version c h = h
parse_option-HasPort stoi verbosely c h = h
parse_option-HasPort stoi live c h = h
parse_option-HasPort stoi web c h = h
parse_option-HasPort stoi (config_opt s) c h = h
parse_option-HasPort stoi no_hook_opt c h = h

parse_options-HasPort :
    (stoi : String → Option ℤ) (os : List Opt) (c : CliConfig)
    → HasPort c
    → Gives HasPort (parse_options stoi os c)
unfolding parse_options
parse_options-HasPort stoi [] c h = h
parse_options-HasPort stoi (o ∷ os) c h =
    go (parse_option stoi o c) (parse_option-HasPort stoi o c h) (parse_options-HasPort stoi os)
  where
    go :
        (found : Option CliConfig)
        → Gives HasPort found
        → ((c1 : CliConfig) → HasPort c1 → Gives HasPort (parse_options stoi os c1))
        → Gives HasPort (elim found [ none ↦ none | some c1 ↦ parse_options stoi os c1 ])
    go none k more = tt
    go (some c1) k more = more c1 k

parse_operands-HasPort :
    (operands : List String) (c : CliConfig) → HasPort c → Gives HasPort (parse_operands operands c)
unfolding parse_operands
parse_operands-HasPort [] c h = h
parse_operands-HasPort (file ∷ []) c h = h
parse_operands-HasPort (file ∷ extra ∷ more) c h = tt

parse_arguments-HasPort :
    (stoi : String → Option ℤ) (os : List Opt) (operands : List String)
    → Gives HasPort (parse_arguments stoi os operands)
unfolding parse_arguments in_port_range
parse_arguments-HasPort stoi os operands =
    go (parse_options stoi os new_config) (parse_options-HasPort stoi os new_config refl)
  where
    go :
        (found : Option CliConfig)
        → Gives HasPort found
        → Gives HasPort (elim found [ none ↦ none | some c ↦ parse_operands operands c ])
    go none k = tt
    go (some c) k = parse_operands-HasPort operands c k

-- What a configuration that passes the validation says of its trace file.
record Valid (exists : String → Bool) (c : CliConfig) : Type 0 where
  found : is_named c.trace_file ≡ true → exists c.trace_file ≡ true
  unhooked : c.live_mode ≡ true → is_named c.trace_file ≡ true → c.no_hook ≡ true

validate_config-Valid :
    (exists : String → Bool) (c : CliConfig) → validate_config exists c ≡ true → Valid exists c
unfolding validate_config
validate_config-Valid exists c h = record {
  found = λ named. ground (arith, h, named);
  unhooked = λ on named. ground (arith, h, on, named);
}

choose_mode-Allowed :
    (exists : String → Bool) (c : CliConfig)
    → HasPort c
    → Valid exists c
    → Allowed exists (choose_mode c)
unfolding choose_mode
choose_mode-Allowed exists c port v =
    if-cases (Allowed exists) c.web_mode _ _ (λ w. port)
      (λ w.
        if-cases (Allowed exists) c.live_mode _ _ (λ on named. (v.unhooked on named, v.found named))
          (λ off.
            if-cases (Allowed exists) (is_named c.trace_file) _ _ (λ named. v.found named)
              (λ n. tt)))

after_setup-Allowed :
    (exists : String → Bool) (c : CliConfig) (s : Load (Manager × Logger))
    → HasPort c
    → Valid exists c
    → Allowed exists (after_setup c s)
unfolding after_setup
after_setup-Allowed exists c (throws e) port v = tt
after_setup-Allowed exists c (loads s) port v = choose_mode-Allowed exists c port v

module _ (exists : String → Bool) (files : Files) (env : Env) (m : Manager) (l : Logger) where
  run_config-Allowed :
      (c : CliConfig) → HasPort c → Allowed exists (run_config exists files env m l c)
  unfolding run_config
  run_config-Allowed c port =
      if-cases (Allowed exists) c.show_help _ _ (λ h. tt)
        (λ h.
          if-cases (Allowed exists) c.show_version _ _ (λ v. tt)
            (λ v.
              if-cases (Allowed exists) (validate_config exists c) _ _
                (λ ok.
                  after_setup-Allowed exists c (setup_environment files env c m l) port
                    (validate_config-Valid exists c ok))
                (λ bad. tt)))

  -- Whatever getopt_long returns, and whatever the files and the environment hold: a server is started
  -- on a port from 1 to 65535 only, a trace is opened only if its file exists, and a file that is named
  -- is watched in live mode only without the hook and if it exists.
  pub main_action-Allowed :
      (stoi : String → Option ℤ) (os : List Opt) (operands : List String)
      → Allowed exists (main_action exists files env m l stoi os operands)
  unfolding main_action
  main_action-Allowed stoi os operands =
      go (parse_arguments stoi os operands) (parse_arguments-HasPort stoi os operands)
    where
      go :
          (found : Option CliConfig)
          → Gives HasPort found
          → Allowed exists
              (elim found [ none ↦ exits_with_error | some c ↦ run_config exists files env m l c ])
      go none k = tt
      go (some c) k = run_config-Allowed c k

-- What the settings are when the environment asks for verbose output and no file is named.
env_disable-level :
    (v : Option String) (c : Config) → (env_disable v c).logging.level ≡ c.logging.level
unfolding env_disable
env_disable-level none c = refl
env_disable-level (some s) c =
    if-cases (λ (d : Config). d.logging.level ≡ c.logging.level) (is_on s) _ _ (λ h. refl)
      (λ h. refl)

env_verbose-on : (c : Config) → (env_verbose (some "1") c).logging.level ≡ ConfigLogLevel.debug
unfolding env_verbose str_eq
env_verbose-on c = refl

apply_env_overrides-verbose :
    (env : Env) (c : Config)
    → (apply_env_overrides (set_verbose true env) c).logging.level ≡ ConfigLogLevel.debug
unfolding apply_env_overrides set_verbose str_eq
apply_env_overrides-verbose env c =
    env_disable-level _ (env_verbose (some "1") _) ∙ env_verbose-on _

-- The logger that a load leaves has the level of the configuration.
abbrev AtLevel : LogLevel → Load (Manager × Logger) → Type 0
AtLevel v (throws e) = Unit
AtLevel v (loads s) = s.1.current_level ≡ v

checked-Level :
    (c : Config) (l : Logger)
    → c.logging.level ≡ ConfigLogLevel.debug
    → AtLevel debug (configure_logger (publish (final_check (loads c))) l)
unfolding final_check publish configure_logger configure_from_config level_of
checked-Level c l e = go (validation_error c)
  where
    go :
        (v : Option ValidationError)
        → AtLevel debug (
            configure_logger
              (publish (elim v [ none ↦ loads c | some x ↦ throws (final_config_invalid x) ]))
              l)
    go none = ap level_of e
    go (some x) = tt

-- With --verbose and without a configuration file on the command line, the logger prints from the
-- debug level on once the settings are loaded, whatever the other files and the environment say.
pub setup_environment-verbose :
    (files : Files) (env : Env) (c : CliConfig) (m m1 : Manager) (l l1 : Logger)
    → c.verbose ≡ true
    → c.config_file ≡ ""
    → setup_environment files env c m l ≡ loads (m1, l1)
    → l1.current_level ≡ debug
unfolding setup_environment load_with_precedence resolve merge_cli_file str_eq
setup_environment-verbose files env c m m1 l l1 loud unnamed h =
    subst (AtLevel debug) (simp (loud, unnamed) at h)
      (checked-Level _ l (apply_env_overrides-verbose env _))
