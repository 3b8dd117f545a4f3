-- ===== src/Cli/Parse.antt =====
-- The two parsers of command lines in src/main.cpp: getopt_long's options, and the Windows loop.
use ggml_viz.Base.{
  ◌≡◌, inl, inr, refl, ap, ◌∙◌, Bool, true, false, List, [], ◌∷◌, ◌++◌, Option, none, some, String,
  str_eq, str_eq_iff, Bool-cases, arith,
}
use ggml_viz.Hook.Callbacks.{ℤ}
use ggml_viz.Cli.Defs.{
  CliConfig, new_config, Opt, help, version, verbosely, live, web, port_opt, config_opt,
  no_hook_opt, unknown, in_port_range, set_port, parse_option, parse_options, parse_operands,
  parse_arguments, starts_with_dash, is_option, argument, expects, set_flag, parse_windows_args,
}

-- The short or the long spelling of an option, as arguments.
abbrev pub spell : Bool → Opt → List String
spell true help = "-h" ∷ []
spell false help = "--help" ∷ []
spell true version = "-V" ∷ []
spell false version = "--version" ∷ []
spell true verbosely = "-v" ∷ []
spell false verbosely = "--verbose" ∷ []
spell true live = "-l" ∷ []
spell false live = "--live" ∷ []
spell true web = "-w" ∷ []
spell false web = "--web" ∷ []
spell true (port_opt optarg) = "-p" ∷ optarg ∷ []
spell false (port_opt optarg) = "--port" ∷ optarg ∷ []
spell true (config_opt optarg) = "-c" ∷ optarg ∷ []
spell false (config_opt optarg) = "--config" ∷ optarg ∷ []
spell short no_hook_opt = "--no-hook" ∷ []
spell short unknown = "-?" ∷ []

pub record Spelled : Type 0 where
  pub short : Bool
  pub opt : Opt

abbrev pub opts : List Spelled → List Opt
opts [] = []
opts (o ∷ os) = o.opt ∷ opts os

-- The options in order, then the operand.
abbrev pub spell_all : List Spelled → List String → List String
spell_all [] operands = operands
spell_all (o ∷ os) operands = spell o.short o.opt ++ spell_all os operands

abbrev pub operand : Option String → List String
operand none = []
operand (some file) = file ∷ []

abbrev pub IsOperand : Option String → Type 0
IsOperand none = Unit
IsOperand (some file) = starts_with_dash file ≡ false

-- What the Windows loop makes of an option.
abbrev effect : (String → ℤ) → Opt → CliConfig → CliConfig
effect atoi help c = record c { show_help = true }
effect atoi version c = record c { show_version = true }
effect atoi verbosely c = record c { verbose = true }
effect atoi live c = record c { live_mode = true }
effect atoi web c = record c { web_mode = true }
effect atoi (port_opt optarg) c = record c { port = atoi optarg }
effect atoi (config_opt optarg) c = record c { config_file = optarg }
effect atoi no_hook_opt c = record c { no_hook = true }
effect atoi unknown c = c

parse_windows_args-spell :
    (atoi : String → ℤ) (short : Bool) (o : Opt) (rest : List String) (c : CliConfig)
    → parse_windows_args atoi argument (spell short o ++ rest) c
      ≡ parse_windows_args atoi argument rest (effect atoi o c)
unfolding parse_windows_args expects set_flag is_option str_eq starts_with_dash
parse_windows_args-spell atoi true help rest c = refl
parse_windows_args-spell atoi false help rest c = refl
parse_windows_args-spell atoi true version rest c = refl
parse_windows_args-spell atoi false version rest c = refl
parse_windows_args-spell atoi true verbosely rest c = refl
parse_windows_args-spell atoi false verbosely rest c = refl
parse_windows_args-spell atoi true live rest c = refl
parse_windows_args-spell atoi false live rest c = refl
parse_windows_args-spell atoi true web rest c = refl
parse_windows_args-spell atoi false web rest c = refl
parse_windows_args-spell atoi true (port_opt s) rest c = refl
parse_windows_args-spell atoi false (port_opt s) rest c = refl
parse_windows_args-spell atoi true (config_opt s) rest c = refl
parse_windows_args-spell atoi false (config_opt s) rest c = refl
parse_windows_args-spell atoi true no_hook_opt rest c = refl
parse_windows_args-spell atoi false no_hook_opt rest c = refl
parse_windows_args-spell atoi true unknown rest c = refl
parse_windows_args-spell atoi false unknown rest c = refl

abbrev parsed : CliConfig → Option CliConfig → CliConfig
parsed c none = c
parsed c (some c1) = c1

-- A text without a dash in front is none of the options.
not_option :
    (arg option : String)
    → starts_with_dash arg ≡ false
    → starts_with_dash option ≡ true
    → str_eq arg option ≡ false
not_option arg option plain dashed = elim (Bool-cases (str_eq arg option)) [
  | inl same ↦
      let e : arg ≡ option = (str_eq_iff arg option).0 same in
      absurd (ground (arith, plain, dashed, ap starts_with_dash e))
  | inr other ↦ other
]

not_options :
    (arg short long : String)
    → starts_with_dash arg ≡ false
    → starts_with_dash short ≡ true
    → starts_with_dash long ≡ true
    → is_option arg short long ≡ false
unfolding is_option
not_options arg short long plain a b =
    rw (not_option arg short plain a, not_option arg long plain b)

set_flag-operand :
    (arg : String) (c : CliConfig)
    → starts_with_dash arg ≡ false
    → set_flag arg c ≡ record c { trace_file = arg }
unfolding set_flag starts_with_dash
set_flag-operand arg c plain = rw (
  not_options arg "-h" "--help" plain refl refl,
  not_options arg "-V" "--version" plain refl refl,
  not_options arg "-v" "--verbose" plain refl refl,
  not_options arg "-l" "--live" plain refl refl,
  not_options arg "-w" "--web" plain refl refl,
  not_options arg "-p" "--port" plain refl refl,
  not_options arg "-c" "--config" plain refl refl,
  not_option arg "--no-hook" plain refl,
  plain,
)

operand-Windows :
    (atoi : String → ℤ) (file : Option String) (c c1 : CliConfig)
    → IsOperand file
    → parse_operands (operand file) c ≡ some c1
    → parse_windows_args atoi argument (operand file) c ≡ c1
unfolding parse_operands parse_windows_args
operand-Windows atoi none c c1 plain h = ap (parsed c) h
operand-Windows atoi (some file) c c1 plain h = rw (set_flag-operand file c plain) (ap (parsed c) h)

abbrev finish : Option CliConfig → List String → Option CliConfig
finish found operands = elim found [ none ↦ none | some c ↦ parse_operands operands c ]

abbrev and_then : (String → Option ℤ) → Option CliConfig → List Opt → Option CliConfig
and_then stoi found os = elim found [ none ↦ none | some c ↦ parse_options stoi os c ]

module _ (stoi : String → Option ℤ) (atoi : String → ℤ)
    (atoi-stoi : (s : String) (n : ℤ) → stoi s ≡ some n → atoi s ≡ n) where
  set_port-Windows :
      (value : Option ℤ) (s : String) (c c1 : CliConfig)
      → stoi s ≡ value
      → set_port value c ≡ some c1
      → record c { port = atoi s } ≡ c1
  unfolding set_port
  set_port-Windows none s c c1 e h = absurd (ground (arith, h))
  set_port-Windows (some n) s c c1 e h = elim (Bool-cases (in_port_range n)) [
    | inl ok ↦ ap (λ p. record c { port = p }) (atoi-stoi s n e) ∙ ap (parsed c) (rw ok at h)
    | inr bad ↦ absurd (ground (arith, rw bad at h))
  ]

  effect-option :
      (o : Opt) (c c1 : CliConfig) → parse_option stoi o c ≡ some c1 → effect atoi o c ≡ c1
  unfolding parse_option
  effect-option (port_opt s) c c1 h = set_port-Windows (stoi s) s c c1 refl h
  effect-option unknown c c1 h = absurd (ground (arith, h))
  effect-option help c c1 h = ap (parsed c) h
  effect-option version c c1 h = ap (parsed c) h
  effect-option verbosely c c1 h = ap (parsed c) h
  effect-option live c c1 h = ap (parsed c) h
  effect-option web c c1 h = ap (parsed c) h
  effect-option (config_opt s) c c1 h = ap (parsed c) h
  effect-option no_hook_opt c c1 h = ap (parsed c) h

  one_option :
      (o : Spelled) (os : List Spelled) (file : Option String) (c c1 : CliConfig)
      (found : Option CliConfig)
      → ((c2 : CliConfig)
          → finish (parse_options stoi (opts os) c2) (operand file) ≡ some c1
          → parse_windows_args atoi argument (spell_all os (operand file)) c2 ≡ c1)
      → parse_option stoi o.opt c ≡ found
      → finish (and_then stoi found (opts os)) (operand file) ≡ some c1
      → parse_windows_args atoi argument (spell_all (o ∷ os) (operand file)) c ≡ c1
  one_option o os file c c1 none more e h = absurd (ground (arith, h))
  one_option o os file c c1 (some c2) more e h =
      parse_windows_args-spell atoi o.short o.opt (spell_all os (operand file)) c
      ∙ ap (parse_windows_args atoi argument (spell_all os (operand file)))
          (effect-option o.opt c c2 e)
      ∙ more c2 h

  all_options :
      (os : List Spelled) (file : Option String) (c c1 : CliConfig)
      → IsOperand file
      → finish (parse_options stoi (opts os) c) (operand file) ≡ some c1
      → parse_windows_args atoi argument (spell_all os (operand file)) c ≡ c1
  unfolding parse_options
  all_options [] file c c1 plain h = operand-Windows atoi file c c1 plain h
  all_options (o ∷ os) file c c1 plain h =
      one_option o os file c c1 (parse_option stoi o.opt c)
        (λ c2 h2. all_options os file c2 c1 plain h2) refl h

  -- The Windows parser reads a command line as the other systems' does, where that one accepts it and
  -- every option is an argument of its own, by its one letter or by its whole long name, in any order,
  -- with the value of --port and --config as the next argument, and the file, if any, stands last and
  -- has no dash in front. Where std::stoi returns a number, std::atoi returns the same. Values and
  -- letters joined to an option, shortened names and a file before options are not covered.
  pub parse_windows_args-parse_arguments :
      (os : List Spelled) (file : Option String) (c : CliConfig)
      → IsOperand file
      → parse_arguments stoi (opts os) (operand file) ≡ some c
      → parse_windows_args atoi argument (spell_all os (operand file)) new_config ≡ c
  unfolding parse_arguments
  parse_windows_args-parse_arguments os file c plain h = all_options os file new_config c plain h
