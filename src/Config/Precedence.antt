-- ===== src/Config/Precedence.antt =====
-- Which source decides a setting in ConfigManager::load_with_precedence (src/utils/config.cpp).
use ggml_viz.Base.{
  ℕ, ◌≡◌, refl, ◌∙◌, ap, sym, Bool, true, false, Option, none, some, String, arith, inl, inr,
  Bool-cases, str_eq, if◌then◌else◌, not,
}
use ggml_viz.Config.Defs.{Config, default_config}
use ggml_viz.Config.Merge.{pick, merge_from, nat_eq}
use ggml_viz.Config.Env.{
  Env, stoull, env_output, env_max_events, env_verbose, env_disable, apply_env_overrides,
}
use ggml_viz.Config.Manager.{
  Load, loads, throws, Files, merge_found, merge_optional_file, merge_or_throw, merge_cli_file,
  final_check, resolve,
}

-- What one source says of a setting: nothing, a value that counts if it is not the default, or a
-- value that counts whatever it is.
pub data Says {ℓ} (A : Type ℓ) : Type ℓ where
  silent : Says A
  says : A → Says A
  insists : A → Says A

-- The setting, given what the sources below resolve to.
abbrev pub over {ℓ} : {A : Type ℓ} → (A → A → Bool) → A → Says A → A → A
over eq standard silent below = below
over eq standard (says a) below = if eq a standard then below else a
over eq standard (insists a) below = a

abbrev pub file_says {ℓ} : {A : Type ℓ} → (Config → A) → Option Config → Says A
file_says field none = silent
file_says field (some c) = says (field c)

abbrev pub path_says {ℓ} : {A : Type ℓ} → (Config → A) → Files → String → Says A
path_says field files path = if str_eq path "" then silent else file_says field (files path)

abbrev pub output_says : Env → Says String
output_says env = elim (env "GGML_VIZ_OUTPUT") [ none ↦ silent | some f ↦ insists f ]

abbrev pub number_says : Option String → Says ℕ
number_says none = silent
number_says (some s) = elim (stoull s) [ none ↦ silent | some n ↦ insists n ]

final_check-loads : (r : Load Config) (c : Config) → final_check r ≡ loads c → r ≡ loads c
unfolding final_check
final_check-loads (throws e) c h = cc
final_check-loads (loads d) c h = ground arith

cli-none :
    (files : Files) (path : String) (c : Config)
    → str_eq path "" ≡ true
    → loads c ≡ merge_cli_file files path c
unfolding merge_cli_file
cli-none files path c e = rw e

cli-named :
    (files : Files) (path : String) (c : Config)
    → str_eq path "" ≡ false
    → merge_or_throw path c (files path) ≡ merge_cli_file files path c
unfolding merge_cli_file
cli-named files path c e = rw e

-- A setting that a merge picks by comparing with the default.
module _ {ℓ} {A : Type ℓ} (field : Config → A) (eq : A → A → Bool)
    (merged : (s o : Config)
      → field (merge_from s o) ≡ pick eq (field default_config) (field o) (field s)) where
  merge_found-over :
      (o : Option Config) (c : Config)
      → field (merge_found c o) ≡ over eq (field default_config) (file_says field o) (field c)
  unfolding merge_found
  merge_found-over none c = refl
  merge_found-over (some d) c = ground (arith, merged c d)

  optional-over :
      (files : Files) (path : String) (c : Config)
      → field (merge_optional_file files path c)
        ≡ over eq (field default_config) (path_says field files path) (field c)
  unfolding merge_optional_file
  optional-over files path c = elim (Bool-cases (str_eq path "")) [
    | inl e ↦ rw e
    | inr e ↦ rw e (merge_found-over (files path) c)
  ]

  cli-over :
      (files : Files) (path : String) (c d : Config)
      → merge_cli_file files path c ≡ loads d
      → field d ≡ over eq (field default_config) (path_says field files path) (field c)
  unfolding merge_cli_file merge_or_throw
  cli-over files path c d h = elim (Bool-cases (str_eq path "")) [
    | inl e ↦ rw e (ap field (cc (h, cli-none files path c e)))
    | inr e ↦ rw e (named (files path) (cli-named files path c e ∙ h))
  ]
    where
      picked : (a b : A) (t : Bool) → (if not t then a else b) ≡ (if t then b else a)
      picked a b true = refl
      picked a b false = refl

      named :
          (o : Option Config)
          → merge_or_throw path c o ≡ loads d
          → field d ≡ over eq (field default_config) (file_says field o) (field c)
      named none p = cc
      named (some x) p =
          let same : merge_from c x ≡ d = cc p in
          sym (ap field same) ∙ merged c x ∙ picked _ _ (eq (field x) (field default_config))

-- What the environment step does to the two settings that it may set.
filename-env :
    (env : Env) (c : Config)
    → (apply_env_overrides env c).output.filename
      ≡ over str_eq default_config.output.filename (output_says env) c.output.filename
unfolding apply_env_overrides env_disable env_verbose env_max_events env_output
filename-env env c = ground arith

max_events-env :
    (env : Env) (c : Config)
    → (apply_env_overrides env c).instrumentation.max_events
      ≡ over nat_eq default_config.instrumentation.max_events
          (number_says (env "GGML_VIZ_MAX_EVENTS"))
          c.instrumentation.max_events
unfolding apply_env_overrides env_disable env_verbose env_max_events env_output
max_events-env env c = ground arith

-- The value of a setting that the environment may set: the CLI file's, if it is not the default,
-- else the environment's, else that of the file that the environment names, else that of the
-- default file.
abbrev pub decided {ℓ} :
    {A : Type ℓ} → (A → A → Bool) → (Config → A) → Files → Says A → String → String → String → A
decided eq field files env_says cli_path env_path default_path =
    over eq (field default_config) (path_says field files cli_path) (
      over eq (field default_config) env_says (
        over eq (field default_config) (path_says field files env_path) (
          over eq (field default_config) (path_says field files default_path)
            (field default_config))))

module _ {ℓ} {A : Type ℓ} (field : Config → A) (eq : A → A → Bool)
    (merged : (s o : Config)
      → field (merge_from s o) ≡ pick eq (field default_config) (field o) (field s))
    (files : Files) (env : Env) (env_says : Says A)
    (overridden : (c : Config)
      → field (apply_env_overrides env c) ≡ over eq (field default_config) env_says (field c)) where
  resolve-decided :
      (cli_path env_path default_path : String) (c : Config)
      → resolve files env cli_path env_path default_path ≡ loads c
      → field c ≡ decided eq field files env_says cli_path env_path default_path
  unfolding resolve
  resolve-decided cli_path env_path default_path c h =
      cli-over field eq merged files cli_path _ c (final_check-loads _ c h)
      ∙ ap (over eq (field default_config) (path_says field files cli_path)) (
          overridden _
          ∙ ap (over eq (field default_config) env_says) (
              optional-over field eq merged files env_path _
              ∙ ap (over eq (field default_config) (path_says field files env_path))
                  (optional-over field eq merged files default_path default_config)))

-- Where load_with_precedence succeeds, output.filename and max_events are what the highest source
-- says that says anything: the file of the command line, then GGML_VIZ_OUTPUT and
-- GGML_VIZ_MAX_EVENTS, then the file that the environment names, then the default file. So the
-- environment's variables stand above the default file and the file that the environment names, and
-- below the file of the command line only. A file's value counts only where it differs from the
-- built-in default: a command line's file that asks for the default does not undo the environment.
pub resolve_precedence :
    (files : Files) (env : Env) (cli_path env_path default_path : String) (c : Config)
    → resolve files env cli_path env_path default_path ≡ loads c
    → (c.output.filename
        ≡ decided str_eq
            (λ d. d.output.filename)
            files
            (output_says env)
            cli_path
            env_path
            default_path)
      × (c.instrumentation.max_events
          ≡ decided nat_eq
              (λ d. d.instrumentation.max_events)
              files
              (number_says (env "GGML_VIZ_MAX_EVENTS"))
              cli_path
              env_path
              default_path)
unfolding merge_from
resolve_precedence files env cli_path env_path default_path c h = (
  resolve-decided (λ d. d.output.filename) str_eq (λ s o. refl) files env (output_says env)
      (filename-env env) cli_path env_path default_path c h,
  resolve-decided (λ d. d.instrumentation.max_events) nat_eq (λ s o. refl) files env
      (number_says (env "GGML_VIZ_MAX_EVENTS")) (max_events-env env) cli_path env_path default_path
      c h,
)
