-- ===== src/Config/Manager.antt =====
-- ConfigManager (src/utils/config.cpp): load_with_precedence, get, is_loaded and reset.
use ggml_viz.Base.{Bool, true, false, Option, none, some, String, str_eq, if◌then◌else◌}
use ggml_viz.Config.Defs.{Config, default_config, ValidationError, validation_error}
use ggml_viz.Config.Merge.{merge_from}
use ggml_viz.Config.Env.{Env, apply_env_overrides}

-- `config_ptr_` and `loaded_`. The mutex is held over the whole load, so a load is one step.
pub record Manager : Type 0 where
  pub config : Config
  pub loaded : Bool

abbrev pub new_manager : Manager
new_manager = record { config = default_config; loaded = false }

pub data LoadError : Type 0 where
  cli_config_failed : String → LoadError
  final_config_invalid : ValidationError → LoadError

pub data Load {ℓ} (A : Type ℓ) : Type ℓ where
  loads : A → Load A
  throws : LoadError → Load A

-- Config::from_file: the configuration in a file, or `none` where it throws.
abbrev pub Files : Type 0
Files = String → Option Config

unfoldable pub merge_found : Config → Option Config → Config
merge_found c none = c
merge_found c (some other) = merge_from c other

-- Steps 1 and 2: a path that is not empty is loaded and merged; a failure is passed over.
unfoldable pub merge_optional_file : Files → String → Config → Config
merge_optional_file files path c = if str_eq path "" then c else merge_found c (files path)

unfoldable pub merge_or_throw : String → Config → Option Config → Load Config
merge_or_throw path c none = throws (cli_config_failed path)
merge_or_throw path c (some other) = loads (merge_from c other)

-- Step 4: the CLI file must load.
unfoldable pub merge_cli_file : Files → String → Config → Load Config
merge_cli_file files path c = if str_eq path "" then loads c else merge_or_throw path c (files path)

unfoldable pub final_check : Load Config → Load Config
final_check (throws e) = throws e
final_check (loads c) = elim (validation_error c) [
  | none ↦ loads c
  | some e ↦ throws (final_config_invalid e)
]

-- The configuration that load_with_precedence resolves.
unfoldable pub resolve : Files → Env → String → String → String → Load Config
resolve files env cli_path env_path default_path = final_check (
    merge_cli_file files cli_path (
      apply_env_overrides env (
        merge_optional_file files env_path
          (merge_optional_file files default_path default_config))))

unfoldable pub publish : Load Config → Load Manager
publish (throws e) = throws e
publish (loads c) = loads (record { config = c; loaded = true })

-- An exception leaves the manager as it was: nothing is stored before the final check.
unfoldable pub load_with_precedence :
    Files → Env → String → String → String → Manager → Load Manager
load_with_precedence files env cli_path env_path default_path m =
    publish (resolve files env cli_path env_path default_path)

abbrev pub manager_after : Manager → Load Manager → Manager
manager_after m (loads m') = m'
manager_after m (throws e) = m

unfoldable pub reset : Manager → Manager
reset m = new_manager
