-- ===== src/Config/Validity.antt =====
-- What Config::validation_error (src/utils/config.cpp) accepts, and that a manager holds nothing
-- else.
use ggml_viz.Base.{
  ◌≤◌, ◌<◌, ◌≡◌, ◌≢◌, refl, subst, ◌↔◌, inl, inr, true, List, [], ◌∷◌, none, some, String, All,
  arith, Option-cases, str_eq, str_eq_iff, has_text,
}
use ggml_viz.Config.Defs.{
  Config, ConfigLogLevel, debug, info, warn, error_level, fatal, log_level_to_string,
  string_to_log_level, default_config, ValidationError, valid_backends, bad_backend,
  validation_error,
}
use ggml_viz.Config.Env.{Env}
use ggml_viz.Config.Manager.{
  Manager, Load, loads, throws, Files, resolve, final_config_invalid, final_check, publish,
  load_with_precedence, manager_after, reset,
}

abbrev pub IsBackend : String → Type 0
IsBackend b = has_text valid_backends b ≡ true

-- The values that the program can run with.
pub record IsValid (c : Config) : Type 0 where
  pub schema : c.schema_version ≡ 1
  pub some_events : 0 < c.instrumentation.max_events
  pub events_limit : c.instrumentation.max_events ≤ 100000000
  pub named : c.output.filename ≢ ""
  pub flushes : 0 < c.output.flush_interval
  pub polls : 0 < c.ui.poll_interval_ms
  pub keeps : 0 < c.ui.max_live_events
  pub backends : All IsBackend c.instrumentation.backends_to_trace

bad_backend_iff : (bs : List String) → (bad_backend bs ≡ none) ↔ All IsBackend bs
unfolding bad_backend
bad_backend_iff [] = (λ _. tt, λ _. refl)
bad_backend_iff (b ∷ bs) = ground (arith, bad_backend_iff bs)

-- validation_error returns the empty string exactly for the valid configurations.
pub validation_error_iff : (c : Config) → (validation_error c ≡ none) ↔ IsValid c
unfolding validation_error
validation_error_iff c = (
  λ h. ground (
    arith,
    h,
    str_eq_iff c.output.filename "",
    bad_backend_iff c.instrumentation.backends_to_trace,
  ),
  λ v. ground (
    arith,
    v,
    str_eq_iff c.output.filename "",
    bad_backend_iff c.instrumentation.backends_to_trace,
  ),
)

-- A log level survives the trip through its name.
pub string_to_log_level-log_level_to_string :
    (l : ConfigLogLevel) → string_to_log_level (log_level_to_string l) ≡ l
unfolding string_to_log_level log_level_to_string str_eq
string_to_log_level-log_level_to_string debug = refl
string_to_log_level-log_level_to_string info = refl
string_to_log_level-log_level_to_string warn = refl
string_to_log_level-log_level_to_string error_level = refl
string_to_log_level-log_level_to_string fatal = refl

final_check-clean : (d : Config) → validation_error d ≡ none → final_check (loads d) ≡ loads d
unfolding final_check
final_check-clean d e = rw (e, final_check)

final_check-refused :
    (d : Config) (x : ValidationError)
    → validation_error d ≡ some x
    → final_check (loads d) ≡ throws (final_config_invalid x)
unfolding final_check
final_check-refused d x e = rw (e, final_check)

final_check-IsValid : (r : Load Config) (c : Config) → final_check r ≡ loads c → IsValid c
unfolding final_check
final_check-IsValid (throws e) c h = cc
final_check-IsValid (loads d) c h = elim (Option-cases (validation_error d)) [
  | inl e ↦ subst IsValid (cc (h, final_check-clean d e)) ((validation_error_iff d).0 e)
  | inr (x, e) ↦ cc (h, final_check-refused d x e)
]

-- The check passes a configuration on as it is.
pub final_check-same : (d c : Config) → final_check (loads d) ≡ loads c → d ≡ c
final_check-same d c h = elim (Option-cases (validation_error d)) [
  | inl e ↦ cc (h, final_check-clean d e)
  | inr (x, e) ↦ cc (h, final_check-refused d x e)
]

pub resolve-IsValid :
    (files : Files) (env : Env) (cli_path env_path default_path : String) (c : Config)
    → resolve files env cli_path env_path default_path ≡ loads c
    → IsValid c
unfolding resolve
resolve-IsValid files env cli_path env_path default_path c h = final_check-IsValid _ c h

-- A call on the manager, with what the file system and the environment hold at that time.
pub data Call : Type 0 where
  load : Files → Env → String → String → String → Call
  resets : Call

abbrev pub step : Manager → Call → Manager
step m (load files env cli_path env_path default_path) =
    manager_after m (load_with_precedence files env cli_path env_path default_path m)
step m resets = reset m

abbrev pub history : Manager → List Call → Manager
history m [] = m
history m (c ∷ cs) = history (step m c) cs

pub default_config-IsValid : IsValid default_config
unfolding has_text str_eq
default_config-IsValid = record {
  schema = refl;
  some_events = omega arith;
  events_limit = omega arith;
  named = λ h. cc h;
  flushes = omega arith;
  polls = omega arith;
  keeps = omega arith;
  backends = (refl, (refl, (refl, tt)));
}

step-IsValid : (m : Manager) (c : Call) → IsValid m.config → IsValid (step m c).config
unfolding load_with_precedence reset publish
step-IsValid m (load files env cli_path env_path default_path) v =
    go (resolve files env cli_path env_path default_path)
      (λ c. resolve-IsValid files env cli_path env_path default_path c)
  where
    go :
        (r : Load Config)
        → ((c : Config) → r ≡ loads c → IsValid c)
        → IsValid (manager_after m (publish r)).config
    go (loads c) h = h c refl
    go (throws e) h = v
step-IsValid m resets v = default_config-IsValid

-- After any sequence of loads, failed ones too, and resets, the configuration in force is valid.
pub history-IsValid :
    (m : Manager) (cs : List Call) → IsValid m.config → IsValid (history m cs).config
history-IsValid m [] v = v
history-IsValid m (c ∷ cs) v = history-IsValid (step m c) cs (step-IsValid m c v)
