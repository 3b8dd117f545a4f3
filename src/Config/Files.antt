-- ===== src/Config/Files.antt =====
-- Configuration files, from the text to the settings in force (src/utils/config.cpp).
use ggml_viz.Base.{
  ℕ, ◌≡◌, refl, sym, ap, subst, ◌∙◌, Bool, true, false, List, [], ◌∷◌, Option, none, some, String,
  str_eq, str_eq_iff, strs_eq, strs_eq_iff, arith, Bool-cases, inl, inr,
}
use ggml_viz.Config.Defs.{
  ConfigLogLevel, debug, info, warn, error_level, fatal, Config, default_config, validation_error,
  ValidationError,
}
use ggml_viz.Config.Merge.{pick, merge_from, pick_list, bool_eq, nat_eq, level_eq}
use ggml_viz.Config.Env.{
  Env, env_output, env_max_events, env_verbose, env_disable, apply_env_overrides,
}
use ggml_viz.Config.Manager.{
  Manager, loads, Files, merge_found, merge_optional_file, merge_or_throw, merge_cli_file,
  final_check, resolve, publish, load_with_precedence,
}
use ggml_viz.Config.Validity.{IsValid, validation_error_iff}
use ggml_viz.Config.Json.{
  Json, Read, reads, fails, ◌>>=◌, converted, validated, invalid, dump_json, read_config, from_json,
  from_file, read_or_none, config_files,
}
use ggml_viz.Config.RoundTrip.{IsLawful, Fits, from_json-to_json}

-- A value that is merged into its default is kept.
picked {ℓ} :
    {A : Type ℓ} (eq : A → A → Bool) (standard other : A)
    → (eq other standard ≡ true → other ≡ standard)
    → pick eq standard other standard ≡ other
picked eq standard other same = elim (Bool-cases (eq other standard)) [
  | inl e ↦ rw e (sym (same e))
  | inr e ↦ rw e
]

bool_eq-same : (a b : Bool) → bool_eq a b ≡ true → a ≡ b
unfolding bool_eq
bool_eq-same true b h = sym h
bool_eq-same false b h = ground (arith, h)

nat_eq-same : (a b : ℕ) → nat_eq a b ≡ true → a ≡ b
unfolding nat_eq
nat_eq-same a b h = ground (arith, h)

level_eq-info : (l : ConfigLogLevel) → level_eq l info ≡ true → l ≡ info
unfolding level_eq
level_eq-info info h = refl
level_eq-info debug h = ground (arith, h)
level_eq-info warn h = ground (arith, h)
level_eq-info error_level h = ground (arith, h)
level_eq-info fatal h = ground (arith, h)

pick_list-nil : (xs : List ℕ) → pick_list xs [] ≡ xs
unfolding pick_list
pick_list-nil [] = refl
pick_list-nil (x ∷ xs) = refl

-- A configuration merged into the defaults is itself.
default_config-merge_from : (c : Config) → c.schema_version ≡ 1 → merge_from default_config c ≡ c
unfolding merge_from
default_config-merge_from c one = λ i. record {
  schema_version = sym one i;
  instrumentation = record {
    enable_op_timing =
        picked bool_eq true c.instrumentation.enable_op_timing
          (bool_eq-same c.instrumentation.enable_op_timing true) i;
    enable_memory_tracking =
        picked bool_eq false c.instrumentation.enable_memory_tracking
          (bool_eq-same c.instrumentation.enable_memory_tracking false) i;
    record_tensor_names =
        picked bool_eq true c.instrumentation.record_tensor_names
          (bool_eq-same c.instrumentation.record_tensor_names true) i;
    max_events =
        picked nat_eq 1000000 c.instrumentation.max_events
          (nat_eq-same c.instrumentation.max_events 1000000) i;
    op_types_to_trace = pick_list-nil c.instrumentation.op_types_to_trace i;
    backends_to_trace =
        picked strs_eq ("cpu" ∷ "metal" ∷ "cuda" ∷ []) c.instrumentation.backends_to_trace
          (λ h.
            (strs_eq_iff c.instrumentation.backends_to_trace ("cpu" ∷ "metal" ∷ "cuda" ∷ [])).0 h)
          i;
  };
  output = record {
    filename =
        picked str_eq "ggml_trace.ggmlviz" c.output.filename
          (λ h. (str_eq_iff c.output.filename "ggml_trace.ggmlviz").0 h) i;
    write_to_file =
        picked bool_eq true c.output.write_to_file (bool_eq-same c.output.write_to_file true) i;
    flush_interval =
        picked nat_eq 4096 c.output.flush_interval (nat_eq-same c.output.flush_interval 4096) i;
  };
  logging = record {
    level = picked level_eq info c.logging.level (level_eq-info c.logging.level) i;
    timestamp = picked bool_eq true c.logging.timestamp (bool_eq-same c.logging.timestamp true) i;
    thread_id = picked bool_eq false c.logging.thread_id (bool_eq-same c.logging.thread_id false) i;
    prefix =
        picked str_eq "[GGML_VIZ]" c.logging.prefix
          (λ h. (str_eq_iff c.logging.prefix "[GGML_VIZ]").0 h) i;
  };
  ui = record {
    live_mode = picked bool_eq false c.ui.live_mode (bool_eq-same c.ui.live_mode false) i;
    poll_interval_ms =
        picked nat_eq 100 c.ui.poll_interval_ms (nat_eq-same c.ui.poll_interval_ms 100) i;
    max_live_events =
        picked nat_eq 50000 c.ui.max_live_events (nat_eq-same c.ui.max_live_events 50000) i;
  };
}

-- Without variables in the environment nothing is overridden.
abbrev pub no_env : Env
no_env name = none

apply_env_overrides-none : (c : Config) → apply_env_overrides no_env c ≡ c
unfolding apply_env_overrides env_output env_max_events env_verbose env_disable
apply_env_overrides-none c = refl

final_check-valid : (c : Config) → IsValid c → final_check (loads c) ≡ loads c
unfolding final_check
final_check-valid c v = rw (final_check, (validation_error_iff c).1 v)

merge_cli_file-found :
    (files : Files) (path : String) (c d : Config)
    → str_eq path "" ≡ false
    → files path ≡ some c
    → merge_cli_file files path d ≡ loads (merge_from d c)
unfolding merge_cli_file merge_or_throw merge_from
merge_cli_file-found files path c d named found = rw (named, found)

default_missing :
    (files : Files) (c : Config)
    → files "ggml-viz.json" ≡ none
    → merge_optional_file files "" (merge_optional_file files "ggml-viz.json" c) ≡ c
unfolding merge_optional_file merge_found str_eq
default_missing files c other = ap (merge_found c) other

-- Only the file of the command line is there.
resolve-cli :
    (files : Files) (path : String) (c : Config)
    → str_eq path "" ≡ false
    → files "ggml-viz.json" ≡ none
    → files path ≡ some c
    → IsValid c
    → resolve files no_env path "" "ggml-viz.json" ≡ loads c
unfolding resolve
resolve-cli files path c named other found v =
    ap (λ d. final_check (merge_cli_file files path (apply_env_overrides no_env d)))
      (default_missing files default_config other)
    ∙ ap (λ d. final_check (merge_cli_file files path d)) (apply_env_overrides-none default_config)
    ∙ ap final_check (merge_cli_file-found files path c default_config named found)
    ∙ ap (λ d. final_check (loads d)) (default_config-merge_from c v.schema)
    ∙ final_check-valid c v

module _ (J : Json) (laws : IsLawful J) where
  -- The configuration that a manager dumps as JSON is in force, field by field, where its text stands in the file
  -- that the command line names. No other configuration file is there, no variable of the environment
  -- is set, and the configuration is valid, with numbers that fit their C++ types. The JSON library is
  -- lawful.
  pub load_with_precedence-dump_json :
      (texts : String → Option J.Text) (path : String) (m m1 : Manager)
      → str_eq path "" ≡ false
      → texts "ggml-viz.json" ≡ none
      → texts path ≡ some (dump_json J m)
      → IsValid m.config
      → Fits m.config
      → load_with_precedence (config_files J texts) no_env path "" "ggml-viz.json" m1
        ≡ loads (record { config = m.config; loaded = true })
  unfolding load_with_precedence publish config_files from_file read_or_none dump_json
  load_with_precedence-dump_json texts path m m1 named other saved v f = ap publish (
      resolve-cli (config_files J texts) path m.config named
        (ap (λ t. read_or_none (from_file J t)) other)
        (ap (λ t. read_or_none (from_file J t)) saved
          ∙ ap read_or_none (from_json-to_json J laws m.config v f))
        v)

-- `P` of what is read, if anything is.
abbrev Yields : {A : Type 0} → (A → Type 0) → Read A → Type 0
Yields P (reads a) = P a
Yields P (fails e) = Unit

Yields-bind :
    {A B : Type 0} (P : B → Type 0) (m : Read A) (f : A → Read B)
    → ((a : A) → Yields P (f a))
    → Yields P (m >>= f)
unfolding ◌>>=◌
Yields-bind P (reads a) f k = k a
Yields-bind P (fails e) f k = tt

validated-Yields : (c : Config) → Yields IsValid (validated c)
unfolding validated
validated-Yields c = go (validation_error c) (validation_error_iff c).0
  where
    go :
        (e : Option ValidationError)
        → (e ≡ none → IsValid c)
        → Yields IsValid (elim e [ none ↦ reads c | some x ↦ fails (invalid x) ])
    go none k = k refl
    go (some x) k = tt

module _ (J : Json) where
  read_config-Yields : (j : J.Value) (c : Config) → Yields IsValid (read_config J j c)
  unfolding read_config
  read_config-Yields j c = Yields-bind IsValid _ _ λ version. Yields-bind IsValid _ _ λ inst.
      Yields-bind IsValid _ _
        λ out. Yields-bind IsValid _ _ λ log. Yields-bind IsValid _ _ λ ui_cfg. validated-Yields _

  -- Whatever stands in a configuration file, and whatever the JSON library makes of it: a configuration
  -- that is read from it is valid. No law of the library is needed.
  pub from_file-IsValid :
      (text : Option J.Text) (c : Config) → from_file J text ≡ reads c → IsValid c
  unfolding from_file from_json
  from_file-IsValid none c h = absurd (ground (arith, h))
  from_file-IsValid (some text) c h =
      subst (Yields IsValid) h (
        Yields-bind IsValid (converted (J.parse text)) _ (λ j. read_config-Yields j default_config))
