-- ===== src/Config/RoundTrip.antt =====
-- What Config::to_json prints, Config::from_json reads (src/utils/config.cpp).
use ggml_viz.Base.{
  ℕ, ◌<◌, ◌^◌, ◌≡◌, refl, ap, ◌∙◌, Bool, List, [], ◌∷◌, All, Option, none, some, String, str_eq,
  if◌then◌else◌, arith,
}
use ggml_viz.Config.Defs.{
  ConfigLogLevel, InstrumentationConfig, OutputConfig, LoggingConfig, UiConfig, Config,
  default_config, log_level_to_string,
}
use ggml_viz.Config.Validity.{
  IsValid, validation_error_iff, string_to_log_level-log_level_to_string,
}
use ggml_viz.Config.Json.{
  Json, Read, reads, ◌>>=◌, converted, field_or, section_or, checked_version, validated, put_all,
  instrumentation_fields, output_fields, logging_fields, ui_fields, config_fields, to_json,
  read_instrumentation, read_output, to_level, read_logging, read_ui, read_version, read_config,
  from_json,
}

-- What the code relies on of the JSON library: an object finds what was put into it last, a conversion
-- gives back a value of its type, and a text that was dumped from such values parses to them.
-- `IsPlain` are the values that are made so, `IsObject` those of them that `put` takes.
pub record IsLawful (J : Json) : Type 1 where
  pub IsPlain : J.Value → Type 0
  pub IsObject : J.Value → Type 0
  pub object-IsPlain : (v : J.Value) → IsObject v → IsPlain v
  pub null-IsObject : IsObject J.null
  pub put-IsObject :
      (key : String) (x v : J.Value) → IsPlain x → IsObject v → IsObject (J.put key x v)
  pub of_bool-IsPlain : (b : Bool) → IsPlain (J.of_bool b)
  pub of_uint-IsPlain : (n : ℕ) → IsPlain (J.of_uint n)
  pub of_text-IsPlain : (s : String) → IsPlain (J.of_text s)
  pub of_uints-IsPlain : (ns : List ℕ) → IsPlain (J.of_uints ns)
  pub of_texts-IsPlain : (ss : List String) → IsPlain (J.of_texts ss)
  pub find-null : (key : String) → J.find J.null key ≡ none
  pub find-put :
      (key k : String) (x v : J.Value)
      → IsObject v
      → J.find (J.put key x v) k ≡ (if str_eq k key then some x else J.find v k)
  pub to_bool-of_bool : (b : Bool) → J.to_bool (J.of_bool b) ≡ some b
  pub to_uint-of_uint : (w n : ℕ) → n < 2 ^ w → J.to_uint w (J.of_uint n) ≡ some n
  pub to_text-of_text : (s : String) → J.to_text (J.of_text s) ≡ some s
  pub to_uints-of_uints :
      (w : ℕ) (ns : List ℕ) → All (λ n. n < 2 ^ w) ns → J.to_uints w (J.of_uints ns) ≡ some ns
  pub to_texts-of_texts : (ss : List String) → J.to_texts (J.of_texts ss) ≡ some ss
  pub parse-dump : (v : J.Value) → IsPlain v → J.parse (J.dump v) ≡ some v

-- The numbers of a configuration are values of their C++ types.
pub record Fits (c : Config) : Type 0 where
  pub op_types_fit : All (λ n. n < 2 ^ 32) c.instrumentation.op_types_to_trace
  pub flush_interval_fits : c.output.flush_interval < 2 ^ 32
  pub poll_interval_fits : c.ui.poll_interval_ms < 2 ^ 32
  pub max_live_events_fits : c.ui.max_live_events < 2 ^ 32

bind-reads :
    {A B : Type 0} (m : Read A) (f : A → Read B) (a : A) (r : Read B)
    → m ≡ reads a
    → f a ≡ r
    → (m >>= f) ≡ r
unfolding ◌>>=◌
bind-reads m f a r e g = ap (λ n. n >>= f) e ∙ g

-- What was assigned to a key last.
abbrev last_of {V} : {A : Type V} → Option A → List (String × A) → String → Option A
last_of old [] k = old
last_of old ((key, x) ∷ fields) k = last_of (if str_eq k key then some x else old) fields k

module _ (J : Json) (laws : IsLawful J) where
  open J use {
    Value, parse, dump, null, put, find, of_bool, of_uint, of_text, of_uints, of_texts, to_bool,
    to_uint, to_text, to_uints, to_texts,
  }
  open laws use {
    IsPlain, IsObject, object-IsPlain, null-IsObject, put-IsObject, of_bool-IsPlain,
    of_uint-IsPlain, of_text-IsPlain, of_uints-IsPlain, of_texts-IsPlain, find-null, find-put,
    to_bool-of_bool, to_uint-of_uint, to_text-of_text, to_uints-of_uints, to_texts-of_texts,
    parse-dump,
  }

  abbrev ArePlain : List (String × Value) → Type 0
  ArePlain fields = All (λ f. IsPlain f.1) fields

  put_all-IsObject :
      (v : Value) (fields : List (String × Value))
      → ArePlain fields
      → IsObject v
      → IsObject (put_all J v fields)
  unfolding put_all
  put_all-IsObject v [] plain o = o
  put_all-IsObject v ((key, x) ∷ fields) plain o =
      put_all-IsObject (put key x v) fields plain.1 (put-IsObject key x v plain.0 o)

  find-put_all :
      (v : Value) (fields : List (String × Value)) (k : String)
      → ArePlain fields
      → IsObject v
      → find (put_all J v fields) k ≡ last_of (find v k) fields k
  unfolding put_all
  find-put_all v [] k plain o = refl
  find-put_all v ((key, x) ∷ fields) k plain o =
      find-put_all (put key x v) fields k plain.1 (put-IsObject key x v plain.0 o)
      ∙ ap (λ old. last_of old fields k) (find-put key k x v o)

  -- An object made from null has the fields that were put into it.
  find-fields :
      (fields : List (String × Value)) (k : String)
      → ArePlain fields
      → find (put_all J null fields) k ≡ last_of none fields k
  find-fields fields k plain =
      find-put_all null fields k plain null-IsObject
      ∙ ap (λ old. last_of old fields k) (find-null k)

  -- A field that is there, and converts, is read.
  field_or-found :
      {A : Type 0} (get : Value → Option A) (fields : List (String × Value)) (k : String)
      (x : Value) (a old : A)
      → ArePlain fields
      → last_of none fields k ≡ some x
      → get x ≡ some a
      → field_or get (find (put_all J null fields) k) old ≡ reads a
  unfolding field_or converted
  field_or-found get fields k x a old plain there e =
      ap (λ o. field_or get o old) (find-fields fields k plain ∙ there) ∙ ap converted e

  section_or-found :
      {A : Type 0} (get : Value → A → Read A) (fields : List (String × Value)) (k : String)
      (x : Value) (a old : A)
      → ArePlain fields
      → last_of none fields k ≡ some x
      → get x old ≡ reads a
      → section_or get (find (put_all J null fields) k) old ≡ reads a
  unfolding section_or
  section_or-found get fields k x a old plain there e =
      ap (λ o. section_or get o old) (find-fields fields k plain ∙ there) ∙ e

  instrumentation_fields-ArePlain :
      (c : InstrumentationConfig) → ArePlain (instrumentation_fields J c)
  unfolding instrumentation_fields
  instrumentation_fields-ArePlain c = (
    of_bool-IsPlain c.enable_op_timing,
    (
      of_bool-IsPlain c.enable_memory_tracking,
      (
        of_bool-IsPlain c.record_tensor_names,
        (
          of_uint-IsPlain c.max_events,
          (of_uints-IsPlain c.op_types_to_trace, (of_texts-IsPlain c.backends_to_trace, tt)),
        ),
      ),
    ),
  )

  read_instrumentation-fields :
      (c old : InstrumentationConfig)
      → c.max_events < 2 ^ 64
      → All (λ n. n < 2 ^ 32) c.op_types_to_trace
      → read_instrumentation J (put_all J null (instrumentation_fields J c)) old ≡ reads c
  unfolding read_instrumentation instrumentation_fields str_eq
  read_instrumentation-fields c old few fit =
      let fields = instrumentation_fields J c in
      let plain = instrumentation_fields-ArePlain c in
      bind-reads _ _ c.enable_op_timing _
        (field_or-found to_bool fields "enable_op_timing" _ c.enable_op_timing _ plain refl
          (to_bool-of_bool c.enable_op_timing))
        (bind-reads _ _ c.enable_memory_tracking _
          (field_or-found to_bool fields "enable_memory_tracking" _ c.enable_memory_tracking _ plain
            refl (to_bool-of_bool c.enable_memory_tracking))
          (bind-reads _ _ c.record_tensor_names _
            (field_or-found to_bool fields "record_tensor_names" _ c.record_tensor_names _ plain
              refl (to_bool-of_bool c.record_tensor_names))
            (bind-reads _ _ c.max_events _
              (field_or-found (to_uint 64) fields "max_events" _ c.max_events _ plain refl
                (to_uint-of_uint 64 c.max_events few))
              (bind-reads _ _ c.op_types_to_trace _
                (field_or-found (to_uints 32) fields "op_types_to_trace" _ c.op_types_to_trace _
                  plain refl (to_uints-of_uints 32 c.op_types_to_trace fit))
                (bind-reads _ _ c.backends_to_trace _
                  (field_or-found to_texts fields "backends_to_trace" _ c.backends_to_trace _ plain
                    refl (to_texts-of_texts c.backends_to_trace))
                  (refl))))))

  output_fields-ArePlain : (c : OutputConfig) → ArePlain (output_fields J c)
  unfolding output_fields
  output_fields-ArePlain c = (
    of_text-IsPlain c.filename,
    (of_bool-IsPlain c.write_to_file, (of_uint-IsPlain c.flush_interval, tt)),
  )

  read_output-fields :
      (c old : OutputConfig)
      → c.flush_interval < 2 ^ 32
      → read_output J (put_all J null (output_fields J c)) old ≡ reads c
  unfolding read_output output_fields str_eq
  read_output-fields c old fits =
      let fields = output_fields J c in
      let plain = output_fields-ArePlain c in
      bind-reads _ _ c.filename _
        (field_or-found to_text fields "filename" _ c.filename _ plain refl
          (to_text-of_text c.filename))
        (bind-reads _ _ c.write_to_file _
          (field_or-found to_bool fields "write_to_file" _ c.write_to_file _ plain refl
            (to_bool-of_bool c.write_to_file))
          (bind-reads _ _ c.flush_interval _
            (field_or-found (to_uint 32) fields "flush_interval" _ c.flush_interval _ plain refl
              (to_uint-of_uint 32 c.flush_interval fits))
            (refl)))

  to_level-name : (l : ConfigLogLevel) → to_level J (of_text (log_level_to_string l)) ≡ some l
  unfolding to_level
  to_level-name l =
      rw (
        to_level,
        to_text-of_text (log_level_to_string l),
        string_to_log_level-log_level_to_string l,
      )

  logging_fields-ArePlain : (c : LoggingConfig) → ArePlain (logging_fields J c)
  unfolding logging_fields
  logging_fields-ArePlain c = (
    of_text-IsPlain (log_level_to_string c.level),
    (of_bool-IsPlain c.timestamp, (of_bool-IsPlain c.thread_id, (of_text-IsPlain c.prefix, tt))),
  )

  read_logging-fields :
      (c old : LoggingConfig) → read_logging J (put_all J null (logging_fields J c)) old ≡ reads c
  unfolding read_logging logging_fields str_eq to_level
  read_logging-fields c old =
      let fields = logging_fields J c in
      let plain = logging_fields-ArePlain c in
      bind-reads _ _ c.level _
        (field_or-found (to_level J) fields "level" _ c.level _ plain refl (to_level-name c.level))
        (bind-reads _ _ c.timestamp _
          (field_or-found to_bool fields "timestamp" _ c.timestamp _ plain refl
            (to_bool-of_bool c.timestamp))
          (bind-reads _ _ c.thread_id _
            (field_or-found to_bool fields "thread_id" _ c.thread_id _ plain refl
              (to_bool-of_bool c.thread_id))
            (bind-reads _ _ c.prefix _
              (field_or-found to_text fields "prefix" _ c.prefix _ plain refl
                (to_text-of_text c.prefix))
              (refl))))

  ui_fields-ArePlain : (c : UiConfig) → ArePlain (ui_fields J c)
  unfolding ui_fields
  ui_fields-ArePlain c = (
    of_bool-IsPlain c.live_mode,
    (of_uint-IsPlain c.poll_interval_ms, (of_uint-IsPlain c.max_live_events, tt)),
  )

  read_ui-fields :
      (c old : UiConfig)
      → c.poll_interval_ms < 2 ^ 32
      → c.max_live_events < 2 ^ 32
      → read_ui J (put_all J null (ui_fields J c)) old ≡ reads c
  unfolding read_ui ui_fields str_eq
  read_ui-fields c old fits fit =
      let fields = ui_fields J c in
      let plain = ui_fields-ArePlain c in
      bind-reads _ _ c.live_mode _
        (field_or-found to_bool fields "live_mode" _ c.live_mode _ plain refl
          (to_bool-of_bool c.live_mode))
        (bind-reads _ _ c.poll_interval_ms _
          (field_or-found (to_uint 32) fields "poll_interval_ms" _ c.poll_interval_ms _ plain refl
            (to_uint-of_uint 32 c.poll_interval_ms fits))
          (bind-reads _ _ c.max_live_events _
            (field_or-found (to_uint 32) fields "max_live_events" _ c.max_live_events _ plain refl
              (to_uint-of_uint 32 c.max_live_events fit))
            (refl)))

  config_fields-ArePlain : (c : Config) → ArePlain (config_fields J c)
  unfolding config_fields
  config_fields-ArePlain c =
      let section = λ (fields : List (String × Value)) (plain : ArePlain fields).
        object-IsPlain (put_all J null fields) (put_all-IsObject null fields plain null-IsObject) in
      (
        of_uint-IsPlain c.schema_version,
        (
          section (instrumentation_fields J c.instrumentation)
              (instrumentation_fields-ArePlain c.instrumentation),
          (
            section (output_fields J c.output) (output_fields-ArePlain c.output),
            (
              section (logging_fields J c.logging) (logging_fields-ArePlain c.logging),
              (section (ui_fields J c.ui) (ui_fields-ArePlain c.ui), tt),
            ),
          ),
        ),
      )

  read_version-one : (v old : ℕ) → v ≡ 1 → read_version J (of_uint v) old ≡ reads v
  unfolding read_version checked_version converted
  read_version-one v old one =
      bind-reads _ _ v _ (ap converted (to_uint-of_uint 32 v (omega (arith, one))))
        (ground (arith, one))

  validated-IsValid : (c : Config) → IsValid c → validated c ≡ reads c
  unfolding validated
  validated-IsValid c v = rw (validated, (validation_error_iff c).1 v)

  read_config-fields :
      (c old : Config)
      → IsValid c
      → Fits c
      → read_config J (put_all J null (config_fields J c)) old ≡ reads c
  unfolding read_config config_fields str_eq
  read_config-fields c old v f =
      let fields = config_fields J c in
      let plain = config_fields-ArePlain c in
      bind-reads _ _ c.schema_version _
        (section_or-found (read_version J) fields "schema_version" _ c.schema_version _ plain refl
          (read_version-one c.schema_version _ v.schema))
        (bind-reads _ _ c.instrumentation _
          (section_or-found (read_instrumentation J) fields "instrumentation" _ c.instrumentation _
            plain refl
            (read_instrumentation-fields c.instrumentation _ (omega (arith, v.events_limit))
              f.op_types_fit))
          (bind-reads _ _ c.output _
            (section_or-found (read_output J) fields "output" _ c.output _ plain refl
              (read_output-fields c.output _ f.flush_interval_fits))
            (bind-reads _ _ c.logging _
              (section_or-found (read_logging J) fields "logging" _ c.logging _ plain refl
                (read_logging-fields c.logging _))
              (bind-reads _ _ c.ui _
                (section_or-found (read_ui J) fields "ui" _ c.ui _ plain refl
                  (read_ui-fields c.ui _ f.poll_interval_fits f.max_live_events_fits))
                (validated-IsValid c v)))))

  -- A valid configuration, printed as JSON and read again, is the same in every field, over any JSON
  -- library that is lawful. Its numbers fit their C++ types.
  pub from_json-to_json : (c : Config) → IsValid c → Fits c → from_json J (to_json J c) ≡ reads c
  unfolding from_json to_json converted
  from_json-to_json c v f =
      bind-reads _ _ (put_all J null (config_fields J c)) _
        (ap converted (
          parse-dump (put_all J null (config_fields J c)) (
            object-IsPlain _ (
              put_all-IsObject null (config_fields J c) (config_fields-ArePlain c) null-IsObject))))
        (read_config-fields c default_config v f)
