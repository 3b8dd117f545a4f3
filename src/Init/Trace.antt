-- ===== src/Init/Trace.antt =====
-- What a process that loads the library leaves in the trace file, and what the environment decides.
use ggml_viz.Base.{
  ℕ, ◌≡◌, refl, sym, ap, subst, ◌∙◌, true, false, ◌||◌, List, take, All, Option, none, some, String,
  str_eq, if-cases, if◌then◌else◌, arith,
}
use ggml_viz.Event.{Event}
use ggml_viz.Trace.Format.{Fits}
use ggml_viz.Trace.Reader.{open_trace, valid, events}
use ggml_viz.Config.Defs.{Config}
use ggml_viz.Config.Env.{
  Env, stoull, is_on, env_output, env_max_events, env_verbose, env_disable, apply_env_overrides,
}
use ggml_viz.Config.Manager.{
  loads, Manager, Files, resolve, load_with_precedence, publish, merge_cli_file,
}
use ggml_viz.Config.Validity.{resolve-IsValid, final_check-same}
use ggml_viz.Hook.Defs.{Hook, start, start_loaded, start_with, ensure_loaded, env_config_path, stop}
use ggml_viz.Hook.Session.{record_all, open_trace-record_all}
use ggml_viz.Hook.Callbacks.{ℤ}
use ggml_viz.Hook.Interpose.{System, install_ggml_hooks}
use ggml_viz.Init.Defs.{
  HookConfig, Init, parse_bool_env, config_from_env, configure, finish_start, start_configured,
  initialize_output, auto_initialize, at_exit,
}

-- An environment with one more variable.
abbrev pub set_env : String → Option String → Env → Env
set_env name value env n = if str_eq n name then value else env n

abbrev pub with_env : String → Option String → System → System
with_env name value sys = record sys { env = set_env name value sys.env }

initialize_output-ignores :
    (stoi : String → Option ℤ) (sys : System) (value output : Option String) (s : Init)
    → (initialize_output stoi (with_env "GGML_VIZ_OP_TIMING" value sys) output s
        ≡ initialize_output stoi sys output s)
      × (initialize_output stoi (with_env "GGML_VIZ_THREAD_TRACKING" value sys) output s
          ≡ initialize_output stoi sys output s)
      × (initialize_output stoi (with_env "GGML_VIZ_TENSOR_NAMES" value sys) output s
          ≡ initialize_output stoi sys output s)
unfolding initialize_output start_configured configure start ensure_loaded load_with_precedence
    resolve apply_env_overrides str_eq install_ggml_hooks finish_start
initialize_output-ignores stoi sys value none s = (refl, refl, refl)
initialize_output-ignores stoi sys value (some output) s = (refl, refl, refl)

-- The variables for the timing of operations, the tracking of threads and the names of tensors have
-- no effect on what the constructor does: GGMLHook::configure does not use the settings that are
-- read from them.
pub auto_initialize-ignores :
    (stoi : String → Option ℤ) (sys : System) (value : Option String) (s : Init)
    → (auto_initialize stoi (with_env "GGML_VIZ_OP_TIMING" value sys) s
        ≡ auto_initialize stoi sys s)
      × (auto_initialize stoi (with_env "GGML_VIZ_THREAD_TRACKING" value sys) s
          ≡ auto_initialize stoi sys s)
      × (auto_initialize stoi (with_env "GGML_VIZ_TENSOR_NAMES" value sys) s
          ≡ auto_initialize stoi sys s)
unfolding auto_initialize str_eq
auto_initialize-ignores stoi sys value s =
    let s1 : Init = record s {
      verbose_logging = parse_bool_env (sys.env "GGML_VIZ_VERBOSE") false;
    } in
    let same = initialize_output-ignores stoi sys value (sys.env "GGML_VIZ_OUTPUT") s1 in
    let chosen : Init → Init =
      λ t. if parse_bool_env (sys.env "GGML_VIZ_DISABLE") false then s else t in
    (ap chosen same.0, ap chosen same.1, ap chosen same.2)

-- GGML_VIZ_OUTPUT makes the configuration write to a file, unless GGML_VIZ_DISABLE is set.
env_max_events-file :
    (v : Option String) (c : Config)
    → (env_max_events v c).output.write_to_file ≡ c.output.write_to_file
unfolding env_max_events
env_max_events-file none c = refl
env_max_events-file (some s) c = go (stoull s)
  where
    go :
        (n : Option ℕ)
        → (let d : Config = elim n [
          | none ↦ c
          | some k ↦ record c { instrumentation = record c.instrumentation { max_events = k } }
        ] in
            d.output.write_to_file)
          ≡ c.output.write_to_file
    go none = refl
    go (some n) = refl

env_verbose-file :
    (v : Option String) (c : Config)
    → (env_verbose v c).output.write_to_file ≡ c.output.write_to_file
unfolding env_verbose
env_verbose-file none c = refl
env_verbose-file (some s) c =
    if-cases (λ (d : Config). d.output.write_to_file ≡ c.output.write_to_file) (is_on s) _ _
      (λ h. refl) (λ h. refl)

apply_env_overrides-file :
    (env : Env) (output : String) (c : Config)
    → env "GGML_VIZ_DISABLE" ≡ none
    → env "GGML_VIZ_OUTPUT" ≡ some output
    → (apply_env_overrides env c).output.write_to_file ≡ true
unfolding apply_env_overrides env_disable env_output
apply_env_overrides-file env output c enabled named =
    rw (enabled, named)
      (env_verbose-file (env "GGML_VIZ_VERBOSE") _
        ∙ env_max_events-file (env "GGML_VIZ_MAX_EVENTS") _)

resolve-file :
    (files : Files) (env : Env) (output env_path default_path : String) (c : Config)
    → env "GGML_VIZ_DISABLE" ≡ none
    → env "GGML_VIZ_OUTPUT" ≡ some output
    → resolve files env "" env_path default_path ≡ loads c
    → c.output.write_to_file ≡ true
unfolding resolve merge_cli_file str_eq
resolve-file files env output env_path default_path c enabled named h =
    ap (λ (d : Config). d.output.write_to_file) (sym (final_check-same _ c h))
    ∙ apply_env_overrides-file env output _ enabled named

-- The first start of the hook in a process, when the settings load.
start-loads :
    (sys : System) (m : Manager) (h : Hook) (c : Config)
    → m.loaded ≡ false
    → resolve sys.files sys.env "" (env_config_path (sys.env "GGML_VIZ_CONFIG")) "ggml-viz.json"
      ≡ loads c
    → start sys.files sys.env sys.opens m h
      ≡ loads (record { config = c; loaded = true }, start_with c sys.opens h)
unfolding start ensure_loaded load_with_precedence publish start_loaded
start-loads sys m h c unloaded r = simp (unloaded, r)

configure-same : (c : HookConfig) (h : Hook) → configure c h ≡ h
unfolding configure
configure-same c h = if-cases (λ x. x ≡ h) h.active _ _ (λ a. refl) (λ a. refl)

module _ (sys : System) (c : Config)
    (r : resolve sys.files sys.env "" (env_config_path (sys.env "GGML_VIZ_CONFIG")) "ggml-viz.json"
      ≡ loads c) where
  start_configured-started :
      (config : HookConfig) (s : Init)
      → s.process.manager.loaded ≡ false
      → (start_configured sys config s).process.hook ≡ start_with c sys.opens s.process.hook
  unfolding start_configured finish_start install_ggml_hooks
  start_configured-started config s unloaded =
      ap
        (λ h.
          (finish_start sys (start sys.files sys.env sys.opens s.process.manager h)
            (record s { process = record s.process { hook = h } })).process.hook)
        (configure-same config s.process.hook)
      ∙ ap (λ l. (finish_start sys l s).process.hook)
          (start-loads sys s.process.manager s.process.hook c unloaded r)

  auto_initialize-started :
      (stoi : String → Option ℤ) (s : Init) (output : String)
      → sys.env "GGML_VIZ_DISABLE" ≡ none
      → sys.env "GGML_VIZ_OUTPUT" ≡ some output
      → s.auto_initialized ≡ false
      → s.process.manager.loaded ≡ false
      → (auto_initialize stoi sys s).process.hook ≡ start_with c sys.opens s.process.hook
  unfolding auto_initialize initialize_output parse_bool_env
  auto_initialize-started stoi s output enabled named first unloaded =
      let s1 : Init = record s {
        verbose_logging = parse_bool_env (sys.env "GGML_VIZ_VERBOSE") false;
      } in
      let ends : Init → Type 0 =
        λ (t : Init). t.process.hook ≡ start_with c sys.opens s.process.hook in
      if-cases ends (parse_bool_env (sys.env "GGML_VIZ_DISABLE") false) _ _
        (λ off. absurd (ground (arith, off, ap (λ v. parse_bool_env v false) enabled)))
        (λ on.
          subst (λ o. ends (initialize_output stoi sys o s1)) (sym named)
            (if-cases ends s.auto_initialized _ _ (λ again. absurd (ground (arith, again, first)))
              (λ once. start_configured-started (config_from_env stoi sys.env output) s1 unloaded)))

at_exit-stop : (h : Hook) → at_exit h ≡ stop h
unfolding at_exit stop
at_exit-stop h = if-cases (λ x. x ≡ stop h) h.active _ _ (λ a. refl) (λ a. simp a)

-- A process that loads the library with GGML_VIZ_OUTPUT set leaves at its exit a trace file that
-- loads, with the events that were recorded in order, up to the limit `max_events`. It holds of the
-- first initialization in a process whose hook is idle and whose settings are not loaded yet, where
-- GGML_VIZ_DISABLE is not set, the settings load and time operations or track memory, the file
-- opens, and every event fits its C++ types; whether to write a file need not be configured.
pub open_trace-auto_initialize :
    (stoi : String → Option ℤ) (sys : System) (s : Init) (output : String) (c : Config)
    (es : List Event)
    → sys.env "GGML_VIZ_DISABLE" ≡ none
    → sys.env "GGML_VIZ_OUTPUT" ≡ some output
    → sys.opens ≡ true
    → s.auto_initialized ≡ false
    → s.process.manager.loaded ≡ false
    → s.process.hook.active ≡ false
    → resolve sys.files sys.env "" (env_config_path (sys.env "GGML_VIZ_CONFIG")) "ggml-viz.json"
      ≡ loads c
    → (c.instrumentation.enable_op_timing || c.instrumentation.enable_memory_tracking) ≡ true
    → All Fits es
    → open_trace
        (some (at_exit (record_all c es (auto_initialize stoi sys s).process.hook)).written)
      ≡ valid (events (take c.instrumentation.max_events es))
open_trace-auto_initialize stoi sys s output c es enabled named opens first unloaded idle r timed
      fits =
    let begun : (auto_initialize stoi sys s).process.hook ≡ start_with c true s.process.hook =
      auto_initialize-started sys c r stoi s output enabled named first unloaded
      ∙ ap (λ b. start_with c b s.process.hook) opens in
    ap (λ h. open_trace (some (at_exit (record_all c es h)).written)) begun
    ∙ ap (λ h. open_trace (some h.written))
        (at_exit-stop (record_all c es (start_with c true s.process.hook)))
    ∙ open_trace-record_all c es s.process.hook timed
        (resolve-file sys.files sys.env output (env_config_path (sys.env "GGML_VIZ_CONFIG"))
          "ggml-viz.json" c enabled named r)
        (resolve-IsValid sys.files sys.env "" (env_config_path (sys.env "GGML_VIZ_CONFIG"))
          "ggml-viz.json" c r).events_limit
        idle fits
