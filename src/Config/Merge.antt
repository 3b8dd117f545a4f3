-- ===== src/Config/Merge.antt =====
-- Config::merge_from (src/utils/config.cpp): a value of the other configuration counts only where
-- it differs from the default.
use ggml_viz.Base.{
  ℕ, ◌≡◌, refl, Bool, true, false, List, [], ◌∷◌, not, ◌==◌, str_eq, strs_eq, if◌then◌else◌,
}
use ggml_viz.Config.Defs.{
  ConfigLogLevel, debug, info, warn, error_level, fatal, InstrumentationConfig, Config,
  default_config,
}

-- `if (other != defaults) self = other;`
abbrev pub pick {ℓ} : {A : Type ℓ} → (A → A → Bool) → A → A → A → A
pick eq standard other self = if not (eq other standard) then other else self

unfoldable pub bool_eq : Bool → Bool → Bool
bool_eq true b = b
bool_eq false b = not b

unfoldable pub level_eq : ConfigLogLevel → ConfigLogLevel → Bool
level_eq debug debug = true
level_eq info info = true
level_eq warn warn = true
level_eq error_level error_level = true
level_eq fatal fatal = true
level_eq _ _ = false

unfoldable pub nat_eq : ℕ → ℕ → Bool
nat_eq a b = a == b

-- `if (!other.empty()) self = other;`
unfoldable pub pick_list : List ℕ → List ℕ → List ℕ
pick_list [] self = self
pick_list (x ∷ xs) self = x ∷ xs

unfoldable pub merge_from : Config → Config → Config
merge_from self other = record self {
  instrumentation = record {
    enable_op_timing = pick bool_eq d.enable_op_timing o.enable_op_timing s.enable_op_timing;
    enable_memory_tracking =
        pick bool_eq d.enable_memory_tracking o.enable_memory_tracking s.enable_memory_tracking;
    record_tensor_names =
        pick bool_eq d.record_tensor_names o.record_tensor_names s.record_tensor_names;
    max_events = pick nat_eq d.max_events o.max_events s.max_events;
    op_types_to_trace = pick_list o.op_types_to_trace s.op_types_to_trace;
    backends_to_trace = pick strs_eq d.backends_to_trace o.backends_to_trace s.backends_to_trace;
  };
  output = record {
    filename =
        pick str_eq default_config.output.filename other.output.filename self.output.filename;
    write_to_file =
        pick bool_eq default_config.output.write_to_file other.output.write_to_file
          self.output.write_to_file;
    flush_interval =
        pick nat_eq default_config.output.flush_interval other.output.flush_interval
          self.output.flush_interval;
  };
  logging = record {
    level = pick level_eq default_config.logging.level other.logging.level self.logging.level;
    timestamp =
        pick bool_eq default_config.logging.timestamp other.logging.timestamp
          self.logging.timestamp;
    thread_id =
        pick bool_eq default_config.logging.thread_id other.logging.thread_id
          self.logging.thread_id;
    prefix = pick str_eq default_config.logging.prefix other.logging.prefix self.logging.prefix;
  };
  ui = record {
    live_mode = pick bool_eq default_config.ui.live_mode other.ui.live_mode self.ui.live_mode;
    poll_interval_ms =
        pick nat_eq default_config.ui.poll_interval_ms other.ui.poll_interval_ms
          self.ui.poll_interval_ms;
    max_live_events =
        pick nat_eq default_config.ui.max_live_events other.ui.max_live_events
          self.ui.max_live_events;
  };
}
  where
    d : InstrumentationConfig
    d = default_config.instrumentation

    o : InstrumentationConfig
    o = other.instrumentation

    s : InstrumentationConfig
    s = self.instrumentation

-- Merging the defaults in changes nothing.
pub merge_from-default : (c : Config) → merge_from c default_config ≡ c
unfolding merge_from pick_list bool_eq nat_eq level_eq str_eq strs_eq
merge_from-default c = refl
