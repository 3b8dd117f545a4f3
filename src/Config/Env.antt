-- ===== src/Config/Env.antt =====
-- Config::apply_env_overrides (src/utils/config.cpp) and the std::stoull that it calls.
use Prim.Native.Char.{code}
use ggml_viz.Base.{
  ℕ, ◌+◌, ◌-◌, ◌*◌, ◌%◌, ◌^◌, ◌≡◌, refl, Bool, true, false, ◌&&◌, ◌||◌, List, [], ◌∷◌, Option, none,
  some, String, ltb, leb, ◌==◌, str_eq, if◌then◌else◌,
}
use ggml_viz.Config.Defs.{debug, Config}

-- `std::getenv`: `none` is a null pointer.
abbrev pub Env : Type 0
Env = String → Option String

abbrev pub codes : String → List ℕ
codes String.[] = []
codes (String.◌∷◌ first others) = code first ∷ codes others

is_space : ℕ → Bool
is_space c = c == 32 || (leb 9 c && leb c 13)

is_digit : ℕ → Bool
is_digit c = leb 48 c && leb c 57

skip_spaces : List ℕ → List ℕ
unfolding is_space
skip_spaces [] = []
skip_spaces (c ∷ cs) = if is_space c then skip_spaces cs else c ∷ cs

-- The decimal digits at the front, and what follows them is left aside.
digits_value : ℕ → List ℕ → ℕ
unfolding is_digit
digits_value acc [] = acc
digits_value acc (c ∷ cs) =
    let more = digits_value (acc * 10 + (c - b'0')) cs in if is_digit c then more else acc

in_range : ℕ → Option ℕ
in_range v = if ltb v (2 ^ 64) then some v else none

unsigned : List ℕ → Option ℕ
unfolding is_digit digits_value in_range
unsigned [] = none
unsigned (c ∷ cs) = if is_digit c then in_range (digits_value 0 (c ∷ cs)) else none

-- A minus sign negates modulo 2 ^ 64.
negated : Option ℕ → Option ℕ
negated none = none
negated (some v) = some ((2 ^ 64 - v) % 2 ^ 64)

signed : List ℕ → Option ℕ
unfolding unsigned negated
signed [] = none
signed (c ∷ cs) =
    if c == b'-'
    then negated (unsigned cs)
    else if c == b'+'
    then unsigned cs
    else unsigned (c ∷ cs)

-- `none` for std::invalid_argument and std::out_of_range.
unfoldable pub stoull : String → Option ℕ
unfolding skip_spaces signed
stoull s = signed (skip_spaces (codes s))

abbrev pub is_on : String → Bool
is_on s = str_eq s "1" || str_eq s "true"

unfoldable pub env_output : Option String → Config → Config
env_output none c = c
env_output (some f) c = record c { output = record c.output { filename = f; write_to_file = true } }

-- What does not parse is warned of and left.
unfoldable pub env_max_events : Option String → Config → Config
env_max_events none c = c
env_max_events (some s) c = elim (stoull s) [
  | none ↦ c
  | some n ↦ record c { instrumentation = record c.instrumentation { max_events = n } }
]

unfoldable pub env_verbose : Option String → Config → Config
env_verbose none c = c
env_verbose (some s) c =
    if is_on s then record c { logging = record c.logging { level = debug } } else c

unfoldable pub env_disable : Option String → Config → Config
env_disable none c = c
env_disable (some s) c =
    if is_on s
    then record c {
      instrumentation = record c.instrumentation {
        enable_op_timing = false;
        enable_memory_tracking = false;
      };
      output = record c.output { write_to_file = false };
    }
    else c

unfoldable pub apply_env_overrides : Env → Config → Config
apply_env_overrides env c = env_disable (env "GGML_VIZ_DISABLE") (
    env_verbose (env "GGML_VIZ_VERBOSE")
      (env_max_events (env "GGML_VIZ_MAX_EVENTS") (env_output (env "GGML_VIZ_OUTPUT") c)))

stoull_test : stoull " +42x" ≡ some 42
unfolding stoull
stoull_test = refl

stoull_negative : stoull "-1" ≡ some 18446744073709551615
unfolding stoull
stoull_negative = refl

stoull_bad : stoull "x1" ≡ none
unfolding stoull
stoull_bad = refl
