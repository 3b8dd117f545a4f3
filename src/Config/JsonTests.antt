-- ===== src/Config/JsonTests.antt =====
-- A small JSON library, which is lawful, and the theorems on configuration files over it.
use ggml_viz.Base.{
  ℕ, ◌%◌, ◌^◌, ◌<◌, ◌≡◌, refl, ap, ap₂, Bool, true, List, [], ◌∷◌, All, map, Option, none, some,
  String, str_eq, if◌then◌else◌, arith,
}
use native.Mathlib.Nat.{mod-eq_of_lt}
use ggml_viz.Config.Defs.{Config, default_config}
use ggml_viz.Config.Manager.{Manager, new_manager, loads, load_with_precedence}
use ggml_viz.Config.Validity.{IsValid, default_config-IsValid}
use ggml_viz.Config.Json.{Json, reads, to_json, from_json, dump_json, from_file, config_files}
use ggml_viz.Config.RoundTrip.{IsLawful, Fits, from_json-to_json}
use ggml_viz.Config.Files.{no_env, load_with_precedence-dump_json, from_file-IsValid}

mutual
  data Value : Type 0 where
    nothing : Value
    boolean : Bool → Value
    number : ℕ → Value
    text : String → Value
    numbers : List ℕ → Value
    texts : List String → Value
    object : Fields → Value

  data Fields : Type 0 where
    end : Fields
    field : String → Value → Fields → Fields

abbrev put : String → Value → Value → Value
put key x nothing = object (field key x end)
put key x (object fs) = object (field key x fs)
put key x v = v

abbrev find_field : Fields → String → Option Value
find_field end k = none
find_field (field key x fs) k = if str_eq k key then some x else find_field fs k

abbrev find : Value → String → Option Value
find (object fs) k = find_field fs k
find v k = none

abbrev to_bool : Value → Option Bool
to_bool (boolean b) = some b
to_bool v = none

abbrev to_uint : ℕ → Value → Option ℕ
to_uint w (number n) = some (n % 2 ^ w)
to_uint w v = none

abbrev to_text : Value → Option String
to_text (text s) = some s
to_text v = none

abbrev to_uints : ℕ → Value → Option (List ℕ)
to_uints w (numbers ns) = some (map (λ n. n % 2 ^ w) ns)
to_uints w v = none

abbrev to_texts : Value → Option (List String)
to_texts (texts ss) = some ss
to_texts v = none

-- The text of a value is the value itself.
abbrev library : Json
library = record {
  Text = Value;
  Value = Value;
  parse = λ v. some v;
  dump = λ v. v;
  null = nothing;
  put = put;
  find = find;
  of_bool = boolean;
  of_uint = number;
  of_text = text;
  of_uints = numbers;
  of_texts = texts;
  to_bool = to_bool;
  to_uint = to_uint;
  to_text = to_text;
  to_uints = to_uints;
  to_texts = to_texts;
}

abbrev CanPut : Value → Type 0
CanPut nothing = Unit
CanPut (object fs) = Unit
CanPut v = ⊥

put-CanPut : (key : String) (x v : Value) → CanPut v → CanPut (put key x v)
put-CanPut key x nothing o = tt
put-CanPut key x (object fs) o = tt
put-CanPut key x (boolean b) o = absurd o
put-CanPut key x (number n) o = absurd o
put-CanPut key x (text s) o = absurd o
put-CanPut key x (numbers ns) o = absurd o
put-CanPut key x (texts ss) o = absurd o

find-put :
    (key k : String) (x v : Value)
    → CanPut v
    → find (put key x v) k ≡ (if str_eq k key then some x else find v k)
find-put key k x nothing o = refl
find-put key k x (object fs) o = refl
find-put key k x (boolean b) o = absurd o
find-put key k x (number n) o = absurd o
find-put key k x (text s) o = absurd o
find-put key k x (numbers ns) o = absurd o
find-put key k x (texts ss) o = absurd o

words_kept : (w : ℕ) (ns : List ℕ) → All (λ n. n < 2 ^ w) ns → map (λ n. n % 2 ^ w) ns ≡ ns
words_kept w [] h = refl
words_kept w (n ∷ ns) h = ap₂ (λ m ms. m ∷ ms) (mod-eq_of_lt h.0) (words_kept w ns h.1)

library-IsLawful : IsLawful library
library-IsLawful = record {
  IsPlain = λ v. Unit {0};
  IsObject = CanPut;
  object-IsPlain = λ v o. tt;
  null-IsObject = tt;
  put-IsObject = λ key x v plain o. put-CanPut key x v o;
  of_bool-IsPlain = λ b. tt;
  of_uint-IsPlain = λ n. tt;
  of_text-IsPlain = λ s. tt;
  of_uints-IsPlain = λ ns. tt;
  of_texts-IsPlain = λ ss. tt;
  find-null = λ key. refl;
  find-put = find-put;
  to_bool-of_bool = λ b. refl;
  to_uint-of_uint = λ w n h. ap some (mod-eq_of_lt h);
  to_text-of_text = λ s. refl;
  to_uints-of_uints = λ w ns h. ap some (words_kept w ns h);
  to_texts-of_texts = λ ss. refl;
  parse-dump = λ v plain. refl;
}

abbrev saved : Config
saved = record default_config {
  instrumentation = record default_config.instrumentation {
    max_events = 500;
    op_types_to_trace = 26 ∷ [];
  };
}

saved-Fits : Fits saved
saved-Fits = omega arith

saved-IsValid : IsValid saved
saved-IsValid =
    let v = default_config-IsValid in
    record {
      schema = refl;
      some_events = omega arith;
      events_limit = omega arith;
      named = v.named;
      flushes = v.flushes;
      polls = v.polls;
      keeps = v.keeps;
      backends = v.backends;
    }

from_json-to_json_example : from_json library (to_json library saved) ≡ reads saved
from_json-to_json_example =
    from_json-to_json library library-IsLawful saved saved-IsValid saved-Fits

abbrev saving : Manager
saving = record { config = saved; loaded = true }

abbrev on_disk : String → Option Value
on_disk path = if str_eq path "mine.json" then some (dump_json library saving) else none

load_with_precedence-dump_json_example :
    load_with_precedence
      (config_files library on_disk)
      no_env
      "mine.json"
      ""
      "ggml-viz.json"
      new_manager
    ≡ loads (record { config = saved; loaded = true })
unfolding str_eq
load_with_precedence-dump_json_example =
    load_with_precedence-dump_json library library-IsLawful on_disk "mine.json" saving new_manager
      refl refl refl saved-IsValid saved-Fits

from_file-IsValid_example : IsValid saved
unfolding from_file from_json
from_file-IsValid_example =
    from_file-IsValid library (some (to_json library saved)) saved from_json-to_json_example
