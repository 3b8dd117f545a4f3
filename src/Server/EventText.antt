-- ===== src/Server/EventText.antt =====
-- The text of an event in the live stream (format_event_as_json of server/live_data_collector.hpp).
use Prim.Native.Char.{code}
use Prim.Native.String.{String}
use ggml_viz.Base.{
  ℕ, zero, suc, ◌+◌, ◌≤◌, ◌<◌, ◌^◌, ◌≡◌, refl, ap, List, [], ◌∷◌, ◌++◌, Option, none, some, take,
  length, length-append, arith,
}
use ggml_viz.Event.{
  EventType, graph_compute_begin, graph_compute_end, op_compute_begin, op_compute_end, tensor_alloc,
  tensor_free, barrier_wait, thread_begin, thread_free, unnamed, Event,
}
use ggml_viz.Server.Stream.{event_type_to_string}

-- The bytes of an ASCII text.
abbrev pub codes : String → List ℕ
codes String.[] = []
codes (String.◌∷◌ c s) = code c ∷ codes s

unfoldable pub label_or_unknown : Option (List ℕ) → List ℕ
label_or_unknown none = codes "unknown"
label_or_unknown (some label) = label

unfoldable pub type_text : Event → List ℕ
type_text e = codes "{\"type\":\"" ++ codes (event_type_to_string e.type)

unfoldable pub label_text : Event → List ℕ
label_text e = codes ",\"label\":\"" ++ (label_or_unknown e.label ++ codes "\"}")

-- `decimal` is what snprintf prints for an unsigned number.
module _ (decimal : ℕ → List ℕ) where
  unfoldable pub time_text : Event → List ℕ
  time_text e = codes "\",\"timestamp\":" ++ decimal e.timestamp_ns

  unfoldable pub thread_text : Event → List ℕ
  thread_text e = codes ",\"thread_id\":" ++ decimal e.thread_id

  unfoldable pub event_text : Event → List ℕ
  event_text e = type_text e ++ (time_text e ++ (thread_text e ++ label_text e))

  -- The buffer has 512 bytes, one for the end of the text.
  unfoldable pub format_event_as_json : Event → List ℕ
  format_event_as_json e = take 511 (event_text e)

  unfoldable pub sse_message : Event → List ℕ
  sse_message e = codes "data: " ++ format_event_as_json e ++ (10 ∷ 10 ∷ [])

take-whole : (n : ℕ) (xs : List ℕ) → length xs ≤ n → take n xs ≡ xs
take-whole zero [] h = refl
take-whole zero (x ∷ xs) h = absurd (omega (arith, h))
take-whole (suc n) [] h = refl
take-whole (suc n) (x ∷ xs) h = ap (λ ys. x ∷ ys) (take-whole n xs (omega (arith, h)))

event_type_to_string-length : (t : EventType) → length (codes (event_type_to_string t)) ≤ 12
unfolding event_type_to_string
event_type_to_string-length graph_compute_begin = omega arith
event_type_to_string-length graph_compute_end = omega arith
event_type_to_string-length op_compute_begin = omega arith
event_type_to_string-length op_compute_end = omega arith
event_type_to_string-length tensor_alloc = omega arith
event_type_to_string-length tensor_free = omega arith
event_type_to_string-length barrier_wait = omega arith
event_type_to_string-length thread_begin = omega arith
event_type_to_string-length thread_free = omega arith
event_type_to_string-length (unnamed b) = omega arith

length-append_of :
    (xs ys : List ℕ) (m n : ℕ) → length xs ≤ m → length ys ≤ n → length (xs ++ ys) ≤ m + n
length-append_of xs ys m n h k = omega (arith, length-append xs ys, h, k)

-- How long snprintf prints numbers of 64 and of 32 bits.
abbrev pub IsDecimal : (ℕ → List ℕ) → Type 0
IsDecimal decimal =
    ((n : ℕ) → n < 2 ^ 64 → length (decimal n) ≤ 20)
    × ((n : ℕ) → n < 2 ^ 32 → length (decimal n) ≤ 10)

type_text-length : (e : Event) → length (type_text e) ≤ 21
unfolding type_text
type_text-length e = omega (arith, event_type_to_string-length e.type)

label_text-length :
    (e : Event) → length (label_or_unknown e.label) ≤ 421 → length (label_text e) ≤ 433
unfolding label_text
label_text-length e h =
    length-append_of (codes ",\"label\":\"") (label_or_unknown e.label ++ codes "\"}") 10 423
      (omega arith)
      (length-append_of (label_or_unknown e.label) (codes "\"}") 421 2 h (omega arith))

time_text-length :
    (decimal : ℕ → List ℕ) (e : Event)
    → IsDecimal decimal
    → e.timestamp_ns < 2 ^ 64
    → length (time_text decimal e) ≤ 34
unfolding time_text
time_text-length decimal e d t =
    length-append_of (codes "\",\"timestamp\":") (decimal e.timestamp_ns) 14 20 (omega arith)
      (d.0 e.timestamp_ns t)

thread_text-length :
    (decimal : ℕ → List ℕ) (e : Event)
    → IsDecimal decimal
    → e.thread_id < 2 ^ 32
    → length (thread_text decimal e) ≤ 23
unfolding thread_text
thread_text-length decimal e d i =
    length-append_of (codes ",\"thread_id\":") (decimal e.thread_id) 13 10 (omega arith)
      (d.1 e.thread_id i)

-- A label of at most 421 bytes leaves the text of the event whole, with its last brace: the type is
-- any type, the time has 64 bits and the thread 32 bits.
pub format_event_as_json-event_text :
    (decimal : ℕ → List ℕ) (e : Event)
    → IsDecimal decimal
    → e.timestamp_ns < 2 ^ 64
    → e.thread_id < 2 ^ 32
    → length (label_or_unknown e.label) ≤ 421
    → format_event_as_json decimal e ≡ event_text decimal e
unfolding format_event_as_json event_text
format_event_as_json-event_text decimal e d t i l = take-whole 511 (event_text decimal e) (
    length-append_of (type_text e) (time_text decimal e ++ (thread_text decimal e ++ label_text e))
      21 490 (type_text-length e)
      (length-append_of (time_text decimal e) (thread_text decimal e ++ label_text e) 34 456
        (time_text-length decimal e d t)
        (length-append_of (thread_text decimal e) (label_text e) 23 433
          (thread_text-length decimal e d i) (label_text-length e l))))
