-- ===== src/Trace/Format.antt =====
-- The bytes that GGMLHook::start and GGMLHook::flush_to_file (instrumentation/ggml_hook.cpp) write.
use ggml_viz.Base.{ℕ, ◌+◌, ◌%◌, ◌^◌, ◌<◌, List, [], ◌∷◌, ◌++◌, Option, none, some, length, take}
use ggml_viz.Event.{EventType, unnamed, to_byte, Payload, Event}
use ggml_viz.Trace.Bytes.{le_bytes}

-- "GGMLVIZ1"
abbrev pub magic : List ℕ
magic = b'G' ∷ b'G' ∷ b'M' ∷ b'L' ∷ b'V' ∷ b'I' ∷ b'Z' ∷ b'1' ∷ []

unfoldable pub trace_header : List ℕ
trace_header = magic ++ le_bytes 4 1

unfoldable pub encode_payload : Payload → List ℕ
encode_payload p =
    le_bytes 8 p.word0 ++ (le_bytes 8 p.word1 ++ (le_bytes 8 p.word2 ++ le_bytes 8 p.word3))

-- `label_len` is a uint32_t, so the length that `strlen` returns is cut to 32 bits.
unfoldable pub encode_label : Option (List ℕ) → List ℕ
encode_label none = 0 ∷ []
encode_label (some s) =
    let label_len = length s % 2 ^ 32 in 1 ∷ (le_bytes 4 label_len ++ take label_len s)

unfoldable pub encode_event : Event → List ℕ
encode_event e =
    to_byte e.type
    ∷ (le_bytes 8 e.timestamp_ns
        ++ (le_bytes 4 e.thread_id ++ (encode_payload e.payload ++ encode_label e.label)))

unfoldable pub encode_events : List Event → List ℕ
encode_events [] = []
encode_events (e ∷ es) = encode_event e ++ encode_events es

-- The fields hold values of their C++ types.
abbrev pub IsNamed : EventType → Type 0
IsNamed (unnamed b) = (8 < b) × (b < 256)
IsNamed _ = Unit {0}

abbrev pub LabelFits : Option (List ℕ) → Type 0
LabelFits none = Unit {0}
LabelFits (some s) = length s + 1 < 2 ^ 32

pub record IsWord (p : Payload) : Type 0 where
  pub word0_fits : p.word0 < 2 ^ 64
  pub word1_fits : p.word1 < 2 ^ 64
  pub word2_fits : p.word2 < 2 ^ 64
  pub word3_fits : p.word3 < 2 ^ 64

pub record Fits (e : Event) : Type 0 where
  pub type_fits : IsNamed e.type
  pub timestamp_fits : e.timestamp_ns < 2 ^ 64
  pub thread_fits : e.thread_id < 2 ^ 32
  pub payload_fits : IsWord e.payload
  pub label_fits : LabelFits e.label
