-- ===== src/Trace/Reader.antt =====
-- TraceReader's constructor and load_events (utils/trace_reader.cpp) over the bytes of a file.
use ggml_viz.Base.{
  ℕ, zero, suc, ◌+◌, ◌%◌, ◌^◌, Bool, true, false, List, [], ◌∷◌, Option, none, some, length, ltb,
  ◌==◌, ◌&&◌, if◌then◌else◌,
}
use ggml_viz.Event.{of_byte, Payload, Event}
use ggml_viz.Trace.Bytes.{from_le}
use ggml_viz.Trace.Format.{magic}

-- One read: what it got and the bytes that follow, a short count, or a write past the end of the
-- label's buffer.
pub data Read {ℓ} (A : Type ℓ) : Type ℓ where
  got : A → List ℕ → Read A
  short : Read A
  overrun : Read A

abbrev pub Reader : Type 0 → Type 0
Reader A = List ℕ → Read A

infixl 5 ◌>>=◌
abbrev pub ◌>>=◌ : {A B : Type 0} → Reader A → (A → Reader B) → Reader B
◌>>=◌ m f bs = elim (m bs) [ got a rest ↦ f a rest | short ↦ short | overrun ↦ overrun ]

abbrev pub ret : {A : Type 0} → A → Reader A
ret a bs = got a bs

-- `fread(p, 1, n, file)`
unfoldable pub fread : ℕ → Reader (List ℕ)
fread zero bs = got [] bs
fread (suc n) [] = short
fread (suc n) (b ∷ bs) = elim (fread n bs) [
  | got s rest ↦ got (b ∷ s) rest
  | short ↦ short
  | overrun ↦ overrun
]

unfoldable pub fread_uint : ℕ → Reader ℕ
fread_uint n = do s ← fread n; ret (from_le s)

-- The buffer has `label_len + 1` bytes in 32-bit arithmetic, and `fread` fills it up to
-- `label_len`.
unfoldable pub read_chars : ℕ → Reader (List ℕ)
read_chars label_len [] = fread label_len []
read_chars label_len (b ∷ bs) =
    if ltb label_len ((label_len + 1) % 2 ^ 32) then fread label_len (b ∷ bs) else overrun

unfoldable pub read_label : ℕ → Reader (Option (List ℕ))
read_label zero = ret none
read_label (suc n) = do label_len ← fread_uint 4; s ← read_chars label_len; ret (some s)

unfoldable pub read_payload : Reader Payload
read_payload = do
  a ← fread_uint 8
  b ← fread_uint 8
  c ← fread_uint 8
  d ← fread_uint 8
  ret (record { word0 = a; word1 = b; word2 = c; word3 = d })

unfoldable pub read_event : Reader Event
read_event = do
  type ← fread_uint 1
  timestamp_ns ← fread_uint 8
  thread_id ← fread_uint 4
  payload ← read_payload
  has_label ← fread_uint 1
  label ← read_label has_label
  ret (record {
    type = of_byte type;
    timestamp_ns = timestamp_ns;
    thread_id = thread_id;
    payload = payload;
    label = label;
  })

-- What the loop leaves: the events in file order, undefined behaviour, or no fuel.
pub data Loaded : Type 0 where
  events : List Event → Loaded
  undefined : Loaded
  out_of_fuel : Loaded

unfoldable pub cons_event : Event → Loaded → Loaded
cons_event e (events es) = events (e ∷ es)
cons_event e undefined = undefined
cons_event e out_of_fuel = out_of_fuel

-- `while (!feof(file_))`: each round reads an event, and a short count breaks out.
unfoldable pub load_loop : ℕ → List ℕ → Loaded
load_loop zero bs = out_of_fuel
load_loop (suc fuel) bs = elim (read_event bs) [
  | got e rest ↦ cons_event e (load_loop fuel rest)
  | short ↦ events []
  | overrun ↦ undefined
]

unfoldable pub load_events : List ℕ → Loaded
load_events bs = load_loop (suc (length bs)) bs

-- What the constructor leaves: `valid_` is false with no events, or true with those loaded.
pub data Opened : Type 0 where
  invalid : Opened
  valid : Loaded → Opened

-- `strncmp(header_.magic, "GGMLVIZ1", 8) == 0`
unfoldable pub same_bytes : List ℕ → List ℕ → Bool
same_bytes [] [] = true
same_bytes (a ∷ as') (b ∷ bs) = a == b && same_bytes as' bs
same_bytes _ _ = false

-- The header is 8 bytes of magic and the version, which is read and not looked at.
unfoldable pub read_header : Reader Bool
read_header = do m ← fread 8; version ← fread_uint 4; ret (same_bytes m magic)

-- `none` is a file that cannot be opened.
unfoldable pub open_trace : Option (List ℕ) → Opened
open_trace none = invalid
open_trace (some bs) = elim (read_header bs) [
  | got ok rest ↦ if ok then valid (load_events rest) else invalid
  | short ↦ invalid
  | overrun ↦ invalid
]
