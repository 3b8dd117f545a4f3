-- ===== src/Trace/RoundTrip.antt =====
-- What the hook writes (ggml_hook.cpp), the reader (trace_reader.cpp) reads.
use ggml_viz.Base.{
  ℕ, zero, suc, ◌+◌, ◌^◌, ◌<◌, ◌≡◌, refl, ap, subst, List, [], ◌∷◌, ◌++◌, Option, none, some,
  length, All, arith, append-nil, append_assoc, take_all, length-append, true,
}
use native.Mathlib.Nat.{mod-eq_of_lt}
use ggml_viz.Event.{
  EventType, graph_compute_begin, graph_compute_end, op_compute_begin, op_compute_end, tensor_alloc,
  tensor_free, barrier_wait, thread_begin, thread_free, unnamed, to_byte, of_byte, Payload, Event,
}
use ggml_viz.Trace.Bytes.{le_bytes, from_le, length-le_bytes, from_le-le_bytes}
use ggml_viz.Trace.Format.{
  magic, trace_header, encode_payload, encode_label, encode_event, encode_events, IsNamed,
  LabelFits, IsWord, Fits,
}
use ggml_viz.Trace.Reader.{
  got, short, Reader, fread, fread_uint, ret, ◌>>=◌, read_chars, read_label, read_payload,
  read_event, events, cons_event, load_loop, load_events, valid, same_bytes, read_header,
  open_trace,
}

-- The reader `m` takes exactly the bytes `s`, whatever follows them, and returns `a`.
abbrev pub Reads : {A : Type 0} → Reader A → List ℕ → A → Type 0
Reads m s a = (r : List ℕ) → m (s ++ r) ≡ got a r

Reads-bind :
    {A B : Type 0} (m : Reader A) (f : A → Reader B) (s t : List ℕ) (a : A) (b : B)
    → Reads m s a
    → Reads (f a) t b
    → Reads (m >>= f) (s ++ t) b
Reads-bind m f s t a b p q r = rw (append_assoc, p (t ++ r), ◌>>=◌) (q r)

Reads-map :
    {A B : Type 0} (m : Reader A) (g : A → B) (s : List ℕ) (a : A)
    → Reads m s a
    → Reads (m >>= λ x. ret (g x)) s (g a)
Reads-map m g s a p r = rw (p r, ◌>>=◌)

Reads-fread : (s : List ℕ) → Reads (fread (length s)) s s
unfolding fread
Reads-fread [] r = refl
Reads-fread (b ∷ s) r = rw (Reads-fread s r)

Reads-le_bytes : (n v : ℕ) → v < 256 ^ n → Reads (fread_uint n) (le_bytes n v) v
unfolding fread_uint
Reads-le_bytes n v h = subst (Reads (fread_uint n) (le_bytes n v)) (from_le-le_bytes n v h) (
    Reads-map (fread n) from_le (le_bytes n v) (le_bytes n v) (
      subst (λ k. Reads (fread k) (le_bytes n v) (le_bytes n v)) (length-le_bytes n v)
        (Reads-fread (le_bytes n v))))

Reads-byte : (b : ℕ) → Reads (fread_uint 1) (b ∷ []) b
unfolding fread_uint fread from_le
Reads-byte b r = ground arith

of_byte-to_byte : (t : EventType) → IsNamed t → of_byte (to_byte t) ≡ t
unfolding of_byte to_byte
of_byte-to_byte graph_compute_begin h = refl
of_byte-to_byte graph_compute_end h = refl
of_byte-to_byte op_compute_begin h = refl
of_byte-to_byte op_compute_end h = refl
of_byte-to_byte tensor_alloc h = refl
of_byte-to_byte tensor_free h = refl
of_byte-to_byte barrier_wait h = refl
of_byte-to_byte thread_begin h = refl
of_byte-to_byte thread_free h = refl
of_byte-to_byte (unnamed b) h = ground arith

to_byte-lt : (t : EventType) → IsNamed t → to_byte t < 256
unfolding to_byte
to_byte-lt graph_compute_begin h = omega arith
to_byte-lt (unnamed b) h = h.1
to_byte-lt _ h = omega arith

Reads-payload : (p : Payload) → IsWord p → Reads read_payload (encode_payload p) p
unfolding read_payload encode_payload
Reads-payload p h =
    Reads-bind (fread_uint 8) _ _ _ p.word0 p (Reads-le_bytes 8 p.word0 h.word0_fits) (
      Reads-bind (fread_uint 8) _ _ _ p.word1 p (Reads-le_bytes 8 p.word1 h.word1_fits) (
        Reads-bind (fread_uint 8) _ _ _ p.word2 p (Reads-le_bytes 8 p.word2 h.word2_fits)
          (Reads-map (fread_uint 8) _ _ p.word3 (Reads-le_bytes 8 p.word3 h.word3_fits))))

Reads-chars : (s : List ℕ) → length s + 1 < 2 ^ 32 → Reads (read_chars (length s)) s s
unfolding read_chars fread
Reads-chars [] h [] = refl
Reads-chars [] h (b ∷ r) = refl
Reads-chars (b ∷ s) h r = ground (arith, Reads-fread s r)

-- The byte that says whether there is a label, the label, and what is made of it.
Reads-label :
    {A : Type 0} (g : Option (List ℕ) → A) (l : Option (List ℕ))
    → LabelFits l
    → Reads
        (fread_uint 1 >>= λ has_label. read_label has_label >>= λ s. ret (g s))
        (encode_label l)
        (g l)
unfolding read_label encode_label
Reads-label g none h = Reads-bind (fread_uint 1) _ (0 ∷ []) [] 0 (g none) (Reads-byte 0) (λ r. refl)
Reads-label g (some s) h =
    rw (mod-eq_of_lt {n = length s} {m = 2 ^ 32} (omega arith), take_all (length s) s (omega arith))
      (Reads-bind (fread_uint 1) _ (1 ∷ []) _ 1 (g (some s)) (Reads-byte 1) (
        Reads-map (fread_uint 4 >>= λ n. read_chars n >>= λ t. ret (some t)) g
          (le_bytes 4 (length s) ++ s) (some s)
          (Reads-bind (fread_uint 4) (λ n. read_chars n >>= λ t. ret (some t)) _ s (length s)
            (some s) (Reads-le_bytes 4 (length s) (omega arith))
            (Reads-map (read_chars (length s)) some s s (Reads-chars s h)))))

pub Reads-event : (e : Event) → Fits e → Reads read_event (encode_event e) e
unfolding read_event encode_event
Reads-event e h =
    Reads-bind (fread_uint 1) _ (to_byte e.type ∷ []) _ (to_byte e.type) e
      (Reads-byte (to_byte e.type))
      (Reads-bind (fread_uint 8) _ _ _ e.timestamp_ns e (Reads-le_bytes 8 _ h.timestamp_fits) (
        Reads-bind (fread_uint 4) _ _ _ e.thread_id e (Reads-le_bytes 4 _ h.thread_fits) (
          Reads-bind read_payload _ _ _ e.payload e (Reads-payload e.payload h.payload_fits) (
            rw (of_byte-to_byte e.type h.type_fits)
              (Reads-label (λ l. record e { label = l }) e.label h.label_fits)))))

read_event-nil : read_event [] ≡ short
unfolding read_event fread_uint fread
read_event-nil = refl

shorter :
    (e : Event) (bs rest : List ℕ) (fuel : ℕ)
    → length ((encode_event e ++ bs) ++ rest) < suc fuel
    → length (bs ++ rest) < fuel
unfolding encode_event
shorter e bs rest fuel h = omega (
  arith,
  length-append (encode_event e ++ bs) rest,
  length-append (encode_event e) bs,
  length-append bs rest,
)

-- The loop reads back the events, and stops where the rest holds no whole event.
pub load_loop-encode :
    (fuel : ℕ) (es : List Event) (rest : List ℕ)
    → All Fits es
    → read_event rest ≡ short
    → length (encode_events es ++ rest) < fuel
    → load_loop fuel (encode_events es ++ rest) ≡ events es
unfolding load_loop encode_events cons_event
load_loop-encode zero es rest fits stop h = absurd (omega arith)
load_loop-encode (suc fuel) [] rest fits stop h = rw (stop, load_loop)
load_loop-encode (suc fuel) (e ∷ es) rest (fit, fits) stop h = rw append_assoc (
    rw (Reads-event e fit (encode_events es ++ rest), load_loop)
      (rw (load_loop-encode fuel es rest fits stop (shorter e (encode_events es) rest fuel h))))

read_header-trace_header : Reads read_header trace_header true
unfolding read_header trace_header same_bytes
read_header-trace_header =
    Reads-bind (fread 8) (λ m. fread_uint 4 >>= λ _. ret (same_bytes m magic)) magic (le_bytes 4 1)
      magic true (Reads-fread magic)
      (Reads-map (fread_uint 4) (λ _. same_bytes magic magic) _ 1
        (Reads-le_bytes 4 1 (omega arith)))

-- A file made of the header, whole events and a rest that holds no whole event opens as valid, and
-- exactly those events are loaded.
pub open_trace-encode :
    (es : List Event) (rest : List ℕ)
    → All Fits es
    → read_event rest ≡ short
    → open_trace (some (trace_header ++ (encode_events es ++ rest))) ≡ valid (events es)
unfolding open_trace load_events
open_trace-encode es rest fits stop =
    rw (read_header-trace_header (encode_events es ++ rest), open_trace)
      (ap valid (load_loop-encode _ es rest fits stop (omega arith)))

-- Events whose fields fit their C++ types, written by the hook behind its header, are what the
-- reader loads from that file, in order and with every field.
pub open_trace-encode_events :
    (es : List Event)
    → All Fits es
    → open_trace (some (trace_header ++ encode_events es)) ≡ valid (events es)
open_trace-encode_events es fits =
    rw (append-nil (encode_events es)) at (open_trace-encode es [] fits read_event-nil)
