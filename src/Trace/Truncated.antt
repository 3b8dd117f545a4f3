-- ===== src/Trace/Truncated.antt =====
-- A trace file that ends within an event, as one does while the hook still writes it: load_events
-- (utils/trace_reader.cpp) stops at the whole events.
use ggml_viz.Base.{
  ℕ, zero, suc, ◌+◌, ◌%◌, ◌^◌, ◌<◌, ◌≡◌, refl, ap, List, [], ◌∷◌, ◌++◌, none, some, length, take,
  drop, All, arith, append-nil, take-append-drop, length-drop, append-eq-nil, Bool-cases, inl, inr,
  ltb,
}
use ggml_viz.Event.{Event}
use ggml_viz.Trace.Format.{trace_header, encode_event, encode_events, Fits}
use ggml_viz.Trace.Reader.{
  Read, got, short, overrun, Reader, fread, fread_uint, ret, ◌>>=◌, read_chars, read_label,
  read_payload, read_event, events, valid, open_trace,
}
use ggml_viz.Trace.RoundTrip.{Reads-event, open_trace-encode}

-- What a read that had `x` behind its input did, given what it does without.
abbrev Grows : {A : Type 0} → Read A → List ℕ → Read A → Type 0
Grows (got a r) x t = t ≡ got a (r ++ x)
Grows short x t = Unit {0}
Grows overrun x t = t ≡ overrun

-- More input does not change a read that found enough.
abbrev Extends : {A : Type 0} → Reader A → Type 0
Extends m = (bs x : List ℕ) → Grows (m bs) x (m (bs ++ x))

Extends-bind :
    {A B : Type 0} (m : Reader A) (f : A → Reader B)
    → Extends m
    → ((a : A) → Extends (f a))
    → Extends (m >>= f)
Extends-bind {A} {B} m f p q bs x = go (m bs) (m (bs ++ x)) (p bs x)
  where
    go :
        (s t : Read A)
        → Grows s x t
        → Grows {A = B}
            (elim s [ got a r ↦ f a r | short ↦ short | overrun ↦ overrun ])
            x
            (elim t [ got a r ↦ f a r | short ↦ short | overrun ↦ overrun ])
    go (got a r) t e = rw e (q a r x)
    go short t e = tt
    go overrun t e = rw e

Extends-ret : {A : Type 0} (a : A) → Extends (ret a)
Extends-ret a bs x = refl

Extends-fread : (n : ℕ) → Extends (fread n)
unfolding fread
Extends-fread zero bs x = refl
Extends-fread (suc n) [] x = tt
Extends-fread (suc n) (b ∷ bs) x = go (fread n bs) (fread n (bs ++ x)) (Extends-fread n bs x)
  where
    go :
        (s t : Read (List ℕ))
        → Grows s x t
        → Grows {A = List ℕ}
            (elim s [ got a r ↦ got (b ∷ a) r | short ↦ short | overrun ↦ overrun ])
            x
            (elim t [ got a r ↦ got (b ∷ a) r | short ↦ short | overrun ↦ overrun ])
    go (got a r) t e = rw e
    go short t e = tt
    go overrun t e = rw e

Extends-fread_uint : (n : ℕ) → Extends (fread_uint n)
unfolding fread_uint
Extends-fread_uint n = Extends-bind (fread n) _ (Extends-fread n) (λ s. Extends-ret _)

Extends-read_chars : (n : ℕ) → Extends (read_chars n)
unfolding read_chars fread
Extends-read_chars zero [] [] = refl
Extends-read_chars zero [] (b ∷ x) = refl
Extends-read_chars (suc n) [] x = tt
Extends-read_chars n (b ∷ bs) x = elim (Bool-cases (ltb n ((n + 1) % 2 ^ 32))) [
  | inl e ↦ rw e (Extends-fread n (b ∷ bs) x)
  | inr e ↦ rw e
]

Extends-read_label : (n : ℕ) → Extends (read_label n)
unfolding read_label
Extends-read_label zero = Extends-ret none
Extends-read_label (suc n) =
    Extends-bind (fread_uint 4) _ (Extends-fread_uint 4)
      (λ len. Extends-bind (read_chars len) _ (Extends-read_chars len) (λ s. Extends-ret _))

Extends-read_payload : Extends read_payload
unfolding read_payload
Extends-read_payload = Extends-bind (fread_uint 8) _ (Extends-fread_uint 8) (λ a.
    Extends-bind (fread_uint 8) _ (Extends-fread_uint 8) (λ b.
      Extends-bind (fread_uint 8) _ (Extends-fread_uint 8)
        (λ c. Extends-bind (fread_uint 8) _ (Extends-fread_uint 8) (λ d. Extends-ret _))))

Extends-read_event : Extends read_event
unfolding read_event
Extends-read_event = Extends-bind (fread_uint 1) _ (Extends-fread_uint 1) (λ t.
    Extends-bind (fread_uint 8) _ (Extends-fread_uint 8) (λ ts.
      Extends-bind (fread_uint 4) _ (Extends-fread_uint 4) (λ th.
        Extends-bind read_payload _ Extends-read_payload (λ p.
          Extends-bind (fread_uint 1) _ (Extends-fread_uint 1)
            (λ n. Extends-bind (read_label n) _ (Extends-read_label n) (λ l. Extends-ret _))))))

-- A part of an event's bytes is no event.
read_event-take :
    (e : Event) (k : ℕ)
    → Fits e
    → k < length (encode_event e)
    → read_event (take k (encode_event e)) ≡ short
read_event-take e k fit h = go (read_event (take k bytes)) (Extends-read_event (take k bytes) rest)
  where
    bytes : List ℕ
    bytes = encode_event e

    rest : List ℕ
    rest = drop k bytes

    whole : read_event (take k bytes ++ rest) ≡ got e []
    whole = rw (take-append-drop k bytes) (rw append-nil at (Reads-event e fit []))

    nothing_left : {xs : List ℕ} → xs ≡ [] → length xs ≡ 0
    nothing_left p = ap length p

    go : (s : Read Event) → Grows s rest (read_event (take k bytes ++ rest)) → s ≡ short
    go (got a r) g =
        let left : r ++ rest ≡ [] = cc (whole, g) in
        absurd (omega (arith, nothing_left (append-eq-nil r rest left), length-drop k bytes))
    go short g = refl
    go overrun g = cc (whole, g)

-- A file cut off within an event, after any number of whole ones, opens as valid with the whole
-- events: all the events before the cut, and nothing made of the cut one.
pub open_trace-cut :
    (es : List Event) (e : Event) (k : ℕ)
    → All Fits es
    → Fits e
    → k < length (encode_event e)
    → open_trace (some (trace_header ++ (encode_events es ++ take k (encode_event e))))
      ≡ valid (events es)
open_trace-cut es e k fits fit h = open_trace-encode es _ fits (read_event-take e k fit h)
