-- ===== src/Trace/Total.antt =====
-- The loop of TraceReader::load_events (utils/trace_reader.cpp) ends on every file.
use ggml_viz.Base.{
  ℕ, zero, suc, ◌+◌, ◌%◌, ◌^◌, ◌≤◌, ◌<◌, ◌≡◌, ◌≢◌, refl, List, [], ◌∷◌, arith, length, ltb, ◌⊎◌,
  Bool-cases, inl, inr,
}
use ggml_viz.Event.{Event}
use ggml_viz.Trace.Reader.{
  Read, got, short, overrun, Reader, ◌>>=◌, fread, fread_uint, read_chars, read_label, read_payload,
  read_event, Loaded, events, undefined, out_of_fuel, cons_event, load_loop, load_events,
}

-- What a read that got something leaves.
abbrev Leaves : {A : Type 0} → ℕ → Read A → Type 0
Leaves n (got a rest) = length rest ≤ n
Leaves n short = Unit {0}
Leaves n overrun = Unit {0}

-- No read gives back more bytes than it was given.
abbrev IsShrinking : {A : Type 0} → Reader A → Type 0
IsShrinking m = (bs : List ℕ) → Leaves (length bs) (m bs)

Leaves-weaken : {A : Type 0} (n k : ℕ) (r : Read A) → n ≤ k → Leaves n r → Leaves k r
Leaves-weaken n k (got a rest) le h = omega arith
Leaves-weaken n k short le h = tt
Leaves-weaken n k overrun le h = tt

bind-Leaves :
    {A B : Type 0} (n : ℕ) (r : Read A) (f : A → Reader B)
    → Leaves n r
    → ((a : A) → IsShrinking (f a))
    → Leaves n (elim r [ got a rest ↦ f a rest | short ↦ short | overrun ↦ overrun ])
bind-Leaves n (got a rest) f h k = Leaves-weaken (length rest) n (f a rest) h (k a rest)
bind-Leaves n short f h k = tt
bind-Leaves n overrun f h k = tt

bind-IsShrinking :
    {A B : Type 0} (m : Reader A) (f : A → Reader B)
    → IsShrinking m
    → ((a : A) → IsShrinking (f a))
    → IsShrinking (m >>= f)
bind-IsShrinking m f h k bs = bind-Leaves (length bs) (m bs) f (h bs) k

cons-Leaves :
    (n b : ℕ) (r : Read (List ℕ))
    → Leaves n r
    → Leaves (suc n) (elim r [ got s rest ↦ got (b ∷ s) rest | short ↦ short | overrun ↦ overrun ])
cons-Leaves n b (got s rest) h = omega arith
cons-Leaves n b short h = tt
cons-Leaves n b overrun h = tt

fread-IsShrinking : (n : ℕ) → IsShrinking (fread n)
unfolding fread
fread-IsShrinking zero bs = omega arith
fread-IsShrinking (suc n) [] = tt
fread-IsShrinking (suc n) (b ∷ bs) = cons-Leaves (length bs) b (fread n bs) (fread-IsShrinking n bs)

-- A read of at least one byte leaves fewer.
fread-Leaves : (n : ℕ) (b : ℕ) (bs : List ℕ) → Leaves (length bs) (fread (suc n) (b ∷ bs))
unfolding fread
fread-Leaves n b bs =
    elim (fread n bs)
        as (λ r.
          Leaves (length bs) r
          → Leaves (length bs)
              (elim r [ got s rest ↦ got (b ∷ s) rest | short ↦ short | overrun ↦ overrun ])) [
                | got s rest ↦ λ h. h
                | short ↦ λ h. tt
                | overrun ↦ λ h. tt
              ]
      (fread-IsShrinking n bs)

fread_uint-IsShrinking : (n : ℕ) → IsShrinking (fread_uint n)
unfolding fread_uint
fread_uint-IsShrinking n = bind-IsShrinking (fread n) _ (fread-IsShrinking n) (λ s bs. omega arith)

read_chars-IsShrinking : (n : ℕ) → IsShrinking (read_chars n)
unfolding read_chars
read_chars-IsShrinking n [] = fread-IsShrinking n []
read_chars-IsShrinking n (b ∷ bs) = elim (Bool-cases (ltb n ((n + 1) % 2 ^ 32))) [
  | inl fits ↦ rw fits (fread-IsShrinking n (b ∷ bs))
  | inr over ↦ rw over tt
]

read_label-IsShrinking : (n : ℕ) → IsShrinking (read_label n)
unfolding read_label
read_label-IsShrinking zero bs = omega arith
read_label-IsShrinking (suc n) bs =
    bind-IsShrinking (fread_uint 4) _ (fread_uint-IsShrinking 4)
      (λ len.
        bind-IsShrinking (read_chars len) _ (read_chars-IsShrinking len) (λ s cs. omega arith))
      bs

read_payload-IsShrinking : IsShrinking read_payload
unfolding read_payload
read_payload-IsShrinking = bind-IsShrinking (fread_uint 8) _ (fread_uint-IsShrinking 8) (λ a.
    bind-IsShrinking (fread_uint 8) _ (fread_uint-IsShrinking 8) (λ b.
      bind-IsShrinking (fread_uint 8) _ (fread_uint-IsShrinking 8)
        (λ c. bind-IsShrinking (fread_uint 8) _ (fread_uint-IsShrinking 8) (λ d bs. omega arith))))

first_byte-Leaves : (b : ℕ) (bs : List ℕ) → Leaves (length bs) (fread_uint 1 (b ∷ bs))
unfolding fread_uint
first_byte-Leaves b bs =
    bind-Leaves (length bs) (fread 1 (b ∷ bs)) _ (fread-Leaves 0 b bs) (λ s cs. omega arith)

-- One round takes at least the byte of the type.
read_event-Leaves : (b : ℕ) (bs : List ℕ) → Leaves (length bs) (read_event (b ∷ bs))
unfolding read_event
read_event-Leaves b bs =
    bind-Leaves (length bs) (fread_uint 1 (b ∷ bs)) _ (first_byte-Leaves b bs) (λ type.
      bind-IsShrinking (fread_uint 8) _ (fread_uint-IsShrinking 8) (λ time.
        bind-IsShrinking (fread_uint 4) _ (fread_uint-IsShrinking 4) (λ thread.
          bind-IsShrinking read_payload _ read_payload-IsShrinking (λ payload.
            bind-IsShrinking (fread_uint 1) _ (fread_uint-IsShrinking 1) (λ has_label.
              bind-IsShrinking (read_label has_label) _ (read_label-IsShrinking has_label)
                (λ label cs. omega arith))))))

load_loop-nil : (fuel : ℕ) → load_loop (suc fuel) [] ≡ events []
unfolding load_loop read_event fread_uint fread
load_loop-nil fuel = refl

cons_event-fuel : (e : Event) (l : Loaded) → l ≢ out_of_fuel → cons_event e l ≢ out_of_fuel
unfolding cons_event
cons_event-fuel e (events es) h = λ q. cc
cons_event-fuel e undefined h = λ q. cc
cons_event-fuel e out_of_fuel h = absurd (h refl)

round-fuel :
    (n : ℕ) (r : Read Event) (more : List ℕ → Loaded)
    → Leaves n r
    → ((rest : List ℕ) → length rest ≤ n → more rest ≢ out_of_fuel)
    → elim r [ got e rest ↦ cons_event e (more rest) | short ↦ events [] | overrun ↦ undefined ]
      ≢ out_of_fuel
round-fuel n (got e rest) more h k = cons_event-fuel e (more rest) (k rest h)
round-fuel n short more h k = λ q. cc
round-fuel n overrun more h k = λ q. cc

load_loop-fuel : (fuel : ℕ) (bs : List ℕ) → length bs < fuel → load_loop fuel bs ≢ out_of_fuel
unfolding load_loop
load_loop-fuel zero bs h = absurd (omega arith)
load_loop-fuel (suc fuel) [] h = λ q. cc (load_loop-nil fuel)
load_loop-fuel (suc fuel) (b ∷ bs) h =
    round-fuel (length bs) (read_event (b ∷ bs)) (load_loop fuel) (read_event-Leaves b bs)
      (λ rest le. load_loop-fuel fuel rest (omega arith))

-- Loading ends on every file, whatever its bytes: one round a byte, and one more, are enough, so
-- the events are loaded up to the first short read, or a label's buffer is overrun.
pub load_events_ends :
    (bs : List ℕ)
    → ((es : List Event) × (load_events bs ≡ events es)) ⊎ (load_events bs ≡ undefined)
unfolding load_events
load_events_ends bs = go (load_loop (suc (length bs)) bs) refl
  where
    go :
        (l : Loaded)
        → load_loop (suc (length bs)) bs ≡ l
        → ((es : List Event) × (l ≡ events es)) ⊎ (l ≡ undefined)
    go (events es) h = inl (es, refl)
    go undefined h = inr refl
    go out_of_fuel h = absurd (load_loop-fuel (suc (length bs)) bs (omega arith) h)
