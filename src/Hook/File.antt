-- ===== src/Hook/File.antt =====
-- From GGMLHook::start to GGMLHook::stop (instrumentation/ggml_hook.cpp) with file output.
use ggml_viz.Base.{
  ℕ, suc, ◌+◌, ◌-◌, ◌%◌, ◌^◌, ◌≤◌, ◌<◌, ◌≡◌, ◌⊎◌, refl, sym, ap, ap₂, subst, ◌∙◌, inl, inr, true,
  false, List, [], ◌∷◌, ◌++◌, arith, length, length-append, bit_and, bit_and-mask, ◌==◌, leb,
  Bool-cases, append-nil, append_assoc,
}
use ggml_viz.Event.{Event}
use ggml_viz.Trace.Format.{trace_header, encode_event, encode_events}
use ggml_viz.Config.Defs.{Config}
use ggml_viz.Hook.Defs.{
  Hook, slot, add64, store, copy, flush_to_file, flush_if_due, push_event, record_event,
}
use ggml_viz.Hook.Ring.{Holds, full_iff, copy-store_end}

pub encode_events-append :
    (xs ys : List Event) → encode_events (xs ++ ys) ≡ encode_events xs ++ encode_events ys
unfolding encode_events
encode_events-append [] ys = refl
encode_events-append (x ∷ xs) ys =
    ap (◌++◌ (encode_event x)) (encode_events-append xs ys)
    ∙ sym (append_assoc (encode_event x) (encode_events xs) (encode_events ys))

-- The file holds `ys` and the ring holds `zs`; every event so far is in one of them, and the ring
-- holds no more than came since the last multiple of 4096.
pub record Logged (c : Config) (h : Hook) (ys zs : List Event) : Type 0 where
  pub running : h.active ≡ true
  pub opened : h.output_file ≡ true
  pub in_file : h.written ≡ trace_header ++ encode_events ys
  pub ring : Holds h zs
  pub read : h.read_pos ≡ length ys
  pub count : h.event_count ≡ h.write_pos
  pub undropped : h.dropped_events ≡ 0
  pub recent : length zs ≤ h.event_count % 4096
  pub limit : h.event_count ≤ c.instrumentation.max_events

-- What a flush leaves.
abbrev pub flushed : Hook → Hook
flushed h = record h {
  written = h.written ++ encode_events (copy h.event_buffer h.read_pos (h.write_pos - h.read_pos));
  read_pos = h.read_pos + (h.write_pos - h.read_pos);
}

pub flush_to_file-open : (h : Hook) → h.output_file ≡ true → flush_to_file h ≡ flushed h
unfolding flush_to_file
flush_to_file-open h o = simp o

pub written-flushed :
    (h : Hook) (ys zs : List Event)
    → h.written ≡ trace_header ++ encode_events ys
    → Holds h zs
    → (flushed h).written ≡ trace_header ++ encode_events (ys ++ zs)
written-flushed h ys zs w v =
    ap₂ (λ a b. a ++ encode_events b) w
      (subst (λ n. copy h.event_buffer h.read_pos n ≡ zs)
        (let n : length zs ≡ h.write_pos - h.read_pos = omega arith in n) v.kept)
    ∙ append_assoc trace_header (encode_events ys) (encode_events zs)
    ∙ ap (◌++◌ trace_header) (sym (encode_events-append ys zs))

flushed-Logged :
    (c : Config) (h : Hook) (ys zs : List Event)
    → h.active ≡ true
    → h.output_file ≡ true
    → h.written ≡ trace_header ++ encode_events ys
    → Holds h zs
    → h.read_pos ≡ length ys
    → h.event_count ≡ h.write_pos
    → h.dropped_events ≡ 0
    → h.event_count ≤ c.instrumentation.max_events
    → Logged c (flushed h) (ys ++ zs) []
unfolding copy
flushed-Logged c h ys zs a o w v r n d l = record {
  running = a;
  opened = o;
  in_file = written-flushed h ys zs w v;
  ring = record { kept = refl; counted = omega arith; room = omega arith; small = v.small };
  read = omega (arith, length-append ys zs);
  count = n;
  undropped = d;
  recent = omega arith;
  limit = l;
}

-- The state in `push_event` once the event is stored, published and counted.
abbrev pub pushed : Event → Hook → Hook
pushed e h = record h {
  event_buffer = store h.event_buffer (slot h.write_pos) e;
  write_pos = add64 h.write_pos 1;
  event_count = add64 h.event_count 1;
}

pub pushed-Holds :
    (e : Event) (h : Hook) (zs : List Event)
    → Holds h zs
    → length zs < 65535
    → h.write_pos + 1 < 2 ^ 63
    → Holds (pushed e h) (zs ++ e ∷ [])
pushed-Holds e h zs v room small = record {
  kept =
      subst (λ n. copy (store h.event_buffer (slot h.write_pos) e) h.read_pos n ≡ zs ++ e ∷ [])
        (let n : suc (length zs) ≡ length (zs ++ e ∷ []) =
            omega (arith, length-append zs (e ∷ [])) in
          n)
        (subst
          (λ w. copy (store h.event_buffer (slot w) e) h.read_pos (suc (length zs)) ≡ zs ++ e ∷ [])
          (sym v.counted)
          (copy-store_end (length zs) h.event_buffer h.read_pos e v.room
            ∙ ap (λ r. r ++ e ∷ []) v.kept));
  counted = omega (arith, length-append zs (e ∷ []));
  room = omega (arith, length-append zs (e ∷ []));
  small = omega arith;
}

-- Every event of `xs` so far is in the file or in the ring, in order.
abbrev pub LoggedAll : Config → Hook → List Event → Type 0
LoggedAll c h xs = (ys : List Event) × (zs : List Event) × (ys ++ zs ≡ xs) × Logged c h ys zs

due-mod : (n : ℕ) → bit_and n 0xFFF ≡ n % 4096
due-mod n = bit_and-mask 12 n

push_event-room :
    (c : Config) (e : Event) (h : Hook) (zs : List Event)
    → Holds h zs
    → length zs < 65535
    → push_event c e h ≡ flush_if_due c (pushed e h)
unfolding push_event
push_event-room c e h zs v room =
    let open_slot : (slot (add64 h.write_pos 1) == slot h.read_pos) ≡ false =
      full_iff h zs v ∙ ground arith in
    rw open_slot

flush_if_due-LoggedAll :
    (c : Config) (h : Hook) (ys zs : List Event)
    → c.output.write_to_file ≡ true
    → h.active ≡ true
    → h.output_file ≡ true
    → h.written ≡ trace_header ++ encode_events ys
    → Holds h zs
    → h.read_pos ≡ length ys
    → h.event_count ≡ h.write_pos
    → h.dropped_events ≡ 0
    → ((h.event_count % 4096 ≡ 0) ⊎ (length zs ≤ h.event_count % 4096))
    → h.event_count ≤ c.instrumentation.max_events
    → LoggedAll c (flush_if_due c h) (ys ++ zs)
unfolding flush_if_due
flush_if_due-LoggedAll c h ys zs to_file a o w v r n d recent l =
    elim (Bool-cases (bit_and h.event_count 0xFFF == 0)) [
      | inl due ↦
          simp (to_file, due, flush_to_file-open h o)
            (ys ++ zs, [], append-nil (ys ++ zs), flushed-Logged c h ys zs a o w v r n d l)
      | inr not_due ↦
          simp (to_file, not_due)
            (
              ys,
              zs,
              refl,
              record {
                running = a;
                opened = o;
                in_file = w;
                ring = v;
                read = r;
                count = n;
                undropped = d;
                recent = ground (arith, due-mod h.event_count);
                limit = l;
              },
            )
    ]

event_count-flush_if_due : (c : Config) (h : Hook) → (flush_if_due c h).event_count ≡ h.event_count
unfolding flush_if_due flush_to_file
event_count-flush_if_due c h = ground arith

record_event-running :
    (c : Config) (e : Event) (h : Hook)
    → h.active ≡ true
    → h.event_count < c.instrumentation.max_events
    → record_event c e h ≡ push_event c e h
unfolding record_event
record_event-running c e h a below =
    let under : leb c.instrumentation.max_events h.event_count ≡ false = ground arith in
    simp (a, under)

next_recent : (n m k l : ℕ) → m ≡ n + 1 → l ≡ k + 1 → k ≤ n % 4096 → (m % 4096 ≡ 0) ⊎ (l ≤ m % 4096)
next_recent n m k l p q h = grind arith

-- Below the limit an event is stored and counted.
pub record_event-below :
    (c : Config) (e : Event) (h : Hook) (ys zs : List Event)
    → c.output.write_to_file ≡ true
    → c.instrumentation.max_events ≤ 100000000
    → h.event_count < c.instrumentation.max_events
    → Logged c h ys zs
    → LoggedAll c (record_event c e h) (ys ++ (zs ++ e ∷ []))
      × ((record_event c e h).event_count ≡ h.event_count + 1)
record_event-below c e h ys zs to_file most below g =
    rw (record_event-running c e h g.running below, push_event-room c e h zs g.ring (omega arith))
      (
        flush_if_due-LoggedAll c (pushed e h) ys (zs ++ e ∷ []) to_file g.running g.opened g.in_file
            (pushed-Holds e h zs g.ring (omega arith) (omega arith)) g.read (omega arith)
            g.undropped
            (next_recent h.event_count _ (length zs) _ (omega arith)
              (omega (arith, length-append zs (e ∷ []))) g.recent)
            (omega arith),
        event_count-flush_if_due c (pushed e h) ∙ omega arith,
      )
