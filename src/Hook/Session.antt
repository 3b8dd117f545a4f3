-- ===== src/Hook/Session.antt =====
-- A whole trace: GGMLHook::start, any number of record_event, and GGMLHook::stop (ggml_hook.cpp).
use ggml_viz.Base.{
  ℕ, zero, suc, ◌+◌, ◌-◌, ◌≤◌, ◌<◌, ◌≡◌, refl, sym, ap, ap₂, subst, ◌∙◌, true, false, not, ◌&&◌,
  ◌||◌, List, [], ◌∷◌, ◌++◌, arith, take, take-nil, take-cons, take-eq-nil, leb, append-nil,
  append_assoc, All, some, dec_lt,
}
use ggml_viz.Event.{Event}
use ggml_viz.Trace.Format.{trace_header, encode_events, Fits}
use ggml_viz.Trace.Reader.{open_trace, valid, events}
use ggml_viz.Trace.RoundTrip.{open_trace-encode_events}
use ggml_viz.Config.Defs.{Config}
use ggml_viz.Hook.Defs.{
  Hook, copy, flush_to_file, close_file, stop, clear_counters, open_file, start_with, record_event,
}
use ggml_viz.Hook.File.{Logged, record_event-below, written-flushed}

-- The trace is closed: its file holds exactly `xs`, and nothing was dropped.
pub record Closed (h : Hook) (xs : List Event) : Type 0 where
  pub stopped : h.active ≡ false
  pub closed : h.output_file ≡ false
  pub file : h.written ≡ trace_header ++ encode_events xs
  pub none_dropped : h.dropped_events ≡ 0

stop-Closed :
    (c : Config) (h : Hook) (ys zs : List Event) → Logged c h ys zs → Closed (stop h) (ys ++ zs)
unfolding stop close_file flush_to_file
stop-Closed c h ys zs g =
    simp (g.running, g.opened)
      (record {
        stopped = refl;
        closed = refl;
        file = written-flushed h ys zs g.in_file g.ring;
        none_dropped = g.undropped;
      })

stop-stopped : (h : Hook) → h.active ≡ false → stop h ≡ h
unfolding stop
stop-stopped h a = simp a

record_event-stopped :
    (c : Config) (e : Event) (h : Hook) → h.active ≡ false → record_event c e h ≡ h
unfolding record_event
record_event-stopped c e h a = simp a

record_event-limit :
    (c : Config) (e : Event) (h : Hook)
    → h.active ≡ true
    → c.instrumentation.max_events ≤ h.event_count
    → record_event c e h ≡ stop h
unfolding record_event
record_event-limit c e h a over =
    let at_limit : leb c.instrumentation.max_events h.event_count ≡ true = ground arith in
    simp (a, at_limit)

-- The events of a run, one `record_event` after the other.
abbrev pub record_all : Config → List Event → Hook → Hook
record_all c [] h = h
record_all c (e ∷ es) h = record_all c es (record_event c e h)

record_all-stopped :
    (c : Config) (es : List Event) (h : Hook) → h.active ≡ false → record_all c es h ≡ h
record_all-stopped c [] h a = refl
record_all-stopped c (e ∷ es) h a = rw (record_event-stopped c e h a) (record_all-stopped c es h a)

-- The events behind one that was just stored, once more as those behind the ones before it.
regroup :
    (xs ys zs : List Event) (e : Event) (es : List Event) (m n k : ℕ)
    → xs ≡ ys ++ (zs ++ e ∷ [])
    → n ≡ k + 1
    → k < m
    → xs ++ take (m - n) es ≡ (ys ++ zs) ++ take (m - k) (e ∷ es)
regroup xs ys zs e es m n k split one below =
    ap₂ (λ a b. a ++ take b es) (split ∙ sym (append_assoc ys zs (e ∷ [])))
      (let rest : m - n ≡ m - k - 1 = omega arith in rest)
    ∙ append_assoc (ys ++ zs) (e ∷ []) (take (m - k - 1) es)
    ∙ ap (◌++◌ (ys ++ zs)) (sym (take-cons (m - k) e es (omega arith)))

record_all-Closed :
    (c : Config) (es : List Event) (h : Hook) (ys zs : List Event)
    → c.output.write_to_file ≡ true
    → c.instrumentation.max_events ≤ 100000000
    → Logged c h ys zs
    → Closed
        (stop (record_all c es h))
        ((ys ++ zs) ++ take (c.instrumentation.max_events - h.event_count) es)
record_all-Closed c [] h ys zs to_file most g =
    rw (take-nil {A = Event}, append-nil) (stop-Closed c h ys zs g)
record_all-Closed c (e ∷ es) h ys zs to_file most g =
    elim (dec_lt h.event_count c.instrumentation.max_events) [
      | yes below ↦
          let r = record_event-below c e h ys zs to_file most below g in
          subst (Closed (stop (record_all c es (record_event c e h))))
            (regroup (r.0.0 ++ r.0.1) ys zs e es c.instrumentation.max_events _ h.event_count r.0.2
              r.1 below)
            (record_all-Closed c es (record_event c e h) r.0.0 r.0.1 to_file most r.0.3)
      | no over ↦
          let done = stop-Closed c h ys zs g in
          rw
            (
              take-eq-nil (c.instrumentation.max_events - h.event_count) (e ∷ es) (omega arith),
              append-nil,
              record_event-limit c e h g.running (omega arith),
              record_all-stopped c es (stop h) done.stopped,
              stop-stopped (stop h) done.stopped,
            )
            done
    ]

-- The state right after `start` opened the file.
abbrev pub started : Hook → Hook
started h = record h {
  active = true;
  event_count = 0;
  write_pos = 0;
  read_pos = 0;
  dropped_events = 0;
  output_file = true;
  written = trace_header;
}

pub start_with-started :
    (c : Config) (h : Hook)
    → (c.instrumentation.enable_op_timing || c.instrumentation.enable_memory_tracking) ≡ true
    → c.output.write_to_file ≡ true
    → h.active ≡ false
    → start_with c true h ≡ started h
unfolding start_with open_file clear_counters
start_with-started c h enabled to_file idle =
    let disabled : (not c.instrumentation.enable_op_timing
          && not c.instrumentation.enable_memory_tracking)
        ≡ false =
      ground arith in
    simp (disabled, idle, to_file)

pub started-Logged : (c : Config) (h : Hook) → Logged c (started h) [] []
unfolding copy encode_events
started-Logged c h = record {
  running = refl;
  opened = refl;
  in_file = sym (append-nil trace_header);
  ring = record { kept = refl; counted = omega arith; room = omega arith; small = omega arith };
  read = refl;
  count = refl;
  undropped = refl;
  recent = omega arith;
  limit = omega arith;
}

-- A trace of any events, started with file output while the hook was idle and stopped at the end:
-- the file holds the header and the events in order, up to the limit `max_events` (at most
-- 100000000, as validation demands), nothing is dropped, and the hook is idle with the file closed.
pub record_all-start-stop :
    (c : Config) (es : List Event) (h : Hook)
    → (c.instrumentation.enable_op_timing || c.instrumentation.enable_memory_tracking) ≡ true
    → c.output.write_to_file ≡ true
    → c.instrumentation.max_events ≤ 100000000
    → h.active ≡ false
    → Closed (stop (record_all c es (start_with c true h))) (take c.instrumentation.max_events es)
record_all-start-stop c es h enabled to_file most idle =
    rw (start_with-started c h enabled to_file idle) (
      subst (λ n. Closed (stop (record_all c es (started h))) (take n es))
        (let all : c.instrumentation.max_events - 0 ≡ c.instrumentation.max_events = omega arith in
          all)
        (record_all-Closed c es (started h) [] [] to_file most (started-Logged c h)))

All-take : (P : Event → Type 0) (n : ℕ) (es : List Event) → All P es → All P (take n es)
All-take P zero es h = tt
All-take P (suc n) [] h = tt
All-take P (suc n) (e ∷ es) h = (h.0, All-take P n es h.1)

-- A trace of any events, started with file output while the hook was idle and stopped at the end, opens
-- as a valid trace, and the reader returns the very events that were recorded, up to the limit
-- `max_events`. The configuration times operations or tracks memory, its limit is at most 100000000, and
-- every event fits its C++ types.
pub open_trace-record_all :
    (c : Config) (es : List Event) (h : Hook)
    → (c.instrumentation.enable_op_timing || c.instrumentation.enable_memory_tracking) ≡ true
    → c.output.write_to_file ≡ true
    → c.instrumentation.max_events ≤ 100000000
    → h.active ≡ false
    → All Fits es
    → open_trace (some (stop (record_all c es (start_with c true h))).written)
      ≡ valid (events (take c.instrumentation.max_events es))
open_trace-record_all c es h enabled to_file most idle fits =
    rw (record_all-start-stop c es h enabled to_file most idle).file
      (open_trace-encode_events _ (All-take Fits c.instrumentation.max_events es fits))
