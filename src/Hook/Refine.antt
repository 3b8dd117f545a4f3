-- ===== src/Hook/Refine.antt =====
-- The ring buffer of ggml_hook.cpp implements the queue of `Queue`.
use ggml_viz.Base.{
  ℕ, zero, suc, ◌+◌, ◌-◌, ◌≤◌, ◌≡◌, refl, sym, ap, ap₂, subst, ◌∙◌, true, false, not, ◌&&◌, ◌||◌,
  List, [], ◌∷◌, arith, length, length-drop, drop,
}
use ggml_viz.Event.{Event}
use ggml_viz.Config.Defs.{Config}
use ggml_viz.Hook.Defs.{
  Hook, add64, copy, close_file, stop, flush_if_due, push_event, record_event, clear_counters,
  start_with, consume_available_events, up_to, get_events_size,
}
use ggml_viz.Hook.Ring.{Holds, full_iff}
use ggml_viz.Hook.File.{pushed-Holds}
use ggml_viz.Hook.Queue.{
  Call, records, consumes, consumes_until, run, Log, take_event, give_all, give_until, run_log,
}

pub record Refines (c : Config) (h : Hook) (q : Log) : Type 0 where
  pub live : h.active ≡ q.live
  pub ring : Holds h q.queue
  pub taken : h.event_count ≡ q.taken
  pub position : h.write_pos ≡ h.event_count
  pub limit : h.event_count ≤ c.instrumentation.max_events
  pub dropped : h.dropped_events ≡ q.dropped
  pub no_file : h.output_file ≡ false

-- The part of the queue that a reader sees.
seen :
    (h : Hook) (zs : List Event)
    → Holds h zs
    → copy h.event_buffer h.read_pos (h.write_pos - h.read_pos) ≡ zs
seen h zs v =
    subst (λ n. copy h.event_buffer h.read_pos n ≡ zs)
      (let n : length zs ≡ h.write_pos - h.read_pos = omega arith in n) v.kept

drop-copy :
    (k n : ℕ) (buffer : ℕ → Event) (from : ℕ)
    → drop k (copy buffer from n) ≡ copy buffer (from + k) (n - k)
unfolding copy
drop-copy zero n buffer from =
    ap₂ (copy buffer) (let a : from ≡ from + 0 = omega arith in a)
      (let b : n ≡ n - 0 = omega arith in b)
drop-copy (suc k) zero buffer from =
    ap (copy buffer (from + suc k)) (let b : 0 ≡ 0 - suc k = omega arith in b)
drop-copy (suc k) (suc n) buffer from =
    drop-copy k n buffer (from + 1)
    ∙ ap₂ (copy buffer) (let a : from + 1 + k ≡ from + suc k = omega arith in a)
        (let b : n - k ≡ suc n - suc k = omega arith in b)

length-up_to-le : (t : ℕ) (es : List Event) → length (up_to t es) ≤ length es
unfolding up_to
length-up_to-le t [] = omega arith
length-up_to-le t (e ∷ es) = ground (arith, length-up_to-le t es)

nil_of_length : (es : List Event) → length es ≡ 0 → es ≡ []
nil_of_length [] h = refl
nil_of_length (e ∷ es) h = absurd (omega arith)

-- Reading `k` of the events leaves the rest.
read-Holds :
    (h : Hook) (zs : List Event) (k : ℕ)
    → Holds h zs
    → k ≤ length zs
    → Holds (record h { read_pos = add64 h.read_pos k }) (drop k zs)
read-Holds h zs k v le = record {
  kept =
      ap₂ (copy h.event_buffer) (let a : add64 h.read_pos k ≡ h.read_pos + k = omega arith in a)
        (length-drop k zs)
      ∙ sym (drop-copy k (length zs) h.event_buffer h.read_pos)
      ∙ ap (drop k) v.kept;
  counted = omega (arith, length-drop k zs);
  room = omega (arith, length-drop k zs);
  small = v.small;
}

record_event-Refines :
    (c : Config) (e : Event) (h : Hook) (q : Log)
    → c.output.write_to_file ≡ false
    → c.instrumentation.max_events ≤ 100000000
    → Refines c h q
    → Refines c (record_event c e h) (take_event c e q)
unfolding record_event push_event flush_if_due stop close_file take_event
record_event-Refines c e h q no_output most r =
    ground (arith, full_iff h q.queue r.ring, pushed-Holds e h q.queue r.ring)

consume-Refines :
    (c : Config) (h : Hook) (q : Log)
    → Refines c h q
    → ((consume_available_events h).0 ≡ (give_all q).0)
      × Refines c (consume_available_events h).1 (give_all q).1
unfolding consume_available_events give_all copy
consume-Refines c h q r = ground (arith, seen h q.queue r.ring, nil_of_length q.queue)

get_events_size-Refines :
    (c : Config) (t : ℕ) (h : Hook) (q : Log)
    → Refines c h q
    → ((get_events_size t h).0 ≡ (give_until t q).0)
      × Refines c (get_events_size t h).1 (give_until t q).1
unfolding get_events_size give_until
get_events_size-Refines c t h q r = rw (seen h q.queue r.ring) (
    ground
      (arith, read-Holds h q.queue (length (up_to t q.queue)) r.ring, length-up_to-le t q.queue))

-- `start` without file output, on an idle hook with no file, gives the empty queue.
pub start_with-Refines :
    (c : Config) (h : Hook)
    → (c.instrumentation.enable_op_timing || c.instrumentation.enable_memory_tracking) ≡ true
    → c.output.write_to_file ≡ false
    → h.active ≡ false
    → h.output_file ≡ false
    → Refines c (start_with c true h) (record { live = true; queue = []; taken = 0; dropped = 0 })
unfolding start_with clear_counters copy
start_with-Refines c h enabled no_output idle closed =
    let disabled : (not c.instrumentation.enable_op_timing
          && not c.instrumentation.enable_memory_tracking)
        ≡ false =
      ground arith in
    simp (disabled, idle, no_output)
      (record {
        live = refl;
        ring = record {
          kept = refl;
          counted = omega arith;
          room = omega arith;
          small = omega arith;
        };
        taken = refl;
        position = refl;
        limit = omega arith;
        dropped = refl;
        no_file = closed;
      })

-- Without file output and with a limit of at most 100000000 events, from a hook that agrees with a
-- queue (as a hook just started agrees with the empty one), no sequence of calls tells the two
-- apart: every consumer is handed the events that were accepted and not handed out before, oldest
-- first, and the hook ends in a state that holds what the queue holds, with the same number of
-- dropped events.
pub run-Refines :
    (c : Config) (calls : List Call) (h : Hook) (q : Log)
    → c.output.write_to_file ≡ false
    → c.instrumentation.max_events ≤ 100000000
    → Refines c h q
    → ((run c calls h).0 ≡ (run_log c calls q).0)
      × Refines c (run c calls h).1 (run_log c calls q).1
run-Refines c [] h q no_output most r = (refl, r)
run-Refines c (records e ∷ calls) h q no_output most r =
    let (same, r') =
      run-Refines c calls (record_event c e h) (take_event c e q) no_output most
        (record_event-Refines c e h q no_output most r) in
    (ap (λ out. [] ∷ out) same, r')
run-Refines c (consumes ∷ calls) h q no_output most r =
    let (given, r1) = consume-Refines c h q r in
    let (same, r') = run-Refines c calls _ _ no_output most r1 in (ap₂ ◌∷◌ given same, r')
run-Refines c (consumes_until t ∷ calls) h q no_output most r =
    let (given, r1) = get_events_size-Refines c t h q r in
    let (same, r') = run-Refines c calls _ _ no_output most r1 in (ap₂ ◌∷◌ given same, r')
