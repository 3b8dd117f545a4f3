-- ===== src/Hook/Queue.antt =====
-- What a live viewer may rely on: the hook without a file (GGMLHook in ggml_hook.cpp) is a bounded
-- queue of 65535 events that drops what does not fit and counts it.
use ggml_viz.Base.{
  ℕ, ◌+◌, Bool, false, not, List, [], ◌∷◌, ◌++◌, leb, ◌==◌, if◌then◌else◌, length, drop,
}
use ggml_viz.Event.{Event}
use ggml_viz.Config.Defs.{Config}
use ggml_viz.Hook.Defs.{Hook, add64, up_to, record_event, consume_available_events, get_events_size}

-- A call of the producer or of the viewer.
pub data Call : Type 0 where
  records : Event → Call
  consumes : Call
  consumes_until : ℕ → Call

-- What each call returns, and the state at the end.
abbrev pub run : Config → List Call → Hook → List (List Event) × Hook
run c [] h = ([], h)
run c (records e ∷ calls) h = let (out, h') = run c calls (record_event c e h) in ([] ∷ out, h')
run c (consumes ∷ calls) h =
    let (events, h1) = consume_available_events h in
    let (out, h') = run c calls h1 in (events ∷ out, h')
run c (consumes_until t ∷ calls) h =
    let (events, h1) = get_events_size t h in let (out, h') = run c calls h1 in (events ∷ out, h')

-- The queue, whether the trace still runs, how many events were taken and how many dropped.
pub record Log : Type 0 where
  pub live : Bool
  pub queue : List Event
  pub taken : ℕ
  pub dropped : ℕ

unfoldable pub take_event : Config → Event → Log → Log
take_event c e q =
    if not q.live
    then q
    else if leb c.instrumentation.max_events q.taken
    then record q { live = false }
    else if length q.queue == 65535
    then record q { dropped = add64 q.dropped 1 }
    else record q { queue = q.queue ++ e ∷ []; taken = q.taken + 1 }

unfoldable pub give_all : Log → List Event × Log
give_all q = if not q.live then ([], q) else (q.queue, record q { queue = [] })

unfoldable pub give_until : ℕ → Log → List Event × Log
give_until t q =
    if not q.live
    then ([], q)
    else (up_to t q.queue, record q { queue = drop (length (up_to t q.queue)) q.queue })

abbrev pub run_log : Config → List Call → Log → List (List Event) × Log
run_log c [] q = ([], q)
run_log c (records e ∷ calls) q =
    let (out, q') = run_log c calls (take_event c e q) in ([] ∷ out, q')
run_log c (consumes ∷ calls) q =
    let (events, q1) = give_all q in let (out, q') = run_log c calls q1 in (events ∷ out, q')
run_log c (consumes_until t ∷ calls) q =
    let (events, q1) = give_until t q in let (out, q') = run_log c calls q1 in (events ∷ out, q')
