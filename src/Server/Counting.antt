-- ===== src/Server/Counting.antt =====
-- The number of clients that LiveStreamServer reports (server/live_data_collector.hpp).
use ggml_viz.Base.{
  ℕ, ◌+◌, ◌-◌, ◌%◌, ◌^◌, ◌≤◌, ◌<◌, ◌≡◌, sym, ap, ◌∙◌, not, List, [], ◌∷◌, ◌++◌, Option, none, some,
  if-cases, length, length-append, length-drop, All, arith, ltb,
}
use ggml_viz.Event.{Event}
use ggml_viz.Hook.Defs.{Hook, consume_available_events}
use ggml_viz.Server.Stream.{limit_queue, handle_new_events, collect, next_batch, get_queue_size}
use ggml_viz.Server.Order.{limit_queue-drop, next_batch_from-take}
use ggml_viz.Server.Clients.{
  Message, status, Client, accepted, reading, closing, finished, streaming, Server, start_server,
  stop_server, collector_round, fetch_add, fetch_sub, send, starts_with, get_events, get_status,
  status_of, answer, Net, receive, fill_batch, client_step, Step, starting, stopping, collecting,
  accepting, serving, Reach, begin, later,
}

-- Whether a client's thread has been counted and not yet counted off.
abbrev pub served : Client → ℕ
served accepted = 0
served reading = 1
served (streaming es) = 1
served closing = 1
served finished = 0

abbrev pub number_served : List Client → ℕ
number_served [] = 0
number_served (c ∷ cs) = served c + number_served cs

-- A status answer counts the client that asks, and the queue is never longer than its limit.
abbrev pub IsPlausible : Message → Type 0
IsPlausible (status clients queued) = (1 ≤ clients) × (queued ≤ 10000)
IsPlausible m = Unit

pub record IsCounted (s : Server) (cs : List Client) : Type 0 where
  pub counted : s.connected_clients ≡ number_served cs
  pub short : length s.event_queue ≤ 10000
  pub plausible : All IsPlausible s.sent

number_served-append :
    (xs ys : List Client) → number_served (xs ++ ys) ≡ number_served xs + number_served ys
number_served-append [] ys = omega arith
number_served-append (x ∷ xs) ys = omega (arith, number_served-append xs ys)

served-bound : (c : Client) → served c ≤ 1
served-bound accepted = omega arith
served-bound reading = omega arith
served-bound (streaming es) = omega arith
served-bound closing = omega arith
served-bound finished = omega arith

number_served-length : (cs : List Client) → number_served cs ≤ length cs
number_served-length [] = omega arith
number_served-length (c ∷ cs) = omega (arith, served-bound c, number_served-length cs)

length-limit_queue : (q : List Event) → length (limit_queue q) ≤ 10000
length-limit_queue q =
    omega (arith, ap length (limit_queue-drop q), length-drop (length q - 10000) q)

collect-short : (h : Hook) (q : List Event) → length q ≤ 10000 → length (collect h q).1 ≤ 10000
unfolding collect handle_new_events
collect-short h q short =
    if-cases (λ (r : Hook × List Event). length r.1 ≤ 10000) (not h.active) _ _ (λ e. short)
      (λ e.
        if-cases (λ (r : Hook × List Event). length r.1 ≤ 10000)
          (ltb 0 (length (consume_available_events h).0)) _ _
          (λ e1. length-limit_queue (q ++ (consume_available_events h).0)) (λ e1. short))

next_batch-short : (q : List Event) → length q ≤ 10000 → length (next_batch q).1 ≤ 10000
unfolding next_batch
next_batch-short q short =
    omega (arith, short, ap (λ r. length r.1) (next_batch_from-take 0 q), length-drop 10 q)

-- What one step of a client does to the count: with `others` for the other clients, who leave room.
record IsCountedBy (others : ℕ) (s : Server) (c : Client) : Type 0 where
  counted : s.connected_clients ≡ others + served c
  short : length s.event_queue ≤ 10000
  plausible : All IsPlausible s.sent

answer-IsCountedBy :
    (request : List ℕ) (others : ℕ) (s : Server)
    → IsCountedBy others s reading
    → IsCountedBy others (answer request s).0 (answer request s).1
unfolding answer send status_of get_queue_size
answer-IsCountedBy request others s v =
    let P : Server × Client → Type 0 = λ r. IsCountedBy others r.0 r.1 in
    if-cases P (starts_with get_events request) _ _
      (λ e. record { counted = v.counted; short = v.short; plausible = (tt, v.plausible) })
      (λ e.
        if-cases P (starts_with get_status request) _ _
          (λ e1. record {
            counted = v.counted;
            short = v.short;
            plausible = (((let c = v.counted in omega (arith, c)), v.short), v.plausible);
          })
          (λ e1. record { counted = v.counted; short = v.short; plausible = (tt, v.plausible) }))

fill_batch-IsCountedBy :
    (others : ℕ) (s : Server)
    → IsCountedBy others s (streaming [])
    → IsCountedBy others (fill_batch s).0 (fill_batch s).1
unfolding fill_batch
fill_batch-IsCountedBy others s v =
    if-cases (λ (r : Server × Client). IsCountedBy others r.0 r.1) s.server_running _ _
      (λ e. record {
        counted = v.counted;
        short = next_batch-short s.event_queue v.short;
        plausible = v.plausible;
      })
      (λ e. record { counted = v.counted; short = v.short; plausible = v.plausible })

receive-IsCountedBy :
    (request : Option (List ℕ)) (others : ℕ) (s : Server)
    → IsCountedBy others s reading
    → IsCountedBy others (receive request s).0 (receive request s).1
unfolding receive
receive-IsCountedBy none others s v = record {
  counted = v.counted;
  short = v.short;
  plausible = v.plausible;
}
receive-IsCountedBy (some request) others s v = answer-IsCountedBy request others s v

add_one : (n others : ℕ) → n ≡ others + 0 → others + 1 < 2 ^ 64 → (n + 1) % 2 ^ 64 ≡ others + 1
add_one n others e room = omega (arith, e, room)

take_one :
    (n others : ℕ) → n ≡ others + 1 → others + 1 < 2 ^ 64 → (n + 2 ^ 64 - 1) % 2 ^ 64 ≡ others + 0
take_one n others e room = omega (arith, e, room)

client_step-IsCountedBy :
    (n : Net) (others : ℕ) (s : Server) (c : Client)
    → others + 1 < 2 ^ 64
    → IsCountedBy others s c
    → IsCountedBy others (client_step n s c).0 (client_step n s c).1
unfolding client_step fetch_add fetch_sub send
client_step-IsCountedBy n others s accepted room v = record {
  counted = add_one s.connected_clients others v.counted room;
  short = v.short;
  plausible = v.plausible;
}
client_step-IsCountedBy n others s reading room v = receive-IsCountedBy n.request others s v
client_step-IsCountedBy n others s (streaming []) room v = fill_batch-IsCountedBy others s v
client_step-IsCountedBy n others s (streaming (e ∷ es)) room v =
    if-cases (λ (r : Server × Client). IsCountedBy others r.0 r.1) n.send_succeeds _ _
      (λ ok. record { counted = v.counted; short = v.short; plausible = (tt, v.plausible) })
      (λ ok. record { counted = v.counted; short = v.short; plausible = v.plausible })
client_step-IsCountedBy n others s closing room v = record {
  counted = take_one s.connected_clients others v.counted room;
  short = v.short;
  plausible = v.plausible;
}
client_step-IsCountedBy n others s finished room v = v

-- The other clients, when `c` is the one between `before` and `after`.
number_served-middle :
    (before after : List Client) (c : Client)
    → number_served (before ++ (c ∷ after)) ≡ number_served before + number_served after + served c
number_served-middle before after c = omega (arith, number_served-append before (c ∷ after))

serving-IsCounted :
    (n : Net) (s : Server) (before after : List Client) (c : Client)
    → length (before ++ (c ∷ after)) < 2 ^ 64
    → IsCounted s (before ++ (c ∷ after))
    → IsCounted (client_step n s c).0 (before ++ ((client_step n s c).1 ∷ after))
serving-IsCounted n s before after c few v =
    let others : ℕ = number_served before + number_served after in
    let w : IsCountedBy others (client_step n s c).0 (client_step n s c).1 =
      client_step-IsCountedBy n others s c
        (omega (
          arith,
          few,
          length-append before (c ∷ after),
          number_served-length before,
          number_served-length after,
        ))
        (record {
          counted = v.counted ∙ number_served-middle before after c;
          short = v.short;
          plausible = v.plausible;
        }) in
    record {
      counted = w.counted ∙ sym (number_served-middle before after (client_step n s c).1);
      short = w.short;
      plausible = w.plausible;
    }

start_server-IsCounted :
    (s : Server) (cs : List Client) → IsCounted s cs → IsCounted (start_server s) cs
unfolding start_server
start_server-IsCounted s cs v =
    if-cases (λ r. IsCounted r cs) s.server_running _ _ (λ e. v)
      (λ e. record { counted = v.counted; short = v.short; plausible = v.plausible })

stop_server-IsCounted :
    (s : Server) (cs : List Client) → IsCounted s cs → IsCounted (stop_server s) cs
unfolding stop_server
stop_server-IsCounted s cs v =
    if-cases (λ r. IsCounted r cs) s.server_running _ _
      (λ e. record { counted = v.counted; short = v.short; plausible = v.plausible }) (λ e. v)

collector_round-IsCounted :
    (h : Hook) (s : Server) (cs : List Client) → IsCounted s cs → IsCounted (collector_round h s) cs
unfolding collector_round
collector_round-IsCounted h s cs v =
    if-cases (λ r. IsCounted r cs) s.collector_running _ _
      (λ e. record {
        counted = v.counted;
        short = collect-short h s.event_queue v.short;
        plausible = v.plausible;
      })
      (λ e. v)

step-length : (x y : Server × List Client) → Step x y → length x.1 ≤ length y.1
step-length _ _ (starting s cs) = omega arith
step-length _ _ (stopping s cs) = omega arith
step-length _ _ (collecting h s cs) = omega arith
step-length _ _ (accepting s cs) = omega (arith, length-append cs (accepted ∷ []))
step-length _ _ (serving n s before after c) =
    omega (
      arith,
      length-append before (c ∷ after),
      length-append before ((client_step n s c).1 ∷ after),
    )

step-IsCounted :
    (x y : Server × List Client)
    → length x.1 < 2 ^ 64
    → IsCounted x.0 x.1
    → Step x y
    → IsCounted y.0 y.1
step-IsCounted _ _ few v (starting s cs) = start_server-IsCounted s cs v
step-IsCounted _ _ few v (stopping s cs) = stop_server-IsCounted s cs v
step-IsCounted _ _ few v (collecting h s cs) = collector_round-IsCounted h s cs v
step-IsCounted _ _ few v (accepting s cs) = record {
  counted = let c = v.counted in omega (arith, c, number_served-append cs (accepted ∷ []));
  short = v.short;
  plausible = v.plausible;
}
step-IsCounted _ _ few v (serving n s before after c) = serving-IsCounted n s before after c few v

-- From a server that counts its clients, as a new one does, whatever order clients, the collector
-- and calls of start and stop take their steps in: the number of clients is that of the threads that
-- are being served, whether their requests, streams and sends succeed or not; every status answer so
-- far counts at least its own client; the queue, also in these answers, has at most 10000 events.
-- Fewer than 2 ^ 64 clients are accepted in all.
pub reach-IsCounted :
    (x y : Server × List Client)
    → length y.1 < 2 ^ 64
    → IsCounted x.0 x.1
    → Reach x y
    → IsCounted y.0 y.1
reach-IsCounted x _ few v begin = v
reach-IsCounted x z few v (later {s1 = y} r move) =
    let fewer : length y.1 < 2 ^ 64 = omega (arith, few, step-length y z move) in
    step-IsCounted y z fewer (reach-IsCounted x y fewer v r) move
