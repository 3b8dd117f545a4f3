-- ===== src/Server/ClientTests.antt =====
-- A client that asks for the status of the server.
use ggml_viz.Base.{◌≡◌, refl, true, false, [], ◌∷◌, arith, some}
use ggml_viz.Server.Clients.{
  Client, accepted, Server, Net, client_step, status, start_server, get_status, begin, later,
  fetch_add, receive, answer, starts_with, send, status_of, starting, accepting, serving,
}
use ggml_viz.Server.Stream.{get_queue_size}
use ggml_viz.Server.Counting.{IsCounted, reach-IsCounted}

abbrev new_server : Server
new_server = record {
  server_running = false;
  collector_running = false;
  event_queue = [];
  connected_clients = 0;
  sent = [];
}

abbrev asks : Net
asks = record { request = some (get_status); send_succeeds = true }

abbrev started : Server
started = start_server new_server

abbrev counted_one : Server
counted_one = (client_step asks started accepted).0

abbrev answered_one : Server × Client
answered_one = client_step asks counted_one (client_step asks started accepted).1

-- It counts itself.
answered : answered_one.0.sent ≡ status 1 0 ∷ []
unfolding client_step start_server fetch_add receive answer starts_with send status_of
    get_queue_size
answered = refl

reach-IsCounted_example : IsCounted answered_one.0 (answered_one.1 ∷ [])
reach-IsCounted_example =
    reach-IsCounted (new_server, []) (answered_one.0, answered_one.1 ∷ []) (omega arith)
      (record { counted = refl; short = omega arith; plausible = tt })
      (later {s1 = (counted_one, (client_step asks started accepted).1 ∷ [])}
        (later {s1 = (started, accepted ∷ [])}
          (later {s1 = (started, [])} (later {s1 = (new_server, [])} begin (starting new_server []))
            (accepting started []))
          (serving asks started [] [] accepted))
        (serving asks counted_one [] [] (client_step asks started accepted).1))
