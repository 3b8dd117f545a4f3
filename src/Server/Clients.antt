-- ===== src/Server/Clients.antt =====
-- LiveStreamServer and its clients' threads (server/live_data_collector.hpp).
use ggml_viz.Base.{
  ℕ, ◌+◌, ◌-◌, ◌%◌, ◌^◌, ◌&&◌, Bool, true, false, List, [], ◌∷◌, ◌++◌, Option, none, some,
  if◌then◌else◌, ◌==◌,
}
use ggml_viz.Event.{Event}
use ggml_viz.Hook.Defs.{Hook}
use ggml_viz.Server.Stream.{collect, next_batch, get_queue_size}

-- What a client is sent. `status` holds the number of clients and the length of the queue.
pub data Message : Type 0 where
  stream_headers dashboard : Message
  status : ℕ → ℕ → Message
  event : Event → Message

-- Where a client's thread stands. `streaming` holds what is left of its batch.
pub data Client : Type 0 where
  accepted reading closing finished : Client
  streaming : List Event → Client

-- `sent` is what all clients have been sent, the latest first.
pub record Server : Type 0 where
  pub server_running : Bool
  pub collector_running : Bool
  pub event_queue : List Event
  pub connected_clients : ℕ
  pub sent : List Message

-- LiveStreamServer::start and stop. The threads of clients are not waited for.
unfoldable pub start_server : Server → Server
start_server s =
    if s.server_running then s else record s { server_running = true; collector_running = true }

unfoldable pub stop_server : Server → Server
stop_server s =
    if s.server_running then record s { server_running = false; collector_running = false } else s

-- One round of the collector's thread.
unfoldable pub collector_round : Hook → Server → Server
collector_round h s =
    let (h1, queue) = collect h s.event_queue in
    if s.collector_running then record s { event_queue = queue } else s

unfoldable pub fetch_add : Server → Server
fetch_add s = record s { connected_clients = (s.connected_clients + 1) % 2 ^ 64 }

unfoldable pub fetch_sub : Server → Server
fetch_sub s = record s { connected_clients = (s.connected_clients + 2 ^ 64 - 1) % 2 ^ 64 }

unfoldable pub client_count : Server → ℕ
client_count s = s.connected_clients

unfoldable pub send : Message → Server → Server
send m s = record s { sent = m ∷ s.sent }

-- `request.find(text) == 0`
unfoldable pub starts_with : List ℕ → List ℕ → Bool
starts_with [] request = true
starts_with (c ∷ cs) [] = false
starts_with (c ∷ cs) (d ∷ ds) = c == d && starts_with cs ds

-- "GET /events"
abbrev pub get_events : List ℕ
get_events = b'G' ∷ b'E' ∷ b'T' ∷ 32 ∷ b'/' ∷ b'e' ∷ b'v' ∷ b'e' ∷ b'n' ∷ b't' ∷ b's' ∷ []

-- "GET /status"
abbrev pub get_status : List ℕ
get_status = b'G' ∷ b'E' ∷ b'T' ∷ 32 ∷ b'/' ∷ b's' ∷ b't' ∷ b'a' ∷ b't' ∷ b'u' ∷ b's' ∷ []

unfoldable pub status_of : Server → Message
status_of s = status s.connected_clients (get_queue_size s.event_queue)

unfoldable pub answer : List ℕ → Server → Server × Client
answer request s =
    if starts_with get_events request
    then (send stream_headers s, streaming [])
    else if starts_with get_status request
    then (send (status_of s) s, closing)
    else (send dashboard s, closing)

-- What recv returns, `none` for an error or a connection that is closed, and whether send succeeds.
pub record Net : Type 0 where
  pub request : Option (List ℕ)
  pub send_succeeds : Bool

unfoldable pub receive : Option (List ℕ) → Server → Server × Client
receive none s = (s, closing)
receive (some request) s = answer request s

-- The next batch, or the end of the loop.
unfoldable pub fill_batch : Server → Server × Client
fill_batch s =
    let (batch, queue) = next_batch s.event_queue in
    if s.server_running then (record s { event_queue = queue }, streaming batch) else (s, closing)

-- One step of handle_client and stream_events_to_client. A send that fails ends the stream, with what
-- is left of the batch.
unfoldable pub client_step : Net → Server → Client → Server × Client
client_step n s accepted = (fetch_add s, reading)
client_step n s reading = receive n.request s
client_step n s (streaming []) = fill_batch s
client_step n s (streaming (e ∷ es)) =
    if n.send_succeeds then (send (event e) s, streaming es) else (s, closing)
client_step n s closing = (fetch_sub s, finished)
client_step n s finished = (s, finished)

-- The threads of the clients, of the collector and of the user take their steps in any order.
pub data Step : Server × List Client → Server × List Client → Type 0 where
  starting : (s : Server) (cs : List Client) → Step (s, cs) (start_server s, cs)
  stopping : (s : Server) (cs : List Client) → Step (s, cs) (stop_server s, cs)
  collecting : (h : Hook) (s : Server) (cs : List Client) → Step (s, cs) (collector_round h s, cs)
  accepting : (s : Server) (cs : List Client) → Step (s, cs) (s, cs ++ (accepted ∷ []))
  serving :
      (n : Net) (s : Server) (before after : List Client) (c : Client)
      → Step
          (s, before ++ (c ∷ after))
          ((client_step n s c).0, before ++ ((client_step n s c).1 ∷ after))

pub data Reach (s : Server × List Client) : Server × List Client → Type 0 where
  begin : Reach s s
  later : {s1 s2 : Server × List Client} → Reach s s1 → Step s1 s2 → Reach s s2
