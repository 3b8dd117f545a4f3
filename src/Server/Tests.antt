-- ===== src/Server/Tests.antt =====
-- Clients take twelve events and more.
use ggml_viz.Base.{ℕ, ◌≡◌, refl, List, [], ◌∷◌, ◌++◌, arith, none}
use ggml_viz.Event.{Event, op_compute_begin, op_payload}
use ggml_viz.Server.Stream.{limit_queue, handle_new_events, next_batch, next_batch_from}
use ggml_viz.Server.Order.{
  Sublist, Step, arrives, takes, serve, arrived, serve-arrived, serve-arrived_all,
}

abbrev at : ℕ → Event
at now = record {
  type = op_compute_begin;
  timestamp_ns = now;
  thread_id = 1;
  payload = op_payload 4096 26 64 0;
  label = none;
}

abbrev twelve : List Event
twelve = at 1 ∷ at 2 ∷ at 3 ∷ at 4 ∷ at 5 ∷ at 6 ∷ at 7 ∷ at 8 ∷ at 9 ∷ at 10 ∷ at 11 ∷ at 12 ∷ []

abbrev steps : List Step
steps = arrives twelve ∷ takes ∷ arrives (at 13 ∷ []) ∷ takes ∷ arrives (at 14 ∷ []) ∷ []

serve-steps : serve steps [] ≡ (twelve ++ at 13 ∷ [], at 14 ∷ [])
unfolding limit_queue handle_new_events next_batch next_batch_from
serve-steps = refl

serve-arrived_example : Sublist ((serve steps []).0 ++ (serve steps []).1) ([] ++ arrived steps)
serve-arrived_example = serve-arrived steps []

steps_lose_nothing : (serve steps []).0 ++ (serve steps []).1 ≡ [] ++ arrived steps
steps_lose_nothing = serve-arrived_all steps [] (omega arith)
