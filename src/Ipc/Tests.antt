-- ===== src/Ipc/Tests.antt =====
-- A ring of eight bytes: six written, four read, five written across the end, and a write refused.
use ggml_viz.Base.{
  ℕ, ◌<◌, ◌++◌, length, take, ◌+◌, ◌-◌, ◌≡◌, ◌^◌, refl, true, false, List, [], ◌∷◌, arith,
}
use ggml_viz.Ipc.Defs.{
  Ring, available_space, available_data, create_impl, mapped, write, read, mask, offset, read_bytes,
  write_bytes, set_byte,
}
use ggml_viz.Ipc.Queue.{
  Holds, Call, writes, reads, run, run_queue, created, created-Holds, all_succeed,
  shared_ring_refines, create_impl-run, available_space-available_data,
}
use ggml_viz.Ipc.Steps.{
  Writer, Reader, begin_write, copy_byte, publish, begin_read, fetch_byte, Shared, by_writer,
  by_reader, quiet, Reach, start, later,
}
use ggml_viz.Ipc.Interleave.{got_of, interleaving_order}
use ggml_viz.Ipc.Drain.{all_received}

abbrev garbage : Ring
garbage = record { head = 7; tail = 3; capacity = 5; base = λ j. j + 100 }

abbrev fresh : Ring
fresh = created 3 garbage

abbrev wrapping : List Call
wrapping =
    writes (1 ∷ 2 ∷ 3 ∷ 4 ∷ 5 ∷ 6 ∷ [])
    ∷ reads 4
    ∷ writes (7 ∷ 8 ∷ 9 ∷ 10 ∷ 11 ∷ [])
    ∷ writes (12 ∷ [])
    ∷ reads 7
    ∷ []

run-wrapping :
    (run wrapping fresh).0
    ≡ (true, [])
      ∷ (true, 1 ∷ 2 ∷ 3 ∷ 4 ∷ [])
      ∷ (true, [])
      ∷ (false, [])
      ∷ (true, 5 ∷ 6 ∷ 7 ∷ 8 ∷ 9 ∷ 10 ∷ 11 ∷ [])
      ∷ []
unfolding write read available_space mask available_data offset read_bytes write_bytes set_byte
run-wrapping = refl

shared_ring_refines_example :
    ((run wrapping fresh).0 ≡ (run_queue 3 wrapping []).0)
    × Holds 3 (run wrapping fresh).1 (run_queue 3 wrapping []).1
shared_ring_refines_example =
    shared_ring_refines 3 wrapping fresh [] (created-Holds 3 garbage (omega arith))

created_ring_refines :
    (r : Ring) × (create_impl all_succeed (2 ^ 3) true garbage ≡ mapped r)
    × ((run wrapping r).0 ≡ (run_queue 3 wrapping []).0)
created_ring_refines = create_impl-run 3 wrapping garbage (omega arith)

fresh_adds_up : available_space fresh + available_data fresh ≡ 2 ^ 3 - 1
fresh_adds_up = available_space-available_data 3 fresh [] (created-Holds 3 garbage (omega arith))

-- A writer that has published one byte, and has copied one of two more when the reader fetches.
abbrev one_sent : Shared
one_sent = record {
  ring = record fresh { base = set_byte fresh.base 0 1; head = 1 };
  writer = Writer.waiting;
  reader = Reader.waiting;
  sent = 1 ∷ [];
  received = [];
}

one_sent-Reach : Reach (quiet fresh) one_sent
unfolding mask offset available_space
one_sent-Reach =
    later
      (later (later start (by_writer (begin_write (1 ∷ []) (omega arith)))) (by_writer copy_byte))
      (by_writer publish)

abbrev overlapping : Shared
overlapping = record one_sent {
  ring = record one_sent.ring { base = set_byte (set_byte fresh.base 0 1) 1 2 };
  writer = Writer.copying 1 (2 ∷ []) (3 ∷ []);
  reader = Reader.copying 0 (1 ∷ []) 0;
}

overlapping-Reach : Reach (quiet fresh) overlapping
unfolding mask offset available_space available_data set_byte
overlapping-Reach =
    later
      (later
        (later (later one_sent-Reach (by_reader (begin_read 1 (omega arith))))
          (by_writer (begin_write (2 ∷ 3 ∷ []) (omega arith))))
        (by_writer copy_byte))
      (by_reader fetch_byte)

interleaving_order_example :
    (q : List ℕ) × (overlapping.sent ≡ overlapping.received ++ q)
    × (got_of overlapping.reader ≡ take (length (got_of overlapping.reader)) q)
    × (length q < 2 ^ 3)
interleaving_order_example =
    interleaving_order 3 garbage overlapping (omega arith) overlapping-Reach

all_received_example :
    (t : Shared) × Reach overlapping t
    × (t.received ≡ overlapping.sent)
    × (t.sent ≡ overlapping.sent)
all_received_example = all_received 3 garbage overlapping (omega arith) overlapping-Reach
