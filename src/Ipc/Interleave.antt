-- ===== src/Ipc/Interleave.antt =====
-- What the reader of the shared ring gets while the writer runs (ipc/shm_posix.cpp).
use ggml_viz.Base.{
  ℕ, ◌^◌, ◌≤◌, ◌<◌, ◌≡◌, refl, sym, ap, ◌∙◌, List, [], ◌++◌, arith, append_assoc, length, take,
}
use ggml_viz.Ipc.Defs.{Ring}
use ggml_viz.Ipc.Queue.{created, created-Holds}
use ggml_viz.Ipc.Steps.{Reader, Shared, Step, by_writer, by_reader, quiet, Reach, start, later}
use ggml_viz.Ipc.Invariant.{ReadsAt, Inv, WriteMove-Inv}
use ggml_viz.Ipc.Releases.{ahead-Holds, ReadMove-Inv}

-- The state of both processes around some queue.
pub record Agrees (k : ℕ) (s : Shared) : Type 0 where
  pub queue : List ℕ
  pub order : s.sent ≡ s.received ++ queue
  pub held : Inv k s.ring s.writer s.reader queue

Step-Agrees : {k : ℕ} {s t : Shared} → Step s t → Agrees k s → Agrees k t
Step-Agrees {k} {s} (by_writer mv) a =
    let (p, same, v) = WriteMove-Inv k s.reader a.queue mv a.held in
    record {
      queue = a.queue ++ p;
      order = same ∙ ap (λ l. l ++ p) a.order ∙ append_assoc s.received a.queue p;
      held = v;
    }
Step-Agrees {k} {s} (by_reader mv) a =
    let (p, q, same, split, v) = ReadMove-Inv k s.writer a.queue mv a.held in
    record {
      queue = q;
      order =
          a.order
          ∙ ap (λ l. s.received ++ l) split
          ∙ sym (append_assoc s.received p q)
          ∙ ap (λ l. l ++ q) (sym same);
      held = v;
    }

pub Reach-Agrees : {k : ℕ} {s t : Shared} → Reach s t → Agrees k s → Agrees k t
Reach-Agrees start a = a
Reach-Agrees (later r st) a = Step-Agrees st (Reach-Agrees r a)

pub created-Agrees : (k : ℕ) (memory : Ring) → 2 ^ k ≤ 2 ^ 31 → Agrees k (quiet (created k memory))
created-Agrees k memory narrow =
    let h = created-Holds k memory narrow in
    record {
      queue = [];
      order = refl;
      held = record {
        at_end = h.at_end;
        room = omega (arith, h.room);
        whole = ahead-Holds k (created k memory) [] h;
        writing = tt;
        reading = tt;
      };
    }

-- What the reader has fetched and not yet handed out.
abbrev pub got_of : Reader → List ℕ
got_of Reader.waiting = []
got_of (Reader.copying tail got left) = got

got-take :
    (r : Ring) (q : List ℕ) (d : Reader) → ReadsAt r q d → got_of d ≡ take (length (got_of d)) q
got-take r q Reader.waiting a = refl
got-take r q (Reader.copying tail got left) a = a.2

-- However the steps of one writer and one reader interleave on a fresh ring of 2 ^ k bytes (k at
-- most 31), at every moment the bytes handed out are a front part of the bytes published; what the
-- reader has fetched of a read that is not finished continues it; and fewer than 2 ^ k bytes are
-- published and not handed out. Each load and store of the header and each byte copied is a step.
pub interleaving_order :
    (k : ℕ) (memory : Ring) (s : Shared)
    → 2 ^ k ≤ 2 ^ 31
    → Reach (quiet (created k memory)) s
    → (q : List ℕ) × (s.sent ≡ s.received ++ q)
      × (got_of s.reader ≡ take (length (got_of s.reader)) q)
      × (length q < 2 ^ k)
interleaving_order k memory s narrow r =
    let a = Reach-Agrees r (created-Agrees k memory narrow) in
    (a.queue, a.order, got-take s.ring a.queue s.reader a.held.reading, omega (arith, a.held.room))
