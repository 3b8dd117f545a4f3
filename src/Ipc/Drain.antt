-- ===== src/Ipc/Drain.antt =====
-- The reader of the shared ring can always take what is published (ipc/shm_posix.cpp).
use ggml_viz.Base.{
  ℕ, zero, suc, ◌+◌, ◌%◌, ◌^◌, ◌≤◌, ◌≡◌, refl, sym, ap, ◌∙◌, List, [], ◌∷◌, ◌++◌, arith, length,
  length-append, take, take_all,
}
use ggml_viz.Ipc.Defs.{Ring, mask, offset}
use ggml_viz.Ipc.Queue.{Holds, created, available_data-length}
use ggml_viz.Ipc.Steps.{
  Reader, begin_read, fetch_byte, release, Shared, by_reader, quiet, Reach, start, later,
}
use ggml_viz.Ipc.Invariant.{ReadsAt, Inv-Holds}
use ggml_viz.Ipc.Releases.{fetch_byte-ReadsAt}
use ggml_viz.Ipc.Interleave.{Agrees, Reach-Agrees, created-Agrees}

Reach-trans : {s t u : Shared} → Reach s t → Reach t u → Reach s u
Reach-trans r start = r
Reach-trans r (later q st) = later (Reach-trans r q) st

-- The reader's loop runs to its end by its own steps.
fetch_all :
    (k : ℕ) (s : Shared) (q : List ℕ) (tail n : ℕ) (got : List ℕ)
    → Holds k s.ring q
    → ReadsAt s.ring q (Reader.copying tail got n)
    → (all : List ℕ) × (length all ≡ length got + n)
      × ReadsAt s.ring q (Reader.copying tail all 0)
      × Reach
          (record s { reader = Reader.copying tail got n })
          (record s { reader = Reader.copying tail all 0 })
fetch_all k s q tail zero got h a = (got, omega arith, a, start)
fetch_all k s q tail (suc n) got h a =
    let next = got ++ s.ring.base (offset (mask s.ring) tail (length got)) ∷ [] in
    let (all, count, at, r) =
      fetch_all k s q tail n next h (fetch_byte-ReadsAt k s.ring q got n tail h a) in
    (
      all,
      omega (
        arith,
        count,
        length-append got (s.ring.base (offset (mask s.ring) tail (length got)) ∷ []),
      ),
      at,
      Reach-trans (later start (by_reader fetch_byte)) r,
    )

-- A read under way comes to its end.
finish_read :
    (k : ℕ) (s : Shared) (q : List ℕ) (tail n : ℕ) (got : List ℕ)
    → Holds k s.ring q
    → ReadsAt s.ring q (Reader.copying tail got n)
    → (all : List ℕ) × (length all ≡ length got + n)
      × (all ≡ take (length all) q)
      × Reach
          (record s { reader = Reader.copying tail got n })
          (record s {
            ring = record s.ring { tail = offset (mask s.ring) tail (length all) % 2 ^ 32 };
            reader = Reader.waiting;
            received = s.received ++ all;
          })
finish_read k s q tail n got h a =
    let (all, count, at, r) = fetch_all k s q tail n got h a in
    (all, count, at.2, later r (by_reader release))

-- An idle reader can take all that is published.
drain_idle :
    (k : ℕ) (s : Shared)
    → Agrees k (record s { reader = Reader.waiting })
    → (t : Shared) × Reach (record s { reader = Reader.waiting }) t
      × (t.received ≡ s.sent)
      × (t.sent ≡ s.sent)
drain_idle k s a =
    let h = Inv-Holds k s.ring s.writer Reader.waiting a.queue a.held in
    let (all, count, at, r) =
      finish_read k s a.queue s.ring.tail (length a.queue) [] h (refl, omega arith, refl) in
    let whole : all ≡ a.queue = at ∙ take_all (length all) a.queue (omega (arith, count)) in
    (
      _,
      Reach-trans
          (later start (
            by_reader (
              begin_read (length a.queue)
                (omega (arith, available_data-length k s.ring a.queue h)))))
          r,
      ap (λ l. s.received ++ l) whole ∙ sym a.order,
      refl,
    )

drain :
    (k : ℕ) (s : Shared) (d : Reader)
    → Agrees k (record s { reader = d })
    → (t : Shared) × Reach (record s { reader = d }) t × (t.received ≡ s.sent) × (t.sent ≡ s.sent)
drain k s Reader.waiting a = drain_idle k s a
drain k s (Reader.copying tail got n) a =
    let h = Inv-Holds k s.ring s.writer _ a.queue a.held in
    let (all, count, at, r) = finish_read k s a.queue tail n got h a.held.reading in
    let (t, r1, same, kept) =
      drain_idle k
        (record s {
          ring = record s.ring { tail = offset (mask s.ring) tail (length all) % 2 ^ 32 };
          received = s.received ++ all;
        })
        (Reach-Agrees r a) in
    (t, Reach-trans r r1, same, kept)

-- No byte is stuck: from every state that the interleaved steps reach on such a ring, further steps
-- lead to one in which all that was published by then is handed out, and nothing else was
-- published.
pub all_received :
    (k : ℕ) (memory : Ring) (s : Shared)
    → 2 ^ k ≤ 2 ^ 31
    → Reach (quiet (created k memory)) s
    → (t : Shared) × Reach s t × (t.received ≡ s.sent) × (t.sent ≡ s.sent)
all_received k memory s narrow r =
    drain k s s.reader (Reach-Agrees r (created-Agrees k memory narrow))
