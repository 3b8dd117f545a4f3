-- ===== src/Ipc/Releases.antt =====
-- The invariant of the shared ring is kept by the reader (ipc/shm_posix.cpp).
use ggml_viz.Base.{
  ℕ, suc, ◌+◌, ◌%◌, ◌^◌, ◌≤◌, ◌<◌, ◌≡◌, refl, sym, ap, ap₂, subst, ◌∙◌, List, [], ◌∷◌, ◌++◌, arith,
  append-nil, length, length-append, length-drop, take, drop, take-append-drop, drop_more,
}
use ggml_viz.Ipc.Defs.{Ring, mask, offset}
use ggml_viz.Ipc.Window.{window, window-add, offset-mod}
use ggml_viz.Ipc.Queue.{
  Holds, mask-pow, available_data-length, consumed, consumed-Holds, take-window,
}
use ggml_viz.Ipc.Steps.{Writer, Reader, ReadMove, begin_read, fetch_byte, release}
use ggml_viz.Ipc.Invariant.{
  done_of, WritesAt, ReadsAt, ahead, Inv, Inv-Holds, WritesAt-tail, Inv-reader,
}

take_next :
    (k m : ℕ) (r : Ring) (q : List ℕ)
    → Holds k r q
    → m < length q
    → take m q ++ r.base ((r.tail + m) % 2 ^ k) ∷ [] ≡ take (m + 1) q
unfolding window
take_next k m r q h below =
    ap (λ l. l ++ r.base ((r.tail + m) % 2 ^ k) ∷ []) (sym (take-window k m r q h (omega arith)))
    ∙ sym (window-add (2 ^ k) r.base r.tail m 1)
    ∙ take-window k (m + 1) r q h (omega arith)

pub fetch_byte-ReadsAt :
    (k : ℕ) (r : Ring) (q got : List ℕ) (n tail : ℕ)
    → Holds k r q
    → ReadsAt r q (Reader.copying tail got (suc n))
    → ReadsAt r q (Reader.copying tail (got ++ r.base (offset (mask r) tail (length got)) ∷ []) n)
fetch_byte-ReadsAt k r q got n tail h a =
    let at : offset (mask r) tail (length got) ≡ (r.tail + length got) % 2 ^ k =
      ap₂ (λ m t. offset m t (length got)) (mask-pow k r q h) a.0
      ∙ offset-mod k r.tail (length got) (omega (arith, h.narrow, h.inside, h.room, a.1)) in
    let grown = length-append got (r.base (offset (mask r) tail (length got)) ∷ []) in
    (
      a.0,
      omega (arith, grown, a.1),
      ap₂ (λ l j. l ++ r.base j ∷ []) a.2 at
          ∙ take_next k (length got) r q h (omega (arith, a.1))
          ∙ ap (λ m. take m q) (omega (arith, grown)),
    )

pub ahead-Holds : (k : ℕ) (r : Ring) (xs : List ℕ) → Holds k r xs → Holds k (ahead k r xs) xs
ahead-Holds k r xs h = record {
  power = h.power;
  narrow = h.narrow;
  inside = h.inside;
  at_end = refl;
  room = h.room;
  kept = h.kept;
}

consumed-Inv :
    (k n : ℕ) (r : Ring) (w : Writer) (d : Reader) (q : List ℕ)
    → n ≤ length q
    → WritesAt r w
    → Inv k r w d q
    → Inv k (consumed k n r) w Reader.waiting (drop n q)
consumed-Inv k n r w d q low at v = record {
  at_end = (consumed-Holds k n r q (Inv-Holds k r w d q v) low).at_end;
  room = omega (arith, v.room, length-drop n q);
  whole =
      subst (λ xs. Holds k (ahead k (consumed k n r) xs) xs) (drop_more n q (done_of w) low)
        (ahead-Holds k _ _ (
          consumed-Holds k n (ahead k r (q ++ done_of w)) (q ++ done_of w) v.whole
            (omega (arith, length-append q (done_of w)))));
  writing = WritesAt-tail r (consumed k n r).tail w at;
  reading = tt;
}

release-Inv :
    (k : ℕ) (r : Ring) (w : Writer) (tail : ℕ) (got q : List ℕ)
    → Inv k r w (Reader.copying tail got 0) q
    → Inv k
        (record r { tail = offset (mask r) tail (length got) % 2 ^ 32 })
        w
        Reader.waiting
        (drop (length got) q)
release-Inv k r w tail got q v =
    subst (λ t. Inv k (record r { tail = t }) w Reader.waiting (drop (length got) q))
      (ap₂ (λ m t. offset m t (length got) % 2 ^ 32) (sym (mask-pow k r q (Inv-Holds k r w _ q v)))
        (sym v.reading.0))
      (consumed-Inv k (length got) r w _ q (omega (arith, v.reading.1)) v.writing v)

-- A step of the reader keeps the invariant, and what it hands out is the front of the queue.
pub ReadMove-Inv :
    (k : ℕ) {r r1 : Ring} {d d1 : Reader} {received received1 : List ℕ} (w : Writer) (q : List ℕ)
    → ReadMove r d received r1 d1 received1
    → Inv k r w d q
    → (p : List ℕ) × (q1 : List ℕ) × (received1 ≡ received ++ p) × (q ≡ p ++ q1) × Inv k r1 w d1 q1
ReadMove-Inv k w q (begin_read {r} {received} n fits) v = (
  [],
  q,
  sym (append-nil received),
  refl,
  Inv-reader k r w Reader.waiting _ q
      (refl, omega (arith, fits, available_data-length k r q (Inv-Holds k r w _ q v)), refl) v,
)
ReadMove-Inv k w q (fetch_byte {r} {received} {tail} {got} {n}) v = (
  [],
  q,
  sym (append-nil received),
  refl,
  Inv-reader k r w _ _ q (fetch_byte-ReadsAt k r q got n tail (Inv-Holds k r w _ q v) v.reading) v,
)
ReadMove-Inv k w q (release {r} {received} {tail} {got}) v = (
  got,
  drop (length got) q,
  refl,
  sym (ap (λ l. l ++ drop (length got) q) v.reading.2 ∙ take-append-drop (length got) q),
  release-Inv k r w tail got q v,
)
