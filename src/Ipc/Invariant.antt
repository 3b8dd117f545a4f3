-- ===== src/Ipc/Invariant.antt =====
-- The invariant of the shared ring while both processes run (ipc/shm_posix.cpp), kept by the
-- writer.
use ggml_viz.Base.{
  ℕ, suc, ◌+◌, ◌%◌, ◌^◌, ◌≤◌, ◌<◌, ◌≡◌, refl, sym, ap, subst, ◌∙◌, List, [], ◌∷◌, ◌++◌, arith,
  append-nil, append_assoc, length, length-append, take, take-append, take_more,
}
use native.Mathlib.Nat.{mod-add-mod}
use ggml_viz.Ipc.Defs.{Ring, mask, offset, set_byte}
use ggml_viz.Ipc.Window.{window, offset-mod, window-set_byte_end}
use ggml_viz.Ipc.Queue.{
  Holds, mask-pow, head-lt, available_space-length, offset-position, take-window,
}
use ggml_viz.Ipc.Steps.{Writer, Reader, WriteMove, begin_write, copy_byte, publish}

-- The bytes that stand in the buffer behind the head, and those to come.
abbrev pub done_of : Writer → List ℕ
done_of Writer.waiting = []
done_of (Writer.copying head done left) = done

abbrev pub left_of : Writer → List ℕ
left_of Writer.waiting = []
left_of (Writer.copying head done left) = left

abbrev pub WritesAt : Ring → Writer → Type 0
WritesAt r Writer.waiting = Unit {0}
WritesAt r (Writer.copying head done left) = head ≡ r.head

abbrev pub ReadsAt : Ring → List ℕ → Reader → Type 0
ReadsAt r q Reader.waiting = Unit {0}
ReadsAt r q (Reader.copying tail got left) =
    (tail ≡ r.tail) × (length got + left ≤ length q) × (got ≡ take (length got) q)

-- The ring as if what is copied so far were published.
abbrev pub ahead : ℕ → Ring → List ℕ → Ring
ahead k r xs = record r { head = (r.tail + length xs) % 2 ^ k }

-- `q` is published and not yet released.
pub record Inv (k : ℕ) (r : Ring) (w : Writer) (d : Reader) (q : List ℕ) : Type 0 where
  pub at_end : r.head ≡ (r.tail + length q) % 2 ^ k
  pub room : length q + length (done_of w) + length (left_of w) < 2 ^ k
  pub whole : Holds k (ahead k r (q ++ done_of w)) (q ++ done_of w)
  pub writing : WritesAt r w
  pub reading : ReadsAt r q d

-- What is published is held.
pub Inv-Holds :
    (k : ℕ) (r : Ring) (w : Writer) (d : Reader) (q : List ℕ) → Inv k r w d q → Holds k r q
Inv-Holds k r w d q v = record {
  power = v.whole.power;
  narrow = v.whole.narrow;
  inside = v.whole.inside;
  at_end = v.at_end;
  room = omega (arith, v.room);
  kept =
      take-window k (length q) (ahead k r (q ++ done_of w)) (q ++ done_of w) v.whole
        (omega (arith, length-append q (done_of w)))
      ∙ take-append (length q) q (done_of w) refl;
}

-- The buffer behind the head, one byte further.
pub WritesAt-tail :
    (r : Ring) (t : ℕ) (w : Writer) → WritesAt r w → WritesAt (record r { tail = t }) w
WritesAt-tail r t Writer.waiting a = tt
WritesAt-tail r t (Writer.copying head done left) a = a

-- The same state of ring and writer with the reader somewhere else.
pub Inv-reader :
    (k : ℕ) (r : Ring) (w : Writer) (d d1 : Reader) (q : List ℕ)
    → ReadsAt r q d1
    → Inv k r w d q
    → Inv k r w d1 q
Inv-reader k r w d d1 q a v = record {
  at_end = v.at_end;
  room = v.room;
  whole = v.whole;
  writing = v.writing;
  reading = a;
}

copy_byte-Holds :
    (k : ℕ) (r : Ring) (xs : List ℕ) (x : ℕ)
    → Holds k (ahead k r xs) xs
    → length xs + 1 < 2 ^ k
    → Holds k
        (ahead k
          (record r { base = set_byte r.base ((r.tail + length xs) % 2 ^ k) x })
          (xs ++ x ∷ []))
        (xs ++ x ∷ [])
copy_byte-Holds k r xs x v fits = record {
  power = v.power;
  narrow = v.narrow;
  inside = v.inside;
  at_end = refl;
  room = omega (arith, length-append xs (x ∷ []));
  kept =
      ap (window (2 ^ k) _ r.tail) (
        let s : length (xs ++ x ∷ []) ≡ suc (length xs) =
          omega (arith, length-append xs (x ∷ [])) in
        s)
      ∙ window-set_byte_end (length xs) (2 ^ k) r.base r.tail x v.room
      ∙ ap (λ l. l ++ x ∷ []) v.kept;
}

-- Where the writer's loop stores its next byte.
copy_byte-offset :
    (k : ℕ) (r : Ring) (q done : List ℕ)
    → Holds k r q
    → length q + length done < 2 ^ k
    → offset (mask r) r.head (length done) ≡ (r.tail + length (q ++ done)) % 2 ^ k
copy_byte-offset k r q done h room =
    ap (λ m. offset m r.head (length done)) (mask-pow k r q h)
    ∙ offset-mod k r.head (length done) (omega (arith, h.narrow, head-lt k r q h))
    ∙ ap (λ j. (j + length done) % 2 ^ k) h.at_end
    ∙ mod-add-mod (r.tail + length q) (2 ^ k) (length done)
    ∙ ap (λ j. j % 2 ^ k) (omega (arith, length-append q done))

-- The head that `write` stores.
publish-head :
    (k : ℕ) (r : Ring) (q done : List ℕ)
    → Holds k r q
    → length q + length done < 2 ^ k
    → offset (mask r) r.head (length done) % 2 ^ 32 ≡ (r.tail + length (q ++ done)) % 2 ^ k
publish-head k r q done h room =
    ap (λ m. offset m r.head (length done) % 2 ^ 32) (mask-pow k r q h)
    ∙ offset-position k r.head (length done) (head-lt k r q h) (omega arith) h.narrow
    ∙ ap (λ j. (j + length done) % 2 ^ k) h.at_end
    ∙ mod-add-mod (r.tail + length q) (2 ^ k) (length done)
    ∙ ap (λ j. j % 2 ^ k) (omega (arith, length-append q done))

ReadsAt-more :
    (r : Ring) (h : ℕ) (base : ℕ → ℕ) (q p : List ℕ) (d : Reader)
    → ReadsAt r q d
    → ReadsAt (record r { head = h; base = base }) (q ++ p) d
ReadsAt-more r h base q p Reader.waiting a = tt
ReadsAt-more r h base q p (Reader.copying tail got left) a = (
  a.0,
  omega (arith, length-append q p, a.1),
  a.2 ∙ sym (take_more (length got) q p (omega (arith, a.1))),
)

ReadsAt-same :
    (r : Ring) (base : ℕ → ℕ) (q : List ℕ) (d : Reader)
    → ReadsAt r q d
    → ReadsAt (record r { base = base }) q d
ReadsAt-same r base q Reader.waiting a = tt
ReadsAt-same r base q (Reader.copying tail got left) a = a

copy_byte-Inv :
    (k : ℕ) (r : Ring) (head x : ℕ) (done left : List ℕ) (d : Reader) (q : List ℕ)
    → Inv k r (Writer.copying head done (x ∷ left)) d q
    → Inv k
        (record r { base = set_byte r.base (offset (mask r) head (length done)) x })
        (Writer.copying head (done ++ x ∷ []) left)
        d
        q
copy_byte-Inv k r head x done left d q v =
    let at : (r.tail + length (q ++ done)) % 2 ^ k ≡ offset (mask r) head (length done) = sym (
      ap (λ h. offset (mask r) h (length done)) v.writing
      ∙ copy_byte-offset k r q done (Inv-Holds k r _ d q v) (omega (arith, v.room))) in
    record {
      at_end = v.at_end;
      room = omega (arith, v.room, length-append done (x ∷ []));
      whole =
          subst
            (λ xs.
              Holds k
                (ahead k
                  (record r { base = set_byte r.base (offset (mask r) head (length done)) x }) xs)
                xs)
            (append_assoc q done (x ∷ []))
            (subst
              (λ j.
                Holds k (ahead k (record r { base = set_byte r.base j x }) ((q ++ done) ++ x ∷ []))
                  ((q ++ done) ++ x ∷ []))
              at
              (copy_byte-Holds k r (q ++ done) x v.whole
                (omega (arith, v.room, length-append q done))));
      writing = v.writing;
      reading =
          ReadsAt-same r (set_byte r.base (offset (mask r) head (length done)) x) q d v.reading;
    }

publish-Inv :
    (k : ℕ) (r : Ring) (head : ℕ) (done : List ℕ) (d : Reader) (q : List ℕ)
    → Inv k r (Writer.copying head done []) d q
    → Inv k
        (record r { head = offset (mask r) head (length done) % 2 ^ 32 })
        Writer.waiting
        d
        (q ++ done)
publish-Inv k r head done d q v = record {
  at_end =
      ap (λ h. offset (mask r) h (length done) % 2 ^ 32) v.writing
      ∙ publish-head k r q done (Inv-Holds k r _ d q v) (omega (arith, v.room));
  room = omega (arith, v.room, length-append q done);
  whole = subst (λ xs. Holds k (ahead k r xs) xs) (sym (append-nil (q ++ done))) v.whole;
  writing = tt;
  reading = ReadsAt-more r (offset (mask r) head (length done) % 2 ^ 32) r.base q done d v.reading;
}

no_more :
    (k : ℕ) (r : Ring) (w : Writer) (d : Reader) (q : List ℕ)
    → Inv k r w d q
    → Inv k r w d (q ++ [])
no_more k r w d q v = subst (Inv k r w d) (sym (append-nil q)) v

-- A step of the writer keeps the invariant, and what it publishes joins the queue.
pub WriteMove-Inv :
    (k : ℕ) {r r1 : Ring} {w w1 : Writer} {sent sent1 : List ℕ} (d : Reader) (q : List ℕ)
    → WriteMove r w sent r1 w1 sent1
    → Inv k r w d q
    → (p : List ℕ) × (sent1 ≡ sent ++ p) × Inv k r1 w1 d (q ++ p)
WriteMove-Inv k {r} {sent = sent} d q (begin_write bytes fits) v = (
  [],
  sym (append-nil sent),
  no_more k r (Writer.copying r.head [] bytes) d q (record {
    at_end = v.at_end;
    room =
        omega
          (arith, fits, v.room, available_space-length k r q (Inv-Holds k r Writer.waiting d q v));
    whole = v.whole;
    writing = refl;
    reading = v.reading;
  }),
)
WriteMove-Inv k {sent = sent} d q (copy_byte {r} {head} {done} {left} {x}) v =
    ([], sym (append-nil sent), no_more k _ _ d q (copy_byte-Inv k r head x done left d q v))
WriteMove-Inv k d q (publish {r} {head} {done}) v = (done, refl, publish-Inv k r head done d q v)
