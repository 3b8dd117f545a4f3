-- ===== src/Ipc/Queue.antt =====
-- The shared-memory ring (ipc/shm_posix.cpp) as a bounded queue of bytes.
use ggml_viz.Base.{
  ℕ, ◌+◌, ◌-◌, ◌%◌, ◌^◌, ◌≤◌, ◌<◌, ◌≡◌, refl, sym, ap, ap₂, ◌∙◌, ◌⊎◌, inl, inr, Bool, true, false,
  List, [], ◌∷◌, ◌++◌, arith, length, length-append, take, drop, take-append, drop-append,
  length-drop, bit_and, bit_and-mask, ltb, if◌then◌else◌, dec_lt, pow-pos,
}
use native.Mathlib.Nat.{mod-eq_of_lt, mod-lt, mod-mod, mod-add-mod}
use ggml_viz.Ipc.Defs.{
  Os, mapped, create_impl, Ring, add32, sub32, mask, available_space, available_data, offset,
  write_bytes, read_bytes, write, read,
}
use ggml_viz.Ipc.Window.{
  window, length-window, wrap_once, window-congruent, window-add, offset-mod, read_bytes-window,
  write_bytes-window,
}

-- The ring holds the bytes `xs`, oldest first; its capacity is 2 ^ k, as RingHeader demands.
pub record Holds (k : ℕ) (r : Ring) (xs : List ℕ) : Type 0 where
  pub power : r.capacity ≡ 2 ^ k
  pub narrow : 2 ^ k ≤ 2 ^ 31
  pub inside : r.tail < 2 ^ k
  pub at_end : r.head ≡ (r.tail + length xs) % 2 ^ k
  pub room : length xs < 2 ^ k
  pub kept : window (2 ^ k) r.base r.tail (length xs) ≡ xs

pub mask-pow : (k : ℕ) (r : Ring) (xs : List ℕ) → Holds k r xs → mask r ≡ 2 ^ k - 1
unfolding mask
mask-pow k r xs v = rw v.power (omega (arith, v.narrow, v.room))

-- The head without the remainder: it wraps once at most.
head-cases :
    (n tail len head : ℕ)
    → tail < n
    → len < n
    → head ≡ (tail + len) % n
    → (head + n ≡ tail + len) ⊎ (head ≡ tail + len)
head-cases n tail len head t l e = elim (dec_lt (tail + len) n) [
  | yes low ↦ inr (e ∙ mod-eq_of_lt low)
  | no high ↦ inl (omega (arith, e, wrap_once n (tail + len) (omega arith) (omega arith)))
]

pub head-lt : (k : ℕ) (r : Ring) (xs : List ℕ) → Holds k r xs → r.head < 2 ^ k
head-lt k r xs v =
    omega (arith, v.at_end, mod-lt (r.tail + length xs) {m = 2 ^ k} (omega (arith, v.room)))

mod_of_once : (n a b : ℕ) → b < n → ((a ≡ b) ⊎ (a ≡ b + n)) → a % n ≡ b
mod_of_once n a b low (inl e) = ap (λ j. j % n) e ∙ mod-eq_of_lt low
mod_of_once n a b low (inr e) = wrap_once n a (omega arith) (omega arith) ∙ omega arith

data_once :
    (n tail len head : ℕ)
    → n ≤ 2 ^ 31
    → tail < n
    → len < n
    → head < n
    → ((head + n ≡ tail + len) ⊎ (head ≡ tail + len))
    → (sub32 (add32 head n) tail ≡ len) ⊎ (sub32 (add32 head n) tail ≡ len + n)
data_once n tail len head narrow t l h (inl e) = inl (omega arith)
data_once n tail len head narrow t l h (inr e) = inr (omega arith)

space_once :
    (n tail len head : ℕ)
    → n ≤ 2 ^ 31
    → tail < n
    → len < n
    → head < n
    → ((head + n ≡ tail + len) ⊎ (head ≡ tail + len))
    → (sub32 (sub32 (add32 tail n) head) 1 ≡ n - 1 - len)
      ⊎ (sub32 (sub32 (add32 tail n) head) 1 ≡ n - 1 - len + n)
space_once n tail len head narrow t l h (inl e) = inr (omega arith)
space_once n tail len head narrow t l h (inr e) = inl (omega arith)

-- The data that the ring reports is the length of the queue.
pub available_data-length :
    (k : ℕ) (r : Ring) (xs : List ℕ) → Holds k r xs → available_data r ≡ length xs
unfolding available_data
available_data-length k r xs v =
    ap₂ (λ c m. bit_and (sub32 (add32 r.head c) r.tail) m) v.power (mask-pow k r xs v)
    ∙ bit_and-mask k (sub32 (add32 r.head (2 ^ k)) r.tail)
    ∙ mod_of_once (2 ^ k) (sub32 (add32 r.head (2 ^ k)) r.tail) (length xs) v.room (
        data_once (2 ^ k) r.tail (length xs) r.head v.narrow v.inside v.room (head-lt k r xs v)
          (head-cases (2 ^ k) r.tail (length xs) r.head v.inside v.room v.at_end))

-- The space is what is left of 2 ^ k - 1 bytes: one byte of the buffer always stays free.
pub available_space-length :
    (k : ℕ) (r : Ring) (xs : List ℕ) → Holds k r xs → available_space r ≡ 2 ^ k - 1 - length xs
unfolding available_space
available_space-length k r xs v =
    ap₂ (λ c m. bit_and (sub32 (sub32 (add32 r.tail c) r.head) 1) m) v.power (mask-pow k r xs v)
    ∙ bit_and-mask k (sub32 (sub32 (add32 r.tail (2 ^ k)) r.head) 1)
    ∙ mod_of_once (2 ^ k) (sub32 (sub32 (add32 r.tail (2 ^ k)) r.head) 1) (2 ^ k - 1 - length xs)
        (omega (arith, v.room))
        (space_once (2 ^ k) r.tail (length xs) r.head v.narrow v.inside v.room (head-lt k r xs v)
          (head-cases (2 ^ k) r.tail (length xs) r.head v.inside v.room v.at_end))

-- The position after `n` more bytes.
pub offset-position :
    (k position n : ℕ)
    → position < 2 ^ k
    → n < 2 ^ k
    → 2 ^ k ≤ 2 ^ 31
    → offset (2 ^ k - 1) position n % 2 ^ 32 ≡ (position + n) % 2 ^ k
offset-position k position n p q narrow =
    let at : offset (2 ^ k - 1) position n ≡ (position + n) % 2 ^ k =
      offset-mod k position n (omega arith) in
    let low : (position + n) % 2 ^ k < 2 ^ k = mod-lt (position + n) (omega arith) in
    ap (λ j. j % 2 ^ 32) at ∙ mod-eq_of_lt (omega arith)

-- The queue that the ring implements: a write is refused whole if there is no room for all of it, a
-- read if there are fewer bytes.
unfoldable pub enqueue : ℕ → List ℕ → List ℕ → Bool × List ℕ
enqueue k bytes q =
    if ltb (2 ^ k - 1 - length q) (length bytes) then (false, q) else (true, q ++ bytes)

unfoldable pub dequeue : ℕ → List ℕ → (Bool × List ℕ) × List ℕ
dequeue n q = if ltb (length q) n then ((false, []), q) else ((true, take n q), drop n q)

-- The state that a write leaves where there is room.
abbrev written : ℕ → List ℕ → Ring → Ring
written k bytes r = record r {
  base = write_bytes (2 ^ k - 1) r.head 0 bytes r.base;
  head = offset (2 ^ k - 1) r.head (length bytes) % 2 ^ 32;
}

written-Holds :
    (k : ℕ) (r : Ring) (xs bytes : List ℕ)
    → Holds k r xs
    → length xs + length bytes < 2 ^ k
    → Holds k (written k bytes r) (xs ++ bytes)
written-Holds k r xs bytes v fits = record {
  power = v.power;
  narrow = v.narrow;
  inside = v.inside;
  at_end =
      offset-position k r.head (length bytes) (head-lt k r xs v) (omega arith) v.narrow
      ∙ ap (λ h. (h + length bytes) % 2 ^ k) v.at_end
      ∙ mod-add-mod (r.tail + length xs) (2 ^ k) (length bytes)
      ∙ ap (λ j. j % 2 ^ k) (omega (arith, length-append xs bytes));
  room = omega (arith, length-append xs bytes);
  kept =
      ap (window (2 ^ k) _ r.tail) (length-append xs bytes)
      ∙ write_bytes-window k r.head 0 bytes r.base r.tail (length xs)
          (sym (mod-mod (r.tail + length xs) (2 ^ k))
            ∙ ap (λ j. j % 2 ^ k) (omega (arith, v.at_end)))
          (omega arith) (omega (arith, v.narrow, head-lt k r xs v))
      ∙ ap (λ l. l ++ bytes) v.kept;
}

pub write-Holds :
    (k : ℕ) (bytes : List ℕ) (r : Ring) (xs : List ℕ)
    → Holds k r xs
    → ((write bytes r).0 ≡ (enqueue k bytes xs).0)
      × Holds k (write bytes r).1 (enqueue k bytes xs).1
unfolding write enqueue
write-Holds k bytes r xs v =
    rw (available_space-length k r xs v, mask-pow k r xs v)
      (ground (arith, written-Holds k r xs bytes v, v.room))

-- The state that a read leaves where there are enough bytes.
abbrev pub consumed : ℕ → ℕ → Ring → Ring
consumed k n r = record r { tail = offset (2 ^ k - 1) r.tail n % 2 ^ 32 }

-- The window splits at the bytes read.
split-window :
    (k n : ℕ) (r : Ring) (xs : List ℕ)
    → Holds k r xs
    → n ≤ length xs
    → window (2 ^ k) r.base r.tail n ++ window (2 ^ k) r.base (r.tail + n) (length xs - n) ≡ xs
split-window k n r xs v low =
    sym (window-add (2 ^ k) r.base r.tail n (length xs - n))
    ∙ ap (window (2 ^ k) r.base r.tail) (let s : n + (length xs - n) ≡ length xs = omega arith in s)
    ∙ v.kept

pub take-window :
    (k n : ℕ) (r : Ring) (xs : List ℕ)
    → Holds k r xs
    → n ≤ length xs
    → window (2 ^ k) r.base r.tail n ≡ take n xs
take-window k n r xs v low =
    sym (take-append n _ _ (length-window (2 ^ k) r.base r.tail n))
    ∙ ap (take n) (split-window k n r xs v low)

drop-window :
    (k n : ℕ) (r : Ring) (xs : List ℕ)
    → Holds k r xs
    → n ≤ length xs
    → window (2 ^ k) r.base (r.tail + n) (length xs - n) ≡ drop n xs
drop-window k n r xs v low =
    sym (drop-append n _ _ (length-window (2 ^ k) r.base r.tail n))
    ∙ ap (drop n) (split-window k n r xs v low)

pub consumed-Holds :
    (k n : ℕ) (r : Ring) (xs : List ℕ)
    → Holds k r xs
    → n ≤ length xs
    → Holds k (consumed k n r) (drop n xs)
consumed-Holds k n r xs v low =
    let moved : offset (2 ^ k - 1) r.tail n % 2 ^ 32 ≡ (r.tail + n) % 2 ^ k =
      offset-position k r.tail n v.inside (omega (arith, v.room)) v.narrow in
    record {
      power = v.power;
      narrow = v.narrow;
      inside = omega (arith, moved, mod-lt (r.tail + n) {m = 2 ^ k} (omega (arith, v.room)));
      at_end =
          v.at_end
          ∙ ap (λ j. j % 2 ^ k) (omega (arith, length-drop n xs))
          ∙ sym (mod-add-mod (r.tail + n) (2 ^ k) (length (drop n xs)))
          ∙ ap (λ t. (t + length (drop n xs)) % 2 ^ k) (sym moved);
      room = omega (arith, length-drop n xs, v.room);
      kept =
          ap (window (2 ^ k) r.base _) (length-drop n xs)
          ∙ window-congruent (2 ^ k) r.base _ (r.tail + n) (length xs - n)
              (ap (λ j. j % 2 ^ k) moved ∙ mod-mod (r.tail + n) (2 ^ k))
          ∙ drop-window k n r xs v low;
    }

read_bytes-take :
    (k n : ℕ) (r : Ring) (xs : List ℕ)
    → Holds k r xs
    → n ≤ length xs
    → read_bytes (2 ^ k - 1) r.tail 0 n r.base ≡ take n xs
read_bytes-take k n r xs v low =
    read_bytes-window k r.tail 0 n r.base (omega (arith, v.narrow, v.inside, v.room))
    ∙ ap (λ t. window (2 ^ k) r.base t n) (omega arith)
    ∙ take-window k n r xs v low

pub read-Holds :
    (k n : ℕ) (r : Ring) (xs : List ℕ)
    → Holds k r xs
    → ((read n r).0 ≡ (dequeue n xs).0) × Holds k (read n r).1 (dequeue n xs).1
unfolding read dequeue
read-Holds k n r xs v =
    rw (available_data-length k r xs v, mask-pow k r xs v)
      (ground (arith, consumed-Holds k n r xs v, read_bytes-take k n r xs v))

-- A call by the writer or by the reader.
pub data Call : Type 0 where
  writes : List ℕ → Call
  reads : ℕ → Call

-- What each call returns (a write hands out no bytes), and the state at the end.
abbrev pub run : List Call → Ring → List (Bool × List ℕ) × Ring
run [] r = ([], r)
run (writes bytes ∷ calls) r =
    let (ok, r1) = write bytes r in let (out, r2) = run calls r1 in ((ok, []) ∷ out, r2)
run (reads n ∷ calls) r =
    let (got, r1) = read n r in let (out, r2) = run calls r1 in (got ∷ out, r2)

abbrev pub run_queue : ℕ → List Call → List ℕ → List (Bool × List ℕ) × List ℕ
run_queue k [] q = ([], q)
run_queue k (writes bytes ∷ calls) q =
    let (ok, q1) = enqueue k bytes q in let (out, q2) = run_queue k calls q1 in ((ok, []) ∷ out, q2)
run_queue k (reads n ∷ calls) q =
    let (got, q1) = dequeue n q in let (out, q2) = run_queue k calls q1 in (got ∷ out, q2)

-- A ring of 2 ^ k bytes (k at most 31) that holds the bytes of a queue: no sequence of reads and
-- writes tells it from the queue, which holds at most 2 ^ k - 1 bytes and refuses whole what does
-- not fit or is not there. The calls return the same, and the ring ends with the bytes of the
-- queue.
pub shared_ring_refines :
    (k : ℕ) (calls : List Call) (r : Ring) (q : List ℕ)
    → Holds k r q
    → ((run calls r).0 ≡ (run_queue k calls q).0) × Holds k (run calls r).1 (run_queue k calls q).1
shared_ring_refines k [] r q v = (refl, v)
shared_ring_refines k (writes bytes ∷ calls) r q v =
    let (same, v1) = write-Holds k bytes r q v in
    let (rest, v2) = shared_ring_refines k calls _ _ v1 in
    (ap₂ (λ ok out. (ok, []) ∷ out) same rest, v2)
shared_ring_refines k (reads n ∷ calls) r q v =
    let (same, v1) = read-Holds k n r q v in
    let (rest, v2) = shared_ring_refines k calls _ _ v1 in (ap₂ ◌∷◌ same rest, v2)

-- In a ring of 2 ^ k bytes (k at most 31) that holds some bytes, what is free and what is stored
-- add up to 2 ^ k - 1 bytes.
pub available_space-available_data :
    (k : ℕ) (r : Ring) (xs : List ℕ)
    → Holds k r xs
    → available_space r + available_data r ≡ 2 ^ k - 1
available_space-available_data k r xs v =
    omega (arith, available_space-length k r xs v, available_data-length k r xs v, v.room)

abbrev pub all_succeed : Os
all_succeed = record { shm_open = true; ftruncate = true; mmap = true; is_lock_free = true }

abbrev pub created : ℕ → Ring → Ring
created k memory = record memory { head = 0; tail = 0; capacity = 2 ^ k }

pub created-Holds : (k : ℕ) (memory : Ring) → 2 ^ k ≤ 2 ^ 31 → Holds k (created k memory) []
unfolding window
created-Holds k memory narrow =
    let pos : 0 < 2 ^ k = pow-pos k in
    record {
      power = refl;
      narrow = narrow;
      inside = pos;
      at_end = sym (mod-eq_of_lt pos);
      room = pos;
      kept = refl;
    }

create_impl-created :
    (k : ℕ) (memory : Ring)
    → 2 ^ k ≤ 2 ^ 31
    → create_impl all_succeed (2 ^ k) true memory ≡ mapped (created k memory)
unfolding create_impl
create_impl-created k memory narrow =
    ap (λ c. mapped (record memory { head = 0; tail = 0; capacity = c }))
      (mod-eq_of_lt (omega arith))

-- A region created with 2 ^ k bytes, k at most 31, where the system calls succeed: from the empty
-- ring on, any reads and writes return what the empty queue of at most 2 ^ k - 1 bytes returns,
-- whatever the mapped memory held before.
pub create_impl-run :
    (k : ℕ) (calls : List Call) (memory : Ring)
    → 2 ^ k ≤ 2 ^ 31
    → (r : Ring) × (create_impl all_succeed (2 ^ k) true memory ≡ mapped r)
      × ((run calls r).0 ≡ (run_queue k calls []).0)
create_impl-run k calls memory narrow = (
  created k memory,
  create_impl-created k memory narrow,
  (shared_ring_refines k calls (created k memory) [] (created-Holds k memory narrow)).0,
)
