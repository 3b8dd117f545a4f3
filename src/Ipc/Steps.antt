-- ===== src/Ipc/Steps.antt =====
-- The shared ring (ipc/shm_posix.cpp) with its writer and its reader at work at the same time: each
-- load, store and copied byte is a step of its own.
use ggml_viz.Base.{ℕ, suc, ◌%◌, ◌^◌, ◌≤◌, List, [], ◌∷◌, ◌++◌, length}
use ggml_viz.Ipc.Defs.{Ring, mask, available_space, available_data, offset, set_byte}

-- Where PosixSharedMemory::write stands: `head` is its local, `done` the bytes that its loop has
-- copied (their number is `i`), `left` those that it has not.
pub data Writer : Type 0 where
  waiting : Writer
  copying : (head : ℕ) (done left : List ℕ) → Writer

-- Where PosixSharedMemory::read stands: `got` is what `dest` holds so far, `left` the rounds to go.
pub data Reader : Type 0 where
  waiting : Reader
  copying : (tail : ℕ) (got : List ℕ) (left : ℕ) → Reader

-- One step of `write`, and the bytes that it has published. A write that finds too little space
-- changes nothing and is no step.
pub data WriteMove : Ring → Writer → List ℕ → Ring → Writer → List ℕ → Type 0 where
  begin_write :
      {r : Ring} {sent : List ℕ} (bytes : List ℕ)
      → length bytes ≤ available_space r
      → WriteMove r Writer.waiting sent r (Writer.copying r.head [] bytes) sent
  copy_byte :
      {r : Ring} {sent : List ℕ} {head : ℕ} {done left : List ℕ} {x : ℕ}
      → WriteMove r
          (Writer.copying head done (x ∷ left))
          sent
          (record r { base = set_byte r.base (offset (mask r) head (length done)) x })
          (Writer.copying head (done ++ x ∷ []) left)
          sent
  publish :
      {r : Ring} {sent : List ℕ} {head : ℕ} {done : List ℕ}
      → WriteMove r
          (Writer.copying head done [])
          sent
          (record r { head = offset (mask r) head (length done) % 2 ^ 32 })
          Writer.waiting
          (sent ++ done)

-- One step of `read`, and the bytes that it has handed out.
pub data ReadMove : Ring → Reader → List ℕ → Ring → Reader → List ℕ → Type 0 where
  begin_read :
      {r : Ring} {received : List ℕ} (n : ℕ)
      → n ≤ available_data r
      → ReadMove r Reader.waiting received r (Reader.copying r.tail [] n) received
  fetch_byte :
      {r : Ring} {received : List ℕ} {tail : ℕ} {got : List ℕ} {n : ℕ}
      → ReadMove r
          (Reader.copying tail got (suc n))
          received
          r
          (Reader.copying tail (got ++ r.base (offset (mask r) tail (length got)) ∷ []) n)
          received
  release :
      {r : Ring} {received : List ℕ} {tail : ℕ} {got : List ℕ}
      → ReadMove r
          (Reader.copying tail got 0)
          received
          (record r { tail = offset (mask r) tail (length got) % 2 ^ 32 })
          Reader.waiting
          (received ++ got)

pub record Shared : Type 0 where
  pub ring : Ring
  pub writer : Writer
  pub reader : Reader
  pub sent : List ℕ
  pub received : List ℕ

pub data Step (s : Shared) : Shared → Type 0 where
  by_writer :
      {r : Ring} {w : Writer} {sent : List ℕ}
      → WriteMove s.ring s.writer s.sent r w sent
      → Step s (record s { ring = r; writer = w; sent = sent })
  by_reader :
      {r : Ring} {d : Reader} {received : List ℕ}
      → ReadMove s.ring s.reader s.received r d received
      → Step s (record s { ring = r; reader = d; received = received })

-- Both processes idle at the ring `r`.
abbrev pub quiet : Ring → Shared
quiet r = record {
  ring = r;
  writer = Writer.waiting;
  reader = Reader.waiting;
  sent = [];
  received = [];
}

pub data Reach (s : Shared) : Shared → Type 0 where
  start : Reach s s
  later : {t u : Shared} → Reach s t → Step t u → Reach s u
