-- ===== src/Ipc/Defs.antt =====
-- The shared-memory ring of ipc/ipc_common.hpp and ipc/shm_posix.cpp (the same in shm_windows.cpp).
use ggml_viz.Base.{
  ℕ, zero, suc, ◌+◌, ◌-◌, ◌%◌, ◌^◌, Bool, true, false, not, ◌&&◌, List, [], ◌∷◌, String, bit_and,
  ltb, ◌==◌, length, if◌then◌else◌,
}

-- The RingHeader, 32-bit fields, and the bytes behind it in the mapping.
pub record Ring : Type 0 where
  pub head : ℕ
  pub tail : ℕ
  pub capacity : ℕ
  pub base : ℕ → ℕ

abbrev pub add32 : ℕ → ℕ → ℕ
add32 a b = (a + b) % 2 ^ 32

abbrev pub sub32 : ℕ → ℕ → ℕ
sub32 a b = (a + 2 ^ 32 - b) % 2 ^ 32

-- `cap - 1`
unfoldable pub mask : Ring → ℕ
mask r = sub32 r.capacity 1

unfoldable pub available_space : Ring → ℕ
available_space r = bit_and (sub32 (sub32 (add32 r.tail r.capacity) r.head) 1) (mask r)

unfoldable pub available_data : Ring → ℕ
available_data r = bit_and (sub32 (add32 r.head r.capacity) r.tail) (mask r)

-- `(position + i) & (cap - 1)`, where `i` is a size_t.
unfoldable pub offset : ℕ → ℕ → ℕ → ℕ
offset cap_mask position i = bit_and ((position + i) % 2 ^ 64) cap_mask

-- `base[j] = x`
unfoldable pub set_byte : (ℕ → ℕ) → ℕ → ℕ → ℕ → ℕ
set_byte base j x k = if k == j then x else base k

unfoldable pub write_bytes : ℕ → ℕ → ℕ → List ℕ → (ℕ → ℕ) → ℕ → ℕ
write_bytes cap_mask head i [] base = base
write_bytes cap_mask head i (x ∷ xs) base =
    write_bytes cap_mask head (suc i) xs (set_byte base (offset cap_mask head i) x)

unfoldable pub read_bytes : ℕ → ℕ → ℕ → ℕ → (ℕ → ℕ) → List ℕ
read_bytes cap_mask tail i zero base = []
read_bytes cap_mask tail i (suc n) base =
    base (offset cap_mask tail i) ∷ read_bytes cap_mask tail (suc i) n base

unfoldable pub write : List ℕ → Ring → Bool × Ring
write xs r = if ltb (available_space r) (length xs) then (false, r) else (
  true,
  record r {
    base = write_bytes (mask r) r.head 0 xs r.base;
    head = offset (mask r) r.head (length xs) % 2 ^ 32;
  },
)

-- The bytes read: none where the call fails, which leaves `dest` as it was.
unfoldable pub read : ℕ → Ring → (Bool × List ℕ) × Ring
read n r = if ltb (available_data r) n then ((false, []), r) else (
  (true, read_bytes (mask r) r.tail 0 n r.base),
  record r { tail = offset (mask r) r.tail n % 2 ^ 32 },
)

-- Which calls of the operating system succeed, and whether the atomics are lock-free.
pub record Os : Type 0 where
  pub shm_open : Bool
  pub ftruncate : Bool
  pub mmap : Bool
  pub is_lock_free : Bool

pub data Region : Type 0 where
  runtime_error : String → Region
  mapped : Ring → Region

-- `memory` is what the mapping holds.
unfoldable pub create_impl : Os → ℕ → Bool → Ring → Region
create_impl os size create memory =
    if not os.shm_open
    then runtime_error (if create then "shm_open create failed" else "shm_open open failed")
    else if create && not os.ftruncate
    then runtime_error "ftruncate failed"
    else if not os.mmap
    then runtime_error "mmap failed"
    else if create && not os.is_lock_free
    then runtime_error "Atomic operations not lock-free - shared memory ring buffer unsafe"
    else if create
    then mapped (record memory { head = 0; tail = 0; capacity = size % 2 ^ 32 })
    else mapped memory
