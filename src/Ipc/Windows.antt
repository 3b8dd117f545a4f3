-- ===== src/Ipc/Windows.antt =====
-- The shared-memory ring of ipc/shm_windows.cpp, in a view of limited size.
use ggml_viz.Base.{
  ℕ, zero, suc, ◌+◌, ◌-◌, ◌%◌, ◌^◌, ◌<◌, ◌≡◌, refl, sym, ap, subst, ◌∙◌, Bool, true, false, not,
  ◌&&◌, List, [], Option, none, some, bit_and, bit_and-mask, pow-pos, ltb, length, if◌then◌else◌,
  arith,
}
use native.Mathlib.Nat.{mod-lt}
use ggml_viz.Ipc.Defs.{
  Ring, add32, sub32, offset, write_bytes, read_bytes, mask, available_space, available_data, write,
  read, Region, runtime_error, mapped,
}

-- What the calls of Windows return, GetLastError included.
pub record Windows : Type 0 where
  pub create_file_mapping : Bool
  pub file_not_found : Bool
  pub map_view_of_file : Bool
  pub already_exists : Bool
  pub is_lock_free : Bool

unfoldable pub new_header : Bool → ℕ → Ring → Region
new_header lock_free size memory =
    if not lock_free
    then runtime_error "Atomic operations not lock-free - shared memory ring buffer unsafe"
    else mapped (record memory { head = 0; tail = 0; capacity = size % 2 ^ 32 })

-- `memory` is what the mapping holds. A segment that exists keeps its header, also on `create`.
unfoldable pub windows_create_impl : Windows → ℕ → Bool → Ring → Region
windows_create_impl os size create memory =
    if not os.create_file_mapping
    then runtime_error "CreateFileMapping failed"
    else if not create && os.file_not_found
    then runtime_error "shared-memory segment doesn't exist"
    else if not os.map_view_of_file
    then runtime_error "MapViewOfFile failed"
    else if create && not os.already_exists
    then new_header os.is_lock_free size memory
    else mapped memory

-- Whether the `n` offsets from `position` on lie in the `size` bytes behind the header.
unfoldable pub in_view : ℕ → ℕ → ℕ → ℕ → ℕ → Bool
in_view size cap_mask position i zero = true
in_view size cap_mask position i (suc n) =
    ltb (offset cap_mask position i) size && in_view size cap_mask position (suc i) n

-- `none` is an access past the end of the view, which has room for `size` bytes.
unfoldable pub windows_write : ℕ → List ℕ → Ring → Option (Bool × Ring)
windows_write size xs r =
    let head = r.head in
    let tail = r.tail in
    let cap = r.capacity in
    let free_space = bit_and (sub32 (sub32 (add32 tail cap) head) 1) (sub32 cap 1) in
    if ltb free_space (length xs)
    then some (false, r)
    else if in_view size (sub32 cap 1) head 0 (length xs)
    then some (
      true,
      record r {
        base = write_bytes (sub32 cap 1) head 0 xs r.base;
        head = offset (sub32 cap 1) head (length xs) % 2 ^ 32;
      },
    )
    else none

unfoldable pub windows_read : ℕ → ℕ → Ring → Option ((Bool × List ℕ) × Ring)
windows_read size n r =
    let head = r.head in
    let tail = r.tail in
    let cap = r.capacity in
    let avail = bit_and (sub32 (add32 head cap) tail) (sub32 cap 1) in
    if ltb avail n
    then some ((false, []), r)
    else if in_view size (sub32 cap 1) tail 0 n
    then some (
      (true, read_bytes (sub32 cap 1) tail 0 n r.base),
      record r { tail = offset (sub32 cap 1) tail n % 2 ^ 32 },
    )
    else none

unfoldable pub windows_available_space : Ring → ℕ
windows_available_space r =
    bit_and (sub32 (sub32 (add32 r.tail r.capacity) r.head) 1) (sub32 r.capacity 1)

unfoldable pub windows_available_data : Ring → ℕ
windows_available_data r = bit_and (sub32 (add32 r.head r.capacity) r.tail) (sub32 r.capacity 1)

windows_available_space-available_space : (r : Ring) → windows_available_space r ≡ available_space r
unfolding windows_available_space available_space mask
windows_available_space-available_space r = refl

windows_available_data-available_data : (r : Ring) → windows_available_data r ≡ available_data r
unfolding windows_available_data available_data mask
windows_available_data-available_data r = refl

-- A mask of `k` bits keeps every offset below 2 ^ k.
offset-below : (k position i : ℕ) → offset (2 ^ k - 1) position i < 2 ^ k
unfolding offset
offset-below k position i =
    subst (λ j. j < 2 ^ k) (sym (bit_and-mask k ((position + i) % 2 ^ 64)))
      (mod-lt ((position + i) % 2 ^ 64) (pow-pos k))

in_view-mask : (k position i n : ℕ) → in_view (2 ^ k) (2 ^ k - 1) position i n ≡ true
unfolding in_view
in_view-mask k position i zero = refl
in_view-mask k position i (suc n) =
    let here : ltb (offset (2 ^ k - 1) position i) (2 ^ k) ≡ true =
      ground (arith, offset-below k position i) in
    rw here (in_view-mask k position (suc i) n)

in_view-ring :
    (k position n : ℕ) (r : Ring)
    → r.capacity ≡ 2 ^ k
    → 2 ^ k < 2 ^ 32
    → in_view (2 ^ k) (sub32 r.capacity 1) position 0 n ≡ true
in_view-ring k position n r power narrow =
    let low : sub32 (2 ^ k) 1 ≡ 2 ^ k - 1 = omega (arith, narrow, pow-pos k) in
    ap (λ c. in_view (2 ^ k) (sub32 c 1) position 0 n) power
    ∙ ap (λ m. in_view (2 ^ k) m position 0 n) low
    ∙ in_view-mask k position 0 n

guarded {ℓ} :
    {A : Type ℓ} (full inside : Bool) (a b : A)
    → inside ≡ true
    → (if full then some a else if inside then some b else none) ≡ some (if full then a else b)
guarded true inside a b h = refl
guarded false inside a b h = ap (λ o. if o then some b else none) h

-- In a view with room for the capacity, a power of two below 2 ^ 32, a write and a read on Windows
-- never touch a byte past the end, and do to the ring and return what the POSIX operations do,
-- whatever the positions and the bytes are.
pub windows_write-write :
    (k n : ℕ) (xs : List ℕ) (r : Ring)
    → r.capacity ≡ 2 ^ k
    → 2 ^ k < 2 ^ 32
    → (windows_write (2 ^ k) xs r ≡ some (write xs r))
      × (windows_read (2 ^ k) n r ≡ some (read n r))
unfolding windows_write windows_read write read available_space available_data mask
windows_write-write k n xs r power narrow = (
  guarded (ltb (available_space r) (length xs)) _ (false, r)
      (
        true,
        record r {
          base = write_bytes (sub32 r.capacity 1) r.head 0 xs r.base;
          head = offset (sub32 r.capacity 1) r.head (length xs) % 2 ^ 32;
        },
      )
      (in_view-ring k r.head (length xs) r power narrow),
  guarded (ltb (available_data r) n) _ ((false, []), r)
      (
        (true, read_bytes (sub32 r.capacity 1) r.tail 0 n r.base),
        record r { tail = offset (sub32 r.capacity 1) r.tail n % 2 ^ 32 },
      )
      (in_view-ring k r.tail n r power narrow),
)
