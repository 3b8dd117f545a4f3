-- ===== src/Ipc/Window.antt =====
-- Windows of a buffer whose positions wrap at a size `n`, for the loops of ipc/shm_posix.cpp.
use ggml_viz.Base.{
  ℕ, zero, suc, ◌+◌, ◌-◌, ◌%◌, ◌^◌, ◌≤◌, ◌<◌, ◌≡◌, ◌≢◌, refl, sym, ap, ap₂, subst, ◌∙◌, List, [],
  ◌∷◌, ◌++◌, arith, length, bit_and-mask, dec_lt, append_assoc, append-nil,
}
use native.Mathlib.Nat.{mod-eq_of_lt, mod-eq-sub-mod, mod-add-mod, mod-lt, suc-mod}
use ggml_viz.Ipc.Defs.{set_byte, offset, write_bytes, read_bytes}

-- The `count` bytes from the position `from` on.
unfoldable pub window : ℕ → (ℕ → ℕ) → ℕ → ℕ → List ℕ
window n base from zero = []
window n base from (suc count) = base (from % n) ∷ window n base (suc from) count

pub length-window :
    (n : ℕ) (base : ℕ → ℕ) (from count : ℕ) → length (window n base from count) ≡ count
unfolding window
length-window n base from zero = refl
length-window n base from (suc count) = ap suc (length-window n base (suc from) count)

-- A position below twice the size wraps once at most.
pub wrap_once : (n a : ℕ) → n ≤ a → a < n + n → a % n ≡ a - n
wrap_once n a low high = mod-eq-sub-mod low ∙ mod-eq_of_lt (omega arith)

mod-distinct : (n a m : ℕ) → 0 < m → m < n → a % n ≢ (a + m) % n
mod-distinct n a m pos small same =
    let r : a % n < n = mod-lt a (omega arith) in
    let moved : (a % n + m) % n ≡ a % n = mod-add-mod a n m ∙ sym same in
    elim (dec_lt (a % n + m) n) [
      | yes low ↦ omega (arith, moved, mod-eq_of_lt low)
      | no high ↦ omega (arith, moved, wrap_once n (a % n + m) (omega arith) (omega arith))
    ]

pub window-congruent :
    (n : ℕ) (base : ℕ → ℕ) (a b count : ℕ)
    → a % n ≡ b % n
    → window n base a count ≡ window n base b count
unfolding window
window-congruent n base a b zero same = refl
window-congruent n base a b (suc count) same =
    ap₂ (λ j rest. base j ∷ rest) same
      (window-congruent n base (suc a) (suc b) count
        (suc-mod a n ∙ ap (λ j. suc j % n) same ∙ sym (suc-mod b n)))

pub window-add :
    (n : ℕ) (base : ℕ → ℕ) (from c d : ℕ)
    → window n base from (c + d) ≡ window n base from c ++ window n base (from + c) d
unfolding window
window-add n base from zero d = ap₂ (window n base) (omega arith) (omega arith)
window-add n base from (suc c) d =
    ap (window n base from) (let s : suc c + d ≡ suc (c + d) = omega arith in s)
    ∙ ap (λ rest. base (from % n) ∷ rest)
        (window-add n base (suc from) c d
          ∙ ap (λ j. window n base (suc from) c ++ window n base j d) (omega arith))

-- A byte at or behind the end of a window of fewer than `n` bytes leaves the window.
window-set_byte :
    (c m n : ℕ) (base : ℕ → ℕ) (from x : ℕ)
    → c ≤ m
    → m < n
    → window n (set_byte base ((from + m) % n) x) from c ≡ window n base from c
unfolding window set_byte
window-set_byte zero m n base from x low high = refl
window-set_byte (suc c) zero n base from x low high = absurd (omega arith)
window-set_byte (suc c) (suc m) n base from x low high =
    ap₂ ◌∷◌ (ground (arith, mod-distinct n from (suc m) (omega arith) high)) (
      subst (λ j. window n (set_byte base (j % n) x) (suc from) c ≡ window n base (suc from) c)
        (let shift : suc from + m ≡ from + suc m = omega arith in shift)
        (window-set_byte c m n base (suc from) x (omega arith) (omega arith)))

stored_byte : (base : ℕ → ℕ) (j x : ℕ) → set_byte base j x j ≡ x
unfolding set_byte
stored_byte base j x = ground arith

pub window-set_byte_end :
    (c n : ℕ) (base : ℕ → ℕ) (from x : ℕ)
    → c < n
    → window n (set_byte base ((from + c) % n) x) from (suc c) ≡ window n base from c ++ x ∷ []
unfolding window set_byte
window-set_byte_end c n base from x room =
    ap (window n (set_byte base ((from + c) % n) x) from)
      (let one : suc c ≡ c + 1 = omega arith in one)
    ∙ window-add n (set_byte base ((from + c) % n) x) from c 1
    ∙ ap₂ (λ a b. a ++ b ∷ []) (window-set_byte c c n base from x (omega arith) room)
        (stored_byte base ((from + c) % n) x)

pub offset-mod :
    (k position i : ℕ)
    → position + i < 2 ^ 64
    → offset (2 ^ k - 1) position i ≡ (position + i) % 2 ^ k
unfolding offset
offset-mod k position i small =
    bit_and-mask k ((position + i) % 2 ^ 64) ∙ ap (λ j. j % 2 ^ k) (omega arith)

pub read_bytes-window :
    (k tail i count : ℕ) (base : ℕ → ℕ)
    → tail + i + count < 2 ^ 64
    → read_bytes (2 ^ k - 1) tail i count base ≡ window (2 ^ k) base (tail + i) count
unfolding read_bytes window
read_bytes-window k tail i zero base small = refl
read_bytes-window k tail i (suc count) base small =
    ap₂ (λ j rest. base j ∷ rest) (offset-mod k tail i (omega arith))
      (read_bytes-window k tail (suc i) count base (omega arith)
        ∙ ap (λ j. window (2 ^ k) base j count) (omega arith))

-- What the write loop leaves: the window before it, and the bytes written.
pub write_bytes-window :
    (k head i : ℕ) (xs : List ℕ) (base : ℕ → ℕ) (from c : ℕ)
    → (from + c) % 2 ^ k ≡ (head + i) % 2 ^ k
    → c + length xs ≤ 2 ^ k
    → head + i + length xs < 2 ^ 64
    → window (2 ^ k) (write_bytes (2 ^ k - 1) head i xs base) from (c + length xs)
      ≡ window (2 ^ k) base from c ++ xs
unfolding write_bytes
write_bytes-window k head i [] base from c at_end room small =
    ap (window (2 ^ k) base from) (omega arith) ∙ sym (append-nil (window (2 ^ k) base from c))
write_bytes-window k head i (x ∷ xs) base from c at_end room small =
    let n = 2 ^ k in
    let here : offset (n - 1) head i ≡ (from + c) % n =
      offset-mod k head i (omega arith) ∙ sym at_end in
    let next : (from + suc c) % n ≡ (head + suc i) % n =
      ap (λ j. j % n) (let s : from + suc c ≡ suc (from + c) = omega arith in s)
      ∙ suc-mod (from + c) n
      ∙ ap (λ j. suc j % n) at_end
      ∙ sym (suc-mod (head + i) n)
      ∙ ap (λ j. j % n) (let s : suc (head + i) ≡ head + suc i = omega arith in s) in
    ap (window n _ from) (let s : c + suc (length xs) ≡ suc c + length xs = omega arith in s)
    ∙ write_bytes-window k head (suc i) xs (set_byte base (offset (n - 1) head i) x) from (suc c)
        next (omega arith) (omega arith)
    ∙ ap (λ l. l ++ xs)
        (ap (λ j. window n (set_byte base j x) from (suc c)) here
          ∙ window-set_byte_end c n base from x (omega arith))
    ∙ append_assoc (window n base from c) (x ∷ []) xs
