-- ===== src/Hook/Ring.antt =====
-- The ring buffer of ggml_hook.cpp as a queue: which events it holds, and that no operation loses
-- one.
use ggml_viz.Base.{
  ℕ, zero, suc, ◌+◌, ◌%◌, ◌^◌, ◌≤◌, ◌<◌, ◌≡◌, refl, ap, ap₂, subst, ◌∙◌, List, [], ◌∷◌, ◌++◌, arith,
  length, bit_and-mask, ◌==◌,
}
use ggml_viz.Event.{Event}
use ggml_viz.Hook.Defs.{Hook, buffer_size, slot, add64, store, copy}

pub slot-mod : (i : ℕ) → slot i ≡ i % 65536
unfolding slot
slot-mod i = bit_and-mask 16 i

-- The ring holds `zs`, oldest first, from `read_pos` to `write_pos`, with one slot left empty.
pub record Holds (h : Hook) (zs : List Event) : Type 0 where
  pub kept : copy h.event_buffer h.read_pos (length zs) ≡ zs
  pub counted : h.write_pos ≡ h.read_pos + length zs
  pub room : length zs < buffer_size
  pub small : h.write_pos < 2 ^ 63

-- Where the ring holds `zs` the source's full test is the count of them.
pub full_iff :
    (h : Hook) (zs : List Event)
    → Holds h zs
    → (slot (add64 h.write_pos 1) == slot h.read_pos) ≡ (length zs == 65535)
full_iff h zs v = rw (slot-mod (add64 h.write_pos 1), slot-mod h.read_pos) (ground arith)

store-other :
    (buffer : ℕ → Event) (from m : ℕ) (e : Event)
    → suc m < buffer_size
    → store buffer (slot (from + suc m)) e (slot from) ≡ buffer (slot from)
unfolding store
store-other buffer from m e h = ground (arith, slot-mod from, slot-mod (from + suc m))

-- A write at or behind the end of a window of at most 65535 events leaves the window.
copy-store :
    (n m : ℕ) (buffer : ℕ → Event) (from : ℕ) (e : Event)
    → n ≤ m
    → m < buffer_size
    → copy (store buffer (slot (from + m)) e) from n ≡ copy buffer from n
unfolding copy
copy-store zero m buffer from e h k = refl
copy-store (suc n) zero buffer from e h k = absurd (omega arith)
copy-store (suc n) (suc m) buffer from e h k = ap₂ ◌∷◌ (store-other buffer from m e k) (
    subst (λ j. copy (store buffer (slot j) e) (from + 1) n ≡ copy buffer (from + 1) n)
      (let shift : from + 1 + m ≡ from + suc m = omega arith in shift)
      (copy-store n m buffer (from + 1) e (omega arith) (omega arith)))

copy-snoc :
    (n : ℕ) (buffer : ℕ → Event) (from : ℕ)
    → copy buffer from (suc n) ≡ copy buffer from n ++ buffer (slot (from + n)) ∷ []
unfolding copy
copy-snoc zero buffer from = ap (λ j. buffer (slot j) ∷ []) (omega arith)
copy-snoc (suc n) buffer from =
    ap (λ r. buffer (slot from) ∷ r)
      (copy-snoc n buffer (from + 1)
        ∙ ap (λ j. copy buffer (from + 1) n ++ buffer (slot j) ∷ []) (omega arith))

-- Writing an event behind the window extends it by that event.
pub copy-store_end :
    (n : ℕ) (buffer : ℕ → Event) (from : ℕ) (e : Event)
    → n < buffer_size
    → copy (store buffer (slot (from + n)) e) from (suc n) ≡ copy buffer from n ++ e ∷ []
unfolding store
copy-store_end n buffer from e h =
    copy-snoc n _ from
    ∙ ap₂ (λ a b. a ++ b ∷ []) (copy-store n n buffer from e (omega arith) h) (ground arith)

pub length-copy : (n : ℕ) (buffer : ℕ → Event) (from : ℕ) → length (copy buffer from n) ≡ n
unfolding copy
length-copy zero buffer from = refl
length-copy (suc n) buffer from = ap suc (length-copy n buffer (from + 1))
