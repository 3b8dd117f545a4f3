-- ===== src/Base/Maps.antt =====
-- A map from pointers as an association list with one entry a key: std::unordered_map.
use ggml_viz.Base.Tests.{◌==◌, if◌then◌else◌}
use Prim.Native.Nat.{ℕ, ◌+◌}
use mathlib.Core.Path.{◌≡◌, refl}
use mathlib.Core.Bool.{Bool, false, not, ◌&&◌, ◌||◌}
use mathlib.Core.Option.{Option, none, some}
use mathlib.Core.List.{List, [], ◌∷◌}
use native.Mathlib.Omega.{arith}

module _ {ℓ} {V : Type ℓ} where
  unfoldable pub lookup : ℕ → List (ℕ × V) → Option V
  lookup key [] = none
  lookup key (entry ∷ table) = if entry.0 == key then some entry.1 else lookup key table

  -- `map[key] = value`
  unfoldable pub insert : ℕ → V → List (ℕ × V) → List (ℕ × V)
  insert key value [] = (key, value) ∷ []
  insert key value (entry ∷ table) =
      if entry.0 == key then (key, value) ∷ table else entry ∷ insert key value table

  unfoldable pub erase : ℕ → List (ℕ × V) → List (ℕ × V)
  erase k [] = []
  erase k ((j, w) ∷ m) = if j == k then m else (j, w) ∷ erase k m

  pub lookup-insert :
      (new key : ℕ) (value : V) (table : List (ℕ × V))
      → lookup key (insert new value table) ≡ (if new == key then some value else lookup key table)
  unfolding insert lookup
  lookup-insert new key value [] = refl
  lookup-insert new key value (entry ∷ table) = ground (arith, lookup-insert new key value table)

  pub lookup-erase_ne :
      (k j : ℕ) (m : List (ℕ × V)) → (k == j) ≡ false → lookup j (erase k m) ≡ lookup j m
  unfolding lookup erase
  lookup-erase_ne k j [] h = refl
  lookup-erase_ne k j ((i, w) ∷ m) h = ground (arith, lookup-erase_ne k j m h)

  -- Every key has one entry.
  abbrev pub Unique : List (ℕ × V) → Type ℓ
  Unique [] = Unit
  Unique ((k, v) ∷ m) = (lookup k m ≡ none) × Unique m

  pub insert-Unique : (k : ℕ) (v : V) (m : List (ℕ × V)) → Unique m → Unique (insert k v m)
  unfolding insert lookup
  insert-Unique k v [] u = (refl, tt)
  insert-Unique k v ((j, w) ∷ m) u = ground (arith, insert-Unique k v m u.1, lookup-insert k j v m)

  pub erase-Unique : (k : ℕ) (m : List (ℕ × V)) → Unique m → Unique (erase k m)
  unfolding erase
  erase-Unique k [] u = tt
  erase-Unique k ((j, w) ∷ m) u = ground (arith, erase-Unique k m u.1, lookup-erase_ne k j m)

  pub lookup-erase :
      (k j : ℕ) (m : List (ℕ × V))
      → Unique m
      → lookup j (erase k m) ≡ (if k == j then none else lookup j m)
  unfolding lookup erase
  lookup-erase k j [] u = ground arith
  lookup-erase k j ((i, w) ∷ m) u = ground (arith, lookup-erase k j m u.1)

-- A set of pointers: std::unordered_set.
unfoldable pub contains : ℕ → List ℕ → Bool
contains k [] = false
contains k (j ∷ s) = j == k || contains k s

unfoldable pub remove : ℕ → List ℕ → List ℕ
remove k [] = []
remove k (j ∷ s) = let rest = remove k s in if j == k then rest else j ∷ rest

pub contains-remove :
    (k j : ℕ) (s : List ℕ) → contains j (remove k s) ≡ (not (k == j) && contains j s)
unfolding contains remove
contains-remove k j [] = ground arith
contains-remove k j (i ∷ s) = ground (arith, contains-remove k j s)

-- The sum of the values.
unfoldable pub total : List (ℕ × ℕ) → ℕ
total [] = 0
total ((k, v) ∷ m) = v + total m

pub total-erase :
    (k v : ℕ) (m : List (ℕ × ℕ)) → lookup k m ≡ some v → total (erase k m) + v ≡ total m
unfolding lookup erase total
total-erase k v [] h = ground arith
total-erase k v ((j, w) ∷ m) h = ground (arith, total-erase k v m)

pub total-insert_new :
    (k v : ℕ) (m : List (ℕ × ℕ)) → lookup k m ≡ none → total (insert k v m) ≡ total m + v
unfolding lookup insert total
total-insert_new k v [] h = omega arith
total-insert_new k v ((j, w) ∷ m) h = ground (arith, total-insert_new k v m)

pub total-insert_old :
    (k v w : ℕ) (m : List (ℕ × ℕ)) → lookup k m ≡ some w → total (insert k v m) + w ≡ total m + v
unfolding lookup insert total
total-insert_old k v w [] h = ground arith
total-insert_old k v w ((j, u) ∷ m) h = ground (arith, total-insert_old k v w m)
