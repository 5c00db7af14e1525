-- ===== src/Common/Maps.antt =====
-- Go maps as association lists. A write replaces the entry of an equal key in its place, so the
-- keys of a map that starts empty stay distinct and `length` is the length of the list.
use Prim.Native.Nat.{ℕ, suc, ◌+◌}
use mathlib.Core.Path.{◌≡◌, refl}
use mathlib.Core.Logic.{ite}
use mathlib.Core.Bool.{Bool, true, false}
use mathlib.Core.Option.{Option, none, some}
use mathlib.Core.List.{List, [], ◌∷◌}
use native.Mathlib.Omega.{arith}
use astrahold_server.Common.Keys.{Key}

abbrev pub Map {ℓ} : Type ℓ → Type ℓ → Type ℓ
Map K V = List (K × V)

abbrev pub length {ℓ} : {A : Type ℓ} → List A → ℕ
length [] = 0
length (_ ∷ xs) = suc (length xs)

abbrev pub get_or {ℓ} : {A : Type ℓ} → A → Option A → A
get_or d none = d
get_or d (some a) = a

abbrev pub is_some {ℓ} : {A : Type ℓ} → Option A → Bool
is_some none = false
is_some (some _) = true

module _ {ℓ} {K V : Type ℓ} where
  -- A number for each entry, summed over the map.
  unfoldable pub total : (K → V → ℕ) → Map K V → ℕ
  total f [] = 0
  total f ((k, v) ∷ m) = f k v + total f m

  abbrev pub value_at : (K → V → ℕ) → K → Option V → ℕ
  value_at f k none = 0
  value_at f k (some v) = f k v

  -- A predicate of every entry.
  abbrev pub Entries : (K → V → Type ℓ) → Map K V → Type ℓ
  Entries P [] = Unit
  Entries P ((k, v) ∷ m) = P k v × Entries P m

  -- A map with the same keys and every value changed by `f`.
  unfoldable pub map_values : (V → V) → Map K V → Map K V
  map_values f [] = []
  map_values f ((k, v) ∷ m) = (k, f v) ∷ map_values f m

  -- The entries that a test keeps.
  unfoldable pub keep : (K → V → Bool) → Map K V → Map K V
  keep p [] = []
  keep p ((k, v) ∷ m) = elim (p k v) [ true ↦ (k, v) ∷ keep p m | false ↦ keep p m ]

module _ {ℓ} {K V : Type ℓ} ⦃e : Key K⦄ where
  unfoldable pub lookup : K → Map K V → Option V
  lookup k [] = none
  lookup k ((j, v) ∷ m) = ite (e.same? j k) (some v) (lookup k m)

  unfoldable pub insert : K → V → Map K V → Map K V
  insert k v [] = (k, v) ∷ []
  insert k v ((j, w) ∷ m) = ite (e.same? j k) ((k, v) ∷ m) ((j, w) ∷ insert k v m)

  unfoldable pub delete : K → Map K V → Map K V
  delete k [] = []
  delete k ((j, w) ∷ m) = ite (e.same? j k) (delete k m) ((j, w) ∷ delete k m)

  pub lookup-insert :
      (k j : K) (v : V) (m : Map K V)
      → lookup j (insert k v m) ≡ ite (e.same? k j) (some v) (lookup j m)
  unfolding lookup insert
  lookup-insert k j v [] = refl
  lookup-insert k j v ((i, w) ∷ m) = ground (arith, lookup-insert k j v m)

  pub lookup-delete :
      (k j : K) (m : Map K V) → lookup j (delete k m) ≡ ite (e.same? k j) none (lookup j m)
  unfolding lookup delete
  lookup-delete k j [] = ground arith
  lookup-delete k j ((i, w) ∷ m) = ground (arith, lookup-delete k j m)

  -- No key occurs twice.
  abbrev pub Distinct : Map K V → Type ℓ
  Distinct [] = Unit
  Distinct ((k, v) ∷ m) = (lookup k m ≡ none) × Distinct m

  pub insert-Distinct : (k : K) (v : V) (m : Map K V) → Distinct m → Distinct (insert k v m)
  unfolding lookup insert
  insert-Distinct k v [] d = (refl, tt)
  insert-Distinct k v ((j, w) ∷ m) d =
      ground (arith, insert-Distinct k v m d.1, lookup-insert k j v m)

  pub delete-Distinct : (k : K) (m : Map K V) → Distinct m → Distinct (delete k m)
  unfolding lookup delete
  delete-Distinct k [] d = tt
  delete-Distinct k ((j, w) ∷ m) d = ground (arith, delete-Distinct k m d.1, lookup-delete k j m)

  pub delete_absent : (k : K) (m : Map K V) → lookup k m ≡ none → delete k m ≡ m
  unfolding lookup delete
  delete_absent k [] h = refl
  delete_absent k ((j, w) ∷ m) h = ground (arith, delete_absent k m)

  pub total-insert :
      (f : K → V → ℕ) (k : K) (v : V) (m : Map K V)
      → total f (insert k v m) + value_at f k (lookup k m) ≡ total f m + f k v
  unfolding lookup insert total
  total-insert f k v [] = omega arith
  total-insert f k v ((j, w) ∷ m) = ground (arith, total-insert f k v m)

  pub total-delete :
      (f : K → V → ℕ) (k : K) (m : Map K V)
      → Distinct m
      → total f (delete k m) + value_at f k (lookup k m) ≡ total f m
  unfolding lookup delete total
  total-delete f k [] d = omega arith
  total-delete f k ((j, w) ∷ m) d = ground (arith, total-delete f k m d.1, delete_absent k m)

  -- A sum to which no key contributes is zero.
  pub total-eq-zero :
      (f : K → V → ℕ) (m : Map K V)
      → Distinct m
      → ((k : K) → value_at f k (lookup k m) ≡ 0)
      → total f m ≡ 0
  unfolding lookup total
  total-eq-zero f [] d h = refl
  total-eq-zero f ((j, w) ∷ m) d h =
      let rest = total-eq-zero f m d.1 (λ k. ground (arith, h k, d.0)) in ground (arith, h j, rest)

  pub length-insert :
      (k : K) (v : V) (m : Map K V)
      → length (insert k v m) + value_at (λ _ _. 1) k (lookup k m) ≡ length m + 1
  unfolding lookup insert
  length-insert k v [] = omega arith
  length-insert k v ((j, w) ∷ m) = ground (arith, length-insert k v m)

  pub length-delete :
      (k : K) (m : Map K V)
      → Distinct m
      → length (delete k m) + value_at (λ _ _. 1) k (lookup k m) ≡ length m
  unfolding lookup delete
  length-delete k [] d = omega arith
  length-delete k ((j, w) ∷ m) d = ground (arith, length-delete k m d.1, delete_absent k m)

  pub insert-Entries :
      (P : K → V → Type ℓ) (k : K) (v : V) (m : Map K V)
      → P k v
      → Entries P m
      → Entries P (insert k v m)
  unfolding insert
  insert-Entries P k v [] p h = (p, tt)
  insert-Entries P k v ((j, w) ∷ m) p h = ground (arith, insert-Entries P k v m p h.1)

  pub delete-Entries :
      (P : K → V → Type ℓ) (k : K) (m : Map K V) → Entries P m → Entries P (delete k m)
  unfolding delete
  delete-Entries P k [] h = tt
  delete-Entries P k ((j, w) ∷ m) h = ground (arith, delete-Entries P k m h.1)

  pub lookup-Entries :
      (P : K → V → Type ℓ) (k : K) (m : Map K V) (v : V) → Entries P m → lookup k m ≡ some v → P k v
  unfolding lookup
  lookup-Entries P k [] v h q = cc
  lookup-Entries P k ((j, w) ∷ m) v h q = ground (arith, lookup-Entries P k m v h.1)

  pub lookup-map_values :
      (f : V → V) (k : K) (m : Map K V)
      → lookup k (map_values f m) ≡ elim (lookup k m) [ none ↦ none | some v ↦ some (f v) ]
  unfolding lookup map_values
  lookup-map_values f k [] = refl
  lookup-map_values f k ((j, v) ∷ m) = ground (arith, lookup-map_values f k m)

  pub lookup-keep_absent :
      (p : K → V → Bool) (k : K) (m : Map K V) → lookup k m ≡ none → lookup k (keep p m) ≡ none
  unfolding lookup keep
  lookup-keep_absent p k [] h = refl
  lookup-keep_absent p k ((j, v) ∷ m) h = ground (arith, lookup-keep_absent p k m)

  pub keep-Distinct : (p : K → V → Bool) (m : Map K V) → Distinct m → Distinct (keep p m)
  unfolding keep
  keep-Distinct p [] d = tt
  keep-Distinct p ((j, v) ∷ m) d =
      ground (arith, keep-Distinct p m d.1, lookup-keep_absent p j m d.0)

  pub lookup-keep :
      (p : K → V → Bool) (k : K) (m : Map K V)
      → Distinct m
      → lookup k (keep p m)
        ≡ elim (lookup k m) [ none ↦ none | some v ↦ elim (p k v) [ true ↦ some v | false ↦ none ] ]
  unfolding lookup keep
  lookup-keep p k [] d = refl
  lookup-keep p k ((j, v) ∷ m) d = ground (arith, lookup-keep p k m d.1, lookup-keep_absent p k m)
