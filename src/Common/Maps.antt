-- ===== src/Common/Maps.antt =====
-- Go's `map[string]V` as an association list: a read, an assignment, `delete`, and the laws that
-- relate them. `Unique` says that no key occurs twice, which the three operations keep.
use Prim.Native.Nat.{◌+◌}
use mathlib.Core.Path.{◌≡◌, refl, ap, subst}
use mathlib.Core.Logic.{ite, if_pos, if_neg, ◌≢◌}
use mathlib.Core.Bool.{Bool}
use mathlib.Core.List.{List, [], ◌∷◌}
use mathlib.Core.Option.{Option, none, some}
use native.Mathlib.Omega.{arith}
use skylens_azure.Common.Tests.{if◌then◌else◌, is_some}
use skylens_azure.Common.Lists.{length}
unfoldable use skylens_azure.Common.Texts.{bytes_discrete}
use skylens_azure.Common.Texts.{Bytes}

abbrev pub Map {ℓ} : Type ℓ → Type ℓ
Map V = List (Bytes × V)

module _ {ℓ} {V : Type ℓ} where
  unfoldable pub lookup : Bytes → Map V → Option V
  lookup k [] = none
  lookup k ((j, v) ∷ m) = ite (bytes_discrete j k) (some v) (lookup k m)

  unfoldable pub insert : Bytes → V → Map V → Map V
  insert k v [] = (k, v) ∷ []
  insert k v ((j, w) ∷ m) = ite (bytes_discrete j k) ((k, v) ∷ m) ((j, w) ∷ insert k v m)

  unfoldable pub delete : Bytes → Map V → Map V
  delete k [] = []
  delete k ((j, w) ∷ m) = ite (bytes_discrete j k) (delete k m) ((j, w) ∷ delete k m)

  -- The entries that pass a test on the value.
  unfoldable pub keep_values : (V → Bool) → Map V → Map V
  keep_values p [] = []
  keep_values p ((j, w) ∷ m) = if p w then (j, w) ∷ keep_values p m else keep_values p m

  -- Every value changed in place.
  unfoldable pub map_values : (V → V) → Map V → Map V
  map_values f [] = []
  map_values f ((j, w) ∷ m) = (j, f w) ∷ map_values f m

  unfoldable pub map_found : (V → V) → Option V → Option V
  map_found f none = none
  map_found f (some v) = some (f v)

  pub lookup-map_values :
      (k : Bytes) (f : V → V) (m : Map V) → lookup k (map_values f m) ≡ map_found f (lookup k m)
  unfolding lookup map_values map_found
  lookup-map_values k f [] = refl
  lookup-map_values k f ((j, w) ∷ m) = elim (bytes_discrete j k) [
    | yes e ↦ ground arith
    | no n ↦ ground (arith, lookup-map_values k f m)
  ]

  pub lookup-insert :
      (k j : Bytes) (v : V) (m : Map V)
      → lookup j (insert k v m) ≡ ite (bytes_discrete k j) (some v) (lookup j m)
  unfolding lookup insert
  lookup-insert k j v [] = refl
  lookup-insert k j v ((i, w) ∷ m) = ground (arith, lookup-insert k j v m)

  pub lookup-delete :
      (k j : Bytes) (m : Map V) → lookup j (delete k m) ≡ ite (bytes_discrete k j) none (lookup j m)
  unfolding lookup delete
  lookup-delete k j [] = ground arith
  lookup-delete k j ((i, w) ∷ m) = ground (arith, lookup-delete k j m)

  abbrev pub Absent : Bytes → Map V → Type 0
  Absent k [] = Unit
  Absent k ((j, v) ∷ m) = (j ≢ k) × Absent k m

  abbrev pub Unique : Map V → Type 0
  Unique [] = Unit
  Unique ((j, v) ∷ m) = Absent j m × Unique m

  pub Absent-lookup : (k : Bytes) (m : Map V) → Absent k m → lookup k m ≡ none
  unfolding lookup
  Absent-lookup k [] h = refl
  Absent-lookup k ((j, v) ∷ m) (ne, h) = ground (arith, Absent-lookup k m h)

  Absent-insert : (i k : Bytes) (v : V) (m : Map V) → k ≢ i → Absent i m → Absent i (insert k v m)
  unfolding insert
  Absent-insert i k v [] ne h = (ne, tt)
  Absent-insert i k v ((j, w) ∷ m) ne (nj, h) = ground (arith, Absent-insert i k v m ne h)

  pub insert-Unique : (k : Bytes) (v : V) (m : Map V) → Unique m → Unique (insert k v m)
  unfolding insert
  insert-Unique k v [] u = (tt, tt)
  insert-Unique k v ((j, w) ∷ m) (a, u) = elim (bytes_discrete j k) [
    | yes e ↦ rw (if_pos _ e) (rw (← e) (a, u))
    | no n ↦
        rw (if_neg _ n) (Absent-insert j k v m (λ e. n (ground arith)) a, insert-Unique k v m u)
  ]

  Absent-delete : (i k : Bytes) (m : Map V) → Absent i m → Absent i (delete k m)
  unfolding delete
  Absent-delete i k [] h = tt
  Absent-delete i k ((j, w) ∷ m) (nj, h) = ground (arith, Absent-delete i k m h)

  pub delete-Unique : (k : Bytes) (m : Map V) → Unique m → Unique (delete k m)
  unfolding delete
  delete-Unique k [] u = tt
  delete-Unique k ((j, w) ∷ m) (a, u) = ground (arith, delete-Unique k m u, Absent-delete j k m a)

  Absent-keep : (i : Bytes) (p : V → Bool) (m : Map V) → Absent i m → Absent i (keep_values p m)
  unfolding keep_values
  Absent-keep i p [] h = tt
  Absent-keep i p ((j, w) ∷ m) (nj, h) = ground (arith, Absent-keep i p m h)

  pub keep_values-Unique : (p : V → Bool) (m : Map V) → Unique m → Unique (keep_values p m)
  unfolding keep_values
  keep_values-Unique p [] u = tt
  keep_values-Unique p ((j, w) ∷ m) (a, u) =
      ground (arith, keep_values-Unique p m u, Absent-keep j p m a)

  Absent-map_values : (i : Bytes) (f : V → V) (m : Map V) → Absent i m → Absent i (map_values f m)
  unfolding map_values
  Absent-map_values i f [] h = tt
  Absent-map_values i f ((j, w) ∷ m) (nj, h) = (nj, Absent-map_values i f m h)

  pub map_values-Unique : (f : V → V) (m : Map V) → Unique m → Unique (map_values f m)
  unfolding map_values
  map_values-Unique f [] u = tt
  map_values-Unique f ((j, w) ∷ m) (a, u) = (Absent-map_values j f m a, map_values-Unique f m u)

  -- What a filtered map answers: the entry of the key, if its value passes.
  pub lookup-keep_values :
      (p : V → Bool) (k : Bytes) (m : Map V) (v : V)
      → Unique m
      → lookup k m ≡ some v
      → lookup k (keep_values p m) ≡ (if p v then some v else none)
  unfolding lookup keep_values
  lookup-keep_values p k [] v u e = cc
  lookup-keep_values p k ((j, w) ∷ m) v (a, u) e = elim (bytes_discrete j k) [
    | yes q ↦ ground (arith, Absent-lookup j (keep_values p m) (Absent-keep j p m a))
    | no n ↦ ground (arith, lookup-keep_values p k m v u)
  ]

  pub lookup-keep_values-none :
      (p : V → Bool) (k : Bytes) (m : Map V) → lookup k m ≡ none → lookup k (keep_values p m) ≡ none
  unfolding lookup keep_values
  lookup-keep_values-none p k [] e = refl
  lookup-keep_values-none p k ((j, w) ∷ m) e = elim (bytes_discrete j k) [
    | yes q ↦ absurd (ground arith)
    | no n ↦ ground (arith, lookup-keep_values-none p k m)
  ]

  -- An assignment to a key that is there keeps the number of entries, any other adds one.
  pub length-insert :
      (k : Bytes) (v : V) (m : Map V)
      → length (insert k v m) ≡ (if is_some (lookup k m) then length m else length m + 1)
  unfolding lookup insert
  length-insert k v [] = omega arith
  length-insert k v ((j, w) ∷ m) = ground (arith, length-insert k v m)

  Absent-delete_same : (k : Bytes) (m : Map V) → Absent k m → delete k m ≡ m
  unfolding delete
  Absent-delete_same k [] h = refl
  Absent-delete_same k ((j, v) ∷ m) (ne, h) = ground (arith, Absent-delete_same k m h)

  pub length-delete :
      (k : Bytes) (m : Map V)
      → Unique m
      → length m ≡ (if is_some (lookup k m) then length (delete k m) + 1 else length (delete k m))
  unfolding lookup delete
  length-delete k [] u = omega arith
  length-delete k ((j, w) ∷ m) (a, u) = elim (bytes_discrete j k) [
    | yes e ↦ ground (
      arith,
      Absent-lookup k m (subst (λ x. Absent x m) e a),
      ap length (Absent-delete_same k m (subst (λ x. Absent x m) e a)),
    )
    | no n ↦ ground (arith, length-delete k m u)
  ]
