-- ===== src/Base/Dicts.antt =====
-- Python's dict as an association list in insertion order, each key once.
use mathlib.Core.Path.{◌≡◌, refl}
use mathlib.Core.Option.{none, some}
use mathlib.Core.List.{List, [], ◌∷◌}
use native.Mathlib.Omega.{arith}
use baton_harness.Base.Tests.{if◌then◌else◌}
use baton_harness.Base.Equality.{Eq, ◌==◌}
use baton_harness.Base.Sets.{lookup}

module _ {ℓ κ} {A : Type ℓ} {V : Type κ} ⦃e : Eq A⦄ where
  -- d[k] = v
  abbrev pub insert : A → V → List (A × V) → List (A × V)
  insert k v [] = (k, v) ∷ []
  insert k v ((j, w) ∷ d) = if k == j then (j, v) ∷ d else (j, w) ∷ insert k v d

  -- d.pop(k, None)
  abbrev pub remove : A → List (A × V) → List (A × V)
  remove k [] = []
  remove k ((j, w) ∷ d) = let rest = remove k d in if k == j then rest else (j, w) ∷ rest

  abbrev pub HasUniqueKeys : List (A × V) → Type κ
  HasUniqueKeys [] = Unit
  HasUniqueKeys ((j, w) ∷ d) = (lookup d j ≡ none) × HasUniqueKeys d

module _ {ℓ κ} {A : Type ℓ} {V : Type κ} ⦃e : Eq A⦄ where
  pub lookup-insert :
      (k j : A) (v : V) (d : List (A × V))
      → lookup (insert k v d) j ≡ (if j == k then some v else lookup d j)
  lookup-insert k j v [] = refl
  lookup-insert k j v ((i, w) ∷ d) =
      ground (arith, e.same_iff k i, e.same_iff j i, e.same_iff j k, lookup-insert k j v d)

  pub lookup-remove :
      (k j : A) (d : List (A × V)) → lookup (remove k d) j ≡ (if j == k then none else lookup d j)
  lookup-remove k j [] = ground arith
  lookup-remove k j ((i, w) ∷ d) =
      ground (arith, e.same_iff k i, e.same_iff j i, e.same_iff j k, lookup-remove k j d)

  pub insert-HasUniqueKeys :
      (k : A) (v : V) (d : List (A × V)) → HasUniqueKeys d → HasUniqueKeys (insert k v d)
  insert-HasUniqueKeys k v [] h = (refl, tt)
  insert-HasUniqueKeys k v ((j, w) ∷ d) h =
      ground (
        arith,
        lookup-insert k j v d,
        e.same_iff k j,
        e.same_iff j k,
        insert-HasUniqueKeys k v d h.1,
      )

  pub remove-HasUniqueKeys :
      (k : A) (d : List (A × V)) → HasUniqueKeys d → HasUniqueKeys (remove k d)
  remove-HasUniqueKeys k [] h = tt
  remove-HasUniqueKeys k ((j, w) ∷ d) h =
      ground (arith, lookup-remove k j d, remove-HasUniqueKeys k d h.1)
