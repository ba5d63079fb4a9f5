-- ===== src/Base/Sets.antt =====
-- Python's sets and dicts of hashable keys, as lists read through a Boolean membership test.
use Prim.Native.Nat.{ℕ, suc, ◌+◌}
use mathlib.Core.Path.{◌≡◌, refl}
use mathlib.Core.Logic.{inl, inr}
use mathlib.Core.Bool.{Bool, true, false, ◌&&◌, ◌||◌}
use mathlib.Core.Option.{Option, none, some}
use mathlib.Core.List.{List, [], ◌∷◌, ◌++◌}
use native.Mathlib.Omega.{arith}
use baton_harness.Base.Tests.{if◌then◌else◌, Bool-cases}
use baton_harness.Base.Equality.{Eq, ◌==◌, ==_refl}
use baton_harness.Base.Lists.{filter, any, all}

module _ {ℓ} {A : Type ℓ} ⦃e : Eq A⦄ where
  -- a in xs
  abbrev pub contains : List A → A → Bool
  contains [] a = false
  contains (x ∷ xs) a = a == x || contains xs a

  infix 50 ◌∈◌ ◌∉◌
  abbrev pub ◌∈◌ : A → List A → Type 0
  a ∈ xs = contains xs a ≡ true

  abbrev pub ◌∉◌ : A → List A → Type 0
  a ∉ xs = contains xs a ≡ false

  -- xs.add(a)
  abbrev pub add : A → List A → List A
  add a xs = if contains xs a then xs else a ∷ xs

  abbrev pub count : A → List A → ℕ
  count a [] = 0
  count a (x ∷ xs) = let rest = count a xs in if a == x then suc rest else rest

  -- d.get(k)
  abbrev pub lookup {κ} : {V : Type κ} → List (A × V) → A → Option V
  lookup [] k = none
  lookup ((j, v) ∷ d) k = if k == j then some v else lookup d k

module _ {ℓ} {A : Type ℓ} ⦃e : Eq A⦄ where
  pub contains-append :
      (xs ys : List A) (a : A) → contains (xs ++ ys) a ≡ (contains xs a || contains ys a)
  contains-append [] ys a = refl
  contains-append (x ∷ xs) ys a = ground (arith, contains-append xs ys a)

  pub contains-filter :
      (p : A → Bool) (xs : List A) (a : A) → contains (filter p xs) a ≡ (contains xs a && p a)
  contains-filter p [] a = refl
  contains-filter p (x ∷ xs) a = ground (arith, contains-filter p xs a, e.same_iff a x)

  pub contains-add :
      (x : A) (xs : List A) (a : A) → contains (add x xs) a ≡ (a == x || contains xs a)
  contains-add x xs a = ground (arith, e.same_iff a x)

  pub count-append : (a : A) (xs ys : List A) → count a (xs ++ ys) ≡ count a xs + count a ys
  count-append a [] ys = omega arith
  count-append a (x ∷ xs) ys = ground (arith, count-append a xs ys)

  pub any-true : (p : A → Bool) (xs : List A) → any p xs ≡ true → (a : A) × (a ∈ xs) × (p a ≡ true)
  any-true p [] h = cc
  any-true p (x ∷ xs) h = elim (Bool-cases (p x)) [
    | inl y ↦ (x, ground (arith, ==_refl x), y)
    | inr n ↦ let (a, m, q) = any-true p xs (ground arith) in (a, ground arith, q)
  ]

  pub any-false : (p : A → Bool) (xs : List A) (a : A) → any p xs ≡ false → a ∈ xs → p a ≡ false
  any-false p [] a h m = cc
  any-false p (x ∷ xs) a h m = ground (arith, e.same_iff a x, any-false p xs a)

  pub all-true : (p : A → Bool) (xs : List A) (a : A) → all p xs ≡ true → a ∈ xs → p a ≡ true
  all-true p [] a h m = cc
  all-true p (x ∷ xs) a h m = ground (arith, e.same_iff a x, all-true p xs a)

  pub all_of_mem : (p : A → Bool) (xs : List A) → ((a : A) → a ∈ xs → p a ≡ true) → all p xs ≡ true
  all_of_mem p [] h = refl
  all_of_mem p (x ∷ xs) h =
      ground (arith, h x, e.same_iff x x, all_of_mem p xs (λ a m. h a (ground arith)))

  pub filter-nil : (p : A → Bool) (xs : List A) (a : A) → filter p xs ≡ [] → a ∈ xs → p a ≡ false
  filter-nil p xs a h m = ground (arith, contains-filter p xs a)
