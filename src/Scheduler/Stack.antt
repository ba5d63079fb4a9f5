-- ===== src/Scheduler/Stack.antt =====
-- The stack of `mark_parked` of src/baton_harness/chain/scheduler.py, and what is left for it to visit.
use mathlib.Core.List.{reverse, reverse-cons}
use baton_harness.Base.{
  ℕ, zero, suc, ◌+◌, ◌≤◌, ◌≡◌, refl, ap, List, [], ◌∷◌, arith, if◌then◌else◌, string_eq, nat_eq,
  length, replicate, length-append, contains, ◌∉◌, count, contains-append,
}
use baton_harness.Dag.{Graph}
use baton_harness.Scheduler.Edges.{dependents, edge_count}
use baton_harness.Scheduler.{}

pub contains-reverse : (xs : List ℕ) (a : ℕ) → contains (reverse xs) a ≡ contains xs a
contains-reverse [] a = refl
contains-reverse (x ∷ xs) a =
    rw reverse-cons (ground (arith, contains-append (reverse xs) (x ∷ []) a, contains-reverse xs a))

pub length-reverse : (xs : List ℕ) → length (reverse xs) ≡ length xs
length-reverse [] = refl
length-reverse (x ∷ xs) =
    rw reverse-cons (omega (arith, length-append (reverse xs) (x ∷ []), length-reverse xs))

-- What the loop still has to do: the edges out of issues that are not parked.
open_blockers : List ℕ → List ℕ → ℕ
open_blockers parked [] = 0
open_blockers parked (b ∷ bs) =
    let rest = open_blockers parked bs in if contains parked b then rest else suc rest

pub open_edges : List ℕ → Graph → ℕ
open_edges parked [] = 0
open_edges parked ((w, bs) ∷ g) = open_blockers parked bs + open_edges parked g

open_blockers-cons :
    (u : ℕ) (parked bs : List ℕ)
    → u ∉ parked
    → open_blockers (u ∷ parked) bs + count u bs ≡ open_blockers parked bs
unfolding open_blockers
open_blockers-cons u parked [] h = omega arith
open_blockers-cons u parked (b ∷ bs) h = ground (arith, open_blockers-cons u parked bs h)

length-replicate : (n w : ℕ) → length (replicate n w) ≡ n
length-replicate zero w = refl
length-replicate (suc n) w = ap suc (length-replicate n w)

pub open_edges-cons :
    (u : ℕ) (parked : List ℕ) (g : Graph)
    → u ∉ parked
    → open_edges (u ∷ parked) g + length (dependents g u) ≡ open_edges parked g
unfolding open_edges dependents
open_edges-cons u parked [] h = omega arith
open_edges-cons u parked ((w, bs) ∷ g) h = omega (
  arith,
  open_blockers-cons u parked bs h,
  open_edges-cons u parked g h,
  length-append (replicate (count u bs) w) (dependents g u),
  length-replicate (count u bs) w,
)

open_blockers-le : (parked bs : List ℕ) → open_blockers parked bs ≤ length bs
unfolding open_blockers
open_blockers-le parked [] = omega arith
open_blockers-le parked (b ∷ bs) = ground (arith, open_blockers-le parked bs)

pub open_edges-le : (parked : List ℕ) (g : Graph) → open_edges parked g ≤ edge_count g
unfolding open_edges edge_count
open_edges-le parked [] = omega arith
open_edges-le parked ((w, bs) ∷ g) =
    omega (arith, open_blockers-le parked bs, open_edges-le parked g)
