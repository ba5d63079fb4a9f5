-- ===== src/Recovery/Places.antt =====
-- Where `reconstruct` puts the issues of a work unit.
use mathlib.Core.Path.{subst}
use baton_harness.Base.{
  ℕ, String, ◌≡◌, refl, sym, ap, ◌∙◌, ◌≢◌, ◌↔◌, ◌⊎◌, inl, inr, Bool, true, false, ◌||◌, List, [],
  ◌∷◌, arith, nat_beq_iff, Bool-cases, string_eq, nat_eq, ◌==◌, contains, ◌∈◌, ◌∉◌, contains-add,
}
use baton_harness.Labels.{agent_done, blocked, agent_in_progress}
use baton_harness.Recovery.{
  agent_merged, provenance_merges, has_open_pr, nothing_found, place, put, or_empty_list,
  reconstruct_loop, reconstruct, Texts, RecoveryResult, Place, Outside, in_done, in_parked_seed,
  in_ci_gate_reentry, in_redispatch, fresh,
}

-- The set of a result that a place names; "fresh" names none.
abbrev pub set_of : Place → RecoveryResult → List ℕ
set_of in_done r = r.done
set_of in_parked_seed r = r.parked_seed
set_of in_ci_gate_reentry r = r.ci_gate_reentry
set_of in_redispatch r = r.redispatch
set_of fresh r = []

-- What an issue in a set is known by: the provenance of its merge, its open pull request and its labels.
abbrev pub Belongs : Place → (merged has_pr : Bool) → List String → Type 0
Belongs in_done merged has_pr labels = (merged ≡ true) × (agent_merged ∈ labels)
Belongs in_parked_seed merged has_pr labels = (merged ≡ false) × (blocked ∈ labels)
Belongs in_ci_gate_reentry merged has_pr labels =
    ((merged ≡ true) × (agent_merged ∉ labels))
    ⊎ ((merged ≡ false) × (blocked ∉ labels) × (agent_done ∈ labels) × (has_pr ≡ true))
Belongs in_redispatch merged has_pr labels =
    (merged ≡ false)
    × (blocked ∉ labels)
    × (agent_in_progress ∈ labels)
    × ((agent_done ∉ labels) ⊎ (has_pr ≡ false))
Belongs fresh merged has_pr labels =
    (merged ≡ false)
    × (blocked ∉ labels)
    × (agent_in_progress ∉ labels)
    × ((agent_done ∉ labels) ⊎ (has_pr ≡ false))

place-Belongs :
    (p : Place) (merged has_pr : Bool) (labels : List String)
    → (place merged has_pr labels ≡ p) ↔ Belongs p merged has_pr labels
unfolding place
place-Belongs in_done merged has_pr labels = (λ e. ground (arith, e), λ h. ground (arith, h))
place-Belongs in_parked_seed merged has_pr labels = (λ e. ground (arith, e), λ h. ground (arith, h))
place-Belongs in_ci_gate_reentry merged has_pr labels =
    (λ e. ground (arith, e), λ h. ground (arith, h))
place-Belongs in_redispatch merged has_pr labels = (λ e. ground (arith, e), λ h. ground (arith, h))
place-Belongs fresh merged has_pr labels = (λ e. ground (arith, e), λ h. ground (arith, h))

set_of-put_other :
    (n : ℕ) (at p : Place) (r : RecoveryResult) → p ≢ at → set_of p (put n at r) ≡ set_of p r
unfolding put
set_of-put_other n in_done in_done r h = absurd (h refl)
set_of-put_other n in_parked_seed in_parked_seed r h = absurd (h refl)
set_of-put_other n in_ci_gate_reentry in_ci_gate_reentry r h = absurd (h refl)
set_of-put_other n in_redispatch in_redispatch r h = absurd (h refl)
set_of-put_other n at p r h = refl

contains-put_same :
    (n m : ℕ) (p : Place) (r : RecoveryResult)
    → p ≢ fresh
    → contains (set_of p (put n p r)) m ≡ (m == n || contains (set_of p r) m)
unfolding put
contains-put_same n m in_done r h = contains-add n r.done m
contains-put_same n m in_parked_seed r h = contains-add n r.parked_seed m
contains-put_same n m in_ci_gate_reentry r h = contains-add n r.ci_gate_reentry m
contains-put_same n m in_redispatch r h = contains-add n r.redispatch m
contains-put_same n m fresh r h = absurd (h refl)

place-cases : (p q : Place) → (p ≡ q) ⊎ (p ≢ q)
place-cases in_done in_done = inl refl
place-cases in_parked_seed in_parked_seed = inl refl
place-cases in_ci_gate_reentry in_ci_gate_reentry = inl refl
place-cases in_redispatch in_redispatch = inl refl
place-cases fresh fresh = inl refl
place-cases p q = inr (λ e. ground arith)

-- A put adds the issue to the set of its place, and touches no other.
mem-put :
    (n m : ℕ) (at p : Place) (r : RecoveryResult)
    → p ≢ fresh
    → (m ∈ set_of p (put n at r)) ↔ (((m ≡ n) × (at ≡ p)) ⊎ (m ∈ set_of p r))
mem-put n m at p r h = elim (place-cases p at) [
  | inl e ↦
      let same = contains-put_same n m p r h in
      subst (λ q. (m ∈ set_of p (put n q r)) ↔ (((m ≡ n) × (q ≡ p)) ⊎ (m ∈ set_of p r))) e
        (ground (arith, same))
  | inr d ↦ let other = set_of-put_other n at p r d in ground (arith, other)
]

mem-nothing_found : (p : Place) (m : ℕ) → contains (set_of p nothing_found) m ≡ false
mem-nothing_found in_done m = refl
mem-nothing_found in_parked_seed m = refl
mem-nothing_found in_ci_gate_reentry m = refl
mem-nothing_found in_redispatch m = refl
mem-nothing_found fresh m = refl

module _ {W : Type 0} (outside : Outside W) (texts : Texts) (labels_of : ℕ → List String)
    (steady : (n : ℕ) (w : W) → (outside.fetch_labels n w).1 ≡ labels_of n) where
  -- Where the rules put an issue.
  abbrev pub place_of : List ℕ → List String → ℕ → Place
  place_of merges heads n = place (contains merges n) (has_open_pr texts n heads) (labels_of n)

  reconstruct_loop-mem :
      (merges : List ℕ) (heads : List String) (membership : List ℕ) (w : W) (r : RecoveryResult)
      → (p : Place) → p ≢ fresh
      → (m : ℕ)
      → (m ∈ set_of p (reconstruct_loop outside texts merges heads membership w r).1)
        ↔ (((m ∈ membership) × (place_of merges heads m ≡ p)) ⊎ (m ∈ set_of p r))
  unfolding reconstruct_loop
  reconstruct_loop-mem merges heads [] w r p h m = ground arith
  reconstruct_loop-mem merges heads (n ∷ membership) w r p h m =
      let w' = (outside.fetch_labels n w).0 in
      let at = place (contains merges n) (has_open_pr texts n heads) (outside.fetch_labels n w).1 in
      let q : at ≡ place_of merges heads n =
        ap (place (contains merges n) (has_open_pr texts n heads)) (steady n w) in
      let added = mem-put n m at p r h in
      let rest = reconstruct_loop-mem merges heads membership w' (put n at r) p h m in
      elim (Bool-cases (m == n)) [
        | inl e ↦
            subst
              (λ k.
                (m
                  ∈ set_of p
                      (reconstruct_loop outside texts merges heads membership w' (put n at r)).1)
                ↔ ((((m == n || contains membership m) ≡ true) × (place_of merges heads k ≡ p))
                    ⊎ (m ∈ set_of p r)))
              (sym ((nat_beq_iff m n).0 e))
              (let same = (nat_beq_iff m n).0 e in
                ground (arith, e, added, rest, q, same, ap (place_of merges heads) same))
        | inr d ↦ ground (arith, d, added, rest, nat_beq_iff m n)
      ]

  abbrev pub merges_seen : W → List ℕ
  merges_seen w = provenance_merges texts (outside.git_log_merges w).1

  abbrev pub heads_seen : W → List String
  heads_seen w = or_empty_list (outside.open_pr_heads (outside.git_log_merges w).0).1

  reconstruct-place :
      (membership : List ℕ) (w : W) (p : Place)
      → p ≢ fresh
      → (m : ℕ)
      → (m ∈ set_of p (reconstruct outside texts membership w).1)
        ↔ ((m ∈ membership) × (place_of (merges_seen w) (heads_seen w) m ≡ p))
  unfolding reconstruct
  reconstruct-place membership w p h m =
      let loop =
        reconstruct_loop-mem (merges_seen w) (heads_seen w) membership
          (outside.open_pr_heads (outside.git_log_merges w).0).0 nothing_found p h m in
      ground (arith, loop, mem-nothing_found p m)

  -- While the labels of the issues do not change, an issue is in a set of `reconstruct` exactly when it is a
  -- member of the work unit and belongs there: among the done, if its merge has left its trailer and it is
  -- "agent-merged"; at the gate, if its merge has left its trailer and it is not "agent-merged", or there is
  -- no trailer and it is "agent-done" with an open pull request and not "blocked"; among the parked, if there
  -- is no trailer and it is "blocked"; for redispatch, if it is "agent-in-progress", with no trailer, not
  -- "blocked", and not "agent-done" with an open pull request.
  pub reconstruct-mem :
      (membership : List ℕ) (w : W) (p : Place)
      → p ≢ fresh
      → (m : ℕ)
      → (m ∈ set_of p (reconstruct outside texts membership w).1) ↔ (
          (m ∈ membership)
          × Belongs p
              (contains (merges_seen w) m)
              (has_open_pr texts m (heads_seen w))
              (labels_of m))
  reconstruct-mem membership w p h m =
      let placed = reconstruct-place membership w p h m in
      let belongs =
        place-Belongs p (contains (merges_seen w) m) (has_open_pr texts m (heads_seen w))
          (labels_of m) in
      (
        λ is. let (member, at) = placed.0 is in (member, belongs.0 at),
        λ (member, known). placed.1 (member, belongs.1 known),
      )

  -- While the labels of the issues do not change, no issue is in two of the sets of `reconstruct`.
  pub reconstruct-disjoint :
      (membership : List ℕ) (w : W) (p q : Place) (m : ℕ)
      → p ≢ fresh
      → q ≢ fresh
      → m ∈ set_of p (reconstruct outside texts membership w).1
      → m ∈ set_of q (reconstruct outside texts membership w).1
      → p ≡ q
  reconstruct-disjoint membership w p q m hp hq mp mq =
      sym ((reconstruct-place membership w p hp m).0 mp).1
      ∙ ((reconstruct-place membership w q hq m).0 mq).1
