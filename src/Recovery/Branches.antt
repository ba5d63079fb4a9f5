-- ===== src/Recovery/Branches.antt =====
-- Which branches the parser of `git worktree list --porcelain` takes for those of an issue.
use text.Mathlib.Text.{starts_with}
use baton_harness.Recovery.Sweep.{flush, parse_line, parse_lines, parse_worktree_list, Parsing}
use baton_harness.Base.{
  String, ◌≡◌, refl, ◌⊎◌, inl, inr, false, ◌&&◌, none, List, [], ◌∷◌, arith, Option-cases,
  string_eq, nat_eq, ==_refl, ◌∈◌,
}
use baton_harness.Recovery.{baton_branch_prefix, behind, Texts}

module _ (texts : Texts) where
  -- The line names no branch "refs/heads/baton/<N>" with a number <N>.
  abbrev pub IsUnnumbered : String → Type 0
  IsUnnumbered raw =
      let line = texts.strip raw in
      ((starts_with line "branch " && starts_with (behind "branch " line) baton_branch_prefix)
        ≡ false)
      ⊎ (texts.int_of (behind baton_branch_prefix (behind "branch " line)) ≡ none)

  record IsBlank (s : Parsing) : Type 0 where
    no_results : s.results ≡ []
    no_issue : s.current_issue ≡ none

  flush-IsBlank : (s : Parsing) → IsBlank s → flush s ≡ []
  unfolding flush
  flush-IsBlank s b = elim (Option-cases s.current_path) [
    | inl e ↦ ground (arith, e, b.no_results)
    | inr (path, e) ↦ ground (arith, e, b.no_results, b.no_issue)
  ]

  parse_line-IsBlank :
      (raw : String) (s : Parsing)
      → IsUnnumbered raw
      → IsBlank s
      → IsBlank (parse_line texts (texts.strip raw) s)
  unfolding parse_line
  parse_line-IsBlank raw s u b = record {
    no_results = ground (arith, u, b.no_results, flush-IsBlank s b);
    no_issue = ground (arith, u, b.no_issue);
  }

  parse_lines-IsBlank :
      (lines : List String) (s : Parsing)
      → ((raw : String) → raw ∈ lines → IsUnnumbered raw)
      → IsBlank s
      → IsBlank (parse_lines texts lines s)
  unfolding parse_lines
  parse_lines-IsBlank [] s u b = b
  parse_lines-IsBlank (raw ∷ lines) s u b =
      parse_lines-IsBlank lines (parse_line texts (texts.strip raw) s)
        (λ l m. u l (ground (arith, m)))
        (parse_line-IsBlank raw s (u raw (ground (arith, ==_refl raw))) b)

  -- A listing in which no line names a branch with a bare number behind "refs/heads/baton/" yields no
  -- worktree.
  pub parse_worktree_list-IsUnnumbered :
      (porcelain : String)
      → ((raw : String) → raw ∈ texts.splitlines porcelain → IsUnnumbered raw)
      → parse_worktree_list texts porcelain ≡ []
  unfolding parse_worktree_list
  parse_worktree_list-IsUnnumbered porcelain u = flush-IsBlank _ (
      parse_lines-IsBlank (texts.splitlines porcelain) _ u
        (record { no_results = refl; no_issue = refl }))
