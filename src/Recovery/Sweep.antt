-- ===== src/Recovery/Sweep.antt =====
-- The sweep over left worktrees of src/baton_harness/chain/recovery.py: the parser of the listing, the
-- predicates on one worktree, and the loop.
use text.Mathlib.Text.{starts_with}
use baton_harness.Base.{
  ℕ, String, Bool, true, false, not, Option, none, some, List, [], ◌∷◌, ◌++◌, if◌then◌else◌,
  string_eq, nat_eq, ◌==◌, contains, add,
}
use baton_harness.Labels.{agent_in_progress}
use baton_harness.Recovery.{baton_branch_prefix, behind, Texts, Outside}

-- The state of the parser of `git worktree list --porcelain`.
pub record Parsing : Type 0 where
  pub results : List (String × ℕ)
  pub current_path : Option String
  pub current_issue : Option ℕ

-- if current_path is not None and current_issue is not None: results.append(..)
unfoldable pub flush : Parsing → List (String × ℕ)
flush s = elim s.current_path [
  | none ↦ s.results
  | some path ↦ elim s.current_issue [
    | none ↦ s.results
    | some issue ↦ s.results ++ (path, issue) ∷ []
  ]
]

module _ (texts : Texts) where
  open texts use {strip, splitlines, int_of}

  unfoldable pub parse_line : String → Parsing → Parsing
  unfolding flush
  parse_line line s =
      if starts_with line "worktree "
      then record {
        results = flush s;
        current_path = some (behind "worktree " line);
        current_issue = none;
      }
      else if starts_with line "branch "
      then (let branch = behind "branch " line in
          if starts_with branch baton_branch_prefix
          then record {
            results = s.results;
            current_path = s.current_path;
            current_issue = int_of (behind baton_branch_prefix branch);
          }
          else s)
      else s

  unfoldable pub parse_lines : List String → Parsing → Parsing
  unfolding parse_line
  parse_lines [] s = s
  parse_lines (raw ∷ lines) s = parse_lines lines (parse_line (strip raw) s)

  unfoldable pub parse_worktree_list : String → List (String × ℕ)
  unfolding parse_lines flush
  parse_worktree_list porcelain = flush (
      parse_lines (splitlines porcelain)
        (record { results = []; current_path = none; current_issue = none }))

module _ {W : Type 0} (outside : Outside W) where
  open outside use {state_and_labels, status_of, unpushed_of, alert_orphan, cleanup_worktree}

  unfoldable pub is_worktree_live : String → W → W × Bool
  is_worktree_live path w =
      let (w1, status) = status_of path w in
      if elim status [ none ↦ false | some out ↦ not (out == "") ]
      then (w1, true)
      else (let (w2, unpushed) = unpushed_of path w1 in
          (w2, elim unpushed [ none ↦ true | some out ↦ not (out == "") ]))

  -- The predicates of the sweep on one worktree: is it an orphan?
  unfoldable pub is_orphan : (running : List ℕ) → String → ℕ → W → W × Bool
  unfolding is_worktree_live
  is_orphan running path issue w =
      if contains running issue
      then (w, false)
      else (let (w1, seen_issue) = state_and_labels issue w in
          if not (elim seen_issue.0 [ none ↦ false | some s ↦ s == "CLOSED" ])
          then (w1, false)
          else if contains seen_issue.1 agent_in_progress
          then (w1, false)
          else (let (w2, live) = is_worktree_live path w1 in (w2, not live)))

  -- The loop over the worktrees: the orphans, and the calls of `cleanup_worktree`. `reclaim` says that the
  -- mode is "reclaim" and a clean-up was handed over; one that raises ends the loop.
  unfoldable pub scan_loop :
      (reclaim : Bool)
      → (running : List ℕ) → List (String × ℕ)
      → W
      → (orphans cleaned : List ℕ) → W × (List ℕ × List ℕ)
  unfolding is_orphan
  scan_loop reclaim running [] w orphans cleaned = (w, (orphans, cleaned))
  scan_loop reclaim running ((path, issue) ∷ worktrees) w orphans cleaned =
      let (w1, orphan) = is_orphan running path issue w in
      elim orphan [
        | false ↦ scan_loop reclaim running worktrees w1 orphans cleaned
        | true ↦
            let w2 = alert_orphan issue path w1 in
            elim reclaim [
              | false ↦ scan_loop false running worktrees w2 (add issue orphans) cleaned
              | true ↦
                  let (w3, returned) = cleanup_worktree issue w2 in
                  elim returned [
                    | true ↦
                        scan_loop true running worktrees w3 (add issue orphans)
                          (cleaned ++ issue ∷ [])
                    | false ↦ (w3, (add issue orphans, cleaned ++ issue ∷ []))
                  ]
            ]
      ]

module _ {W : Type 0} (outside : Outside W) (texts : Texts) where
  open outside use {worktree_list}

  unfoldable pub scan_orphan_worktrees :
      (reclaim : Bool) → (running : List ℕ) → W → W × (List ℕ × List ℕ)
  unfolding parse_worktree_list scan_loop
  scan_orphan_worktrees reclaim running w =
      let (w', listed) = worktree_list w in
      elim listed [
        | none ↦ (w', ([], []))
        | some porcelain ↦
            scan_loop outside reclaim running (parse_worktree_list texts porcelain) w' [] []
      ]
