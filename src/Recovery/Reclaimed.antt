-- ===== src/Recovery/Reclaimed.antt =====
-- What the sweep over left worktrees cleans up, whatever its alerts and clean-ups change.
use baton_harness.Recovery.Sweep.{
  parse_worktree_list, is_worktree_live, is_orphan, scan_loop, scan_orphan_worktrees,
}
use baton_harness.Base.{
  ℕ, String, ◌≡◌, refl, ◌⊎◌, inl, inr, Bool, true, false, none, some, List, [], ◌∷◌, ◌++◌, arith,
  eq_iff, if◌then◌else◌, nat_beq_iff, Bool-cases, Option-cases, string_eq, nat_eq, contains, ◌∈◌,
  ◌∉◌, add, contains-append,
}
use baton_harness.Labels.{agent_in_progress}
use baton_harness.Recovery.{Texts, Outside}

module _ {W : Type 0} (outside : Outside W) (running : List ℕ) where
  -- The answers to the sweep's queries about a worktree, each in the world in which it is asked, show an
  -- orphan: not running, closed, not in progress, no change that `git status` shows, nothing to push.
  abbrev pub SeenOrphan : String → ℕ → W → Type 0
  SeenOrphan path issue w =
      let seen_issue = outside.state_and_labels issue w in
      let status = outside.status_of path seen_issue.0 in
      (issue ∉ running)
      × (seen_issue.1.0 ≡ some "CLOSED")
      × (agent_in_progress ∉ seen_issue.1.1)
      × ((status.1 ≡ none) ⊎ (status.1 ≡ some ""))
      × ((outside.unpushed_of path status.0).1 ≡ some "")

  -- The world behind an orphan's alert and clean-up, or behind a worktree that is none.
  abbrev world_behind : String → ℕ → W → W
  world_behind path issue w =
      let (w1, orphan) = is_orphan outside running path issue w in
      if orphan then (outside.cleanup_worktree issue (outside.alert_orphan issue path w1)).0 else w1

  -- One of the worktrees is the issue's, and is seen to be an orphan when the loop comes to it: behind the
  -- alerts and clean-ups of those before it.
  abbrev pub SeenAmong : List (String × ℕ) → W → ℕ → Type 0
  SeenAmong [] w issue = ⊥
  SeenAmong ((path, n) ∷ worktrees) w issue =
      ((n ≡ issue) × SeenOrphan path n w) ⊎ SeenAmong worktrees (world_behind path n w) issue

  is_worktree_live-seen :
      (path : String) (w : W)
      → let status = outside.status_of path w in
        (is_worktree_live outside path w).1 ≡ false
        → ((status.1 ≡ none) ⊎ (status.1 ≡ some ""))
          × ((outside.unpushed_of path status.0).1 ≡ some "")
  unfolding is_worktree_live
  is_worktree_live-seen path w h =
      let status = outside.status_of path w in
      elim (Option-cases status.1) [
        | inl d ↦ elim (Option-cases (outside.unpushed_of path status.0).1) [
          | inl u ↦ absurd (ground (arith, d, u, h))
          | inr (out, u) ↦ (inl d, ground (arith, d, u, h, eq_iff out ""))
        ]
        | inr (changes, d) ↦ elim (Option-cases (outside.unpushed_of path status.0).1) [
          | inl u ↦ absurd (ground (arith, d, u, h))
          | inr (out, u) ↦ (
            inr (ground (arith, d, u, h, eq_iff changes "")),
            ground (arith, d, u, h, eq_iff out "", eq_iff changes ""),
          )
        ]
      ]

  is_orphan-seen :
      (path : String) (issue : ℕ) (w : W)
      → (is_orphan outside running path issue w).1 ≡ true
      → SeenOrphan path issue w
  unfolding is_orphan
  is_orphan-seen path issue w h =
      let seen_issue = outside.state_and_labels issue w in
      elim (Option-cases seen_issue.1.0) [
        | inl e ↦ absurd (ground (arith, e, h))
        | inr (st, e) ↦
            let live : (is_worktree_live outside path seen_issue.0).1 ≡ false =
              ground (arith, e, h) in
            let (clean, pushed) = is_worktree_live-seen path seen_issue.0 live in
            (
              ground (arith, e, h),
              ground (arith, e, h, eq_iff st "CLOSED"),
              ground (arith, e, h),
              clean,
              pushed,
            )
      ]

  scan_loop-seen :
      (worktrees : List (String × ℕ)) (w : W) (orphans cleaned : List ℕ) (issue : ℕ)
      → issue ∈ (scan_loop outside true running worktrees w orphans cleaned).1.1
      → SeenAmong worktrees w issue ⊎ (issue ∈ cleaned)
  unfolding scan_loop
  scan_loop-seen [] w orphans cleaned issue m = inr m
  scan_loop-seen ((path, n) ∷ worktrees) w orphans cleaned issue m =
      let w1 = (is_orphan outside running path n w).0 in
      let cleanup = outside.cleanup_worktree n (outside.alert_orphan n path w1) in
      let called = contains-append cleaned (n ∷ []) issue in
      let same = nat_beq_iff issue n in
      elim (Bool-cases (is_orphan outside running path n w).1) [
        | inr f ↦ elim (scan_loop-seen worktrees w1 orphans cleaned issue (ground (arith, f, m))) [
          | inl later ↦ inl (inr (rw f later))
          | inr before ↦ inr before
        ]
        | inl o ↦
            let seen = is_orphan-seen path n w o in
            elim (Bool-cases (contains (n ∷ []) issue)) [
              | inl here ↦ inl (inl (ground (arith, here, same), seen))
              | inr other ↦ elim (Bool-cases cleanup.1) [
                | inr raised_here ↦ inr (ground (arith, o, raised_here, m, called, other))
                | inl returned ↦
                    elim (scan_loop-seen worktrees cleanup.0 (add n orphans) (cleaned ++ n ∷ [])
                      issue (ground (arith, o, returned, m))) [
                        | inl later ↦ inl (inr (rw o later))
                        | inr before ↦ inr (ground (arith, before, called, other))
                      ]
              ]
            ]
      ]

  scan_loop_detects :
      (worktrees : List (String × ℕ)) (w : W) (orphans cleaned : List ℕ)
      → (scan_loop outside false running worktrees w orphans cleaned).1.1 ≡ cleaned
  unfolding scan_loop
  scan_loop_detects [] w orphans cleaned = refl
  scan_loop_detects ((path, n) ∷ worktrees) w orphans cleaned =
      let w1 = (is_orphan outside running path n w).0 in
      elim (Bool-cases (is_orphan outside running path n w).1) [
        | inr f ↦ ground (arith, f, scan_loop_detects worktrees w1 orphans cleaned)
        | inl o ↦
            let rest =
              scan_loop_detects worktrees (outside.alert_orphan n path w1) (add n orphans)
                cleaned in
            ground (arith, o, rest)
      ]

  -- Whatever the alerts and the clean-ups of the sweep change and whether or not a clean-up raises, the
  -- sweep cleans up only in "reclaim" mode, and only behind an issue with a listed worktree that was seen to
  -- be an orphan when the loop came to it.
  pub scan_orphan_worktrees-cleaned :
      (texts : Texts) (reclaim : Bool) (w : W) (porcelain : String)
      → (outside.worktree_list w).1 ≡ some porcelain
      → (issue : ℕ) → issue ∈ (scan_orphan_worktrees outside texts reclaim running w).1.1
      → (reclaim ≡ true)
        × SeenAmong (parse_worktree_list texts porcelain) (outside.worktree_list w).0 issue
  unfolding scan_orphan_worktrees
  scan_orphan_worktrees-cleaned texts false w porcelain h issue m =
      let none_cleaned =
        scan_loop_detects (parse_worktree_list texts porcelain) (outside.worktree_list w).0 [] [] in
      absurd (ground (arith, h, m, none_cleaned))
  scan_orphan_worktrees-cleaned texts true w porcelain h issue m =
      elim (scan_loop-seen (parse_worktree_list texts porcelain) (outside.worktree_list w).0 [] []
        issue (ground (arith, h, m))) [
          | inl seen ↦ (refl, seen)
          | inr before ↦ absurd (ground (arith, before))
        ]
