-- ===== src/Recovery/Orphans.antt =====
-- What the sweep over left worktrees reports while the answers that it reads do not change.
use baton_harness.Recovery.Sweep.{
  parse_worktree_list, is_worktree_live, is_orphan, scan_loop, scan_orphan_worktrees,
}
use baton_harness.Base.{
  ℕ, String, ◌≡◌, ap, ◌↔◌, ◌⊎◌, inl, inr, Bool, true, false, Option, none, some, List, [], ◌∷◌,
  ◌++◌, arith, eq_iff, nat_beq_iff, Bool-cases, Option-cases, string_eq, nat_eq, contains, ◌∈◌, ◌∉◌,
  add, contains-append, contains-add,
}
use baton_harness.Labels.{agent_in_progress}
use baton_harness.Recovery.{Texts, Outside}

-- What the sweep reads does not change while it runs.
pub record Steady {W : Type 0} (outside : Outside W) : Type 0 where
  pub state_of : ℕ → Option String
  pub labels_of : ℕ → List String
  pub dirty_of : String → Option String
  pub ahead_of : String → Option String
  pub reads_state : (n : ℕ) (w : W) → (outside.state_and_labels n w).1.0 ≡ state_of n
  pub reads_labels : (n : ℕ) (w : W) → (outside.state_and_labels n w).1.1 ≡ labels_of n
  pub reads_status : (path : String) (w : W) → (outside.status_of path w).1 ≡ dirty_of path
  pub reads_unpushed : (path : String) (w : W) → (outside.unpushed_of path w).1 ≡ ahead_of path

module _ {W : Type 0} (outside : Outside W) (s : Steady outside) (running : List ℕ) where
  -- A worktree that the sweep may report: its issue is closed, not running and not in progress, there
  -- is nothing to push, and no change that `git status` could show.
  pub record Orphan (path : String) (issue : ℕ) : Type 0 where
    pub stopped : issue ∉ running
    pub closed : s.state_of issue ≡ some "CLOSED"
    pub idle : agent_in_progress ∉ s.labels_of issue
    pub pushed : s.ahead_of path ≡ some ""
    pub clean : (s.dirty_of path ≡ none) ⊎ (s.dirty_of path ≡ some "")

  is_worktree_live-true :
      (path : String) (w : W) → s.ahead_of path ≡ none → (is_worktree_live outside path w).1 ≡ true
  unfolding is_worktree_live
  is_worktree_live-true path w e =
      ground (arith, e, s.reads_unpushed path (outside.status_of path w).0)

  is_worktree_live-some :
      (path : String) (w : W)
      → (out : String) → s.ahead_of path ≡ some out
      → ((is_worktree_live outside path w).1 ≡ false)
        ↔ ((out ≡ "") × ((s.dirty_of path ≡ none) ⊎ (s.dirty_of path ≡ some "")))
  unfolding is_worktree_live
  is_worktree_live-some path w out e =
      let unpushed = s.reads_unpushed path (outside.status_of path w).0 in
      elim (Option-cases (s.dirty_of path)) [
        | inl d ↦ ground (arith, e, d, unpushed, s.reads_status path w, eq_iff out "")
        | inr (changes, d) ↦
            ground (arith, e, d, unpushed, s.reads_status path w, eq_iff changes "", eq_iff out "")
      ]

  is_worktree_live-false :
      (path : String) (w : W)
      → ((is_worktree_live outside path w).1 ≡ false)
        ↔ ((s.ahead_of path ≡ some "") × ((s.dirty_of path ≡ none) ⊎ (s.dirty_of path ≡ some "")))
  is_worktree_live-false path w = elim (Option-cases (s.ahead_of path)) [
    | inl e ↦ ground (arith, e, is_worktree_live-true path w e)
    | inr (out, e) ↦ ground (arith, e, is_worktree_live-some path w out e, eq_iff out "")
  ]

  is_orphan-live :
      (path : String) (issue : ℕ) (w : W)
      → ((is_orphan outside running path issue w).1 ≡ true) ↔ (
          (issue ∉ running)
          × (s.state_of issue ≡ some "CLOSED")
          × (agent_in_progress ∉ s.labels_of issue)
          × ((is_worktree_live outside path (outside.state_and_labels issue w).0).1 ≡ false))
  unfolding is_orphan
  is_orphan-live path issue w =
      let rs = s.reads_state issue w in
      let rl = s.reads_labels issue w in
      let rl' = ap (λ ls. contains ls agent_in_progress) rl in
      elim (Bool-cases (contains running issue)) [
        | inl r ↦ ground (arith, r)
        | inr r ↦ elim (Option-cases (s.state_of issue)) [
          | inl e ↦ ground (arith, r, e, rs)
          | inr (st, e) ↦ ground (arith, r, e, rs, rl', eq_iff st "CLOSED")
        ]
      ]

  is_orphan-Orphan :
      (path : String) (issue : ℕ) (w : W)
      → ((is_orphan outside running path issue w).1 ≡ true) ↔ Orphan path issue
  is_orphan-Orphan path issue w =
      let live = is_worktree_live-false path (outside.state_and_labels issue w).0 in
      (
        (λ h.
            let (r, c, i, l) = (is_orphan-live path issue w).0 h in
            let (a, d) = live.0 l in
            record { stopped = r; closed = c; idle = i; pushed = a; clean = d }),
        λ o.
            (is_orphan-live path issue w).1
              (o.stopped, o.closed, o.idle, live.1 (o.pushed, o.clean)),
      )

  -- The worktree that accounts for an issue of the report.
  abbrev pub Accounts : List (String × ℕ) → ℕ → Type 0
  Accounts [] issue = ⊥
  Accounts ((path, n) ∷ worktrees) issue = ((n ≡ issue) × Orphan path n) ⊎ Accounts worktrees issue

  scan_loop_sound :
      (reclaim : Bool) (worktrees : List (String × ℕ)) (w : W) (orphans cleaned : List ℕ)
      (issue : ℕ)
      → let r = (scan_loop outside reclaim running worktrees w orphans cleaned).1 in
        (issue ∈ r.0 → Accounts worktrees issue ⊎ (issue ∈ orphans))
        × (issue ∈ r.1 → Accounts worktrees issue ⊎ (issue ∈ cleaned))
  unfolding scan_loop
  scan_loop_sound reclaim [] w orphans cleaned issue = (λ m. inr m, λ m. inr m)
  scan_loop_sound reclaim ((path, n) ∷ worktrees) w orphans cleaned issue =
      let w1 = (is_orphan outside running path n w).0 in
      let w2 = outside.alert_orphan n path w1 in
      let w3 = (outside.cleanup_worktree n w2).0 in
      let same = nat_beq_iff issue n in
      let reported = contains-add n orphans issue in
      let called = contains-append cleaned (n ∷ []) issue in
      elim (Bool-cases (is_orphan outside running path n w).1) [
        | inr m ↦
            let rest = scan_loop_sound reclaim worktrees w1 orphans cleaned issue in
            ground (arith, m, rest)
        | inl o ↦
            let account = (is_orphan-Orphan path n w).0 o in
            elim (Bool-cases reclaim) [
              | inr d ↦
                  let rest = scan_loop_sound false worktrees w2 (add n orphans) cleaned issue in
                  ground (arith, o, d, rest, account, same, reported)
              | inl c ↦ elim (Bool-cases (outside.cleanup_worktree n w2).1) [
                | inl t ↦
                    let rest =
                      scan_loop_sound true worktrees w3 (add n orphans) (cleaned ++ n ∷ []) issue in
                    ground (arith, o, c, t, rest, account, same, reported, called)
                | inr f ↦ ground (arith, o, c, f, account, same, reported, called)
              ]
            ]
      ]

  -- Where nothing is cleaned up, the loop reports every orphan and keeps what it has.
  scan_loop_complete :
      (worktrees : List (String × ℕ)) (w : W) (orphans cleaned : List ℕ) (issue : ℕ)
      → Accounts worktrees issue ⊎ (issue ∈ orphans)
      → issue ∈ (scan_loop outside false running worktrees w orphans cleaned).1.0
  unfolding scan_loop
  scan_loop_complete [] w orphans cleaned issue (inl none_listed) = elim none_listed [ ]
  scan_loop_complete [] w orphans cleaned issue (inr m) = m
  scan_loop_complete ((path, n) ∷ worktrees) w orphans cleaned issue h =
      let w1 = (is_orphan outside running path n w).0 in
      let same = nat_beq_iff issue n in
      let reported = contains-add n orphans issue in
      elim (Bool-cases (is_orphan outside running path n w).1) [
        | inr m ↦
            let rest = scan_loop_complete worktrees w1 orphans cleaned issue in
            let refuted = (is_orphan-Orphan path n w).1 in ground (arith, m, rest, refuted, h)
        | inl o ↦
            let rest =
              scan_loop_complete worktrees (outside.alert_orphan n path w1) (add n orphans) cleaned
                issue in
            ground (arith, o, rest, same, reported, h)
      ]

  module _ (texts : Texts) where
    -- While the answers of git and GitHub do not change, the sweep in "detect" mode reports an issue
    -- exactly if some listed worktree of it is an orphan: closed, not running, not in progress, and with
    -- neither unpushed commits nor changes that `git status` shows.
    pub scan_orphan_worktrees-Accounts :
        (w : W) (porcelain : String)
        → (outside.worktree_list w).1 ≡ some porcelain
        → (issue : ℕ)
        → (issue ∈ (scan_orphan_worktrees outside texts false running w).1.0)
          ↔ Accounts (parse_worktree_list texts porcelain) issue
    unfolding scan_orphan_worktrees
    scan_orphan_worktrees-Accounts w porcelain h issue =
        let listed = parse_worktree_list texts porcelain in
        let w' = (outside.worktree_list w).0 in
        let sound = scan_loop_sound false listed w' [] [] issue in
        let complete = scan_loop_complete listed w' [] [] issue in
        ground (arith, h, sound, complete)
