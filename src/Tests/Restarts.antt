-- ===== src/Tests/Restarts.antt =====
-- Recovery on a concrete repository.
use baton_harness.Recovery.Sweep.{parse_worktree_list, scan_orphan_worktrees}
use mathlib.Core.Path.{subst}
use baton_harness.Base.{
  ℕ, String, ◌≡◌, refl, sym, ◌↔◌, inl, inr, true, false, none, some, List, [], ◌∷◌, arith, eq_iff,
  if◌then◌else◌, Bool-cases, string_eq, nat_eq, ◌==◌, contains, ◌∈◌,
}
use baton_harness.Labels.{blocked, agent_in_progress}
use baton_harness.Tests.Numerals.{str_of}
use baton_harness.Recovery.{has_open_pr, reconstruct, Texts, Outside, in_parked_seed}
use baton_harness.Recovery.Places.{set_of, Belongs, merges_seen, heads_seen, reconstruct-mem}
use baton_harness.Recovery.Orphans.{Accounts, scan_orphan_worktrees-Accounts, Steady}
use baton_harness.Recovery.Reclaimed.{SeenAmong, scan_orphan_worktrees-cleaned}
use baton_harness.Recovery.Branches.{IsUnnumbered, parse_worktree_list-IsUnnumbered}

-- A listing is one line here, and only "/w" names a number.
abbrev texts : Texts
texts = record {
  strip = λ s. s;
  splitlines = λ s. "worktree /w" ∷ s ∷ [];
  ends_with = λ s t. false;
  split_records = λ s. s ∷ [];
  body_of = λ s. none;
  first_word = λ s. s;
  int_of = λ s. if s == "7" then some 7 else none;
  str_of = str_of;
  concat = λ s t. s;
}

abbrev outside : Outside (List ℕ)
outside = record {
  git_log_merges = λ w. (w, none);
  open_pr_heads = λ w. (w, none);
  fetch_labels = λ n w. (w, (if n == 7 then blocked ∷ [] else agent_in_progress ∷ []));
  worktree_list = λ w. (w, some "branch refs/heads/baton/7");
  state_and_labels = λ n w. (w, (some "CLOSED", []));
  status_of = λ path w. (w, some "");
  unpushed_of = λ path w. (w, some "");
  alert_orphan = λ n path w. w;
  cleanup_worktree = λ n w. (n ∷ w, true);
}

abbrev members : List ℕ
members = 7 ∷ 8 ∷ []

abbrev labels_of : ℕ → List String
labels_of n = if n == 7 then blocked ∷ [] else agent_in_progress ∷ []

reconstruct-mem_example : (7 ∈ set_of in_parked_seed (reconstruct outside texts members []).1) ↔ (
    (7 ∈ members)
    × Belongs in_parked_seed
        (contains (merges_seen outside texts labels_of (λ n w. refl) []) 7)
        (has_open_pr texts 7 (heads_seen outside texts labels_of (λ n w. refl) []))
        (labels_of 7))
reconstruct-mem_example =
    reconstruct-mem outside texts labels_of (λ n w. refl) members [] in_parked_seed
      (λ e. ground arith) 7

parked_7 : 7 ∈ set_of in_parked_seed (reconstruct outside texts members []).1
unfolding reconstruct
parked_7 = refl

steady : Steady outside
steady = record {
  state_of = λ n. some "CLOSED";
  labels_of = λ n. [];
  dirty_of = λ path. some "";
  ahead_of = λ path. some "";
  reads_state = λ n w. refl;
  reads_labels = λ n w. refl;
  reads_status = λ path w. refl;
  reads_unpushed = λ path w. refl;
}

scan_orphan_worktrees-Accounts_example :
    (7 ∈ (scan_orphan_worktrees outside texts false (9 ∷ []) []).1.0)
    ↔ Accounts outside steady (9 ∷ []) (parse_worktree_list texts "branch refs/heads/baton/7") 7
scan_orphan_worktrees-Accounts_example =
    scan_orphan_worktrees-Accounts outside steady (9 ∷ []) texts [] "branch refs/heads/baton/7" refl
      7

-- Behind the clean-up of an issue no git command answers in its worktree.
abbrev reclaiming : Outside (List ℕ)
reclaiming = record outside {
  unpushed_of = λ path w. (w, (if contains w 7 then none else some ""));
}

cleaned_7 : 7 ∈ (scan_orphan_worktrees reclaiming texts true (9 ∷ []) []).1.1
unfolding scan_orphan_worktrees
cleaned_7 = refl

scan_orphan_worktrees-cleaned_example :
    (true ≡ true)
    × SeenAmong reclaiming (9 ∷ []) (parse_worktree_list texts "branch refs/heads/baton/7") [] 7
scan_orphan_worktrees-cleaned_example =
    scan_orphan_worktrees-cleaned reclaiming (9 ∷ []) texts true [] "branch refs/heads/baton/7" refl
      7 cleaned_7

unnumbered :
    (raw : String)
    → raw ∈ texts.splitlines "branch refs/heads/baton/issue-7-7"
    → IsUnnumbered texts raw
unnumbered raw m = elim (Bool-cases (raw == "worktree /w")) [
  | inl e ↦ subst (IsUnnumbered texts) (sym ((eq_iff raw "worktree /w").0 e)) (inl refl)
  | inr n ↦
      subst (IsUnnumbered texts)
        (sym ((eq_iff raw "branch refs/heads/baton/issue-7-7").0 (ground (arith, m, n)))) (inr refl)
]

-- A reading of numbers that refuses every text but "7" refuses the tail of "baton/issue-7-7".
parse_worktree_list-IsUnnumbered_example :
    parse_worktree_list texts "branch refs/heads/baton/issue-7-7" ≡ []
parse_worktree_list-IsUnnumbered_example =
    parse_worktree_list-IsUnnumbered texts "branch refs/heads/baton/issue-7-7" unnumbered
