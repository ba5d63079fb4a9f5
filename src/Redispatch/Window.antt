-- ===== src/Redispatch/Window.antt =====
-- The window of src/baton_harness/chain/redispatch.py: forgetting the marks that left it never
-- changes a verdict.
use baton_harness.Base.{
  ℕ, ◌+◌, String, ◌≡◌, refl, ap, ◌∙◌, inl, inr, Bool, true, false, Option, none, List, [], ◌∷◌,
  ◌++◌, arith, if◌then◌else◌, nat_beq_iff, Bool-cases, ◌==◌, nat_eq, string_eq, ◌+ℤ◌, ◌-ℤ◌, ◌≤ℤ◌,
  ltb_ℤ, +ℤ_parts, -ℤ_parts, ℤ, pos, lookup-insert,
}
use baton_harness.Redispatch.{
  RedispatchTally, marks_in_window, exceeds_threshold, marks_of, prune, persist, advance_tick,
  record_and_check,
}

-- A mark that counts at a later tick was kept by the earlier pruning.
prune_keeps :
    (marks : List ℤ) (now later window : ℤ)
    → now ≤ℤ later
    → marks_in_window (prune (now -ℤ window) marks) later window
      ≡ marks_in_window marks later window
unfolding prune marks_in_window
prune_keeps [] now later window h = refl
prune_keeps (m ∷ marks) now later window h =
    ground (arith, prune_keeps marks now later window h, -ℤ_parts now window, -ℤ_parts later window)

marks_in_window-append :
    (xs ys : List ℤ) (now window : ℤ)
    → marks_in_window (xs ++ ys) now window
      ≡ marks_in_window xs now window + marks_in_window ys now window
unfolding marks_in_window
marks_in_window-append [] ys now window = omega arith
marks_in_window-append (m ∷ xs) ys now window =
    ground (arith, marks_in_window-append xs ys now window)

-- The calls of a run; with each goes whether its write comes through.
pub data Call : Type 0 where
  tick_over : Bool → Call
  redispatched : Bool → ℕ → Call

-- A tally that forgets nothing: the tick, and every re-dispatch with the tick at which it came.
pub record History : Type 0 where
  pub tick : ℤ
  pub log : List (ℕ × ℤ)

abbrev pub log_of : List (ℕ × ℤ) → ℕ → List ℤ
log_of [] issue = []
log_of ((i, m) ∷ log) issue = let rest = log_of log issue in if issue == i then m ∷ rest else rest

-- The answers of a history: is the number of re-dispatches inside the window above the maximum?
unfoldable pub history_verdicts : (window max_count : ℤ) → History → List Call → List Bool
history_verdicts window max_count h [] = []
history_verdicts window max_count h (tick_over w ∷ calls) =
    history_verdicts window max_count (record h { tick = h.tick +ℤ pos 1 }) calls
history_verdicts window max_count h (redispatched w issue ∷ calls) =
    let log = (issue, h.tick) ∷ h.log in
    ltb_ℤ max_count (pos (marks_in_window (log_of log issue) h.tick window))
    ∷ history_verdicts window max_count (record h { log = log }) calls

module _ (str_of : ℕ → String) (int_of : String → Option ℕ) where
  unfoldable pub verdicts : RedispatchTally → List Call → List Bool
  verdicts t [] = []
  verdicts t (tick_over w ∷ calls) = verdicts (advance_tick str_of int_of w t).0 calls
  verdicts t (redispatched w issue ∷ calls) =
      let (t', breached) = record_and_check str_of int_of w t issue in breached ∷ verdicts t' calls

  record Agrees (t : RedispatchTally) (h : History) : Type 0 where
    same_tick : t.tick ≡ h.tick
    same_counts :
        (issue : ℕ) (later : ℤ)
        → t.tick ≤ℤ later
        → marks_in_window (marks_of t.issues issue) later t.window_ticks
          ≡ marks_in_window (log_of h.log issue) later t.window_ticks

  -- Writing the file leaves the tally's own state alone.
  persist-Agrees :
      (w : Bool) (t : RedispatchTally) (h : History)
      → Agrees t h
      → Agrees (persist str_of int_of w t) h
  unfolding persist
  persist-Agrees true t h a = record { same_tick = a.same_tick; same_counts = a.same_counts }
  persist-Agrees false t h a = a

  advance_tick-Agrees :
      (w : Bool) (t : RedispatchTally) (h : History)
      → Agrees t h
      → Agrees (advance_tick str_of int_of w t).0 (record h { tick = h.tick +ℤ pos 1 })
  unfolding advance_tick
  advance_tick-Agrees w t h a = persist-Agrees w _ _ (record {
    same_tick = ap (λ z. z +ℤ pos 1) a.same_tick;
    same_counts =
        λ issue later le. a.same_counts issue later (omega (arith, +ℤ_parts t.tick (pos 1)));
  })

  -- The marks that `record_and_check` leaves count like those of the whole history.
  record-counts :
      (t : RedispatchTally) (h : History) (issue : ℕ) (later : ℤ)
      → Agrees t h
      → t.tick ≤ℤ later
      → marks_in_window
          (prune (t.tick -ℤ t.window_ticks) (marks_of t.issues issue ++ t.tick ∷ []))
          later
          t.window_ticks
        ≡ marks_in_window (h.tick ∷ log_of h.log issue) later t.window_ticks
  record-counts t h issue later a le =
      let old = marks_of t.issues issue in
      prune_keeps (old ++ t.tick ∷ []) t.tick later t.window_ticks le
      ∙ marks_in_window-append old (t.tick ∷ []) later t.window_ticks
      ∙ omega (
        arith,
        a.same_counts issue later le,
        ap (λ z. marks_in_window (z ∷ []) later t.window_ticks) a.same_tick,
        marks_in_window-append (h.tick ∷ []) (log_of h.log issue) later t.window_ticks,
      )

  record_and_check-Agrees :
      (w : Bool) (t : RedispatchTally) (h : History) (issue : ℕ)
      → Agrees t h
      → Agrees
          (record_and_check str_of int_of w t issue).0
          (record h { log = (issue, h.tick) ∷ h.log })
  unfolding record_and_check
  record_and_check-Agrees w t h issue a =
      let marks = prune (t.tick -ℤ t.window_ticks) (marks_of t.issues issue ++ t.tick ∷ []) in
      persist-Agrees w _ _ (record {
        same_tick = a.same_tick;
        same_counts = λ j later le. elim (Bool-cases (j == issue)) [
          | inl same ↦
              let e : j ≡ issue = (nat_beq_iff j issue).0 same in
              ground
                (arith, lookup-insert issue j marks t.issues, record-counts t h issue later a le)
          | inr other ↦
              ground (arith, lookup-insert issue j marks t.issues, a.same_counts j later le)
        ];
      })

  persist_settings :
      (w : Bool) (t : RedispatchTally)
      → ((persist str_of int_of w t).window_ticks ≡ t.window_ticks)
        × ((persist str_of int_of w t).max_count ≡ t.max_count)
  unfolding persist
  persist_settings true t = (refl, refl)
  persist_settings false t = (refl, refl)

  breach-Agrees :
      (w : Bool) (t : RedispatchTally) (h : History) (issue : ℕ)
      → Agrees t h
      → (record_and_check str_of int_of w t issue).1
        ≡ ltb_ℤ t.max_count
            (pos (marks_in_window (h.tick ∷ log_of h.log issue) h.tick t.window_ticks))
  unfolding record_and_check exceeds_threshold
  breach-Agrees w t h issue a =
      ap (λ n. ltb_ℤ t.max_count (pos n)) (record-counts t h issue t.tick a (omega arith))
      ∙ ap
          (λ z.
            ltb_ℤ t.max_count
              (pos (marks_in_window (h.tick ∷ log_of h.log issue) z t.window_ticks)))
          a.same_tick

  verdicts_agree :
      (t : RedispatchTally) (h : History) (window max_count : ℤ) (calls : List Call)
      → t.window_ticks ≡ window
      → t.max_count ≡ max_count
      → Agrees t h
      → verdicts t calls ≡ history_verdicts window max_count h calls
  unfolding verdicts history_verdicts
  verdicts_agree t h window max_count [] ew em a = refl
  verdicts_agree t h window max_count (tick_over w ∷ calls) ew em a =
      verdicts_agree (advance_tick str_of int_of w t).0 _ window max_count calls
        (unfold advance_tick in (persist_settings w _).0 ∙ ew)
        (unfold advance_tick in (persist_settings w _).1 ∙ em) (advance_tick-Agrees w t h a)
  verdicts_agree t h window max_count (redispatched w issue ∷ calls) ew em a =
      let rest =
        verdicts_agree (record_and_check str_of int_of w t issue).0
          (record h { log = (issue, h.tick) ∷ h.log }) window max_count calls
          (unfold record_and_check in (persist_settings w _).0 ∙ ew)
          (unfold record_and_check in (persist_settings w _).1 ∙ em)
          (record_and_check-Agrees w t h issue a) in
      ground (arith, rest, breach-Agrees w t h issue a, ew, em)

  -- Over any sequence of ticks and re-dispatches, whichever writes come through, a fresh tally gives
  -- the verdicts of a history that forgets nothing: a breach exactly when the re-dispatches of the
  -- issue inside the window outnumber the maximum.
  pub verdicts-history :
      (window max_count : ℤ) (calls : List Call)
      → verdicts
          (record {
            window_ticks = window;
            max_count = max_count;
            tick = pos 0;
            issues = [];
            file = none;
          })
          calls
        ≡ history_verdicts window max_count (record { tick = pos 0; log = [] }) calls
  verdicts-history window max_count calls =
      verdicts_agree _ _ window max_count calls refl refl
        (record { same_tick = refl; same_counts = λ issue later le. refl })
