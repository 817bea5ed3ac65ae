-- ===== src/Builds/Ending.antt =====
-- All builds can end, however the outside answers.
use agentic_paasd.Prelude.{
  ℕ, zero, suc, ◌≤◌, ◌≡◌, inl, inr, List, [], ◌∷◌, Text, Option, arith, length, Bool-cases, ltb,
  ltb→lt,
}
use agentic_paasd.Builds.Validate.{ParsedUrl}
use agentic_paasd.Builds.Job.{Stage, Phase, Job, Luck}
use agentic_paasd.Builds.Steps.{System, Event, happen, run}
use agentic_paasd.Builds.Accounting.{is_live}
use agentic_paasd.Builds.Sound.{Sound, total, live, happen-Sound}
use agentic_paasd.Builds.Progress.{rank, steps_left, some_build_moves}

-- The picked goroutines move one after the other; the k-th step meets the k-th answer.
unfoldable pub moves : (ℕ → Luck) → ℕ → List ℕ → List Event
moves lucks k [] = []
moves lucks k (i ∷ picks) = Event.move i (lucks k) ∷ moves lucks (suc k) picks

live-le-rank : (p : Phase) → is_live p ≤ rank p
live-le-rank Phase.queued = omega arith
live-le-rank Phase.entering = omega arith
live-le-rank Phase.waiting = omega arith
live-le-rank (Phase.starting Stage.clone) = omega arith
live-le-rank (Phase.starting Stage.pack) = omega arith
live-le-rank (Phase.starting Stage.push) = omega arith
live-le-rank (Phase.working Stage.clone) = omega arith
live-le-rank (Phase.working Stage.pack) = omega arith
live-le-rank (Phase.working Stage.push) = omega arith
live-le-rank (Phase.failing m) = omega arith
live-le-rank Phase.finishing = omega arith
live-le-rank Phase.deploying = omega arith
live-le-rank Phase.done = omega arith

live-le-steps_left : (jobs : List Job) → total live jobs ≤ total steps_left jobs
unfolding total
live-le-steps_left [] = omega arith
live-le-steps_left (j ∷ jobs) = omega (arith, live-le-rank j.phase, live-le-steps_left jobs)

module _ (parse : Text → Option ParsedUrl) (lucks : ℕ → Luck) where
  -- A choice of goroutines, `n` at most, after which none is left.
  abbrev CanEnd : ℕ → ℕ → System → Type 0
  CanEnd n k w =
      (picks : List ℕ) × (length picks ≤ n)
      × (total live (run parse (moves lucks k picks) w).jobs ≡ 0)

  ending : (n k : ℕ) (w : System) → Sound w → total steps_left w.jobs ≤ n → CanEnd n k w
  unfolding run moves happen
  ending zero k w s h = ([], omega arith, omega (arith, h, live-le-steps_left w.jobs))
  ending (suc n) k w s h = elim (Bool-cases (ltb 0 (total live w.jobs))) [
    | inr e ↦ ([], omega arith, ground arith)
    | inl e ↦
        let (i, drops) = some_build_moves w s (ltb→lt 0 (total live w.jobs) e) in
        let w' = happen parse (Event.move i (lucks k)) w in
        let fewer : total steps_left w'.jobs ≤ n = omega (arith, drops (lucks k), h) in
        let (picks, short, over) =
          ending n (suc k) w' (happen-Sound parse (Event.move i (lucks k)) w s) fewer in
        (i ∷ picks, omega (arith, short), over)
  ]

-- In a sound system all builds can end: whatever the outside answers, step after step, there is an
-- order of the goroutines in which, after as many steps as their phases are from the end at most,
-- each of them has ended.
pub builds_can_end :
    (parse : Text → Option ParsedUrl) (lucks : ℕ → Luck) (w : System)
    → Sound w
    → (picks : List ℕ) × (length picks ≤ total steps_left w.jobs)
      × (total live (run parse (moves lucks 0 picks) w).jobs ≡ 0)
builds_can_end parse lucks w s = ending parse lucks (total steps_left w.jobs) 0 w s (omega arith)
