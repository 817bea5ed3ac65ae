-- ===== src/Builds/Progress.antt =====
-- The builds never block each other for good.
use agentic_paasd.Prelude.{
  ℕ, suc, ◌<◌, ◌≡◌, refl, ◌⊎◌, inl, inr, Bool, true, false, Option, none, some, List, [], ◌∷◌,
  arith, lt→ltb,
}
use agentic_paasd.Builds.Site.{Site, max_builds}
use agentic_paasd.Builds.Job.{
  Stage, Phase, Job, Luck, turn, begin_run, enter, take_slot, start_stage, end_stage, leave_stage,
  mark_build_failed, mark_succeeded, end_deploy,
}
use agentic_paasd.Builds.Steps.{System, move_at}
use agentic_paasd.Builds.Sound.{total, live, slots, Sound}

-- More than the steps that a goroutine in that phase can still take.
abbrev pub rank : Phase → ℕ
rank Phase.queued = 11
rank Phase.entering = 10
rank Phase.waiting = 9
rank (Phase.starting Stage.clone) = 8
rank (Phase.working Stage.clone) = 7
rank (Phase.starting Stage.pack) = 6
rank (Phase.working Stage.pack) = 5
rank (Phase.starting Stage.push) = 4
rank (Phase.working Stage.push) = 3
rank Phase.finishing = 2
rank (Phase.failing m) = 1
rank Phase.deploying = 1
rank Phase.done = 0

abbrev pub steps_left : Job → ℕ
steps_left j = rank j.phase

module _ (luck : Luck) (j : Job) (s : Site) where
  begin_run-drops : (b : Bool) → rank (begin_run luck b j s).0.phase < 11
  unfolding begin_run
  begin_run-drops true = omega arith
  begin_run-drops false = omega arith

  enter-drops : (b : Bool) → rank (enter b j s).0.phase < 10
  unfolding enter
  enter-drops true = omega arith
  enter-drops false = omega arith

  take_slot-drops :
      (over : Bool) (error : Option _) → rank (take_slot over true error j s).0.phase < 9
  unfolding take_slot
  take_slot-drops true error = omega arith
  take_slot-drops false none = omega arith
  take_slot-drops false (some m) = omega arith

  start_stage-drops :
      (error : Option _) (stage : Stage)
      → rank (start_stage luck error stage j s).0.phase < rank (Phase.starting stage)
  unfolding start_stage
  start_stage-drops (some m) Stage.clone = omega arith
  start_stage-drops (some m) Stage.pack = omega arith
  start_stage-drops (some m) Stage.push = omega arith
  start_stage-drops none Stage.clone = omega arith
  start_stage-drops none Stage.pack = omega arith
  start_stage-drops none Stage.push = omega arith

  end_stage-drops :
      (error : Option _) (stage : Stage)
      → rank (end_stage luck error stage j s).0.phase < rank (Phase.working stage)
  unfolding end_stage leave_stage
  end_stage-drops (some m) Stage.clone = omega arith
  end_stage-drops (some m) Stage.pack = omega arith
  end_stage-drops (some m) Stage.push = omega arith
  end_stage-drops none Stage.clone = omega arith
  end_stage-drops none Stage.pack = omega arith
  end_stage-drops none Stage.push = omega arith

-- Whatever the outside answers, the i-th goroutine's step leaves less to do.
abbrev pub Drops : ℕ → Luck → List Job → Site → Type 0
Drops i luck jobs s = total steps_left (move_at i luck jobs s).0 < total steps_left jobs

head-Drops :
    (luck : Luck) (j : Job) (jobs : List Job) (s : Site)
    → rank (turn luck j.phase j s).0.phase < rank j.phase
    → Drops 0 luck (j ∷ jobs) s
unfolding move_at total
head-Drops luck j jobs s h = omega (arith, h)

tail-Drops :
    (i : ℕ) (luck : Luck) (j : Job) (jobs : List Job) (s : Site)
    → Drops i luck jobs s
    → Drops (suc i) luck (j ∷ jobs) s
unfolding move_at total
tail-Drops i luck j jobs s h = omega (arith, h)

-- A goroutine that moves whatever happens, or only where a slot is free; or none is left.
abbrev Free : List Job → Type 0
Free jobs = (i : ℕ) × ((luck : Luck) (s : Site) → Drops i luck jobs s)

abbrev FreeWithSlot : List Job → Type 0
FreeWithSlot jobs = (i : ℕ) × ((luck : Luck) (s : Site) → s.sem < max_builds → Drops i luck jobs s)

abbrev Choice : List Job → Type 0
Choice jobs = Free jobs ⊎ ((total slots jobs ≡ 0) × ((total live jobs ≡ 0) ⊎ FreeWithSlot jobs))

-- The head's phase decides, or the tail.
abbrev HeadChoice : Job → Phase → Type 0
HeadChoice j p =
    ((luck : Luck) (s : Site) → rank (turn luck p j s).0.phase < rank p)
    ⊎ ((p ≡ Phase.done)
        ⊎ ((p ≡ Phase.waiting)
            × ((luck : Luck) (s : Site)
                → s.sem < max_builds
                → rank (turn luck p j s).0.phase < rank p)))

head_choice : (j : Job) (p : Phase) → HeadChoice j p
unfolding turn mark_build_failed mark_succeeded end_deploy
head_choice j Phase.queued = inl (λ luck s. begin_run-drops luck j s _)
head_choice j Phase.entering = inl (λ luck s. enter-drops luck j s _)
head_choice j Phase.waiting = inr (
    inr (
      refl,
      λ luck s h.
          rw (lt→ltb s.sem max_builds h) (take_slot-drops luck j s luck.context_done luck.error),
    ))
head_choice j (Phase.starting stage) = inl (λ luck s. start_stage-drops luck j s luck.error stage)
head_choice j (Phase.working stage) = inl (λ luck s. end_stage-drops luck j s luck.error stage)
head_choice j (Phase.failing m) = inl (λ luck s. omega arith)
head_choice j Phase.finishing = inl (λ luck s. omega arith)
head_choice j Phase.deploying = inl (λ luck s. omega arith)
head_choice j Phase.done = inr (inl refl)

joined : (j : Job) (jobs : List Job) → HeadChoice j j.phase → Choice jobs → Choice (j ∷ jobs)
unfolding total
joined j jobs (inl h) c = inl (0, λ luck s. head-Drops luck j jobs s (h luck s))
joined j jobs (inr h) (inl (i, k)) = inl (suc i, λ luck s. tail-Drops i luck j jobs s (k luck s))
joined j jobs (inr (inl e)) (inr (z, inl l)) =
    inr (rw e (omega (arith, z)), inl (rw e (omega (arith, l))))
joined j jobs (inr (inl e)) (inr (z, inr (i, k))) =
    inr (rw e (omega (arith, z)), inr (suc i, λ luck s h. tail-Drops i luck j jobs s (k luck s h)))
joined j jobs (inr (inr (e, h))) (inr (z, d)) =
    inr (rw e (omega (arith, z)), inr (0, λ luck s room. head-Drops luck j jobs s (h luck s room)))

choose : (jobs : List Job) → Choice jobs
unfolding total
choose [] = inr (refl, inl refl)
choose (j ∷ jobs) = joined j jobs (head_choice j j.phase) (choose jobs)

-- In a sound system where a build has not ended, some goroutine is not blocked: whatever the
-- outside answers to it, its next step leaves fewer steps to do.
pub some_build_moves :
    (w : System)
    → Sound w
    → 0 < total live w.jobs
    → (i : ℕ) × ((luck : Luck) → Drops i luck w.jobs w.site)
some_build_moves w (hl, hs, hc, hq, hm, ho) unfinished = settle (choose w.jobs)
  where
    settle : Choice w.jobs → (i : ℕ) × ((luck : Luck) → Drops i luck w.jobs w.site)
    settle (inl (i, k)) = (i, λ luck. k luck w.site)
    settle (inr (z, inl l)) = absurd (omega (arith, l, unfinished))
    settle (inr (z, inr (i, k))) = (i, λ luck. k luck w.site (omega (arith, hs, z)))
