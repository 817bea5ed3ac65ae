-- ===== src/Builds/Refinement.antt =====
-- The interleaved system refines the life of each build.
use agentic_paasd.Prelude.{
  ℕ, zero, suc, ◌≡◌, refl, Bool, true, false, not, ◌&&◌, ◌++◌, Option, none, some, List, [], ◌∷◌,
  Text, codes, inl, inr, Bool-cases, any, if_both, ltb,
}
use agentic_paasd.Store.{BuildStatus}
use agentic_paasd.Runtime.{Result, ok, err}
use agentic_paasd.Builds.Validate.{ParsedUrl}
use agentic_paasd.Builds.Site.{
  Site, has_build_id, set_builds, update_builds, set_finished, close_log_subs, end_run,
  untrack_unit, max_queued,
}
use agentic_paasd.Builds.Job.{
  Stage, Phase, Job, Luck, turn, begin_run, enter, take_slot, start_stage, end_stage, leave_stage,
  begin_stage, log_line, stage_end, mark_build_failed, mark_succeeded, end_deploy, still_running,
}
use agentic_paasd.Builds.Control.{
  Fate, StartBuildRequest, start_build, place_build, insert_build, enqueue, new_build,
  finish_cancel,
}
use agentic_paasd.Builds.Steps.{System, Event, move_at, happen, run}
use agentic_paasd.Builds.Lifecycle.{
  Lives, stays, goes, opens, begins, succeeds, fails, Lives-trans, status_of, LivesOn, Lives-append,
  running-Lives, succeeded-Lives, failed-Lives, append_log-Lives,
}

module _ (id : Text) (luck : Luck) (j : Job) where
  log_line-Lives : (line : Text) (s : Site) → LivesOn id s (log_line luck j line s)
  log_line-Lives line s = append_log-Lives id luck.log_up j.build_id line s

  begin_stage-Lives : (stage : Stage) (s : Site) → LivesOn id s (begin_stage luck stage j s)
  unfolding begin_stage
  begin_stage-Lives Stage.clone s =
      let begun = codes "[ah] Starting build " ++ j.build_id in
      Lives-trans _ _ _ (log_line-Lives begun s)
        (log_line-Lives (codes "[ah] Cloning") (log_line luck j begun s))
  begin_stage-Lives Stage.pack s = log_line-Lives _ s
  begin_stage-Lives Stage.push s = log_line-Lives _ s

  begin_run-Lives : (b : Bool) (s : Site) → LivesOn id s (begin_run luck b j s).1
  unfolding begin_run end_run
  begin_run-Lives true s = running-Lives id true j.build_id luck.now s
  begin_run-Lives false s = stays

  enter-Lives : (b : Bool) (s : Site) → LivesOn id s (enter b j s).1
  unfolding enter
  enter-Lives true s = stays
  enter-Lives false s = stays

  take_slot-Lives :
      (over free : Bool) (error : Option Text) (s : Site)
      → LivesOn id s (take_slot over free error j s).1
  unfolding take_slot
  take_slot-Lives true free error s = stays
  take_slot-Lives false true none s = stays
  take_slot-Lives false true (some m) s = stays
  take_slot-Lives false false error s = stays

  start_stage-Lives :
      (error : Option Text) (stage : Stage) (s : Site)
      → LivesOn id s (start_stage luck error stage j s).1
  unfolding start_stage
  start_stage-Lives (some m) stage s = begin_stage-Lives stage s
  start_stage-Lives none stage s = begin_stage-Lives stage s

  leave_stage-Lives : (stage : Stage) (s : Site) → LivesOn id s (leave_stage luck stage j s).1
  unfolding leave_stage
  leave_stage-Lives Stage.clone s = log_line-Lives _ s
  leave_stage-Lives Stage.pack s = log_line-Lives _ s
  leave_stage-Lives Stage.push s = Lives-trans _ _ _ (log_line-Lives (stage_end Stage.push) s) (
      log_line-Lives (codes "[ah] Build succeeded: " ++ j.image)
        (log_line luck j (stage_end Stage.push) s))

  end_stage-Lives :
      (error : Option Text) (stage : Stage) (s : Site)
      → LivesOn id s (end_stage luck error stage j s).1
  unfolding end_stage
  end_stage-Lives (some m) stage s = stays
  end_stage-Lives none stage s = leave_stage-Lives stage (untrack_unit j.build_id s)

  turn-Lives : (p : Phase) (s : Site) → LivesOn id s (turn luck p j s).1
  unfolding turn mark_build_failed mark_succeeded end_deploy end_run close_log_subs
  turn-Lives Phase.queued s = begin_run-Lives _ s
  turn-Lives Phase.entering s = enter-Lives _ s
  turn-Lives Phase.waiting s = take_slot-Lives _ _ luck.error s
  turn-Lives (Phase.starting stage) s = start_stage-Lives luck.error stage s
  turn-Lives (Phase.working stage) s = end_stage-Lives luck.error stage s
  turn-Lives (Phase.failing m) s =
      let line = codes "[ah] BUILD FAILED: " ++ m in
      Lives-trans _ _ _ (log_line-Lives line s)
        (failed-Lives id luck.up (still_running j.build_id) luck.now (log_line luck j line s))
  turn-Lives Phase.finishing s =
      Lives-trans _ _ _ (succeeded-Lives id luck.up j.build_id luck.now s) (
        log_line-Lives (codes "[ah] Deploying built image...") (
          update_builds luck.up (still_running j.build_id)
            (set_finished BuildStatus.succeeded luck.now) s))
  turn-Lives Phase.deploying s = log_line-Lives _ s
  turn-Lives Phase.done s = stays

move_at-Lives :
    (id : Text) (i : ℕ) (luck : Luck) (jobs : List Job) (s : Site)
    → LivesOn id s (move_at i luck jobs s).1
unfolding move_at
move_at-Lives id i luck [] s = stays
move_at-Lives id zero luck (j ∷ jobs) s = turn-Lives id luck j j.phase s
move_at-Lives id (suc i) luck (j ∷ jobs) s = move_at-Lives id i luck jobs s

module _ (id : Text) (fate : Fate) (tenant service : Text) (req : StartBuildRequest) where
  enqueue-Lives : (i : Text) (s : Site) → LivesOn id s (enqueue fate i tenant service req s).1
  unfolding enqueue
  enqueue-Lives i s = elim (Bool-cases (ltb s.queue max_queued)) [
    | inl e ↦ rw e stays
    | inr e ↦ rw e (failed-Lives id fate.fail_up (has_build_id i) fate.now s)
  ]

  insert_build-Lives :
      (random : Option Text) (s : Site)
      → LivesOn id s (insert_build fate random tenant service req s).1
  unfolding insert_build new_build
  insert_build-Lives none s = stays
  insert_build-Lives (some i) s =
      elim (Bool-cases (fate.insert_up && not (any (has_build_id i) s.builds))) [
        | inl e ↦ rw e (
            Lives-trans _ _ _
              (Lives-append id (new_build i tenant service req fate.now) s.builds refl)
              (enqueue-Lives i
                (set_builds (s.builds ++ new_build i tenant service req fate.now ∷ []) s)))
        | inr e ↦ rw e stays
      ]

  place_build-Lives :
      (r : Result (Unit {0})) (s : Site) → LivesOn id s (place_build r fate tenant service req s).1
  unfolding place_build
  place_build-Lives (err e) s = stays
  place_build-Lives (ok u) s = insert_build-Lives fate.random s

finish_cancel-Lives :
    (id : Text) (up log_up : Bool) (now : ℕ) (i : Text) (s : Site)
    → LivesOn id s (finish_cancel up log_up now i s)
unfolding finish_cancel close_log_subs
finish_cancel-Lives id up log_up now i s =
    Lives-trans _ _ _ (failed-Lives id up (has_build_id i) now s) (
      append_log-Lives id log_up i (codes "[ah] Build cancelled by user")
        (update_builds up (has_build_id i) (set_finished BuildStatus.build_failed now) s))

module _ (parse : Text → Option ParsedUrl) where
  -- Every event (a request, a goroutine's step, a line of output, a cancellation) takes each build
  -- through steps of its life only: pending, running, then succeeded or failed.
  pub happen_refines_life :
      (id : Text) (e : Event) (w : System) → LivesOn id w.site (happen parse e w).site
  unfolding happen start_build
  happen_refines_life id (Event.start fate tenant service req) w =
      place_build-Lives id fate tenant service req _ w.site
  happen_refines_life id (Event.move i luck) w = move_at-Lives id i luck w.jobs w.site
  happen_refines_life id (Event.output up i line) w = append_log-Lives id up i line w.site
  happen_refines_life id (Event.ask_cancel up tenant i) w = stays
  happen_refines_life id (Event.cancel up log_up now i) w =
      if_both (λ (v : System). LivesOn id w.site v.site) _
        (finish_cancel-Lives id up log_up now i w.site) stays

  pub run_refines_life :
      (id : Text) (events : List Event) (w : System) → LivesOn id w.site (run parse events w).site
  unfolding run
  run_refines_life id [] w = stays
  run_refines_life id (e ∷ events) w =
      Lives-trans _ _ _ (happen_refines_life id e w) (run_refines_life id events (happen parse e w))

-- A life that has failed stays so.
stays_failed :
    (a b : Option BuildStatus)
    → Lives a b
    → a ≡ some BuildStatus.build_failed
    → b ≡ some BuildStatus.build_failed
stays_failed a b stays e = e
stays_failed a b (goes opens k) e = absurd cc
stays_failed a b (goes begins k) e = absurd cc
stays_failed a b (goes succeeds k) e = absurd cc
stays_failed a b (goes fails k) e = stays_failed _ b k refl

-- A build that has failed, by a cancellation or otherwise, never runs or succeeds again, whatever
-- happens.
pub failed_build_stays_failed :
    (parse : Text → Option ParsedUrl) (id : Text) (events : List Event) (w : System)
    → status_of id w.site.builds ≡ some BuildStatus.build_failed
    → status_of id (run parse events w).site.builds ≡ some BuildStatus.build_failed
failed_build_stays_failed parse id events w h =
    stays_failed _ _ (run_refines_life parse id events w) h
