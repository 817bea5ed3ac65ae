-- ===== src/Builds/Kept.antt =====
-- A step of a goroutine leaves what it works on.
use agentic_paasd.Prelude.{◌≡◌, refl, Bool, true, false, Option, none, some}
use agentic_paasd.Builds.Site.{Site, untrack_unit}
use agentic_paasd.Builds.Job.{
  Stage, Phase, Job, Luck, turn, begin_run, enter, take_slot, start_stage, end_stage, leave_stage,
  mark_build_failed, mark_succeeded, end_deploy,
}

-- The same build of the same tenant.
abbrev pub Kept : Job → Job × Site → Type 0
Kept j r = (r.0.tenant_id ≡ j.tenant_id) × (r.0.build_id ≡ j.build_id)

module _ (luck : Luck) (j : Job) (s : Site) where
  begin_run-Kept : (b : Bool) → Kept j (begin_run luck b j s)
  unfolding begin_run
  begin_run-Kept true = (refl, refl)
  begin_run-Kept false = (refl, refl)

  enter-Kept : (b : Bool) → Kept j (enter b j s)
  unfolding enter
  enter-Kept true = (refl, refl)
  enter-Kept false = (refl, refl)

  take_slot-Kept : (over free : Bool) (error : Option _) → Kept j (take_slot over free error j s)
  unfolding take_slot
  take_slot-Kept true free error = (refl, refl)
  take_slot-Kept false true none = (refl, refl)
  take_slot-Kept false true (some m) = (refl, refl)
  take_slot-Kept false false error = (refl, refl)

  start_stage-Kept : (error : Option _) (stage : Stage) → Kept j (start_stage luck error stage j s)
  unfolding start_stage
  start_stage-Kept (some m) stage = (refl, refl)
  start_stage-Kept none stage = (refl, refl)

  leave_stage-Kept : (stage : Stage) → Kept j (leave_stage luck stage j s)
  unfolding leave_stage
  leave_stage-Kept Stage.clone = (refl, refl)
  leave_stage-Kept Stage.pack = (refl, refl)
  leave_stage-Kept Stage.push = (refl, refl)

end_stage-Kept :
    (luck : Luck) (error : Option _) (stage : Stage) (j : Job) (s : Site)
    → Kept j (end_stage luck error stage j s)
unfolding end_stage
end_stage-Kept luck (some m) stage j s = (refl, refl)
end_stage-Kept luck none stage j s = leave_stage-Kept luck j (untrack_unit j.build_id s) stage

pub turn-Kept : (luck : Luck) (p : Phase) (j : Job) (s : Site) → Kept j (turn luck p j s)
unfolding turn mark_build_failed mark_succeeded end_deploy
turn-Kept luck Phase.queued j s = begin_run-Kept luck j s _
turn-Kept luck Phase.entering j s = enter-Kept luck j s _
turn-Kept luck Phase.waiting j s = take_slot-Kept luck j s _ _ luck.error
turn-Kept luck (Phase.starting stage) j s = start_stage-Kept luck j s luck.error stage
turn-Kept luck (Phase.working stage) j s = end_stage-Kept luck luck.error stage j s
turn-Kept luck (Phase.failing m) j s = (refl, refl)
turn-Kept luck Phase.finishing j s = (refl, refl)
turn-Kept luck Phase.deploying j s = (refl, refl)
turn-Kept luck Phase.done j s = (refl, refl)
