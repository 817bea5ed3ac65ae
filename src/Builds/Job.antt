-- ===== src/Builds/Job.antt =====
-- runBuild of internal/builds/builds.go with Build of internal/builder/builder.go: one goroutine
-- for each build, cut behind its update to running and at the points where it waits for a lock or a
-- process; the line and the status that end a build are statements of one step.
use agentic_paasd.Prelude.{
  ℕ, suc, ◌-◌, Bool, true, false, ◌&&◌, ◌++◌, Option, none, some, List, [], ◌∷◌, Text, codes, count,
  take, ltb, is_empty, if◌then◌else◌,
}
use agentic_paasd.Store.{Build, BuildStatus}
use agentic_paasd.Builds.Site.{
  Site, max_builds, is_pending, is_building, has_build_id, update_builds, set_running, set_finished,
  append_log, close_log_subs, hold_tenant, release_tenant, is_busy, track_unit, untrack_unit,
  end_run,
}

-- The three processes of a build.
pub data Stage : Type 0 where
  clone pack push : Stage

pub data Phase : Type 0 where
  queued entering waiting : Phase
  starting working : Stage → Phase
  failing : Text → Phase  -- Build has returned an error
  finishing deploying done : Phase

pub record Job : Type 0 where
  pub build_id : Text
  pub tenant_id : Text
  pub source_url : Text
  pub source_ref : Text
  pub image : Text
  pub phase : Phase

-- What the outside answers to the next step of a goroutine.
pub record Luck : Type 0 where
  pub up : Bool  -- the status statement succeeds
  pub log_up : Bool  -- the log's statement succeeds
  pub now : ℕ
  pub context_done : Bool
  pub error : Option Text  -- of the process, or of the deploy

abbrev pub at_phase : Phase → Job → Job
at_phase p j = record j { phase = p }

-- logCb
abbrev pub log_line : Luck → Job → Text → Site → Site
log_line luck j line s = append_log luck.log_up j.build_id line s

abbrev pub stage_unit : Stage → Text → Text
stage_unit Stage.clone id = codes "ah-clone-" ++ (take 16 id ++ codes ".scope")
stage_unit Stage.pack id = codes "ah-build-" ++ (take 16 id ++ codes ".scope")
stage_unit Stage.push id = codes "ah-push-" ++ (take 16 id ++ codes ".scope")

-- What gitClone puts in front of Git, to run it as ah-builder in a scope.
abbrev pub as_builder : Job → List Text
as_builder j =
    codes "systemd-run"
    ∷ codes "--scope"
    ∷ codes "--quiet"
    ∷ (codes "--unit=" ++ stage_unit Stage.clone j.build_id)
    ∷ codes "-p"
    ∷ codes "MemoryMax=512M"
    ∷ codes "/usr/sbin/runuser"
    ∷ codes "-u"
    ∷ codes "ah-builder"
    ∷ codes "--"
    ∷ []

-- The arguments of gitClone's process, in that build directory.
unfoldable pub clone_command : Text → Job → List Text
clone_command build_dir j =
    as_builder j
    ++ (codes "git"
        ∷ codes "clone"
        ∷ codes "--depth=1"
        ∷ codes "--branch"
        ∷ (if is_empty j.source_ref then codes "main" else j.source_ref)
        ∷ codes "--config"
        ∷ codes "http.followRedirects=false"
        ∷ j.source_url
        ∷ build_dir
        ∷ [])

-- The lines in front of a process; the one on the clone leaves out its URL and ref.
unfoldable pub begin_stage : Luck → Stage → Job → Site → Site
begin_stage luck Stage.clone j s =
    log_line luck j (codes "[ah] Cloning")
      (log_line luck j (codes "[ah] Starting build " ++ j.build_id) s)
begin_stage luck Stage.pack j s = log_line luck j (codes "[ah] Running nixpacks build...") s
begin_stage luck Stage.push j s =
    log_line luck j (codes "[ah] Pushing image to local registry...") s

abbrev pub stage_end : Stage → Text
stage_end Stage.clone = codes "[ah] Clone complete"
stage_end Stage.pack = codes "[ah] Nixpacks build complete"
stage_end Stage.push = codes "[ah] Push complete"

-- The way out of Build gives back the slot and the tenant's place.
abbrev pub give_back : Job → Site → Site
give_back j s = release_tenant j.tenant_id (record s { sem = s.sem - 1 })

-- A stage is over: the next one starts, or Build returns.
unfoldable pub leave_stage : Luck → Stage → Job → Site → Job × Site
leave_stage luck Stage.clone j s =
    (at_phase (Phase.starting Stage.pack) j, log_line luck j (stage_end Stage.clone) s)
leave_stage luck Stage.pack j s =
    (at_phase (Phase.starting Stage.push) j, log_line luck j (stage_end Stage.pack) s)
leave_stage luck Stage.push j s = (
  at_phase Phase.finishing j,
  give_back j (
      log_line luck j (codes "[ah] Build succeeded: " ++ j.image)
        (log_line luck j (stage_end Stage.push) s)),
)

abbrev pub fail_build : Text → Job → Site → Job × Site
fail_build m j s = (at_phase (Phase.failing m) j, give_back j s)

unfoldable pub start_stage : Luck → Option Text → Stage → Job → Site → Job × Site
start_stage luck (some m) stage j s = fail_build m j (begin_stage luck stage j s)
start_stage luck none stage j s = (
  at_phase (Phase.working stage) j,
  track_unit j.build_id (stage_unit stage j.build_id) (begin_stage luck stage j s),
)

unfoldable pub end_stage : Luck → Option Text → Stage → Job → Site → Job × Site
end_stage luck (some m) stage j s = fail_build m j (untrack_unit j.build_id s)
end_stage luck none stage j s = leave_stage luck stage j (untrack_unit j.build_id s)

-- UPDATE … WHERE id = ? AND status = 'pending': whether it changed a row.
abbrev pub still_pending : Text → Build → Bool
still_pending id b = has_build_id id b && is_pending b.status

abbrev pub still_running : Text → Build → Bool
still_running id b = has_build_id id b && is_building b.status

unfoldable pub begin_run : Luck → Bool → Job → Site → Job × Site
begin_run luck true j s = (
  at_phase Phase.entering j,
  update_builds true (still_pending j.build_id) (set_running luck.now) s,
)
begin_run luck false j s = (at_phase Phase.done j, end_run j.build_id s)

abbrev pub tenant_taken : Text
tenant_taken = codes "a build is already running for this tenant"

-- ctx.Err()
abbrev pub context_over : Text
context_over = codes "context deadline exceeded"

unfoldable pub enter : Bool → Job → Site → Job × Site
enter true j s = (at_phase (Phase.failing tenant_taken) j, s)
enter false j s = (at_phase Phase.waiting j, hold_tenant j.tenant_id s)

-- The select on the slot and on the context: blocked while neither is ready. With a slot, the
-- build directory may fail, and then the slot is given back at once.
unfoldable pub take_slot : Bool → Bool → Option Text → Job → Site → Job × Site
take_slot true free error j s =
    (at_phase (Phase.failing context_over) j, release_tenant j.tenant_id s)
take_slot false true none j s =
    (at_phase (Phase.starting Stage.clone) j, record s { sem = suc s.sem })
take_slot false true (some m) j s = (at_phase (Phase.failing m) j, release_tenant j.tenant_id s)
take_slot false false error j s = (at_phase Phase.waiting j, s)

unfoldable pub mark_build_failed : Luck → Text → Job → Site → Job × Site
mark_build_failed luck m j s = (
  at_phase Phase.done j,
  end_run j.build_id (
      close_log_subs j.build_id (
        update_builds luck.up (still_running j.build_id)
          (set_finished BuildStatus.build_failed luck.now)
          (log_line luck j (codes "[ah] BUILD FAILED: " ++ m) s))),
)

-- The row is not looked at again: the image is deployed whether or not the update changed it.
unfoldable pub mark_succeeded : Luck → Job → Site → Job × Site
mark_succeeded luck j s =
    let s' = log_line luck j (codes "[ah] Deploying built image...") (
      update_builds luck.up (still_running j.build_id) (set_finished BuildStatus.succeeded luck.now)
        s) in
    (at_phase Phase.deploying j, record s' { deploys = j.image ∷ s'.deploys })

abbrev pub deploy_line : Option Text → Text
deploy_line (some m) = codes "[ah] Deploy failed: " ++ m
deploy_line none = codes "[ah] Deploy succeeded"

unfoldable pub end_deploy : Luck → Job → Site → Job × Site
end_deploy luck j s = (
  at_phase Phase.done j,
  end_run j.build_id (close_log_subs j.build_id (log_line luck j (deploy_line luck.error) s)),
)

-- The next step of a goroutine that is in that phase.
unfoldable pub turn : Luck → Phase → Job → Site → Job × Site
turn luck Phase.queued j s =
    begin_run luck (luck.up && ltb 0 (count (still_pending j.build_id) s.builds)) j s
turn luck Phase.entering j s = enter (is_busy j.tenant_id s) j s
turn luck Phase.waiting j s = take_slot luck.context_done (ltb s.sem max_builds) luck.error j s
turn luck (Phase.starting stage) j s = start_stage luck luck.error stage j s
turn luck (Phase.working stage) j s = end_stage luck luck.error stage j s
turn luck (Phase.failing m) j s = mark_build_failed luck m j s
turn luck Phase.finishing j s = mark_succeeded luck j s
turn luck Phase.deploying j s = end_deploy luck j s
turn luck Phase.done j s = (at_phase Phase.done j, s)
