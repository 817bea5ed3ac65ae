-- ===== src/Builds/Control.antt =====
-- StartBuild, CancelBuild, GetBuild, ListBuilds, GetBuildLogs and reconcileStaleBuilds of
-- internal/builds/builds.go.
use agentic_paasd.Prelude.{
  ℕ, suc, Bool, true, false, not, ◌&&◌, ◌++◌, Option, none, some, List, [], ◌∷◌, Text, codes,
  is_empty, same, any, find, keep, ltb, if◌then◌else◌,
}
use agentic_paasd.Store.{Build, BuildStatus, Service}
use agentic_paasd.Runtime.{Error, Result, ok, err}
use agentic_paasd.Services.Rows.{owns}
use agentic_paasd.Builds.Validate.{ParsedUrl, validate_git_url, validate_source_ref}
use agentic_paasd.Builds.Site.{
  Site, max_queued, in_progress, has_build_id, owns_build, set_builds, update_builds, set_finished,
  append_log, close_log_subs,
}
use agentic_paasd.Builds.Job.{Phase, Job}

pub record StartBuildRequest : Type 0 where
  pub source_type : Text
  pub source_url : Text
  pub source_ref : Text

-- What the outside answers to StartBuild.
pub record Fate : Type 0 where
  pub disk : Option Text
  pub query_up : Bool  -- the query for the service succeeds
  pub services : List Service  -- the rows that it sees
  pub random : Option Text
  pub now : ℕ
  pub insert_up : Bool
  pub fail_up : Bool  -- the update behind a full queue succeeds

-- "127.0.0.1:5000/ah/%s-%s:%s"
unfoldable pub image_tag : Text → Text → Text → Text
image_tag tenant service id =
    codes "127.0.0.1:5000/ah/" ++ (tenant ++ (codes "-" ++ (service ++ (codes ":" ++ id))))

abbrev pub ref_of : Text → Text
ref_of ref = if is_empty ref then codes "main" else ref

abbrev pub then_ok {ℓ} : {A : Type ℓ} → Result (Unit {0}) → Result A → Result A
then_ok (ok u) r = r
then_ok (err e) r = err e

abbrev pub disk_ok : Option Text → Result (Unit {0})
disk_ok none = ok tt
disk_ok (some m) = err (Error.disk_error m)

abbrev pub require : Bool → Error → Result (Unit {0})
require true e = ok tt
require false e = err e

-- SELECT COUNT(*) FROM services WHERE id = ? AND tenant_id = ? succeeds and is not 0.
abbrev pub has_service : Fate → Text → Text → Bool
has_service fate tenant service = fate.query_up && any (owns tenant service) fate.services

-- The checks in front of the insertion.
unfoldable pub check_request :
    (Text → Option ParsedUrl) → Fate → Text → Text → StartBuildRequest → Result (Unit {0})
check_request parse fate tenant service req = then_ok (disk_ok fate.disk) (
    then_ok (require (same req.source_type (codes "git")) Error.unsupported_source) (
      then_ok (require (not (is_empty req.source_url)) Error.url_required) (
        then_ok (validate_git_url parse req.source_url) (
          then_ok (validate_source_ref (ref_of req.source_ref))
            (require (has_service fate tenant service) Error.service_not_found)))))

unfoldable pub new_build : Text → Text → Text → StartBuildRequest → ℕ → Build
new_build id tenant service req now = record {
  id = id;
  service_id = service;
  tenant_id = tenant;
  status = BuildStatus.pending;
  source_type = req.source_type;
  source_url = req.source_url;
  source_ref = ref_of req.source_ref;
  image = image_tag tenant service id;
  log = [];
  started_at = none;
  finished_at = none;
  created_at = now;
}

unfoldable pub new_job : Text → Text → Text → StartBuildRequest → Job
new_job id tenant service req = record {
  build_id = id;
  tenant_id = tenant;
  source_url = req.source_url;
  source_ref = ref_of req.source_ref;
  image = image_tag tenant service id;
  phase = Phase.queued;
}

-- The select on the queue: a full one fails the build at once.
unfoldable pub enqueue : Fate → Text → Text → Text → StartBuildRequest → Site → Result Job × Site
enqueue fate id tenant service req s =
    if ltb s.queue max_queued
    then (ok (new_job id tenant service req), record s { queue = suc s.queue })
    else (
      err Error.builds_full,
      update_builds fate.fail_up (has_build_id id) (set_finished BuildStatus.build_failed fate.now)
          s,
    )

-- The insertion, which the primary key may refuse.
unfoldable pub insert_build :
    Fate → Option Text → Text → Text → StartBuildRequest → Site → Result Job × Site
insert_build fate none tenant service req s = (err Error.no_randomness, s)
insert_build fate (some id) tenant service req s =
    if fate.insert_up && not (any (has_build_id id) s.builds)
    then enqueue fate id tenant service req
        (set_builds (s.builds ++ new_build id tenant service req fate.now ∷ []) s)
    else (err Error.insert_failed, s)

unfoldable pub place_build :
    Result (Unit {0}) → Fate → Text → Text → StartBuildRequest → Site → Result Job × Site
place_build (err e) fate tenant service req s = (err e, s)
place_build (ok u) fate tenant service req s = insert_build fate fate.random tenant service req s

unfoldable pub start_build :
    (Text → Option ParsedUrl) → Fate → Text → Text → StartBuildRequest → Site → Result Job × Site
start_build parse fate tenant service req s =
    place_build (check_request parse fate tenant service req) fate tenant service req s

unfoldable pub get_build : Bool → Text → Text → Site → Result Build
get_build up tenant id s =
    if up
    then elim (find (owns_build tenant id) s.builds) [
      | none ↦ err Error.build_not_found
      | some b ↦ ok b
    ]
    else err Error.query_failed

-- ORDER BY created_at DESC is left to the database, which keeps the newest 50.
unfoldable pub list_builds : Text → Text → Site → List Build
list_builds tenant service s =
    keep (λ (b : Build). same b.tenant_id tenant && same b.service_id service) s.builds

unfoldable pub get_build_logs : Bool → Text → Text → Site → Result Text
get_build_logs up tenant id s = elim (get_build up tenant id s) [ ok b ↦ ok b.log | err e ↦ err e ]

-- CancelBuild up to the stop of the unit, which ends the process: a build that has ended is not
-- cancelled.
unfoldable pub may_cancel : Result Build → Result (Unit {0})
may_cancel (ok b) = if in_progress b.status then ok tt else err Error.build_finished
may_cancel (err e) = err e

-- The rest of CancelBuild. Its update does not look at the status again.
unfoldable pub finish_cancel : Bool → Bool → ℕ → Text → Site → Site
finish_cancel up log_up now id s = close_log_subs id (
    append_log log_up id (codes "[ah] Build cancelled by user")
      (update_builds up (has_build_id id) (set_finished BuildStatus.build_failed now) s))

abbrev restarted : ℕ → Build → Build
restarted now b = record b {
  status = BuildStatus.build_failed;
  finished_at = some now;
  log = b.log ++ (codes "[ah] Build failed: process restarted" ++ 10 ∷ []);
}

unfoldable pub reconcile_stale_builds : Bool → ℕ → Site → Site
reconcile_stale_builds up now s = update_builds up (λ b. in_progress b.status) (restarted now) s
