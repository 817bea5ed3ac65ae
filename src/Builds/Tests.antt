-- ===== src/Builds/Tests.antt =====
-- Runs of the build system: a build that is cancelled while its process runs.
use agentic_paasd.Prelude.{
  any, length, ℕ, ◌≤◌, ◌≡◌, refl, true, false, Option, none, some, List, [], ◌∷◌, Text, codes, find,
  count, same, has_prefix, arith,
}
use agentic_paasd.Services.Rows.{owns}
use agentic_paasd.Store.{Build, BuildStatus, Service, Status, Reason}
use agentic_paasd.Builds.Validate.{
  ParsedUrl, validate_git_url, check_parsed, is_allowed_host, validate_source_ref, is_ref_char,
}
use agentic_paasd.Builds.Site.{Site, max_log_size, update_builds, append_log, log_size}
use agentic_paasd.Builds.Job.{Phase, Job, Luck, turn, mark_succeeded, clone_command}
use agentic_paasd.Builds.Control.{
  StartBuildRequest, Fate, start_build, check_request, place_build, insert_build, enqueue, new_job,
}
use agentic_paasd.Builds.Steps.{System, Event, run}
use agentic_paasd.Builds.Sound.{Sound, run-Sound, total, live}
use agentic_paasd.Builds.Progress.{steps_left}
use agentic_paasd.Builds.Ending.{moves, builds_can_end}
use agentic_paasd.Builds.Lifecycle.{LivesOn}
use agentic_paasd.Builds.Refinement.{run_refines_life}
use agentic_paasd.Builds.LogBound.{LogEvent, log_events, bytes_of, log_stays_within_limit}
use agentic_paasd.Builds.Vetted.{ClonesSafely, Recorded, queued_build_is_vetted}

abbrev parse_github : Text → Option ParsedUrl
parse_github url = some (record { has_user = false; hostname = codes "GitHub.com" })

abbrev sample_request : StartBuildRequest
sample_request = record {
  source_type = codes "git";
  source_url = codes "https://GitHub.com/a/b";
  source_ref = [];
}

abbrev sample_service : Service
sample_service = record {
  id = codes "s1";
  tenant_id = codes "t1";
  name = codes "web";
  status = Status.created;
  image = [];
  container_id = [];
  port = 8080;
  last_error = Reason.no_error;
  crash_count = 0;
  circuit_open = false;
  last_crashed_at = none;
  crash_window_start = none;
  circuit_retry_at = none;
  circuit_open_count = 0;
  created_at = 1;
  updated_at = 1;
}

abbrev sample_fate : Fate
sample_fate = record {
  disk = none;
  query_up = true;
  services = sample_service ∷ [];
  random = some (codes "b1");
  now = 10;
  insert_up = true;
  fail_up = true;
}

abbrev sample_luck : Luck
sample_luck = record { up = true; log_up = true; now = 20; context_done = false; error = none }

abbrev no_site : Site
no_site = record {
  builds = [];
  queue = 0;
  sem = 0;
  busy = [];
  units = [];
  log_sizes = [];
  subscribers = [];
  deploys = [];
}

abbrev no_builds : System
no_builds = record { site = no_site; jobs = []; cancels = [] }

abbrev sample_start : Event
sample_start = Event.start sample_fate (codes "t1") (codes "s1") sample_request

-- The build is started, runs, and is cancelled while its clone runs.
abbrev sample_events : List Event
sample_events =
    sample_start
    ∷ Event.move 0 sample_luck
    ∷ Event.move 0 sample_luck
    ∷ Event.move 0 sample_luck
    ∷ Event.move 0 sample_luck
    ∷ Event.ask_cancel true (codes "t1") (codes "b1")
    ∷ Event.cancel true true 30 (codes "b1")
    ∷ Event.move 0 sample_luck
    ∷ []

run-Sound_example : Sound (run parse_github sample_events no_builds)
unfolding total count
run-Sound_example =
    run-Sound parse_github sample_events no_builds
      (refl, refl, λ t. refl, ground arith, ground arith, λ t. ground arith)

abbrev queued_job : Job
queued_job = record {
  build_id = codes "b1";
  tenant_id = codes "t1";
  source_url = codes "https://github.com/a/b";
  source_ref = codes "main";
  image = codes "img";
  phase = Phase.queued;
}

abbrev queued_system : System
queued_system = record { site = record no_site { queue = 1 }; jobs = queued_job ∷ []; cancels = [] }

builds_can_end_example :
    (picks : List ℕ) × (length picks ≤ total steps_left queued_system.jobs)
    × (total live (run parse_github (moves (λ _. sample_luck) 0 picks) queued_system).jobs ≡ 0)
unfolding total count
builds_can_end_example =
    builds_can_end parse_github (λ _. sample_luck) queued_system
      (refl, refl, λ t. refl, ground arith, ground arith, λ t. ground arith)

run_refines_life_example :
    LivesOn (codes "b1") no_builds.site (run parse_github sample_events no_builds).site
run_refines_life_example = run_refines_life parse_github (codes "b1") sample_events no_builds

abbrev failed_build : Build
failed_build = record {
  id = codes "b1";
  service_id = codes "s1";
  tenant_id = codes "t1";
  status = BuildStatus.build_failed;
  source_type = codes "git";
  source_url = codes "https://github.com/a/b";
  source_ref = codes "main";
  image = codes "img";
  log = [];
  started_at = none;
  finished_at = some 5;
  created_at = 1;
}

abbrev failed_system : System
failed_system = record {
  site = record no_site { builds = failed_build ∷ []; queue = 1 };
  jobs = queued_job ∷ [];
  cancels = [];
}

abbrev log_story : List LogEvent
log_story =
    LogEvent.appended true (codes "b1") (codes "hello")
    ∷ LogEvent.appended false (codes "b2") (codes "x")
    ∷ LogEvent.ended (codes "b2")
    ∷ []

log_stays_within_limit_example :
    bytes_of (codes "b1") (log_events log_story failed_system.site) ≤ max_log_size
unfolding find same log_size
log_stays_within_limit_example =
    log_stays_within_limit (codes "b1") log_story failed_system.site (refl, (refl, (refl, tt))) refl
      refl

abbrev started_job : Job
started_job = new_job (codes "b1") (codes "t1") (codes "s1") sample_request

queued_build_is_vetted_example :
    ClonesSafely parse_github (codes "/w/b1") (clone_command (codes "/w/b1") started_job)
    × Recorded started_job []
        (start_build parse_github sample_fate
          (codes "t1")
          (codes "s1")
          sample_request
          no_site).1.builds
    × (any (owns (codes "t1") (codes "s1")) sample_fate.services ≡ true)
unfolding start_build check_request validate_git_url check_parsed is_allowed_host has_prefix same
    validate_source_ref is_ref_char place_build insert_build enqueue
queued_build_is_vetted_example =
    queued_build_is_vetted parse_github sample_fate (codes "t1") (codes "s1") sample_request no_site
      (codes "/w/b1") started_job refl

-- A build that was cancelled while it ran is deployed all the same.
cancelled_build_is_deployed :
    (turn sample_luck Phase.finishing queued_job failed_system.site).1.deploys ≡ codes "img" ∷ []
unfolding turn mark_succeeded append_log update_builds log_size find
cancelled_build_is_deployed = refl
