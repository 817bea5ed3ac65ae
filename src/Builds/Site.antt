-- ===== src/Builds/Site.antt =====
-- What the build manager and the builder keep, and the small operations on it: the statements on
-- the table of builds, the log and its subscribers, the places that a build takes.
use agentic_paasd.Prelude.{
  ℕ, suc, ◌+◌, ◌-◌, ◌*◌, Bool, true, false, ◌&&◌, ◌||◌, ◌++◌, Option, none, some, List, [], ◌∷◌,
  Text, same, any, find, update, drop_all, length, ltb, if◌then◌else◌,
}
use agentic_paasd.Store.{Build, BuildStatus}

pub record Site : Type 0 where
  pub builds : List Build
  pub queue : ℕ  -- entries of buildQueue
  pub sem : ℕ  -- entries of buildSem
  pub busy : List Text  -- tenantBuilds
  pub units : List (Text × Text)  -- procMap
  pub log_sizes : List (Text × ℕ)
  pub subscribers : List Text  -- logSubs: its build, for each channel
  pub deploys : List Text  -- the images given to deployFn, newest first

abbrev pub max_log_size : ℕ
max_log_size = 5 * (1024 * 1024)

abbrev pub max_queued : ℕ
max_queued = 10

abbrev pub max_builds : ℕ
max_builds = 3

abbrev pub is_pending : BuildStatus → Bool
is_pending BuildStatus.pending = true
is_pending _ = false

abbrev pub is_building : BuildStatus → Bool
is_building BuildStatus.build_running = true
is_building _ = false

-- status IN ('pending', 'running')
abbrev pub in_progress : BuildStatus → Bool
in_progress s = is_pending s || is_building s

abbrev pub has_build_id : Text → Build → Bool
has_build_id id b = same b.id id

abbrev pub owns_build : Text → Text → Build → Bool
owns_build tenant id b = same b.id id && same b.tenant_id tenant

abbrev pub set_builds : List Build → Site → Site
set_builds rows s = record s { builds = rows }

-- UPDATE builds SET … WHERE …, which changes nothing where it fails.
unfoldable pub update_builds : Bool → (Build → Bool) → (Build → Build) → Site → Site
update_builds up p f s = if up then set_builds (update p f s.builds) s else s

abbrev pub set_running : ℕ → Build → Build
set_running now b = record b { status = BuildStatus.build_running; started_at = some now }

abbrev pub set_finished : BuildStatus → ℕ → Build → Build
set_finished status now b = record b { status = status; finished_at = some now }

-- The key of a Go map is deleted.
abbrev pub without {ℓ} : {A : Type ℓ} → Text → List (Text × A) → List (Text × A)
without k m = drop_all (λ e. same e.0 k) m

abbrev pub size_of : Option (Text × ℕ) → ℕ
size_of none = 0
size_of (some e) = e.1

-- logSizes[id], 0 for no entry.
unfoldable pub log_size : Text → Site → ℕ
log_size id s = size_of (find (λ (e : Text × ℕ). same e.0 id) s.log_sizes)

abbrev pub add_line : Text → Build → Build
add_line line b = record b { log = b.log ++ (line ++ 10 ∷ []) }

-- appendLog: a line for which there is no room is dropped.
unfoldable pub append_log : Bool → Text → Text → Site → Site
append_log up id line s =
    let size = log_size id s + suc (length line) in
    let sized = record s { log_sizes = (id, size) ∷ without id s.log_sizes } in
    if ltb max_log_size size then s else update_builds up (has_build_id id) (add_line line) sized

-- closeLogSubs; what notifyLogSubs sends to a subscriber is not kept.
unfoldable pub close_log_subs : Text → Site → Site
close_log_subs id s = record s { subscribers = drop_all (λ b. same b id) s.subscribers }

-- acquireTenant, where it succeeds, and releaseTenant
abbrev pub hold_tenant : Text → Site → Site
hold_tenant tenant s = record s { busy = tenant ∷ s.busy }

abbrev pub release_tenant : Text → Site → Site
release_tenant tenant s = record s { busy = drop_all (λ t. same t tenant) s.busy }

abbrev pub is_busy : Text → Site → Bool
is_busy tenant s = any (λ t. same t tenant) s.busy

abbrev pub track_unit : Text → Text → Site → Site
track_unit id unit s = record s { units = (id, unit) ∷ without id s.units }

abbrev pub untrack_unit : Text → Site → Site
untrack_unit id s = record s { units = without id s.units }

-- The deferred releases of runBuild.
unfoldable pub end_run : Text → Site → Site
end_run id s = record s { queue = s.queue - 1; log_sizes = without id s.log_sizes }
