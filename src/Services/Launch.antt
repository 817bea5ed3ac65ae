-- ===== src/Services/Launch.antt =====
-- The end of Deploy in internal/services/services.go, which DeployImage in deploy_image.go
-- repeats: from the environment variables to the row that names the new container.
use agentic_paasd.Prelude.{
  ℕ, zero, suc, Bool, ◌&&◌, Option, none, some, List, [], ◌∷◌, Text, codes, same, ltb, leb, ◌==◌,
  if◌then◌else◌,
}
use agentic_paasd.Store.{Service, Status, Reason}
use agentic_paasd.Runtime.{
  Env, Exec, Error, Call, Limits, ◌>>=◌, ◌>>◌, raise, or_fail_with, on_error, skip, time_now,
  docker_text, docker_,
}
use agentic_paasd.Services.Rows.{
  owns, update_services, update_status_with_error_scoped, get_resource_limits, get_env_vars,
}

-- envVars[k]
unfoldable pub lookup : Text → List (Text × Text) → Option Text
lookup k [] = none
lookup k ((j, v) ∷ vars) = if same j k then some v else lookup k vars

abbrev pub valid_port : ℕ → Bool
valid_port p = ltb 0 p && leb p 65535

abbrev parsed_port : ℕ → Option ℕ → ℕ
parsed_port port (some p) = if valid_port p then p else port
parsed_port port none = port

abbrev override : (Text → Option ℕ) → ℕ → Option Text → ℕ
override scan port (some p) = parsed_port port (scan p)
override scan port none = port

-- The row's port, 8000 for 0, unless PORT holds a valid one.
unfoldable pub effective_port : (Text → Option ℕ) → ℕ → List (Text × Text) → ℕ
effective_port scan row_port vars =
    override scan (if row_port == 0 then 8000 else row_port) (lookup (codes "PORT") vars)

abbrev pub set_launched : Text → ℕ → Service → Service
set_launched container now s = record s {
  status = Status.running;
  container_id = container;
  last_error = Reason.no_error;
  updated_at = now;
}

module _ (env : Env) where
  -- StopContainer and RemoveContainer, their errors dropped.
  abbrev pub discard : Text → Exec (Unit {0})
  discard container = do
    docker_ env (Call.stop_container container)
    docker_ env (Call.remove_container container)

  -- The container is dropped again if its row was not written.
  abbrev pub settled : Text → Option ℕ → Exec (Unit {0})
  settled container none = discard container >> raise Error.update_failed
  settled container (some zero) = discard container >> raise Error.service_deleted
  settled container (some (suc n)) = skip

  unfoldable pub record_launch : Text → Text → Text → Exec (Unit {0})
  record_launch tenant id container = do
    now ← time_now env
    rows ← update_services env (owns tenant id) (set_launched container now)
    settled container rows

  abbrev pub start_with :
      Text → Text → Text → ℕ → List (Text × Text) → Option Limits → Exec (Unit {0})
  start_with tenant id image port vars limits = do
    started ← docker_text env (Call.run_container tenant id image port vars limits)
    container ←
        or_fail_with started
          (λ m. update_status_with_error_scoped env tenant id Status.failed (Reason.start_failed m))
          Error.run_error
    record_launch tenant id container

  abbrev pub launch_with : Text → Text → Service → Text → List (Text × Text) → Exec (Unit {0})
  launch_with tenant id s image vars = do
    let port = effective_port env.scan_int s.port vars
    limits ← get_resource_limits env tenant
    start_with tenant id image port vars limits

  unfoldable pub launch : Text → Text → Service → Text → Exec (Unit {0})
  launch tenant id s image = do
    vars ←
        on_error (get_env_vars env id)
          (λ e. update_status_with_error_scoped env tenant id Status.failed (Reason.env_failed []))
    launch_with tenant id s image vars
