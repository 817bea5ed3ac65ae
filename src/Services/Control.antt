-- ===== src/Services/Control.antt =====
-- Create, Stop, Start, Restart, Delete, StopAllForTenant, Get, List, Logs and ResetCircuitBreaker
-- of internal/services/services.go.
use agentic_paasd.Prelude.{
  is_none, ℕ, Bool, true, false, not, ◌&&◌, ◌||◌, ◌++◌, Option, none, some, List, Text, codes,
  is_empty, same, contains, keep, count, drop_all, ◌==◌, if◌then◌else◌,
}
use agentic_paasd.Store.{Db, Service, Status, Reason, Quota, EnvRow}
use agentic_paasd.Runtime.{
  Env, Exec, Error, Answer, got, failure, Call, ContainerInfo, ◌>>=◌, ◌>>◌, pure, raise, or_fail,
  or_fail_with, docker_text, check_none, when, skip, ignore, sql, query, time_now, docker, docker_,
  docker_info, docker_list, for_each,
}
use agentic_paasd.Services.Rows.{
  owns, of_tenant, update_services, check_tenant_active, get_owned, update_status,
  update_status_with_error,
}
use agentic_paasd.Services.Launch.{discard}

-- isNotFoundError: Docker says that the container does not exist.
unfoldable pub is_not_found : Text → Bool
is_not_found message =
    contains message (codes "No such container")
    || contains message (codes "not found")
    || contains message (codes "404")

-- The columns that ResetCircuitBreaker writes.
abbrev pub reset_columns : ℕ → Service → Service
reset_columns now s = record s {
  crash_count = 0;
  circuit_open = false;
  crash_window_start = none;
  status = Status.stopped;
  last_error = Reason.no_error;
  updated_at = now;
}

abbrev has_container : Service → Exec (Unit {0})
has_container s = if is_empty s.container_id then raise Error.no_container else skip

abbrev breaker_closed : Service → Exec (Unit {0})
breaker_closed s = if s.circuit_open then raise Error.circuit_is_open else skip

module _ (env : Env) where
  unfoldable pub stop : Text → Text → Exec (Unit {0})
  stop tenant id = do
    s ← get_owned env tenant id
    has_container s
    stopped ← docker env (Call.stop_container s.container_id)
    check_none stopped ignore Error.stop_error
    update_status env id Status.stopped

  unfoldable pub start : Text → Text → Exec (Unit {0})
  start tenant id = do
    check_tenant_active env tenant
    s ← get_owned env tenant id
    breaker_closed s
    has_container s
    started ← docker env (Call.start_container s.container_id)
    check_none started ignore Error.start_error
    update_status env id Status.running

  unfoldable pub restart : Text → Text → Exec (Unit {0})
  restart tenant id = do
    s ← get_owned env tenant id
    breaker_closed s
    has_container s
    stopped ← docker env (Call.stop_container s.container_id)
    check_none stopped ignore Error.stop_error
    started ← docker env (Call.start_container s.container_id)
    check_none started ignore Error.start_error
    update_status env id Status.running

  -- "ah-%s-%s"
  unfoldable pub container_name : Text → Text → Text
  container_name tenant id = codes "ah-" ++ (tenant ++ (codes "-" ++ id))

  -- DELETE FROM services; its foreign keys delete the service's variables and builds.
  unfoldable pub delete_rows : Text → Text → Db → ℕ × Db
  delete_rows tenant id db =
      let gone = count (owns tenant id) db.services in
      let rest = record db { services = drop_all (owns tenant id) db.services } in
      (
        gone,
        if gone == 0 then rest else record rest {
          envs = drop_all (λ (r : EnvRow). same r.service_id id) db.envs;
          builds = drop_all (λ (b : agentic_paasd.Store.Build). same b.service_id id) db.builds;
        },
      )

  unfoldable pub delete : Text → Text → Exec (Unit {0})
  delete tenant id = do
    s ← get_owned env tenant id
    when (not (is_empty s.container_id)) (discard env s.container_id)
    docker_ env (Call.stop_and_remove_by_name (container_name tenant id))
    gone ← sql env (delete_rows tenant id)
    _ ← or_fail gone skip Error.delete_failed
    skip

  -- One row of the loop of StopAllForTenant.
  unfoldable pub stop_row : Service → Exec (Unit {0})
  stop_row s = elim (is_empty s.container_id) [
    | true ↦ update_status env s.id Status.stopped
    | false ↦ do
      stopped ← docker env (Call.stop_container s.container_id)
      removed ← docker env (Call.remove_container s.container_id)
      elim (is_none stopped && is_none removed) [
        | true ↦ update_status env s.id Status.stopped
        | false ↦ update_status_with_error env s.id Status.failed Reason.cleanup_failed
      ]
  ]

  -- The containers that carry the tenant's label, tracked or not.
  unfoldable pub stop_labelled : Answer (List Text) → Exec (Unit {0})
  stop_labelled (got ids) = for_each ids (discard env)
  stop_labelled (failure _) = skip

  unfoldable pub stop_rows : Option (List Service) → Exec (Unit {0})
  stop_rows none = skip
  stop_rows (some rows) = for_each rows stop_row

  unfoldable pub stop_all_for_tenant : Text → Exec (Unit {0})
  stop_all_for_tenant tenant = do
    listed ← docker_list env (Call.list_by_label (codes "ah.tenant") tenant)
    stop_labelled listed
    rows ← query env (λ db. keep (of_tenant tenant) db.services)
    stop_rows rows

  -- Get shows Docker's word for the state, where Docker answers.
  abbrev refreshed : Service → Answer ContainerInfo → Service
  refreshed s (got info) = record s { status = Status.reported info.status }
  refreshed s (failure _) = s

  unfoldable pub get : Text → Text → Exec Service
  get tenant id = do
    s ← get_owned env tenant id
    elim (is_empty s.container_id) [
      | true ↦ pure s
      | false ↦ do
        info ← docker_info env (Call.inspect_container s.container_id)
        pure (refreshed s info)
    ]

  -- What ResetCircuitBreaker makes of a look at a container that it could not stop.
  unfoldable pub may_reset : Text → Answer ContainerInfo → Exec (Unit {0})
  may_reset stop_message (got info) =
      if same info.status (codes "running") then raise (Error.still_running stop_message) else skip
  may_reset stop_message (failure m) = if is_not_found m then skip else raise (Error.unverified m)

  -- The stop before a reset: a container that is gone is as good as stopped.
  unfoldable pub stop_for_reset : Text → Option Text → Exec (Unit {0})
  stop_for_reset container none = skip
  stop_for_reset container (some m) = elim (is_not_found m) [
    | true ↦ skip
    | false ↦ do info ← docker_info env (Call.inspect_container container); may_reset m info
  ]

  unfoldable pub clear_container : Text → Exec (Unit {0})
  clear_container container = do
    stopped ← docker env (Call.stop_container container)
    stop_for_reset container stopped
    docker_ env (Call.remove_container container)

  unfoldable pub reset_circuit_breaker : Text → Text → Exec (Unit {0})
  reset_circuit_breaker tenant id = do
    s ← get_owned env tenant id
    when (not (is_empty s.container_id)) (clear_container s.container_id)
    now ← time_now env
    rows ← update_services env (owns tenant id) (reset_columns now)
    _ ← or_fail rows skip Error.reset_failed
    skip

  -- LIMIT 100; ORDER BY created_at DESC is left to the database.
  unfoldable pub list_services : Text → Exec (List Service)
  list_services tenant = do
    rows ← query env (λ db. keep (of_tenant tenant) db.services)
    or_fail rows skip Error.list_failed

  unfoldable pub logs : Text → Text → Exec Text
  logs tenant id = do
    s ← get_owned env tenant id
    has_container s
    answer ← docker_text env (Call.logs_container s.container_id)
    or_fail_with answer ignore Error.run_error
