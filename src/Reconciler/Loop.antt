-- ===== src/Reconciler/Loop.antt =====
-- reconcileOnce of internal/reconciler/reconciler.go.
use agentic_paasd.Prelude.{
  ℕ, ◌+◌, ◌-◌, Bool, true, false, not, ◌&&◌, ◌||◌, Option, none, some, List, [], Text, codes,
  is_empty, same, any, keep, find, update, ltb, if◌then◌else◌,
}
use agentic_paasd.Store.{
  Service, Status, Reason, Database, DbStatus, is_running, is_deploying, is_ready, text_of,
  set_databases,
}
use agentic_paasd.Runtime.{
  Env, Exec, Error, ok, Answer, got, failure, Call, ContainerInfo, ◌>>=◌, ◌>>◌, pure, or_fail,
  or_fail_with, skip, ignore, when, sql, query, time_now, docker, docker_, docker_info, docker_list,
  docker_text, for_each,
}
use agentic_paasd.Services.Rows.{owns, has_id, update_services}
use agentic_paasd.Services.Control.{is_not_found}
use agentic_paasd.Services.Launch.{discard}
use agentic_paasd.Reconciler.Breaker.{
  crash_columns, circuit_columns, circuit_retry_backoff, recovery_columns, is_due,
}

-- info.Status == "exited" || info.Status == "dead"
unfoldable pub has_stopped : ContainerInfo → Bool
has_stopped info = same info.status (codes "exited") || same info.status (codes "dead")

unfoldable pub is_unhealthy : ContainerInfo → Bool
is_unhealthy info = same info.health_status (codes "unhealthy")

-- The reason to mark a service crashed, from a look at its container.
unfoldable pub crash_reason : Answer ContainerInfo → Option Reason
unfolding has_stopped
crash_reason (failure _) = none
crash_reason (got info) =
    if has_stopped info then some (Reason.exited info.status info.exit_code) else none

-- WHERE status = 'running' AND container_id != ''
unfoldable pub is_watched : Service → Bool
is_watched s = is_running s.status && not (is_empty s.container_id)

abbrev opened : Option (Option Service) → Bool
opened (some (some s)) = s.circuit_open
opened _ = false

module _ (env : Env) where
  -- A container that is not in Docker's list is looked at before it counts as gone.
  abbrev unlisted : Text → Answer ContainerInfo → Exec (Option Reason)
  unlisted container (failure m) =
      pure (if is_not_found m then some Reason.not_found_by_reconciler else none)
  unlisted container (got _) = do
    info ← docker_info env (Call.inspect_container container)
    pure (crash_reason info)

  unfoldable pub diagnose : List Text → Service → Exec (Option Reason)
  diagnose listed s = do
    info ← docker_info env (Call.inspect_container s.container_id)
    if any (λ id. same id s.container_id) listed
        then pure (crash_reason info)
        else unlisted s.container_id info

  unfoldable pub read_circuit : Service → Exec Bool
  read_circuit s = do row ← query env (λ db. find (has_id s.id) db.services); pure (opened row)

  -- Step 2, whose failure is logged and dropped.
  unfoldable pub open_circuit : ℕ → Service → Exec (Unit {0})
  open_circuit now s = do
    later ← time_now env
    _ ←
        update_services env (owns s.tenant_id s.id)
          (circuit_columns now (later + circuit_retry_backoff 1))
    skip

  -- Steps 1 and 2; `dispose` is for a container whose circuit is open now.
  unfoldable pub mark_crashed : Service → Reason → Exec (Unit {0}) → Exec (Unit {0})
  mark_crashed s reason dispose = do
    now ← time_now env
    marked ← update_services env (owns s.tenant_id s.id) (crash_columns now reason)
    _ ← or_fail marked skip Error.update_failed
    open_circuit now s
    is_open ← read_circuit s
    when is_open dispose

  unfoldable pub mark_if : Service → Option Reason → Exec (Unit {0})
  mark_if s none = skip
  mark_if s (some reason) = mark_crashed s reason (discard env s.container_id)

  -- An error ends the row only.
  abbrev contained : {A : Type 0} → Exec A → Exec (Unit {0})
  contained m w = let (r, w') = m w in (ok tt, w')

  -- 1. One running service.
  unfoldable pub check_running : List Text → Service → Exec (Unit {0})
  check_running listed s = contained (do reason ← diagnose listed s; mark_if s reason)

  -- 1a. One running service whose health check may have failed.
  unfoldable pub check_health : Service → Exec (Unit {0})
  check_health s = contained (do
    answer ← docker_info env (Call.inspect_container s.container_id)
    info ← or_fail_with answer ignore Error.stop_error
    when (is_unhealthy info) (do
      stopped ← docker env (Call.stop_container s.container_id)
      elim stopped [
        | some m ↦ skip
        | none ↦
            mark_crashed s Reason.unhealthy (docker_ env (Call.remove_container s.container_id))
      ]))

  unfoldable pub recover_row : Service → Exec (Unit {0})
  recover_row s = do
    now ← time_now env
    _ ← update_services env (owns s.tenant_id s.id) (recovery_columns now)
    skip

  unfoldable pub recover_rows : Option (List Service) → Exec (Unit {0})
  recover_rows none = skip
  recover_rows (some rows) = for_each rows recover_row

  -- 1b. Open circuits whose time has come.
  unfoldable pub recover_circuits : Exec (Unit {0})
  recover_circuits = do
    now ← time_now env
    due ← query env (λ db. keep (is_due now) db.services)
    recover_rows due

  -- 2. Services that have been deploying for more than ten minutes.
  unfoldable pub fail_stale_deploys : Exec (Unit {0})
  fail_stale_deploys = do
    start ← time_now env
    now ← time_now env
    _ ←
        update_services env (λ s. is_deploying s.status && ltb s.updated_at (start - 600))
          (λ s. record s {
            status = Status.failed;
            last_error = Reason.deploy_timed_out;
            updated_at = now;
          })
    skip

  abbrev lost : Answer ContainerInfo → Bool
  lost (got _) = false
  lost (failure m) = is_not_found m

  -- 3. One ready database.
  unfoldable pub check_database : List Text → Database → Exec (Unit {0})
  check_database listed d = elim (any (λ id. same id (text_of d.container_id)) listed) [
    | true ↦ skip
    | false ↦ do
      info ← docker_info env (Call.inspect_container (text_of d.container_id))
      when (lost info) (do
        now ← time_now env
        _ ← sql env (λ db. (
          tt,
          set_databases
              (update (λ (r : Database). same r.id d.id)
                (λ r. record r { status = DbStatus.unavailable; updated_at = now }) db.databases)
              db,
        ))
        skip)
  ]

  unfoldable pub check_databases : List Text → Option (List Database) → Exec (Unit {0})
  check_databases listed none = skip
  check_databases listed (some rows) = for_each rows (check_database listed)

  -- 4. Only looks, and logs what it sees.
  unfoldable pub report_split_brain : Exec (Unit {0})
  report_split_brain = do
    answer ← docker_list env (Call.list_by_label (codes "ah.service") [])
    elim answer [
      | failure m ↦ skip
      | got ids ↦ for_each ids (λ id. contained (do
        labels ← docker_text env (Call.get_labels id)
        _ ← or_fail_with labels ignore Error.stop_error
        _ ← query env (λ db. tt)
        skip))
    ]

  -- The passes over what the two queries of the start have found.
  unfoldable pub reconcile_rows : List Text → List Service → Exec (Unit {0})
  reconcile_rows listed rows = do
    for_each rows (check_running listed)
    for_each rows check_health
    recover_circuits
    fail_stale_deploys
    ready ← query env (λ db.
        keep (λ (d : Database). is_ready d.status && not (is_empty (text_of d.container_id)))
          db.databases)
    check_databases listed ready
    report_split_brain

  unfoldable pub reconcile_once : Exec (Unit {0})
  reconcile_once = do
    answer ← docker_list env (Call.list_by_label (codes "ah.tenant") [])
    listed ← or_fail_with answer ignore (λ m. Error.list_failed)
    watched ← query env (λ db. keep is_watched db.services)
    rows ← or_fail watched skip Error.query_failed
    reconcile_rows listed rows
