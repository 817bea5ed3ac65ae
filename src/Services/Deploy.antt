-- ===== src/Services/Deploy.antt =====
-- Deploy of internal/services/services.go and DeployImage of internal/services/deploy_image.go.
use agentic_paasd.Prelude.{
  ℕ, suc, ◌-◌, ◌++◌, true, false, not, Text, codes, is_empty, ltb, if◌then◌else◌,
}
use agentic_paasd.Store.{Service, Status, Reason}
use agentic_paasd.Runtime.{
  Env, Exec, Error, Result, err, World, Call, ◌>>=◌, ◌>>◌, raise, or_fail, or_fail_with, check_none,
  on_error, on_error_as, when, skip, time_now, docker, docker_text, disk_check,
}
use agentic_paasd.Services.Rows.{
  owns, reason_of, update_services, check_tenant_active, get_owned, update_status_scoped,
  update_status_with_error, update_status_with_error_scoped,
}
use agentic_paasd.Services.Launch.{discard, launch}

abbrev pub max_queued_deploys : ℕ
max_queued_deploys = 20

abbrev pub max_concurrent_deploys : ℕ
max_concurrent_deploys = 5

-- "ah-tenant-" + tenantID of internal/docker/client.go
unfoldable pub tenant_network_name : Text → Text
tenant_network_name tenant = codes "ah-tenant-" ++ tenant

-- `defer func() { <-m.deployQueue }()`
abbrev leave_queue : {A : Type 0} → Result A × World → Result A × World
leave_queue (r, w) = (r, record w { queue = w.queue - 1 })

abbrev leave_slot : {A : Type 0} → Result A × World → Result A × World
leave_slot (r, w) = (r, record w { slots = w.slots - 1 })

-- A place in deployQueue for the length of the body, or `full` and the error at once.
unfoldable pub in_queue : {A : Type 0} → Exec (Unit {0}) → Exec A → Exec A
in_queue full body w =
    if ltb w.queue max_queued_deploys
    then leave_queue (body (record w { queue = suc w.queue }))
    else (full >> raise Error.queue_full) w

abbrev pub image_set : Text → ℕ → Service → Service
image_set image now s = record s { image = image; updated_at = now }

module _ (env : Env) where
  -- Waits for a place in deploySem or for the context, while the others go on.
  unfoldable pub with_slot : {A : Type 0} → Exec A → Exec A
  with_slot body w =
      let w' = record w { db = env.others w.tick w.db; tick = suc w.tick } in
      if env.slot w.tick
      then leave_slot (body (record w' { slots = suc w.slots }))
      else (err Error.context_done, w')

  unfoldable pub fail_with : Text → Text → Reason → Exec (Unit {0})
  fail_with tenant id reason = update_status_with_error_scoped env tenant id Status.failed reason

  -- Deploy, from the disk check on.
  unfoldable pub deploy_closed : Text → Text → Service → Exec (Unit {0})
  deploy_closed tenant id s = do
    disk ← disk_check env
    check_none disk (λ m. fail_with tenant id (Reason.disk_full m)) Error.disk_error
    update_status_scoped env tenant id Status.deploying
    network ← docker_text env (Call.ensure_network (tenant_network_name tenant))
    _ ←
        or_fail_with network (λ m. fail_with tenant id (Reason.network_failed m))
          Error.network_error
    pulled ← docker env (Call.pull_image s.image)
    check_none pulled (λ m. fail_with tenant id (Reason.pull_failed m)) Error.pull_error
    again ← on_error_as Error.service_deleted (get_owned env tenant id)
    when (not (is_empty again.container_id)) (discard env again.container_id)
    launch env tenant id again again.image

  -- Deploy, with both places held.
  unfoldable pub deploy_held : Text → Text → Exec (Unit {0})
  deploy_held tenant id = do
    s ← get_owned env tenant id
    elim s.circuit_open [
      | true ↦ fail_with tenant id Reason.circuit_is_open >> raise Error.circuit_is_open
      | false ↦ deploy_closed tenant id s
    ]

  unfoldable pub deploy : Text → Text → Exec (Unit {0})
  deploy tenant id =
      if env.has_docker
      then (do
        on_error (check_tenant_active env tenant)
            (λ e. update_status_with_error env id Status.failed (reason_of e))
        in_queue (fail_with tenant id Reason.queue_full) (with_slot (deploy_held tenant id)))
      else fail_with tenant id Reason.docker_missing >> raise Error.docker_missing

  -- DeployImage, with both places held.
  unfoldable pub deploy_image_held : Text → Text → Text → Exec (Unit {0})
  deploy_image_held tenant id image = do
    disk ← disk_check env
    check_none disk (λ m. skip) Error.disk_error
    s ← get_owned env tenant id
    update_status_scoped env tenant id Status.deploying
    when (not (is_empty s.container_id)) (discard env s.container_id)
    network ← docker_text env (Call.ensure_network (tenant_network_name tenant))
    _ ←
        or_fail_with network (λ m. fail_with tenant id (Reason.network_failed m))
          Error.network_error
    now ← time_now env
    rows ← update_services env (owns tenant id) (image_set image now)
    _ ← or_fail rows skip Error.update_failed
    launch env tenant id s image

  unfoldable pub deploy_image : Text → Text → Text → Exec (Unit {0})
  deploy_image tenant id image =
      if env.has_docker
      then (do
        check_tenant_active env tenant
        in_queue skip (with_slot (deploy_image_held tenant id image)))
      else raise Error.docker_missing
