-- ===== src/Services/Rows.antt =====
-- The statements that internal/services/services.go shares: who owns a row, the status updates,
-- the tenant's limits.
use agentic_paasd.Prelude.{
  ℕ, Bool, ◌&&◌, Option, none, some, List, [], ◌∷◌, Text, same, find, keep, count, update,
  if◌then◌else◌,
}
use agentic_paasd.Store.{Db, Service, Status, Reason, Tenant, Quota, EnvRow, is_active}
use agentic_paasd.Runtime.{
  Env, Exec, Error, Limits, ◌>>=◌, pure, raise, or_fail, or_fail_with, skip, ignore, sql, query,
  time_now,
}

-- WHERE id = ? AND tenant_id = ?
abbrev pub owns : Text → Text → Service → Bool
owns tenant id s = same s.id id && same s.tenant_id tenant

-- WHERE id = ?
abbrev pub has_id : Text → Service → Bool
has_id id s = same s.id id

abbrev pub of_tenant : Text → Service → Bool
of_tenant tenant s = same s.tenant_id tenant

abbrev pub set_services : List Service → Db → Db
set_services rows db = record db { services = rows }

abbrev pub set_status : Status → ℕ → Service → Service
set_status status now s = record s { status = status; updated_at = now }

abbrev pub set_error : Status → Reason → ℕ → Service → Service
set_error status reason now s = record s { status = status; last_error = reason; updated_at = now }

-- The reason that `err.Error()` of checkTenantActive gives.
abbrev pub reason_of : Error → Reason
reason_of Error.tenant_inactive = Reason.tenant_suspended
reason_of _ = Reason.tenant_unknown

-- `status != "active"` of a row that was read.
abbrev pub require_active : Tenant → Exec (Unit {0})
require_active t = if is_active t.status then skip else raise Error.tenant_inactive

module _ (env : Env) where
  -- UPDATE services SET … WHERE …: how many rows it changed, unless it failed.
  unfoldable pub update_services : (Service → Bool) → (Service → Service) → Exec (Option ℕ)
  update_services p f =
      sql env (λ db. (count p db.services, set_services (update p f db.services) db))

  unfoldable pub check_tenant_active : Text → Exec (Unit {0})
  check_tenant_active tenant = do
    row ← query env (λ db. find (λ (t : Tenant). same t.id tenant) db.tenants)
    found ← or_fail row skip Error.tenant_unknown
    t ← or_fail found skip Error.tenant_unknown
    require_active t

  unfoldable pub get_owned : Text → Text → Exec Service
  get_owned tenant id = do
    row ← query env (λ db. find (owns tenant id) db.services)
    found ← or_fail row skip Error.get_service
    or_fail found skip Error.service_not_found

  -- A failed update is logged and dropped.
  unfoldable pub update_status : Text → Status → Exec (Unit {0})
  update_status id status = do
    now ← time_now env
    _ ← update_services (has_id id) (set_status status now)
    skip

  unfoldable pub update_status_scoped : Text → Text → Status → Exec (Unit {0})
  update_status_scoped tenant id status = do
    now ← time_now env
    _ ← update_services (owns tenant id) (set_status status now)
    skip

  unfoldable pub update_status_with_error : Text → Status → Reason → Exec (Unit {0})
  update_status_with_error id status reason = do
    now ← time_now env
    _ ← update_services (has_id id) (set_error status reason now)
    skip

  unfoldable pub update_status_with_error_scoped : Text → Text → Status → Reason → Exec (Unit {0})
  update_status_with_error_scoped tenant id status reason = do
    now ← time_now env
    _ ← update_services (owns tenant id) (set_error status reason now)
    skip

  -- A limit of 0 is left out, and Docker's client puts its default.
  abbrev limits_of : Option (Option Quota) → Option Limits
  limits_of (some (some q)) =
      some (record { memory_mb = q.max_memory_mb; nano_cpus = q.max_nano_cpus })
  limits_of _ = none

  unfoldable pub get_resource_limits : Text → Exec (Option Limits)
  get_resource_limits tenant = do
    row ← query env (λ db. find (λ (q : Quota). same q.tenant_id tenant) db.quotas)
    pure (limits_of row)

  unfoldable pub decrypt_all : List EnvRow → Exec (List (Text × Text))
  decrypt_all [] = pure []
  decrypt_all (row ∷ rows) = do
    plain ← or_fail_with (env.decrypt row.value_encrypted) ignore Error.decrypt_error
    rest ← decrypt_all rows
    pure ((row.key, plain) ∷ rest)

  unfoldable pub get_env_vars : Text → Exec (List (Text × Text))
  get_env_vars id = do
    rows ← query env (λ db. keep (λ (r : EnvRow). same r.service_id id) db.envs)
    found ← or_fail rows skip Error.env_query
    decrypt_all found
