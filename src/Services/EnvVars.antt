-- ===== src/Services/EnvVars.antt =====
-- Create, SetEnv, GetEnv, DeleteEnv and setEnvVars of internal/services/services.go. A map of
-- variables is the list of its entries, in the order in which the code walks it; a requested port
-- that is not positive is 0.
use agentic_paasd.Prelude.{
  ℕ, zero, suc, Bool, true, false, ◌&&◌, Option, none, some, List, [], ◌∷◌, Text, codes, any, same,
  keep, count, find, drop_all, map, ltb, leb, ◌==◌, if◌then◌else◌,
}
use agentic_paasd.Store.{Db, Service, Status, Reason, Quota, EnvRow}
use agentic_paasd.Runtime.{
  Env, Exec, Error, Result, ok, err, ◌>>=◌, ◌>>◌, pure, raise, or_fail, or_fail_with, skip, ignore,
  sql, query, sql_checked, in_tx, time_now, random_id, encrypted,
}
use agentic_paasd.Services.Rows.{
  has_id, of_tenant, set_services, check_tenant_active, get_owned, get_env_vars,
}
use agentic_paasd.Services.Validate.{validate_image, validate_env_vars}

pub record CreateRequest : Type 0 where
  pub name : Text
  pub image : Text
  pub port : ℕ
  pub env : List (Text × Text)

unfoldable pub check : Result (Unit {0}) → Exec (Unit {0})
check r w = (r, w)

abbrev pub is_key : Text → Text → EnvRow → Bool
is_key id key r = same r.service_id id && same r.key key

-- INSERT … ON CONFLICT(service_id, key) DO UPDATE
unfoldable pub upsert : Text → Text → Text → List EnvRow → List EnvRow
upsert id key value [] = record { service_id = id; key = key; value_encrypted = value } ∷ []
upsert id key value (r ∷ rows) =
    if is_key id key r
    then record r { value_encrypted = value } ∷ rows
    else r ∷ upsert id key value rows

abbrev pub set_envs : List EnvRow → Db → Db
set_envs rows db = record db { envs = rows }

-- The row that Create inserts.
abbrev pub new_service : Text → Text → CreateRequest → ℕ → ℕ → Service
new_service id tenant req port now = record {
  id = id;
  tenant_id = tenant;
  name = req.name;
  status = Status.created;
  image = req.image;
  container_id = [];
  port = port;
  last_error = Reason.no_error;
  crash_count = 0;
  circuit_open = false;
  last_crashed_at = none;
  crash_window_start = none;
  circuit_retry_at = none;
  circuit_open_count = 0;
  created_at = now;
  updated_at = now;
}

-- `id` is the primary key.
abbrev pub insert_row : Service → Db → Option (Unit {0} × Db)
insert_row s db =
    if any (has_id s.id) db.services then none else some (tt, set_services (s ∷ db.services) db)

module _ (env : Env) where
  unfoldable pub insert_vars : Text → List (Text × Text) → Exec (Unit {0})
  insert_vars id [] = skip
  insert_vars id ((k, v) ∷ vars) = do
    sealed ← encrypted env v
    value ← or_fail_with sealed ignore Error.encrypt_error
    row ← sql env (λ db. (tt, set_envs (upsert id k value db.envs) db))
    _ ← or_fail row skip Error.upsert_failed
    insert_vars id vars

  -- setEnvVars
  unfoldable pub set_env_vars : Text → List (Text × Text) → Exec (Unit {0})
  set_env_vars id vars =
      in_tx env Error.begin_failed Error.commit_failed (do _ ← time_now env; insert_vars id vars)

  unfoldable pub set_env : Text → Text → List (Text × Text) → Exec (Unit {0})
  set_env tenant id vars = do
    _ ← get_owned env tenant id
    check (validate_env_vars vars)
    set_env_vars id vars

  unfoldable pub masked : EnvRow → Text × Text
  masked r = (r.key, codes "********")

  unfoldable pub get_env : Text → Text → Bool → Exec (List (Text × Text))
  get_env tenant id reveal = do
    _ ← get_owned env tenant id
    elim reveal [
      | true ↦ get_env_vars env id
      | false ↦ do
        rows ← query env (λ db. keep (λ (r : EnvRow). same r.service_id id) db.envs)
        found ← or_fail rows skip Error.env_query
        pure (map masked found)
    ]

  abbrev require_affected : ℕ → Exec (Unit {0})
  require_affected zero = raise Error.env_not_found
  require_affected (suc n) = skip

  unfoldable pub delete_env : Text → Text → Text → Exec (Unit {0})
  delete_env tenant id key = do
    _ ← get_owned env tenant id
    gone ←
        sql env
          (λ db. (count (is_key id key) db.envs, set_envs (drop_all (is_key id key) db.envs) db))
    n ← or_fail gone skip Error.delete_failed
    require_affected n

  -- The row and its variables, in one transaction.
  unfoldable pub insert_service : Service → List (Text × Text) → Exec (Unit {0})
  insert_service s vars = in_tx env Error.begin_failed Error.commit_failed (do
    row ← sql_checked env (insert_row s)
    _ ← or_fail row skip Error.insert_failed
    insert_vars s.id vars)

  -- max_services of the tenant, and the services that it has
  unfoldable pub check_quota : Text → Exec (Unit {0})
  check_quota tenant = do
    row ← query env (λ db. find (λ (q : Quota). same q.tenant_id tenant) db.quotas)
    found ← or_fail row skip Error.quota_check
    q ← or_fail found skip Error.quota_check
    counted ← query env (λ db. count (of_tenant tenant) db.services)
    n ← or_fail counted skip Error.count_failed
    if leb q.max_services n then raise Error.limit_reached else skip

  -- Create behind its check of the quota, from the identifier on.
  abbrev pub insert_created : Text → CreateRequest → Exec Service
  insert_created tenant req = do
    random ← random_id env
    id ← or_fail random skip Error.no_randomness
    now ← time_now env
    let port = if req.port == 0 then 8000 else req.port
    check (if ltb 65535 port then err Error.port_range else ok tt)
    let s = new_service id tenant req port now
    insert_service s req.env
    pure s

  -- A run without a step of another goroutine; the source checks the quota outside the transaction
  -- of the insertion, so that check_quota and insert_created can also be run apart.
  unfoldable pub create : Text → CreateRequest → Exec Service
  create tenant req = do
    check_tenant_active env tenant
    check (validate_image req.image)
    check (validate_env_vars req.env)
    check_quota tenant
    insert_created tenant req
