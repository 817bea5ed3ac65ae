-- ===== src/Databases/Provision.antt =====
-- Create of internal/databases/databases.go, and the wait for the new database.
use agentic_paasd.Prelude.{
  ℕ, zero, suc, ◌+◌, Bool, true, false, ◌||◌, Option, none, some, [], ◌∷◌, Text, codes, is_empty,
  same, length, ltb, leb, count, if◌then◌else◌,
}
use agentic_paasd.Store.{Database, DbStatus, DbType}
use agentic_paasd.Runtime.{
  Env, Exec, Error, Call, DatabaseConfig, ◌>>=◌, ◌>>◌, pure, raise, when, or_fail, or_fail_with,
  check_none, skip, ignore, sql, query, time_now, random_id, disk_check, encrypted, docker, docker_,
  docker_text, dial, sleep,
}
use agentic_paasd.Databases.Rows.{
  has_db_id, counts_for, set_container, insert_row, volume_of, database_container, db_name_of,
  connection_string, affected, update_databases, update_db_status, clean_up,
}
use agentic_paasd.Databases.Ports.{find_free_port}

pub record CreateDatabase : Type 0 where
  pub name : Text
  pub type : Text

abbrev pub type_named : Text → Option DbType
type_named t =
    if same t (codes "postgres")
    then some DbType.postgres
    else if same t (codes "redis")
    then some DbType.redis
    else none

abbrev pub check_name : Text → Exec (Unit {0})
check_name name = if is_empty name || ltb 128 (length name) then raise Error.name_invalid else skip

-- What Create has chosen before it looks for a port.
pub record Plan : Type 0 where
  pub id : Text
  pub tenant_id : Text
  pub name : Text
  pub type : DbType
  pub password : Text
  pub password_encrypted : Text
  pub now : ℕ

pub record Claim : Type 0 where
  pub port : ℕ
  pub connection : Text

-- The row that Create inserts: container_id is not among its columns, and stays NULL.
unfoldable pub new_row : Plan → ℕ → Text → Database
new_row p port sealed = record {
  id = p.id;
  tenant_id = p.tenant_id;
  name = p.name;
  type = p.type;
  status = DbStatus.provisioning;
  container_id = none;
  host = codes "127.0.0.1";
  port = port;
  db_name = db_name_of p.type;
  username = db_name_of p.type;
  connection_string_encrypted = sealed;
  password_encrypted = p.password_encrypted;
  volume_name = volume_of p.id;
  created_at = p.now;
  updated_at = p.now;
}

-- runPostgres and runRedis
unfoldable pub database_config : Plan → ℕ → DbType → DatabaseConfig
database_config p port DbType.postgres = record {
  name = database_container p.tenant_id p.id;
  image = codes "postgres:16-alpine";
  host_port = port;
  container_port = 5432;
  env =
      (codes "POSTGRES_DB", codes "ah")
      ∷ (codes "POSTGRES_USER", codes "ah")
      ∷ (codes "POSTGRES_PASSWORD", p.password)
      ∷ [];
  cmd = [];
  volume_name = volume_of p.id;
  mount_path = codes "/var/lib/postgresql/data";
}
database_config p port DbType.redis = record {
  name = database_container p.tenant_id p.id;
  image = codes "redis:7-alpine";
  host_port = port;
  container_port = 6379;
  env = [];
  cmd = codes "redis-server" ∷ codes "--requirepass" ∷ p.password ∷ [];
  volume_name = volume_of p.id;
  mount_path = codes "/data";
}

abbrev pub wait_seconds : ℕ
wait_seconds = 30

module _ (env : Env) where
  -- Behind a dial: the connection is closed, or the next round comes a second later.
  abbrev pub dialled : Bool → Exec Bool → Exec Bool
  dialled true round = pure true
  dialled false round = sleep env >> round

  abbrev pub before_deadline : Bool → ℕ → Exec Bool → Exec Bool
  before_deadline false port round = pure false
  before_deadline true port round = do reached ← dial env port; dialled reached round

  -- The loop of waitForPostgres and waitForRedis, which are the same, on fuel.
  unfoldable pub wait_until : ℕ → ℕ → ℕ → Exec Bool
  wait_until zero port deadline = pure false
  wait_until (suc fuel) port deadline = do
    now ← time_now env
    before_deadline (ltb now deadline) port (wait_until fuel port deadline)

  unfoldable pub wait_healthy : ℕ → Exec Bool
  wait_healthy port = do
    start ← time_now env
    wait_until (suc wait_seconds) port (start + wait_seconds)

  -- The transaction of the quota. It writes nothing, and its commit's error is dropped.
  unfoldable pub check_db_quota : Text → Exec (Unit {0})
  check_db_quota tenant = do
    begun ← query env (λ db. tt)
    or_fail begun skip Error.begin_failed
    _ ← sql env (λ db. (tt, db))
    counted ← query env (λ db. count (counts_for tenant) db.databases)
    n ← or_fail counted skip Error.quota_check
    when (leb 3 n) (raise Error.db_quota)
    _ ← query env (λ db. tt)
    skip

  -- The loop over the attempts, as many as there are left.
  unfoldable pub claim_port : ℕ → Plan → Exec Claim
  claim_port zero p = raise Error.ports_exhausted
  claim_port (suc n) p = do
    port ← find_free_port env p.type
    let connection = connection_string p.type p.password port
    answer ← encrypted env connection
    sealed ← or_fail_with answer ignore Error.encrypt_error
    row ← sql env (insert_row (new_row p port sealed))
    inserted ← or_fail row skip Error.insert_failed
    elim inserted [
      | true ↦ pure (record { port = port; connection = connection })
      | false ↦ claim_port n p
    ]

  abbrev pub mark_failed : Text → Exec (Unit {0})
  mark_failed id = do _ ← update_db_status env id DbStatus.db_failed; skip

  -- The row was deleted meanwhile, or its update failed.
  abbrev pub unless_gone : Bool → Text → Text → Exec (Unit {0})
  unless_gone true container volume = skip
  unless_gone false container volume = clean_up env container volume >> raise Error.database_deleted

  unfoldable pub unless_unhealthy : Bool → Text → Text → Text → Exec (Unit {0})
  unless_unhealthy true id container volume = skip
  unless_unhealthy false id container volume = do
    mark_failed id
    clean_up env container volume
    raise Error.health_check_failed

  -- From the update of the container's identifier on.
  unfoldable pub settle : Plan → ℕ → Text → Exec (Unit {0})
  settle p port container = do
    now ← time_now env
    rows ← update_databases env (has_db_id p.id) (set_container container now)
    unless_gone (affected rows) container (volume_of p.id)
    healthy ← wait_healthy port
    unless_unhealthy healthy p.id container (volume_of p.id)
    ready ← update_db_status env p.id DbStatus.ready
    unless_gone ready container (volume_of p.id)

  -- From the creation of the volume on.
  unfoldable pub provision : Plan → ℕ → Exec (Unit {0})
  provision p port = do
    made ← docker env (Call.create_volume (volume_of p.id))
    check_none made (λ _. mark_failed p.id) (λ _. Error.volume_error)
    ran ← docker_text env (Call.run_database (database_config p port p.type))
    container ←
        or_fail_with ran
          (λ _. mark_failed p.id >> docker_ env (Call.remove_volume (volume_of p.id)))
          (λ _. Error.container_error)
    settle p port container

  abbrev max_port_retries : ℕ
  max_port_retries = 5

  -- Create behind the checks of its request: the new row's key and what it may be told.
  unfoldable pub allocate : Text → Text → DbType → Exec Plan
  allocate tenant name type = do
    random ← random_id env
    id ← or_fail random skip Error.no_randomness
    check_db_quota tenant
    secret ← random_id env
    password ← or_fail secret skip Error.no_randomness
    answer ← encrypted env password
    sealed ← or_fail_with answer ignore Error.encrypt_error
    now ← time_now env
    pure (record {
      id = id;
      tenant_id = tenant;
      name = name;
      type = type;
      password = password;
      password_encrypted = sealed;
      now = now;
    })

  unfoldable pub create_database : Text → CreateDatabase → Exec (Text × Claim)
  create_database tenant req = do
    type ← or_fail (type_named req.type) skip Error.type_invalid
    check_name req.name
    full ← disk_check env
    check_none full ignore Error.disk_error
    p ← allocate tenant req.name type
    claim ← claim_port max_port_retries p
    provision p claim.port
    pure (p.id, claim)
