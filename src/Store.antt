-- ===== src/Store.antt =====
-- The state database: the tables of internal/db/migrations as lists of rows, and the row types
-- that internal/services, internal/builds and internal/databases read. Times are Unix seconds.
-- A nullable text column of a service is the empty text, which the code treats alike; a nullable
-- number, and the container of a database, which is scanned as it is, is an `Option`.
use agentic_paasd.Prelude.{ℕ, Bool, Option, List, Text}

-- services.status: the words that the code writes, and any word that Docker reports.
pub data Status : Type 0 where
  created deploying running stopped failed crashed : Status
  reported : Text → Status

-- The values of services.last_error, with the texts that they embed.
pub data Reason : Type 0 where
  no_error docker_missing tenant_unknown tenant_suspended queue_full circuit_is_open : Reason
  not_found_by_reconciler unhealthy deploy_timed_out cleanup_failed : Reason
  disk_full network_failed pull_failed env_failed start_failed : Text → Reason
  exited : Text → ℕ → Reason

pub record Service : Type 0 where
  pub id : Text
  pub tenant_id : Text
  pub name : Text
  pub status : Status
  pub image : Text
  pub container_id : Text
  pub port : ℕ
  pub last_error : Reason
  pub crash_count : ℕ
  pub circuit_open : Bool
  pub last_crashed_at : Option ℕ
  pub crash_window_start : Option ℕ
  pub circuit_retry_at : Option ℕ
  pub circuit_open_count : ℕ
  pub created_at : ℕ
  pub updated_at : ℕ

pub data TenantStatus : Type 0 where
  active suspended : TenantStatus

pub record Tenant : Type 0 where
  pub id : Text
  pub name : Text
  pub email : Text
  pub status : TenantStatus
  pub created_at : ℕ
  pub updated_at : ℕ

-- max_cpu_cores is kept in billionths of a core, the unit that Docker is given.
pub record Quota : Type 0 where
  pub tenant_id : Text
  pub max_services : ℕ
  pub max_memory_mb : ℕ
  pub max_nano_cpus : ℕ

pub record EnvRow : Type 0 where
  pub service_id : Text
  pub key : Text
  pub value_encrypted : Text

pub record ApiKey : Type 0 where
  pub id : Text
  pub tenant_id : Text
  pub name : Text
  pub key_prefix : Text
  pub key_hash : Text
  pub created_at : ℕ
  pub last_used_at : Option ℕ
  pub expires_at : Option ℕ
  pub revoked_at : Option ℕ

pub data DbStatus : Type 0 where
  provisioning ready db_failed unavailable : DbStatus

pub data DbType : Type 0 where
  postgres redis : DbType

pub record Database : Type 0 where
  pub id : Text
  pub tenant_id : Text
  pub name : Text
  pub type : DbType
  pub status : DbStatus
  pub container_id : Option Text
  pub host : Text
  pub port : ℕ
  pub db_name : Text
  pub username : Text
  pub connection_string_encrypted : Text
  pub password_encrypted : Text
  pub volume_name : Text
  pub created_at : ℕ
  pub updated_at : ℕ

pub data BuildStatus : Type 0 where
  pending build_running succeeded build_failed : BuildStatus

pub record Build : Type 0 where
  pub id : Text
  pub service_id : Text
  pub tenant_id : Text
  pub status : BuildStatus
  pub source_type : Text
  pub source_url : Text
  pub source_ref : Text
  pub image : Text
  pub log : Text
  pub started_at : Option ℕ
  pub finished_at : Option ℕ
  pub created_at : ℕ

pub record Db : Type 0 where
  pub tenants : List Tenant
  pub quotas : List Quota
  pub services : List Service
  pub envs : List EnvRow
  pub keys : List ApiKey
  pub databases : List Database
  pub builds : List Build

abbrev pub set_databases : List Database → Db → Db
set_databases rows db = record db { databases = rows }

abbrev pub is_active : TenantStatus → Bool
is_active active = Bool.true
is_active suspended = Bool.false

abbrev pub is_running : Status → Bool
is_running running = Bool.true
is_running _ = Bool.false

abbrev pub is_deploying : Status → Bool
is_deploying deploying = Bool.true
is_deploying _ = Bool.false

-- The text of a nullable column, where NULL was excluded.
abbrev pub text_of : Option Text → Text
text_of (Option.some t) = t
text_of Option.none = List.[]

abbrev pub is_ready : DbStatus → Bool
is_ready ready = Bool.true
is_ready _ = Bool.false

abbrev pub is_db_failed : DbStatus → Bool
is_db_failed db_failed = Bool.true
is_db_failed _ = Bool.false

abbrev pub is_provisioning : DbStatus → Bool
is_provisioning provisioning = Bool.true
is_provisioning _ = Bool.false
