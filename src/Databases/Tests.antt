-- ===== src/Databases/Tests.antt =====
-- Runs of the databases' operations on a small state.
use agentic_paasd.Prelude.{
  ◌==◌, ◌+◌, ◌≡◌, refl, true, false, Option, none, some, [], ◌∷◌, Text, codes, find, keep, suc,
  arith, update, same, count,
}
use agentic_paasd.Store.{Database, DbStatus, DbType}
use agentic_paasd.Runtime.{
  Env, World, Call, ok, is_ok, got, sql, query, time_now, docker, docker_, docker_text, dial, sleep,
  encrypted, random_id, disk_check, listen_all, ContainerInfo,
}
use agentic_paasd.Databases.Rows.{
  holds_port, insert_row, connection_string, update_databases, update_db_status, volume_of,
}
use agentic_paasd.Databases.Ports.{
  first_free, is_free, port_count, min_port, port_found, find_free_port,
}
use agentic_paasd.Databases.Provision.{
  CreateDatabase, Plan, Claim, provision, settle, unless_unhealthy, wait_until, wait_healthy,
  wait_seconds, create_database, new_row, claim_port, allocate, check_db_quota, database_config,
}
use agentic_paasd.Databases.Control.{get_database, delete_database, get_connection_string}
use agentic_paasd.Databases.Least.{IsLeast, find_free_port-IsLeast}
use agentic_paasd.Databases.Wait.{wait_has_enough_fuel}
use agentic_paasd.Databases.Cleanup.{Left, provision_cleans_up}
use agentic_paasd.Databases.Removal.{RowsAfterDelete, database_without_container_stays}
use agentic_paasd.Server.Replies.{status_of}
use agentic_paasd.Databases.Handlers.{handle_database_delete}
use agentic_paasd.Databases.Answers.{delete_answer_is_true}
use agentic_paasd.Databases.RoundTrip.{created_string_reads_back}

abbrev quiet_env : Env
quiet_env = record {
  db_ok = λ _. true;
  now = λ n. 1000 + n;
  act = λ n c. none;
  ask_text = λ _ _. got (codes "c1");
  ask_list = λ _ _. got [];
  ask_info = λ _ _. agentic_paasd.Runtime.failure [];
  random = λ _. some (codes "d9");
  slot = λ _. true;
  disk = λ _. none;
  has_docker = true;
  encrypt = λ _ v. got v;
  decrypt = λ v. got v;
  listens = λ _ _. true;
  dials = λ _ _. true;
  scan_int = λ _. none;
  others = λ _ db. db;
}

-- A new database that never answers.
abbrev deaf_env : Env
deaf_env = record quiet_env { dials = λ _ _. false }

abbrev sample_row : Option Text → Database
sample_row container = record {
  id = codes "d1";
  tenant_id = codes "t1";
  name = codes "main";
  type = DbType.postgres;
  status = DbStatus.provisioning;
  container_id = container;
  host = codes "127.0.0.1";
  port = 5432;
  db_name = codes "ah";
  username = codes "ah";
  connection_string_encrypted = codes "x";
  password_encrypted = codes "y";
  volume_name = codes "ah-db-d1";
  created_at = 1;
  updated_at = 1;
}

abbrev sample_world : Option Text → World
sample_world container = record {
  db = record {
    tenants = [];
    quotas = [];
    services = [];
    envs = [];
    keys = [];
    databases = sample_row container ∷ [];
    builds = [];
  };
  calls = [];
  queue = 0;
  slots = 0;
  tick = 0;
}

abbrev sample_plan : Plan
sample_plan = record {
  id = codes "d1";
  tenant_id = codes "t1";
  name = codes "main";
  type = DbType.postgres;
  password = codes "pw";
  password_encrypted = codes "pw";
  now = 1000;
}

find_free_port-IsLeast_example :
    IsLeast
      (is_free (keep holds_port (sample_world none).db.databases) (quiet_env.listens 1))
      (port_count DbType.postgres)
      (min_port DbType.postgres)
      (port_found (find_free_port quiet_env DbType.postgres (sample_world none)).0)
find_free_port-IsLeast_example =
    find_free_port-IsLeast quiet_env DbType.postgres (sample_world none) refl

wait_has_enough_fuel_example :
    wait_until quiet_env 61 5432 (1000 + wait_seconds) (sample_world none)
    ≡ wait_until quiet_env (suc wait_seconds) 5432 (1000 + wait_seconds) (sample_world none)
wait_has_enough_fuel_example =
    wait_has_enough_fuel quiet_env 5432 60 1000 (sample_world none) (ground arith)
      (λ k. ground arith) (ground arith)

provision_cleans_up_example :
    Left sample_plan 5432
      (deaf_env.act 0 (Call.create_volume (volume_of sample_plan.id)))
      (deaf_env.ask_text 1 (Call.run_database (database_config sample_plan 5432 sample_plan.type)))
      (is_ok (provision deaf_env sample_plan 5432 (sample_world none)).0)
      (sample_world none).calls
      (provision deaf_env sample_plan 5432 (sample_world none)).1.calls
provision_cleans_up_example = provision_cleans_up deaf_env sample_plan 5432 (sample_world none)

delete_answer_is_true_example :
    RowsAfterDelete
      (codes "t1")
      (codes "d1")
      (status_of
          (handle_database_delete quiet_env true
            (codes "t1")
            (codes "d1")
            (sample_world (some (codes "c1")))).0
        == 204)
      (sample_world (some (codes "c1"))).db.databases
      (handle_database_delete quiet_env true
        (codes "t1")
        (codes "d1")
        (sample_world (some (codes "c1")))).1.db.databases
delete_answer_is_true_example =
    delete_answer_is_true quiet_env true (codes "t1") (codes "d1")
      (sample_world (some (codes "c1"))) (λ n db. refl)

database_without_container_stays_example :
    (is_ok (get_database quiet_env (codes "t1") (codes "d1") (sample_world none)).0 ≡ false)
    × (is_ok (delete_database quiet_env (codes "t1") (codes "d1") (sample_world none)).0 ≡ false)
    × ((delete_database quiet_env (codes "t1") (codes "d1") (sample_world none)).1.calls ≡ [])
    × ((delete_database quiet_env (codes "t1") (codes "d1") (sample_world none)).1.db
        ≡ (sample_world none).db)
unfolding find same
database_without_container_stays_example =
    database_without_container_stays quiet_env (codes "t1") (codes "d1") (sample_row none)
      (sample_world none) refl refl

abbrev new_database : CreateDatabase
new_database = record { name = codes "cache"; type = codes "redis" }

abbrev new_claim : Claim
new_claim = record { port = 6379; connection = connection_string DbType.redis (codes "d9") 6379 }

created_string_reads_back_example :
    (get_connection_string quiet_env
      (codes "t1")
      (codes "d9")
      (create_database quiet_env (codes "t1") new_database (sample_world none)).1).0
    ≡ ok (connection_string DbType.redis (codes "d9") 6379)
unfolding create_database allocate check_db_quota claim_port find_free_port listen_all random_id
    disk_check encrypted query sql time_now docker docker_text dial provision settle wait_healthy
    wait_until update_databases update_db_status insert_row new_row count update keep same
    first_free connection_string find unless_unhealthy
created_string_reads_back_example =
    created_string_reads_back quiet_env (codes "t1") new_database (sample_world none) (codes "d9")
      new_claim (λ n v c e. ground arith) (λ n db. refl) refl refl
