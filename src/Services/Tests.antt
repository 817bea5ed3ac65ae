-- ===== src/Services/Tests.antt =====
-- Runs of the services' operations on a small database.
use agentic_paasd.Prelude.{
  arith, ◌+◌, ◌≤◌, ◌≡◌, refl, Bool, true, false, none, some, [], ◌∷◌, codes, find, count, keep,
  update, drop_all, same, ltb,
}
use agentic_paasd.Store.{Service, Status, Reason, Tenant, TenantStatus, Quota}
use agentic_paasd.Runtime.{
  Env, World, got, ContainerInfo, docker_info, for_each, sql, query, sql_checked, in_tx, time_now,
  random_id, encrypted, docker_, docker, docker_text,
}
use agentic_paasd.Services.Rows.{of_tenant, update_services, check_tenant_active, get_owned}
use agentic_paasd.Services.Launch.{launch}
use agentic_paasd.Services.Deploy.{deploy, deploy_held}
use agentic_paasd.Services.Control.{reset_circuit_breaker}
use agentic_paasd.Services.EnvVars.{
  CreateRequest, create, insert_created, set_env, set_env_vars, check_quota, insert_service, check,
  insert_vars,
}
use agentic_paasd.Services.Validate.{validate_image, validate_env_vars}
use agentic_paasd.Services.Slots.{deploy_releases}
use agentic_paasd.Services.Isolation.{foreign, deploy_held_apart}
use agentic_paasd.Services.Launched.{Launched, launch_tracks}
use agentic_paasd.Services.Atomic.{create_atomic}
use agentic_paasd.Services.Quota.{insertion_within_quota}

abbrev sample_info : ContainerInfo
sample_info = record {
  created_at = 900;
  status = codes "running";
  exit_code = 0;
  health_status = [];
}

-- Everything answers.
abbrev pub sample_env : Env
sample_env = record {
  db_ok = λ _. true;
  now = λ n. 1000 + n;
  act = λ _ _. none;
  ask_text = λ _ _. got (codes "c1");
  ask_list = λ _ _. got [];
  ask_info = λ _ _. got sample_info;
  random = λ _. some (codes "s9");
  slot = λ _. true;
  disk = λ _. none;
  has_docker = true;
  encrypt = λ _ v. got v;
  decrypt = λ v. got v;
  listens = λ _ _. true;
  dials = λ _ _. true;
  scan_int = λ _. none;
  others = λ _ db. db;
}

abbrev sample_tenant : Tenant
sample_tenant = record {
  id = codes "t1";
  name = codes "one";
  email = codes "a@b.io";
  status = TenantStatus.active;
  created_at = 1;
  updated_at = 1;
}

abbrev sample_quota : Quota
sample_quota = record {
  tenant_id = codes "t1";
  max_services = 2;
  max_memory_mb = 512;
  max_nano_cpus = 1000000000;
}

abbrev sample_service : Bool → Service
sample_service circuit = record {
  id = codes "s1";
  tenant_id = codes "t1";
  name = codes "web";
  status = Status.created;
  image = codes "nginx";
  container_id = [];
  port = 8080;
  last_error = Reason.no_error;
  crash_count = 0;
  circuit_open = circuit;
  last_crashed_at = none;
  crash_window_start = none;
  circuit_retry_at = none;
  circuit_open_count = 0;
  created_at = 1;
  updated_at = 1;
}

abbrev pub sample_world : Bool → World
sample_world circuit = record {
  db = record {
    tenants = sample_tenant ∷ [];
    quotas = sample_quota ∷ [];
    services = sample_service circuit ∷ [];
    envs = [];
    keys = [];
    databases = [];
    builds = [];
  };
  calls = [];
  queue = 0;
  slots = 0;
  tick = 0;
}

abbrev new_request : CreateRequest
new_request = record {
  name = codes "api";
  image = codes "nginx";
  port = 80;
  env = (codes "MODE", codes "on") ∷ [];
}

deploy_releases_example :
    ((deploy sample_env (codes "t1") (codes "s1") (sample_world false)).1.queue ≡ 0)
    × ((deploy sample_env (codes "t1") (codes "s1") (sample_world false)).1.slots ≡ 0)
deploy_releases_example = deploy_releases sample_env (codes "t1") (codes "s1") (sample_world false)

launch_tracks_example : Launched sample_env (codes "t1") (codes "s1") (codes "nginx") [] (
    launch sample_env
      (codes "t1")
      (codes "s1")
      (sample_service false)
      (codes "nginx")
      (sample_world false))
launch_tracks_example =
    launch_tracks sample_env (codes "t1") (codes "s1") (sample_service false) (codes "nginx")
      (sample_world false)

deploy_held_apart_example :
    foreign
      (codes "t2")
      (deploy_held sample_env (codes "t2") (codes "s1") (sample_world false)).1.db.services
    ≡ foreign (codes "t2") (sample_world false).db.services
deploy_held_apart_example =
    deploy_held_apart sample_env (codes "t2") (λ n db. refl) (codes "s1") (sample_world false)

abbrev failing_env : Env
failing_env = record sample_env { db_ok = λ n. ltb n 7 }

-- The statements of an operation, opened to run it.
program : Unit {0}
unfolding sql query sql_checked in_tx time_now random_id encrypted docker_ docker docker_text
    docker_info update_services check_tenant_active create set_env set_env_vars check_quota
    insert_service find same count for_each check validate_image validate_env_vars insert_vars keep
    update drop_all reset_circuit_breaker get_owned
program = tt

create_atomic_example :
    (create failing_env (codes "t1") new_request (sample_world false)).1.db
    ≡ (sample_world false).db
unfolding program
create_atomic_example = create_atomic failing_env (codes "t1") new_request (sample_world false) refl

-- The circuit of the tenant's service opens between the check and the insertion.
insertion_within_quota_example :
    count
      (of_tenant (codes "t1"))
      (insert_created sample_env (codes "t1") new_request (sample_world true)).1.db.services
    ≤ 2
unfolding program
insertion_within_quota_example =
    insertion_within_quota sample_env (codes "t1") new_request sample_quota (sample_world false)
      (sample_world true) refl refl (omega arith) refl
