-- ===== src/Gc/Tests.antt =====
-- A pass of the garbage collector over one container and one volume that no row names.
use agentic_paasd.Prelude.{◌≡◌, refl, true, none, some, [], ◌∷◌, codes, ◌+◌}
use agentic_paasd.Runtime.{Env, World, got, ContainerInfo}
use agentic_paasd.Gc.Audit.{Grew}
use agentic_paasd.Gc.Collect.{collect_once}
use agentic_paasd.Gc.Spared.{MayCall, collector_spares_what_is_named}

abbrev old_container : ContainerInfo
old_container = record {
  created_at = 100;
  status = codes "running";
  exit_code = 0;
  health_status = [];
}

abbrev littered_env : Env
littered_env = record {
  db_ok = λ _. true;
  now = λ n. 1000 + n;
  act = λ _ _. none;
  ask_text = λ _ _. got [];
  ask_list = λ _ _. got (codes "ah-db-9" ∷ []);
  ask_info = λ _ _. got old_container;
  random = λ _. some (codes "x");
  slot = λ _. true;
  disk = λ _. none;
  has_docker = true;
  encrypt = λ _ v. got v;
  decrypt = λ v. got v;
  listens = λ _ _. true;
  dials = λ _ _. true;
  scan_int = λ _. none;
  others = λ _ db. db;
}

abbrev bare_world : World
bare_world = record {
  db = record {
    tenants = [];
    quotas = [];
    services = [];
    envs = [];
    keys = [];
    databases = [];
    builds = [];
  };
  calls = [];
  queue = 0;
  slots = 0;
  tick = 0;
}

collector_spares_what_is_named_example :
    ((collect_once littered_env bare_world).1.db ≡ bare_world.db)
    × Grew (MayCall littered_env bare_world.db) [] (collect_once littered_env bare_world).1.calls
collector_spares_what_is_named_example =
    collector_spares_what_is_named littered_env bare_world (λ n db. refl)
