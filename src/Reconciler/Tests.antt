-- ===== src/Reconciler/Tests.antt =====
-- Runs of the reconciler on a small database.
use agentic_paasd.Prelude.{
  ℕ, ◌+◌, refl, true, none, some, [], ◌∷◌, codes, contains, leb, if◌then◌else◌,
}
use agentic_paasd.Store.{Service, Status, Reason}
use agentic_paasd.Runtime.{Env, World, got, failure}
use agentic_paasd.Services.Control.{is_not_found}
use agentic_paasd.Reconciler.Outage.{Outage}

abbrev sample_service : ℕ → Service
sample_service n = record {
  id = codes "s1";
  tenant_id = codes "t1";
  name = codes "web";
  status = Status.running;
  image = codes "nginx";
  container_id = codes "c1";
  port = 8080;
  last_error = Reason.no_error;
  crash_count = n;
  circuit_open = leb 5 n;
  last_crashed_at = none;
  crash_window_start = if leb 1 n then some 1000 else none;
  circuit_retry_at = none;
  circuit_open_count = 0;
  created_at = 1;
  updated_at = 1;
}

-- Docker is out of reach.
abbrev dark_env : Env
dark_env = record {
  db_ok = λ _. true;
  now = λ n. 1000 + n;
  act = λ _ _. some (codes "timeout");
  ask_text = λ _ _. failure (codes "timeout");
  ask_list = λ _ _. failure (codes "timeout");
  ask_info = λ _ _. failure (codes "timeout");
  random = λ _. none;
  slot = λ _. true;
  disk = λ _. none;
  has_docker = true;
  encrypt = λ _ v. got v;
  decrypt = λ v. got v;
  listens = λ _ _. true;
  dials = λ _ _. true;
  scan_int = λ _. none;
  others = λ _ db. db;
}

-- The fifth crash, 102 seconds behind the first.
abbrev bright_env : Env
bright_env = record dark_env { act = λ _ _. none; now = λ n. 1102 + n }

abbrev crashed_world : World
crashed_world = record {
  db = record {
    tenants = [];
    quotas = [];
    services = sample_service 4 ∷ [];
    envs = [];
    keys = [];
    databases = [];
    builds = [];
  };
  calls = [];
  queue = 0;
  slots = 0;
  tick = 0;
}

dark_env-Outage : Outage dark_env
unfolding is_not_found contains
dark_env-Outage = record { fails = λ n c. (codes "timeout", refl, refl); quiet = λ n db. refl }
