-- ===== src/Docker/Launch.antt =====
-- EnsureNetwork, RunContainer and RunDatabase of internal/docker/client.go.
use agentic_paasd.Prelude.{
  ℕ, ◌*◌, ◌%◌, ◌^◌, Bool, true, false, ◌||◌, Option, none, some, List, [], ◌∷◌, ◌++◌, Text, codes,
  is_empty, same, contains, find, any, map, drop_all, ltb, ◌==◌, if◌then◌else◌,
}
use agentic_paasd.Runtime.{Answer, got, failure, Limits, DatabaseConfig}
use agentic_paasd.Services.Deploy.{tenant_network_name}
use agentic_paasd.Databases.Rows.{decimal}
use agentic_paasd.Docker.{
  Engine, Sdk, Network, Listed, NetworkOptions, HostConfig, Config, Do, ◌>>=◌, pure, fail, call,
  or_fail,
}

abbrev pub has_name : Text → Network → Bool
has_name name n = same n.name name

-- Internal, and without communication between its containers.
abbrev pub tenant_network : NetworkOptions
tenant_network = record {
  driver = codes "bridge";
  internal = true;
  options = (codes "com.docker.network.bridge.enable_icc", codes "false") ∷ [];
}

-- "ah-%s-%s"
unfoldable pub container_name : Text → Text → Text
container_name tenant service = codes "ah-" ++ (tenant ++ (codes "-" ++ service))

-- k+"="+v
abbrev pub assignment : Text × Text → Text
assignment (k, v) = k ++ (codes "=" ++ v)

-- labels[k] = v
unfoldable pub put_label : Text → Text → List (Text × Text) → List (Text × Text)
put_label k v labels = (k, v) ∷ drop_all (λ (l : Text × Text). same k l.0) labels

unfoldable pub put_labels : List (Text × Text) → List (Text × Text) → List (Text × Text)
put_labels [] labels = labels
put_labels ((k, v) ∷ extra) labels = put_labels extra (put_label k v labels)

unfoldable pub base_labels : Text → Text → ℕ → List (Text × Text)
base_labels tenant service port =
    (codes "traefik.enable", codes "true")
    ∷ (
      codes "traefik.http.routers." ++ (service ++ codes ".rule"),
      codes "Host(`" ++ (service ++ codes ".localhost`)"),
    )
    ∷ (codes "traefik.http.routers." ++ (service ++ codes ".entrypoints"), codes "web")
    ∷ (
      codes "traefik.http.services." ++ (service ++ codes ".loadbalancer.server.port"),
      decimal port,
    )
    ∷ (codes "ah.tenant", tenant)
    ∷ (codes "ah.service", service)
    ∷ []

-- 512 MB, unless the quota says otherwise; int64 arithmetic.
abbrev pub memory_of : Option Limits → ℕ
memory_of none = 512 * 1024 * 1024
memory_of (some l) =
    if ltb 0 l.memory_mb then (l.memory_mb * 1024 * 1024) % 2 ^ 64 else 512 * 1024 * 1024

abbrev pub cpus_of : Option Limits → ℕ
cpus_of none = 1000000000
cpus_of (some l) = if ltb 0 l.nano_cpus then l.nano_cpus else 1000000000

unfoldable pub container_host : Text → Option Limits → HostConfig
container_host tenant limits = record {
  runtime = codes "runsc";
  memory = memory_of limits;
  nano_cpus = cpus_of limits;
  pids_limit = some 256;
  memory_swap = memory_of limits;
  restart_policy = codes "unless-stopped";
  network_mode = tenant_network_name tenant;
  cap_drop = codes "ALL" ∷ [];
  security_opt = codes "no-new-privileges" ∷ [];
  readonly_rootfs = true;
  tmpfs =
      (codes "/tmp", codes "rw,noexec,nosuid,size=64m")
      ∷ (codes "/var/run", codes "rw,noexec,nosuid,size=16m")
      ∷ (codes "/var/tmp", codes "rw,noexec,nosuid,size=16m")
      ∷ (codes "/run", codes "rw,noexec,nosuid,size=16m")
      ∷ [];
  port_bindings = [];
  mounts = [];
}

unfoldable pub container_config :
    Text → Text → Text → ℕ → List (Text × Text) → List (Text × Text) → Config
container_config tenant service img port env extra = record {
  image = img;
  env = map assignment env;
  labels = put_labels extra (base_labels tenant service port);
  healthcheck = some (record {
    test =
        codes "CMD-SHELL"
        ∷ (codes "wget -qO- http://localhost:"
            ++ (decimal port ++ codes "/ > /dev/null 2>&1 || exit 1"))
        ∷ [];
    interval = 30;
    timeout = 5;
    retries = 3;
    start_period = 60;
  });
  exposed_ports = [];
  cmd = [];
}

abbrev pub tcp_port : ℕ → Text
tcp_port n = decimal n ++ codes "/tcp"

unfoldable pub database_host : DatabaseConfig → HostConfig
database_host cfg = record {
  runtime = codes "runsc";
  memory = 0;
  nano_cpus = 0;
  pids_limit = none;
  memory_swap = 0;
  restart_policy = codes "unless-stopped";
  network_mode = [];
  cap_drop = [];
  security_opt = [];
  readonly_rootfs = false;
  tmpfs = [];
  port_bindings =
      record {
        container_port = tcp_port cfg.container_port;
        host_ip = codes "127.0.0.1";
        host_port = decimal cfg.host_port;
      }
      ∷ [];
  mounts = (cfg.volume_name, cfg.mount_path) ∷ [];
}

unfoldable pub database_container_config : DatabaseConfig → Config
database_container_config cfg = record {
  image = cfg.image;
  env = map assignment cfg.env;
  labels = (codes "ah.managed", codes "true") ∷ (codes "ah.type", codes "database") ∷ [];
  healthcheck = none;
  exposed_ports = tcp_port cfg.container_port ∷ [];
  cmd = cfg.cmd;
}

abbrev pub is_traefik : Listed → Bool
is_traefik c = contains c.image (codes "traefik") || any (λ n. contains n (codes "traefik")) c.names

module _ (e : Engine) where
  abbrev pub found_network : Option Network → Text → Do Text
  found_network none m = fail m
  found_network (some n) m = pure n.id

  -- Behind NetworkCreate: another goroutine may have made it meanwhile.
  unfoldable pub on_created : Text → Answer Text → Do Text
  on_created name (got id) = pure id
  on_created name (failure m) =
      let why = codes "create network " ++ (name ++ (codes ": " ++ m)) in
      if contains m (codes "already exists")
      then (do
        listed ← call Sdk.network_list e.networks
        again ← or_fail (codes "list networks after race: ") listed
        found_network (find (has_name name) again) why)
      else fail why

  abbrev pub create_unless : Option Network → Text → Do Text
  create_unless (some n) name = pure n.id
  create_unless none name = do
    made ←
        call (Sdk.network_create name tenant_network)
          (λ i. e.text i (Sdk.network_create name tenant_network))
    on_created name made

  unfoldable pub ensure_network : Text → Do Text
  ensure_network name = do
    listed ← call Sdk.network_list e.networks
    networks ← or_fail (codes "list networks: ") listed
    create_unless (find (has_name name) networks) name

  abbrev pub traefik_among : Answer (List Listed) → Option Text
  traefik_among (failure m) = none
  traefik_among (got cs) = elim (find is_traefik cs) [ none ↦ none | some c ↦ some c.id ]

  abbrev pub find_traefik_container : Do (Option Text)
  find_traefik_container = do
    listed ← call (Sdk.container_list false) e.containers
    pure (traefik_among listed)

  -- Its errors are logged.
  abbrev pub connect_found : Option Text → Text → Do (Unit {0})
  connect_found none net = pure tt
  connect_found (some id) net =
      if is_empty id then pure tt else (do _ ← call (Sdk.network_connect net id) (λ i. tt); pure tt)

  unfoldable pub connect_traefik : Text → Do (Unit {0})
  connect_traefik net = do found ← find_traefik_container; connect_found found net

  -- A container that does not start is removed.
  abbrev pub on_started : Text → Text → Option Text → Do Text
  on_started prefix id none = pure id
  on_started prefix id (some m) = do
    _ ← call (Sdk.container_remove id true) (λ i. tt)
    fail (prefix ++ m)

  unfoldable pub start_or_remove : Text → Text → Do Text
  start_or_remove prefix id = do
    failed ← call (Sdk.container_start id) (λ i. e.act i (Sdk.container_start id))
    on_started prefix id failed

  unfoldable pub create_container : Text → Config → HostConfig → Text → Do Text
  create_container prefix config host name = do
    made ←
        call (Sdk.container_create config host name)
          (λ i. e.text i (Sdk.container_create config host name))
    or_fail prefix made

  -- A port of 0 or less is 8000.
  unfoldable pub run_container :
      Text → Text → Text → ℕ → List (Text × Text) → List (Text × Text) → Option Limits → Do Text
  run_container tenant service img port env extra limits = do
    let port' = if port == 0 then 8000 else port
    id ←
        create_container (codes "create container: ")
          (container_config tenant service img port' env extra) (container_host tenant limits)
          (container_name tenant service)
    _ ← connect_traefik (tenant_network_name tenant)
    start_or_remove (codes "start container: ") id

  unfoldable pub run_database : DatabaseConfig → Do Text
  run_database cfg = do
    id ←
        create_container (codes "create database container: ") (database_container_config cfg)
          (database_host cfg) cfg.name
    start_or_remove (codes "start database container: ") id
