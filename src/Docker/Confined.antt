-- ===== src/Docker/Confined.antt =====
-- What internal/docker/client.go asks Docker to create.
use agentic_paasd.Prelude.{
  ◌≡◌, refl, ℕ, ◌⊎◌, inl, inr, true, Option, none, some, List, [], ◌∷◌, Text, codes, All,
}
use agentic_paasd.Runtime.{Answer, got, failure, Limits, DatabaseConfig}
use agentic_paasd.Services.Deploy.{tenant_network_name}
use agentic_paasd.Docker.{Engine, Sdk, Network, HostConfig, Config, PortBinding}
use agentic_paasd.Docker.Launch.{
  tenant_network, container_host, database_host, found_network, on_created, create_unless,
  ensure_network, connect_found, connect_traefik, on_started, start_or_remove, create_container,
  run_container, run_database,
}
use agentic_paasd.Docker.Client.{
  stop_container, start_container, remove_container, connect_network, logs_container,
  inspect_container, pull_image, list_containers_by_label, get_container_labels, get_container_name,
  verify_gvisor_runtime, create_volume, remove_volume, remove_volume_safe, stop_and_remove_by_name,
  prune_dangling_images, list_volumes, Op, perform, perform_all,
}
use agentic_paasd.Docker.Logged.{Logged, logged_rules}

-- A tenant's container: without ports on the host, volumes, capabilities and swap, and on the
-- network of a tenant only.
pub record IsSealed (h : HostConfig) : Type 0 where
  pub ports : h.port_bindings ≡ []
  pub mounts : h.mounts ≡ []
  pub capabilities : h.cap_drop ≡ codes "ALL" ∷ []
  pub privileges : h.security_opt ≡ codes "no-new-privileges" ∷ []
  pub root : h.readonly_rootfs ≡ true
  pub pids : h.pids_limit ≡ some 256
  pub swap : h.memory_swap ≡ h.memory
  pub network : (tenant : Text) × (h.network_mode ≡ tenant_network_name tenant)

abbrev IsLocal : HostConfig → Type 0
IsLocal h = All (λ (b : PortBinding). b.host_ip ≡ codes "127.0.0.1") h.port_bindings

abbrev pub Confined : Sdk → Type 0
Confined (Sdk.container_create c h n) = (h.runtime ≡ codes "runsc") × (IsSealed h ⊎ IsLocal h)
Confined (Sdk.network_create n o) =
    (o.internal ≡ true)
    × (o.options ≡ (codes "com.docker.network.bridge.enable_icc", codes "false") ∷ [])
Confined _ = Unit {0}

Confined-tenant_network : (n : Text) → Confined (Sdk.network_create n tenant_network)
Confined-tenant_network n = (refl, refl)

Sealed-container_host :
    (tenant : Text) (limits : Option Limits) → IsSealed (container_host tenant limits)
unfolding container_host
Sealed-container_host tenant limits = record {
  ports = refl;
  mounts = refl;
  capabilities = refl;
  privileges = refl;
  root = refl;
  pids = refl;
  swap = refl;
  network = (tenant, refl);
}

Confined-container_host :
    (tenant : Text) (limits : Option Limits) (c : Config) (n : Text)
    → Confined (Sdk.container_create c (container_host tenant limits) n)
unfolding container_host
Confined-container_host tenant limits c n = (refl, inl (Sealed-container_host tenant limits))

Confined-database_host :
    (cfg : DatabaseConfig) (c : Config) (n : Text)
    → Confined (Sdk.container_create c (database_host cfg) n)
unfolding database_host
Confined-database_host cfg c n = (refl, inr (refl, tt))

module _ (e : Engine) where
  Confined-found : (o : Option Network) (m : Text) → Logged Confined (found_network e o m)
  Confined-found none m = search logged_rules depth 9
  Confined-found (some n) m = search logged_rules depth 9

  Confined-on_created : (n : Text) (r : Answer Text) → Logged Confined (on_created e n r)
  unfolding on_created
  Confined-on_created n (got id) = search logged_rules depth 9
  Confined-on_created n (failure m) = search (logged_rules, Confined-found, tt) depth 9

  Confined-create_unless : (o : Option Network) (n : Text) → Logged Confined (create_unless e o n)
  Confined-create_unless none n =
      search (logged_rules, Confined-on_created, Confined-tenant_network) depth 9
  Confined-create_unless (some found) n = search logged_rules depth 9

  Confined-ensure_network : (n : Text) → Logged Confined (ensure_network e n)
  unfolding ensure_network
  Confined-ensure_network n = search (logged_rules, Confined-create_unless, tt) depth 9

  Confined-connect_found : (o : Option Text) (net : Text) → Logged Confined (connect_found e o net)
  Confined-connect_found none net = search logged_rules depth 9
  Confined-connect_found (some id) net = search (logged_rules, tt) depth 9

  Confined-connect_traefik : (net : Text) → Logged Confined (connect_traefik e net)
  unfolding connect_traefik
  Confined-connect_traefik net = search (logged_rules, Confined-connect_found, tt) depth 9

  Confined-on_started : (p id : Text) (r : Option Text) → Logged Confined (on_started e p id r)
  Confined-on_started p id none = search logged_rules depth 9
  Confined-on_started p id (some m) = search (logged_rules, tt) depth 9

  Confined-start_or_remove : (p id : Text) → Logged Confined (start_or_remove e p id)
  unfolding start_or_remove
  Confined-start_or_remove p id = search (logged_rules, Confined-on_started, tt) depth 9

  Confined-run_container :
      (t s img : Text) (p : ℕ) (env extra : List (Text × Text)) (limits : Option Limits)
      → Logged Confined (run_container e t s img p env extra limits)
  unfolding run_container create_container
  Confined-run_container t s img p env extra limits =
      search
        (logged_rules, Confined-connect_traefik, Confined-start_or_remove, Confined-container_host)
        depth 12

  Confined-run_database : (cfg : DatabaseConfig) → Logged Confined (run_database e cfg)
  unfolding run_database create_container
  Confined-run_database cfg =
      search (logged_rules, Confined-start_or_remove, Confined-database_host) depth 12

  ruleset op_rules =
      (logged_rules, tt, Confined-ensure_network, Confined-run_container, Confined-run_database)

  Confined-perform : (o : Op) → Logged Confined (perform e o)
  unfolding perform stop_container start_container remove_container connect_network logs_container
      inspect_container pull_image list_containers_by_label get_container_labels get_container_name
      verify_gvisor_runtime create_volume remove_volume remove_volume_safe stop_and_remove_by_name
      prune_dangling_images list_volumes
  Confined-perform (Op.op_ensure_network n) = search op_rules depth 12
  Confined-perform (Op.op_stop id) = search op_rules depth 12
  Confined-perform (Op.op_start id) = search op_rules depth 12
  Confined-perform (Op.op_remove id) = search op_rules depth 12
  Confined-perform (Op.op_inspect id) = search op_rules depth 12
  Confined-perform (Op.op_pull img) = search op_rules depth 12
  Confined-perform (Op.op_labels id) = search op_rules depth 12
  Confined-perform (Op.op_name id) = search op_rules depth 12
  Confined-perform (Op.op_connect_network n id) = search op_rules depth 12
  Confined-perform (Op.op_list_by_label l v) = search op_rules depth 12
  Confined-perform (Op.op_run t s img p env extra lim) = search op_rules depth 12
  Confined-perform (Op.op_logs id f n) = search op_rules depth 12
  Confined-perform Op.op_verify = search op_rules depth 12
  Confined-perform Op.op_prune = search op_rules depth 12
  Confined-perform (Op.op_create_volume n) = search op_rules depth 12
  Confined-perform (Op.op_remove_volume n) = search op_rules depth 12
  Confined-perform (Op.op_remove_volume_safe n) = search op_rules depth 12
  Confined-perform (Op.op_stop_by_name n) = search op_rules depth 12
  Confined-perform (Op.op_volumes p) = search op_rules depth 12
  Confined-perform (Op.op_database cfg) = search op_rules depth 12

-- Whatever the client is asked to do and whatever Docker answers, each container that it creates
-- runs under gVisor, and is either sealed, on the network of one tenant only, or publishes its
-- ports on 127.0.0.1 only; and each network that it creates is internal, its containers unable to
-- reach one another.
pub perform_all-Confined :
    (e : Engine) (ops : List Op) (log : List Sdk)
    → All Confined log
    → All Confined (perform_all e ops log)
unfolding perform_all
perform_all-Confined e [] log h = h
perform_all-Confined e (o ∷ os) log h =
    perform_all-Confined e os (perform e o log).1 ((Confined-perform e o).at log h)
