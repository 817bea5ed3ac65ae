-- ===== src/Docker/Started.antt =====
-- What RunContainer and RunDatabase of internal/docker/client.go leave behind.
use agentic_paasd.Prelude.{
  ◌≡◌, refl, ℕ, ◌⊎◌, inl, inr, Bool-cases, true, false, Option, none, some, List, ◌∷◌, ◌++◌, Text,
  codes, is_empty, length, if◌then◌else◌, ◌==◌,
}
use agentic_paasd.Runtime.{Answer, got, failure, Limits}
use agentic_paasd.Services.Deploy.{tenant_network_name}
use agentic_paasd.Docker.{Engine, Sdk, Config, HostConfig, Do, ◌>>=◌, call, or_fail}
use agentic_paasd.Docker.Launch.{
  container_config, container_host, container_name, traefik_among, connect_found, connect_traefik,
  on_started, start_or_remove, create_container, run_container,
}

-- Of a container that Docker has made: it is the one that is returned and started, last of all; or
-- an error is returned, and its removal by force is asked for last of all.
abbrev pub Settled : Answer Text → Answer Text → Sdk → List Sdk → List Sdk → Type 0
Settled (failure m) r made log log' = ((why : Text) × (r ≡ failure why)) × (log' ≡ made ∷ log)
Settled (got id) r made log log' =
    ((r ≡ got id) × ((rest : List Sdk) × (log' ≡ Sdk.container_start id ∷ rest)))
    ⊎ (((why : Text) × (r ≡ failure why))
        × ((rest : List Sdk) × (log'
              ≡ Sdk.container_remove id true ∷ Sdk.container_start id ∷ rest)))

module _ (e : Engine) where
  start_or_remove-settles :
      (prefix id : Text) (made : Sdk) (log log0 : List Sdk)
      → Settled
          (got id)
          (start_or_remove e prefix id log).0
          made
          log0
          (start_or_remove e prefix id log).1
  unfolding start_or_remove call
  start_or_remove-settles prefix id made log log0 = go (e.act (length log) (Sdk.container_start id))
    where
      go :
          (o : Option Text)
          → Settled
              (got id)
              (on_started e prefix id o (Sdk.container_start id ∷ log)).0
              made
              log0
              (on_started e prefix id o (Sdk.container_start id ∷ log)).1
      go none = inl (refl, (log, refl))
      go (some m) = inr ((prefix ++ m, refl), (log, refl))

  -- The errors on the way to Traefik are only logged.
  connect_found-got :
      (o : Option Text) (net : Text) (log : List Sdk) → (connect_found e o net log).0 ≡ got tt
  unfolding call
  connect_found-got none net log = refl
  connect_found-got (some id) net log = elim (Bool-cases (is_empty id)) [
    | inl h ↦ rw h refl
    | inr h ↦ rw h refl
  ]

  connect_traefik-got : (net : Text) (log : List Sdk) → (connect_traefik e net log).0 ≡ got tt
  unfolding connect_traefik call
  connect_traefik-got net log =
      connect_found-got (traefik_among e (e.containers (length log))) net
        (Sdk.container_list false ∷ log)

  create_container-settles :
      (prefix : Text) (config : Config) (host : HostConfig) (name : Text) (rest : Text → Do Text)
      (log : List Sdk)
      → ((id : Text) (log' : List Sdk)
          → Settled
              (got id)
              (rest id log').0
              (Sdk.container_create config host name)
              log
              (rest id log').1)
      → let made = Sdk.container_create config host name in
        let (r, log') = (create_container e prefix config host name >>= rest) log in
        Settled (e.text (length log) made) r made log log'
  unfolding create_container call
  create_container-settles prefix config host name rest log k =
      go (e.text (length log) (Sdk.container_create config host name))
    where
      go :
          (a : Answer Text)
          → let (r, log') =
              (or_fail prefix a >>= rest) (Sdk.container_create config host name ∷ log) in
            Settled a r (Sdk.container_create config host name) log log'
      go (got id) = k id (Sdk.container_create config host name ∷ log)
      go (failure m) = ((prefix ++ m, refl), refl)

  -- However Docker answers: if it refuses to create the container, an error is returned and
  -- nothing else was asked for; if it makes one, then either that container is returned, its start
  -- the last call, or an error is returned and the last call removes that container by force.
  pub run_container_settles :
      (tenant service img : Text) (port : ℕ) (env extra : List (Text × Text))
      (limits : Option Limits) (log : List Sdk)
      → let made =
          Sdk.container_create
            (container_config tenant service img (if port == 0 then 8000 else port) env extra)
            (container_host tenant limits)
            (container_name tenant service) in
        let (r, log') = run_container e tenant service img port env extra limits log in
        Settled (e.text (length log) made) r made log log'
  unfolding run_container
  run_container_settles tenant service img port env extra limits log =
      create_container-settles (codes "create container: ")
        (container_config tenant service img (if port == 0 then 8000 else port) env extra)
        (container_host tenant limits) (container_name tenant service)
        (λ id. connect_traefik e (tenant_network_name tenant) >>= λ _.
          start_or_remove e (codes "start container: ") id)
        log
        (λ id log'. rw (connect_traefik-got (tenant_network_name tenant) log') (
          start_or_remove-settles (codes "start container: ") id
            (Sdk.container_create
              (container_config tenant service img (if port == 0 then 8000 else port) env extra)
              (container_host tenant limits) (container_name tenant service))
            (connect_traefik e (tenant_network_name tenant) log').1 log))
