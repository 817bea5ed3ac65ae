-- ===== src/Docker.antt =====
-- internal/docker/client.go, over the Docker SDK. A method is an action on the log of the calls
-- made so far, newest first; an `Engine` answers the n-th of them. Errors are their messages.
pub mod Launch
pub mod Client
pub mod Logged
pub mod Confined
pub mod Started
pub mod Tests
use agentic_paasd.Prelude.{
  ℕ, suc, Bool, true, false, Option, none, some, List, [], ◌∷◌, ◌++◌, Text, length,
}
use agentic_paasd.Runtime.{Answer, got, failure}

pub record PortBinding : Type 0 where
  pub container_port : Text
  pub host_ip : Text
  pub host_port : Text

-- container.HostConfig; what is left out there has its zero value.
pub record HostConfig : Type 0 where
  pub runtime : Text
  pub memory : ℕ  -- the bits of an int64
  pub nano_cpus : ℕ
  pub pids_limit : Option ℕ
  pub memory_swap : ℕ
  pub restart_policy : Text
  pub network_mode : Text
  pub cap_drop : List Text
  pub security_opt : List Text
  pub readonly_rootfs : Bool
  pub tmpfs : List (Text × Text)
  pub port_bindings : List PortBinding
  pub mounts : List (Text × Text)  -- a volume and its target

-- container.HealthConfig, in seconds
pub record HealthConfig : Type 0 where
  pub test : List Text
  pub interval : ℕ
  pub timeout : ℕ
  pub retries : ℕ
  pub start_period : ℕ

-- container.Config
pub record Config : Type 0 where
  pub image : Text
  pub env : List Text
  pub labels : List (Text × Text)
  pub healthcheck : Option HealthConfig
  pub exposed_ports : List Text
  pub cmd : List Text

-- network.CreateOptions
pub record NetworkOptions : Type 0 where
  pub driver : Text
  pub internal : Bool
  pub options : List (Text × Text)

-- The calls of the SDK.
pub data Sdk : Type 0 where
  network_list : Sdk
  network_create : Text → NetworkOptions → Sdk
  network_connect : Text → Text → Sdk
  container_create : Config → HostConfig → Text → Sdk
  container_start container_inspect : Text → Sdk
  container_stop : Text → ℕ → Sdk
  container_remove : Text → Bool → Sdk
  container_list : Bool → Sdk
  container_logs : Text → Bool → Text → Sdk
  image_pull : Text → Sdk
  info : Sdk
  volume_create : Text → Sdk
  volume_remove : Text → Bool → Sdk
  volume_list : Text → Sdk
  images_prune : Sdk

pub record Network : Type 0 where
  pub name : Text
  pub id : Text

-- container.Summary
pub record Listed : Type 0 where
  pub id : Text
  pub image : Text
  pub names : List Text
  pub labels : List (Text × Text)

-- container.InspectResponse; `created` is what time.Parse makes of its text.
pub record Inspected : Type 0 where
  pub id : Text
  pub name : Text
  pub labels : List (Text × Text)
  pub created : ℕ
  pub status : Text
  pub exit_code : ℕ
  pub health : Option Text

pub record Engine : Type 0 where
  pub act : ℕ → Sdk → Option Text  -- the error of a call that returns nothing else
  pub text : ℕ → Sdk → Answer Text  -- an identifier, or a reader
  pub networks : ℕ → Answer (List Network)
  pub containers : ℕ → Answer (List Listed)
  pub inspects : ℕ → Text → Answer Inspected
  pub names : ℕ → Sdk → Answer (List Text)  -- of the runtimes, volumes and images

abbrev pub Do : Type 0 → Type 0
Do A = List Sdk → Answer A × List Sdk

abbrev pub continue : {A B : Type 0} → Answer A → (A → Do B) → Do B
continue (got a) f log = f a log
continue (failure m) f log = (failure m, log)

infixl 5 ◌>>=◌
abbrev pub ◌>>=◌ : {A B : Type 0} → Do A → (A → Do B) → Do B
◌>>=◌ m f log = let (r, log') = m log in continue r f log'

abbrev pub pure : {A : Type 0} → A → Do A
pure a log = (got a, log)

abbrev pub fail : {A : Type 0} → Text → Do A
fail m log = (failure m, log)

-- The call is made, and its answer is the value: the code looks at the error itself.
unfoldable pub call : {A : Type 0} → Sdk → (ℕ → A) → Do A
call c answer log = (got (answer (length log)), c ∷ log)

-- `if err != nil { return fmt.Errorf("…: %w", err) }`
abbrev pub or_fail : {A : Type 0} → Text → Answer A → Do A
or_fail prefix (got a) = pure a
or_fail prefix (failure m) = fail (prefix ++ m)

abbrev pub check_none : Text → Option Text → Do (Unit {0})
check_none prefix none = pure tt
check_none prefix (some m) = fail (prefix ++ m)
