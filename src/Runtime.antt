-- ===== src/Runtime.antt =====
-- How the managers meet the world. A manager's method is an action on a `World`: the database,
-- the Docker calls made so far (newest first), the deploy slots that are held, and the number of
-- the next outside event. What the code does not implement (SQLite's failures, the clock, Docker,
-- randomness, the file system, other goroutines) is an `Env`: it answers the n-th outside event.
-- The Docker calls are those of the `Client` interface of internal/docker/client.go.
pub mod Keeps
pub mod Post
pub mod Yields
use agentic_paasd.Prelude.{
  ℕ, suc, ◌≡◌, Bool, true, false, Option, none, some, List, [], ◌∷◌, Text, if◌then◌else◌,
}
use agentic_paasd.Store.{Db}

pub record Limits : Type 0 where
  pub memory_mb : ℕ
  pub nano_cpus : ℕ

-- RunDatabaseConfig
pub record DatabaseConfig : Type 0 where
  pub name : Text
  pub image : Text
  pub host_port : ℕ
  pub container_port : ℕ
  pub env : List (Text × Text)
  pub cmd : List Text
  pub volume_name : Text
  pub mount_path : Text

pub data Call : Type 0 where
  ensure_network pull_image : Text → Call
  run_container : Text → Text → Text → ℕ → List (Text × Text) → Option Limits → Call
  stop_container start_container remove_container inspect_container get_labels : Text → Call
  stop_and_remove_by_name logs_container : Text → Call
  list_by_label : Text → Text → Call
  create_volume remove_volume remove_volume_safe list_volumes : Text → Call
  run_database : DatabaseConfig → Call
  prune_images : Call

pub record ContainerInfo : Type 0 where
  pub created_at : ℕ
  pub status : Text
  pub exit_code : ℕ
  pub health_status : Text

-- A Go pair (value, error), the error as its message.
pub data Answer {ℓ} (A : Type ℓ) : Type ℓ where
  got : A → Answer A
  failure : Text → Answer A

pub data Error : Type 0 where
  docker_missing tenant_unknown tenant_inactive queue_full context_done : Error
  service_not_found get_service circuit_is_open service_deleted no_container : Error
  begin_failed upsert_failed update_failed delete_failed reset_failed env_query env_not_found
        commit_failed :
      Error
  image_required image_too_long custom_registry invalid_image : Error
  invalid_env_key env_denied env_too_long env_null : Error
  quota_check count_failed limit_reached no_randomness port_range insert_failed : Error
  disk_error network_error pull_error run_error stop_error start_error : Text → Error
  unverified still_running encrypt_error decrypt_error : Text → Error
  query_failed build_not_found build_finished builds_full unsupported_source : Error
  url_required url_too_long url_not_https url_invalid url_credentials url_no_host : Error
  host_not_allowed : Text → Error
  ref_too_long ref_invalid list_failed : Error
  type_invalid name_invalid db_quota no_ports ports_exhausted : Error
  volume_error container_error volume_removal container_removal : Error
  database_deleted health_check_failed database_not_found : Error

pub data Result {ℓ} (A : Type ℓ) : Type ℓ where
  ok : A → Result A
  err : Error → Result A

abbrev pub is_ok {ℓ} : {A : Type ℓ} → Result A → Bool
is_ok (ok a) = true
is_ok (err e) = false

pub record World : Type 0 where
  pub db : Db
  pub calls : List Call
  pub queue : ℕ  -- entries of deployQueue
  pub slots : ℕ  -- entries of deploySem
  pub tick : ℕ

pub record Env : Type 0 where
  pub db_ok : ℕ → Bool  -- the statement succeeds
  pub now : ℕ → ℕ  -- time.Now().Unix()
  pub act : ℕ → Call → Option Text  -- the error of a call that returns nothing else
  pub ask_text : ℕ → Call → Answer Text
  pub ask_list : ℕ → Call → Answer (List Text)
  pub ask_info : ℕ → Call → Answer ContainerInfo
  pub random : ℕ → Option Text  -- generateID
  pub slot : ℕ → Bool  -- the wait ends with a slot, not with the context
  pub disk : ℕ → Option Text  -- the error of diskcheck.CheckAll
  pub has_docker : Bool  -- the manager's Docker client is not nil
  pub encrypt : ℕ → Text → Answer Text  -- crypto.Encrypt under the master key
  pub decrypt : Text → Answer Text
  pub listens : ℕ → ℕ → Bool  -- net.Listen on that port of 127.0.0.1 succeeds
  pub dials : ℕ → ℕ → Bool  -- net.DialTimeout to it succeeds
  pub scan_int : Text → Option ℕ  -- fmt.Sscanf("%d"); a negative number is read as 0
  pub others : ℕ → Db → Db  -- what other goroutines do to the database in a wait

abbrev pub Exec : Type 0 → Type 0
Exec A = World → Result A × World

abbrev pub continue : {A B : Type 0} → Result A → (A → Exec B) → Exec B
continue (ok a) f w = f a w
continue (err e) f w = (err e, w)

infixl 5 ◌>>=◌ ◌>>◌
abbrev pub ◌>>=◌ : {A B : Type 0} → Exec A → (A → Exec B) → Exec B
◌>>=◌ m f w = let (r, w') = m w in continue r f w'

abbrev pub ◌>>◌ : {B : Type 0} → Exec (Unit {0}) → Exec B → Exec B
m >> n = m >>= λ _. n

abbrev pub pure : {A : Type 0} → A → Exec A
pure a w = (ok a, w)

abbrev pub raise : {A : Type 0} → Error → Exec A
raise e w = (err e, w)

abbrev pub when : Bool → Exec (Unit {0}) → Exec (Unit {0})
when true m = m
when false m = pure tt

-- `if err != nil { handler; return e }`, on each kind of answer.
abbrev pub or_fail : {A : Type 0} → Option A → Exec (Unit {0}) → Error → Exec A
or_fail (some a) handler e = pure a
or_fail none handler e = handler >> raise e

abbrev pub or_fail_with :
    {A : Type 0} → Answer A → (Text → Exec (Unit {0})) → (Text → Error) → Exec A
or_fail_with (got a) handler e = pure a
or_fail_with (failure m) handler e = handler m >> raise (e m)

abbrev pub check_none : Option Text → (Text → Exec (Unit {0})) → (Text → Error) → Exec (Unit {0})
check_none none handler e = pure tt
check_none (some m) handler e = handler m >> raise (e m)

abbrev pub skip : Exec (Unit {0})
skip = pure tt

abbrev pub ignore : Text → Exec (Unit {0})
ignore _ = skip

-- Ends an action's own failure: the caller logs it and goes on.
abbrev pub attempt : {A : Type 0} → Exec A → Exec (Result A)
attempt m w = let (r, w') = m w in (ok r, w')

abbrev pub handled : {A : Type 0} → Result A → (Error → Exec (Unit {0})) → Exec A
handled (ok a) handler = pure a
handled (err e) handler = handler e >> raise e

-- `if err := m(); err != nil { handler; return err }`
abbrev pub on_error : {A : Type 0} → Exec A → (Error → Exec (Unit {0})) → Exec A
on_error m handler w = let (r, w') = m w in handled r handler w'

abbrev pub renamed : {A : Type 0} → Error → Result A → Result A
renamed e (ok a) = ok a
renamed e (err _) = err e

-- `if err != nil { return e }`
abbrev pub on_error_as : {A : Type 0} → Error → Exec A → Exec A
on_error_as e m w = let (r, w') = m w in (renamed e r, w')

abbrev pub next : World → World
next w = record w { tick = suc w.tick }

-- for _, x := range xs
unfoldable pub for_each {ℓ} : {A : Type ℓ} → List A → (A → Exec (Unit {0})) → Exec (Unit {0})
for_each [] f = skip
for_each (x ∷ xs) f = f x >> for_each xs f

module _ (env : Env) where
  -- One SQL statement: `none` is its error, and then nothing is changed.
  unfoldable pub sql : {A : Type 0} → (Db → A × Db) → Exec (Option A)
  sql q w =
      let (a, db') = q w.db in
      if env.db_ok w.tick
      then (ok (some a), record w { db = db'; tick = suc w.tick })
      else (ok none, next w)

  -- SELECT
  unfoldable pub query : {A : Type 0} → (Db → A) → Exec (Option A)
  unfolding sql
  query f = sql (λ db. (f db, db))

  -- A statement that a constraint of the schema may refuse, with `none`.
  unfoldable pub sql_checked : {A : Type 0} → (Db → Option (A × Db)) → Exec (Option A)
  sql_checked q w =
      if env.db_ok w.tick
      then elim (q w.db) [
        | none ↦ (ok none, next w)
        | some (a, db') ↦ (ok (some a), record w { db = db'; tick = suc w.tick })
      ]
      else (ok none, next w)

  abbrev pub finish_tx : {A : Type 0} → Db → Error → Result A × World → Result A × World
  finish_tx before e (ok a, w) =
      if env.db_ok w.tick then (ok a, next w) else (err e, record (next w) { db = before })
  finish_tx before e (err e', w) = (err e', record w { db = before })

  -- BeginTx, the body, Commit; every way out but the commit rolls back.
  unfoldable pub in_tx : {A : Type 0} → Error → Error → Exec A → Exec A
  in_tx begin_error commit_error body w =
      if env.db_ok w.tick
      then finish_tx w.db commit_error (body (next w))
      else (err begin_error, next w)

  unfoldable pub time_now : Exec ℕ
  time_now w = (ok (env.now w.tick), next w)

  -- A Docker call takes time: it is noted, and the others may act before it returns.
  abbrev pub after_call : Call → World → World
  after_call c w = record w { db = env.others w.tick w.db; calls = c ∷ w.calls; tick = suc w.tick }

  unfoldable pub docker : Call → Exec (Option Text)
  docker c w = (ok (env.act w.tick c), after_call c w)

  unfoldable pub docker_text : Call → Exec (Answer Text)
  docker_text c w = (ok (env.ask_text w.tick c), after_call c w)

  unfoldable pub docker_list : Call → Exec (Answer (List Text))
  docker_list c w = (ok (env.ask_list w.tick c), after_call c w)

  unfoldable pub docker_info : Call → Exec (Answer ContainerInfo)
  docker_info c w = (ok (env.ask_info w.tick c), after_call c w)

  unfoldable pub random_id : Exec (Option Text)
  random_id w = (ok (env.random w.tick), next w)

  unfoldable pub disk_check : Exec (Option Text)
  disk_check w = (ok (env.disk w.tick), next w)

  unfoldable pub encrypted : Text → Exec (Answer Text)
  encrypted v w = (ok (env.encrypt w.tick v), next w)

  -- `_ = docker.…`: the error is dropped.
  unfoldable pub docker_ : Call → Exec (Unit {0})
  docker_ c w = (ok tt, after_call c w)

  -- net.Listen on one port after the other: each is tried once, so that one answer for each is all
  -- that the code can see.
  unfoldable pub listen_all : Exec (ℕ → Bool)
  listen_all w = (ok (env.listens w.tick), next w)

  -- net.DialTimeout takes time, like a Docker call.
  unfoldable pub dial : ℕ → Exec Bool
  dial port w =
      (ok (env.dials w.tick port), record w { db = env.others w.tick w.db; tick = suc w.tick })

  -- time.Sleep
  unfoldable pub sleep : Exec (Unit {0})
  sleep w = (ok tt, record w { db = env.others w.tick w.db; tick = suc w.tick })
