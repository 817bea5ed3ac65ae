-- ===== src/Databases/Secrets.antt =====
-- The connection string that Create returns is the one that GetConnectionString reads.
use agentic_paasd.Prelude.{
  ℕ, zero, suc, ◌≡◌, refl, ◌∙◌, ap, subst, Bool, true, false, Option, none, some, List, [], ◌∷◌,
  ◌++◌, Text, arith, inl, inr, Bool-cases, find, any, update, same, same_refl, ltb,
}
use agentic_paasd.Store.{Database, DbStatus}
use agentic_paasd.Runtime.{
  Env, World, Exec, Call, sql, time_now, docker, docker_, docker_text, dial, sleep,
}
use agentic_paasd.Runtime.Keeps.{
  IsPreorder, Keeps, Keeps-bind, Keeps-then, Keeps-pure, Keeps-raise, Keeps-or_fail_with,
  Keeps-check_none,
}
use agentic_paasd.Databases.Rows.{
  owns_db, set_db_status, set_container, refused, update_databases, update_db_status, clean_up,
}
use agentic_paasd.Databases.Provision.{
  Plan, dialled, before_deadline, wait_until, wait_healthy, mark_failed, unless_gone,
  unless_unhealthy, settle, provision,
}
use agentic_paasd.Databases.Removal.{LeavesDatabases}

-- The sealed connection string of the first row of that tenant with that identifier.
abbrev pub sealed_in : Option Database → Option Text
sealed_in none = none
sealed_in (some d) = some d.connection_string_encrypted

abbrev pub sealed_of : Text → Text → List Database → Option Text
sealed_of tenant id rows = sealed_in (find (owns_db tenant id) rows)

-- An update that leaves the key, the owner and the sealed string.
record KeepsSecret (f : Database → Database) : Type 0 where
  same_id : (d : Database) → (f d).id ≡ d.id
  same_tenant : (d : Database) → (f d).tenant_id ≡ d.tenant_id
  same_string : (d : Database) → (f d).connection_string_encrypted ≡ d.connection_string_encrypted

sealed_of-update :
    (tenant id : Text) (p : Database → Bool) (f : Database → Database) (rows : List Database)
    → KeepsSecret f
    → sealed_of tenant id (update p f rows) ≡ sealed_of tenant id rows
unfolding find update
sealed_of-update tenant id p f [] k = refl
sealed_of-update tenant id p f (d ∷ rows) k =
    ground
      (arith, k.same_id d, k.same_tenant d, k.same_string d, sealed_of-update tenant id p f rows k)

-- A row that is put behind rows with other identifiers is the first with its own.
pub sealed_of-append :
    (tenant id : Text) (row : Database) (rows : List Database)
    → any (refused row) rows ≡ false
    → row.id ≡ id
    → row.tenant_id ≡ tenant
    → sealed_of tenant id (rows ++ row ∷ []) ≡ some row.connection_string_encrypted
unfolding find
sealed_of-append tenant id row [] h e t = rw (e, t, same_refl id, same_refl tenant) refl
sealed_of-append tenant id row (d ∷ rows) h e t =
    let miss : same d.id row.id ≡ false = ground arith in
    let rest : any (refused row) rows ≡ false = ground arith in
    let other : same d.id id ≡ false = subst (λ i. same d.id i ≡ false) e miss in
    rw other (sealed_of-append tenant id row rows rest e t)

set_db_status-KeepsSecret : (status : DbStatus) (now : ℕ) → KeepsSecret (set_db_status status now)
set_db_status-KeepsSecret status now = record {
  same_id = λ d. refl;
  same_tenant = λ d. refl;
  same_string = λ d. refl;
}

set_container-KeepsSecret : (c : Text) (now : ℕ) → KeepsSecret (set_container c now)
set_container-KeepsSecret c now = record {
  same_id = λ d. refl;
  same_tenant = λ d. refl;
  same_string = λ d. refl;
}

abbrev SameSecret : Text → Text → World → World → Type 0
SameSecret tenant id w w' = sealed_of tenant id w'.db.databases ≡ sealed_of tenant id w.db.databases

module _ (env : Env) (leaves : LeavesDatabases env) (tenant id : Text) where
  secret_order : IsPreorder (SameSecret tenant id)
  secret_order = record { stay = λ w. refl; step = λ u v w p q. q ∙ p }

  secret-time_now : Keeps (SameSecret tenant id) (time_now env)
  unfolding time_now
  secret-time_now = record { at = λ w. refl }

  secret-docker : (c : Call) → Keeps (SameSecret tenant id) (docker env c)
  unfolding docker
  secret-docker c = record { at = λ w. ap (sealed_of tenant id) (leaves w.tick w.db) }

  secret-docker_ : (c : Call) → Keeps (SameSecret tenant id) (docker_ env c)
  unfolding docker_
  secret-docker_ c = record { at = λ w. ap (sealed_of tenant id) (leaves w.tick w.db) }

  secret-docker_text : (c : Call) → Keeps (SameSecret tenant id) (docker_text env c)
  unfolding docker_text
  secret-docker_text c = record { at = λ w. ap (sealed_of tenant id) (leaves w.tick w.db) }

  secret-dial : (port : ℕ) → Keeps (SameSecret tenant id) (dial env port)
  unfolding dial
  secret-dial port = record { at = λ w. ap (sealed_of tenant id) (leaves w.tick w.db) }

  secret-sleep : Keeps (SameSecret tenant id) (sleep env)
  unfolding sleep
  secret-sleep = record { at = λ w. ap (sealed_of tenant id) (leaves w.tick w.db) }

  secret-update :
      (p : Database → Bool) (f : Database → Database)
      → KeepsSecret f
      → Keeps (SameSecret tenant id) (update_databases env p f)
  unfolding update_databases sql
  secret-update p f k = record {
    at = λ w. elim (Bool-cases (env.db_ok w.tick)) [
      | inl e ↦ rw e (sealed_of-update tenant id p f w.db.databases k)
      | inr e ↦ rw e refl
    ];
  }

ruleset secret_rules = (
  Keeps-pure, Keeps-raise, Keeps-bind, Keeps-or_fail_with, Keeps-check_none, secret_order,
  secret-time_now, secret-docker, secret-docker_, secret-docker_text, secret-dial, secret-sleep,
  secret-update, set_db_status-KeepsSecret, set_container-KeepsSecret,
)

module _ (env : Env) (leaves : LeavesDatabases env) (tenant id : Text) where
  secret-update_db_status :
      (i : Text) (status : DbStatus) → Keeps (SameSecret tenant id) (update_db_status env i status)
  unfolding update_db_status
  secret-update_db_status i status = search secret_rules depth 9

  secret-mark_failed : (i : Text) → Keeps (SameSecret tenant id) (mark_failed env i)
  secret-mark_failed i = search (secret_rules, secret-update_db_status) depth 9

  secret-clean_up : (c v : Text) → Keeps (SameSecret tenant id) (clean_up env c v)
  unfolding clean_up
  secret-clean_up c v = search secret_rules depth 9

  secret-wait_until :
      (fuel port deadline : ℕ) → Keeps (SameSecret tenant id) (wait_until env fuel port deadline)
  unfolding wait_until
  secret-wait_until zero port deadline = search secret_rules depth 9
  secret-wait_until (suc fuel) port deadline =
      Keeps-bind (secret_order env leaves tenant id) _ _ (secret-time_now env leaves tenant id)
        (λ now.
          round (ltb now deadline) (wait_until env fuel port deadline)
            (secret-wait_until fuel port deadline))
    where
      answered :
          (b : Bool) (m : Exec Bool)
          → Keeps (SameSecret tenant id) m
          → Keeps (SameSecret tenant id) (dialled env b m)
      answered true m k = search secret_rules depth 9
      answered false m k =
          Keeps-then (secret_order env leaves tenant id) _ _ (secret-sleep env leaves tenant id) k

      round :
          (b : Bool) (m : Exec Bool)
          → Keeps (SameSecret tenant id) m
          → Keeps (SameSecret tenant id) (before_deadline env b port m)
      round false m k = search secret_rules depth 9
      round true m k =
          Keeps-bind (secret_order env leaves tenant id) _ _ (secret-dial env leaves tenant id port)
            (λ r. answered r m k)

  secret-wait_healthy : (port : ℕ) → Keeps (SameSecret tenant id) (wait_healthy env port)
  unfolding wait_healthy
  secret-wait_healthy port = search (secret_rules, secret-wait_until) depth 9

  secret-unless_gone :
      (b : Bool) (c v : Text) → Keeps (SameSecret tenant id) (unless_gone env b c v)
  secret-unless_gone true c v = search secret_rules depth 9
  secret-unless_gone false c v = search (secret_rules, secret-clean_up) depth 9

  secret-unless_unhealthy :
      (b : Bool) (i c v : Text) → Keeps (SameSecret tenant id) (unless_unhealthy env b i c v)
  unfolding unless_unhealthy
  secret-unless_unhealthy true i c v = search secret_rules depth 9
  secret-unless_unhealthy false i c v =
      search (secret_rules, secret-clean_up, secret-mark_failed) depth 12

  secret-settle :
      (p : Plan) (port : ℕ) (c : Text) → Keeps (SameSecret tenant id) (settle env p port c)
  unfolding settle
  secret-settle p port c =
      search
        (
          secret_rules, secret-unless_gone, secret-wait_healthy, secret-unless_unhealthy,
          secret-update_db_status,
        )
        depth 16

  pub secret-provision : (p : Plan) (port : ℕ) → Keeps (SameSecret tenant id) (provision env p port)
  unfolding provision
  secret-provision p port = search (secret_rules, secret-mark_failed, secret-settle) depth 16
