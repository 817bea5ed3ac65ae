-- ===== src/Services/Statuses.antt =====
-- What internal/api/services.go answers to a tenant about a service that is not its own.
use agentic_paasd.Prelude.{◌≡◌, refl, ℕ, Bool, true, none, Text, contains, has_prefix, find}
use agentic_paasd.Runtime.{Env, World, Error, sql, query}
use agentic_paasd.Services.Rows.{owns, get_owned}
use agentic_paasd.Server.Replies.{Handler, status_of, with_manager}
use agentic_paasd.Services.Messages.{message, says}
use agentic_paasd.Services.Control.{stop, restart, delete, get, logs, reset_circuit_breaker}
use agentic_paasd.Services.EnvVars.{get_env, delete_env}
use agentic_paasd.Services.Handlers.{
  status_for, handle_service_get, handle_service_delete, handle_service_stop,
  handle_service_restart, handle_service_logs, handle_service_env_get, handle_service_env_delete,
  handle_service_reset,
}

-- A handler's reply has this status, and it has changed no row and called no Docker.
abbrev pub Refuses : {A : Type 0} → ℕ → Handler World A → World → Type 0
Refuses n handler w =
    (status_of (handler w).0 ≡ n) × ((handler w).1.db ≡ w.db) × ((handler w).1.calls ≡ w.calls)

module _ (env : Env) (detail : Error → Text) (tenant id : Text) (w : World)
    (up : env.db_ok w.tick ≡ true) (foreign : find (owns tenant id) w.db.services ≡ none) where
  get-Refuses : Refuses 404 (handle_service_get env detail true tenant id) w
  unfolding handle_service_get with_manager get get_owned query sql status_for message says contains
      has_prefix
  get-Refuses = rw (up, foreign) (refl, refl, refl)

  delete-Refuses : Refuses 404 (handle_service_delete env detail true tenant id) w
  unfolding handle_service_delete with_manager delete get_owned query sql status_for message says
      contains has_prefix
  delete-Refuses = rw (up, foreign) (refl, refl, refl)

  stop-Refuses : Refuses 404 (handle_service_stop env detail true tenant id) w
  unfolding handle_service_stop with_manager stop get_owned query sql status_for message says
      contains has_prefix
  stop-Refuses = rw (up, foreign) (refl, refl, refl)

  restart-Refuses : Refuses 404 (handle_service_restart env detail true tenant id) w
  unfolding handle_service_restart with_manager restart get_owned query sql status_for message says
      contains has_prefix
  restart-Refuses = rw (up, foreign) (refl, refl, refl)

  logs-Refuses : Refuses 404 (handle_service_logs env detail true tenant id) w
  unfolding handle_service_logs with_manager logs get_owned query sql status_for message says
      contains has_prefix
  logs-Refuses = rw (up, foreign) (refl, refl, refl)

  reset-Refuses : Refuses 404 (handle_service_reset env detail true tenant id) w
  unfolding handle_service_reset with_manager reset_circuit_breaker get_owned query sql status_for
      message says contains has_prefix
  reset-Refuses = rw (up, foreign) (refl, refl, refl)

  env_get-Refuses :
      (reveal : Bool) → Refuses 404 (handle_service_env_get env detail true tenant id reveal) w
  unfolding handle_service_env_get with_manager get_env get_owned query sql status_for message says
      contains has_prefix
  env_get-Refuses reveal = rw (up, foreign) (refl, refl, refl)

  env_delete-Refuses :
      (key : Text) → Refuses 404 (handle_service_env_delete env detail true tenant id key) w
  unfolding handle_service_env_delete with_manager delete_env get_owned query sql status_for message
      says contains has_prefix
  env_delete-Refuses key = rw (up, foreign) (refl, refl, refl)

-- Where the manager is present and the query for the service succeeds, the handlers Get, Delete,
-- Stop, Restart, Logs, Reset, EnvGet and EnvDelete answer 404 to a tenant that has no service of
-- that identifier, whoever else has one; they change no row and do not call Docker.
pub foreign_service_is_missing :
    (env : Env) (detail : Error → Text) (tenant id key : Text) (reveal : Bool) (w : World)
    → env.db_ok w.tick ≡ true
    → find (owns tenant id) w.db.services ≡ none
    → Refuses 404 (handle_service_get env detail true tenant id) w
      × Refuses 404 (handle_service_delete env detail true tenant id) w
      × Refuses 404 (handle_service_stop env detail true tenant id) w
      × Refuses 404 (handle_service_restart env detail true tenant id) w
      × Refuses 404 (handle_service_logs env detail true tenant id) w
      × Refuses 404 (handle_service_reset env detail true tenant id) w
      × Refuses 404 (handle_service_env_get env detail true tenant id reveal) w
      × Refuses 404 (handle_service_env_delete env detail true tenant id key) w
foreign_service_is_missing env detail tenant id key reveal w up foreign = (
  get-Refuses env detail tenant id w up foreign,
  delete-Refuses env detail tenant id w up foreign,
  stop-Refuses env detail tenant id w up foreign,
  restart-Refuses env detail tenant id w up foreign,
  logs-Refuses env detail tenant id w up foreign,
  reset-Refuses env detail tenant id w up foreign,
  env_get-Refuses env detail tenant id w up foreign reveal,
  env_delete-Refuses env detail tenant id w up foreign key,
)
