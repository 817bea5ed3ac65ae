-- ===== src/Services/Handlers.antt =====
-- The handlers of internal/api/services.go, on top of the manager.
use agentic_paasd.Prelude.{
  ℕ, ◌==◌, ◌&&◌, Bool, Option, none, some, List, [], ◌∷◌, Text, codes, is_empty, length, ltb, leb,
  if◌then◌else◌,
}
use agentic_paasd.Store.{Service, Status}
use agentic_paasd.Runtime.{Env, World, Exec, Error, Result, ok, err, skip}
use agentic_paasd.Server.Replies.{
  Body, Reply, sent, refused, Handler, with_manager, with_body, refuse,
}
use agentic_paasd.Services.Validate.{validate_image, validate_env_vars}
use agentic_paasd.Services.EnvVars.{CreateRequest, create, set_env, get_env, delete_env}
use agentic_paasd.Services.Control.{
  stop, start, restart, delete, get, list_services, logs, reset_circuit_breaker,
}
use agentic_paasd.Services.Deploy.{deploy}
use agentic_paasd.Services.Messages.{message, says}

-- One branch of a handler's error path: the words, and the status.
abbrev pub Branch : Type 0
Branch = List Text × ℕ

-- The first branch whose words the text holds, or the last status.
unfoldable pub status_for : List Branch → ℕ → Text → ℕ
status_for [] other m = other
status_for ((words, n) ∷ branches) other m = if says words m then n else status_for branches other m

abbrev pub missing : List Text
missing = codes "not found" ∷ []

abbrev pub containerless : List Text
containerless = codes "no container" ∷ []

-- strconv.Atoi of the query's tail, where it is one; a negative number is read as 0.
unfoldable pub tail_of : Option ℕ → ℕ
tail_of none = 100
tail_of (some n) = if ltb 0 n && leb n 10000 then n else 100

abbrev pub when_valid : {A : Type 0} → Result (Unit {0}) → Handler World A → Handler World A
when_valid (ok u) handler = handler
when_valid (err e) handler = refuse 400

module _ (env : Env) (detail : Error → Text) (has_manager : Bool) where
  abbrev pub reply_of : {A : Type 0} → ℕ → List Branch → ℕ → Result A → Reply A
  reply_of n branches other (ok a) = sent n a
  reply_of n branches other (err e) = refused (status_for branches other (message detail e))

  -- The guard, the manager's method, and the status for its result.
  abbrev pub answered : {A : Type 0} → ℕ → List Branch → ℕ → Exec A → Handler World A
  answered n branches other m =
      with_manager has_manager (λ w. let (r, w') = m w in (reply_of n branches other r, w'))

  abbrev pub creation_errors : List Branch
  creation_errors =
      (codes "service limit reached" ∷ [], 403)
      ∷ (codes "invalid" ∷ codes "not allowed" ∷ [], 400)
      ∷ (codes "tenant" ∷ [], 403)
      ∷ []

  -- svc.Status = "deploying"
  abbrev pub shown_deploying : Reply Service → Reply Service
  shown_deploying (sent n s) = sent n (record s { status = Status.deploying })
  shown_deploying (refused n) = refused n

  abbrev pub create_checked : Text → CreateRequest → Handler World Service
  create_checked tenant req w =
      let (r, w') = create env tenant req w in
      (shown_deploying (reply_of 201 creation_errors 500 r), w')

  abbrev pub check_create : Text → CreateRequest → Handler World Service
  check_create tenant req =
      if is_empty req.name
      then refuse 400
      else if ltb 128 (length req.name)
      then refuse 400
      else when_valid (validate_image req.image)
          (when_valid (validate_env_vars req.env) (create_checked tenant req))

  -- The reply shows the status deploying; the row has it once the goroutine has begun.
  unfoldable pub handle_service_create : Text → Body CreateRequest → Handler World Service
  handle_service_create tenant body =
      with_manager has_manager (with_body body (check_create tenant))

  -- The goroutine that a creation starts. Its error is logged.
  abbrev pub created_goroutine : Text → Reply Service → Exec (Unit {0})
  created_goroutine tenant (sent n s) = deploy env tenant s.id
  created_goroutine tenant (refused n) = skip

  unfoldable pub handle_service_list : Text → Handler World (List Service)
  handle_service_list tenant = answered 200 [] 500 (list_services env tenant)

  unfoldable pub handle_service_get : Text → Text → Handler World Service
  handle_service_get tenant id = answered 200 ((missing, 404) ∷ []) 500 (get env tenant id)

  unfoldable pub handle_service_delete : Text → Text → Handler World (Unit {0})
  handle_service_delete tenant id = answered 204 ((missing, 404) ∷ []) 500 (delete env tenant id)

  unfoldable pub handle_service_start : Text → Text → Handler World (Unit {0})
  handle_service_start tenant id =
      answered 200 ((missing, 404) ∷ (codes "tenant" ∷ [], 403) ∷ (containerless, 409) ∷ []) 400
        (start env tenant id)

  unfoldable pub handle_service_stop : Text → Text → Handler World (Unit {0})
  handle_service_stop tenant id =
      answered 200 ((missing, 404) ∷ (containerless, 409) ∷ []) 400 (stop env tenant id)

  unfoldable pub handle_service_restart : Text → Text → Handler World (Unit {0})
  handle_service_restart tenant id =
      answered 200 ((missing, 404) ∷ (containerless, 409) ∷ []) 400 (restart env tenant id)

  unfoldable pub handle_service_logs : Text → Text → Handler World Text
  handle_service_logs tenant id =
      answered 200 ((missing, 404) ∷ (containerless, 409) ∷ []) 500 (logs env tenant id)

  unfoldable pub handle_service_env_get : Text → Text → Bool → Handler World (List (Text × Text))
  handle_service_env_get tenant id reveal =
      answered 200 ((missing, 404) ∷ []) 500 (get_env env tenant id reveal)

  abbrev pub set_checked : Text → Text → List (Text × Text) → Handler World (Unit {0})
  set_checked tenant id vars w =
      let (r, w') = set_env env tenant id vars w in
      (
        reply_of 200
            ((missing, 404)
              ∷ (codes "invalid" ∷ codes "not allowed" ∷ codes "env var" ∷ [], 400)
              ∷ [])
            500 r,
        w',
      )

  abbrev pub check_set : Text → Text → List (Text × Text) → Handler World (Unit {0})
  check_set tenant id vars =
      if length vars == 0
      then refuse 400
      else if ltb 100 (length vars)
      then refuse 400
      else when_valid (validate_env_vars vars) (set_checked tenant id vars)

  unfoldable pub handle_service_env_set :
      Text → Text → Body (List (Text × Text)) → Handler World (Unit {0})
  handle_service_env_set tenant id body =
      with_manager has_manager (with_body body (check_set tenant id))

  unfoldable pub handle_service_env_delete : Text → Text → Text → Handler World (Unit {0})
  handle_service_env_delete tenant id key =
      answered 204 ((missing, 404) ∷ []) 500 (delete_env env tenant id key)

  unfoldable pub handle_service_reset : Text → Text → Handler World (Unit {0})
  handle_service_reset tenant id =
      answered 200 ((missing, 404) ∷ []) 500 (reset_circuit_breaker env tenant id)
