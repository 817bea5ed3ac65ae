-- ===== src/Services/Atomic.antt =====
-- SetEnv and Create are all or nothing.
use agentic_paasd.Prelude.{◌≡◌, refl, false, Option, List, Text}
use agentic_paasd.Store.{Service, Tenant}
use agentic_paasd.Runtime.{Env, World, Error, Result, is_ok, skip, or_fail, random_id}
use agentic_paasd.Runtime.Keeps.{IsPreorder, Keeps, keeps_rules, Keeps-pure, Keeps-or_fail}
use agentic_paasd.Runtime.Post.{
  SameDb, SameDb-IsPreorder, SameDb-query, SameDb-time_now, Failsafe, Failsafe-bind, Failsafe-last,
  Failsafe-in_tx,
}
use agentic_paasd.Services.Rows.{require_active, check_tenant_active, get_owned}
use agentic_paasd.Services.Validate.{validate_env_vars}
use agentic_paasd.Services.EnvVars.{
  CreateRequest, check, check_quota, insert_service, set_env_vars, set_env, create,
}

module _ (env : Env) where
  pub SameDb-get_owned : (t i : Text) → Keeps SameDb (get_owned env t i)
  unfolding get_owned
  SameDb-get_owned t i = search (SameDb-IsPreorder, SameDb-query, keeps_rules) depth 9

  pub SameDb-check : (r : Result (Unit {0})) → Keeps SameDb (check r)
  unfolding check
  SameDb-check r = record { at = λ w. refl }

  SameDb-require_active : (t : Tenant) → Keeps SameDb (require_active t)
  SameDb-require_active t = search (SameDb-IsPreorder, keeps_rules) depth 9

  pub SameDb-check_tenant_active : (t : Text) → Keeps SameDb (check_tenant_active env t)
  unfolding check_tenant_active
  SameDb-check_tenant_active t =
      search (SameDb-IsPreorder, SameDb-query, SameDb-require_active, keeps_rules) depth 9

  pub SameDb-check_quota : (t : Text) → Keeps SameDb (check_quota env t)
  unfolding check_quota
  SameDb-check_quota t = search (SameDb-IsPreorder, SameDb-query, keeps_rules) depth 14

  pub SameDb-random_id : Keeps SameDb (random_id env)
  unfolding random_id
  SameDb-random_id = record { at = λ w. refl }

  -- SetEnv that fails, at whatever variable and for whatever reason, has written none of them.
  pub set_env_atomic :
      (tenant id : Text) (vars : List (Text × Text)) (w : World)
      → is_ok (set_env env tenant id vars w).0 ≡ false
      → (set_env env tenant id vars w).1.db ≡ w.db
  unfolding set_env set_env_vars
  set_env_atomic tenant id vars w h =
      (Failsafe-bind SameDb-IsPreorder _ _ (SameDb-get_owned tenant id) (λ s.
          Failsafe-bind SameDb-IsPreorder _ _ (SameDb-check (validate_env_vars vars))
            (λ _. Failsafe-in_tx env _ _ _))).at
        w h

  pub SameDb-or_fail : {A : Type 0} (r : Option A) (e : Error) → Keeps SameDb (or_fail r skip e)
  SameDb-or_fail r e = Keeps-or_fail SameDb-IsPreorder r skip e (Keeps-pure SameDb-IsPreorder tt)

  Failsafe-insert_service :
      (s : Service) (vars : List (Text × Text)) → Failsafe SameDb (insert_service env s vars)
  unfolding insert_service
  Failsafe-insert_service s vars = Failsafe-in_tx env _ _ _

  -- Create that fails has written neither the service nor any of its variables.
  pub create_atomic :
      (tenant : Text) (req : CreateRequest) (w : World)
      → is_ok (create env tenant req w).0 ≡ false
      → (create env tenant req w).1.db ≡ w.db
  unfolding create
  create_atomic tenant req w h =
      let k : Failsafe SameDb (create env tenant req) =
        Failsafe-bind o _ _ (SameDb-check_tenant_active tenant) λ _.
          Failsafe-bind o _ _ (SameDb-check _) λ _. Failsafe-bind o _ _ (SameDb-check _) λ _.
            Failsafe-bind o _ _ (SameDb-check_quota tenant) λ _.
              Failsafe-bind o _ _ SameDb-random_id λ r.
                Failsafe-bind o _ _ (SameDb-or_fail r Error.no_randomness) λ id.
                  Failsafe-bind o _ _ (SameDb-time_now env) λ now.
                    Failsafe-bind o _ _ (SameDb-check _)
                      λ _. Failsafe-last o _ _ (Failsafe-insert_service _ req.env) in
      k.at w h
    where
      o : IsPreorder SameDb
      o = SameDb-IsPreorder
