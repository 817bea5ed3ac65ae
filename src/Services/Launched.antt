-- ===== src/Services/Launched.antt =====
-- The end of Deploy and DeployImage, from the environment variables on: which container was
-- started, and what became of it.
use agentic_paasd.Prelude.{
  ℕ, ◌≡◌, refl, subst, ◌∙◌, ap, ◌⊎◌, inl, inr, false, Option, List, [], ◌∷◌, Text, arith,
}
use agentic_paasd.Store.{Service, Status, Reason, EnvRow}
use agentic_paasd.Runtime.{
  Env, World, Exec, Call, Error, Limits, Result, ok, err, is_ok, Answer, got, failure, continue,
  ◌>>=◌, sql, query, docker_text, time_now, skip, ignore, or_fail_with, on_error,
}
use agentic_paasd.Runtime.Keeps.{
  IsPreorder, Keeps, Keeps-pure, Keeps-bind, Keeps-or_fail, Keeps-or_fail_with, Keeps-on_error,
}
use agentic_paasd.Services.Rows.{
  get_env_vars, decrypt_all, get_resource_limits, update_services, update_status_with_error_scoped,
}
use agentic_paasd.Services.Launch.{launch, launch_with, start_with, effective_port, record_launch}
use agentic_paasd.Services.Outcome.{Tracked, record_launch_tracks}

abbrev SameCalls : World → World → Type 0
SameCalls w w' = w'.calls ≡ w.calls

SameCalls-IsPreorder : IsPreorder SameCalls
SameCalls-IsPreorder = record { stay = λ w. refl; step = λ u v w p q. q ∙ p }

module _ (env : Env) where
  SameCalls-update_status :
      (tenant id : Text) (status : Status) (reason : Reason)
      → Keeps SameCalls (update_status_with_error_scoped env tenant id status reason)
  unfolding update_status_with_error_scoped update_services sql time_now
  SameCalls-update_status tenant id status reason = record { at = λ w. ground arith }

  SameCalls-decrypt_all : (rows : List EnvRow) → Keeps SameCalls (decrypt_all env rows)
  unfolding decrypt_all
  SameCalls-decrypt_all [] = Keeps-pure SameCalls-IsPreorder []
  SameCalls-decrypt_all (row ∷ rows) =
      Keeps-bind o _ _
        (Keeps-or_fail_with o (env.decrypt row.value_encrypted) ignore _ (λ m. Keeps-pure o tt))
        λ plain. Keeps-bind o _ _ (SameCalls-decrypt_all rows) λ rest. Keeps-pure o _
    where
      o : IsPreorder SameCalls
      o = SameCalls-IsPreorder

  SameCalls-query : {A : Type 0} (f : _ → A) → Keeps SameCalls (query env f)
  unfolding query sql
  SameCalls-query f = record { at = λ w. ground arith }

  SameCalls-get_env_vars : (id : Text) → Keeps SameCalls (get_env_vars env id)
  unfolding get_env_vars
  SameCalls-get_env_vars id =
      let o = SameCalls-IsPreorder in
      Keeps-bind o _ _ (SameCalls-query _) λ rows.
        Keeps-bind o _ _ (Keeps-or_fail o rows skip _ (Keeps-pure o tt)) SameCalls-decrypt_all

  SameCalls-limits : (tenant : Text) → Keeps SameCalls (get_resource_limits env tenant)
  unfolding get_resource_limits
  SameCalls-limits tenant =
      let o = SameCalls-IsPreorder in Keeps-bind o _ _ (SameCalls-query _) λ rows. Keeps-pure o _

-- A call that runs a container of the service from the image.
abbrev pub IsRun : Text → Text → Text → Call → Type 0
IsRun tenant id image call =
    (port : ℕ) × (vars : List (Text × Text)) × (limits : Option Limits) × (call
      ≡ Call.run_container tenant id image port vars limits)

-- What became of the container that a call, the last one of `calls`, was answered with.
abbrev pub Tended : Text → Text → Text → List Call → Result (Unit {0}) × World → Type 0
Tended tenant id container calls (r, w) =
    (r ≡ ok tt) × (w.calls ≡ calls) × Tracked tenant id container w
    ⊎ (is_ok r ≡ false)
      × (w.calls ≡ Call.remove_container container ∷ Call.stop_container container ∷ calls)

-- What one call to run a container led to.
abbrev pub Ran : Env → Text → Text → Call → List Call → Result (Unit {0}) × World → Type 0
Ran env tenant id call calls (r, w) =
    (t : ℕ) × (((m : Text) × (env.ask_text t call ≡ failure m)
        × (is_ok r ≡ false)
        × (w.calls ≡ call ∷ calls))
      ⊎ (container : Text) × (env.ask_text t call ≡ got container)
        × Tended tenant id container (call ∷ calls) (r, w))

-- Either Docker was not asked at all, or once, to run a container.
abbrev pub Launched : Env → Text → Text → Text → List Call → Result (Unit {0}) × World → Type 0
Launched env tenant id image calls (r, w) =
    (is_ok r ≡ false) × (w.calls ≡ calls)
    ⊎ (call : Call) × IsRun tenant id image call × Ran env tenant id call calls (r, w)

tended :
    (env : Env) (tenant id container : Text) (calls : List Call) (v : World)
    → v.calls ≡ calls
    → Tended tenant id container calls (record_launch env tenant id container v)
tended env tenant id container calls v k = elim (record_launch_tracks env tenant id container v) [
  | inl (o, c, tracked) ↦ inl (o, c ∙ k, tracked)
  | inr (o, c) ↦
      inr (o, c ∙ ap (λ x. Call.remove_container container ∷ Call.stop_container container ∷ x) k)
]

-- What Deploy writes where the variables cannot be read.
abbrev unset_env : Env → Text → Text → Error → Exec (Unit {0})
unset_env env tenant id e =
    update_status_with_error_scoped env tenant id Status.failed (Reason.env_failed [])

module _ (env : Env) (tenant id : Text) where
  ran :
      (t : ℕ) (call : Call) (calls : List Call) (a : Answer Text) (v : World)
      → env.ask_text t call ≡ a
      → v.calls ≡ call ∷ calls
      → Ran env tenant id call calls (
          (or_fail_with a
                (λ m.
                  update_status_with_error_scoped env tenant id Status.failed
                    (Reason.start_failed m))
                Error.run_error
              >>= λ container. record_launch env tenant id container)
            v)
  unfolding update_status_with_error_scoped update_services sql time_now
  ran t call calls (got c) v e k = (t, inr (c, e, tended env tenant id c (call ∷ calls) v k))
  ran t call calls (failure m) v e k = (t, inl (m, e, ground arith, ground (arith, k)))

  started :
      (image : Text) (port : ℕ) (vars : List (Text × Text)) (limits : Option Limits) (v : World)
      → Launched env tenant id image v.calls (start_with env tenant id image port vars limits v)
  unfolding docker_text
  started image port vars limits v =
      let call = Call.run_container tenant id image port vars limits in
      inr (call, (port, vars, limits, refl), ran v.tick call v.calls _ _ refl refl)

  limited :
      (image : Text) (port : ℕ) (vars : List (Text × Text)) (r : Result (Option Limits)) (v : World)
      → Launched env tenant id image v.calls
          (continue r (start_with env tenant id image port vars) v)
  limited image port vars (ok limits) v = started image port vars limits v
  limited image port vars (err e) v = inl (refl, refl)

  launched :
      (s : Service) (image : Text) (r : Result (List (Text × Text))) (v : World)
      → Launched env tenant id image v.calls (continue r (launch_with env tenant id s image) v)
  launched s image (err e) v = inl (refl, refl)
  launched s image (ok vars) v =
      subst (λ calls. Launched env tenant id image calls (launch_with env tenant id s image vars v))
        ((SameCalls-limits env tenant).at v)
        (limited image (effective_port env.scan_int s.port vars) vars
          (get_resource_limits env tenant v).0 (get_resource_limits env tenant v).1)

-- A deploy that comes to run its container asks Docker for it at most once. If it never does, or
-- Docker answers with an error, the deploy fails and makes no other call. If Docker answers with a
-- container, the deploy either succeeds, with the service's row naming that container as running
-- and without an error and with no further call, or it fails, and its last two calls ask Docker to
-- stop and to remove that container; their own errors are dropped.
pub launch_tracks :
    (env : Env) (tenant id : Text) (s : Service) (image : Text) (w : World)
    → Launched env tenant id image w.calls (launch env tenant id s image w)
unfolding launch
launch_tracks env tenant id s image w =
    subst (λ calls. Launched env tenant id image calls (launch env tenant id s image w))
      ((Keeps-on_error SameCalls-IsPreorder (get_env_vars env id) (unset_env env tenant id)
          (SameCalls-get_env_vars env id) (λ e. SameCalls-update_status env tenant id _ _)).at
        w)
      (launched env tenant id s image (on_error (get_env_vars env id) (unset_env env tenant id) w).0
        (on_error (get_env_vars env id) (unset_env env tenant id) w).1)
