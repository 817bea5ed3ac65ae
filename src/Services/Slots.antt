-- ===== src/Services/Slots.antt =====
-- The places in deployQueue and deploySem: `defer` gives them back on every way out.
use agentic_paasd.Prelude.{suc, ◌≡◌, refl, ◌∙◌, Bool, Text, arith, inl, inr, Bool-cases, ltb}
use agentic_paasd.Store.{Db, Service, Status, Reason}
use agentic_paasd.Runtime.{
  Env, World, Exec, Error, raise, sql, query, time_now, docker, docker_, docker_text, disk_check,
}
use agentic_paasd.Runtime.Keeps.{
  IsPreorder, Keeps, Keeps-if, keeps_rules, Keeps-bind, Keeps-on_error, Keeps-pure, Keeps-raise,
  Keeps-then,
}
use agentic_paasd.Services.Rows.{owns, reason_of, update_services, update_status_with_error}
use agentic_paasd.Services.Deploy.{in_queue, with_slot, deploy, deploy_image}
use agentic_paasd.Services.Frame.{
  Frame, Keeps-fail_with, Keeps-check_tenant_active, Keeps-deploy_held, Keeps-deploy_image_held,
}

-- The same places are taken.
abbrev pub Held : World → World → Type 0
Held w w' = (w'.queue ≡ w.queue) × (w'.slots ≡ w.slots)

Held-IsPreorder : IsPreorder Held
Held-IsPreorder = record { stay = λ w. (refl, refl); step = λ u v w p q. (q.0 ∙ p.0, q.1 ∙ p.1) }

module _ (env : Env) where
  Held-sql : {A : Type 0} (q : Db → A × Db) → Keeps Held (sql env q)
  unfolding sql
  Held-sql q = record { at = λ w. ground arith }

  Held-query : {A : Type 0} (f : Db → A) → Keeps Held (query env f)
  unfolding query
  Held-query f = Held-sql (λ db. (f db, db))

  Held-update_services :
      (p : Service → Bool) (f : Service → Service) → Keeps Held (update_services env p f)
  unfolding update_services
  Held-update_services p f = Held-sql _

  Held-time_now : Keeps Held (time_now env)
  unfolding time_now
  Held-time_now = record { at = λ w. (refl, refl) }

  Held-Frame : (tenant id : Text) → Frame env tenant id Held
  unfolding docker docker_ docker_text disk_check
  Held-Frame tenant id = record {
    order = Held-IsPreorder;
    reads = Held-query;
    writes = λ f k. Held-update_services (owns tenant id) f;
    clock = Held-time_now;
    disk = record { at = λ w. (refl, refl) };
    call = λ c. record { at = λ w. (refl, refl) };
    call_ = λ c. record { at = λ w. (refl, refl) };
    call_text = λ c. record { at = λ w. (refl, refl) };
  }

  Held-with_slot : {A : Type 0} (body : Exec A) → Keeps Held body → Keeps Held (with_slot env body)
  unfolding with_slot
  Held-with_slot body k = record {
    at = λ w. elim (Bool-cases (env.slot w.tick)) [
      | inl e ↦ rw e (
          omega (
            arith,
            k.at (record w { db = env.others w.tick w.db; tick = suc w.tick; slots = suc w.slots }),
          ))
      | inr e ↦ rw e (refl, refl)
    ];
  }

  Held-in_queue :
      {A : Type 0} (full : Exec (Unit {0})) (body : Exec A)
      → Keeps Held full
      → Keeps Held body
      → Keeps Held (in_queue full body)
  unfolding in_queue
  Held-in_queue full body kf kb = record {
    at = λ w. elim (Bool-cases (ltb w.queue 20)) [
      | inl e ↦ rw e (omega (arith, kb.at (record w { queue = suc w.queue })))
      | inr e ↦ rw e (
          (Keeps-then Held-IsPreorder full (raise Error.queue_full) kf
              (Keeps-raise Held-IsPreorder Error.queue_full)).at
            w)
    ];
  }

  Held-update_status_with_error :
      (id : Text) (status : Status) (reason : Reason)
      → Keeps Held (update_status_with_error env id status reason)
  unfolding update_status_with_error
  Held-update_status_with_error id status reason =
      search (Held-IsPreorder, Held-time_now, Held-update_services, keeps_rules) depth 9

-- Deploy takes and gives back one place in the deploy queue and one deploy slot on every way out:
-- when it ends, with success or with any error, as many are taken as when it began.
pub deploy_releases :
    (env : Env) (tenant id : Text) (w : World)
    → ((deploy env tenant id w).1.queue ≡ w.queue) × ((deploy env tenant id w).1.slots ≡ w.slots)
unfolding deploy
deploy_releases env tenant id w =
    (Keeps-if o env.has_docker _ _
        (Keeps-bind o _ _
          (Keeps-on_error o _ _ (Keeps-check_tenant_active F)
            (λ r. Held-update_status_with_error env id Status.failed (reason_of r)))
          (λ _.
            Held-in_queue env _ _ (Keeps-fail_with F Reason.queue_full)
              (Held-with_slot env _ (Keeps-deploy_held F))))
        (Keeps-then o _ _ (Keeps-fail_with F Reason.docker_missing)
          (Keeps-raise o Error.docker_missing))).at
      w
  where
    o : IsPreorder Held
    o = Held-IsPreorder

    F : Frame env tenant id Held
    F = Held-Frame env tenant id

-- DeployImage gives back its place in the queue and its slot on every way out, too.
pub deploy_image_releases :
    (env : Env) (tenant id image : Text) (w : World)
    → ((deploy_image env tenant id image w).1.queue ≡ w.queue)
      × ((deploy_image env tenant id image w).1.slots ≡ w.slots)
unfolding deploy_image
deploy_image_releases env tenant id image w =
    (Keeps-if o env.has_docker _ _
        (Keeps-bind o _ _ (Keeps-check_tenant_active F) (λ _.
          Held-in_queue env _ _ (Keeps-pure o tt)
            (Held-with_slot env _ (Keeps-deploy_image_held F image))))
        (Keeps-raise o Error.docker_missing)).at
      w
  where
    o : IsPreorder Held
    o = Held-IsPreorder

    F : Frame env tenant id Held
    F = Held-Frame env tenant id
