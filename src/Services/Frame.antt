-- ===== src/Services/Frame.antt =====
-- A relation between worlds that the statements of a deploy keep, one by one, is kept by the
-- whole deploy of the places' holder: the frame that Slots and Isolation fill.
use agentic_paasd.Prelude.{
  ℕ, ◌≡◌, refl, Bool, true, false, Option, none, some, zero, suc, List, [], ◌∷◌, Text, inl, inr,
  Bool-cases,
}
use agentic_paasd.Store.{Db, Service, Status, Reason, Tenant, EnvRow, is_active}
use agentic_paasd.Runtime.{
  Env, World, Call, Error, raise, ◌>>◌, ignore, query, time_now, docker, docker_, docker_text,
  disk_check,
}
use agentic_paasd.Runtime.Keeps.{
  IsPreorder, Keeps, keeps_rules, Keeps-raise, Keeps-pure, Keeps-bind, Keeps-or_fail_with,
}
use agentic_paasd.Services.Rows.{
  owns, set_status, set_error, require_active, update_services, check_tenant_active, get_owned,
  update_status_scoped, update_status_with_error_scoped, get_resource_limits, decrypt_all,
  get_env_vars,
}
use agentic_paasd.Services.Launch.{set_launched, discard, settled, record_launch, launch}
use agentic_paasd.Services.Deploy.{
  image_set, fail_with, deploy_closed, deploy_held, deploy_image_held,
}

-- An update that leaves the row's key and owner.
pub record KeepsKey (f : Service → Service) : Type 0 where
  pub same_id : (s : Service) → (f s).id ≡ s.id
  pub same_tenant : (s : Service) → (f s).tenant_id ≡ s.tenant_id

pub record Frame (env : Env) (tenant id : Text) (R : World → World → Type 0) : Type 1 where
  pub order : IsPreorder R
  pub reads : {A : Type 0} (f : Db → A) → Keeps R (query env f)
  pub writes :
      (f : Service → Service) → KeepsKey f → Keeps R (update_services env (owns tenant id) f)
  pub clock : Keeps R (time_now env)
  pub disk : Keeps R (disk_check env)
  pub call : (c : Call) → Keeps R (docker env c)
  pub call_ : (c : Call) → Keeps R (docker_ env c)
  pub call_text : (c : Call) → Keeps R (docker_text env c)

set_status-KeepsKey : (status : Status) (now : ℕ) → KeepsKey (set_status status now)
set_status-KeepsKey status now = record { same_id = λ s. refl; same_tenant = λ s. refl }

set_error-KeepsKey :
    (status : Status) (reason : Reason) (now : ℕ) → KeepsKey (set_error status reason now)
set_error-KeepsKey status reason now = record { same_id = λ s. refl; same_tenant = λ s. refl }

set_launched-KeepsKey : (container : Text) (now : ℕ) → KeepsKey (set_launched container now)
set_launched-KeepsKey container now = record { same_id = λ s. refl; same_tenant = λ s. refl }

image_set-KeepsKey : (image : Text) (now : ℕ) → KeepsKey (image_set image now)
image_set-KeepsKey image now = record { same_id = λ s. refl; same_tenant = λ s. refl }

module _ {env : Env} {tenant id : Text} {R : World → World → Type 0} where
  frame_order : Frame env tenant id R → IsPreorder R
  frame_order F = F.order

  frame_reads : Frame env tenant id R → {A : Type 0} (f : Db → A) → Keeps R (query env f)
  frame_reads F f = F.reads f

  frame_writes :
      Frame env tenant id R
      → (f : Service → Service) → KeepsKey f
      → Keeps R (update_services env (owns tenant id) f)
  frame_writes F f k = F.writes f k

  frame_clock : Frame env tenant id R → Keeps R (time_now env)
  frame_clock F = F.clock

  frame_disk : Frame env tenant id R → Keeps R (disk_check env)
  frame_disk F = F.disk

  frame_call : Frame env tenant id R → (c : Call) → Keeps R (docker env c)
  frame_call F c = F.call c

  frame_call_ : Frame env tenant id R → (c : Call) → Keeps R (docker_ env c)
  frame_call_ F c = F.call_ c

  frame_call_text : Frame env tenant id R → (c : Call) → Keeps R (docker_text env c)
  frame_call_text F c = F.call_text c

ruleset frame_rules = (
  frame_order, frame_reads, frame_writes, frame_clock, frame_disk, frame_call, frame_call_,
  frame_call_text, set_status-KeepsKey, set_error-KeepsKey, set_launched-KeepsKey,
  image_set-KeepsKey, keeps_rules,
)

module _ {env : Env} {tenant id : Text} {R : World → World → Type 0}
    (F : Frame env tenant id R) where
  Keeps-require_active : (t : Tenant) → Keeps R (require_active t)
  Keeps-require_active t = elim (Bool-cases (is_active t.status)) [
    | inl e ↦ rw e (Keeps-pure F.order tt)
    | inr e ↦ rw e (Keeps-raise F.order Error.tenant_inactive)
  ]

  pub Keeps-check_tenant_active : Keeps R (check_tenant_active env tenant)
  unfolding check_tenant_active
  Keeps-check_tenant_active = search (frame_rules, Keeps-require_active) depth 9

  pub Keeps-get_owned : Keeps R (get_owned env tenant id)
  unfolding get_owned
  Keeps-get_owned = search frame_rules depth 9

  pub Keeps-update_status_scoped :
      (status : Status) → Keeps R (update_status_scoped env tenant id status)
  unfolding update_status_scoped
  Keeps-update_status_scoped status = search frame_rules depth 9

  Keeps-update_error :
      (status : Status) (reason : Reason)
      → Keeps R (update_status_with_error_scoped env tenant id status reason)
  unfolding update_status_with_error_scoped
  Keeps-update_error status reason = search frame_rules depth 9

  pub Keeps-fail_with : (reason : Reason) → Keeps R (fail_with env tenant id reason)
  unfolding fail_with
  Keeps-fail_with reason = Keeps-update_error Status.failed reason

  Keeps-get_resource_limits : Keeps R (get_resource_limits env tenant)
  unfolding get_resource_limits
  Keeps-get_resource_limits = search frame_rules depth 9

  Keeps-decrypt_all : (rows : List EnvRow) → Keeps R (decrypt_all env rows)
  unfolding decrypt_all
  Keeps-decrypt_all [] = Keeps-pure F.order []
  Keeps-decrypt_all (row ∷ rows) =
      Keeps-bind F.order _ _
        (Keeps-or_fail_with F.order (env.decrypt row.value_encrypted) ignore Error.decrypt_error
          (λ m. Keeps-pure F.order tt))
        (λ plain.
          Keeps-bind F.order _ _ (Keeps-decrypt_all rows)
            (λ rest. Keeps-pure F.order ((row.key, plain) ∷ rest)))

  Keeps-get_env_vars : Keeps R (get_env_vars env id)
  unfolding get_env_vars
  Keeps-get_env_vars = search (frame_rules, Keeps-decrypt_all) depth 9

  Keeps-discard : (container : Text) → Keeps R (discard env container)
  Keeps-discard container = search frame_rules depth 9

  Keeps-settled : (container : Text) (rows : Option ℕ) → Keeps R (settled env container rows)
  Keeps-settled container none = search (frame_rules, Keeps-discard) depth 9
  Keeps-settled container (some zero) = search (frame_rules, Keeps-discard) depth 9
  Keeps-settled container (some (suc n)) = search frame_rules depth 9

  pub Keeps-record_launch : (container : Text) → Keeps R (record_launch env tenant id container)
  unfolding record_launch
  Keeps-record_launch container = search (frame_rules, Keeps-settled) depth 9

  pub Keeps-launch : (s : Service) (image : Text) → Keeps R (launch env tenant id s image)
  unfolding launch
  Keeps-launch s image =
      search
        (
          frame_rules, Keeps-get_env_vars, Keeps-update_error, Keeps-get_resource_limits,
          Keeps-record_launch,
        )
        depth 12

  pub Keeps-deploy_closed : (s : Service) → Keeps R (deploy_closed env tenant id s)
  unfolding deploy_closed
  Keeps-deploy_closed s =
      search
        (
          frame_rules, Keeps-fail_with, Keeps-update_status_scoped, Keeps-get_owned, Keeps-discard,
          Keeps-launch,
        )
        depth 24

  Keeps-deploy_owned :
      (s : Service) (b : Bool)
      → Keeps R (elim b [
        | true ↦ fail_with env tenant id Reason.circuit_is_open >> raise Error.circuit_is_open
        | false ↦ deploy_closed env tenant id s
      ])
  Keeps-deploy_owned s true = search (frame_rules, Keeps-fail_with) depth 9
  Keeps-deploy_owned s false = Keeps-deploy_closed s

  pub Keeps-deploy_held : Keeps R (deploy_held env tenant id)
  unfolding deploy_held
  Keeps-deploy_held =
      Keeps-bind F.order _ _ Keeps-get_owned (λ s. Keeps-deploy_owned s s.circuit_open)

  pub Keeps-deploy_image_held : (image : Text) → Keeps R (deploy_image_held env tenant id image)
  unfolding deploy_image_held
  Keeps-deploy_image_held image =
      search
        (
          frame_rules, Keeps-fail_with, Keeps-update_status_scoped, Keeps-get_owned, Keeps-discard,
          Keeps-launch,
        )
        depth 24
