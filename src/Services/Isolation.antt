-- ===== src/Services/Isolation.antt =====
-- Tenants do not meet: what a deploy of one tenant leaves of the rows of the others.
use agentic_paasd.Prelude.{ℕ, ◌≡◌, refl, ◌∙◌, not, List, [], ◌∷◌, Text, arith, keep, update}
use agentic_paasd.Store.{Db, Service}
use agentic_paasd.Runtime.{
  Env, World, sql, query, time_now, docker, docker_, docker_text, disk_check,
}
use agentic_paasd.Runtime.Keeps.{IsPreorder, Keeps}
use agentic_paasd.Services.Rows.{owns, of_tenant, update_services}
use agentic_paasd.Services.Deploy.{deploy_held, deploy_image_held}
use agentic_paasd.Services.Frame.{Frame, KeepsKey, Keeps-deploy_held, Keeps-deploy_image_held}

-- The rows of all other tenants.
abbrev pub foreign : Text → List Service → List Service
foreign tenant = keep (λ s. not (of_tenant tenant s))

abbrev pub Apart : Text → World → World → Type 0
Apart tenant w w' = foreign tenant w'.db.services ≡ foreign tenant w.db.services

foreign-update :
    (tenant id : Text) (f : Service → Service) (rows : List Service)
    → KeepsKey f
    → foreign tenant (update (owns tenant id) f rows) ≡ foreign tenant rows
unfolding keep update
foreign-update tenant id f [] k = refl
foreign-update tenant id f (s ∷ rows) k =
    ground (arith, k.same_tenant s, foreign-update tenant id f rows k)

-- The other goroutines may do what they like, but not to the other tenants' rows.
module _ (env : Env) (tenant : Text)
    (rely : (n : ℕ) (db : Db)
      → foreign tenant (env.others n db).services ≡ foreign tenant db.services) where
  Apart-IsPreorder : IsPreorder (Apart tenant)
  Apart-IsPreorder = record { stay = λ w. refl; step = λ u v w p q. q ∙ p }

  Apart-query : {A : Type 0} (f : Db → A) → Keeps (Apart tenant) (query env f)
  unfolding query sql
  Apart-query f = record { at = λ w. ground arith }

  Apart-update :
      (id : Text) (f : Service → Service)
      → KeepsKey f
      → Keeps (Apart tenant) (update_services env (owns tenant id) f)
  unfolding update_services sql
  Apart-update id f k = record {
    at = λ w. ground (arith, foreign-update tenant id f w.db.services k);
  }

  Apart-Frame : (id : Text) → Frame env tenant id (Apart tenant)
  unfolding docker docker_ docker_text disk_check time_now
  Apart-Frame id = record {
    order = Apart-IsPreorder;
    reads = Apart-query;
    writes = Apart-update id;
    clock = record { at = λ w. refl };
    disk = record { at = λ w. refl };
    call = λ c. record { at = λ w. rely w.tick w.db };
    call_ = λ c. record { at = λ w. rely w.tick w.db };
    call_text = λ c. record { at = λ w. rely w.tick w.db };
  }

  -- Deploy, from the load of the service on, leaves the rows of every other tenant in the services
  -- table as they were, in number, order and content, whether it succeeds or fails at any step, as
  -- long as no other goroutine changes them in the meantime.
  pub deploy_held_apart :
      (id : Text) (w : World)
      → foreign tenant (deploy_held env tenant id w).1.db.services ≡ foreign tenant w.db.services
  deploy_held_apart id w = (Keeps-deploy_held (Apart-Frame id)).at w

  -- The same of the deploy of a built image.
  pub deploy_image_held_apart :
      (id image : Text) (w : World)
      → foreign tenant (deploy_image_held env tenant id image w).1.db.services
        ≡ foreign tenant w.db.services
  deploy_image_held_apart id image w = (Keeps-deploy_image_held (Apart-Frame id) image).at w
