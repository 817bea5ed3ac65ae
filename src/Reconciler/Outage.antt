-- ===== src/Reconciler/Outage.antt =====
-- What reconcileOnce leaves alone when Docker does not answer.
use agentic_paasd.Prelude.{
  ℕ, ◌≡◌, refl, false, none, List, [], Text, any, same, codes, inl, inr, Bool-cases,
}
use agentic_paasd.Store.{Db, Service}
use agentic_paasd.Runtime.{
  Env, World, Call, Error, ok, err, failure, docker_info, docker_list, after_call, for_each,
}
use agentic_paasd.Runtime.Keeps.{Keeps, Keeps-for_each}
use agentic_paasd.Runtime.Post.{SameDb, SameDb-IsPreorder}
use agentic_paasd.Services.Control.{is_not_found}
use agentic_paasd.Reconciler.Loop.{
  crash_reason, diagnose, mark_if, check_running, check_health, reconcile_once,
}

-- If Docker's list of containers fails, a tick of the reconciler runs no statement, makes no other
-- call, and ends with that error.
pub reconcile_needs_docker :
    (env : Env) (w : World) (m : Text)
    → env.ask_list w.tick (Call.list_by_label (codes "ah.tenant") []) ≡ failure m
    → reconcile_once env w
      ≡ (err Error.list_failed, after_call env (Call.list_by_label (codes "ah.tenant") []) w)
unfolding reconcile_once docker_list
reconcile_needs_docker env w m h = rw h

-- Docker answers every look at a container with an error that is not "no such container".
pub record Outage (env : Env) : Type 0 where
  pub fails :
      (n : ℕ) (c : Call) → (m : Text) × (env.ask_info n c ≡ failure m) × (is_not_found m ≡ false)
  pub quiet : (n : ℕ) (db : Db) → env.others n db ≡ db

module _ (env : Env) (out : Outage env) where
  diagnose_nothing :
      (listed : List Text) (s : Service) (w : World)
      → ((diagnose env listed s w).0 ≡ ok none) × ((diagnose env listed s w).1.db ≡ w.db)
  unfolding diagnose docker_info crash_reason
  diagnose_nothing listed s w =
      let (m, e, f) = out.fails w.tick (Call.inspect_container s.container_id) in
      elim (Bool-cases (any (λ id. same id s.container_id) listed)) [
        | inl t ↦ rw (t, e) (refl, out.quiet w.tick w.db)
        | inr t ↦ rw (t, e, f) (refl, out.quiet w.tick w.db)
      ]

  SameDb-check_running :
      (listed : List Text) (s : Service) → Keeps SameDb (check_running env listed s)
  unfolding check_running mark_if
  SameDb-check_running listed s = record {
    at = λ w. rw ((diagnose_nothing listed s w).0) ((diagnose_nothing listed s w).1);
  }

  SameDb-check_health : (s : Service) → Keeps SameDb (check_health env s)
  unfolding check_health docker_info
  SameDb-check_health s = record {
    at = λ w.
        let (m, e, f) = out.fails w.tick (Call.inspect_container s.container_id) in
        rw e (out.quiet w.tick w.db);
  }

  -- While every inspection fails with a transient error and no other goroutine writes, the crash
  -- pass and the health pass over any services, with any list of containers, change nothing in
  -- the database: no service is marked crashed and no circuit is opened.
  pub outage_marks_nothing :
      (listed : List Text) (rows : List Service) (w : World)
      → ((for_each rows (check_running env listed) w).1.db ≡ w.db)
        × ((for_each rows (check_health env) w).1.db ≡ w.db)
  outage_marks_nothing listed rows w = (
    (Keeps-for_each SameDb-IsPreorder rows _ (SameDb-check_running listed)).at w,
    (Keeps-for_each SameDb-IsPreorder rows _ SameDb-check_health).at w,
  )
