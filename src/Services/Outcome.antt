-- ===== src/Services/Outcome.antt =====
-- How a deploy ends: a container that was started is tracked or removed, and an open circuit or a
-- full queue stops everything before Docker is asked.
use agentic_paasd.Prelude.{
  ℕ, zero, suc, ◌≡◌, refl, ◌⊎◌, inl, inr, true, false, some, ◌∷◌, Text, arith, find, find_of_count,
  find-update, count, Bool-cases,
}
use agentic_paasd.Store.{Db, Service, Status, Reason}
use agentic_paasd.Runtime.{Env, World, Call, Error, ok, err, is_ok, sql, query, time_now, docker_}
use agentic_paasd.Services.Rows.{
  owns, update_services, check_tenant_active, get_owned, update_status_with_error,
  update_status_with_error_scoped,
}
use agentic_paasd.Services.Launch.{set_launched, record_launch}
use agentic_paasd.Services.Deploy.{fail_with, in_queue, with_slot, deploy_held, deploy}

-- The service's row names the container, as running and without an error.
abbrev pub Tracked : Text → Text → Text → World → Type 0
Tracked tenant id container w =
    (s : Service) × (find (owns tenant id) w.db.services ≡ some s)
    × (s.container_id ≡ container)
    × (s.status ≡ Status.running)
    × (s.last_error ≡ Reason.no_error)

settled_cases :
    (env : Env) (tenant id container : Text) (w : World) (rows : ℕ)
    → count (owns tenant id) w.db.services ≡ rows
    → env.db_ok (suc w.tick) ≡ true
    → ((record_launch env tenant id container w).0 ≡ ok tt)
        × ((record_launch env tenant id container w).1.calls ≡ w.calls)
        × Tracked tenant id container (record_launch env tenant id container w).1
      ⊎ ((record_launch env tenant id container w).0 ≡ err Error.service_deleted)
        × ((record_launch env tenant id container w).1.calls
            ≡ Call.remove_container container ∷ Call.stop_container container ∷ w.calls)
unfolding record_launch update_services sql time_now docker_
settled_cases env tenant id container w zero h e = inr (ground arith)
settled_cases env tenant id container w (suc n) h e =
    let (s, found) = find_of_count (owns tenant id) w.db.services {n = n} h in
    inl (
      ground arith,
      ground arith,
      (
        set_launched container (env.now w.tick) s,
        rw (e, h)
            (find-update (owns tenant id) (set_launched container (env.now w.tick)) w.db.services
              (λ a k. k) found),
        refl,
        refl,
        refl,
      ),
    )

-- Once a container runs, a deploy either succeeds, with the service's row naming the container as
-- running and without an error and with no further Docker call, or it fails, and its last two
-- Docker calls ask to stop and to remove that container. It does so for every outcome of the
-- update: written, refused, or without a row to write.
pub record_launch_tracks :
    (env : Env) (tenant id container : Text) (w : World)
    → ((record_launch env tenant id container w).0 ≡ ok tt)
        × ((record_launch env tenant id container w).1.calls ≡ w.calls)
        × Tracked tenant id container (record_launch env tenant id container w).1
      ⊎ (is_ok (record_launch env tenant id container w).0 ≡ false)
        × ((record_launch env tenant id container w).1.calls
            ≡ Call.remove_container container ∷ Call.stop_container container ∷ w.calls)
record_launch_tracks env tenant id container w = elim (Bool-cases (env.db_ok (suc w.tick))) [
  | inr e ↦ inr (unfold record_launch update_services sql time_now docker_ in ground arith)
  | inl e ↦ elim (settled_cases env tenant id container w _ refl e) [
    | inl kept ↦ inl kept
    | inr (failed, calls) ↦ inr (rw failed, calls)
  ]
]

-- A deploy that comes to a service whose circuit is open fails and makes no Docker call.
held_open :
    (env : Env) (tenant id : Text) (w : World) (s : Service)
    → find (owns tenant id) w.db.services ≡ some s
    → s.circuit_open ≡ true
    → ((deploy_held env tenant id w).1.calls ≡ w.calls)
      × (is_ok (deploy_held env tenant id w).0 ≡ false)
unfolding deploy_held get_owned query sql fail_with update_status_with_error_scoped update_services
    time_now
held_open env tenant id w s found o = ground arith

-- As long as the service's row has an open circuit, Deploy fails without a single Docker call,
-- whatever the database, the queue and the other goroutines do.
pub deploy_open_circuit :
    (env : Env) (tenant id : Text) (w : World) (s : Service)
    → find (owns tenant id) w.db.services ≡ some s
    → s.circuit_open ≡ true
    → ((n : ℕ) (db : Db)
        → find (owns tenant id) (env.others n db).services ≡ find (owns tenant id) db.services)
    → ((deploy env tenant id w).1.calls ≡ w.calls) × (is_ok (deploy env tenant id w).0 ≡ false)
unfolding deploy check_tenant_active query sql fail_with update_status_with_error_scoped
    update_services time_now update_status_with_error in_queue with_slot
deploy_open_circuit env tenant id w s found o rely = ground (
  arith,
  held_open env tenant id
      (record w {
        queue = suc w.queue;
        slots = suc w.slots;
        db = env.others (suc w.tick) w.db;
        tick = suc (suc w.tick);
      })
      s,
  rely (suc w.tick) w.db,
)
