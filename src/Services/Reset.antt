-- ===== src/Services/Reset.antt =====
-- Start, Restart and ResetCircuitBreaker and the state of the circuit.
use agentic_paasd.Prelude.{
  suc, ◌≡◌, refl, true, false, not, none, some, Text, All, All-keep, keep, update-All, inl, inr,
  Bool-cases, arith, find, is_empty,
}
use agentic_paasd.Store.{Service, Status}
use agentic_paasd.Runtime.{
  Env, World, Exec, Error, is_ok, skip, when, or_fail, ◌>>=◌, query, sql, time_now,
}
use agentic_paasd.Runtime.Post.{Post, Post-bind}
use agentic_paasd.Services.Rows.{owns, update_services, check_tenant_active, get_owned}
use agentic_paasd.Services.Control.{
  start, restart, reset_columns, clear_container, reset_circuit_breaker,
}

-- While the service's circuit is open, Start and Restart fail without a Docker call.
pub start_open_circuit :
    (env : Env) (tenant id : Text) (w : World) (s : Service)
    → find (owns tenant id) w.db.services ≡ some s
    → s.circuit_open ≡ true
    → ((start env tenant id w).1.calls ≡ w.calls)
      × (is_ok (start env tenant id w).0 ≡ false)
      × ((restart env tenant id w).1.calls ≡ w.calls)
      × (is_ok (restart env tenant id w).0 ≡ false)
unfolding start restart check_tenant_active get_owned query sql
start_open_circuit env tenant id w s found o =
    (ground arith, ground arith, ground arith, ground arith)

-- A closed circuit with its count and window begun anew, and the service stopped.
abbrev pub IsReset : Service → Type 0
IsReset s =
    (s.circuit_open ≡ false)
    × (s.crash_count ≡ 0)
    × (s.crash_window_start ≡ none)
    × (s.status ≡ Status.stopped)

module _ (env : Env) (tenant id : Text) where
  abbrev AllReset : World → Type 0
  AllReset w = All (λ s. owns tenant id s ≡ true → IsReset s) w.db.services

  -- The last two statements of ResetCircuitBreaker.
  reset_row : Exec (Unit {0})
  reset_row = do
    now ← time_now env
    rows ← update_services env (owns tenant id) (reset_columns now)
    _ ← or_fail rows skip Error.reset_failed
    skip

  reset_row-Post : Post AllReset reset_row
  unfolding reset_row time_now update_services sql
  reset_row-Post = record {
    at = λ w h. elim (Bool-cases (env.db_ok (suc w.tick))) [
      | inl e ↦ rw e (
          update-All (owns tenant id) (reset_columns (env.now w.tick)) w.db.services
            (λ s _ _. (refl, refl, refl, refl)) (λ s miss hit. cc))
      | inr e ↦ let c : is_ok (reset_row w).0 ≡ false = ground arith in cc
    ];
  }

  -- ResetCircuitBreaker that succeeds leaves the service stopped, with a closed circuit, no
  -- crashes counted and no crash window: every row of that tenant with that identifier is so.
  pub reset_circuit_breaker-IsReset :
      (w : World)
      → is_ok (reset_circuit_breaker env tenant id w).0 ≡ true
      → All IsReset (keep (owns tenant id) (reset_circuit_breaker env tenant id w).1.db.services)
  unfolding reset_circuit_breaker reset_row
  reset_circuit_breaker-IsReset w h =
      let k : Post AllReset (reset_circuit_breaker env tenant id) =
        Post-bind (get_owned env tenant id) _ (λ s.
          Post-bind (when (not (is_empty s.container_id)) (clear_container env s.container_id)) _
            (λ u. reset_row-Post)) in
      All-keep IsReset (owns tenant id) (reset_circuit_breaker env tenant id w).1.db.services
        (k.at w h)
