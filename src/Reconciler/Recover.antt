-- ===== src/Reconciler/Recover.antt =====
-- The recovery pass of reconcileOnce over the whole table.
use agentic_paasd.Prelude.{
  ℕ, ◌≡◌, true, false, List, [], ◌∷◌, All, All-imp, All-update, update, Met, Met-keep, same_refl,
  suc, keep, arith, inl, inr, Bool-cases,
}
use agentic_paasd.Store.{Service}
use agentic_paasd.Runtime.{Env, World, ok, sql, query, time_now, for_each}
use agentic_paasd.Services.Rows.{owns, update_services}
use agentic_paasd.Reconciler.Breaker.{recovery_columns, is_due}
use agentic_paasd.Reconciler.Loop.{recover_row, recover_rows, recover_circuits}

-- Every due row is one that the rest of the loop will recover.
abbrev Covered : ℕ → List Service → List Service → Type 0
Covered t rest rows = Met (is_due t) (λ s r. owns s.tenant_id s.id r) rest rows

abbrev pub NoneDue : ℕ → World → Type 0
NoneDue t w = All (λ r. is_due t r ≡ false) w.db.services

module _ (env : Env) (all_ok : (n : ℕ) → env.db_ok n ≡ true) (t : ℕ) where
  Covered-step :
      (now : ℕ) (s : Service) (rest rows : List Service)
      → Covered t (s ∷ rest) rows
      → Covered t rest (update (owns s.tenant_id s.id) (recovery_columns now) rows)
  unfolding recovery_columns is_due
  Covered-step now s rest rows h =
      All-update (owns s.tenant_id s.id) (recovery_columns now) rows (λ x k e d. cc)
        (λ x k e d. ground (arith, k d)) h

  Covered-nil : (rows : List Service) → Covered t [] rows → All (λ r. is_due t r ≡ false) rows
  Covered-nil rows h =
      All-imp rows (λ x k. elim (Bool-cases (is_due t x)) [ inl e ↦ cc (k e) | inr e ↦ e ]) h

  recover_row-services :
      (s : Service) (w : World)
      → (recover_row env s w).1.db.services
        ≡ update (owns s.tenant_id s.id) (recovery_columns (env.now w.tick)) w.db.services
  unfolding recover_row update_services time_now sql
  recover_row-services s w = rw (all_ok (suc w.tick))

  recover_row_ok : (s : Service) (w : World) → (recover_row env s w).0 ≡ ok tt
  unfolding recover_row update_services time_now sql
  recover_row_ok s w = rw (all_ok (suc w.tick))

  recover_loop :
      (rest : List Service) (w : World)
      → Covered t rest w.db.services
      → NoneDue t (for_each rest (recover_row env) w).1
  unfolding for_each
  recover_loop [] w h = Covered-nil w.db.services h
  recover_loop (s ∷ rest) w h = rw (recover_row_ok s w) (
      recover_loop rest (recover_row env s w).1
        (rw (recover_row-services s w) (Covered-step (env.now w.tick) s rest w.db.services h)))

  owns_refl : (s : Service) → owns s.tenant_id s.id s ≡ true
  owns_refl s = ground (arith, same_refl s.id, same_refl s.tenant_id)

-- When the statements succeed, the recovery pass leaves no service whose circuit is open and
-- whose retry time is at or before the time at which the pass began.
pub recover_circuits-NoneDue :
    (env : Env)
    → ((n : ℕ) → env.db_ok n ≡ true)
    → (w : World) → NoneDue (env.now w.tick) (recover_circuits env w).1
unfolding recover_circuits recover_rows time_now query sql
recover_circuits-NoneDue env all_ok w = rw (all_ok (suc w.tick)) (
    recover_loop env all_ok (env.now w.tick) (keep (is_due (env.now w.tick)) w.db.services)
      (record w { tick = suc (suc w.tick) })
      (Met-keep (is_due (env.now w.tick)) (λ s r. owns s.tenant_id s.id r) w.db.services
        (owns_refl env all_ok 0)))
