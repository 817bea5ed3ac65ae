-- ===== src/Reconciler/Window.antt =====
-- What the crash pass of reconcileOnce does to the row and to the container of a service that it
-- marks as crashed, whatever its statements answer.
use agentic_paasd.Prelude.{
  ℕ, suc, ◌+◌, ◌≡◌, ◌⊎◌, Bool, true, false, ◌&&◌, Option, some, List, ◌∷◌, find, leb, if◌then◌else◌,
}
use agentic_paasd.Store.{Service}
use agentic_paasd.Runtime.{Env, World, Call, Result, is_ok}
use agentic_paasd.Services.Rows.{has_id}
use agentic_paasd.Reconciler.Breaker.{window_over}

-- The count of a crash at `now`: the first of a new window, or one more.
abbrev pub next_count : ℕ → Service → ℕ
next_count now row = if window_over now row.crash_window_start then 1 else row.crash_count + 1

abbrev pub next_start : ℕ → Service → Option ℕ
next_start now row =
    if window_over now row.crash_window_start then some now else row.crash_window_start

-- Where a crash at `now` finds and leaves the row, and what it asks of Docker; `updates` and
-- `reads` say whether the second update and the read behind it succeed.
pub record Counted (now : ℕ) (updates reads : Bool) (s row row' : Service)
    (before after : List Call) : Type 0 where
  pub count : row'.crash_count ≡ next_count now row
  pub window_start : row'.crash_window_start ≡ next_start now row
  pub circuit :
      row'.circuit_open ≡ (if updates && leb 5 (next_count now row) then true else row.circuit_open)
  pub calls : after ≡ (
      if reads && row'.circuit_open
      then Call.remove_container s.container_id ∷ Call.stop_container s.container_id ∷ before
      else before)

-- How the pass over one service ends: without a change, or with a row that counts the crash.
abbrev pub Marked : Env → Service → Service → World → Result (Unit {0}) × World → Type 0
Marked env s row w (r, w') =
    (env.db_ok (suc w.tick) ≡ false) × (is_ok r ≡ false) × (w'.db ≡ w.db) × (w'.calls ≡ w.calls)
    ⊎ (env.db_ok (suc w.tick) ≡ true)
      × (is_ok r ≡ true)
      × ((row' : Service) × (find (has_id s.id) w'.db.services ≡ some row')
          × Counted (env.now w.tick) (env.db_ok (suc (suc (suc w.tick))))
              (env.db_ok (suc (suc (suc (suc w.tick))))) s row row' w.calls w'.calls)
