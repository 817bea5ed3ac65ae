-- ===== src/Databases/Wait.antt =====
-- The fuel of the wait for a new database is enough.
use agentic_paasd.Prelude.{
  subst, ℕ, zero, suc, ◌+◌, ◌*◌, ◌≤◌, ◌≡◌, refl, Bool, true, false, arith, ltb,
}
use agentic_paasd.Runtime.{Env, World, Exec, time_now, dial, sleep}
use agentic_paasd.Databases.Provision.{wait_until, wait_seconds, before_deadline}

-- From the event `t` on, a round of the loop (a look at the clock, a dial, a sleep of a second)
-- takes a second at least.
abbrev pub Sleeps : Env → ℕ → Type 0
Sleeps env t = (k : ℕ) → suc (env.now (t + 3 * k)) ≤ env.now (t + 3 * suc k)

Sleeps-later : (env : Env) (t : ℕ) → Sleeps env t → Sleeps env (suc (suc (suc t)))
Sleeps-later env t s k =
    let now_at : t + 3 * suc k ≡ suc (suc (suc t)) + 3 * k = omega arith in
    let then_at : t + 3 * suc (suc k) ≡ suc (suc (suc t)) + 3 * suc k = omega arith in
    subst (λ x. suc (env.now x) ≤ env.now (suc (suc (suc t)) + 3 * suc k)) now_at
      (subst (λ y. suc (env.now (t + 3 * suc k)) ≤ env.now y) then_at (s (suc k)))

one_round : (env : Env) (t : ℕ) → Sleeps env t → suc (env.now t) ≤ env.now (suc (suc (suc t)))
one_round env t s =
    let now_at : t + 3 * 0 ≡ t = omega arith in
    let then_at : t + 3 * 1 ≡ suc (suc (suc t)) = omega arith in
    subst (λ x. suc (env.now x) ≤ env.now (suc (suc (suc t)))) now_at
      (subst (λ y. suc (env.now (t + 3 * 0)) ≤ env.now y) then_at (s 0))

module _ (env : Env) (port deadline : ℕ) where
  -- A round's answer, where the rounds behind it agree.
  same_round :
      (b c : Bool) (m n : Exec Bool) (w : World)
      → env.dials w.tick port ≡ c
      → m (sleep env (dial env port w).1).1 ≡ n (sleep env (dial env port w).1).1
      → before_deadline env b port m w ≡ before_deadline env b port n w
  unfolding dial sleep
  same_round false c m n w e h = refl
  same_round true true m n w e h = rw e refl
  same_round true false m n w e h = rw e h

  wait_stops :
      (m n : ℕ) (w : World)
      → m ≤ n
      → Sleeps env w.tick
      → deadline ≤ env.now w.tick + m
      → wait_until env (suc n) port deadline w ≡ wait_until env (suc m) port deadline w
  unfolding wait_until time_now dial sleep
  wait_stops zero n w l s h =
      let late : ltb (env.now w.tick) deadline ≡ false = ground arith in rw late refl
  wait_stops (suc m) zero w l s h = absurd (omega arith)
  wait_stops (suc m) (suc n) w l s h =
      let w' = (sleep env (dial env port (time_now env w).1).1).1 in
      let step = one_round env w.tick s in
      let rest =
        wait_stops m n w' (omega arith) (Sleeps-later env w.tick s) (omega (arith, step, h)) in
      same_round (ltb (env.now w.tick) deadline) (env.dials (suc w.tick) port)
        (wait_until env (suc n) port deadline) (wait_until env (suc m) port deadline)
        (time_now env w).1 refl rest

-- The wait for a new database ends within its fuel: where a second passes in every round, from
-- the first look at the clock on, any more fuel gives the same answer and leaves the same world.
pub wait_has_enough_fuel :
    (env : Env) (port fuel start : ℕ) (w : World)
    → wait_seconds ≤ fuel
    → Sleeps env w.tick
    → start ≤ env.now w.tick
    → wait_until env (suc fuel) port (start + wait_seconds) w
      ≡ wait_until env (suc wait_seconds) port (start + wait_seconds) w
wait_has_enough_fuel env port fuel start w more s h =
    wait_stops env port (start + wait_seconds) wait_seconds fuel w more s (omega (arith, h))
