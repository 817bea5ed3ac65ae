-- ===== src/Databases/Cleanup.antt =====
-- What a failed Create leaves behind in Docker.
use agentic_paasd.Prelude.{
  ℕ, zero, suc, ◌≡◌, refl, ◌∙◌, ap, Bool, true, false, Option, none, some, List, ◌∷◌, Text, inl,
  inr, Bool-cases, ltb, subst, sym,
}
use agentic_paasd.Store.{Db, Database, DbStatus}
use agentic_paasd.Runtime.{
  Env, World, Exec, Call, Error, Result, ok, err, Answer, got, failure, is_ok, continue, ◌>>=◌,
  ◌>>◌, pure, raise, sql, time_now, docker_, docker, docker_text, dial, sleep, check_none,
  or_fail_with,
}
use agentic_paasd.Databases.Rows.{update_databases, update_db_status, clean_up, affected, volume_of}
use agentic_paasd.Databases.Provision.{
  Plan, database_config, wait_until, wait_healthy, dialled, before_deadline, unless_gone,
  unless_unhealthy, mark_failed, settle, provision, wait_seconds,
}

-- The calls around an action: none if it succeeds, the removal of the container and of the volume
-- if it fails.
abbrev Tidied : Text → Text → Bool → List Call → List Call → Type 0
Tidied c v true cs cs' = cs' ≡ cs
Tidied c v false cs cs' =
    cs' ≡ Call.remove_volume v ∷ Call.remove_container c ∷ Call.stop_container c ∷ cs

record Tidy {A : Type 0} (c v : Text) (m : Exec A) : Type 0 where
  at : (w : World) → Tidied c v (is_ok (m w).0) w.calls (m w).1.calls

Tidied-onto :
    (c v : Text) (b : Bool) (xs ys zs : List Call)
    → ys ≡ xs
    → Tidied c v b ys zs
    → Tidied c v b xs zs
Tidied-onto c v true xs ys zs e h = h ∙ e
Tidied-onto c v false xs ys zs e h = subst (λ l. Tidied c v false l zs) e h

module _ {c v : Text} where
  continue-Tidied :
      {A B : Type 0} (r : Result A) (f : A → Exec B) (cs : List Call) (w : World)
      → Tidied c v (is_ok r) cs w.calls
      → ((a : A) → Tidy c v (f a))
      → Tidied c v (is_ok (continue r f w).0) cs (continue r f w).1.calls
  continue-Tidied (ok a) f cs w e k =
      Tidied-onto c v (is_ok (f a w).0) cs w.calls (f a w).1.calls e ((k a).at w)
  continue-Tidied (err x) f cs w e k = e

  Tidy-bind :
      {A B : Type 0} (m : Exec A) (f : A → Exec B)
      → Tidy c v m
      → ((a : A) → Tidy c v (f a))
      → Tidy c v (m >>= f)
  Tidy-bind m f k kf = record { at = λ w. continue-Tidied (m w).0 f w.calls (m w).1 (k.at w) kf }

  Tidy-then :
      {B : Type 0} (m : Exec (Unit {0})) (n : Exec B) → Tidy c v m → Tidy c v n → Tidy c v (m >> n)
  Tidy-then m n k kn = Tidy-bind m (λ _. n) k (λ _. kn)

  Tidy-pure : {A : Type 0} (a : A) → Tidy c v (pure a)
  Tidy-pure a = record { at = λ w. refl }

sql-calls :
    (env : Env) {A : Type 0} (q : Db → A × Db) (w : World)
    → ((is_ok (sql env q w).0 ≡ true) × ((sql env q w).1.calls ≡ w.calls))
unfolding sql
sql-calls env q w = elim (Bool-cases (env.db_ok w.tick)) [
  | inl e ↦ rw e (refl, refl)
  | inr e ↦ rw e (refl, refl)
]

module _ (env : Env) {c v : Text} where
  Tidy-time_now : Tidy c v (time_now env)
  unfolding time_now
  Tidy-time_now = record { at = λ w. refl }

  Tidy-sql : {A : Type 0} (q : Db → A × Db) → Tidy c v (sql env q)
  Tidy-sql q = record {
    at = λ w.
        let (s, e) = sql-calls env q w in
        subst (λ b. Tidied c v b w.calls (sql env q w).1.calls) (sym s) e;
  }

  Tidy-update_databases :
      (p : Database → Bool) (f : Database → Database) → Tidy c v (update_databases env p f)
  unfolding update_databases
  Tidy-update_databases p f = Tidy-sql _

  Tidy-update_db_status :
      (id : Text) (status : DbStatus) → Tidy c v (update_db_status env id status)
  unfolding update_db_status
  Tidy-update_db_status id status =
      Tidy-bind _ _ Tidy-time_now
        (λ now. Tidy-bind _ _ (Tidy-update_databases _ _) (λ rows. Tidy-pure _))

  Tidy-dial : (port : ℕ) → Tidy c v (dial env port)
  unfolding dial
  Tidy-dial port = record { at = λ w. refl }

  Tidy-sleep : Tidy c v (sleep env)
  unfolding sleep
  Tidy-sleep = record { at = λ w. refl }

  Tidy-dialled : (b : Bool) (m : Exec Bool) → Tidy c v m → Tidy c v (dialled env b m)
  Tidy-dialled true m k = Tidy-pure true
  Tidy-dialled false m k = Tidy-then _ _ Tidy-sleep k

  Tidy-before_deadline :
      (b : Bool) (port : ℕ) (m : Exec Bool) → Tidy c v m → Tidy c v (before_deadline env b port m)
  Tidy-before_deadline false port m k = Tidy-pure false
  Tidy-before_deadline true port m k =
      Tidy-bind _ _ (Tidy-dial port) (λ reached. Tidy-dialled reached m k)

  Tidy-wait_until : (fuel port deadline : ℕ) → Tidy c v (wait_until env fuel port deadline)
  unfolding wait_until
  Tidy-wait_until zero port deadline = Tidy-pure false
  Tidy-wait_until (suc fuel) port deadline =
      Tidy-bind _ _ Tidy-time_now
        (λ now. Tidy-before_deadline (ltb now deadline) port _ (Tidy-wait_until fuel port deadline))

  Tidy-wait_healthy : (port : ℕ) → Tidy c v (wait_healthy env port)
  unfolding wait_healthy
  Tidy-wait_healthy port =
      Tidy-bind _ _ Tidy-time_now (λ start. Tidy-wait_until (suc wait_seconds) port _)

  Tidy-clean_up : (e : Error) → Tidy c v (clean_up env c v >> raise {A = Unit {0}} e)
  unfolding clean_up docker_
  Tidy-clean_up e = record { at = λ w. refl }

  Tidy-unless_gone : (b : Bool) → Tidy c v (unless_gone env b c v)
  Tidy-unless_gone true = Tidy-pure tt
  Tidy-unless_gone false = Tidy-clean_up Error.database_deleted

  Tidy-mark_failed : (id : Text) → Tidy c v (mark_failed env id)
  Tidy-mark_failed id =
      Tidy-bind _ _ (Tidy-update_db_status id DbStatus.db_failed) (λ b. Tidy-pure tt)

  Tidy-unless_unhealthy : (b : Bool) (id : Text) → Tidy c v (unless_unhealthy env b id c v)
  unfolding unless_unhealthy
  Tidy-unless_unhealthy true id = Tidy-pure tt
  Tidy-unless_unhealthy false id =
      Tidy-then _ _ (Tidy-mark_failed id) (Tidy-clean_up Error.health_check_failed)

Tidy-settle :
    (env : Env) (p : Plan) (port : ℕ) (c : Text) → Tidy c (volume_of p.id) (settle env p port c)
unfolding settle
Tidy-settle env p port c = Tidy-bind _ _ (Tidy-time_now env) (λ now.
    Tidy-bind _ _ (Tidy-update_databases env _ _) (λ rows.
      Tidy-then _ _ (Tidy-unless_gone env (affected rows)) (
        Tidy-bind _ _ (Tidy-wait_healthy env port) (λ healthy.
          Tidy-then _ _ (Tidy-unless_unhealthy env healthy p.id) (
            Tidy-bind _ _ (Tidy-update_db_status env p.id DbStatus.ready)
              (λ ready. Tidy-unless_gone env ready))))))

-- The calls of a Create behind its insertion, by Docker's answers to the creation of the volume
-- and to the start of the container, and by whether it succeeds.
abbrev pub Left : Plan → ℕ → Option Text → Answer Text → Bool → List Call → List Call → Type 0
Left p port (some m) ran b cs cs' = (b ≡ false) × (cs' ≡ Call.create_volume (volume_of p.id) ∷ cs)
Left p port none (failure m) b cs cs' =
    (b ≡ false)
    × (cs'
        ≡ Call.remove_volume (volume_of p.id)
          ∷ Call.run_database (database_config p port p.type)
          ∷ Call.create_volume (volume_of p.id)
          ∷ cs)
Left p port none (got c) b cs cs' =
    Tidied c (volume_of p.id) b
      (Call.run_database (database_config p port p.type) ∷ Call.create_volume (volume_of p.id) ∷ cs)
      cs'

module _ (env : Env) (p : Plan) (port : ℕ) where
  -- Behind the start of the container.
  behind_run : Answer Text → Exec (Unit {0})
  behind_run ran = do
    container ←
        or_fail_with ran
          (λ _. mark_failed env p.id >> docker_ env (Call.remove_volume (volume_of p.id)))
          (λ _. Error.container_error)
    settle env p port container

  behind_run-Left :
      (ran : Answer Text) (cs : List Call) (u : World)
      → u.calls
        ≡ Call.run_database (database_config p port p.type)
          ∷ Call.create_volume (volume_of p.id)
          ∷ cs
      → Left p port none ran (is_ok (behind_run ran u).0) cs (behind_run ran u).1.calls
  unfolding behind_run docker_ update_db_status update_databases time_now sql
  behind_run-Left (got c) cs u e =
      Tidied-onto c (volume_of p.id) (is_ok (settle env p port c u).0) _ u.calls
        (settle env p port c u).1.calls e ((Tidy-settle env p port c).at u)
  behind_run-Left (failure m) cs u e = elim (Bool-cases (env.db_ok (suc u.tick))) [
    | inl h ↦ rw h (refl, ap (λ l. Call.remove_volume (volume_of p.id) ∷ l) e)
    | inr h ↦ rw h (refl, ap (λ l. Call.remove_volume (volume_of p.id) ∷ l) e)
  ]

  behind_volume : Option Text → Exec (Unit {0})
  behind_volume made = do
    check_none made (λ _. mark_failed env p.id) (λ _. Error.volume_error)
    ran ← docker_text env (Call.run_database (database_config p port p.type))
    behind_run ran

  behind_volume-Left :
      (made : Option Text) (cs : List Call) (u : World)
      → u.calls ≡ Call.create_volume (volume_of p.id) ∷ cs
      → Left p port made
          (env.ask_text u.tick (Call.run_database (database_config p port p.type)))
          (is_ok (behind_volume made u).0)
          cs
          (behind_volume made u).1.calls
  unfolding behind_volume docker_text update_db_status update_databases time_now sql
  behind_volume-Left none cs u e =
      behind_run-Left _ cs _ (ap (λ l. Call.run_database (database_config p port p.type) ∷ l) e)
  behind_volume-Left (some m) cs u e = elim (Bool-cases (env.db_ok (suc u.tick))) [
    | inl h ↦ rw h (refl, e)
    | inr h ↦ rw h (refl, e)
  ]

-- Behind its insertion Create asks Docker for the volume alone if that fails; for the removal of
-- the volume if the container does not start; for the stop and the removal of the container and
-- then the removal of the volume if anything fails later; and on success for nothing but the volume
-- and the container.
pub provision_cleans_up :
    (env : Env) (p : Plan) (port : ℕ) (w : World)
    → Left p port
        (env.act w.tick (Call.create_volume (volume_of p.id)))
        (env.ask_text (suc w.tick) (Call.run_database (database_config p port p.type)))
        (is_ok (provision env p port w).0)
        w.calls
        (provision env p port w).1.calls
unfolding provision docker docker_text behind_volume behind_run
provision_cleans_up env p port w = behind_volume-Left env p port _ w.calls _ refl
