-- ===== src/Databases/Removal.antt =====
-- Delete: Docker first, and the row only when Docker is clean.
use agentic_paasd.Prelude.{
  ◌≡◌, refl, ◌∙◌, ℕ, Bool, true, false, not, Option, none, some, List, Text, arith, inl, inr,
  Bool-cases, All, All-trivial, All-drop_all-miss, find, is_empty,
}
use agentic_paasd.Store.{Db, Database}
use agentic_paasd.Runtime.{
  Env, World, Call, Error, is_ok, raise, skip, when, sql, query, docker, docker_,
}
use agentic_paasd.Runtime.Keeps.{
  IsPreorder, Keeps, Keeps-bind, Keeps-then, Keeps-when, Keeps-or_fail, Keeps-pure, Keeps-raise,
  Keeps-if,
}
use agentic_paasd.Runtime.Post.{Failsafe, Failsafe-bind, Post, Post-bind}
use agentic_paasd.Databases.Rows.{owns_db}
use agentic_paasd.Databases.Control.{
  container_gone, unless_removed, find_database, get_database, remove_db_container,
  remove_db_volume, delete_db_row, delete_database,
}

-- Nothing else writes the databases while Docker works.
abbrev pub LeavesDatabases : Env → Type 0
LeavesDatabases env = (n : ℕ) (db : Db) → (env.others n db).databases ≡ db.databases

abbrev SameRows : World → World → Type 0
SameRows w w' = w'.db.databases ≡ w.db.databases

SameRows-IsPreorder : IsPreorder SameRows
SameRows-IsPreorder = record { stay = λ w. refl; step = λ u v w p q. q ∙ p }

-- What a deletion ensures of the rows: on success none is left, on failure nothing changed.
abbrev pub RowsAfterDelete : Text → Text → Bool → List Database → List Database → Type 0
RowsAfterDelete tenant id true rows rows' = All (λ d. owns_db tenant id d ≡ false) rows'
RowsAfterDelete tenant id false rows rows' = rows' ≡ rows

module _ (env : Env) where
  SameRows-query : {A : Type 0} (f : Db → A) → Keeps SameRows (query env f)
  unfolding query sql
  SameRows-query f = record { at = λ w. ground arith }

  SameRows-docker : LeavesDatabases env → (c : Call) → Keeps SameRows (docker env c)
  unfolding docker
  SameRows-docker leaves c = record { at = λ w. leaves w.tick w.db }

  SameRows-docker_ : LeavesDatabases env → (c : Call) → Keeps SameRows (docker_ env c)
  unfolding docker_
  SameRows-docker_ leaves c = record { at = λ w. leaves w.tick w.db }

  SameRows-unless_removed :
      (r : Option Text) (gone : Text → Bool) (e : Error) → Keeps SameRows (unless_removed r gone e)
  SameRows-unless_removed none gone e = Keeps-pure SameRows-IsPreorder tt
  SameRows-unless_removed (some m) gone e =
      Keeps-if SameRows-IsPreorder (gone m) skip (raise e) (Keeps-pure SameRows-IsPreorder tt)
        (Keeps-raise SameRows-IsPreorder e)

  SameRows-get_database : (tenant id : Text) → Keeps SameRows (get_database env tenant id)
  unfolding get_database find_database
  SameRows-get_database tenant id =
      let o = SameRows-IsPreorder in
      Keeps-bind o _ _
        (Keeps-bind o _ _ (SameRows-query _) (λ row.
          Keeps-bind o _ _ (Keeps-or_fail o row skip Error.query_failed (Keeps-pure o tt))
            (λ found. Keeps-or_fail o found skip Error.database_not_found (Keeps-pure o tt))))
        (λ d.
          Keeps-bind o _ _
            (Keeps-or_fail o d.container_id skip Error.query_failed (Keeps-pure o tt))
            (λ c. Keeps-pure o (d, c)))

  SameRows-remove_db_container :
      LeavesDatabases env → (c : Text) → Keeps SameRows (remove_db_container env c)
  unfolding remove_db_container
  SameRows-remove_db_container leaves c =
      let o = SameRows-IsPreorder in
      Keeps-then o _ _ (SameRows-docker_ leaves _) (
        Keeps-bind o _ _ (SameRows-docker leaves _)
          (λ r. SameRows-unless_removed r container_gone _))

  SameRows-remove_db_volume :
      LeavesDatabases env → (v : Text) → Keeps SameRows (remove_db_volume env v)
  unfolding remove_db_volume
  SameRows-remove_db_volume leaves v =
      let o = SameRows-IsPreorder in
      Keeps-bind o _ _ (SameRows-docker leaves _) (λ r. SameRows-unless_removed r _ _)

  module _ (tenant id : Text) where
    NoRow : World → Type 0
    NoRow w = All (λ d. owns_db tenant id d ≡ false) w.db.databases

    delete_db_row-Failsafe : Failsafe SameRows (delete_db_row env tenant id)
    unfolding delete_db_row sql
    delete_db_row-Failsafe = record { at = λ w h. ground arith }

    delete_db_row-Post : Post NoRow (delete_db_row env tenant id)
    unfolding delete_db_row sql NoRow
    delete_db_row-Post = record {
      at = λ w h. elim (Bool-cases (env.db_ok w.tick)) [
        | inl e ↦ rw e (
            All-drop_all-miss (owns_db tenant id) w.db.databases (λ d _ miss. miss)
              (All-trivial w.db.databases))
        | inr e ↦ let c : is_ok (delete_db_row env tenant id w).0 ≡ false = ground arith in cc
      ];
    }

    Post-delete : Post NoRow (delete_database env tenant id)
    unfolding delete_database
    Post-delete = Post-bind (get_database env tenant id) _ (λ r.
        Post-bind (when (not (is_empty r.1)) (remove_db_container env r.1)) _ (λ u.
          Post-bind (when (not (is_empty r.0.volume_name)) (remove_db_volume env r.0.volume_name)) _
            (λ v. delete_db_row-Post)))

    Failsafe-delete : LeavesDatabases env → Failsafe SameRows (delete_database env tenant id)
    unfolding delete_database
    Failsafe-delete leaves =
        let o = SameRows-IsPreorder in
        Failsafe-bind o _ _ (SameRows-get_database tenant id) (λ r.
          Failsafe-bind o _ _
            (Keeps-when o (not (is_empty r.1)) _ (SameRows-remove_db_container leaves r.1))
            (λ u.
              Failsafe-bind o _ _
                (Keeps-when o (not (is_empty r.0.volume_name)) _
                  (SameRows-remove_db_volume leaves r.0.volume_name))
                (λ v. delete_db_row-Failsafe)))

-- A Delete of a database that succeeds leaves no row of that tenant with that identifier, and one
-- that fails, at whatever step, leaves every row of the databases as it was, provided that the
-- other goroutines do not write them meanwhile.
pub delete_database_all_or_nothing :
    (env : Env) (tenant id : Text) (w : World)
    → LeavesDatabases env
    → RowsAfterDelete tenant id
        (is_ok (delete_database env tenant id w).0)
        w.db.databases
        (delete_database env tenant id w).1.db.databases
unfolding NoRow
delete_database_all_or_nothing env tenant id w leaves =
    after (is_ok (delete_database env tenant id w).0) refl
  where
    after :
        (b : Bool)
        → is_ok (delete_database env tenant id w).0 ≡ b
        → RowsAfterDelete tenant id b w.db.databases
            (delete_database env tenant id w).1.db.databases
    after true h = (Post-delete env tenant id).at w h
    after false h = (Failsafe-delete env tenant id leaves).at w h

-- A row whose container is still NULL can be neither read nor deleted: Get and Delete fail on it,
-- whatever the database and Docker answer, without a Docker call, and it stays.
pub database_without_container_stays :
    (env : Env) (tenant id : Text) (d : Database) (w : World)
    → find (owns_db tenant id) w.db.databases ≡ some d
    → d.container_id ≡ none
    → (is_ok (get_database env tenant id w).0 ≡ false)
      × (is_ok (delete_database env tenant id w).0 ≡ false)
      × ((delete_database env tenant id w).1.calls ≡ w.calls)
      × ((delete_database env tenant id w).1.db ≡ w.db)
unfolding delete_database get_database find_database query sql
database_without_container_stays env tenant id d w found null =
    elim (Bool-cases (env.db_ok w.tick)) [
      | inl e ↦ rw (e, found, null) (refl, refl, refl, refl)
      | inr e ↦ rw e (refl, refl, refl, refl)
    ]
