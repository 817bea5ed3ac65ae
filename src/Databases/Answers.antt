-- ===== src/Databases/Answers.antt =====
-- What the handlers of internal/api/databases.go tell their client.
use agentic_paasd.Prelude.{
  ◌≡◌, refl, ℕ, Bool, true, false, none, Text, inl, inr, Bool-cases, find, ◌==◌,
}
use agentic_paasd.Runtime.{Env, World, Result, ok, err, is_ok, sql, query}
use agentic_paasd.Databases.Rows.{owns_db}
use agentic_paasd.Databases.Control.{
  find_database, get_database, get_connection_string, delete_database,
}
use agentic_paasd.Databases.Removal.{
  LeavesDatabases, RowsAfterDelete, delete_database_all_or_nothing,
}
use agentic_paasd.Server.Replies.{status_of, with_manager}
use agentic_paasd.Databases.Handlers.{
  is_missing, row_reply, handle_database_get, handle_database_connection_string,
  handle_database_delete,
}

abbrev pub missing_status : Bool → ℕ
missing_status true = 404
missing_status false = 500

-- To a tenant that has no database of that identifier, Get, ConnectionString and Delete answer
-- 404 where the query succeeds, whoever else has one, and 500 where it fails. In every case
-- nothing is changed and Docker is not called.
pub foreign_database_is_missing :
    (env : Env) (tenant id : Text) (w : World)
    → find (owns_db tenant id) w.db.databases ≡ none
    → let n = missing_status (env.db_ok w.tick) in
      let (r, seen) = handle_database_get env true tenant id w in
      let (s, read) = handle_database_connection_string env true tenant id w in
      let (t, gone) = handle_database_delete env true tenant id w in
      ((status_of r ≡ n) × (status_of s ≡ n) × (status_of t ≡ n))
      × ((seen.db ≡ w.db) × (read.db ≡ w.db) × (gone.db ≡ w.db))
      × ((seen.calls ≡ w.calls) × (read.calls ≡ w.calls) × (gone.calls ≡ w.calls))
unfolding is_missing with_manager handle_database_get handle_database_connection_string
    handle_database_delete delete_database get_connection_string get_database find_database query
    sql
foreign_database_is_missing env tenant id w missing = elim (Bool-cases (env.db_ok w.tick)) [
  | inl e ↦ rw (e, missing) ((refl, refl, refl), (refl, refl, refl), (refl, refl, refl))
  | inr e ↦ rw e ((refl, refl, refl), (refl, refl, refl), (refl, refl, refl))
]

is_ok-row_reply : (r : Result (Unit {0})) → (status_of (row_reply 204 r) == 204) ≡ is_ok r
is_ok-row_reply (ok a) = refl
is_ok-row_reply (err e) = elim (Bool-cases (is_missing e)) [ inl h ↦ rw h refl | inr h ↦ rw h refl ]

-- While Docker works nobody else writes the databases: then an answer of 204 means that the
-- tenant's row is gone, and with every other answer all rows are as before.
pub delete_answer_is_true :
    (env : Env) (has_manager : Bool) (tenant id : Text) (w : World)
    → LeavesDatabases env
    → let (r, w') = handle_database_delete env has_manager tenant id w in
      RowsAfterDelete tenant id (status_of r == 204) w.db.databases w'.db.databases
unfolding handle_database_delete with_manager
delete_answer_is_true env false tenant id w leaves = refl
delete_answer_is_true env true tenant id w leaves =
    rw (is_ok-row_reply (delete_database env tenant id w).0)
      (delete_database_all_or_nothing env tenant id w leaves)
