-- ===== src/Databases/Control.antt =====
-- Get, List, GetConnectionString, Delete and ReconcileStale of internal/databases/databases.go.
use agentic_paasd.Prelude.{
  Bool, true, false, not, ◌&&◌, ◌||◌, Option, none, some, List, Text, codes, is_empty, contains,
  find, keep, drop_all, same, if◌then◌else◌,
}
use agentic_paasd.Store.{Database, DbStatus, set_databases, is_provisioning, text_of}
use agentic_paasd.Runtime.{
  Env, Exec, Error, Call, ◌>>=◌, ◌>>◌, pure, raise, when, or_fail, or_fail_with, skip, ignore, sql,
  query, docker, docker_, for_each,
}
use agentic_paasd.Databases.Rows.{owns_db, update_db_status}

-- An error of Docker's that says that the container is gone.
unfoldable pub container_gone : Text → Bool
container_gone m = contains m (codes "No such container") || contains m (codes "not found")

unfoldable pub volume_gone : Text → Bool
volume_gone m = contains m (codes "no such volume") || contains m (codes "not found")

-- Scan of container_id into a string: a NULL is an error.
abbrev pub scan_container : Database → Exec Text
scan_container d = or_fail d.container_id skip Error.query_failed

abbrev pub unless_removed : Option Text → (Text → Bool) → Error → Exec (Unit {0})
unless_removed none gone e = skip
unless_removed (some m) gone e = if gone m then skip else raise e

-- A row of ReconcileStale that Scan accepts.
abbrev pub scans : Database → Bool
scans d = elim d.container_id [ none ↦ false | some c ↦ true ]

module _ (env : Env) where
  unfoldable pub find_database : Text → Text → Exec Database
  find_database tenant id = do
    row ← query env (λ db. find (owns_db tenant id) db.databases)
    found ← or_fail row skip Error.query_failed
    or_fail found skip Error.database_not_found

  unfoldable pub get_database : Text → Text → Exec (Database × Text)
  get_database tenant id = do
    d ← find_database tenant id
    container ← scan_container d
    pure (d, container)

  -- ORDER BY created_at DESC is left to the database; the columns it reads are never NULL.
  unfoldable pub list_databases : Text → Exec (List Database)
  list_databases tenant = do
    rows ← query env (λ db. keep (λ (d : Database). same d.tenant_id tenant) db.databases)
    or_fail rows skip Error.list_failed

  unfoldable pub get_connection_string : Text → Text → Exec Text
  get_connection_string tenant id = do
    d ← find_database tenant id
    or_fail_with (env.decrypt d.connection_string_encrypted) ignore Error.decrypt_error

  unfoldable pub remove_db_container : Text → Exec (Unit {0})
  remove_db_container container = do
    docker_ env (Call.stop_container container)
    removed ← docker env (Call.remove_container container)
    unless_removed removed container_gone Error.container_removal

  unfoldable pub remove_db_volume : Text → Exec (Unit {0})
  remove_db_volume volume = do
    removed ← docker env (Call.remove_volume volume)
    unless_removed removed volume_gone Error.volume_removal

  -- DELETE FROM databases
  unfoldable pub delete_db_row : Text → Text → Exec (Unit {0})
  delete_db_row tenant id = do
    gone ← sql env (λ db. (tt, set_databases (drop_all (owns_db tenant id) db.databases) db))
    or_fail gone skip Error.delete_failed

  unfoldable pub delete_database : Text → Text → Exec (Unit {0})
  delete_database tenant id = do
    (d, container) ← get_database tenant id
    when (not (is_empty container)) (remove_db_container container)
    when (not (is_empty d.volume_name)) (remove_db_volume d.volume_name)
    delete_db_row tenant id

  -- One row of ReconcileStale.
  unfoldable pub reconcile_row : Database → Exec (Unit {0})
  reconcile_row d = do
    when (not (is_empty (text_of d.container_id))) (do
      docker_ env (Call.stop_container (text_of d.container_id))
      docker_ env (Call.remove_container (text_of d.container_id)))
    when (not (is_empty d.volume_name)) (docker_ env (Call.remove_volume d.volume_name))
    _ ← update_db_status env d.id DbStatus.db_failed
    skip

  abbrev pub reconcile_rows : Option (List Database) → Exec (Unit {0})
  reconcile_rows none = skip
  reconcile_rows (some rows) = for_each rows reconcile_row

  -- The rows that Scan refuses are left out.
  unfoldable pub reconcile_stale : Exec (Unit {0})
  reconcile_stale = do
    rows ←
        query env (λ db. keep (λ (d : Database). is_provisioning d.status && scans d) db.databases)
    reconcile_rows rows
