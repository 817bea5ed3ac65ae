-- ===== src/Databases/Rows.antt =====
-- The statements on the table of databases, and the texts that internal/databases/databases.go
-- puts together.
use agentic_paasd.Prelude.{
  ℕ, zero, suc, ◌+◌, ◌/◌, ◌%◌, Bool, true, false, ◌&&◌, ◌||◌, not, ◌++◌, Option, some, [], ◌∷◌,
  Text, codes, same, any, count, update, ltb, take, ◌==◌, if◌then◌else◌,
}
use agentic_paasd.Store.{Db, Database, DbStatus, DbType, set_databases, is_db_failed}
use agentic_paasd.Runtime.{Env, Exec, ◌>>=◌, ◌>>◌, pure, sql, time_now, docker_, Call}

-- WHERE id = ?
abbrev pub has_db_id : Text → Database → Bool
has_db_id id d = same d.id id

-- WHERE id = ? AND tenant_id = ?
abbrev pub owns_db : Text → Text → Database → Bool
owns_db tenant id d = same d.id id && same d.tenant_id tenant

-- WHERE tenant_id = ? AND status != 'failed'
abbrev pub counts_for : Text → Database → Bool
counts_for tenant d = same d.tenant_id tenant && not (is_db_failed d.status)

-- WHERE status NOT IN ('failed')
abbrev pub holds_port : Database → Bool
holds_port d = not (is_db_failed d.status)

abbrev pub set_db_status : DbStatus → ℕ → Database → Database
set_db_status status now d = record d { status = status; updated_at = now }

abbrev pub set_container : Text → ℕ → Database → Database
set_container container now d = record d { container_id = some container; updated_at = now }

-- The primary key and the unique index on the ports of the databases that have not failed.
abbrev pub refused : Database → Database → Bool
refused row d = same d.id row.id || (holds_port d && d.port == row.port)

-- INSERT INTO databases: `false` is "UNIQUE constraint failed".
unfoldable pub insert_row : Database → Db → Bool × Db
insert_row row db =
    if any (refused row) db.databases
    then (false, db)
    else (true, set_databases (db.databases ++ row ∷ []) db)

unfoldable pub put_decimal : ℕ → ℕ → Text → Text
put_decimal zero n acc = acc
put_decimal (suc fuel) n acc = elim (ltb n 10) [
  | true ↦ (b'0' + n) ∷ acc
  | false ↦ put_decimal fuel (n / 10) ((b'0' + n % 10) ∷ acc)
]

-- %d
unfoldable pub decimal : ℕ → Text
decimal n = put_decimal (suc n) n []

-- "ah-db-%s"
unfoldable pub volume_of : Text → Text
volume_of id = codes "ah-db-" ++ id

-- "ah-db-%s-%s" with tenantID[:8] and id[:16]; the identifiers are 32 hexadecimal digits.
unfoldable pub database_container : Text → Text → Text
database_container tenant id = codes "ah-db-" ++ (take 8 tenant ++ (codes "-" ++ take 16 id))

abbrev pub db_name_of : DbType → Text
db_name_of DbType.postgres = codes "ah"
db_name_of DbType.redis = []

unfoldable pub connection_string : DbType → Text → ℕ → Text
connection_string DbType.postgres password port =
    codes "postgres://ah:"
    ++ (password ++ (codes "@127.0.0.1:" ++ (decimal port ++ codes "/ah?sslmode=disable")))
connection_string DbType.redis password port =
    codes "redis://:" ++ (password ++ (codes "@127.0.0.1:" ++ (decimal port ++ codes "/0")))

-- err == nil and RowsAffected is not 0
abbrev pub affected : Option ℕ → Bool
affected (some (suc n)) = true
affected _ = false

module _ (env : Env) where
  unfoldable pub update_databases : (Database → Bool) → (Database → Database) → Exec (Option ℕ)
  update_databases p f =
      sql env (λ db. (count p db.databases, set_databases (update p f db.databases) db))

  unfoldable pub update_db_status : Text → DbStatus → Exec Bool
  update_db_status id status = do
    now ← time_now env
    rows ← update_databases (has_db_id id) (set_db_status status now)
    pure (affected rows)

  -- What every way out behind the container's start does to Docker.
  unfoldable pub clean_up : Text → Text → Exec (Unit {0})
  clean_up container volume = do
    docker_ env (Call.stop_container container)
    docker_ env (Call.remove_container container)
    docker_ env (Call.remove_volume volume)
