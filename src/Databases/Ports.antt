-- ===== src/Databases/Ports.antt =====
-- findFreePort of internal/databases/databases.go.
use agentic_paasd.Prelude.{
  ℕ, zero, suc, Bool, true, false, not, ◌&&◌, Option, none, some, List, any, keep, ◌==◌,
}
use agentic_paasd.Store.{Database, DbType}
use agentic_paasd.Runtime.{
  Env, Exec, Error, Result, ok, err, ◌>>=◌, or_fail, skip, query, listen_all,
}
use agentic_paasd.Databases.Rows.{holds_port}

abbrev pub min_port : DbType → ℕ
min_port DbType.postgres = 5432
min_port DbType.redis = 6379

-- maxPort - minPort + 1: up to 6000 and up to 7000.
abbrev pub port_count : DbType → ℕ
port_count DbType.postgres = 569
port_count DbType.redis = 622

-- The loop over the ports, `n` of them left.
unfoldable pub first_free : (ℕ → Bool) → ℕ → ℕ → Option ℕ
first_free free zero port = none
first_free free (suc n) port = elim (free port) [
  | true ↦ some port
  | false ↦ first_free free n (suc port)
]

-- Not in usedPorts, and nothing on the host listens there.
abbrev pub is_free : List Database → (ℕ → Bool) → ℕ → Bool
is_free rows listens port = not (any (λ d. d.port == port) rows) && listens port

module _ (env : Env) where
  unfoldable pub find_free_port : DbType → Exec ℕ
  find_free_port type = do
    rows ← query env (λ db. keep holds_port db.databases)
    used ← or_fail rows skip Error.query_failed
    listens ← listen_all env
    or_fail (first_free (is_free used listens) (port_count type) (min_port type)) skip
        Error.no_ports

abbrev pub port_found : Result ℕ → Option ℕ
port_found (ok port) = some port
port_found (err e) = none
