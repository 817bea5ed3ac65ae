-- ===== src/Databases/Least.antt =====
-- What findFreePort finds.
use agentic_paasd.Prelude.{
  keep, sym, ℕ, zero, suc, ◌+◌, ◌≤◌, ◌<◌, ◌≡◌, refl, Bool, true, false, Option, none, some, arith,
  inl, inr, Bool-cases, ltb, ltb→lt, subst,
}
use agentic_paasd.Store.{DbType}
use agentic_paasd.Runtime.{Env, World, Error, or_fail, skip, query, sql, listen_all}
use agentic_paasd.Databases.Rows.{holds_port}
use agentic_paasd.Databases.Ports.{
  first_free, is_free, port_count, min_port, port_found, find_free_port,
}

-- What a scan of `n` ports from `lo` on may answer: the least free one, or that there is none.
abbrev pub IsLeast : (ℕ → Bool) → ℕ → ℕ → Option ℕ → Type 0
IsLeast free n lo (some p) =
    (lo ≤ p) × (p < lo + n) × (free p ≡ true) × ((q : ℕ) → lo ≤ q → q < p → free q ≡ false)
IsLeast free n lo none = (q : ℕ) → lo ≤ q → q < lo + n → free q ≡ false

-- A port from `lo` on is `lo`, or lies behind it.
extend_at :
    (free : ℕ → Bool) (lo q : ℕ)
    → free lo ≡ false
    → (suc lo ≤ q → free q ≡ false)
    → lo ≤ q
    → free q ≡ false
extend_at free lo q busy later a = elim (Bool-cases (ltb lo q)) [
  | inl l ↦ later (ltb→lt lo q l)
  | inr e ↦ subst (λ x. free x ≡ false) (ground arith) busy
]

extend :
    (free : ℕ → Bool) (n lo : ℕ) (r : Option ℕ)
    → free lo ≡ false
    → IsLeast free n (suc lo) r
    → IsLeast free (suc n) lo r
extend free n lo (some p) busy (a, b, c, d) =
    (omega arith, omega arith, c, λ q l r. extend_at free lo q busy (λ m. d q m r) l)
extend free n lo none busy d = λ q l r. extend_at free lo q busy (λ m. d q m (omega arith)) l

scanned :
    (free : ℕ → Bool) (n lo : ℕ) (b : Bool) (r : Option ℕ)
    → free lo ≡ b
    → IsLeast free n (suc lo) r
    → IsLeast free (suc n) lo (elim b [ true ↦ some lo | false ↦ r ])
scanned free n lo true r e h = (omega arith, omega arith, e, λ q a b. absurd (omega arith))
scanned free n lo false r e h = extend free n lo r e h

pub first_free-IsLeast : (free : ℕ → Bool) (n lo : ℕ) → IsLeast free n lo (first_free free n lo)
unfolding first_free
first_free-IsLeast free zero lo = λ q a b. absurd (omega arith)
first_free-IsLeast free (suc n) lo =
    scanned free n lo (free lo) (first_free free n (suc lo)) refl
      (first_free-IsLeast free n (suc lo))

read_back :
    (found : Option ℕ) (w : World) → port_found (or_fail found skip Error.no_ports w).0 ≡ found
read_back none w = refl
read_back (some p) w = refl

-- Where its query succeeds, findFreePort returns the least port of the type's range that no
-- database that has not failed holds and that is open on the host, and fails only if there is
-- none.
pub find_free_port-IsLeast :
    (env : Env) (type : DbType) (w : World)
    → env.db_ok w.tick ≡ true
    → IsLeast
        (is_free (keep holds_port w.db.databases) (env.listens (suc w.tick)))
        (port_count type)
        (min_port type)
        (port_found (find_free_port env type w).0)
unfolding find_free_port query sql listen_all
find_free_port-IsLeast env type w h =
    let free = is_free (keep holds_port w.db.databases) (env.listens (suc w.tick)) in
    let found = first_free free (port_count type) (min_port type) in
    let same_answer : port_found (find_free_port env type w).0 ≡ found =
      rw h (read_back found (record w { tick = suc (suc w.tick) })) in
    subst (λ r. IsLeast free (port_count type) (min_port type) r) (sym same_answer)
      (first_free-IsLeast free (port_count type) (min_port type))
