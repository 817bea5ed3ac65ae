-- ===== src/Auth/Cache.antt =====
-- `authCache` and `lastUsedTracker` of internal/middleware/auth.go. Times are nanoseconds.
use agentic_paasd.Prelude.{
  ℕ, ◌-◌, ◌*◌, ◌/◌, Bool, false, Option, none, some, List, Text, same, drop_all, ltb, if◌then◌else◌,
  is_none,
}
use agentic_paasd.Store.{TenantStatus}
use agentic_paasd.BoundedMap.{get, put, delete, evict}

abbrev pub second : ℕ
second = 1000000000

abbrev pub unix : ℕ → ℕ
unix t = t / second

abbrev pub auth_cache_ttl : ℕ
auth_cache_ttl = 30 * second

abbrev pub auth_cache_max_keys : ℕ
auth_cache_max_keys = 5000

abbrev pub last_used_interval : ℕ
last_used_interval = 300 * second

abbrev pub last_used_max_keys : ℕ
last_used_max_keys = 10000

-- authCacheEntry
pub record Entry : Type 0 where
  pub tenant_id : Text
  pub key_hash : Text
  pub status : TenantStatus
  pub expires_at : Option ℕ
  pub cached_at : ℕ

abbrev pub Cache : Type 0
Cache = List (Text × Entry)

abbrev pub is_stale : ℕ → Entry → Bool
is_stale now e = ltb auth_cache_ttl (now - e.cached_at)

-- authCache.get
unfoldable pub cache_get : ℕ → Text → Cache → Option Entry
cache_get now key_id c = elim (get key_id c) [
  | none ↦ none
  | some e ↦ if is_stale now e then none else some e
]

-- authCache.set
unfoldable pub cache_set : Text → Entry → Cache → Cache
cache_set key_id e c = put key_id e (evict auth_cache_max_keys (λ v. v.cached_at) c)

-- authCache.invalidate, which InvalidateKey calls
unfoldable pub invalidate_key : Text → Cache → Cache
invalidate_key key_id c = delete key_id c

abbrev pub is_cached_for : Text → Text × Entry → Bool
is_cached_for tenant e = same e.1.tenant_id tenant

unfoldable pub invalidate_tenant : Text → Cache → Cache
invalidate_tenant tenant c = drop_all (is_cached_for tenant) c

-- One turn of the goroutine of newAuthCache.
unfoldable pub sweep_cache : ℕ → Cache → Cache
sweep_cache now c = drop_all (λ e. is_stale now e.1) c

abbrev pub LastSeen : Type 0
LastSeen = List (Text × ℕ)

abbrev pub is_recent : ℕ → Option ℕ → Bool
is_recent now none = false
is_recent now (some last) = ltb (now - last) last_used_interval

-- lastUsedTracker.maybeUpdate up to its write: the new map, or none where the key was seen recently.
unfoldable pub note_seen : ℕ → Text → LastSeen → Option LastSeen
note_seen now key_id m =
    let last = get key_id m in
    if is_recent now last
    then none
    else some (put key_id now (if is_none last then evict last_used_max_keys (λ t. t) m else m))

-- One turn of the goroutine of newLastUsedTracker.
unfoldable pub sweep_seen : ℕ → LastSeen → LastSeen
sweep_seen now m = drop_all (λ e. ltb e.1 (now - 86400 * second)) m
