-- ===== src/Auth/Gate.antt =====
-- The request path of `Auth` in internal/middleware/auth.go. The code holds no lock between its
-- query and `cache.set`: what the other goroutines do in that gap is an argument, as a function on
-- the tables and on the memory of the middleware. The lookup in the cache and a query behind it are
-- one step, as a lookup that misses changes nothing.
use agentic_paasd.Prelude.{
  ℕ, Bool, true, false, ◌&&◌, Option, none, some, List, Text, same, find, update, ltb,
  if◌then◌else◌, is_none,
}
use agentic_paasd.Store.{ApiKey, Tenant, is_active}
use agentic_paasd.Auth.Token.{Refusal, Token, parse}
use agentic_paasd.Auth.Cache.{
  Entry, Cache, LastSeen, unix, cache_get, cache_set, invalidate_key, note_seen,
}

-- crypto.HashAPIKey, with HMAC-SHA256 in hex as a parameter.
abbrev pub hash_api_key : (Text → Text → Text) → Text → Text → Text
hash_api_key hmac key secret = hmac secret key

-- crypto.VerifyAPIKey
abbrev pub verify_api_key : (Text → Text → Text) → Text → Text → Text → Bool
verify_api_key hmac stored_hash key secret = same stored_hash (hash_api_key hmac key secret)

-- The tables that a request reads, and the memory of the middleware.
pub record Gate : Type 0 where
  pub tenants : List Tenant
  pub keys : List ApiKey
  pub cache : Cache
  pub last_seen : LastSeen

-- A request: its header, the clock at its readings, whether the database answers, and what the
-- others do between its query and cache.set.
pub record Request : Type 0 where
  pub header : Text
  pub looked_up_at : ℕ
  pub queried_at : ℕ
  pub cached_at : ℕ
  pub seen_at : ℕ
  pub query_ok : Bool
  pub write_ok : Bool
  pub before_store : Gate → Gate

pub data Outcome : Type 0 where
  denied : Refusal → Outcome
  -- next.ServeHTTP with the tenant in the context
  passed : Text → Outcome

abbrev pub has_id : Text → ApiKey → Bool
has_id key_id k = same k.id key_id

abbrev pub is_tenant : Text → Tenant → Bool
is_tenant tenant t = same t.id tenant

-- expires_at IS NULL OR expires_at > ?
abbrev pub is_unexpired : ℕ → Option ℕ → Bool
is_unexpired now none = true
is_unexpired now (some e) = ltb now e

abbrev pub is_live : ℕ → ApiKey → Bool
is_live now k = is_none k.revoked_at && is_unexpired now k.expires_at

abbrev pub is_usable : Text → ℕ → ApiKey → Bool
is_usable key_id now k = has_id key_id k && is_live now k

-- The row of the SELECT that joins api_keys to tenants, as the entry that is cached.
unfoldable pub lookup : List Tenant → List ApiKey → Text → ℕ → ℕ → Option Entry
lookup tenants keys key_id now cached_at = elim (find (is_usable key_id now) keys) [
  | none ↦ none
  | some k ↦ elim (find (is_tenant k.tenant_id) tenants) [
    | none ↦ none
    | some t ↦ some (record {
      tenant_id = k.tenant_id;
      key_hash = k.key_hash;
      status = t.status;
      expires_at = k.expires_at;
      cached_at = cached_at;
    })
  ]
]

-- time.Now().Unix() > *cached.expiresAt
abbrev pub has_expired : ℕ → Option ℕ → Bool
has_expired now none = false
has_expired now (some e) = ltb e now

pub data Found : Type 0 where
  refusal : Refusal → Gate → Found
  entry : Entry → Gate → Found

abbrev pub with_cache : Cache → Gate → Gate
with_cache c g = record g { cache = c }

-- cache.set, in the state that the others have left.
abbrev pub store_entry : Text → Entry → Gate → Gate
store_entry key_id e g = with_cache (cache_set key_id e g.cache) g

abbrev pub from_query : Request → Text → Gate → Option Entry → Found
from_query r key_id g none = Found.refusal Refusal.invalid_key g
from_query r key_id g (some e) = Found.entry e (store_entry key_id e (r.before_store g))

abbrev pub resolve_hit : Request → Text → Gate → Option Entry → Found
resolve_hit r key_id g (some e) =
    if has_expired (unix r.queried_at) e.expires_at
    then Found.refusal Refusal.invalid_key (with_cache (invalidate_key key_id g.cache) g)
    else Found.entry e g
resolve_hit r key_id g none =
    if r.query_ok
    then from_query r key_id g (lookup g.tenants g.keys key_id (unix r.queried_at) r.cached_at)
    else Found.refusal Refusal.unavailable g

-- The cache first, then the database.
unfoldable pub resolve : Request → Text → Gate → Found
resolve r key_id g = resolve_hit r key_id g (cache_get r.looked_up_at key_id g.cache)

abbrev pub set_last_used : ℕ → ApiKey → ApiKey
set_last_used now k = record k { last_used_at = some now }

-- lastUsedTracker.maybeUpdate with its write, whose failure is logged.
abbrev pub seen_update : Request → Text → Gate → Option LastSeen → Gate
seen_update r key_id g none = g
seen_update r key_id g (some m) = record g {
  keys =
      if r.write_ok then update (has_id key_id) (set_last_used (unix r.seen_at)) g.keys else g.keys;
  last_seen = m;
}

unfoldable pub maybe_update : Request → Text → Gate → Gate
maybe_update r key_id g = seen_update r key_id g (note_seen r.seen_at key_id g.last_seen)

abbrev pub admits : (Text → Text → Text) → Text → Text → Entry → Bool
admits hmac master_key secret e =
    is_active e.status && verify_api_key hmac e.key_hash secret master_key

unfoldable pub admit : (Text → Text → Text) → Text → Request → Text → Text → Found → Outcome × Gate
admit hmac master_key r key_id secret (Found.refusal why g) = (Outcome.denied why, g)
admit hmac master_key r key_id secret (Found.entry e g) =
    if admits hmac master_key secret e
    then (Outcome.passed e.tenant_id, maybe_update r key_id g)
    else (Outcome.denied Refusal.invalid_key, g)

abbrev pub authenticate_token :
    (Text → Text → Text) → Text → Request → Gate → Token → Outcome × Gate
authenticate_token hmac master_key r g (Token.refused why) = (Outcome.denied why, g)
authenticate_token hmac master_key r g (Token.token key_id secret) =
    admit hmac master_key r key_id secret (resolve r key_id g)

unfoldable pub authenticate : (Text → Text → Text) → Text → Request → Gate → Outcome × Gate
authenticate hmac master_key r g = authenticate_token hmac master_key r g (parse r.header)
