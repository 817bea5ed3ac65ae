-- ===== src/Auth/Keys.antt =====
-- What changes the keys and the tenants: handleKeyCreate and handleKeyRevoke of
-- internal/api/auth.go, handleTenantRegister (from its insertions on) and handleTenantDelete of
-- internal/api/tenants.go. A Boolean says whether a statement on the database succeeds; the
-- random identifiers are arguments.
use agentic_paasd.Prelude.{
  ℕ, zero, suc, ◌+◌, ◌*◌, Bool, not, ◌&&◌, Option, none, some, List, [], ◌∷◌, ◌++◌, Text, codes,
  same, is_empty, length, count, any, update, ltb, leb, ◌==◌, if◌then◌else◌, is_none,
}
use agentic_paasd.Store.{ApiKey, Tenant, TenantStatus}
use agentic_paasd.Auth.Cache.{invalidate_key, invalidate_tenant, unix}
use agentic_paasd.Auth.Gate.{Gate, has_id, is_tenant, hash_api_key}

-- An int64 of a JSON body.
pub data ℤ : Type 0 where
  pos negsuc : ℕ → ℤ

pub data Answer : Type 0 where
  -- the status code of an error
  failed : ℕ → Answer
  -- 201, with the token that the client receives
  created : Text → Answer
  no_content : Answer

abbrev pub max_keys_per_tenant : ℕ
max_keys_per_tenant = 20

abbrev pub max_expires_in : ℕ
max_expires_in = 10 * 365 * 24 * 3600

abbrev pub is_own_live_key : Text → ApiKey → Bool
is_own_live_key tenant k = same k.tenant_id tenant && is_none k.revoked_at

-- apiKeys.id is the primary key.
abbrev pub is_taken : Text → List ApiKey → Bool
is_taken key_id keys = any (has_id key_id) keys

abbrev pub take_prefix : ℕ → Text → Text
take_prefix zero s = []
take_prefix (suc n) [] = []
take_prefix (suc n) (x ∷ s) = x ∷ take_prefix n s

pub data Expiry : Type 0 where
  rejected : Expiry
  accepted : Option ℕ → Expiry

-- The checks of expires_in.
abbrev pub check_expiry : Option ℤ → Expiry
check_expiry none = accepted none
check_expiry (some (ℤ.negsuc n)) = rejected
check_expiry (some (ℤ.pos n)) =
    if n == 0 then rejected else if ltb max_expires_in n then rejected else accepted (some n)

abbrev pub expires_after : ℕ → Option ℕ → Option ℕ
expires_after now none = none
expires_after now (some n) = some (now + n)

pub record NewKey : Type 0 where
  pub name : Text
  pub expires_in : Option ℤ
  pub secret : Text
  pub key_id : Text
  pub now : ℕ
  pub counted : Option ℕ  -- the answer of its COUNT, which others may outdate before the INSERT
  pub random_ok : Bool
  pub insert_ok : Bool

abbrev pub with_keys : List ApiKey → Gate → Gate
with_keys ks g = record g { keys = ks }

abbrev pub api_token : Text → Text → Text
api_token key_id secret = key_id ++ 46 ∷ secret

abbrev pub key_row : (Text → Text → Text) → Text → Text → NewKey → Option ℕ → ApiKey
key_row hmac master_key tenant r expires = record {
  id = r.key_id;
  tenant_id = tenant;
  name = if is_empty r.name then codes "unnamed" else r.name;
  key_prefix = take_prefix 8 r.key_id;
  key_hash = hash_api_key hmac r.secret master_key;
  created_at = unix r.now;
  last_used_at = none;
  expires_at = expires;
  revoked_at = none;
}

-- The INSERT fails where the database does and where the identifier is taken.
abbrev pub insert_key :
    (Text → Text → Text) → Text → Text → NewKey → Option ℕ → Gate → Answer × Gate
insert_key hmac master_key tenant r expires g =
    if r.insert_ok && not (is_taken r.key_id g.keys)
    then (
      created (api_token r.key_id r.secret),
      with_keys (g.keys ++ key_row hmac master_key tenant r expires ∷ []) g,
    )
    else (failed 500, g)

-- SELECT COUNT(*) FROM api_keys WHERE tenant_id = ? AND revoked_at IS NULL
abbrev pub live_keys : Text → Gate → ℕ
live_keys tenant g = count (is_own_live_key tenant) g.keys

-- Behind the count.
abbrev pub create_counted :
    (Text → Text → Text) → Text → Text → NewKey → Gate → Option ℕ → Option ℕ → Answer × Gate
create_counted hmac master_key tenant r g seconds none = (failed 500, g)
create_counted hmac master_key tenant r g seconds (some n) =
    if leb max_keys_per_tenant n
    then (failed 403, g)
    else if not r.random_ok
    then (failed 500, g)
    else if ltb (length r.key_id) 8
    then (failed 500, g)
    else insert_key hmac master_key tenant r (expires_after (unix r.now) seconds) g

-- handleKeyCreate from its count on; the count and the insertion are two statements without a
-- transaction, so that the count is an argument of its own.
abbrev pub create_accepted :
    (Text → Text → Text) → Text → Text → NewKey → Gate → Expiry → Answer × Gate
create_accepted hmac master_key tenant r g rejected = (failed 400, g)
create_accepted hmac master_key tenant r g (accepted seconds) =
    create_counted hmac master_key tenant r g seconds r.counted

unfoldable pub handle_key_create :
    (Text → Text → Text) → Text → Text → NewKey → Gate → Answer × Gate
handle_key_create hmac master_key tenant r g =
    create_accepted hmac master_key tenant r g (check_expiry r.expires_in)

abbrev pub set_revoked : ℕ → ApiKey → ApiKey
set_revoked now k = record k { revoked_at = some now }

abbrev pub is_own_live_id : Text → Text → ApiKey → Bool
is_own_live_id key_id tenant k = has_id key_id k && is_own_live_key tenant k

unfoldable pub handle_key_revoke : Bool → ℕ → Text → Text → Gate → Answer × Gate
handle_key_revoke ok now tenant key_id g =
    if not ok
    then (failed 500, g)
    else if any (is_own_live_id key_id tenant) g.keys
    then (
      no_content,
      record g {
        keys = update (is_own_live_id key_id tenant) (set_revoked (unix now)) g.keys;
        cache = invalidate_key key_id g.cache;
      },
    )
    else (failed 404, g)

abbrev pub suspend : ℕ → Tenant → Tenant
suspend now t = record t { status = TenantStatus.suspended; updated_at = now }

-- The transaction of handleTenantDelete, each statement of which may fail, then the eviction; the
-- code goes on to Services.Control.stop_all_for_tenant.
unfoldable pub handle_tenant_delete :
    (begin_ok suspend_ok revoke_ok commit_ok : Bool) → ℕ → Text → Gate → Answer × Gate
handle_tenant_delete begin_ok suspend_ok revoke_ok commit_ok now tenant g =
    if not (begin_ok && suspend_ok)
    then (failed 500, g)
    else if not (any (is_tenant tenant) g.tenants)
    then (failed 404, g)
    else if not (revoke_ok && commit_ok)
    then (failed 500, g)
    else (
      no_content,
      record g {
        tenants = update (is_tenant tenant) (suspend (unix now)) g.tenants;
        keys = update (is_own_live_key tenant) (set_revoked (unix now)) g.keys;
        cache = invalidate_tenant tenant g.cache;
      },
    )
