-- ===== src/Registration/Handler.antt =====
-- handleTenantRegister of internal/api/tenants.go. A Boolean says whether a statement on the
-- database succeeds; the random identifiers are arguments.
use agentic_paasd.Prelude.{
  ℕ, ◌+◌, ◌/◌, Bool, not, ◌&&◌, ◌||◌, Option, none, some, List, [], ◌∷◌, ◌++◌, Text, codes, same,
  is_empty, length, any, count, ltb, leb, if◌then◌else◌,
}
use agentic_paasd.Store.{Db, Tenant, TenantStatus, Quota, ApiKey, is_active}
use agentic_paasd.Auth.Token.{trim_space}
use agentic_paasd.Auth.Cache.{second, unix}
use agentic_paasd.Auth.Gate.{hash_api_key, is_tenant}
use agentic_paasd.Auth.Keys.{api_token, is_taken, take_prefix}
use agentic_paasd.Registration.Limit.{RegistrationLimiter, Verdict, allow}
use agentic_paasd.Registration.Email.{email_matches}

abbrev pub max_tenants : ℕ
max_tenants = 1000

-- The server's settings, with HMAC-SHA256 in hex.
pub record Config : Type 0 where
  pub open_registration : Bool
  pub bootstrap_token : Text
  pub master_key : Text
  pub hmac : Text → Text → Text

pub data Body : Type 0 where
  undecodable : Body
  decoded : Text → Text → Body

pub record Request : Type 0 where
  pub at : ℕ
  pub ip : Text
  pub provided_token : Text
  pub body : Body
  pub stored_at : ℕ
  pub count_ok : Bool
  pub tenant_id : Option Text
  pub begin_ok : Bool
  pub tenant_ok : Bool
  pub quota_ok : Bool
  -- the secret and the identifier that GenerateAPIKeyWithID returns
  pub generated : Option (Text × Text)
  pub key_ok : Bool
  pub commit_ok : Bool

pub data Answer : Type 0 where
  failed : ℕ → Answer
  bad_body : Answer
  -- with Retry-After in seconds
  too_many : ℕ → Answer
  registered : Text → Text → Answer

-- hmacEqual
abbrev pub hmac_equal : (Text → Text → Text) → Text → Text → Text → Bool
hmac_equal hmac a b key = same (hmac key a) (hmac key b)

-- int(math.Ceil(wait.Seconds())), at least 1
abbrev pub retry_after : ℕ → ℕ
retry_after wait = let secs = (wait + 999999999) / second in if ltb secs 1 then 1 else secs

abbrev pub is_active_row : Tenant → Bool
is_active_row t = is_active t.status

abbrev pub new_tenant : Text → Text → Text → ℕ → Tenant
new_tenant id name email now = record {
  id = id;
  name = name;
  email = email;
  status = TenantStatus.active;
  created_at = now;
  updated_at = now;
}

-- The defaults of the table tenant_quotas.
abbrev pub default_quota : Text → Quota
default_quota id = record {
  tenant_id = id;
  max_services = 5;
  max_memory_mb = 2048;
  max_nano_cpus = 2000000000;
}

abbrev pub first_key : Config → Text → Text → Text → ℕ → ApiKey
first_key c tenant secret key_id now = record {
  id = key_id;
  tenant_id = tenant;
  name = codes "default";
  key_prefix = take_prefix 8 key_id;
  key_hash = hash_api_key c.hmac secret c.master_key;
  created_at = now;
  last_used_at = none;
  expires_at = none;
  revoked_at = none;
}

-- The identifier and the email of a tenant are unique.
abbrev pub is_tenant_taken : Text → Text → List Tenant → Bool
is_tenant_taken id email rows = any (λ t. is_tenant id t || same t.email email) rows

abbrev pub has_quota : Text → Quota → Bool
has_quota tenant q = same q.tenant_id tenant

-- The transaction from the key on; what fails is rolled back.
abbrev pub insert_first_key :
    Config → Request → Text → Text → Text → Db → Option (Text × Text) → Answer × Db
insert_first_key c r id name email db none = (failed 500, db)
insert_first_key c r id name email db (some (secret, key_id)) =
    if ltb (length key_id) 8
    then (failed 500, db)
    else if not (r.key_ok && not (is_taken key_id db.keys))
    then (failed 500, db)
    else if not r.commit_ok
    then (failed 500, db)
    else (
      registered id (api_token key_id secret),
      record db {
        tenants = db.tenants ++ new_tenant id name email (unix r.stored_at) ∷ [];
        quotas = db.quotas ++ default_quota id ∷ [];
        keys = db.keys ++ first_key c id secret key_id (unix r.stored_at) ∷ [];
      },
    )

abbrev pub insert_tenant : Config → Request → Text → Text → Db → Option Text → Answer × Db
insert_tenant c r name email db none = (failed 500, db)
insert_tenant c r name email db (some id) =
    if not r.begin_ok
    then (failed 500, db)
    else if not (r.tenant_ok && not (is_tenant_taken id email db.tenants))
    then (failed 422, db)
    else if not (r.quota_ok && not (any (has_quota id) db.quotas))
    then (failed 500, db)
    else insert_first_key c r id name email db r.generated

-- From the decoding of the body on.
abbrev pub register : Config → Request → Db → Body → Answer × Db
register c r db undecodable = (bad_body, db)
register c r db (decoded name email) =
    if ltb (length name) 2 || ltb 128 (length name)
    then (failed 400, db)
    else if not (email_matches email) || ltb 256 (length email)
    then (failed 400, db)
    else if not r.count_ok
    then (failed 500, db)
    else if leb max_tenants (count is_active_row db.tenants)
    then (failed 403, db)
    else insert_tenant c r name email db r.tenant_id

-- The bootstrap token, unless registration is open.
abbrev pub check_token : Config → Request → Db → Answer × Db
check_token c r db =
    if c.open_registration
    then register c r db r.body
    else if is_empty c.bootstrap_token
    then (failed 503, db)
    else if hmac_equal c.hmac (trim_space r.provided_token) c.bootstrap_token c.master_key
    then register c r db r.body
    else (failed 401, db)

abbrev pub after_verdict : Config → Request → Db → Verdict → Answer × Db
after_verdict c r db (Verdict.blocked wait) = (too_many (retry_after wait), db)
after_verdict c r db Verdict.allowed = check_token c r db

unfoldable pub handle_tenant_register :
    Config → Request → RegistrationLimiter → Db → (Answer × Db) × RegistrationLimiter
handle_tenant_register c r rl db =
    let (v, rl') = allow r.at r.ip rl in (after_verdict c r db v, rl')
