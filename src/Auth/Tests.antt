-- ===== src/Auth/Tests.antt =====
-- Requests against a small gate.
use agentic_paasd.Prelude.{
  ℕ, ◌*◌, ◌≡◌, refl, true, none, some, [], ◌∷◌, ◌++◌, Text, codes, any, same, find,
}
use agentic_paasd.Store.{ApiKey, Tenant, TenantStatus}
use agentic_paasd.BoundedMap.{get, put}
use agentic_paasd.Auth.Token.{Token, parse, cut, trim_left, trim_right}
use agentic_paasd.Auth.Cache.{second, cache_get, cache_set, note_seen}
use agentic_paasd.Auth.Gate.{Gate, Request, lookup, resolve, admit, maybe_update, authenticate}
use agentic_paasd.Auth.Keys.{NewKey, ℤ}
use agentic_paasd.Auth.Access.{Step, Reachable, opens_for, is_active_tenant, passed_has_live_key}

-- Stands for HMAC-SHA256.
abbrev sample_hmac : Text → Text → Text
sample_hmac key message = key ++ message

abbrev sample_tenant : Tenant
sample_tenant = record {
  id = codes "t1";
  name = codes "one";
  email = codes "a@b.io";
  status = TenantStatus.active;
  created_at = 1;
  updated_at = 1;
}

abbrev sample_key : ApiKey
sample_key = record {
  id = codes "ab12";
  tenant_id = codes "t1";
  name = codes "ci";
  key_prefix = codes "ab12";
  key_hash = codes "mks3cret";
  created_at = 1;
  last_used_at = none;
  expires_at = some 5000;
  revoked_at = none;
}

abbrev sample_gate : Gate
sample_gate = record {
  tenants = sample_tenant ∷ [];
  keys = sample_key ∷ [];
  cache = [];
  last_seen = [];
}

abbrev sample_request : ℕ → Request
sample_request s = record {
  header = codes "bearer ab12.s3cret";
  looked_up_at = s * second;
  queried_at = s * second;
  cached_at = s * second;
  seen_at = s * second;
  query_ok = true;
  write_ok = true;
  before_store = λ g. record g { last_seen = [] };
}

-- The second of two requests is answered from the cache.
abbrev second_gate : Gate
second_gate = (authenticate sample_hmac (codes "mk") (sample_request 100) sample_gate).1

second_gate-Reachable : Reachable sample_hmac (codes "mk") second_gate
second_gate-Reachable =
    Reachable.next (Reachable.start (sample_tenant ∷ []) (sample_key ∷ []))
      (Step.request (sample_request 100) sample_gate (λ g k e c b. (c, b)))

passed_has_live_key_example :
    (key_id : Text) × (secret : Text) × (parse (codes "bearer ab12.s3cret")
      ≡ Token.token key_id secret)
    × (any
          (opens_for sample_hmac (codes "mk") (sample_request 110) key_id secret (codes "t1"))
          second_gate.keys
        ≡ true)
    × (any (is_active_tenant (codes "t1")) second_gate.tenants ≡ true)
unfolding authenticate parse cut same trim_right trim_left admit resolve cache_get get lookup find
    maybe_update note_seen cache_set put
passed_has_live_key_example =
    passed_has_live_key sample_hmac (codes "mk") (sample_request 110) (codes "t1")
      second_gate-Reachable refl

abbrev new_key : NewKey
new_key = record {
  name = [];
  expires_in = some (ℤ.pos 3600);
  secret = codes "t0psecret";
  key_id = codes "cdef5678";
  now = 100 * second;
  counted = some 1;
  random_ok = true;
  insert_ok = true;
}
