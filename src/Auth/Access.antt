-- ===== src/Auth/Access.antt =====
-- Who gets in: requests, registrations, key creations, revocations, suspensions and sweeps as steps
-- in any order, and what the tables hold when a request passes.
use agentic_paasd.Prelude.{
  ℕ, ◌≡◌, refl, ap, subst, Bool, true, false, not, ◌&&◌, Option, none, some, List, [], Text, same,
  same_trans, any, any-imp, arith, is_none, Bool-cases, inl, inr,
}
use agentic_paasd.Store.{Db, ApiKey, Tenant, TenantStatus, is_active}
use agentic_paasd.Registration.Limit.{RegistrationLimiter}
use agentic_paasd.Registration.Handler.{Config, Request as Registration, handle_tenant_register}
use agentic_paasd.Registration.Enrolled.{handle_tenant_register-AllBacked}
use agentic_paasd.Auth.Token.{Token, parse}
use agentic_paasd.Auth.Cache.{Entry, sweep_cache, sweep_seen, unix}
use agentic_paasd.Auth.Gate.{
  Gate, Request, Outcome, Found, has_id, is_tenant, resolve, admits, admit, authenticate,
  authenticate_token, has_expired, verify_api_key,
}
use agentic_paasd.Auth.Keys.{NewKey, handle_key_create, handle_key_revoke, handle_tenant_delete}
use agentic_paasd.Auth.Backing.{backs, backs_tenant, same_expiry, same_status}
use agentic_paasd.Auth.Coherent.{
  Coherent, Undisturbed, Resolved, resolve_hit-Resolved, authenticate-Coherent, create-Coherent,
  revoke-Coherent, suspend-Coherent, sweep-Coherent,
}

-- handleTenantRegister on the gate's tables.
abbrev pub enrolled : Config → Registration → RegistrationLimiter → Db → Gate → Gate
enrolled c r rl db g =
    let after =
      (handle_tenant_register c r rl (record db { tenants = g.tenants; keys = g.keys })).0.1 in
    record g { tenants = after.tenants; keys = after.keys }

-- What may happen to the gate, one at a time.
pub data Step (hmac : Text → Text → Text) (master_key : Text) : Gate → Gate → Type 0 where
  -- A request, while the others revoke and suspend nothing between its query and its cache.set.
  request :
      (r : Request) (g : Gate)
      → Undisturbed r.before_store
      → Step hmac master_key g (authenticate hmac master_key r g).1
  key_create :
      (tenant : Text) (r : NewKey) (g : Gate)
      → Step hmac master_key g (handle_key_create hmac master_key tenant r g).1
  key_revoke :
      (ok : Bool) (now : ℕ) (tenant key_id : Text) (g : Gate)
      → Step hmac master_key g (handle_key_revoke ok now tenant key_id g).1
  tenant_delete :
      (a b c d : Bool) (now : ℕ) (tenant : Text) (g : Gate)
      → Step hmac master_key g (handle_tenant_delete a b c d now tenant g).1
  -- A registration, at a database whose other tables may hold anything.
  tenant_register :
      (c : Config) (r : Registration) (rl : RegistrationLimiter) (db : Db) (g : Gate)
      → Step hmac master_key g (enrolled c r rl db g)
  sweep :
      (now : ℕ) (g : Gate) → Step hmac master_key g (record g { cache = sweep_cache now g.cache })
  forget :
      (now : ℕ) (g : Gate)
      → Step hmac master_key g (record g { last_seen = sweep_seen now g.last_seen })

-- From a start, when both maps are empty, whatever the tables hold.
pub data Reachable (hmac : Text → Text → Text) (master_key : Text) : Gate → Type 0 where
  start :
      (tenants : List Tenant) (keys : List ApiKey)
      → Reachable hmac master_key
          (record { tenants = tenants; keys = keys; cache = []; last_seen = [] })
  next :
      {g g' : Gate}
      → Reachable hmac master_key g
      → Step hmac master_key g g'
      → Reachable hmac master_key g'

abbrev pub is_active_tenant : Text → Tenant → Bool
is_active_tenant tenant t = is_tenant tenant t && is_active t.status

module _ (hmac : Text → Text → Text) (master_key : Text) where
  step-Coherent : {g g' : Gate} → Step hmac master_key g g' → Coherent g → Coherent g'
  step-Coherent (Step.request r g u) h = authenticate-Coherent hmac master_key r g u h
  step-Coherent (Step.key_create tenant r g) h = create-Coherent hmac master_key tenant r g h
  step-Coherent (Step.key_revoke ok now tenant key_id g) h =
      revoke-Coherent ok now tenant key_id g h
  step-Coherent (Step.tenant_delete a b c d now tenant g) h =
      suspend-Coherent a b c d now tenant g h
  step-Coherent (Step.tenant_register c r rl db g) h =
      handle_tenant_register-AllBacked c r (record db { tenants = g.tenants; keys = g.keys })
        g.cache h rl
  step-Coherent (Step.sweep now g) h = sweep-Coherent now g h
  step-Coherent (Step.forget now g) h = h

  pub reachable-Coherent : {g : Gate} → Reachable hmac master_key g → Coherent g
  reachable-Coherent (Reachable.start tenants keys) = tt
  reachable-Coherent (Reachable.next p s) = step-Coherent s (reachable-Coherent p)

  -- A row that lets a secret in as a tenant: not revoked, of that tenant, with the secret's hash,
  -- and not expired when the request is looked up.
  abbrev pub opens_for : Request → Text → Text → Text → ApiKey → Bool
  opens_for r key_id secret tenant k =
      has_id key_id k
      && is_none k.revoked_at
      && same k.tenant_id tenant
      && verify_api_key hmac k.key_hash secret master_key
      && not (has_expired (unix r.queried_at) k.expires_at)

  abbrev LetIn : Request → Gate → Text → Token → Type 0
  LetIn r g tenant t =
      (key_id : Text) × (secret : Text) × (t ≡ Token.token key_id secret)
      × (any (opens_for r key_id secret tenant) g.keys ≡ true)
      × (any (is_active_tenant tenant) g.tenants ≡ true)

  expiry-agrees :
      (now : ℕ) (a b : Option ℕ)
      → same_expiry a b ≡ true
      → has_expired now b ≡ false
      → has_expired now a ≡ false
  expiry-agrees now none none p q = refl
  expiry-agrees now (some a) (some b) p q = ground arith
  expiry-agrees now none (some b) p q = absurd (ground arith)
  expiry-agrees now (some a) none p q = absurd (ground arith)

  backs-opens :
      (r : Request) (key_id secret : Text) (e : Entry) (k : ApiKey)
      → admits hmac master_key secret e ≡ true
      → has_expired (unix r.queried_at) e.expires_at ≡ false
      → backs key_id e k ≡ true
      → opens_for r key_id secret e.tenant_id k ≡ true
  backs-opens r key_id secret e k a x b = ground (
    arith,
    same_trans k.key_hash e.key_hash (hmac master_key secret),
    expiry-agrees (unix r.queried_at) k.expires_at e.expires_at,
  )

  by_status :
      (s u : TenantStatus) → same_status s u ≡ true → is_active u ≡ true → is_active s ≡ true
  by_status s u p q = ground arith

  backs_tenant-active :
      (secret : Text) (e : Entry) (t : Tenant)
      → admits hmac master_key secret e ≡ true
      → backs_tenant e t ≡ true
      → is_active_tenant e.tenant_id t ≡ true
  backs_tenant-active secret e t a b = ground (arith, by_status t.status e.status)

  passed_inj : {a b : Text} → Outcome.passed a ≡ Outcome.passed b → a ≡ b
  passed_inj {a} h = ap (λ o. elim o [ Outcome.passed x ↦ x | Outcome.denied _ ↦ a ]) h

  found-LetIn :
      (r : Request) (g : Gate) (tenant key_id secret : Text) (f : Found)
      → Resolved r key_id g f
      → (admit hmac master_key r key_id secret f).0 ≡ Outcome.passed tenant
      → LetIn r g tenant (Token.token key_id secret)
  unfolding admit
  found-LetIn r g tenant key_id secret (Found.refusal why g') h p = absurd (ground arith)
  found-LetIn r g tenant key_id secret (Found.entry e g') h p =
      elim (Bool-cases (admits hmac master_key secret e)) [
        | inl a ↦
            let k =
              any-imp (backs key_id e) (opens_for r key_id secret e.tenant_id) g.keys
                (λ k b. backs-opens r key_id secret e k a h.1 b) h.0.0 in
            let t =
              any-imp (backs_tenant e) (is_active_tenant e.tenant_id) g.tenants
                (λ t b. backs_tenant-active secret e t a b) h.0.1 in
            let q : e.tenant_id ≡ tenant = passed_inj (ground arith) in
            subst (λ x. LetIn r g x (Token.token key_id secret)) q (key_id, secret, refl, k, t)
        | inr a ↦ absurd (ground arith)
      ]

  token-LetIn :
      (r : Request) (g : Gate) (tenant : Text) (t : Token)
      → Coherent g
      → (authenticate_token hmac master_key r g t).0 ≡ Outcome.passed tenant
      → LetIn r g tenant t
  unfolding resolve
  token-LetIn r g tenant (Token.refused why) h p = absurd (ground arith)
  token-LetIn r g tenant (Token.token key_id secret) h p =
      found-LetIn r g tenant key_id secret _ (resolve_hit-Resolved r key_id g h _ refl) p

-- A request that passes as a tenant has a token whose key has a row in the database, when the
-- request is looked up, that is not revoked, is that tenant's, has the hash of the token's secret
-- and has not expired, and the tenant is active then. This holds in every state that any sequence of
-- requests, registrations, key creations, revocations, suspensions and sweeps can reach in which
-- no key is revoked and no tenant suspended between the query of a request and its cache.set.
pub passed_has_live_key :
    (hmac : Text → Text → Text) (master_key : Text) {g : Gate} (r : Request) (tenant : Text)
    → Reachable hmac master_key g
    → (authenticate hmac master_key r g).0 ≡ Outcome.passed tenant
    → (key_id : Text) × (secret : Text) × (parse r.header ≡ Token.token key_id secret)
      × (any (opens_for hmac master_key r key_id secret tenant) g.keys ≡ true)
      × (any (is_active_tenant tenant) g.tenants ≡ true)
unfolding authenticate
passed_has_live_key hmac master_key {g} r tenant p q =
    token-LetIn hmac master_key r g tenant (parse r.header) (reachable-Coherent hmac master_key p) q
