-- ===== src/Registration/Atomic.antt =====
-- A registration writes all of a tenant or nothing.
use agentic_paasd.Prelude.{
  count-snoc, ◌≤◌, ◌≡◌, ◌⊎◌, inl, inr, refl, Bool, true, false, not, ◌&&◌, ◌||◌, Option, none, some,
  Text, same, same_refl, is_empty, length, any, count, any-append_right, leb, ltb, arith, if_both,
  Bool-cases,
}
use agentic_paasd.Store.{Db, Tenant, ApiKey, is_active}
use agentic_paasd.Auth.Cache.{unix}
use agentic_paasd.Auth.Token.{trim_space}
use agentic_paasd.Auth.Gate.{has_id, is_tenant, verify_api_key}
use agentic_paasd.Auth.Keys.{api_token, is_taken}
use agentic_paasd.Registration.Limit.{RegistrationLimiter, Verdict, allow}
use agentic_paasd.Registration.Email.{email_matches}
use agentic_paasd.Registration.Handler.{
  Config, Body, Request, Answer, handle_tenant_register, after_verdict, check_token, register,
  insert_tenant, insert_first_key, is_active_row, has_quota, max_tenants, hmac_equal,
  is_tenant_taken, new_tenant,
}

abbrev pub is_registered : Answer → Bool
is_registered (Answer.registered id token) = true
is_registered _ = false

abbrev pub is_active_with : Text → Tenant → Bool
is_active_with id t = is_tenant id t && is_active t.status

-- A row of the new tenant's key that the secret of its token opens.
abbrev pub opens : Config → Text → Text → Text → ApiKey → Bool
opens c id secret key_id k =
    has_id key_id k && same k.tenant_id id && verify_api_key c.hmac k.key_hash secret c.master_key

abbrev pub Registered : Config → Db → Answer × Db → Type 0
Registered c db x =
    (id : Text) × (secret : Text) × (key_id : Text) × (x.0
      ≡ Answer.registered id (api_token key_id secret))
    × (any (is_active_with id) x.1.tenants ≡ true)
    × (any (has_quota id) x.1.quotas ≡ true)
    × (any (opens c id secret key_id) x.1.keys ≡ true)
    × (count is_active_row x.1.tenants ≤ max_tenants)

abbrev pub AllOrNothing : Config → Db → Answer × Db → Type 0
AllOrNothing c db x = ((is_registered x.0 ≡ false) × (x.1 ≡ db)) ⊎ Registered c db x

module _ (c : Config) (r : Request) (db : Db) where
  abbrev nothing : {a : Answer} → is_registered a ≡ false → AllOrNothing c db (a, db)
  nothing p = inl (p, refl)

  abbrev P : Answer × Db → Type 0
  P = AllOrNothing c db

  insert_first_key-P :
      (id name email : Text) (o : Option (Text × Text))
      → leb max_tenants (count is_active_row db.tenants) ≡ false
      → P (insert_first_key c r id name email db o)
  insert_first_key-P id name email none room = nothing refl
  insert_first_key-P id name email (some (secret, key_id)) room =
      if_both P (ltb (length key_id) 8) (nothing refl) (
        if_both P (not (r.key_ok && not (is_taken key_id db.keys))) (nothing refl) (
          if_both P (not r.commit_ok) (nothing refl) (
            inr (
              id,
              secret,
              key_id,
              refl,
              any-append_right (is_active_with id) db.tenants _ (rw (same_refl id) refl),
              any-append_right (has_quota id) db.quotas _ (rw (same_refl id) refl),
              any-append_right (opens c id secret key_id) db.keys _ (
                  rw (same_refl key_id, same_refl id, same_refl (c.hmac c.master_key secret)) refl),
              ground (
                arith,
                count-snoc is_active_row db.tenants (new_tenant id name email (unix r.stored_at)),
              ),
            ))))

  insert_tenant-P :
      (name email : Text) (o : Option Text)
      → leb max_tenants (count is_active_row db.tenants) ≡ false
      → P (insert_tenant c r name email db o)
  insert_tenant-P name email none room = nothing refl
  insert_tenant-P name email (some id) room = if_both P (not r.begin_ok) (nothing refl) (
      if_both P (not (r.tenant_ok && not (is_tenant_taken id email db.tenants))) (nothing refl) (
        if_both P (not (r.quota_ok && not (any (has_quota id) db.quotas))) (nothing refl)
          (insert_first_key-P id name email r.generated room)))

  register-P : (b : Body) → P (register c r db b)
  register-P Body.undecodable = nothing refl
  register-P (Body.decoded name email) =
      if_both P (ltb (length name) 2 || ltb 128 (length name)) (nothing refl) (
        if_both P (not (email_matches email) || ltb 256 (length email)) (nothing refl) (
          if_both P (not r.count_ok) (nothing refl)
            (elim (Bool-cases (leb max_tenants (count is_active_row db.tenants))) [
              | inl e ↦ rw e (nothing refl)
              | inr e ↦ rw e (insert_tenant-P name email r.tenant_id e)
            ])))

  check_token-P : P (check_token c r db)
  check_token-P = if_both P c.open_registration (register-P r.body) (
      if_both P (is_empty c.bootstrap_token) (nothing refl) (
        if_both P (hmac_equal c.hmac (trim_space r.provided_token) c.bootstrap_token c.master_key)
          (register-P r.body) (nothing refl)))

  after_verdict-P : (v : Verdict) → P (after_verdict c r db v)
  after_verdict-P (Verdict.blocked wait) = nothing refl
  after_verdict-P Verdict.allowed = check_token-P

-- A registration, whatever fails on its way, either leaves the database as it was and does not
-- answer with a token, or answers with a new tenant and a token, and then the tenant is there and
-- active, has a quota row, has a key with the token's identifier and the hash of its secret, and
-- there are at most 1000 active tenants.
pub registration_all_or_nothing :
    (c : Config) (r : Request) (rl : RegistrationLimiter) (db : Db)
    → AllOrNothing c db (handle_tenant_register c r rl db).0
unfolding handle_tenant_register
registration_all_or_nothing c r rl db = after_verdict-P c r db (allow r.at r.ip rl).0
