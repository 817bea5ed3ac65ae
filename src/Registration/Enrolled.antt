-- ===== src/Registration/Enrolled.antt =====
-- A registration adds rows to the tables and takes none away: what backs the auth cache stays.
use agentic_paasd.Prelude.{
  not, ◌&&◌, ◌||◌, Option, none, some, Text, any, count, is_empty, length, leb, ltb, if_both,
}
use agentic_paasd.Store.{Db}
use agentic_paasd.Auth.Token.{trim_space}
use agentic_paasd.Auth.Cache.{Cache}
use agentic_paasd.Auth.Keys.{is_taken}
use agentic_paasd.Auth.Backing.{AllBacked, AllBacked-append_keys, AllBacked-append_tenants}
use agentic_paasd.Registration.Limit.{RegistrationLimiter, Verdict, allow}
use agentic_paasd.Registration.Email.{email_matches}
use agentic_paasd.Registration.Handler.{
  Config, Body, Request, Answer, handle_tenant_register, after_verdict, register, insert_tenant,
  insert_first_key, is_active_row, has_quota, max_tenants, hmac_equal, is_tenant_taken,
}

module _ (c : Config) (r : Request) (db : Db) (cache : Cache)
    (h : AllBacked db.tenants db.keys cache) where
  abbrev P : Answer × Db → Type 0
  P x = AllBacked x.1.tenants x.1.keys cache

  insert_first_key-P :
      (id name email : Text) (o : Option (Text × Text))
      → P (insert_first_key c r id name email db o)
  insert_first_key-P id name email none = h
  insert_first_key-P id name email (some (secret, key_id)) = if_both P (ltb (length key_id) 8) h (
      if_both P (not (r.key_ok && not (is_taken key_id db.keys))) h (
        if_both P (not r.commit_ok) h (
          AllBacked-append_keys _ db.keys _ cache
            (AllBacked-append_tenants db.tenants _ db.keys cache h))))

  insert_tenant-P : (name email : Text) (o : Option Text) → P (insert_tenant c r name email db o)
  insert_tenant-P name email none = h
  insert_tenant-P name email (some id) = if_both P (not r.begin_ok) h (
      if_both P (not (r.tenant_ok && not (is_tenant_taken id email db.tenants))) h (
        if_both P (not (r.quota_ok && not (any (has_quota id) db.quotas))) h
          (insert_first_key-P id name email r.generated)))

  register-P : (b : Body) → P (register c r db b)
  register-P Body.undecodable = h
  register-P (Body.decoded name email) =
      if_both P (ltb (length name) 2 || ltb 128 (length name)) h (
        if_both P (not (email_matches email) || ltb 256 (length email)) h (
          if_both P (not r.count_ok) h (
            if_both P (leb max_tenants (count is_active_row db.tenants)) h
              (insert_tenant-P name email r.tenant_id))))

  after_verdict-P : (v : Verdict) → P (after_verdict c r db v)
  after_verdict-P (Verdict.blocked wait) = h
  after_verdict-P Verdict.allowed = if_both P c.open_registration (register-P r.body) (
      if_both P (is_empty c.bootstrap_token) h (
        if_both P (hmac_equal c.hmac (trim_space r.provided_token) c.bootstrap_token c.master_key)
          (register-P r.body) h))

  pub handle_tenant_register-AllBacked :
      (rl : RegistrationLimiter)
      → AllBacked
          (handle_tenant_register c r rl db).0.1.tenants
          (handle_tenant_register c r rl db).0.1.keys
          cache
  unfolding handle_tenant_register
  handle_tenant_register-AllBacked rl = after_verdict-P (allow r.at r.ip rl).0
