-- ===== src/Auth/Backing.antt =====
-- What backs an entry of the cache: a live row of api_keys that agrees with it, and a row of
-- tenants with its status. Each write to the tables keeps what backs the entries that stay.
use agentic_paasd.Prelude.{
  ℕ, ◌≡◌, refl, sym, subst, Bool, true, false, not, ◌&&◌, Option, none, some, List, ◌++◌, Text,
  same, same_refl, same_meet, some_inj, ◌∙◌, find, find_sound, any, update, All, All-imp,
  All-drop_all-miss, any-append, any-update, any_of_find, arith, ◌==◌, if◌then◌else◌, is_none,
  Option-cases, inl, inr,
}
use agentic_paasd.Store.{ApiKey, Tenant, TenantStatus, is_active}
use agentic_paasd.BoundedMap.{has_key, delete}
use agentic_paasd.Auth.Cache.{Entry, Cache, invalidate_key, invalidate_tenant, is_cached_for}
use agentic_paasd.Auth.Gate.{
  has_id, is_tenant, is_usable, is_unexpired, lookup, set_last_used, has_expired,
}
use agentic_paasd.Auth.Keys.{is_own_live_key, is_own_live_id, set_revoked, suspend}

abbrev pub same_status : TenantStatus → TenantStatus → Bool
same_status s t = if is_active s then is_active t else not (is_active t)

abbrev pub same_expiry : Option ℕ → Option ℕ → Bool
same_expiry none none = true
same_expiry (some a) (some b) = a == b
same_expiry _ _ = false

same_expiry_refl : (o : Option ℕ) → same_expiry o o ≡ true
same_expiry_refl none = refl
same_expiry_refl (some a) = ground arith

abbrev pub backs : Text → Entry → ApiKey → Bool
backs key_id e k =
    has_id key_id k
    && is_none k.revoked_at
    && same k.tenant_id e.tenant_id
    && same k.key_hash e.key_hash
    && same_expiry k.expires_at e.expires_at

abbrev pub backs_tenant : Entry → Tenant → Bool
backs_tenant e t = is_tenant e.tenant_id t && same_status t.status e.status

abbrev pub Backed : List Tenant → List ApiKey → Text × Entry → Type 0
Backed tenants keys c = (any (backs c.0 c.1) keys ≡ true) × (any (backs_tenant c.1) tenants ≡ true)

abbrev pub AllBacked : List Tenant → List ApiKey → Cache → Type 0
AllBacked tenants keys cache = All (Backed tenants keys) cache

same_status_refl : (s : TenantStatus) → same_status s s ≡ true
same_status_refl TenantStatus.active = refl
same_status_refl TenantStatus.suspended = refl

module _ (tenants : List Tenant) (keys : List ApiKey) (key_id : Text) (now cached_at : ℕ) where
  entry_of : ApiKey → Tenant → Entry
  entry_of k t = record {
    tenant_id = k.tenant_id;
    key_hash = k.key_hash;
    status = t.status;
    expires_at = k.expires_at;
    cached_at = cached_at;
  }

  entry-Backed :
      (k : ApiKey) (t : Tenant)
      → find (is_usable key_id now) keys ≡ some k
      → find (is_tenant k.tenant_id) tenants ≡ some t
      → Backed tenants keys (key_id, entry_of k t)
  unfolding entry_of
  entry-Backed k t a b = (
    any_of_find (is_usable key_id now) (backs key_id (entry_of k t)) keys a (
        ground (
          arith,
          find_sound (is_usable key_id now) keys a,
          same_refl k.tenant_id,
          same_refl k.key_hash,
          same_expiry_refl k.expires_at,
        )),
    any_of_find (is_tenant k.tenant_id) (backs_tenant (entry_of k t)) tenants b
        (ground (arith, find_sound (is_tenant k.tenant_id) tenants b, same_status_refl t.status)),
  )

  lookup_found :
      (k : ApiKey) (t : Tenant)
      → find (is_usable key_id now) keys ≡ some k
      → find (is_tenant k.tenant_id) tenants ≡ some t
      → lookup tenants keys key_id now cached_at ≡ some (entry_of k t)
  unfolding lookup entry_of
  lookup_found k t a b = rw (lookup, a, b) refl

  -- What the query returns is backed by the tables that it reads.
  pub lookup-Backed :
      {e : Entry}
      → lookup tenants keys key_id now cached_at ≡ some e
      → Backed tenants keys (key_id, e)
  unfolding lookup entry_of
  lookup-Backed {e} h = elim (Option-cases (find (is_usable key_id now) keys)) [
    | inl a ↦ absurd (ground arith)
    | inr (k, a) ↦ elim (Option-cases (find (is_tenant k.tenant_id) tenants)) [
      | inl b ↦ absurd (ground arith)
      | inr (t, b) ↦
          let q : entry_of k t ≡ e = some_inj (sym (lookup_found k t a b) ∙ h) in
          subst (λ x. Backed tenants keys (key_id, x)) q (entry-Backed k t a b)
    ]
  ]

  unexpired_lem : (o : Option ℕ) → is_unexpired now o ≡ true → has_expired now o ≡ false
  unexpired_lem none h = refl
  unexpired_lem (some e) h = ground arith

  -- Nor has it expired.
  pub lookup-fresh :
      {e : Entry}
      → lookup tenants keys key_id now cached_at ≡ some e
      → has_expired now e.expires_at ≡ false
  unfolding lookup entry_of
  lookup-fresh {e} h = elim (Option-cases (find (is_usable key_id now) keys)) [
    | inl a ↦ absurd (ground arith)
    | inr (k, a) ↦ elim (Option-cases (find (is_tenant k.tenant_id) tenants)) [
      | inl b ↦ absurd (ground arith)
      | inr (t, b) ↦
          let q : entry_of k t ≡ e = some_inj (sym (lookup_found k t a b) ∙ h) in
          let usable : is_usable key_id now k ≡ true = find_sound (is_usable key_id now) keys a in
          subst (λ x. has_expired now x.expires_at ≡ false) q
            (unexpired_lem k.expires_at (ground arith))
    ]
  ]

-- The sampled last_used_at is no part of what backs an entry.
pub AllBacked-set_last_used :
    (tenants : List Tenant) (keys : List ApiKey) (key_id : Text) (now : ℕ) (cache : Cache)
    → AllBacked tenants keys cache
    → AllBacked tenants (update (has_id key_id) (set_last_used now) keys) cache
AllBacked-set_last_used tenants keys key_id now cache h =
    All-imp cache (λ c b. (any-update (backs c.0 c.1) _ _ keys (λ k _ q. q) b.0, b.1)) h

pub AllBacked-append_keys :
    (tenants : List Tenant) (keys others : List ApiKey) (cache : Cache)
    → AllBacked tenants keys cache
    → AllBacked tenants (keys ++ others) cache
AllBacked-append_keys tenants keys others cache h =
    All-imp cache (λ c b. (any-append (backs c.0 c.1) keys others b.0, b.1)) h

pub AllBacked-append_tenants :
    (tenants more : List Tenant) (keys : List ApiKey) (cache : Cache)
    → AllBacked tenants keys cache
    → AllBacked (tenants ++ more) keys cache
AllBacked-append_tenants tenants more keys cache h =
    All-imp cache (λ c b. (b.0, any-append (backs_tenant c.1) tenants more b.1)) h

pub AllBacked-revoke :
    (tenants : List Tenant) (keys : List ApiKey) (key_id tenant : Text) (now : ℕ) (cache : Cache)
    → AllBacked tenants keys cache
    → AllBacked tenants
        (update (is_own_live_id key_id tenant) (set_revoked now) keys)
        (invalidate_key key_id cache)
unfolding invalidate_key delete
AllBacked-revoke tenants keys key_id tenant now cache h =
    All-drop_all-miss (has_key key_id) cache
      (λ c b m. (
        any-update (backs c.0 c.1) _ _ keys
            (λ k p q. absurd (ground (arith, same_meet k.id key_id c.0))) b.0,
        b.1,
      ))
      h

pub AllBacked-suspend :
    (tenants : List Tenant) (keys : List ApiKey) (tenant : Text) (now : ℕ) (cache : Cache)
    → AllBacked tenants keys cache
    → AllBacked
        (update (is_tenant tenant) (suspend now) tenants)
        (update (is_own_live_key tenant) (set_revoked now) keys)
        (invalidate_tenant tenant cache)
unfolding invalidate_tenant
AllBacked-suspend tenants keys tenant now cache h =
    All-drop_all-miss (is_cached_for tenant) cache
      (λ c b m. (
        any-update (backs c.0 c.1) _ _ keys
            (λ k p q. absurd (ground (arith, same_meet k.tenant_id tenant c.1.tenant_id))) b.0,
        any-update (backs_tenant c.1) _ _ tenants
            (λ t p q. absurd (ground (arith, same_meet t.id tenant c.1.tenant_id))) b.1,
      ))
      h
