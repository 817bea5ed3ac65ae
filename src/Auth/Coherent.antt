-- ===== src/Auth/Coherent.antt =====
-- Requests, key creations, revocations, suspensions and sweeps, in any order: the cache stays
-- backed by the tables, so that a request that passes has a live key of an active tenant.
use agentic_paasd.Prelude.{
  ℕ, ◌≡◌, refl, Bool, true, false, not, ◌&&◌, Option, none, some, List, Text, any, All,
  All-drop_all, arith, ltb, if◌then◌else◌, if_both, leb, length, Bool-cases, Option-cases, inl, inr,
}
use agentic_paasd.Store.{ApiKey}
use agentic_paasd.BoundedMap.{get, put}
use agentic_paasd.BoundedMap.Laws.{All-delete, All-evict, get-All}
use agentic_paasd.Auth.Token.{Token, parse}
use agentic_paasd.Auth.Cache.{
  LastSeen, Entry, Cache, cache_get, cache_set, invalidate_key, sweep_cache, unix, note_seen,
}
use agentic_paasd.Auth.Gate.{
  Gate, Request, Found, is_tenant, lookup, resolve, maybe_update, seen_update, admits, admit,
  from_query, resolve_hit, authenticate_token, authenticate, has_expired,
}
use agentic_paasd.Auth.Keys.{
  NewKey, Answer, Expiry, check_expiry, create_accepted, create_counted, expires_after,
  max_keys_per_tenant, handle_key_create, handle_key_revoke, handle_tenant_delete, insert_key,
  is_taken, is_own_live_id,
}
use agentic_paasd.Auth.Backing.{
  Backed, AllBacked, lookup-Backed, lookup-fresh, AllBacked-set_last_used, AllBacked-append_keys,
  AllBacked-revoke, AllBacked-suspend,
}

abbrev pub Coherent : Gate → Type 0
Coherent g = AllBacked g.tenants g.keys g.cache

abbrev After : Answer × Gate → Type 0
After p = Coherent p.1

cache_set-All :
    (P : Text × Entry → Type 0) (key_id : Text) (e : Entry) (c : Cache)
    → P (key_id, e)
    → All P c
    → All P (cache_set key_id e c)
unfolding cache_set put
cache_set-All P key_id e c q h = (q, All-delete P key_id _ (All-evict P _ _ c h))

invalidate_key-All :
    (P : Text × Entry → Type 0) (key_id : Text) (c : Cache)
    → All P c
    → All P (invalidate_key key_id c)
unfolding invalidate_key
invalidate_key-All P key_id c h = All-delete P key_id c h

cache_get-All :
    (P : Text × Entry → Type 0) (now : ℕ) (key_id : Text) (c : Cache) {e : Entry}
    → All P c
    → cache_get now key_id c ≡ some e
    → P (key_id, e)
unfolding cache_get
cache_get-All P now key_id c {e} h q = elim (Option-cases (get key_id c)) [
  | inl a ↦ absurd (ground arith)
  | inr (v, a) ↦ get-All P key_id c h (ground arith)
]

-- What other goroutines do is no revocation of a key and no suspension of a tenant: what the cache
-- holds, and an entry that is about to be stored, stay backed.
abbrev pub Undisturbed : (Gate → Gate) → Type 0
Undisturbed f =
    (g : Gate) (key_id : Text) (e : Entry)
    → Coherent g
    → Backed g.tenants g.keys (key_id, e)
    → Coherent (f g) × Backed (f g).tenants (f g).keys (key_id, e)

-- What `resolve` hands on: the entry is backed when the request is looked up, and has not expired.
abbrev pub Resolved : Request → Text → Gate → Found → Type 0
Resolved r key_id g (Found.refusal why g') = Unit
Resolved r key_id g (Found.entry e g') =
    Backed g.tenants g.keys (key_id, e) × (has_expired (unix r.queried_at) e.expires_at ≡ false)

abbrev CoherentBehind : Found → Type 0
CoherentBehind (Found.refusal why g) = Coherent g
CoherentBehind (Found.entry e g) = Coherent g

module _ (r : Request) (key_id : Text) (g : Gate) (h : Coherent g) where
  from_query-Resolved :
      (o : Option Entry)
      → lookup g.tenants g.keys key_id (unix r.queried_at) r.cached_at ≡ o
      → Resolved r key_id g (from_query r key_id g o)
  from_query-Resolved none q = tt
  from_query-Resolved (some e) q = (
    lookup-Backed g.tenants g.keys key_id (unix r.queried_at) r.cached_at q,
    lookup-fresh g.tenants g.keys key_id (unix r.queried_at) r.cached_at q,
  )

  pub resolve_hit-Resolved :
      (o : Option Entry)
      → cache_get r.looked_up_at key_id g.cache ≡ o
      → Resolved r key_id g (resolve_hit r key_id g o)
  resolve_hit-Resolved (some e) q =
      elim (Bool-cases (has_expired (unix r.queried_at) e.expires_at)) [
        | inl x ↦ rw x tt
        | inr x ↦ rw x (cache_get-All _ _ key_id g.cache h q, x)
      ]
  resolve_hit-Resolved none q = elim (Bool-cases r.query_ok) [
    | inr x ↦ rw x tt
    | inl x ↦ rw x (from_query-Resolved _ refl)
  ]

  from_query-Coherent :
      (o : Option Entry)
      → lookup g.tenants g.keys key_id (unix r.queried_at) r.cached_at ≡ o
      → Undisturbed r.before_store
      → CoherentBehind (from_query r key_id g o)
  from_query-Coherent none q u = h
  from_query-Coherent (some e) q u =
      let (kept, backed) =
        u g key_id e h (lookup-Backed g.tenants g.keys key_id (unix r.queried_at) r.cached_at q) in
      cache_set-All _ key_id e (r.before_store g).cache backed kept

  resolve_hit-Coherent :
      (o : Option Entry) → Undisturbed r.before_store → CoherentBehind (resolve_hit r key_id g o)
  resolve_hit-Coherent (some e) u =
      elim (Bool-cases (has_expired (unix r.queried_at) e.expires_at)) [
        | inl x ↦ rw x (invalidate_key-All _ key_id g.cache h)
        | inr x ↦ rw x h
      ]
  resolve_hit-Coherent none u = elim (Bool-cases r.query_ok) [
    | inr x ↦ rw x h
    | inl x ↦ rw x (from_query-Coherent _ refl u)
  ]

maybe_update-Coherent :
    (r : Request) (key_id : Text) (g : Gate) → Coherent g → Coherent (maybe_update r key_id g)
unfolding maybe_update
maybe_update-Coherent r key_id g h = by_seen (note_seen r.seen_at key_id g.last_seen)
  where
    by_seen : (o : Option LastSeen) → Coherent (seen_update r key_id g o)
    by_seen none = h
    by_seen (some m) =
        by_write r.write_ok _ (AllBacked-set_last_used g.tenants g.keys key_id _ g.cache h)
      where
        by_write :
            (b : Bool) (x : List ApiKey)
            → AllBacked g.tenants x g.cache
            → AllBacked g.tenants (if b then x else g.keys) g.cache
        by_write true x q = q
        by_write false x q = h

module _ (hmac : Text → Text → Text) (master_key : Text) where
  admit-Coherent :
      (r : Request) (key_id secret : Text) (f : Found)
      → CoherentBehind f
      → Coherent (admit hmac master_key r key_id secret f).1
  unfolding admit
  admit-Coherent r key_id secret (Found.refusal why g) h = h
  admit-Coherent r key_id secret (Found.entry e g) h =
      elim (Bool-cases (admits hmac master_key secret e)) [
        | inl x ↦ rw x (maybe_update-Coherent r key_id g h)
        | inr x ↦ rw x h
      ]

  token-Coherent :
      (r : Request) (g : Gate) (t : Token)
      → Undisturbed r.before_store
      → Coherent g
      → Coherent (authenticate_token hmac master_key r g t).1
  unfolding resolve
  token-Coherent r g (Token.refused why) u h = h
  token-Coherent r g (Token.token key_id secret) u h =
      admit-Coherent r key_id secret _ (resolve_hit-Coherent r key_id g h _ u)

  pub authenticate-Coherent :
      (r : Request) (g : Gate)
      → Undisturbed r.before_store
      → Coherent g
      → Coherent (authenticate hmac master_key r g).1
  unfolding authenticate
  authenticate-Coherent r g u h = token-Coherent r g (parse r.header) u h

  insert_key-Coherent :
      (tenant : Text) (r : NewKey) (expires : Option ℕ) (g : Gate)
      → Coherent g
      → Coherent (insert_key hmac master_key tenant r expires g).1
  insert_key-Coherent tenant r expires g h =
      if_both After (r.insert_ok && not (is_taken r.key_id g.keys))
        (AllBacked-append_keys g.tenants g.keys _ g.cache h) h

  pub create-Coherent :
      (tenant : Text) (r : NewKey) (g : Gate)
      → Coherent g
      → Coherent (handle_key_create hmac master_key tenant r g).1
  unfolding handle_key_create
  create-Coherent tenant r g h = by_expiry (check_expiry r.expires_in)
    where
      by_expiry : (x : Expiry) → After (create_accepted hmac master_key tenant r g x)
      by_expiry Expiry.rejected = h
      by_expiry (Expiry.accepted seconds) = by_count r.counted
        where
          by_count : (o : Option ℕ) → After (create_counted hmac master_key tenant r g seconds o)
          by_count none = h
          by_count (some n) = if_both After (leb max_keys_per_tenant n) h (
              if_both After (not r.random_ok) h (
                if_both After (ltb (length r.key_id) 8) h
                  (insert_key-Coherent tenant r (expires_after (unix r.now) seconds) g h)))

pub revoke-Coherent :
    (ok : Bool) (now : ℕ) (tenant key_id : Text) (g : Gate)
    → Coherent g
    → Coherent (handle_key_revoke ok now tenant key_id g).1
unfolding handle_key_revoke
revoke-Coherent ok now tenant key_id g h = if_both After (not ok) h (
    if_both After (any (is_own_live_id key_id tenant) g.keys)
      (AllBacked-revoke g.tenants g.keys key_id tenant (unix now) g.cache h) h)

pub suspend-Coherent :
    (a b c d : Bool) (now : ℕ) (tenant : Text) (g : Gate)
    → Coherent g
    → Coherent (handle_tenant_delete a b c d now tenant g).1
unfolding handle_tenant_delete
suspend-Coherent a b c d now tenant g h = if_both After (not (a && b)) h (
    if_both After (not (any (is_tenant tenant) g.tenants)) h (
      if_both After (not (c && d)) h
        (AllBacked-suspend g.tenants g.keys tenant (unix now) g.cache h)))

pub sweep-Coherent :
    (now : ℕ) (g : Gate) → Coherent g → Coherent (record g { cache = sweep_cache now g.cache })
unfolding sweep_cache
sweep-Coherent now g h = All-drop_all _ _ g.cache h
