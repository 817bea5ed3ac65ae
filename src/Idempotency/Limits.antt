-- ===== src/Idempotency/Limits.antt =====
-- The store stays within its limits, for every tenant.
use agentic_paasd.Prelude.{
  ℕ, ◌≤◌, ◌<◌, ◌≡◌, refl, subst, true, false, not, Option, none, some, List, [], ◌∷◌, ◌++◌, Text,
  same, same_sound, is_empty, has_prefix, length, count, All, ltb, ◌==◌, arith, if_both, ltb→lt,
  Bool-cases, inl, inr,
}
use agentic_paasd.BoundedMap.{get, put, evict}
use agentic_paasd.BoundedMap.Laws.{
  NamedKeys, NamedKeys-evict, NamedKeys-put, length-put-evict, count-evict-le, count-put-le,
}
use agentic_paasd.Idempotency.{
  Entry, Store, Request, Response, Reply, HashResult, new_recorder, rec_calls, hash_request_body,
  is_covered, full_key, tenant_prefix, is_of_tenant, is_cacheable, store_reply, run_next,
  serve_entry, serve_hashed, middleware, max_idempotency_key_len, max_idempotency_per_tenant,
  max_idempotency_entries,
}

-- Identifiers of tenants are hexadecimal: no colon is in them.
abbrev pub NoColon : Text → Type 0
NoColon s = All (λ x. (x == 58) ≡ false) s

prefix-same :
    (a b x : Text)
    → NoColon a
    → NoColon b
    → has_prefix (a ++ 58 ∷ x) (tenant_prefix b) ≡ true
    → same a b ≡ true
unfolding has_prefix same
prefix-same [] [] x p q h = refl
prefix-same [] (y ∷ b) x p q h = ground arith
prefix-same (y ∷ a) [] x p q h = ground arith
prefix-same (y ∷ a) (z ∷ b) x p q h = ground (arith, prefix-same a b x p.1 q.1)

full_key-is_named : (t x : Text) → is_empty (t ++ 58 ∷ x) ≡ false
full_key-is_named [] x = refl
full_key-is_named (y ∷ t) x = refl

-- Keys are named, there are at most 500 entries, and at most 50 of the tenant.
abbrev pub Within : Text → Store → Type 0
Within tenant m =
    NamedKeys m
    × (length m ≤ max_idempotency_entries)
    × (count (is_of_tenant tenant) m ≤ max_idempotency_per_tenant)

-- An entry that is new counts for its own tenant, which had room, and for no other.
new_entry-count :
    (tenant : Text) (r : Request) (e : Entry) (m : Store)
    → NoColon tenant
    → NoColon r.tenant
    → count (is_of_tenant tenant) m ≤ max_idempotency_per_tenant
    → count (is_of_tenant r.tenant) m < max_idempotency_per_tenant
    → count
        (is_of_tenant tenant)
        (put (full_key r) e (evict max_idempotency_entries (λ v. v.created_at) m))
      ≤ max_idempotency_per_tenant
new_entry-count tenant r e m a b c d =
    let rest = evict max_idempotency_entries (λ v. v.created_at) m in
    let le : count (is_of_tenant tenant) rest ≤ count (is_of_tenant tenant) m =
      count-evict-le (is_of_tenant tenant) max_idempotency_entries (λ v. v.created_at) m in
    let put_le = count-put-le (is_of_tenant tenant) (full_key r) e rest in
    elim (Bool-cases (has_prefix (full_key r) (tenant_prefix tenant))) [
      | inr x ↦ ground (arith, le, put_le)
      | inl x ↦
          let own : r.tenant ≡ tenant =
            same_sound r.tenant tenant (prefix-same r.tenant tenant _ b a x) in
          let room : count (is_of_tenant tenant) m < max_idempotency_per_tenant =
            subst (λ t. count (is_of_tenant t) m < max_idempotency_per_tenant) own d in
          ground (arith, le, put_le, room)
    ]

store_reply-Within :
    (tenant : Text) (r : Request) (e : Entry) (m : Store)
    → NoColon tenant
    → NoColon r.tenant
    → Within tenant m
    → Within tenant (store_reply r.tenant (full_key r) e m)
unfolding store_reply
store_reply-Within tenant r e m a b (n, l, c) =
    elim (Bool-cases (ltb (count (is_of_tenant r.tenant) m) max_idempotency_per_tenant)) [
      | inr q ↦ rw q (n, l, c)
      | inl q ↦ rw q (
        NamedKeys-put (full_key r) e _ (full_key-is_named r.tenant _) (NamedKeys-evict _ _ m n),
        length-put-evict max_idempotency_entries (λ v. v.created_at) (full_key r) e m (omega arith)
            n l,
        new_entry-count tenant r e m a b c (ltb→lt _ _ q),
      )
    ]

module _ {W : Type 0} (sha256 : Text → Text) (next : Request → W → Response × W) (tenant : Text)
    (r : Request) (m : Store) (a : NoColon tenant) (b : NoColon r.tenant)
    (h : Within tenant m) where
  abbrev After : Reply × Store × W → Type 0
  After x = Within tenant x.1

  run_next-Within : (t : ℕ) (k : Text) (w : W) → After (run_next sha256 next t k r m w)
  unfolding run_next
  run_next-Within t k w =
      if_both (Within tenant) (is_cacheable (rec_calls (next r w).0.calls new_recorder))
        (store_reply-Within tenant r _ m a b h) h

  serve_entry-Within :
      (t u : ℕ) (k : Text) (w : W) (o : Option Entry)
      → After (serve_entry sha256 next t u k r m w o)
  serve_entry-Within t u k w none = run_next-Within u k w
  serve_entry-Within t u k w (some e) = if_both After (ltb t e.expires_at) h (run_next-Within u k w)

  serve_hashed-Within :
      (t u : ℕ) (w : W) (x : HashResult) → After (serve_hashed sha256 next t u r m w x)
  serve_hashed-Within t u w HashResult.read_failed = h
  serve_hashed-Within t u w HashResult.too_large = h
  serve_hashed-Within t u w (HashResult.hashed k) = serve_entry-Within t u k w (get (full_key r) m)

  middleware-Within : (t u : ℕ) (w : W) → After (middleware sha256 next t u r m w)
  unfolding middleware
  middleware-Within t u w = if_both After (not (is_covered r)) h (
      if_both After (ltb max_idempotency_key_len (length r.idempotency_key)) h (
        if_both After (is_empty r.tenant) h
          (serve_hashed-Within t u w (hash_request_body sha256 r.body))))

-- Requests one after another, each with the times at which it is looked up and stored.
unfoldable pub serve_all :
    {W : Type 0} (sha256 : Text → Text) (next : Request → W → Response × W)
    → List ((ℕ × ℕ) × Request)
    → Store
    → W
    → Store × W
serve_all sha256 next [] m w = (m, w)
serve_all sha256 next ((t, r) ∷ rs) m w =
    let (_, m', w') = middleware sha256 next t.0 t.1 r m w in serve_all sha256 next rs m' w'

-- However many requests are served, of whatever tenants, none with a colon in its identifier, a
-- store that holds at most 500 entries, all under a key that is not empty, and at most 50 of a
-- tenant does so at the end.
pub serve_all-Within :
    {W : Type 0} (sha256 : Text → Text) (next : Request → W → Response × W) (tenant : Text)
    (rs : List ((ℕ × ℕ) × Request)) (m : Store) (w : W)
    → NoColon tenant
    → All (λ x. NoColon x.1.tenant) rs
    → Within tenant m
    → Within tenant (serve_all sha256 next rs m w).0
unfolding serve_all
serve_all-Within sha256 next tenant [] m w a b h = h
serve_all-Within sha256 next tenant ((t, r) ∷ rs) m w a b h =
    serve_all-Within sha256 next tenant rs _ _ a b.1
      (middleware-Within sha256 next tenant r m a b.0 h t.0 t.1 w)
