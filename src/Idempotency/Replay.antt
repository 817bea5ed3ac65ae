-- ===== src/Idempotency/Replay.antt =====
-- A repeated request is answered from the store, and the handler does not run again.
use agentic_paasd.Prelude.{
  same, ℕ, ◌+◌, ◌<◌, ◌≡◌, refl, sym, subst, ap, ◌∙◌, true, false, Option, none, some, Text,
  same_refl, some_inj, is_empty, length, count, ltb, arith, if◌then◌else◌,
}
use agentic_paasd.BoundedMap.{get, evict}
use agentic_paasd.BoundedMap.Laws.{get-put}
use agentic_paasd.Idempotency.{
  Entry, Store, Request, Response, Reply, HashResult, ResponseRecorder, new_recorder, rec_calls,
  hash_request_body, is_covered, full_key, is_of_tenant, is_cacheable, is_fresh, store_reply,
  entry_of, replay, replay_type, final_status, run_next, serve_entry, middleware,
  max_idempotency_key_len, max_idempotency_per_tenant, max_idempotency_entries, idempotency_ttl,
}

get-store_reply :
    (tenant key : Text) (e : Entry) (m : Store)
    → ltb (count (is_of_tenant tenant) m) max_idempotency_per_tenant ≡ true
    → get key (store_reply tenant key e m) ≡ some e
unfolding store_reply
get-store_reply tenant key e m h = rw h (
    get-put key key e _
    ∙ ap (λ b. if b then some e else get key (evict max_idempotency_entries (λ v. v.created_at) m))
        (same_refl key))

module _ {W : Type 0} (sha256 : Text → Text) (next : Request → W → Response × W) where
  -- A request that the middleware answers for.
  abbrev pub Accepted : Request → Text → Type 0
  Accepted r h =
      (is_covered r ≡ true)
      × (ltb max_idempotency_key_len (length r.idempotency_key) ≡ false)
      × (is_empty r.tenant ≡ false)
      × (hash_request_body sha256 r.body ≡ HashResult.hashed h)

  middleware-Accepted :
      (t t' : ℕ) (r : Request) (h : Text) (m : Store) (w : W)
      → Accepted r h
      → middleware sha256 next t t' r m w
        ≡ serve_entry sha256 next t t' h r m w (get (full_key r) m)
  unfolding middleware
  middleware-Accepted t t' r h m w (c, k, n, q) = rw (c, k, n, q) refl

  abbrev pub recorded : Request → W → ResponseRecorder
  recorded r w = rec_calls (next r w).0.calls new_recorder

  abbrev pub stored_entry : ℕ → Text → Request → W → Entry
  stored_entry now h r w = entry_of (next r w).0.content_type (recorded r w) h now

  serve_entry-stale :
      (t t' : ℕ) (h : Text) (r : Request) (m : Store) (w : W) (o : Option Entry)
      → is_fresh t o ≡ false
      → serve_entry sha256 next t t' h r m w o ≡ run_next sha256 next t' h r m w
  serve_entry-stale t t' h r m w none q = refl
  serve_entry-stale t t' h r m w (some e) q = rw q refl

  run_next-stores :
      (t' : ℕ) (h : Text) (r : Request) (m : Store) (w : W)
      → is_cacheable (recorded r w) ≡ true
      → ltb (count (is_of_tenant r.tenant) m) max_idempotency_per_tenant ≡ true
      → get (full_key r) (run_next sha256 next t' h r m w).1 ≡ some (stored_entry t' h r w)
  unfolding run_next
  run_next-stores t' h r m w c k =
      rw c (get-store_reply r.tenant (full_key r) (stored_entry t' h r w) m k)

  serve_entry-fresh :
      (t t' : ℕ) (h : Text) (r : Request) (m : Store) (w : W) (o : Option Entry) (e : Entry)
      → o ≡ some e
      → ltb t e.expires_at ≡ true
      → serve_entry sha256 next t t' h r m w o ≡ (replay h e, m, w)
  serve_entry-fresh t t' h r m w none e p q = absurd (ground arith)
  serve_entry-fresh t t' h r m w (some x) e p q =
      subst (λ y. serve_entry sha256 next t t' h r m w (some y) ≡ (replay h e, m, w))
        (sym (some_inj p)) (rw q refl)

  first-runs :
      (t t' : ℕ) (r : Request) (h : Text) (m : Store) (w : W)
      → Accepted r h
      → is_fresh t (get (full_key r) m) ≡ false
      → middleware sha256 next t t' r m w ≡ run_next sha256 next t' h r m w
  first-runs t t' r h m w a f =
      middleware-Accepted t t' r h m w a ∙ serve_entry-stale t t' h r m w (get (full_key r) m) f

-- Two requests of one tenant with the same method, URI and idempotency key, which the middleware
-- covers, the second within ten minutes of the first and after no other: where the first is not in
-- the store, ends with a 2xx status and a body of at most 8 KB, and the tenant has less than 50
-- entries, the second does not reach the handler and leaves the store. If its body has the first
-- one's hash it gets the recorded status, type and body, and else the status 409.
pub repeated_request_is_replayed :
    {W : Type 0} (sha256 : Text → Text) (next : Request → W → Response × W) (r s : Request)
    (h h' : Text) (m : Store) (w : W) (t t' u u' : ℕ)
    → Accepted sha256 next r h
    → Accepted sha256 next s h'
    → full_key s ≡ full_key r
    → is_fresh t (get (full_key r) m) ≡ false
    → is_cacheable (recorded sha256 next r w) ≡ true
    → count (is_of_tenant r.tenant) m < max_idempotency_per_tenant
    → u < t' + idempotency_ttl
    → middleware sha256 next u u' s
        (middleware sha256 next t t' r m w).1
        (middleware sha256 next t t' r m w).2
      ≡ (
        (if same h h'
            then Reply.replayed
                (final_status (recorded sha256 next r w))
                (replay_type (stored_entry sha256 next t' h r w))
                (recorded sha256 next r w).body
            else Reply.failed 409),
        (middleware sha256 next t t' r m w).1,
        (next r w).1,
      )
unfolding run_next
repeated_request_is_replayed {W} sha256 next r s h h' m w t t' u u' a b k f c l d =
    let first = first-runs sha256 next t t' r h m w a f in
    let e = stored_entry sha256 next t' h r w in
    subst
      (λ (x : Reply × Store × W).
        middleware sha256 next u u' s x.1 x.2 ≡ (replay h' e, x.1, (next r w).1))
      (sym first)
      (middleware-Accepted sha256 next u u' s h' _ _ b
        ∙ serve_entry-fresh sha256 next u u' h' s _ _ _ e
            (ap (λ i. get i (run_next sha256 next t' h r m w).1) k
              ∙ run_next-stores sha256 next t' h r m w c (ground arith))
            (ground arith))
