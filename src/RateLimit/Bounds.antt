-- ===== src/RateLimit/Bounds.antt =====
-- The limiter's map is bounded, tenants do not meet in it, and the advice to a client is bounded.
use agentic_paasd.Prelude.{
  ℕ, ◌*◌, ◌+◌, ◌/◌, ◌≤◌, ◌<◌, ◌≡◌, ◌⊎◌, inl, inr, refl, true, false, Option, none, some, List, [],
  ◌∷◌, Text, same, same_refl, ◌∙◌, is_empty, length, ltb, leb, arith, Bool-cases, any,
}
use agentic_paasd.BoundedMap.{get, put, evict, has_key}
use agentic_paasd.BoundedMap.Laws.{
  NamedKeys, NamedKeys-put, NamedKeys-evict, length-put-evict, length-delete-lt, get-put,
}
use agentic_paasd.RateLimit.{
  Buckets, RateLimitEntry, RateLimiter, limiter_of, get_limiter, middleware, entry_at, retry_after,
  max_rate_limit_entries,
}

get-any :
    {V : Type 0} (k : Text) (m : List (Text × V)) {v : V}
    → get k m ≡ some v
    → any (has_key k) m ≡ true
unfolding get
get-any k [] h = absurd (ground arith)
get-any k ((j, w) ∷ m) {v} h = ground (arith, get-any k m {v = v})

-- A write to a key that is there does not make a map longer.
length-put-le :
    {V : Type 0} (k : Text) (v : V) (m : List (Text × V))
    → any (has_key k) m ≡ true
    → length (put k v m) ≤ length m
unfolding put
length-put-le k v m h = omega (arith, length-delete-lt k m h)

module _ {B : Type 0} (b : Buckets B) where
  abbrev pub Bounded : RateLimiter b → Type 0
  Bounded m = NamedKeys m × (length m ≤ max_rate_limit_entries)

  -- The entry that Allow changes is in the map that getLimiter leaves.
  limiter-Bounded :
      (now : ℕ) (key : Text) (m : RateLimiter b) (o : Option (RateLimitEntry B))
      → get key m ≡ o
      → is_empty key ≡ false
      → Bounded m
      → Bounded (limiter_of b now key o m).1
  limiter-Bounded now key m (some e) q n (h, l) = (
    NamedKeys-put key (entry_at b now e.limiter) m n h,
    omega (arith, l, length-put-le key (entry_at b now e.limiter) m (get-any key m q)),
  )
  limiter-Bounded now key m none q n (h, l) = (
    NamedKeys-put key (entry_at b now b.new_limiter) _ n
        (NamedKeys-evict max_rate_limit_entries (λ e. e.last_seen) m h),
    length-put-evict max_rate_limit_entries (λ e. e.last_seen) key (entry_at b now b.new_limiter) m
        (omega arith) h l,
  )

  -- After getLimiter the tenant has an entry.
  limiter-any :
      (now : ℕ) (key : Text) (m : RateLimiter b) (o : Option (RateLimitEntry B))
      → any (has_key key) (limiter_of b now key o m).1 ≡ true
  unfolding put
  limiter-any now key m (some e) = rw (same_refl key) refl
  limiter-any now key m none = rw (same_refl key) refl

  middleware-Bounded :
      (now : ℕ) (tenant : Text) (m : RateLimiter b)
      → Bounded m
      → Bounded (middleware b now tenant m).1
  unfolding middleware get_limiter
  middleware-Bounded now tenant m h = elim (Bool-cases (is_empty tenant)) [
    | inl e ↦ rw e h
    | inr e ↦
        let k = limiter-Bounded now tenant m (get tenant m) refl e h in
        let entry = entry_at b now (b.take now (limiter_of b now tenant (get tenant m) m).0).1 in
        rw e (
          NamedKeys-put tenant entry (limiter_of b now tenant (get tenant m) m).1 e k.0,
          omega (
            arith,
            k.1,
            length-put-le tenant entry (limiter_of b now tenant (get tenant m) m).1
                (limiter-any now tenant m (get tenant m)),
          ),
        )
  ]

  -- Requests of tenants one after another.
  unfoldable pub serve_all : List (ℕ × Text) → RateLimiter b → RateLimiter b
  serve_all [] m = m
  serve_all ((now, tenant) ∷ rs) m = serve_all rs (middleware b now tenant m).1

  put-apart :
      (key other : Text) (e : RateLimitEntry B) (m : RateLimiter b)
      → same other key ≡ false
      → get other (put key e m) ≡ get other m
  put-apart key other e m n = get-put key other e m ∙ rw n refl

  limiter-apart :
      (now : ℕ) (key other : Text) (m : RateLimiter b) (o : Option (RateLimitEntry B))
      → same other key ≡ false
      → length m < max_rate_limit_entries
      → get other (limiter_of b now key o m).1 ≡ get other m
  unfolding evict
  limiter-apart now key other m (some e) n l = put-apart key other (entry_at b now e.limiter) m n
  limiter-apart now key other m none n l =
      let room : leb max_rate_limit_entries (length m) ≡ false = ground arith in
      put-apart key other (entry_at b now b.new_limiter) _ n ∙ rw room refl

-- A request of one tenant leaves the bucket of every other tenant as it was, as long as there are
-- less than 10000 entries: whatever one tenant sends, another keeps its allowance.
pub tenants_keep_buckets :
    {B : Type 0} (b : Buckets B) (now : ℕ) (tenant other : Text) (m : RateLimiter b)
    → same other tenant ≡ false
    → length m < max_rate_limit_entries
    → get other (middleware b now tenant m).1 ≡ get other m
unfolding middleware get_limiter
tenants_keep_buckets b now tenant other m n l = elim (Bool-cases (is_empty tenant)) [
  | inl e ↦ rw e refl
  | inr e ↦
      rw e (put-apart b tenant other _ _ n ∙ limiter-apart b now tenant other m (get tenant m) n l)
]

-- A map with at most 10000 entries, all under a key that is not empty, is such a map after any
-- requests of any tenants.
pub serve_all-Bounded :
    {B : Type 0} (b : Buckets B) (rs : List (ℕ × Text)) (m : RateLimiter b)
    → Bounded b m
    → Bounded b (serve_all b rs m)
unfolding serve_all
serve_all-Bounded b [] m h = h
serve_all-Bounded b ((now, tenant) ∷ rs) m h =
    serve_all-Bounded b rs _ (middleware-Bounded b now tenant m h)

-- The seconds that a client is told to wait are between 1 and 60, and in between they are enough:
-- that many seconds are at least the delay.
pub retry_after_is_enough :
    (delay : ℕ)
    → (1 ≤ retry_after delay)
      × (retry_after delay ≤ 60)
      × ((60 ≤ retry_after delay) ⊎ (delay ≤ retry_after delay * 1000000000))
retry_after_is_enough delay = elim (Bool-cases (ltb ((delay + 999999999) / 1000000000) 1)) [
  | inl e ↦ rw e (omega arith, omega arith, inr (ground arith))
  | inr e ↦ elim (Bool-cases (ltb 60 ((delay + 999999999) / 1000000000))) [
    | inl f ↦ rw (e, f) (omega arith, omega arith, inl (omega arith))
    | inr f ↦ rw (e, f) (ground arith, ground arith, inr (omega arith))
  ]
]
