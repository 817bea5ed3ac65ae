-- ===== src/RateLimit/Tests.antt =====
-- Requests under a small bucket.
use agentic_paasd.Prelude.{ℕ, ◌-◌, ◌*◌, ◌≤◌, ◌⊎◌, refl, [], ◌∷◌, codes, ltb, arith}
use agentic_paasd.RateLimit.{Buckets, RateLimiter, retry_after}
use agentic_paasd.RateLimit.Bounds.{Bounded, serve_all, serve_all-Bounded, retry_after_is_enough}

-- Three requests and no refill.
abbrev three : Buckets ℕ
three = record { new_limiter = 3; take = λ now n. (ltb 0 n, n - 1); delay = λ now n. 1500000000 }

abbrev one_entry : RateLimiter three
one_entry = (codes "t2", record { limiter = 2; last_seen = 5 }) ∷ []

serve_all-Bounded_example :
    Bounded three
      (serve_all three ((10, codes "t1") ∷ (11, codes "t2") ∷ (12, codes "t1") ∷ []) one_entry)
serve_all-Bounded_example =
    serve_all-Bounded three ((10, codes "t1") ∷ (11, codes "t2") ∷ (12, codes "t1") ∷ []) one_entry
      ((refl, tt), omega arith)

retry_after_is_enough_example :
    (1 ≤ retry_after 1500000000)
    × (retry_after 1500000000 ≤ 60)
    × ((60 ≤ retry_after 1500000000) ⊎ (1500000000 ≤ retry_after 1500000000 * 1000000000))
retry_after_is_enough_example = retry_after_is_enough 1500000000
