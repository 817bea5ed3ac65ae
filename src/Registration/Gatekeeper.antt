-- ===== src/Registration/Gatekeeper.antt =====
-- Who may register.
use agentic_paasd.Prelude.{
  Text, same_sound, ◌≡◌, inl, inr, refl, Bool, true, false, is_empty, arith, Bool-cases,
}
use agentic_paasd.Store.{Db}
use agentic_paasd.Auth.Token.{trim_space}
use agentic_paasd.Registration.Limit.{RegistrationLimiter, Verdict, allow}
use agentic_paasd.Registration.Handler.{
  Config, Request, handle_tenant_register, after_verdict, check_token, hmac_equal,
}
use agentic_paasd.Registration.Atomic.{is_registered}

abbrev pub holds_token : Config → Request → Bool
holds_token c r = hmac_equal c.hmac (trim_space r.provided_token) c.bootstrap_token c.master_key

check_token-holds :
    (c : Config) (r : Request) (db : Db)
    → c.open_registration ≡ false
    → is_registered (check_token c r db).0 ≡ true
    → (is_empty c.bootstrap_token ≡ false) × (holds_token c r ≡ true)
check_token-holds c r db o h = elim (Bool-cases (is_empty c.bootstrap_token)) [
  | inl e ↦ absurd (ground arith)
  | inr e ↦ elim (Bool-cases (holds_token c r)) [ inl t ↦ (e, t) | inr t ↦ absurd (ground arith) ]
]

by_verdict :
    (c : Config) (r : Request) (db : Db) (v : Verdict)
    → c.open_registration ≡ false
    → is_registered (after_verdict c r db v).0 ≡ true
    → (v ≡ Verdict.allowed) × (is_empty c.bootstrap_token ≡ false) × (holds_token c r ≡ true)
by_verdict c r db (Verdict.blocked wait) o h = absurd (ground arith)
by_verdict c r db Verdict.allowed o h = let (e, t) = check_token-holds c r db o h in (refl, e, t)

-- Where registration is not open, and HMAC under the master key maps no two messages to one code,
-- a request that is answered with a token was let through by the limiter, the server has a
-- bootstrap token, and the request's, without the white space around it, is that token.
pub closed_registration_needs_token :
    (c : Config) (r : Request) (rl : RegistrationLimiter) (db : Db)
    → ((a b : Text) → c.hmac c.master_key a ≡ c.hmac c.master_key b → a ≡ b)
    → c.open_registration ≡ false
    → is_registered (handle_tenant_register c r rl db).0.0 ≡ true
    → ((allow r.at r.ip rl).0 ≡ Verdict.allowed)
      × (is_empty c.bootstrap_token ≡ false)
      × (trim_space r.provided_token ≡ c.bootstrap_token)
unfolding handle_tenant_register
closed_registration_needs_token c r rl db injective o h =
    let (allowed, set, equal) = by_verdict c r db (allow r.at r.ip rl).0 o h in
    (allowed, set, injective _ _ (same_sound _ _ equal))
