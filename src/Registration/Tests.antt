-- ===== src/Registration/Tests.antt =====
-- Registrations at a small server.
use agentic_paasd.Prelude.{
  ap, same, count, is_empty, ◌≡◌, false, true, ℕ, ◌+◌, ◌≤◌, refl, true, false, some, List, [], ◌∷◌,
  ◌++◌, Text, codes, arith,
}
use agentic_paasd.Store.{Db}
use agentic_paasd.Registration.Limit.{
  allow, Verdict, RegistrationLimiter, new_limiter, reg_global_per_hour,
}
use agentic_paasd.Registration.Handler.{Config, Body, Request, handle_tenant_register}
use agentic_paasd.BoundedMap.{get, evict}
use agentic_paasd.Registration.Email.{email_matches, all_chars, domain_matches, cut_last}
use agentic_paasd.Auth.Token.{cut, trim_left, trim_right, trim_space}
use agentic_paasd.Registration.Gatekeeper.{closed_registration_needs_token}
use agentic_paasd.Registration.Window.{passing, window_lets_through_twenty}
use agentic_paasd.Registration.Atomic.{AllOrNothing, registration_all_or_nothing}

abbrev busy_limiter : RegistrationLimiter
busy_limiter = record { entries = []; global_count = 19; global_window_at = some 5000 }

abbrev three_requests : List (ℕ × Text)
three_requests = (100, codes "10.0.0.1") ∷ (200, codes "10.0.0.2") ∷ (300, codes "10.0.0.1") ∷ []

window_lets_through_twenty_example : passing three_requests busy_limiter + 19 ≤ reg_global_per_hour
window_lets_through_twenty_example =
    window_lets_through_twenty 5000 three_requests busy_limiter refl (omega arith)
      (omega arith, (omega arith, (omega arith, tt)))

abbrev sample_config : Config
sample_config = record {
  open_registration = false;
  bootstrap_token = codes "boot";
  master_key = codes "mk";
  hmac = λ key message. key ++ message;
}

abbrev sample_request : Request
sample_request = record {
  at = 100;
  ip = codes "10.0.0.1";
  provided_token = codes " boot ";
  body = Body.decoded (codes "one") (codes "a@b.io");
  stored_at = 100;
  count_ok = true;
  tenant_id = some (codes "t1");
  begin_ok = true;
  tenant_ok = true;
  quota_ok = true;
  generated = some (codes "s3cret", codes "abcdef12");
  key_ok = true;
  commit_ok = true;
}

abbrev empty_db : Db
empty_db = record {
  tenants = [];
  quotas = [];
  services = [];
  envs = [];
  keys = [];
  databases = [];
  builds = [];
}

registration_all_or_nothing_example :
    AllOrNothing sample_config empty_db
      (handle_tenant_register sample_config sample_request new_limiter empty_db).0
registration_all_or_nothing_example =
    registration_all_or_nothing sample_config sample_request new_limiter empty_db

-- Takes the key off again.
abbrev message_of : Text → Text
message_of (_ ∷ _ ∷ message) = message
message_of _ = []

closed_registration_needs_token_example :
    ((allow 100 (codes "10.0.0.1") new_limiter).0 ≡ Verdict.allowed)
    × (is_empty (codes "boot") ≡ false)
    × (trim_space (codes " boot ") ≡ codes "boot")
unfolding handle_tenant_register allow get evict same trim_right trim_left email_matches cut
    all_chars domain_matches cut_last count
closed_registration_needs_token_example =
    closed_registration_needs_token sample_config sample_request new_limiter empty_db
      (λ a b e. ap message_of e) refl refl
