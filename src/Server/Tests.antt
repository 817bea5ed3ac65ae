-- ===== src/Server/Tests.antt =====
-- A request from outside that claims to come from the local proxy.
use agentic_paasd.Prelude.{
  ◌≡◌, refl, Bool, true, false, All, none, some, [], codes, same, if◌then◌else◌,
}
use agentic_paasd.Server.{Net, Headers, Incoming, is_loopback, normalize_ip, admitted_ip}
use agentic_paasd.Server.Routes.{Middleware, routes}
use agentic_paasd.Server.Guarded.{ReachedAs, routes_are_guarded}
use agentic_paasd.Server.Trust.{forged_headers_change_nothing}

abbrev sample_net : Net
sample_net = record {
  split_host = λ _. none;
  parse_ip = λ s. some s;
  is_loopback_ip = λ ip. same ip (codes "127.0.0.1");
}

abbrev forged_headers : Headers
forged_headers = record {
  forwarded_for = codes "10.0.0.1";
  forwarded_proto = codes "https";
  real_ip = codes "10.0.0.1";
}

abbrev outside_request : Incoming
outside_request = record {
  remote_addr = codes "1.2.3.4";
  has_tls = false;
  headers = record { forwarded_for = []; forwarded_proto = []; real_ip = [] };
}

forged_headers_change_nothing_example :
    (admitted_ip sample_net false outside_request ≡ (
      if false
      then some (normalize_ip sample_net (codes "1.2.3.4"))
      else if false
      then some (normalize_ip sample_net (codes "1.2.3.4"))
      else none))
    × (admitted_ip sample_net false (record outside_request { headers = forged_headers })
        ≡ admitted_ip sample_net false outside_request)
unfolding is_loopback same
forged_headers_change_nothing_example =
    forged_headers_change_nothing sample_net false outside_request forged_headers refl

-- A request without a key.
abbrev keyless : Middleware → Bool
keyless Middleware.auth = false
keyless _ = true

routes_are_guarded_example : All (ReachedAs false keyless) routes
routes_are_guarded_example = routes_are_guarded false keyless
