-- ===== src/Server.antt =====
-- The way of a request through internal/api/server.go up to its handler: which of its headers are
-- believed. The parsers of package net are parameters.
pub mod Replies
pub mod Trust
pub mod Routes
pub mod Guarded
pub mod Tests
use agentic_paasd.Prelude.{
  Bool, true, false, List, [], Option, none, some, Text, codes, is_empty, same, if◌then◌else◌,
}
use agentic_paasd.Auth.Token.{trim_space}

-- net.SplitHostPort (the host), net.ParseIP (the address as ip.String prints it), IsLoopback.
pub record Net : Type 0 where
  pub split_host : Text → Option Text
  pub parse_ip : Text → Option Text
  pub is_loopback_ip : Text → Bool

-- The proxy's headers, where they are present; a missing header reads as the empty text.
pub record Headers : Type 0 where
  pub forwarded_for : Text
  pub forwarded_proto : Text
  pub real_ip : Text

pub record Incoming : Type 0 where
  pub remote_addr : Text
  pub has_tls : Bool
  pub headers : Headers

-- The host of "host:port", or the whole text.
abbrev pub host_or : Option Text → Text → Text
host_or (some host) s = host
host_or none s = s

abbrev pub loopback_of : Net → Option Text → Bool
loopback_of net none = false
loopback_of net (some ip) = net.is_loopback_ip ip

unfoldable pub is_loopback : Net → Text → Bool
is_loopback net addr = loopback_of net (net.parse_ip (host_or (net.split_host addr) addr))

abbrev pub no_headers : Headers
no_headers = record { forwarded_for = []; forwarded_proto = []; real_ip = [] }

unfoldable pub strip_untrusted : Net → Incoming → Incoming
strip_untrusted net r =
    if is_loopback net r.remote_addr then r else record r { headers = no_headers }

-- Whether requireHTTPS lets the request through.
unfoldable pub passes_https : Net → Incoming → Bool
passes_https net r =
    if is_loopback net r.remote_addr
    then same r.headers.forwarded_proto (codes "https")
    else r.has_tls

abbrev ip_or_empty : Option Text → Text
ip_or_empty (some ip) = ip
ip_or_empty none = []

-- "ip", "ip:port" or "[ip]:port"; empty if there is no valid address.
unfoldable pub normalize_ip : Net → Text → Text
normalize_ip net s =
    let t = trim_space s in
    if is_empty t then [] else ip_or_empty (net.parse_ip (host_or (net.split_host t) t))

unfoldable pub trusted_real_ip : Net → Incoming → Text
trusted_real_ip net r =
    let direct = normalize_ip net r.remote_addr in
    let forwarded = normalize_ip net r.headers.real_ip in
    if is_loopback net r.remote_addr
    then (if is_empty forwarded then direct else forwarded)
    else direct

-- What the chain of middlewares in front of the handlers makes of a request, and the address that
-- a handler then takes for the client's; `none` is the refusal with 403.
unfoldable pub admitted_ip : Net → Bool → Incoming → Option Text
admitted_ip net dev_mode r =
    let stripped = strip_untrusted net r in
    if dev_mode
    then some (trusted_real_ip net stripped)
    else if passes_https net stripped
    then some (trusted_real_ip net stripped)
    else none
