-- ===== src/Server/Trust.antt =====
-- A client that is not the local proxy cannot choose the address it is known by.
use agentic_paasd.Prelude.{◌≡◌, refl, Bool, true, false, none, some, if◌then◌else◌}
use agentic_paasd.Server.{
  Net, Headers, Incoming, is_loopback, strip_untrusted, passes_https, normalize_ip, trusted_real_ip,
  admitted_ip,
}

-- Of a request that does not come from a loopback address no header counts: it is let through
-- only over TLS (or in development), and the client's address is the one of its connection. Two
-- such requests that differ in their headers only are treated alike.
pub forged_headers_change_nothing :
    (net : Net) (dev_mode : Bool) (r : Incoming) (forged : Headers)
    → is_loopback net r.remote_addr ≡ false
    → (admitted_ip net dev_mode r ≡ (
        if dev_mode
        then some (normalize_ip net r.remote_addr)
        else if r.has_tls
        then some (normalize_ip net r.remote_addr)
        else none))
      × (admitted_ip net dev_mode (record r { headers = forged }) ≡ admitted_ip net dev_mode r)
unfolding admitted_ip strip_untrusted passes_https trusted_real_ip
forged_headers_change_nothing net true r forged h = rw (h, h) (refl, refl)
forged_headers_change_nothing net false r forged h = rw (h, h) (refl, refl)
