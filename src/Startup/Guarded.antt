-- ===== src/Startup/Guarded.antt =====
-- What a server of cmd/ah/main.go that runs in production has been checked for.
use agentic_paasd.Prelude.{
  ◌≡◌, refl, ◌∙◌, ◌≤◌, ◌⊎◌, inl, inr, Bool-cases, Bool, true, false, ◌&&◌, ◌||◌, Option, none, some,
  Text, codes, ◌++◌, is_empty, same, same_sound, length, arith,
}
use agentic_paasd.Auth.Token.{trim_space}
use agentic_paasd.Store.{Db}
use agentic_paasd.Registration.Limit.{RegistrationLimiter}
use agentic_paasd.Registration.Handler.{Request, handle_tenant_register}
use agentic_paasd.Registration.Atomic.{is_registered}
use agentic_paasd.Registration.Gatekeeper.{closed_registration_needs_token}
use agentic_paasd.Startup.{
  Flags, Outside, ServerConfig, check_bootstrap, check_listen, read_master_key, address, serve_with,
  then_some, start, registration_config,
}

pub record IsGuarded (f : Flags) (o : Outside) (c : ServerConfig) : Type 0 where
  pub closed : c.open_registration ≡ false
  pub token : 32 ≤ length c.bootstrap_token
  pub gvisor : o.has_gvisor ≡ true
  pub address_local : (c.addr ≡ codes "127.0.0.1:" ++ f.port) ⊎ (c.addr ≡ codes "::1:" ++ f.port)

then_some-eq {ℓ} :
    {A : Type ℓ} (b : Bool) (r : Option A) {a : A}
    → then_some b r ≡ some a
    → (b ≡ true) × (r ≡ some a)
then_some-eq true r h = (refl, h)
then_some-eq false r h = cc

-- What starts without --dev has the token and the flag, and gVisor.
serve_with-eq :
    (f : Flags) (o : Outside) (token : Text) (key : Option Text) (c : ServerConfig)
    → f.dev_mode ≡ false
    → serve_with f o token key ≡ some c
    → (c.open_registration ≡ f.open_registration)
      × (c.bootstrap_token ≡ token)
      × (o.has_gvisor ≡ true)
      × (c.addr ≡ address f)
serve_with-eq f o token none c dev h = cc
serve_with-eq f o token (some key) c dev h =
    let (up, e) = then_some-eq (o.opens_db && o.opens_docker && (o.has_gvisor || f.dev_mode)) _ h in
    (ground arith, ground arith, ground arith, ground arith)

check_bootstrap-closed :
    (f : Flags) (token : Text)
    → f.dev_mode ≡ false
    → check_bootstrap f token ≡ true
    → (f.open_registration ≡ false) × (32 ≤ length token)
unfolding check_bootstrap
check_bootstrap-closed f token dev h = (ground arith, ground arith)

check_listen-local :
    (f : Flags)
    → f.dev_mode ≡ false
    → check_listen f ≡ true
    → (address f ≡ codes "127.0.0.1:" ++ f.port) ⊎ (address f ≡ codes "::1:" ++ f.port)
unfolding check_listen address
check_listen-local f dev h = elim (Bool-cases (is_empty f.listen_addr)) [
  | inl e ↦ inl (rw e refl)
  | inr e ↦ elim (Bool-cases (same f.listen_addr (codes "127.0.0.1"))) [
    | inl v4 ↦ inl (rw (same_sound f.listen_addr (codes "127.0.0.1") v4) refl)
    | inr v4 ↦
        let v6 : same f.listen_addr (codes "::1") ≡ true = ground arith in
        inr (rw (same_sound f.listen_addr (codes "::1") v6) refl)
  ]
]

-- A server that starts without --dev has closed registration, a bootstrap token of 32 bytes at
-- least, gVisor, and listens on 127.0.0.1 or ::1 only.
pub production-IsGuarded :
    (f : Flags) (o : Outside) (c : ServerConfig)
    → f.dev_mode ≡ false
    → start f o ≡ some c
    → IsGuarded f o c
unfolding start
production-IsGuarded f o c dev h =
    let token = trim_space f.bootstrap_env in
    let (checked, served) = then_some-eq (check_bootstrap f token && check_listen f) _ h in
    let (o', t, g, a) = serve_with-eq f o token (read_master_key o) c dev served in
    let (closed, long) = check_bootstrap-closed f token dev (ground arith) in
    record {
      closed = o' ∙ closed;
      token = rw t long;
      gvisor = g;
      address_local = rw a (check_listen-local f dev (ground arith));
    }

-- A server that was started without --dev, whatever its flags, registers a tenant only for a
-- request with the bootstrap token, which is of 32 bytes at least, where HMAC under the master key
-- maps no two messages to one code.
pub production_registration_needs_token :
    (f : Flags) (o : Outside) (c : ServerConfig) (hmac : Text → Text → Text) (r : Request)
    (rl : RegistrationLimiter) (db : Db)
    → ((a b : Text) → hmac c.master_key a ≡ hmac c.master_key b → a ≡ b)
    → f.dev_mode ≡ false
    → start f o ≡ some c
    → is_registered (handle_tenant_register (registration_config hmac c) r rl db).0.0 ≡ true
    → (32 ≤ length c.bootstrap_token) × (trim_space r.provided_token ≡ c.bootstrap_token)
production_registration_needs_token f o c hmac r rl db injective dev h reg =
    let g = production-IsGuarded f o c dev h in
    let config = registration_config hmac c in
    (g.token, (closed_registration_needs_token config r rl db injective g.closed reg).2)
