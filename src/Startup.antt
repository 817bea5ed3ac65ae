-- ===== src/Startup.antt =====
-- main of cmd/ah/main.go up to the running server. `none` is log.Fatalf; warnings are left out.
pub mod Guarded
pub mod Tests
use agentic_paasd.Prelude.{
  ℕ, Bool, true, false, not, ◌&&◌, ◌||◌, Option, none, some, Text, codes, ◌++◌, is_empty, same,
  length, ltb, take, if◌then◌else◌,
}
use agentic_paasd.Auth.Token.{trim_space}
use agentic_paasd.Registration.Handler.{Config}

-- The flags, and AH_BOOTSTRAP_TOKEN.
pub record Flags : Type 0 where
  pub port : Text
  pub listen_addr : Text
  pub dev_mode : Bool
  pub open_registration : Bool
  pub bootstrap_env : Text

-- What the outside answers: files, hex.DecodeString, SQLite, Docker.
pub record Outside : Type 0 where
  pub key_file : Option Text
  pub hex_decode : Text → Option Text
  pub opens_db : Bool
  pub opens_docker : Bool
  pub has_gvisor : Bool
  pub has_builder : Bool

-- api.ServerConfig and the address of the http.Server.
pub record ServerConfig : Type 0 where
  pub master_key : Text
  pub dev_mode : Bool
  pub bootstrap_token : Text
  pub open_registration : Bool
  pub has_build_manager : Bool
  pub addr : Text

abbrev pub then_some {ℓ} : {A : Type ℓ} → Bool → Option A → Option A
then_some true r = r
then_some false r = none

-- The token is set and of 32 bytes at least, or registration is open in development.
unfoldable pub check_bootstrap : Flags → Text → Bool
check_bootstrap f token =
    (if is_empty token then f.dev_mode && f.open_registration else not (ltb (length token) 32))
    && not (f.open_registration && not f.dev_mode)

unfoldable pub check_listen : Flags → Bool
check_listen f =
    f.dev_mode
    || is_empty f.listen_addr
    || same f.listen_addr (codes "127.0.0.1")
    || same f.listen_addr (codes "::1")

abbrev pub long_enough : Option Text → Option Text
long_enough none = none
long_enough (some key) = if ltb (length key) 32 then none else some (take 32 key)

abbrev pub decoded : Outside → Option Text → Option Text
decoded o none = none
decoded o (some content) = long_enough (o.hex_decode (trim_space content))

-- The first 32 bytes of the key.
unfoldable pub read_master_key : Outside → Option Text
read_master_key o = decoded o o.key_file

unfoldable pub address : Flags → Text
address f =
    if is_empty f.listen_addr
    then codes "127.0.0.1:" ++ f.port
    else f.listen_addr ++ (codes ":" ++ f.port)

abbrev pub serve_with : Flags → Outside → Text → Option Text → Option ServerConfig
serve_with f o token none = none
serve_with f o token (some key) =
    then_some (o.opens_db && o.opens_docker && (o.has_gvisor || f.dev_mode)) (
      some (record {
        master_key = key;
        dev_mode = f.dev_mode;
        bootstrap_token = token;
        open_registration = f.open_registration;
        has_build_manager = o.has_builder;
        addr = address f;
      }))

unfoldable pub start : Flags → Outside → Option ServerConfig
start f o =
    let token = trim_space f.bootstrap_env in
    then_some (check_bootstrap f token && check_listen f) (serve_with f o token (read_master_key o))

-- What the registration's handler is given of it.
abbrev pub registration_config : (Text → Text → Text) → ServerConfig → Config
registration_config hmac c = record {
  open_registration = c.open_registration;
  bootstrap_token = c.bootstrap_token;
  master_key = c.master_key;
  hmac = hmac;
}
