-- ===== src/Startup/Tests.antt =====
-- A server started behind a proxy.
use agentic_paasd.Prelude.{
  ◌≡◌, ◌≤◌, refl, true, false, some, none, Text, codes, [], length, same, arith, if◌then◌else◌,
}
use agentic_paasd.Auth.Token.{trim_left, trim_right}
use agentic_paasd.Startup.{
  Flags, Outside, ServerConfig, start, check_bootstrap, check_listen, read_master_key, address,
}
use agentic_paasd.Startup.Guarded.{IsGuarded, production-IsGuarded}

abbrev sample_flags : Flags
sample_flags = record {
  port = codes "8080";
  listen_addr = [];
  dev_mode = false;
  open_registration = false;
  bootstrap_env = codes "0123456789abcdef0123456789abcdef";
}

abbrev sample_outside : Outside
sample_outside = record {
  key_file = some (codes "0123456789abcdef0123456789abcdefx");
  hex_decode = λ s. some s;
  opens_db = true;
  opens_docker = true;
  has_gvisor = true;
  has_builder = false;
}

abbrev sample_server : ServerConfig
sample_server = record {
  master_key = codes "0123456789abcdef0123456789abcdef";
  dev_mode = false;
  bootstrap_token = codes "0123456789abcdef0123456789abcdef";
  open_registration = false;
  has_build_manager = false;
  addr = codes "127.0.0.1:8080";
}

production-IsGuarded_example : IsGuarded sample_flags sample_outside sample_server
unfolding start check_bootstrap check_listen read_master_key address trim_left trim_right same
    agentic_paasd.Prelude.take
production-IsGuarded_example =
    production-IsGuarded sample_flags sample_outside sample_server refl refl

-- Without the runtime the server does not start.
no_gvisor : start sample_flags (record sample_outside { has_gvisor = false }) ≡ none
unfolding start check_bootstrap check_listen read_master_key trim_left trim_right same
    agentic_paasd.Prelude.take
no_gvisor = refl
