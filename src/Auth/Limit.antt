-- ===== src/Auth/Limit.antt =====
-- A tenant's keys are limited.
use agentic_paasd.Prelude.{◌≤◌, Text}
use agentic_paasd.Auth.Gate.{Gate}
use agentic_paasd.Auth.Keys.{Answer, live_keys, max_keys_per_tenant}

abbrev AtMost : Text → Answer × Gate → Type 0
AtMost tenant x = live_keys tenant x.1 ≤ max_keys_per_tenant
