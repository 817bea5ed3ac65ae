-- ===== src/Registration/Profile.antt =====
-- handleTenantGet and handleTenantUpdate of internal/api/tenants.go.
use agentic_paasd.Prelude.{
  ℕ, Bool, ◌||◌, Option, none, some, Text, find, length, same, update, ltb, if◌then◌else◌,
}
use agentic_paasd.Store.{Db, Tenant}

pub data ProfileAnswer : Type 0 where
  profile : Tenant → ProfileAnswer
  refused : ℕ → ProfileAnswer  -- an HTTP status

abbrev pub answer_row : Option Tenant → ProfileAnswer
answer_row (some t) = profile t
answer_row none = refused 404

abbrev pub is_named : Text → Tenant → Bool
is_named tenant t = same t.id tenant

unfoldable pub handle_tenant_get : Bool → Text → Db → ProfileAnswer
handle_tenant_get up tenant db =
    if up then answer_row (find (is_named tenant) db.tenants) else refused 500

abbrev pub rename : Text → ℕ → Tenant → Tenant
rename name now t = record t { name = name; updated_at = now }

-- The name is left out, or of 2 to 128 bytes.
unfoldable pub handle_tenant_update : Bool → Bool → Option Text → ℕ → Text → Db → ProfileAnswer × Db
handle_tenant_update update_up get_up none now tenant db = (handle_tenant_get get_up tenant db, db)
handle_tenant_update update_up get_up (some name) now tenant db =
    let renamed = record db { tenants = update (is_named tenant) (rename name now) db.tenants } in
    if ltb (length name) 2 || ltb 128 (length name)
    then (refused 400, db)
    else if update_up
    then (handle_tenant_get get_up tenant renamed, renamed)
    else (refused 500, db)
