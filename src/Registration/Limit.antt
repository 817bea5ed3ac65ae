-- ===== src/Registration/Limit.antt =====
-- `registrationLimiter` of internal/api/tenants.go. Times are nanoseconds.
use agentic_paasd.Prelude.{
  ℕ, suc, ◌+◌, ◌-◌, ◌*◌, Option, none, some, List, [], Text, ltb, leb, drop_all, if◌then◌else◌,
}
use agentic_paasd.BoundedMap.{get, put, evict}

abbrev pub reg_max_per_ip_per_hour : ℕ
reg_max_per_ip_per_hour = 5

abbrev pub reg_global_per_hour : ℕ
reg_global_per_hour = 20

abbrev pub reg_max_entries : ℕ
reg_max_entries = 10000

abbrev pub reg_window : ℕ
reg_window = 3600 * 1000000000

-- regEntry
pub record RegEntry : Type 0 where
  pub count : ℕ
  pub window_at : ℕ

-- The zero time of globalWindowAt is `none`.
pub record RegistrationLimiter : Type 0 where
  pub entries : List (Text × RegEntry)
  pub global_count : ℕ
  pub global_window_at : Option ℕ

abbrev pub new_limiter : RegistrationLimiter
new_limiter = record { entries = []; global_count = 0; global_window_at = none }

pub data Verdict : Type 0 where
  allowed : Verdict
  -- with the time until the window ends
  blocked : ℕ → Verdict

abbrev pub start_window : ℕ → RegistrationLimiter → RegistrationLimiter
start_window now rl = record rl { global_count = 0; global_window_at = some (now + reg_window) }

abbrev pub open_window : ℕ → Option ℕ → RegistrationLimiter → RegistrationLimiter
open_window now none rl = start_window now rl
open_window now (some e) rl = if ltb e now then start_window now rl else rl

abbrev pub time_until : ℕ → Option ℕ → ℕ
time_until now none = 0
time_until now (some e) = e - now

-- The entry that a permitted request leaves.
abbrev pub counted : Text → RegEntry → RegistrationLimiter → Verdict × RegistrationLimiter
counted ip e rl =
    (allowed, record rl { entries = put ip e rl.entries; global_count = suc rl.global_count })

abbrev pub fresh_entry : ℕ → RegEntry
fresh_entry now = record { count = 1; window_at = now + reg_window }

abbrev pub check_ip :
    ℕ → Text → Option RegEntry → RegistrationLimiter → Verdict × RegistrationLimiter
check_ip now ip none rl = counted ip (fresh_entry now) rl
check_ip now ip (some e) rl =
    if ltb e.window_at now
    then counted ip (fresh_entry now) rl
    else if leb reg_max_per_ip_per_hour e.count
    then (blocked (e.window_at - now), rl)
    else counted ip (record e { count = suc e.count }) rl

abbrev pub make_room : RegistrationLimiter → RegistrationLimiter
make_room rl = record rl { entries = evict reg_max_entries (λ e. e.window_at) rl.entries }

abbrev pub allow_in : ℕ → Text → RegistrationLimiter → Verdict × RegistrationLimiter
allow_in now ip rl =
    if leb reg_global_per_hour rl.global_count
    then (blocked (time_until now rl.global_window_at), rl)
    else check_ip now ip (get ip (make_room rl).entries) (make_room rl)

-- (*registrationLimiter).allow
unfoldable pub allow : ℕ → Text → RegistrationLimiter → Verdict × RegistrationLimiter
allow now ip rl = allow_in now ip (open_window now rl.global_window_at rl)

-- One turn of the goroutine of `init`.
unfoldable pub sweep : ℕ → RegistrationLimiter → RegistrationLimiter
sweep now rl = record rl { entries = drop_all (λ e. ltb e.1.window_at now) rl.entries }
