-- ===== src/Registration/Window.antt =====
-- How many registrations one window lets through.
use agentic_paasd.Prelude.{
  ℕ, suc, ◌+◌, ◌≤◌, ◌≡◌, refl, sym, subst, ◌∙◌, some_inj, false, Option, none, some, List, [], ◌∷◌,
  Text, All, ltb, leb, arith, if_both, Bool-cases, inl, inr,
}
use agentic_paasd.BoundedMap.{get}
use agentic_paasd.Registration.Limit.{
  RegEntry, RegistrationLimiter, Verdict, allow, allow_in, check_ip, make_room, open_window,
  reg_global_per_hour, reg_max_per_ip_per_hour,
}

abbrev pub passes : Verdict → ℕ
passes Verdict.allowed = 1
passes (Verdict.blocked wait) = 0

-- The number of requests that pass, in a sequence of them with their times and addresses.
unfoldable pub passing : List (ℕ × Text) → RegistrationLimiter → ℕ
passing [] rl = 0
passing ((now, ip) ∷ rs) rl = let (v, rl') = allow now ip rl in passes v + passing rs rl'

-- The window goes on and the count grows by what passes, up to 20.
abbrev Counts : RegistrationLimiter → Verdict × RegistrationLimiter → Type 0
Counts rl x =
    (x.1.global_window_at ≡ rl.global_window_at)
    × (x.1.global_count ≡ passes x.0 + rl.global_count)
    × (x.1.global_count ≤ reg_global_per_hour)

check_ip-Counts :
    (now : ℕ) (ip : Text) (o : Option RegEntry) (rl : RegistrationLimiter)
    → suc rl.global_count ≤ reg_global_per_hour
    → Counts rl (check_ip now ip o rl)
check_ip-Counts now ip none rl h = (refl, omega arith, h)
check_ip-Counts now ip (some e) rl h =
    if_both (Counts rl) (ltb e.window_at now) (refl, omega arith, h)
      (if_both (Counts rl) (leb reg_max_per_ip_per_hour e.count) (refl, omega arith, omega arith)
        (refl, omega arith, h))

allow_in-Counts :
    (now : ℕ) (ip : Text) (rl : RegistrationLimiter)
    → rl.global_count ≤ reg_global_per_hour
    → Counts rl (allow_in now ip rl)
allow_in-Counts now ip rl c = elim (Bool-cases (leb reg_global_per_hour rl.global_count)) [
  | inl q ↦ rw q (refl, omega arith, c)
  | inr q ↦
      rw q (check_ip-Counts now ip (get ip (make_room rl).entries) (make_room rl) (ground arith))
]

-- A window that is not over stays.
window_goes_on :
    (e now : ℕ) (rl : RegistrationLimiter) (o : Option ℕ)
    → o ≡ some e
    → now ≤ e
    → open_window now o rl ≡ rl
window_goes_on e now rl none w n = absurd (ground arith)
window_goes_on e now rl (some x) w n =
    let same_end : x ≡ e = some_inj w in let late : ltb x now ≡ false = ground arith in rw late refl

allow-Counts :
    (e now : ℕ) (ip : Text) (rl : RegistrationLimiter)
    → rl.global_window_at ≡ some e
    → now ≤ e
    → rl.global_count ≤ reg_global_per_hour
    → Counts rl (allow now ip rl)
unfolding allow
allow-Counts e now ip rl w n c =
    subst (λ (x : RegistrationLimiter). Counts rl (allow_in now ip x))
      (sym (window_goes_on e now rl rl.global_window_at w n)) (allow_in-Counts now ip rl c)

-- While a window of the limiter is open, at most 20 registrations pass, whatever the addresses
-- that they come from: those that it has counted and those that pass later, up to its end, are
-- together at most 20.
pub window_lets_through_twenty :
    (e : ℕ) (rs : List (ℕ × Text)) (rl : RegistrationLimiter)
    → rl.global_window_at ≡ some e
    → rl.global_count ≤ reg_global_per_hour
    → All (λ r. r.0 ≤ e) rs
    → passing rs rl + rl.global_count ≤ reg_global_per_hour
unfolding passing
window_lets_through_twenty e [] rl w c h = omega arith
window_lets_through_twenty e ((now, ip) ∷ rs) rl w c h =
    let (kept, grown, most) = allow-Counts e now ip rl w h.0 c in
    let rest = window_lets_through_twenty e rs (allow now ip rl).1 (kept ∙ w) most h.1 in
    omega (arith, rest, grown)
