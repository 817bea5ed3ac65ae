-- ===== src/Docker/Logged.antt =====
-- A property of every call that an action of internal/docker/client.go adds to the log.
use agentic_paasd.Prelude.{
  Bool, true, false, Option, none, some, List, ◌++◌, Text, ℕ, All, if◌then◌else◌,
}
use agentic_paasd.Runtime.{Answer, got, failure}
use agentic_paasd.Docker.{Sdk, Do, continue, ◌>>=◌, pure, fail, call, or_fail, check_none}

pub record Logged {A : Type 0} (P : Sdk → Type 0) (m : Do A) : Type 0 where
  pub at : (log : List Sdk) → All P log → All P (m log).1

module _ {P : Sdk → Type 0} where
  pub Logged-pure : {A : Type 0} (a : A) → Logged P (pure a)
  Logged-pure a = record { at = λ log h. h }

  pub Logged-fail : {A : Type 0} (m : Text) → Logged P (fail {A = A} m)
  Logged-fail m = record { at = λ log h. h }

  pub Logged-call : {A : Type 0} (c : Sdk) (f : ℕ → A) → P c → Logged P (call c f)
  unfolding call
  Logged-call c f p = record { at = λ log h. (p, h) }

  continue-at :
      {A B : Type 0} (r : Answer A) (f : A → Do B)
      → ((a : A) → Logged P (f a))
      → Logged P (continue r f)
  continue-at (got a) f k = k a
  continue-at (failure m) f k = record { at = λ log h. h }

  pub Logged-bind :
      {A B : Type 0} (m : Do A) (f : A → Do B)
      → Logged P m
      → ((a : A) → Logged P (f a))
      → Logged P (m >>= f)
  Logged-bind m f km kf = record {
    at = λ log h. (continue-at (m log).0 f kf).at (m log).1 (km.at log h);
  }

  pub Logged-or_fail : {A : Type 0} (p : Text) (r : Answer A) → Logged P (or_fail p r)
  Logged-or_fail p (got a) = Logged-pure a
  Logged-or_fail p (failure m) = Logged-fail (p ++ m)

  pub Logged-check_none : (p : Text) (r : Option Text) → Logged P (check_none p r)
  Logged-check_none p none = Logged-pure tt
  Logged-check_none p (some m) = Logged-fail (p ++ m)

  pub Logged-if :
      {A : Type 0} (b : Bool) (m n : Do A) → Logged P m → Logged P n → Logged P (if b then m else n)
  Logged-if true m n km kn = km
  Logged-if false m n km kn = kn

pub ruleset logged_rules = (
  Logged-pure, Logged-fail, Logged-call, Logged-bind, Logged-or_fail, Logged-check_none, Logged-if,
)
