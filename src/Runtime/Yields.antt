-- ===== src/Runtime/Yields.antt =====
-- What holds of an action's answer, and of the world behind it, whenever it succeeds.
use agentic_paasd.Prelude.{◌≡◌, subst}
use agentic_paasd.Runtime.{World, Exec, Result, ok, err, continue, ◌>>=◌, pure}

abbrev pub Outcome : {A : Type 0} → (A → World → Type 0) → Result A → World → Type 0
Outcome P (ok a) w = P a w
Outcome P (err e) w = Unit

pub record Yields {A : Type 0} (P : A → World → Type 0) (m : Exec A) : Type 0 where
  pub at : (w : World) → Outcome P (m w).0 (m w).1

pub outcome-at :
    {A : Type 0} (P : A → World → Type 0) (r : Result A) (w : World) {a : A}
    → r ≡ ok a
    → Outcome P r w
    → P a w
outcome-at P r w e h = subst (λ x. Outcome P x w) e h

module _ {A B : Type 0} {P : A → World → Type 0} (Q : B → World → Type 0) where
  continue-learn :
      (r : Result A) (f : A → Exec B) (w : World)
      → Outcome P r w
      → ((a : A) (v : World) → P a v → Outcome Q (f a v).0 (f a v).1)
      → Outcome Q (continue r f w).0 (continue r f w).1
  continue-learn (ok a) f w h k = k a w h
  continue-learn (err e) f w h k = tt

  -- The second action may use what the first one ensures.
  pub Yields-learn :
      (m : Exec A) (f : A → Exec B)
      → Yields P m
      → ((a : A) (w : World) → P a w → Outcome Q (f a w).0 (f a w).1)
      → Yields Q (m >>= f)
  Yields-learn m f k kf = record { at = λ w. continue-learn (m w).0 f (m w).1 (k.at w) kf }

any_outcome : {A : Type 0} (r : Result A) (w : World) → Outcome (λ a v. Unit {0}) r w
any_outcome (ok a) w = tt
any_outcome (err e) w = tt

Yields-any : {A : Type 0} (m : Exec A) → Yields (λ a w. Unit {0}) m
Yields-any m = record { at = λ w. any_outcome (m w).0 (m w).1 }

-- The last action decides.
pub Yields-bind :
    {A B : Type 0} (Q : B → World → Type 0) (m : Exec A) (f : A → Exec B)
    → ((a : A) → Yields Q (f a))
    → Yields Q (m >>= f)
Yields-bind Q m f k = Yields-learn {P = λ a w. Unit {0}} Q m f (Yields-any m) (λ a w _. (k a).at w)

pub Yields-pure :
    {A : Type 0} (P : A → World → Type 0) (a : A) → ((w : World) → P a w) → Yields P (pure a)
Yields-pure P a h = record { at = h }
