-- ===== src/Runtime/Keeps.antt =====
-- Relations between the world before and after an action, one rule for each way to build one.
use agentic_paasd.Prelude.{
  Bool, true, false, Option, none, some, List, [], ◌∷◌, Text, if◌then◌else◌,
}
use agentic_paasd.Runtime.{
  World, Exec, Result, ok, err, Error, Answer, got, failure, continue, ◌>>=◌, ◌>>◌, pure, raise,
  when, or_fail, or_fail_with, check_none, attempt, for_each, handled, on_error, on_error_as,
}

-- A relation that holds over no step, and over two steps if over each.
pub record IsPreorder (R : World → World → Type 0) : Type 0 where
  pub stay : (w : World) → R w w
  pub step : (u v w : World) → R u v → R v w → R u w

pub record Keeps {A : Type 0} (R : World → World → Type 0) (m : Exec A) : Type 0 where
  pub at : (w : World) → R w (m w).1

module _ {R : World → World → Type 0} (o : IsPreorder R) where
  pub Keeps-pure : {A : Type 0} (a : A) → Keeps R (pure a)
  Keeps-pure a = record { at = o.stay }

  pub Keeps-raise : {A : Type 0} (e : Error) → Keeps R (raise {A = A} e)
  Keeps-raise e = record { at = o.stay }

  continue-at :
      {A B : Type 0} (r : Result A) (f : A → Exec B)
      → ((a : A) → Keeps R (f a))
      → Keeps R (continue r f)
  continue-at (ok a) f kf = kf a
  continue-at (err e) f kf = record { at = o.stay }

  pub Keeps-bind :
      {A B : Type 0} (m : Exec A) (f : A → Exec B)
      → Keeps R m
      → ((a : A) → Keeps R (f a))
      → Keeps R (m >>= f)
  Keeps-bind m f km kf = record {
    at = λ w. o.step _ _ _ (km.at w) ((continue-at (m w).0 f kf).at (m w).1);
  }

  pub Keeps-then :
      {B : Type 0} (m : Exec (Unit {0})) (n : Exec B) → Keeps R m → Keeps R n → Keeps R (m >> n)
  Keeps-then m n km kn = Keeps-bind m (λ _. n) km (λ _. kn)

  pub Keeps-when : (b : Bool) (m : Exec (Unit {0})) → Keeps R m → Keeps R (when b m)
  Keeps-when true m k = k
  Keeps-when false m k = Keeps-pure tt

  pub Keeps-if :
      {A : Type 0} (b : Bool) (m n : Exec A) → Keeps R m → Keeps R n → Keeps R (if b then m else n)
  Keeps-if true m n km kn = km
  Keeps-if false m n km kn = kn

  pub Keeps-or_fail :
      {A : Type 0} (r : Option A) (h : Exec (Unit {0})) (e : Error)
      → Keeps R h
      → Keeps R (or_fail r h e)
  Keeps-or_fail (some a) h e k = Keeps-pure a
  Keeps-or_fail none h e k = Keeps-then h (raise e) k (Keeps-raise e)

  pub Keeps-or_fail_with :
      {A : Type 0} (r : Answer A) (h : Text → Exec (Unit {0})) (e : Text → Error)
      → ((m : Text) → Keeps R (h m))
      → Keeps R (or_fail_with r h e)
  Keeps-or_fail_with (got a) h e k = Keeps-pure a
  Keeps-or_fail_with (failure m) h e k = Keeps-then (h m) (raise (e m)) (k m) (Keeps-raise (e m))

  pub Keeps-check_none :
      (r : Option Text) (h : Text → Exec (Unit {0})) (e : Text → Error)
      → ((m : Text) → Keeps R (h m))
      → Keeps R (check_none r h e)
  Keeps-check_none none h e k = Keeps-pure tt
  Keeps-check_none (some m) h e k = Keeps-then (h m) (raise (e m)) (k m) (Keeps-raise (e m))

  handled-at :
      {A : Type 0} (r : Result A) (h : Error → Exec (Unit {0}))
      → ((e : Error) → Keeps R (h e))
      → Keeps R (handled r h)
  handled-at (ok a) h k = Keeps-pure a
  handled-at (err e) h k = Keeps-then (h e) (raise e) (k e) (Keeps-raise e)

  pub Keeps-on_error :
      {A : Type 0} (m : Exec A) (h : Error → Exec (Unit {0}))
      → Keeps R m
      → ((e : Error) → Keeps R (h e))
      → Keeps R (on_error m h)
  Keeps-on_error m h km kh = record {
    at = λ w. o.step _ _ _ (km.at w) ((handled-at (m w).0 h kh).at (m w).1);
  }

  pub Keeps-on_error_as :
      {A : Type 0} (e : Error) (m : Exec A) → Keeps R m → Keeps R (on_error_as e m)
  Keeps-on_error_as e m k = record { at = k.at }

  pub Keeps-attempt : {A : Type 0} (m : Exec A) → Keeps R m → Keeps R (attempt m)
  Keeps-attempt m k = record { at = k.at }

  pub Keeps-for_each {ℓ} :
      {A : Type ℓ} (xs : List A) (f : A → Exec (Unit {0}))
      → ((a : A) → Keeps R (f a))
      → Keeps R (for_each xs f)
  unfolding for_each
  Keeps-for_each [] f k = Keeps-pure tt
  Keeps-for_each (x ∷ xs) f k = Keeps-then (f x) (for_each xs f) (k x) (Keeps-for_each xs f k)

pub ruleset keeps_rules = (
  Keeps-pure, Keeps-raise, Keeps-bind, Keeps-when, Keeps-if, Keeps-or_fail, Keeps-or_fail_with,
  Keeps-check_none, Keeps-on_error, Keeps-on_error_as, Keeps-attempt, Keeps-for_each,
)
