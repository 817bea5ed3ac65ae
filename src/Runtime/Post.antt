-- ===== src/Runtime/Post.antt =====
-- What an action ensures when it succeeds, and what it keeps when it fails.
use agentic_paasd.Prelude.{◌≡◌, refl, ◌∙◌, true, false, arith}
use agentic_paasd.Store.{Db}
use agentic_paasd.Runtime.{
  World, Env, Exec, Error, Result, ok, err, is_ok, continue, ◌>>=◌, pure, query, in_tx, finish_tx,
  sql, next, time_now,
}
use agentic_paasd.Runtime.Keeps.{IsPreorder, Keeps}

-- `P` holds of the world behind every success.
pub record Post {A : Type 0} (P : World → Type 0) (m : Exec A) : Type 0 where
  pub at : (w : World) → is_ok (m w).0 ≡ true → P (m w).1

-- `R` holds between the worlds around every failure.
pub record Failsafe {A : Type 0} (R : World → World → Type 0) (m : Exec A) : Type 0 where
  pub at : (w : World) → is_ok (m w).0 ≡ false → R w (m w).1

module _ {P : World → Type 0} {A B : Type 0} where
  continue-Post : (r : Result A) (f : A → Exec B) → ((a : A) → Post P (f a)) → Post P (continue r f)
  continue-Post (ok a) f k = k a
  continue-Post (err e) f k = record { at = λ w h. cc }

  -- The last step decides.
  pub Post-bind : (m : Exec A) (f : A → Exec B) → ((a : A) → Post P (f a)) → Post P (m >>= f)
  Post-bind m f k = record { at = λ w. (continue-Post (m w).0 f k).at (m w).1 }

module _ {R : World → World → Type 0} (o : IsPreorder R) {A B : Type 0} where
  continue-Failsafe :
      (r : Result A) (f : A → Exec B) → ((a : A) → Failsafe R (f a)) → Failsafe R (continue r f)
  continue-Failsafe (ok a) f k = k a
  continue-Failsafe (err e) f k = record { at = λ w h. o.stay w }

  last-at :
      (r : Result A) (b : A → B) (u w : World)
      → (is_ok r ≡ false → R u w)
      → is_ok (continue r (λ a. pure (b a)) w).0 ≡ false
      → R u (continue r (λ a. pure (b a)) w).1
  last-at (ok a) b u w k h = cc
  last-at (err e) b u w k h = k refl

  pub Failsafe-last : (m : Exec A) (b : A → B) → Failsafe R m → Failsafe R (m >>= λ a. pure (b a))
  Failsafe-last m b k = record { at = λ w h. last-at (m w).0 b w (m w).1 (k.at w) h }

  pub Failsafe-bind :
      (m : Exec A) (f : A → Exec B)
      → Keeps R m
      → ((a : A) → Failsafe R (f a))
      → Failsafe R (m >>= f)
  Failsafe-bind m f km kf = record {
    at = λ w h. o.step _ _ _ (km.at w) ((continue-Failsafe (m w).0 f kf).at (m w).1 h);
  }

pub Failsafe-of_Keeps :
    {R : World → World → Type 0} {A : Type 0} (m : Exec A) → Keeps R m → Failsafe R m
Failsafe-of_Keeps m k = record { at = λ w h. k.at w }

abbrev pub SameDb : World → World → Type 0
SameDb w w' = w'.db ≡ w.db

pub SameDb-IsPreorder : IsPreorder SameDb
SameDb-IsPreorder = record { stay = λ w. refl; step = λ u v w p q. q ∙ p }

pub SameDb-query : (env : Env) {A : Type 0} (f : Db → A) → Keeps SameDb (query env f)
unfolding query sql
SameDb-query env f = record { at = λ w. ground arith }

pub SameDb-time_now : (env : Env) → Keeps SameDb (time_now env)
unfolding time_now
SameDb-time_now env = record { at = λ w. refl }

-- `P` holds behind every success that starts from the database `db`.
pub record From {A : Type 0} (db : Db) (P : World → Type 0) (m : Exec A) : Type 0 where
  pub at : (w : World) → w.db ≡ db → is_ok (m w).0 ≡ true → P (m w).1

module _ {db : Db} {P : World → Type 0} {A B : Type 0} where
  continue-From :
      (r : Result A) (f : A → Exec B)
      → (is_ok r ≡ true → (a : A) → From db P (f a))
      → From db P (continue r f)
  continue-From (ok a) f k = k refl a
  continue-From (err e) f k = record { at = λ w d h. cc }

  -- A step that keeps the database may teach `Q` by its success.
  pub From-learn :
      {Q : Type 0} (m : Exec A) (f : A → Exec B)
      → Keeps SameDb m
      → ((w : World) → w.db ≡ db → is_ok (m w).0 ≡ true → Q)
      → (Q → (a : A) → From db P (f a))
      → From db P (m >>= f)
  From-learn m f km learn kf = record {
    at = λ w d h. (continue-From (m w).0 f (λ s. kf (learn w d s))).at (m w).1 (km.at w ∙ d) h;
  }

  pub From-bind :
      (m : Exec A) (f : A → Exec B)
      → Keeps SameDb m
      → ((a : A) → From db P (f a))
      → From db P (m >>= f)
  From-bind m f km kf = From-learn {Q = Unit {0}} m f km (λ w d s. tt) (λ _. kf)

finish-Failsafe :
    (env : Env) {A : Type 0} (before : Db) (e : Error) (r : Result A) (w : World)
    → is_ok (finish_tx env before e (r, w)).0 ≡ false
    → (finish_tx env before e (r, w)).1.db ≡ before
finish-Failsafe env before e (ok a) w h = ground arith
finish-Failsafe env before e (err x) w h = refl

-- A transaction that fails anywhere has changed nothing.
pub Failsafe-in_tx :
    (env : Env) {A : Type 0} (b c : Error) (body : Exec A) → Failsafe SameDb (in_tx env b c body)
unfolding in_tx
Failsafe-in_tx env b c body = record {
  at = λ w h. ground (arith, finish-Failsafe env w.db c (body (next w)).0 (body (next w)).1);
}
