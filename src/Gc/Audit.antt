-- ===== src/Gc/Audit.antt =====
-- Actions that leave the database alone, with what they may ask of Docker and what they answer.
use agentic_paasd.Prelude.{
  some_inj, ℕ, ◌≡◌, refl, ◌∙◌, ap, sym, Option, some, List, [], ◌∷◌, ◌++◌, Text, All, append_assoc,
  inl, inr, Bool-cases,
}
use agentic_paasd.Store.{Db}
use agentic_paasd.Runtime.{
  Env, World, Exec, Call, Error, Result, ok, err, Answer, got, failure, continue, ◌>>=◌, pure,
  attempt, or_fail_with, ignore, sql, query, time_now, docker_, docker_info, docker_list, for_each,
}

-- Nothing else writes the database meanwhile.
abbrev pub IsQuiet : Env → Type 0
IsQuiet env = (n : ℕ) (db : Db) → env.others n db ≡ db

-- The calls grew by calls that are all allowed.
abbrev pub Grew : (Call → Type 0) → List Call → List Call → Type 0
Grew P before after = (made : List Call) × (after ≡ made ++ before) × All P made

pub All-append :
    {A : Type 0} (P : A → Type 0) (xs ys : List A) → All P xs → All P ys → All P (xs ++ ys)
All-append P [] ys h k = k
All-append P (x ∷ xs) ys h k = (h.0, All-append P xs ys h.1 k)

Grew-trans : (P : Call → Type 0) (a b c : List Call) → Grew P a b → Grew P b c → Grew P a c
Grew-trans P a b c (m, e, h) (n, f, k) =
    (n ++ m, f ∙ (ap (λ l. n ++ l) e ∙ sym (append_assoc n m a)), All-append P n m k h)

abbrev pub Says : {A : Type 0} → (A → Type 0) → Result A → Type 0
Says Q (ok a) = Q a
Says Q (err e) = Unit

pub record Audit {A : Type 0} (db : Db) (P : Call → Type 0) (Q : A → Type 0) (m : Exec A)
    : Type 0 where
  pub at :
      (w : World) → w.db ≡ db → ((m w).1.db ≡ db) × Grew P w.calls (m w).1.calls × Says Q (m w).0

Says-imp :
    {A : Type 0} (Q R : A → Type 0) (r : Result A) → ((a : A) → Q a → R a) → Says Q r → Says R r
Says-imp Q R (ok a) k h = k a h
Says-imp Q R (err e) k h = tt

module _ (db : Db) (P : Call → Type 0) where
  pub Audit-imp :
      {A : Type 0} (Q R : A → Type 0) (m : Exec A)
      → ((a : A) → Q a → R a)
      → Audit db P Q m
      → Audit db P R m
  Audit-imp Q R m k h = record {
    at = λ w d. let (e, g, q) = h.at w d in (e, g, Says-imp Q R (m w).0 k q);
  }

  pub Audit-pure : {A : Type 0} (Q : A → Type 0) (a : A) → Q a → Audit db P Q (pure a)
  Audit-pure Q a q = record { at = λ w d. (d, ([], refl, tt), q) }

  continue-Audit :
      {A B : Type 0} (Q : A → Type 0) (R : B → Type 0) (r : Result A) (f : A → Exec B) (w : World)
      → Says Q r
      → ((a : A) → Q a → Audit db P R (f a))
      → w.db ≡ db
      → ((continue r f w).1.db ≡ db)
        × Grew P w.calls (continue r f w).1.calls
        × Says R (continue r f w).0
  continue-Audit Q R (ok a) f w q k d = (k a q).at w d
  continue-Audit Q R (err e) f w q k d = (d, ([], refl, tt), tt)

  pub Audit-bind :
      {A B : Type 0} (Q : A → Type 0) (R : B → Type 0) (m : Exec A) (f : A → Exec B)
      → Audit db P Q m
      → ((a : A) → Q a → Audit db P R (f a))
      → Audit db P R (m >>= f)
  Audit-bind Q R m f k kf = record {
    at = λ w d.
        let (e, g, q) = k.at w d in
        let (e', g', q') = continue-Audit Q R (m w).0 f (m w).1 q kf e in
        (e', Grew-trans P w.calls (m w).1.calls _ g g', q');
  }

  pub Audit-attempt :
      {A : Type 0} (Q : A → Type 0) (m : Exec A) → Audit db P Q m → Audit db P (Says Q) (attempt m)
  Audit-attempt Q m k = record { at = λ w d. k.at w d }

  pub Audit-or_fail_with :
      {A : Type 0} (r : Answer A) (e : Text → Error)
      → Audit db P (λ a. r ≡ got a) (or_fail_with r ignore e)
  Audit-or_fail_with (got a) e = record { at = λ w d. (d, ([], refl, tt), refl) }
  Audit-or_fail_with (failure m) e = record { at = λ w d. (d, ([], refl, tt), tt) }

  pub Audit-for_each :
      (Q : Text → Type 0) (xs : List Text) (f : Text → Exec (Unit {0}))
      → All Q xs
      → ((x : Text) → Q x → Audit db P (λ u. Unit {0}) (f x))
      → Audit db P (λ u. Unit {0}) (for_each xs f)
  unfolding for_each
  Audit-for_each Q [] f h k = Audit-pure (λ u. Unit {0}) tt tt
  Audit-for_each Q (x ∷ xs) f h k =
      Audit-bind (λ u. Unit {0}) (λ u. Unit {0}) (f x) (λ _. for_each xs f) (k x h.0)
        (λ u _. Audit-for_each Q xs f h.1 k)

  module _ (env : Env) where
    -- A query answers for the database as it is.
    pub Audit-query :
        {A : Type 0} (f : Db → A)
        → Audit db P (λ (o : Option A). (a : A) → o ≡ some a → a ≡ f db) (query env f)
    unfolding query sql
    Audit-query f = record {
      at = λ w d. elim (Bool-cases (env.db_ok w.tick)) [
        | inl e ↦ rw e (d, ([], refl, tt), λ a h. sym (some_inj h) ∙ ap f d)
        | inr e ↦ rw e (d, ([], refl, tt), λ a h. absurd cc)
      ];
    }

    pub Audit-time_now : Audit db P (λ now. (t : ℕ) × (now ≡ env.now t)) (time_now env)
    unfolding time_now
    Audit-time_now = record { at = λ w d. (d, ([], refl, tt), (w.tick, refl)) }

    module _ (quiet : IsQuiet env) where
      pub Audit-docker_ : (c : Call) → P c → Audit db P (λ u. Unit {0}) (docker_ env c)
      unfolding docker_
      Audit-docker_ c p = record {
        at = λ w d. (quiet w.tick w.db ∙ d, (c ∷ [], refl, (p, tt)), tt);
      }

      -- A listing is an answer of Docker's to that listing.
      pub Audit-docker_list :
          (c : Call)
          → P c
          → Audit db P (λ answer. (t : ℕ) × (answer ≡ env.ask_list t c)) (docker_list env c)
      unfolding docker_list
      Audit-docker_list c p = record {
        at = λ w d. (quiet w.tick w.db ∙ d, (c ∷ [], refl, (p, tt)), (w.tick, refl));
      }

      -- A look at a container is an answer of Docker's to that look.
      pub Audit-docker_info :
          (c : Call)
          → P c
          → Audit db P (λ answer. (t : ℕ) × (answer ≡ env.ask_info t c)) (docker_info env c)
      unfolding docker_info
      Audit-docker_info c p = record {
        at = λ w d. (quiet w.tick w.db ∙ d, (c ∷ [], refl, (p, tt)), (w.tick, refl));
      }
