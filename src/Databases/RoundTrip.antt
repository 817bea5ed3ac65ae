-- ===== src/Databases/RoundTrip.antt =====
-- The connection string that Create returns is the one that GetConnectionString reads.
use agentic_paasd.Prelude.{
  ℕ, zero, suc, ◌≡◌, refl, sym, ◌∙◌, ap, subst, Bool, true, false, Option, none, some, Text, arith,
  inl, inr, Bool-cases, Option-cases, some_inj, find, any,
}
use agentic_paasd.Store.{DbType}
use agentic_paasd.Runtime.{
  Env, World, Exec, Error, Result, ok, err, Answer, got, failure, continue, ◌>>=◌, ◌>>◌, pure, skip,
  ignore, or_fail, or_fail_with, check_none, sql, query, encrypted, random_id, disk_check, time_now,
}
use agentic_paasd.Runtime.Yields.{
  Outcome, Yields, outcome-at, Yields-learn, Yields-bind, Yields-pure,
}
use agentic_paasd.Databases.Rows.{refused, insert_row, connection_string, owns_db}
use agentic_paasd.Databases.Ports.{find_free_port}
use agentic_paasd.Databases.Provision.{
  CreateDatabase, Plan, Claim, new_row, provision, claim_port, allocate, create_database,
  type_named, check_name, check_db_quota,
}
use agentic_paasd.Databases.Control.{find_database, get_connection_string}
use agentic_paasd.Databases.Removal.{LeavesDatabases}
use agentic_paasd.Databases.Secrets.{sealed_in, sealed_of, sealed_of-append, secret-provision}

-- crypto.Decrypt opens what crypto.Encrypt has sealed.
abbrev pub Opens : Env → Type 0
Opens env = (n : ℕ) (v c : Text) → env.encrypt n v ≡ got c → env.decrypt c ≡ got v

-- The row of that tenant with that identifier holds this string, sealed.
abbrev Holds : Env → Text → Text → Text → World → Type 0
Holds env tenant id connection w =
    (sealed : Text) × (sealed_of tenant id w.db.databases ≡ some sealed)
    × (env.decrypt sealed ≡ got connection)

abbrev Claimed : Env → Plan → Claim → World → Type 0
Claimed env p claim w = Holds env p.tenant_id p.id claim.connection w

Inserted : Plan → Text → Option Bool → World → Type 0
Inserted p sealed r w = r ≡ some true → sealed_of p.tenant_id p.id w.db.databases ≡ some sealed

module _ {A B : Type 0} (Q : B → World → Type 0) where
  or_fail-learn :
      (row : Option A) (e : Error) (f : A → Exec B) (w : World)
      → ((a : A) → row ≡ some a → Outcome Q (f a w).0 (f a w).1)
      → Outcome Q ((or_fail row skip e >>= f) w).0 ((or_fail row skip e >>= f) w).1
  or_fail-learn (some a) e f w k = k a refl
  or_fail-learn none e f w k = tt

  or_fail_with-learn :
      (r : Answer A) (e : Text → Error) (f : A → Exec B) (w : World)
      → ((a : A) → r ≡ got a → Outcome Q (f a w).0 (f a w).1)
      → Outcome Q ((or_fail_with r ignore e >>= f) w).0 ((or_fail_with r ignore e >>= f) w).1
  or_fail_with-learn (got a) e f w k = k a refl
  or_fail_with-learn (failure m) e f w k = tt

module _ (env : Env) (opens : Opens env) (p : Plan) where
  insert-Inserted :
      (port : ℕ) (sealed : Text)
      → Yields (λ r w. Inserted p sealed r w) (sql env (insert_row (new_row p port sealed)))
  unfolding sql insert_row new_row Inserted
  insert-Inserted port sealed = record {
    at = λ w. elim (Bool-cases (env.db_ok w.tick)) [
      | inr e ↦ rw e (λ h. absurd cc)
      | inl e ↦ elim (Bool-cases (any (refused (new_row p port sealed)) w.db.databases)) [
        | inl hit ↦ rw (e, hit) (λ h. absurd cc)
        | inr miss ↦
            rw (e, miss)
              (λ h.
                sealed_of-append p.tenant_id p.id (new_row p port sealed) w.db.databases miss refl
                  refl)
      ]
    ];
  }

  decided :
      (b : Bool) (claim : Claim) (again : Exec Claim) (w : World)
      → (b ≡ true → Claimed env p claim w)
      → Yields (Claimed env p) again
      → Outcome
          (Claimed env p)
          ((elim b as (λ _. Exec Claim) [ true ↦ pure claim | false ↦ again ]) w).0
          ((elim b as (λ _. Exec Claim) [ true ↦ pure claim | false ↦ again ]) w).1
  decided true claim again w h k = h refl
  decided false claim again w h k = k.at w

  insert-claims :
      (port : ℕ) (sealed : Text) (again : Exec Claim)
      → env.decrypt sealed ≡ got (connection_string p.type p.password port)
      → Yields (Claimed env p) again
      → Yields (Claimed env p) (do
        row ← sql env (insert_row (new_row p port sealed))
        inserted ← or_fail row skip Error.insert_failed
        elim inserted [
          | true ↦
              pure (record { port = port; connection = connection_string p.type p.password port })
          | false ↦ again
        ])
  unfolding Inserted
  insert-claims port sealed again d k =
      Yields-learn (Claimed env p) (sql env (insert_row (new_row p port sealed))) _
        (insert-Inserted port sealed)
        (λ row w h. or_fail-learn (Claimed env p) row Error.insert_failed _ w (λ inserted e.
          decided inserted
            (record { port = port; connection = connection_string p.type p.password port }) again w
            (λ t. (sealed, h (e ∙ ap (λ x. some x) t), d)) k))

  claim_port-Claimed : (n : ℕ) → Yields (Claimed env p) (claim_port env n p)
  unfolding claim_port encrypted
  claim_port-Claimed zero = record { at = λ w. tt }
  claim_port-Claimed (suc n) = Yields-bind (Claimed env p) (find_free_port env p.type) _ (λ port.
      record {
        at = λ w.
            or_fail_with-learn (Claimed env p)
              (env.encrypt w.tick (connection_string p.type p.password port)) Error.encrypt_error _
              _
              (λ sealed e.
                (insert-claims port sealed (claim_port env n p) (opens w.tick _ sealed e)
                    (claim_port-Claimed n)).at
                  _);
      })

Holds-kept :
    (env : Env) (tenant id connection : Text) (w w' : World)
    → sealed_of tenant id w'.db.databases ≡ sealed_of tenant id w.db.databases
    → Holds env tenant id connection w
    → Holds env tenant id connection w'
Holds-kept env tenant id connection w w' e (sealed, s, d) = (sealed, e ∙ s, d)

allocate-tenant :
    (env : Env) (tenant name : Text) (type : DbType)
    → Yields (λ p w. p.tenant_id ≡ tenant) (allocate env tenant name type)
unfolding allocate
allocate-tenant env tenant name type =
    let Q : Plan → World → Type 0 = λ p w. p.tenant_id ≡ tenant in
    Yields-bind Q (random_id env) _ (λ random.
      Yields-bind Q (or_fail random skip Error.no_randomness) _ (λ id.
        Yields-bind Q (check_db_quota env tenant) _ (λ u. Yields-bind Q (random_id env) _ (λ secret.
          Yields-bind Q (or_fail secret skip Error.no_randomness) _ (λ password.
            Yields-bind Q (encrypted env password) _ (λ answer.
              Yields-bind Q (or_fail_with answer ignore Error.encrypt_error) _ (λ sealed.
                Yields-bind Q (time_now env) _ (λ now. Yields-pure Q _ (λ w. refl)))))))))

module _ (env : Env) (opens : Opens env) (leaves : LeavesDatabases env) (tenant : Text) where
  abbrev Created : Text × Claim → World → Type 0
  Created r w = Holds env tenant r.0 r.1.connection w

  -- The end of Create.
  handed_out : Plan → Claim → Exec (Text × Claim)
  handed_out p claim = do provision env p claim.port; pure (p.id, claim)

  provisioned :
      (p : Plan) (claim : Claim) (w : World)
      → p.tenant_id ≡ tenant
      → Claimed env p claim w
      → Outcome Created (handed_out p claim w).0 (handed_out p claim w).1
  unfolding handed_out
  provisioned p claim w t h =
      finish (provision env p claim.port w).0 (provision env p claim.port w).1 (
        Holds-kept env tenant p.id claim.connection w (provision env p claim.port w).1
          ((secret-provision env leaves tenant p.id p claim.port).at w)
          (subst (λ o. Holds env o p.id claim.connection w) t h))
    where
      answer : Unit {0} → Exec (Text × Claim)
      answer u = pure (p.id, claim)

      finish :
          (r : Result (Unit {0})) (v : World)
          → Holds env tenant p.id claim.connection v
          → Outcome Created (continue r answer v).0 (continue r answer v).1
      finish (ok u) v k = k
      finish (err e) v k = tt

  create-Created : (req : CreateDatabase) → Yields Created (create_database env tenant req)
  unfolding create_database handed_out
  create-Created req =
      Yields-bind Created (or_fail (type_named req.type) skip Error.type_invalid) _ (λ type.
        Yields-bind Created (check_name req.name) _ (λ u.
          Yields-bind Created (disk_check env) _ (λ full.
            Yields-bind Created (check_none full ignore Error.disk_error) _ (λ v.
              Yields-learn Created (allocate env tenant req.name type) _
                (allocate-tenant env tenant req.name type)
                (λ p w t.
                  (Yields-learn Created (claim_port env 5 p) _ (claim_port-Claimed env opens p 5)
                      (λ claim x h. provisioned p claim x t h)).at
                    w)))))

reads_back :
    (env : Env) (tenant id connection : Text) (w : World)
    → env.db_ok w.tick ≡ true
    → Holds env tenant id connection w
    → (get_connection_string env tenant id w).0 ≡ ok connection
unfolding get_connection_string find_database query sql
reads_back env tenant id connection w up (sealed, s, d) =
    elim (Option-cases (find (owns_db tenant id) w.db.databases)) [
      | inl e ↦ absurd (ground arith)
      | inr (row, e) ↦
          let t : row.connection_string_encrypted ≡ sealed = some_inj (sym (ap sealed_in e) ∙ s) in
          rw (up, e, t, d) refl
    ]

-- The connection string that a successful Create returns is what GetConnectionString gives that
-- tenant for the new database right behind it, if the database answers, the cipher opens what it
-- sealed, and the other goroutines left the databases alone.
pub created_string_reads_back :
    (env : Env) (tenant : Text) (req : CreateDatabase) (w : World) (id : Text) (claim : Claim)
    → Opens env
    → LeavesDatabases env
    → (create_database env tenant req w).0 ≡ ok (id, claim)
    → env.db_ok (create_database env tenant req w).1.tick ≡ true
    → (get_connection_string env tenant id (create_database env tenant req w).1).0
      ≡ ok claim.connection
created_string_reads_back env tenant req w id claim opens leaves made up =
    reads_back env tenant id claim.connection (create_database env tenant req w).1 up (
      outcome-at (Created env opens leaves tenant) (create_database env tenant req w).0 _ made
        ((create-Created env opens leaves tenant req).at w))
