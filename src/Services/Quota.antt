-- ===== src/Services/Quota.antt =====
-- max_services: what Create leaves of the tenant's quota.
use agentic_paasd.Prelude.{
  ◌≤◌, ◌<◌, ◌≡◌, refl, sym, subst, ◌∙◌, ap, true, false, some, List, [], ◌∷◌, Text, arith, find,
  count, same, any,
}
use agentic_paasd.Store.{Db, Service, Quota, EnvRow}
use agentic_paasd.Runtime.{
  Env, World, Error, is_ok, pure, skip, ◌>>◌, query, encrypted, in_tx, sql, sql_checked, next,
  ignore,
}
use agentic_paasd.Runtime.Keeps.{
  IsPreorder, Keeps, Keeps-pure, Keeps-bind, Keeps-or_fail, Keeps-or_fail_with,
}
use agentic_paasd.Runtime.Post.{SameDb-time_now, From, From-bind, From-learn}
use agentic_paasd.Services.Atomic.{
  SameDb-check_tenant_active, SameDb-check, SameDb-check_quota, SameDb-random_id, SameDb-or_fail,
}
use agentic_paasd.Services.Rows.{of_tenant, has_id}
use agentic_paasd.Services.EnvVars.{
  CreateRequest, upsert, set_envs, insert_vars, insert_service, check_quota, insert_created, create,
}

abbrev SameServices : World → World → Type 0
SameServices w w' = w'.db.services ≡ w.db.services

SameServices-IsPreorder : IsPreorder SameServices
SameServices-IsPreorder = record { stay = λ w. refl; step = λ u v w p q. q ∙ p }

module _ (env : Env) where
  SameServices-encrypted : (v : Text) → Keeps SameServices (encrypted env v)
  unfolding encrypted
  SameServices-encrypted v = record { at = λ w. refl }

  SameServices-upsert :
      (f : List EnvRow → List EnvRow)
      → Keeps SameServices (sql env (λ db. (tt, set_envs (f db.envs) db)))
  unfolding sql
  SameServices-upsert f = record { at = λ w. ground arith }

  SameServices-insert_vars :
      (id : Text) (vars : List (Text × Text)) → Keeps SameServices (insert_vars env id vars)
  unfolding insert_vars
  SameServices-insert_vars id [] = Keeps-pure SameServices-IsPreorder tt
  SameServices-insert_vars id ((k, v) ∷ vars) =
      Keeps-bind o _ _ (SameServices-encrypted v) λ sealed.
        Keeps-bind o _ _ (Keeps-or_fail_with o sealed ignore _ (λ m. Keeps-pure o tt)) λ value.
          Keeps-bind o _ _ (SameServices-upsert (upsert id k value)) λ row.
            Keeps-bind o _ _ (Keeps-or_fail o row skip _ (Keeps-pure o tt))
              λ u. SameServices-insert_vars id vars
    where
      o : IsPreorder SameServices
      o = SameServices-IsPreorder

  -- The services behind an insertion.
  inserted :
      (s : Service) (vars : List (Text × Text)) (w : World)
      → is_ok (insert_service env s vars w).0 ≡ true
      → ((insert_service env s vars w).1.db.services ≡ s ∷ w.db.services)
        × (any (has_id s.id) w.db.services ≡ false)
  unfolding insert_service in_tx sql_checked
  inserted s vars w h = ground (
    arith,
    (SameServices-insert_vars s.id vars).at
        (record (next (next w)) { db = record w.db { services = s ∷ w.db.services } }),
  )

  -- What a check that passed says.
  quota_left :
      (tenant : Text) (q : Quota) (w : World)
      → find (λ (r : Quota). same r.tenant_id tenant) w.db.quotas ≡ some q
      → is_ok (check_quota env tenant w).0 ≡ true
      → count (of_tenant tenant) w.db.services < q.max_services
  unfolding check_quota query sql
  quota_left tenant q w found h = ground arith

  quota_left_from :
      (tenant : Text) (q : Quota) (w v : World)
      → find (λ (r : Quota). same r.tenant_id tenant) w.db.quotas ≡ some q
      → v.db ≡ w.db
      → is_ok (check_quota env tenant v).0 ≡ true
      → count (of_tenant tenant) w.db.services < q.max_services
  quota_left_from tenant q w v found d s =
      subst (λ (db : Db). count (of_tenant tenant) db.services < q.max_services) d
        (quota_left tenant q v
          (subst (λ (db : Db). find (λ (r : Quota). same r.tenant_id tenant) db.quotas ≡ some q)
            (sym d) found)
          s)

  -- P of the world after `insert_service; return` is P after `insert_service`.
  one_more :
      (tenant : Text) (q : Quota) (w : World) (s : Service) (vars : List (Text × Text))
      → count (of_tenant tenant) w.db.services < q.max_services
      → From w.db
          (λ v. count (of_tenant tenant) v.db.services ≤ q.max_services)
          (insert_service env s vars >> pure s)
  unfolding count
  one_more tenant q w s vars room = record {
    at = λ v d h. ground (
      arith,
      inserted s vars v,
      ap (λ (db : Db). count (of_tenant tenant) db.services) d,
      ap (λ (rows : List Service). count (of_tenant tenant) rows)
          (inserted s vars v (ground arith)).0,
    );
  }

  -- The insertion, begun with room in the quota.
  insert_created-From :
      (tenant : Text) (req : CreateRequest) (q : Quota) (w : World)
      → count (of_tenant tenant) w.db.services < q.max_services
      → From w.db
          (λ v. count (of_tenant tenant) v.db.services ≤ q.max_services)
          (insert_created env tenant req)
  insert_created-From tenant req q w room = From-bind _ _ (SameDb-random_id env) λ r.
      From-bind _ _ (SameDb-or_fail env r Error.no_randomness) λ id.
        From-bind _ _ (SameDb-time_now env)
          λ now. From-bind _ _ (SameDb-check env _) λ _. one_more tenant q w _ req.env room

  -- If Create succeeds for a tenant with a quota row, and runs without a step of another goroutine,
  -- the tenant has at most `max_services` services afterwards.
  pub create_within_quota :
      (tenant : Text) (req : CreateRequest) (q : Quota) (w : World)
      → find (λ (r : Quota). same r.tenant_id tenant) w.db.quotas ≡ some q
      → is_ok (create env tenant req w).0 ≡ true
      → count (of_tenant tenant) (create env tenant req w).1.db.services ≤ q.max_services
  unfolding create
  create_within_quota tenant req q w found h =
      let k : From w.db (λ v. count (of_tenant tenant) v.db.services ≤ q.max_services)
          (create env tenant req) =
        From-bind _ _ (SameDb-check_tenant_active env tenant) λ _.
          From-bind _ _ (SameDb-check env _) λ _. From-bind _ _ (SameDb-check env _) λ _.
            From-learn _ _ (SameDb-check_quota env tenant)
              (λ v d s. quota_left_from tenant q w v found d s)
              λ room _. insert_created-From tenant req q w room in
      k.at w refl h

  -- Create checks the quota of a tenant with a quota row in one state and begins to insert in
  -- another, which other goroutines may have changed in any way that leaves the tenant no more
  -- services than were counted. If the check passes and the insertion succeeds, the tenant has at
  -- most `max_services` services behind it.
  pub insertion_within_quota :
      (tenant : Text) (req : CreateRequest) (q : Quota) (w v : World)
      → find (λ (r : Quota). same r.tenant_id tenant) w.db.quotas ≡ some q
      → is_ok (check_quota env tenant w).0 ≡ true
      → count (of_tenant tenant) v.db.services ≤ count (of_tenant tenant) w.db.services
      → is_ok (insert_created env tenant req v).0 ≡ true
      → count (of_tenant tenant) (insert_created env tenant req v).1.db.services ≤ q.max_services
  insertion_within_quota tenant req q w v found checked no_more h =
      (insert_created-From tenant req q v
          (omega (arith, quota_left tenant q w found checked, no_more))).at
        v refl h
