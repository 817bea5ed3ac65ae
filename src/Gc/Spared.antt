-- ===== src/Gc/Spared.antt =====
-- What a pass of the garbage collector spares.
use agentic_paasd.Prelude.{
  ℕ, zero, suc, ◌+◌, ◌≤◌, ◌≡◌, refl, sym, subst, ◌∙◌, ◌⊎◌, inl, inr, Bool, true, false, Option,
  none, some, List, [], ◌∷◌, ◌++◌, Text, codes, All, arith, Bool-cases, has_prefix, if◌then◌else◌,
}
use agentic_paasd.Store.{Db}
use agentic_paasd.Runtime.{
  Env, World, Exec, Call, Result, ok, err, Answer, got, failure, ContainerInfo, ◌>>=◌, pure,
  docker_list,
}
use agentic_paasd.Gc.Audit.{
  IsQuiet, Grew, Says, Audit, All-append, Audit-imp, Audit-pure, Audit-bind, Audit-attempt,
  Audit-or_fail_with, Audit-for_each, Audit-query, Audit-time_now, Audit-docker_, Audit-docker_list,
  Audit-docker_info,
}
use agentic_paasd.Gc.Listing.{IsListed, IsListed-All, All-units}
use agentic_paasd.Gc.Collect.{
  min_resource_age, too_new, services_naming, databases_naming, databases_mounting, no_rows, sift,
  counts_none, judged, is_orphan, find_orphaned_containers, is_orphaned_volume,
  find_orphaned_volumes, remove_orphan, each_of, collect_once,
}

-- Docker said of the container that it is ten minutes old at least.
abbrev pub IsOld : Env → Text → Type 0
IsOld env id =
    (t : ℕ) × (s : ℕ) × (info : ContainerInfo) × (env.ask_info t (Call.inspect_container id)
      ≡ got info)
    × (info.created_at + min_resource_age ≤ env.now s)

-- An old container of a service that no service has, or of a database that no database has.
abbrev pub IsOrphan : Env → Db → Text → Type 0
IsOrphan env db id =
    IsOld env id
    × ((IsListed env (codes "ah.service") [] id × (services_naming id db ≡ 0))
        ⊎ (IsListed env (codes "ah.type") (codes "database") id × (databases_naming id db ≡ 0)))

abbrev pub IsOrphanVolume : Db → Text → Type 0
IsOrphanVolume db name =
    (has_prefix name (codes "ah-db-") ≡ true) × (databases_mounting name db ≡ 0)

-- The calls that the collector may make.
abbrev pub MayCall : Env → Db → Call → Type 0
MayCall env db (Call.stop_container id) = IsOrphan env db id
MayCall env db (Call.remove_container id) = IsOrphan env db id
MayCall env db (Call.remove_volume_safe name) = IsOrphanVolume db name
MayCall env db (Call.list_by_label label value) = Unit
MayCall env db (Call.list_volumes prefix) = Unit
MayCall env db (Call.inspect_container id) = Unit
MayCall env db Call.prune_images = Unit
MayCall env db _ = false ≡ true

module _ (env : Env) (db : Db) (quiet : IsQuiet env) where
  -- A count is 0 where it succeeds and says so.
  counted : (f : Db → ℕ) → Audit db (MayCall env db) (λ b. b ≡ true → f db ≡ 0) (counts_none env f)
  unfolding counts_none
  counted f =
      Audit-bind db (MayCall env db) (λ o. (n : ℕ) → o ≡ some n → n ≡ f db) _ _ _
        (Audit-query db (MayCall env db) env f)
        (λ o h. Audit-pure db (MayCall env db) _ (no_rows o) (zero_of o h))
    where
      zero_of : (o : Option ℕ) → ((n : ℕ) → o ≡ some n → n ≡ f db) → no_rows o ≡ true → f db ≡ 0
      zero_of none h e = absurd cc
      zero_of (some zero) h e = sym (h 0 refl)
      zero_of (some (suc n)) h e = absurd cc

  -- Those that the loop appends are what its body took.
  sifted :
      (L Q : Text → Type 0) (f : Text → Exec Bool) (xs : List Text)
      → All L xs
      → ((x : Text) → L x → Audit db (MayCall env db) (λ b. b ≡ true → Q x) (f x))
      → Audit db (MayCall env db) (λ ys. All Q ys) (sift f xs)
  unfolding sift
  sifted L Q f [] l k = Audit-pure db (MayCall env db) _ [] tt
  sifted L Q f (x ∷ xs) l k =
      Audit-bind db (MayCall env db) (λ b. b ≡ true → Q x) _ (f x) _ (k x l.0)
        (λ b h.
          Audit-bind db (MayCall env db) (λ ys. All Q ys) _ (sift f xs) _ (sifted L Q f xs l.1 k)
            (λ ys a. Audit-pure db (MayCall env db) (λ zs. All Q zs) _ (joined b ys h a)))
    where
      joined :
          (b : Bool) (ys : List Text)
          → (b ≡ true → Q x)
          → All Q ys
          → All Q (if b then x ∷ ys else ys)
      joined true ys h a = (h refl, a)
      joined false ys h a = a

  is_orphan-Audit :
      (t : ℕ) (naming : Text → Db → ℕ) (id : Text)
      → Audit db
          (MayCall env db)
          (λ b. b ≡ true → IsOld env id × (naming id db ≡ 0))
          (is_orphan env (env.now t) naming id)
  unfolding is_orphan judged
  is_orphan-Audit t naming id =
      Audit-bind db (MayCall env db)
        (λ answer. (s : ℕ) × (answer ≡ env.ask_info s (Call.inspect_container id))) _ _ _
        (Audit-docker_info db (MayCall env db) env quiet (Call.inspect_container id) tt)
        (λ answer h. look answer h.0 h.1)
    where
      look :
          (answer : Answer ContainerInfo) (s : ℕ)
          → answer ≡ env.ask_info s (Call.inspect_container id)
          → Audit db
              (MayCall env db)
              (λ b. b ≡ true → IsOld env id × (naming id db ≡ 0))
              (judged env (env.now t) (naming id) answer)
      look (failure m) s e = Audit-pure db (MayCall env db) _ false (λ h. absurd cc)
      look (got info) s e = elim (Bool-cases (too_new (env.now t) info)) [
        | inl new ↦ rw new (Audit-pure db (MayCall env db) _ false (λ h. absurd cc))
        | inr old ↦
            let bound : info.created_at + min_resource_age ≤ env.now t = ground arith in
            rw old (
              Audit-imp db (MayCall env db) (λ b. b ≡ true → naming id db ≡ 0) _ _
                (λ b k h. ((s, t, info, sym e, bound), k h)) (counted (naming id)))
      ]

  find_orphaned_containers-Audit :
      Audit db (MayCall env db) (λ ids. All (IsOrphan env db) ids) (find_orphaned_containers env)
  unfolding find_orphaned_containers
  find_orphaned_containers-Audit =
      let P = MayCall env db in
      Audit-bind db P _ _ _ _ (listing (codes "ah.service") []) (λ listed h.
        Audit-bind db P (λ ids. listed ≡ got ids) _ _ _ (Audit-or_fail_with db P listed _)
          (λ ids e.
            Audit-bind db P _ _ _ _ (listing (codes "ah.type") (codes "database")) (λ listed_2 h_2.
              Audit-bind db P (λ ids. listed_2 ≡ got ids) _ _ _ (Audit-or_fail_with db P listed_2 _)
                (λ ids_2 e_2.
                  Audit-bind db P (λ now. (t : ℕ) × (now ≡ env.now t)) _ _ _
                    (Audit-time_now db P env)
                    (λ now n.
                      sifted_both ids ids_2 now n.0 n.1 (IsListed-All env _ _ h.0 ids (sym h.1 ∙ e))
                        (IsListed-All env _ _ h_2.0 ids_2 (sym h_2.1 ∙ e_2)))))))
    where
      listing :
          (label value : Text)
          → Audit db
              (MayCall env db)
              (λ answer. (t : ℕ) × (answer ≡ env.ask_list t (Call.list_by_label label value)))
              (docker_list env (Call.list_by_label label value))
      listing label value =
          Audit-docker_list db (MayCall env db) env quiet (Call.list_by_label label value) tt

      -- The containers of one listing, judged against the table that goes with it.
      orphans_at :
          (now t : ℕ) (naming : Text → Db → ℕ) (L : Text → Type 0)
          → now ≡ env.now t
          → ((id : Text)
              → L id
              → naming id db ≡ 0
              → (IsListed env (codes "ah.service") [] id × (services_naming id db ≡ 0))
                ⊎ (IsListed env (codes "ah.type") (codes "database") id
                    × (databases_naming id db ≡ 0)))
          → (id : Text) → L id
          → Audit db
              (MayCall env db)
              (λ b. b ≡ true → IsOrphan env db id)
              (is_orphan env now naming id)
      orphans_at now t naming L e k id l =
          Audit-imp db (MayCall env db) (λ b. b ≡ true → IsOld env id × (naming id db ≡ 0)) _ _
            (λ b h q. let (old, none_named) = h q in (old, k id l none_named))
            (subst
              (λ n.
                Audit db (MayCall env db) (λ b. b ≡ true → IsOld env id × (naming id db ≡ 0))
                  (is_orphan env n naming id))
              (sym e) (is_orphan-Audit t naming id))

      sifted_both :
          (ids ids_2 : List Text) (now t : ℕ)
          → now ≡ env.now t
          → All (IsListed env (codes "ah.service") []) ids
          → All (IsListed env (codes "ah.type") (codes "database")) ids_2
          → Audit db
              (MayCall env db)
              (λ xs. All (IsOrphan env db) xs)
              (do
                of_services ← sift (is_orphan env now services_naming) ids
                of_databases ← sift (is_orphan env now databases_naming) ids_2
                pure (of_services ++ of_databases))
      sifted_both ids ids_2 now t e l l_2 =
          let P = MayCall env db in
          let Orphans : List Text → Type 0 = λ xs. All (IsOrphan env db) xs in
          Audit-bind db P Orphans _ _ _
            (sifted _ (IsOrphan env db) _ ids l
              (orphans_at now t services_naming _ e (λ id listed h. inl (listed, h))))
            (λ xs h.
              Audit-bind db P Orphans _ _ _
                (sifted _ (IsOrphan env db) _ ids_2 l_2
                  (orphans_at now t databases_naming _ e (λ id listed k. inr (listed, k))))
                (λ ys k.
                  Audit-pure db P Orphans (xs ++ ys) (All-append (IsOrphan env db) xs ys h k)))

  find_orphaned_volumes-Audit :
      Audit db (MayCall env db) (λ names. All (IsOrphanVolume db) names) (find_orphaned_volumes env)
  unfolding find_orphaned_volumes is_orphaned_volume
  find_orphaned_volumes-Audit =
      let P = MayCall env db in
      Audit-bind db P _ _ _ _
        (Audit-docker_list db P env quiet (Call.list_volumes (codes "ah-db-")) tt)
        (λ listed _.
          Audit-bind db P (λ names. listed ≡ got names) _ _ _ (Audit-or_fail_with db P listed _)
            (λ names _.
              sifted (λ _. Unit {0}) (IsOrphanVolume db) (is_orphaned_volume env) names
                (All-units names) (λ name _. volume name)))
    where
      volume :
          (name : Text)
          → Audit db
              (MayCall env db)
              (λ b. b ≡ true → IsOrphanVolume db name)
              (is_orphaned_volume env name)
      volume name = decided (has_prefix name (codes "ah-db-")) refl
        where
          decided :
              (b : Bool)
              → has_prefix name (codes "ah-db-") ≡ b
              → Audit db
                  (MayCall env db)
                  (λ c. c ≡ true → IsOrphanVolume db name)
                  (if b then counts_none env (databases_mounting name) else pure false)
          decided true e =
              Audit-imp db (MayCall env db) (λ c. c ≡ true → databases_mounting name db ≡ 0) _ _
                (λ c k h. (e, k h)) (counted (databases_mounting name))
          decided false e = Audit-pure db (MayCall env db) _ false (λ h. absurd cc)

  removed :
      (Q : Text → Type 0) (r : Result (List Text)) (f : Text → Exec (Unit {0}))
      → Says (λ xs. All Q xs) r
      → ((x : Text) → Q x → Audit db (MayCall env db) (λ u. Unit {0}) (f x))
      → Audit db (MayCall env db) (λ u. Unit {0}) (each_of env r f)
  unfolding each_of
  removed Q (ok xs) f h k = Audit-for_each db (MayCall env db) Q xs f h k
  removed Q (err e) f h k = Audit-pure db (MayCall env db) (λ u. Unit {0}) tt tt

  remove_orphan-Audit :
      (id : Text)
      → IsOrphan env db id
      → Audit db (MayCall env db) (λ u. Unit {0}) (remove_orphan env id)
  unfolding remove_orphan
  remove_orphan-Audit id h =
      Audit-bind db (MayCall env db) (λ u. Unit {0}) (λ u. Unit {0}) _ _
        (Audit-docker_ db (MayCall env db) env quiet (Call.stop_container id) h)
        (λ u _. Audit-docker_ db (MayCall env db) env quiet (Call.remove_container id) h)

  collect_once-Audit : Audit db (MayCall env db) (λ u. Unit {0}) (collect_once env)
  unfolding collect_once
  collect_once-Audit =
      let P = MayCall env db in
      Audit-bind db P (Says (λ xs. All (IsOrphan env db) xs)) (λ u. Unit {0}) _ _
        (Audit-attempt db P _ _ find_orphaned_containers-Audit)
        (λ r h.
          Audit-bind db P (λ u. Unit {0}) (λ u. Unit {0}) _ _
            (removed (IsOrphan env db) r _ h remove_orphan-Audit)
            (λ u _.
              Audit-bind db P (Says (λ xs. All (IsOrphanVolume db) xs)) (λ u. Unit {0}) _ _
                (Audit-attempt db P _ _ find_orphaned_volumes-Audit)
                (λ v k.
                  Audit-bind db P (λ u. Unit {0}) (λ u. Unit {0}) _ _
                    (removed (IsOrphanVolume db) v _ k
                      (λ name o. Audit-docker_ db P env quiet (Call.remove_volume_safe name) o))
                    (λ x _. Audit-docker_ db P env quiet Call.prune_images tt))))

-- While nothing else writes the database, a pass of the garbage collector stops and removes only
-- containers that Docker reported ten minutes old at least and that either Docker listed as a
-- service's and no service has, or Docker listed as a database's and no database has; it removes
-- only volumes named ah-db-… that no database has, prunes images, and makes no other call that
-- changes Docker. It leaves the database as it was.
pub collector_spares_what_is_named :
    (env : Env) (w : World)
    → IsQuiet env
    → ((collect_once env w).1.db ≡ w.db)
      × Grew (MayCall env w.db) w.calls (collect_once env w).1.calls
collector_spares_what_is_named env w quiet =
    let (d, g, u) = (collect_once-Audit env w.db quiet).at w refl in (d, g)
