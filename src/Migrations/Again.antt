-- ===== src/Migrations/Again.antt =====
-- A second start of internal/db/db.go finds nothing to migrate.
use agentic_paasd.Prelude.{
  ◌≡◌, refl, Bool, true, false, ◌&&◌, ◌||◌, Option, none, some, List, [], ◌∷◌, Text, same_refl, All,
  arith, inl, inr, Bool-cases,
}
use agentic_paasd.Migrations.{
  Database, Store, Target, state, metering, DirEntry, Luck, db_of, is_applied, migrate, migrate_on,
  migrate_entry, continued, migrate_all, run_migrations, open_store, sort_entries, route,
  is_skipped,
}

module _ {S : Type 0} where
  abbrev applied_on : Option Target → Text → Store S → Bool
  applied_on none name s = false
  applied_on (some t) name s = is_applied name (db_of t s)

  -- There is nothing to do for the entry.
  abbrev done : DirEntry → Store S → Bool
  done e s = is_skipped e || applied_on (route e.name) e.name s

module _ {S : Type 0} (files : Text → Option Text) (execute : Text → S → Option S)
    (luck : Luck) where
  migrate-keeps :
      (n name : Text) (d : Database S)
      → is_applied n d ≡ true
      → is_applied n (migrate files execute luck name d).1 ≡ true
  unfolding migrate is_applied
  migrate-keeps n name d h = ground arith

  migrate-applied :
      (name : Text) (d : Database S)
      → (migrate files execute luck name d).0 ≡ true
      → is_applied name (migrate files execute luck name d).1 ≡ true
  unfolding migrate is_applied
  migrate-applied name d h = ground (arith, same_refl name)

  migrate-same :
      (name : Text) (d : Database S)
      → is_applied name d ≡ true
      → (migrate files execute luck name d).1 ≡ d
  unfolding migrate
  migrate-same name d h = ground arith

  migrate_on-keeps :
      (u t : Option Target) (n name : Text) (s : Store S)
      → applied_on u n s ≡ true
      → applied_on u n (migrate_on files execute luck t name s).1 ≡ true
  migrate_on-keeps none t n name s h = cc
  migrate_on-keeps (some u) none n name s h = h
  migrate_on-keeps (some state) (some state) n name s h = migrate-keeps n name s.state_db h
  migrate_on-keeps (some state) (some metering) n name s h = h
  migrate_on-keeps (some metering) (some state) n name s h = h
  migrate_on-keeps (some metering) (some metering) n name s h = migrate-keeps n name s.metering_db h

  migrate_on-applied :
      (t : Option Target) (name : Text) (s : Store S)
      → (migrate_on files execute luck t name s).0 ≡ true
      → applied_on t name (migrate_on files execute luck t name s).1 ≡ true
  migrate_on-applied none name s h = cc
  migrate_on-applied (some state) name s h = migrate-applied name s.state_db h
  migrate_on-applied (some metering) name s h = migrate-applied name s.metering_db h

  migrate_on-same :
      (t : Option Target) (name : Text) (s : Store S)
      → applied_on t name s ≡ true
      → (migrate_on files execute luck t name s).1 ≡ s
  migrate_on-same none name s h = refl
  migrate_on-same (some state) name s h = rw (migrate-same name s.state_db h) refl
  migrate_on-same (some metering) name s h = rw (migrate-same name s.metering_db h) refl

  migrate_entry-keeps :
      (f e : DirEntry) (s : Store S)
      → done f s ≡ true
      → done f (migrate_entry files execute luck e s).1 ≡ true
  unfolding migrate_entry
  migrate_entry-keeps f e s h =
      ground (arith, migrate_on-keeps (route f.name) (route e.name) f.name e.name s)

  migrate_entry-done :
      (e : DirEntry) (s : Store S)
      → (migrate_entry files execute luck e s).0 ≡ true
      → done e (migrate_entry files execute luck e s).1 ≡ true
  unfolding migrate_entry
  migrate_entry-done e s h = ground (arith, migrate_on-applied (route e.name) e.name s)

  migrate_entry-same :
      (e : DirEntry) (s : Store S) → done e s ≡ true → (migrate_entry files execute luck e s).1 ≡ s
  unfolding migrate_entry
  migrate_entry-same e s h = ground (arith, migrate_on-same (route e.name) e.name s)

  migrate_all-keeps :
      (f : DirEntry) (es : List DirEntry) (s : Store S)
      → done f s ≡ true
      → done f (migrate_all files execute luck es s).1 ≡ true
  unfolding migrate_all
  migrate_all-keeps f [] s h = h
  migrate_all-keeps f (e ∷ es) s h =
      go (migrate_entry files execute luck e s) (migrate_all-keeps f es)
        (migrate_entry-keeps f e s h)
    where
      go :
          (r : Bool × Store S)
          → ((s : Store S)
              → done f s ≡ true
              → done f (migrate_all files execute luck es s).1 ≡ true)
          → done f r.1 ≡ true
          → done f (continued files execute luck r (migrate_all files execute luck es)).1 ≡ true
      go (true, s') k h' = k s' h'
      go (false, s') k h' = h'

  migrate_all-done :
      (es : List DirEntry) (s : Store S)
      → (migrate_all files execute luck es s).0 ≡ true
      → All (λ e. done e (migrate_all files execute luck es s).1 ≡ true) es
  unfolding migrate_all
  migrate_all-done [] s h = tt
  migrate_all-done (e ∷ es) s h =
      go (migrate_entry files execute luck e s) (migrate_all-done es) (migrate_entry-done e s) h
    where
      go :
          (r : Bool × Store S)
          → ((s : Store S)
              → (migrate_all files execute luck es s).0 ≡ true
              → All (λ e. done e (migrate_all files execute luck es s).1 ≡ true) es)
          → (r.0 ≡ true → done e r.1 ≡ true)
          → (continued files execute luck r (migrate_all files execute luck es)).0 ≡ true
          → All
              (λ e.
                done e (continued files execute luck r (migrate_all files execute luck es)).1
                ≡ true)
              (e ∷ es)
      go (true, s') k d h' = (migrate_all-keeps e es s' (d refl), k s' h')
      go (false, s') k d h' = cc

  migrate_all-same :
      (es : List DirEntry) (s : Store S)
      → All (λ e. done e s ≡ true) es
      → (migrate_all files execute luck es s).1 ≡ s
  unfolding migrate_all
  migrate_all-same [] s h = refl
  migrate_all-same (e ∷ es) s (p, h) =
      go (migrate_entry files execute luck e s) (migrate_entry-same e s p) (migrate_all-same es s h)
    where
      go :
          (r : Bool × Store S)
          → r.1 ≡ s
          → (migrate_all files execute luck es s).1 ≡ s
          → (continued files execute luck r (migrate_all files execute luck es)).1 ≡ s
      go (true, s') q k = rw q k
      go (false, s') q k = q

  module _ (opens : Target → Bool) (entries : List DirEntry) where
    open_store-done :
        (s : Store S)
        → (open_store files execute luck opens entries s).0 ≡ true
        → All
            (λ e. done e (open_store files execute luck opens entries s).1 ≡ true)
            (sort_entries entries)
    unfolding open_store run_migrations
    open_store-done s h = elim (Bool-cases (opens state && opens metering)) [
      | inl o ↦
          elim (Bool-cases
            (luck.creates_table state && luck.creates_table metering && luck.reads_dir)) [
              | inl r ↦ rw (o, r) (migrate_all-done (sort_entries entries) s (rw (o, r) at h))
              | inr r ↦ absurd (cc (rw (o, r) at h))
            ]
      | inr o ↦ absurd (cc (rw o at h))
    ]

    open_store-same :
        (s : Store S)
        → All (λ e. done e s ≡ true) (sort_entries entries)
        → (open_store files execute luck opens entries s).1 ≡ s
    unfolding open_store run_migrations
    open_store-same s h = ground (arith, migrate_all-same (sort_entries entries) s h)

-- Behind an Open that succeeds, every further Open with the same files leaves both databases as
-- they are, whichever of its steps succeed.
pub open_again_changes_nothing :
    {S : Type 0} (files : Text → Option Text) (execute : Text → S → Option S) (luck luck' : Luck)
    (opens opens' : Target → Bool) (entries : List DirEntry) (s : Store S)
    → (open_store files execute luck opens entries s).0 ≡ true
    → let s' = (open_store files execute luck opens entries s).1 in
      (open_store files execute luck' opens' entries s').1 ≡ s'
open_again_changes_nothing files execute luck luck' opens opens' entries s h =
    open_store-same files execute luck' opens' entries
      (open_store files execute luck opens entries s).1
      (open_store-done files execute luck opens entries s h)
