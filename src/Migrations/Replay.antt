-- ===== src/Migrations/Replay.antt =====
-- Each recorded migration of internal/db/db.go has been executed once, in the order of the records.
use agentic_paasd.Prelude.{
  ◌≡◌, refl, ◌≤◌, Bool, true, false, ◌&&◌, Option, none, some, List, [], ◌∷◌, Text, same,
  same_sound, any, count, count_of_any, arith, inl, inr, Bool-cases,
}
use agentic_paasd.Migrations.{
  Database, Store, Target, state, metering, DirEntry, Luck, is_applied, record_applied,
  apply_script, migrate, migrate_on, migrate_entry, continued, migrate_all, run_migrations,
  open_store, sort_entries, route, is_skipped,
}

once_more :
    (n name : Text) (ns : List Text)
    → count (same n) ns ≤ 1
    → any (same name) ns ≡ false
    → count (same n) (name ∷ ns) ≤ 1
unfolding count
once_more n name ns h fresh = elim (Bool-cases (same n name)) [
  | inl e ↦ rw e (
      let gone : count (same n) ns ≡ 0 =
        rw (same_sound n name e) (count_of_any (same name) ns fresh) in
      omega arith)
  | inr e ↦ rw e h
]

module _ {S : Type 0} (files : Text → Option Text) (execute : Text → S → Option S) where
  abbrev executed : Option Text → Option S → Option S
  executed (some script) (some s) = execute script s
  executed _ _ = none

  -- The schema that the scripts of these names give, the last name first to run.
  abbrev pub replay : S → List Text → Option S
  replay base [] = some base
  replay base (n ∷ ns) = executed (files n) (replay base ns)

  pub record IsReplay (base : S) (d : Database S) : Type 0 where
    pub replays : replay base d.recorded ≡ some d.schema
    pub once : (n : Text) → count (same n) d.recorded ≤ 1

  pub record AreReplays (base base' : S) (s : Store S) : Type 0 where
    pub of_state : IsReplay base s.state_db
    pub of_metering : IsReplay base' s.metering_db

  module _ (luck : Luck) where
    record_applied-IsReplay :
        (base : S) (name script : Text) (made : Option S) (d : Database S)
        → files name ≡ some script
        → execute script d.schema ≡ made
        → is_applied name d ≡ false
        → IsReplay base d
        → IsReplay base (record_applied files execute luck name made d).1
    unfolding is_applied
    record_applied-IsReplay base name script none d f x fresh h = h
    record_applied-IsReplay base name script (some schema) d f x fresh h =
        elim (Bool-cases (luck.records name && luck.commits name)) [
          | inl e ↦ rw e (record {
            replays = rw (f, h.replays) x;
            once = λ n. once_more n name d.recorded (h.once n) fresh;
          })
          | inr e ↦ rw e h
        ]

    migrate-IsReplay :
        (base : S) (name : Text) (d : Database S)
        → IsReplay base d
        → IsReplay base (migrate files execute luck name d).1
    unfolding migrate
    migrate-IsReplay base name d h = elim (Bool-cases (is_applied name d)) [
      | inl old ↦ elim (Bool-cases (luck.checks name)) [ inl c ↦ rw (c, old) h | inr c ↦ rw c h ]
      | inr new ↦ elim (Bool-cases (luck.checks name)) [
        | inl c ↦ rw (c, new) (scripted (files name) refl new)
        | inr c ↦ rw c h
      ]
    ]
      where
        scripted :
            (found : Option Text)
            → files name ≡ found
            → is_applied name d ≡ false
            → IsReplay base (apply_script files execute luck name found d).1
        scripted none e new = h
        scripted (some script) e new = elim (Bool-cases (luck.begins name)) [
          | inl b ↦
              rw b
                (record_applied-IsReplay base name script (execute script d.schema) d e refl new h)
          | inr b ↦ rw b h
        ]

    module _ (base base' : S) where
      migrate_on-AreReplays :
          (t : Option Target) (name : Text) (s : Store S)
          → AreReplays base base' s
          → AreReplays base base' (migrate_on files execute luck t name s).1
      migrate_on-AreReplays none name s h = h
      migrate_on-AreReplays (some state) name s h = record {
        of_state = migrate-IsReplay base name s.state_db h.of_state;
        of_metering = h.of_metering;
      }
      migrate_on-AreReplays (some metering) name s h = record {
        of_state = h.of_state;
        of_metering = migrate-IsReplay base' name s.metering_db h.of_metering;
      }

      continued-AreReplays :
          (r : Bool × Store S) (rest : Store S → Bool × Store S)
          → ((s : Store S) → AreReplays base base' s → AreReplays base base' (rest s).1)
          → AreReplays base base' r.1
          → AreReplays base base' (continued files execute luck r rest).1
      continued-AreReplays (true, s) rest k h = k s h
      continued-AreReplays (false, s) rest k h = h

      migrate_all-AreReplays :
          (es : List DirEntry) (s : Store S)
          → AreReplays base base' s
          → AreReplays base base' (migrate_all files execute luck es s).1
      unfolding migrate_all migrate_entry
      migrate_all-AreReplays [] s h = h
      migrate_all-AreReplays (e ∷ es) s h = elim (Bool-cases (is_skipped e)) [
        | inl k ↦ rw k (migrate_all-AreReplays es s h)
        | inr k ↦ rw k (
            continued-AreReplays (migrate_on files execute luck (route e.name) e.name s)
              (migrate_all files execute luck es) (migrate_all-AreReplays es)
              (migrate_on-AreReplays (route e.name) e.name s h))
      ]

      -- If the schemas of both databases are what their recorded scripts give, in the order of the
      -- records and each recorded once, then so they are behind an Open, however it fails or is
      -- cut short.
      pub open_store-AreReplays :
          (opens : Target → Bool) (entries : List DirEntry) (s : Store S)
          → AreReplays base base' s
          → AreReplays base base' (open_store files execute luck opens entries s).1
      unfolding open_store run_migrations
      open_store-AreReplays opens entries s h = elim (Bool-cases (opens state && opens metering)) [
        | inl o ↦
            elim (Bool-cases
              (luck.creates_table state && luck.creates_table metering && luck.reads_dir)) [
                | inl r ↦ rw (o, r) (migrate_all-AreReplays (sort_entries entries) s h)
                | inr r ↦ rw (o, r) h
              ]
        | inr o ↦ rw o h
      ]
