-- ===== src/Migrations.antt =====
-- Open and runMigrations of internal/db/db.go. What a script does to a schema is SQLite's: a
-- parameter, which may refuse. A crash in a run is a run in which the next step fails.
pub mod Replay
pub mod Again
pub mod Tests
use agentic_paasd.Prelude.{
  Bool, true, false, not, ◌&&◌, ◌||◌, Option, none, some, List, [], ◌∷◌, Text, codes, same, any,
  has_prefix, if◌then◌else◌,
}
use agentic_paasd.Backup.Retention.{precedes, has_suffix}

-- One database: its schema without the rows of its tables, and the names in schema_migrations, the newest first.
-- A missing table is an empty one: CREATE TABLE IF NOT EXISTS comes before any use.
pub record Database (S : Type 0) : Type 0 where
  pub schema : S
  pub recorded : List Text

pub record Store (S : Type 0) : Type 0 where
  pub state_db : Database S
  pub metering_db : Database S

pub data Target : Type 0 where
  state metering : Target

-- fs.DirEntry
pub record DirEntry : Type 0 where
  pub name : Text
  pub is_dir : Bool

-- The steps that may fail, those of a migration by its name.
pub record Luck : Type 0 where
  pub creates_table : Target → Bool
  pub reads_dir : Bool
  pub checks : Text → Bool
  pub begins : Text → Bool
  pub records : Text → Bool
  pub commits : Text → Bool

unfoldable pub insert_entry : DirEntry → List DirEntry → List DirEntry
insert_entry e [] = e ∷ []
insert_entry e (f ∷ fs) = if precedes f.name e.name then f ∷ insert_entry e fs else e ∷ f ∷ fs

-- sort.Slice by name; the names of a directory differ.
unfoldable pub sort_entries : List DirEntry → List DirEntry
sort_entries [] = []
sort_entries (e ∷ es) = insert_entry e (sort_entries es)

unfoldable pub route : Text → Option Target
route name =
    if has_prefix name (codes "state_")
    then some Target.state
    else if has_prefix name (codes "metering_")
    then some Target.metering
    else none

unfoldable pub is_skipped : DirEntry → Bool
is_skipped e = e.is_dir || not (has_suffix e.name (codes ".sql"))

module _ {S : Type 0} where
  abbrev pub db_of : Target → Store S → Database S
  db_of state s = s.state_db
  db_of metering s = s.metering_db

  abbrev pub set_db : Target → Database S → Store S → Store S
  set_db state d s = record s { state_db = d }
  set_db metering d s = record s { metering_db = d }

  -- SELECT COUNT(*) FROM schema_migrations WHERE name = ? is more than 0.
  unfoldable pub is_applied : Text → Database S → Bool
  is_applied name d = any (same name) d.recorded

-- `files` is fs.ReadFile, `execute` SQLite's Exec of a whole script.
module _ {S : Type 0} (files : Text → Option Text) (execute : Text → S → Option S)
    (luck : Luck) where
  -- The transaction behind the execution: the record and the commit. Else all is rolled back.
  abbrev pub record_applied : Text → Option S → Database S → Bool × Database S
  record_applied name none d = (false, d)
  record_applied name (some schema) d =
      if luck.records name && luck.commits name
      then (true, record { schema = schema; recorded = name ∷ d.recorded })
      else (false, d)

  abbrev pub apply_script : Text → Option Text → Database S → Bool × Database S
  apply_script name none d = (false, d)
  apply_script name (some script) d =
      if luck.begins name then record_applied name (execute script d.schema) d else (false, d)

  -- One migration on its database; `true` is to go on.
  unfoldable pub migrate : Text → Database S → Bool × Database S
  migrate name d =
      if luck.checks name
      then (if is_applied name d then (true, d) else apply_script name (files name) d)
      else (false, d)

  abbrev pub migrate_on : Option Target → Text → Store S → Bool × Store S
  migrate_on none name s = (false, s)
  migrate_on (some t) name s = let (on, d) = migrate name (db_of t s) in (on, set_db t d s)

  unfoldable pub migrate_entry : DirEntry → Store S → Bool × Store S
  migrate_entry e s = if is_skipped e then (true, s) else migrate_on (route e.name) e.name s

  abbrev pub continued : Bool × Store S → (Store S → Bool × Store S) → Bool × Store S
  continued (true, s) rest = rest s
  continued (false, s) rest = (false, s)

  -- The loop over the entries.
  unfoldable pub migrate_all : List DirEntry → Store S → Bool × Store S
  migrate_all [] s = (true, s)
  migrate_all (e ∷ es) s = continued (migrate_entry e s) (migrate_all es)

  unfoldable pub run_migrations : List DirEntry → Store S → Bool × Store S
  run_migrations entries s =
      if luck.creates_table Target.state && luck.creates_table Target.metering && luck.reads_dir
      then migrate_all (sort_entries entries) s
      else (false, s)

  -- Open: `opens` is openDB of each file. The state database is closed again where it fails.
  unfoldable pub open_store : (Target → Bool) → List DirEntry → Store S → Bool × Store S
  open_store opens entries s =
      if opens Target.state && opens Target.metering then run_migrations entries s else (false, s)
