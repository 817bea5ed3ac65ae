-- ===== src/Migrations/Tests.antt =====
-- A start with two migrations, where a schema is the list of the scripts that ran.
use agentic_paasd.Prelude.{
  ◌≡◌, refl, true, false, not, Option, some, List, [], ◌∷◌, Text, codes, same, has_prefix, count,
  arith,
}
use agentic_paasd.Backup.Retention.{precedes, has_suffix}
use agentic_paasd.Migrations.{
  Store, DirEntry, Luck, is_applied, migrate, migrate_entry, migrate_all, run_migrations,
  open_store, insert_entry, sort_entries, route, is_skipped,
}
use agentic_paasd.Migrations.Replay.{IsReplay, AreReplays, open_store-AreReplays}
use agentic_paasd.Migrations.Again.{open_again_changes_nothing}

abbrev empty_store : Store (List Text)
empty_store = record {
  state_db = record { schema = []; recorded = [] };
  metering_db = record { schema = []; recorded = [] };
}

abbrev sample_files : Text → Option Text
sample_files name = some name

abbrev run_script : Text → List Text → Option (List Text)
run_script script schema = some (script ∷ schema)

abbrev sample_entries : List DirEntry
sample_entries =
    record { name = codes "state_002.sql"; is_dir = false }
    ∷ record { name = codes "state_001.sql"; is_dir = false }
    ∷ []

abbrev all_up : Luck
all_up = record {
  creates_table = λ _. true;
  reads_dir = true;
  checks = λ _. true;
  begins = λ _. true;
  records = λ _. true;
  commits = λ _. true;
}

-- The commit of the second migration fails.
abbrev cut_short : Luck
cut_short = record all_up { commits = λ n. not (same n (codes "state_002.sql")) }

in_order :
    (open_store sample_files run_script all_up
      (λ _. true)
      sample_entries
      empty_store).1.state_db.recorded
    ≡ codes "state_002.sql" ∷ codes "state_001.sql" ∷ []
unfolding open_store run_migrations migrate_all migrate_entry migrate is_applied sort_entries
    insert_entry route is_skipped precedes has_suffix has_prefix same
in_order = refl

empty-IsReplay : IsReplay sample_files run_script [] empty_store.state_db
unfolding count
empty-IsReplay = record { replays = refl; once = λ n. omega arith }

open_store-AreReplays_example :
    AreReplays sample_files run_script [] []
      (open_store sample_files run_script cut_short (λ _. true) sample_entries empty_store).1
open_store-AreReplays_example =
    open_store-AreReplays sample_files run_script cut_short [] [] (λ _. true) sample_entries
      empty_store (record { of_state = empty-IsReplay; of_metering = empty-IsReplay })

open_again_changes_nothing_example :
    let s = (open_store sample_files run_script all_up (λ _. true) sample_entries empty_store).1 in
    (open_store sample_files run_script cut_short (λ _. true) sample_entries s).1 ≡ s
unfolding open_store run_migrations migrate_all migrate_entry migrate is_applied sort_entries
    insert_entry route is_skipped precedes has_suffix has_prefix same
open_again_changes_nothing_example =
    open_again_changes_nothing sample_files run_script all_up cut_short (λ _. true) (λ _. true)
      sample_entries empty_store refl
