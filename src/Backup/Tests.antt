-- ===== src/Backup/Tests.antt =====
-- Runs of the backup on a small directory.
use agentic_paasd.Prelude.{
  ◌≡◌, ◌&&◌, refl, true, false, none, some, List, [], ◌∷◌, ◌++◌, Text, codes, same, has_prefix,
  count, find, leb, arith, if◌then◌else◌, keep,
}
use agentic_paasd.Backup.Retention.{
  DirEntry, precedes, has_suffix, is_named, backup_files, enforce_retention,
}
use agentic_paasd.Backup.Files.{Luck, file, backup_sqlite, vacuum_statement}
use agentic_paasd.Backup.Kept.{retention_is_exact}
use agentic_paasd.Backup.Displaced.{metering_displaces_state}
use agentic_paasd.Backup.Atomic.{content, compressed_snapshot, backup_is_atomic}
use agentic_paasd.Backup.Literal.{read_literal, vacuum_statement-reads_back}

abbrev backup_named : Text → DirEntry
backup_named n = file (n ++ codes ".db.gz") []

-- Ten backups of the metering database.
abbrev metering_ten : List DirEntry
metering_ten =
    backup_named (codes "ah-metering-20250101-0")
    ∷ backup_named (codes "ah-metering-20250101-1")
    ∷ backup_named (codes "ah-metering-20250101-2")
    ∷ backup_named (codes "ah-metering-20250101-3")
    ∷ backup_named (codes "ah-metering-20250101-4")
    ∷ backup_named (codes "ah-metering-20250101-5")
    ∷ backup_named (codes "ah-metering-20250101-6")
    ∷ backup_named (codes "ah-metering-20250101-7")
    ∷ backup_named (codes "ah-metering-20250101-8")
    ∷ backup_named (codes "ah-metering-20250101-9")
    ∷ []

abbrev full_dir : List DirEntry
full_dir = backup_named (codes "ah-20250202-0") ∷ metering_ten

abbrev two_states : List DirEntry
two_states = backup_named (codes "ah-20250202-0") ∷ backup_named (codes "ah-20250101-0") ∷ []

retention_is_exact_example :
    find (is_named (codes "ah-20250101-0.db.gz")) (enforce_retention true (λ _. true) 1 two_states)
    ≡ (if leb 1 (count (precedes (codes "ah-20250101-0.db.gz")) (backup_files two_states))
        then none
        else find (is_named (codes "ah-20250101-0.db.gz")) two_states)
unfolding backup_files has_suffix same keep count
retention_is_exact_example =
    retention_is_exact (λ _. true) 1 (codes "ah-20250101-0.db.gz") two_states refl refl
      (omega arith)

metering_displaces_state_example :
    find (is_named (codes "ah-20250202-0.db.gz")) (enforce_retention true (λ _. true) 10 full_dir)
    ≡ none
unfolding backup_files has_suffix same keep count has_prefix
metering_displaces_state_example =
    metering_displaces_state (λ _. true) (codes "0250202-0.db.gz") full_dir refl refl (omega arith)
      (omega arith)

-- The disk is full when the compressed file is synchronised.
abbrev full_disk : Luck
full_disk = record {
  opens_db = true;
  snapshot = some (codes "rows");
  leftover = none;
  opens = true;
  stats = true;
  creates = true;
  copies = true;
  finishes = true;
  syncs = false;
  closes = true;
  renames = true;
  partial = [];
  removes = λ _. true;
}

backup_is_atomic_example :
    content (codes "a.gz") (backup_sqlite (λ t. t) full_disk (codes "a.gz") two_states).1 ≡ (
      if (backup_sqlite (λ t. t) full_disk (codes "a.gz") two_states).0
        && same (codes "a.gz") (codes "a.gz")
      then compressed_snapshot (λ t. t) full_disk (some (codes "rows"))
      else content (codes "a.gz") two_states)
unfolding find same
backup_is_atomic_example =
    backup_is_atomic (λ t. t) full_disk (codes "a.gz") (codes "a.gz") two_states refl refl refl refl

vacuum_statement-reads_back_example :
    (text : Text) × (vacuum_statement (codes "/o'neil/ah.db") ≡ codes "VACUUM INTO '" ++ text)
    × (read_literal false text ≡ some (codes "/o'neil/ah.db", []))
vacuum_statement-reads_back_example = vacuum_statement-reads_back (codes "/o'neil/ah.db")
