-- ===== src/Backup/Command.antt =====
-- runBackup of cmd/ah/backup.go.
use agentic_paasd.Prelude.{Bool, true, false, ◌&&◌, List, ◌++◌, Text, codes, if◌then◌else◌}
use agentic_paasd.Backup.Retention.{DirEntry, enforce_retention}
use agentic_paasd.Backup.Files.{Luck, backup_sqlite}

pub record Run : Type 0 where
  pub makes_dir : Bool  -- os.MkdirAll
  pub has_space : Bool  -- diskcheck.Check
  pub stamp : Text  -- the time as 20060102-150405
  pub has_metering : Bool  -- os.Stat of the metering database
  pub state : Luck
  pub metering : Luck
  pub readable : Bool  -- os.ReadDir
  pub removable : Text → Bool  -- os.Remove

abbrev pub state_backup : Text → Text
state_backup stamp = codes "ah-" ++ (stamp ++ codes ".db.gz")

abbrev pub metering_backup : Text → Text
metering_backup stamp = codes "ah-metering-" ++ (stamp ++ codes ".db.gz")

module _ (gzip : Text → Text) (run : Run) where
  abbrev pub back_up_metering : List DirEntry → List DirEntry
  back_up_metering dir =
      if run.has_metering
      then (backup_sqlite gzip run.metering (metering_backup run.stamp) dir).1
      else dir

  abbrev pub after_state : Bool × List DirEntry → Bool × List DirEntry
  after_state (true, dir) =
      (true, enforce_retention run.readable run.removable 10 (back_up_metering dir))
  after_state (false, dir) = (false, dir)

  -- `false` is log.Fatalf.
  unfoldable pub run_backup : List DirEntry → Bool × List DirEntry
  run_backup dir =
      if run.makes_dir && run.has_space
      then after_state (backup_sqlite gzip run.state (state_backup run.stamp) dir)
      else (false, dir)
