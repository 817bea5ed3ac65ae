-- ===== src/Backup/Files.antt =====
-- backupSQLite and gzipFileAtomic of cmd/ah/backup.go, on the files of the backup directory. What
-- SQLite, gzip and the file system answer is a `Luck`; the errors' texts are left out.
use agentic_paasd.Prelude.{
  Bool, true, false, ◌&&◌, Option, none, some, List, [], ◌∷◌, ◌++◌, Text, codes, find, ◌==◌,
  if◌then◌else◌,
}
use agentic_paasd.Backup.Retention.{DirEntry, is_named, remove_file}

pub record Luck : Type 0 where
  pub opens_db : Bool
  pub snapshot : Option Text  -- what VACUUM INTO writes, or its failure
  pub leftover : Option Text  -- what a VACUUM INTO that fails leaves
  pub opens : Bool  -- os.Open
  pub stats : Bool  -- in.Stat
  pub creates : Bool  -- os.OpenFile
  pub copies : Bool  -- io.Copy
  pub finishes : Bool  -- gz.Close
  pub syncs : Bool  -- out.Sync
  pub closes : Bool  -- out.Close
  pub renames : Bool  -- os.Rename
  pub partial : Text  -- what a compression that fails has written
  pub removes : Text → Bool  -- os.Remove

abbrev pub file : Text → Text → DirEntry
file n c = record { name = n; is_dir = false; content = c }

abbrev pub write_file : Text → Text → List DirEntry → List DirEntry
write_file n c dir = file n c ∷ remove_file n dir

abbrev pub os_remove : Luck → Text → List DirEntry → List DirEntry
os_remove luck n dir = if luck.removes n then remove_file n dir else dir

abbrev pub rename_entry : Option DirEntry → Text → Text → List DirEntry → List DirEntry
rename_entry none from to dir = dir
rename_entry (some e) from to dir = write_file to e.content (remove_file from dir)

-- os.Rename replaces the file that has the new name.
unfoldable pub rename : Text → Text → List DirEntry → List DirEntry
rename from to dir = rename_entry (find (is_named from) dir) from to dir

abbrev pub tmp_of : Text → Text
tmp_of dst = dst ++ codes ".tmp"

abbrev pub vacuum_of : Text → Text
vacuum_of dst = dst ++ codes ".vacuumtmp"

-- strings.ReplaceAll(path, "'", "''")
unfoldable pub escape : Text → Text
escape [] = []
escape (c ∷ s) = if c == b'\'' then b'\'' ∷ b'\'' ∷ escape s else c ∷ escape s

unfoldable pub vacuum_statement : Text → Text
vacuum_statement path = codes "VACUUM INTO '" ++ (escape path ++ codes "'")

module _ (gzip : Text → Text) (luck : Luck) where
  -- Behind the creation of the temporary file.
  unfoldable pub finish_gzip : Text → List DirEntry → Bool × List DirEntry
  finish_gzip dst dir =
      if luck.finishes && luck.copies && luck.syncs && luck.closes
      then (if luck.renames
          then (true, rename (tmp_of dst) dst dir)
          else (false, os_remove luck (tmp_of dst) dir))
      else (false, os_remove luck (tmp_of dst) dir)

  abbrev pub compressed : Text → Text
  compressed c = if luck.finishes && luck.copies then gzip c else luck.partial

  abbrev pub gzip_found : Option DirEntry → Text → List DirEntry → Bool × List DirEntry
  gzip_found none dst dir = (false, dir)
  gzip_found (some e) dst dir =
      if luck.opens && luck.stats && luck.creates
      then finish_gzip dst (write_file (tmp_of dst) (compressed e.content) dir)
      else (false, dir)

  unfoldable pub gzip_file_atomic : Text → Text → List DirEntry → Bool × List DirEntry
  gzip_file_atomic src dst dir = gzip_found (find (is_named src) dir) dst dir

  abbrev pub left_over : Option Text → Text → List DirEntry → List DirEntry
  left_over none n dir = dir
  left_over (some c) n dir = write_file n c dir

  abbrev pub vacuumed : Option Text → Text → List DirEntry → Bool × List DirEntry
  vacuumed none dst dir = (false, left_over luck.leftover (vacuum_of dst) dir)
  vacuumed (some c) dst dir =
      gzip_file_atomic (vacuum_of dst) dst (write_file (vacuum_of dst) c dir)

  -- The temporary copy is removed on every way out behind sql.Open.
  abbrev pub cleaned_up : Bool → Bool × List DirEntry → Text → List DirEntry → Bool × List DirEntry
  cleaned_up true (done, dir') dst dir = (done, os_remove luck (vacuum_of dst) dir')
  cleaned_up false made dst dir = (false, dir)

  unfoldable pub backup_sqlite : Text → List DirEntry → Bool × List DirEntry
  backup_sqlite dst dir = cleaned_up luck.opens_db (vacuumed luck.snapshot dst dir) dst dir
