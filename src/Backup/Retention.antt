-- ===== src/Backup/Retention.antt =====
-- enforceRetention of cmd/ah/backup.go, over the entries of the backup directory.
use agentic_paasd.Prelude.{
  ℕ, zero, suc, ◌-◌, Bool, true, false, not, ◌&&◌, ◌||◌, List, [], ◌∷◌, Text, codes, is_empty, same,
  length, ltb, leb, ◌==◌, keep, map, drop_all, if◌then◌else◌,
}

pub record DirEntry : Type 0 where
  pub name : Text
  pub is_dir : Bool
  pub content : Text

-- a < b, byte by byte, as sort.Strings compares.
unfoldable pub precedes : Text → Text → Bool
precedes [] [] = false
precedes [] (y ∷ b) = true
precedes (x ∷ a) [] = false
precedes (x ∷ a) (y ∷ b) = ltb x y || ((x == y) && precedes a b)

unfoldable pub insert_sorted : Text → List Text → List Text
insert_sorted x [] = x ∷ []
insert_sorted x (y ∷ ys) = if precedes y x then y ∷ insert_sorted x ys else x ∷ y ∷ ys

-- sort.Strings
unfoldable pub sort : List Text → List Text
sort [] = []
sort (x ∷ xs) = insert_sorted x (sort xs)

-- names[:n]
unfoldable pub first_n : ℕ → List Text → List Text
first_n zero xs = []
first_n (suc n) [] = []
first_n (suc n) (x ∷ xs) = x ∷ first_n n xs

-- strings.HasSuffix(s, p)
unfoldable pub has_suffix : Text → Text → Bool
unfolding same
has_suffix [] p = is_empty p
has_suffix (x ∷ s) p = same (x ∷ s) p || has_suffix s p

unfoldable pub is_backup : DirEntry → Bool
is_backup e = not e.is_dir && has_suffix e.name (codes ".db.gz")

abbrev pub name_of : DirEntry → Text
name_of e = e.name

abbrev pub is_named : Text → DirEntry → Bool
is_named n e = same n e.name

-- os.Remove; what is not there is no concern of the callers, which drop the error.
unfoldable pub remove_file : Text → List DirEntry → List DirEntry
remove_file n dir = drop_all (is_named n) dir

unfoldable pub backup_files : List DirEntry → List Text
unfolding is_backup
backup_files dir = map name_of (keep is_backup dir)

-- The loop over toDelete; a removal that fails is only logged.
unfoldable pub remove_files : (Text → Bool) → List Text → List DirEntry → List DirEntry
remove_files removable [] dir = dir
remove_files removable (n ∷ ns) dir =
    remove_files removable ns (if removable n then remove_file n dir else dir)

unfoldable pub to_delete : ℕ → List Text → List Text
to_delete kept files =
    if leb (length files) kept then [] else first_n (length files - kept) (sort files)

-- `readable` is whether os.ReadDir succeeds.
unfoldable pub enforce_retention : Bool → (Text → Bool) → ℕ → List DirEntry → List DirEntry
enforce_retention readable removable kept dir =
    if readable then remove_files removable (to_delete kept (backup_files dir)) dir else dir
