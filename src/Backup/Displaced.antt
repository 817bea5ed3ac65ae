-- ===== src/Backup/Displaced.antt =====
-- The backups of the two databases share one directory, and one sorted list.
use agentic_paasd.Prelude.{
  ◌≤◌, ◌≡◌, refl, ◌∙◌, Bool, true, none, List, [], ◌∷◌, ◌++◌, Text, codes, same, has_prefix, any,
  count, count_mono, find, le→leb, arith,
}
use agentic_paasd.Backup.Retention.{DirEntry, precedes, is_named, backup_files, enforce_retention}
use agentic_paasd.Backup.Kept.{retention_is_exact}

has_prefix_sound : (s p : Text) → has_prefix s p ≡ true → (r : Text) × (s ≡ p ++ r)
unfolding has_prefix
has_prefix_sound s [] h = (s, refl)
has_prefix_sound [] (y ∷ p) h = cc
has_prefix_sound (x ∷ s) (y ∷ p) h =
    let (r, e) = has_prefix_sound s p (ground arith) in (r, ground arith)

abbrev pub is_metering : Text → Bool
is_metering n = has_prefix n (codes "ah-metering-")

state-precedes-metering :
    (stamp n : Text) → is_metering n ≡ true → precedes (codes "ah-2" ++ stamp) n ≡ true
unfolding precedes
state-precedes-metering stamp n h =
    let (r, e) = has_prefix_sound n (codes "ah-metering-") h in rw e refl

-- Where the directory can be read and holds ten backups of the metering database, a backup of the
-- state database that is there once and that os.Remove can remove is gone after a retention, the one
-- just written included. Its stamp begins with the year, which begins with a 2.
pub metering_displaces_state :
    (removable : Text → Bool) (stamp : Text) (dir : List DirEntry)
    → removable (codes "ah-2" ++ stamp) ≡ true
    → any (same (codes "ah-2" ++ stamp)) (backup_files dir) ≡ true
    → count (same (codes "ah-2" ++ stamp)) (backup_files dir) ≤ 1
    → 10 ≤ count is_metering (backup_files dir)
    → find (is_named (codes "ah-2" ++ stamp)) (enforce_retention true removable 10 dir) ≡ none
metering_displaces_state removable stamp dir h m c ten =
    let later =
      count_mono is_metering (precedes (codes "ah-2" ++ stamp)) (backup_files dir)
        (state-precedes-metering stamp) in
    retention_is_exact removable 10 (codes "ah-2" ++ stamp) dir h m c
    ∙ rw (le→leb 10 (count (precedes (codes "ah-2" ++ stamp)) (backup_files dir)) (omega arith))
        refl
