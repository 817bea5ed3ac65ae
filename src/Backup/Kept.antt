-- ===== src/Backup/Kept.antt =====
-- Which backups enforceRetention leaves.
use agentic_paasd.Prelude.{
  ℕ, zero, suc, ◌+◌, ◌-◌, ◌≤◌, ◌<◌, ◌≡◌, refl, sym, ◌∙◌, Bool, true, false, inl, inr, Bool-cases,
  none, List, [], ◌∷◌, Text, same, same_sound, same_refl, same_meet, length, leb, any, count, find,
  drop_all, arith, if◌then◌else◌,
}
use agentic_paasd.Backup.Retention.{
  DirEntry, precedes, sort, first_n, is_named, remove_file, backup_files, remove_files, to_delete,
  enforce_retention,
}
use agentic_paasd.Backup.Order.{
  Least, IsSorted, precedes_total, sort-IsSorted, count-sort, length-sort, any-count, Least-any,
  count-lt-length,
}

-- In a sorted list without the name twice, the first n hold a name just if enough names sort
-- behind it.
first_n-displaced :
    (n : ℕ) (s : Text) (xs : List Text)
    → IsSorted xs
    → any (same s) xs ≡ true
    → length xs ≤ n + count (precedes s) xs
    → any (same s) (first_n n xs) ≡ true
unfolding first_n count
first_n-displaced zero s xs h m b = absurd (omega (arith, count-lt-length s xs m))
first_n-displaced (suc n) s [] h m b = m
first_n-displaced (suc n) s (x ∷ xs) (l, h) m b = elim (Bool-cases (same s x)) [
  | inl e ↦ rw e refl
  | inr e ↦
      let m' : any (same s) xs ≡ true = rw e at m in
      let p = Least-any x s xs l m' in rw e (first_n-displaced n s xs h m' (ground arith))
]

count-length :
    (s : Text) (xs : List Text)
    → Least s xs
    → count (same s) xs ≡ 0
    → count (precedes s) xs ≡ length xs
unfolding count
count-length s [] h e = refl
count-length s (x ∷ xs) (p, h) e = ground (arith, precedes_total s x, count-length s xs)

first_n-spared :
    (n : ℕ) (s : Text) (xs : List Text)
    → IsSorted xs
    → count (same s) xs ≤ 1
    → n + count (precedes s) xs < length xs
    → any (same s) (first_n n xs) ≡ false
unfolding first_n count
first_n-spared zero s xs h c b = refl
first_n-spared (suc n) s [] h c b = refl
first_n-spared (suc n) s (x ∷ xs) (l, h) c b = elim (Bool-cases (same s x)) [
  | inl e ↦
      let l' : Least s xs = rw (same_sound s x e) l in absurd (ground (arith, count-length s xs l'))
  | inr e ↦ rw e (first_n-spared n s xs h (ground arith) (ground arith))
]

pub find-remove_file :
    (s n : Text) (dir : List DirEntry)
    → find (is_named s) (remove_file n dir) ≡ (if same s n then none else find (is_named s) dir)
unfolding find remove_file drop_all
find-remove_file s n [] = ground arith
find-remove_file s n (e ∷ dir) = elim (Bool-cases (same n e.name)) [
  | inl p ↦ rw (p, find-remove_file s n dir, same_sound n e.name p) (ground arith)
  | inr p ↦ elim (Bool-cases (same s e.name)) [
    | inl q ↦ elim (Bool-cases (same s n)) [
      | inl r ↦ let m = same_meet s e.name n q r in cc
      | inr r ↦ rw (p, q, r) refl
    ]
    | inr q ↦ rw (p, q) (find-remove_file s n dir)
  ]
]

find-remove_files :
    (removable : Text → Bool) (s : Text) (ns : List Text) (dir : List DirEntry)
    → removable s ≡ true
    → find (is_named s) (remove_files removable ns dir)
      ≡ (if any (same s) ns then none else find (is_named s) dir)
unfolding remove_files
find-remove_files removable s [] dir h = refl
find-remove_files removable s (n ∷ ns) dir h = elim (Bool-cases (same s n)) [
  | inl e ↦
      rw
        (
          find-remove_files removable s ns (if removable n then remove_file n dir else dir) h,
          ← same_sound s n e,
          h,
          find-remove_file s s dir,
          same_refl s,
        )
        (ground arith)
  | inr e ↦ elim (Bool-cases (removable n)) [
    | inl r ↦
        rw
          (
            e,
            r,
            find-remove_files removable s ns (remove_file n dir) h,
            find-remove_file s n dir,
            e,
          )
          refl
    | inr r ↦ rw (e, r) (find-remove_files removable s ns dir h)
  ]
]

to_delete-any :
    (kept : ℕ) (s : Text) (files : List Text)
    → any (same s) files ≡ true
    → count (same s) files ≤ 1
    → any (same s) (to_delete kept files) ≡ leb kept (count (precedes s) files)
unfolding to_delete
to_delete-any kept s files m c = elim (Bool-cases (leb kept (count (precedes s) files))) [
  | inl e ↦ rw e (
      let few : leb (length files) kept ≡ false = ground (arith, count-lt-length s files m) in
      rw few (
        first_n-displaced (length files - kept) s (sort files) (sort-IsSorted files)
          (any-count (same s) (sort files)
            ∙ rw (count-sort (same s) files) (sym (any-count (same s) files) ∙ m))
          (ground (arith, length-sort files, count-sort (precedes s) files))))
  | inr e ↦ elim (Bool-cases (leb (length files) kept)) [
    | inl few ↦ rw (e, few) refl
    | inr many ↦
        rw (e, many)
          (first_n-spared (length files - kept) s (sort files) (sort-IsSorted files)
            (rw (count-sort (same s) files) c)
            (ground (arith, length-sort files, count-sort (precedes s) files)))
  ]
]

-- Where the directory can be read, a backup that is in it once and that os.Remove can remove is gone
-- after a retention just if at least as many names as are to be kept sort behind its own; else
-- it is as before.
pub retention_is_exact :
    (removable : Text → Bool) (kept : ℕ) (s : Text) (dir : List DirEntry)
    → removable s ≡ true
    → any (same s) (backup_files dir) ≡ true
    → count (same s) (backup_files dir) ≤ 1
    → find (is_named s) (enforce_retention true removable kept dir)
      ≡ (if leb kept (count (precedes s) (backup_files dir)) then none else find (is_named s) dir)
unfolding enforce_retention
retention_is_exact removable kept s dir h m c =
    find-remove_files removable s (to_delete kept (backup_files dir)) dir h
    ∙ rw (to_delete-any kept s (backup_files dir) m c) refl
