-- ===== src/Backup/Atomic.antt =====
-- A backup is written whole or not at all.
use agentic_paasd.Prelude.{
  ◌≡◌, refl, Bool, true, false, ◌&&◌, inl, inr, Bool-cases, Option, none, some, List, Text, codes,
  same, same_sound, same_refl, length, length-append, find, arith, if◌then◌else◌, ◌≢◌,
}
use agentic_paasd.Backup.Retention.{DirEntry, is_named, remove_file}
use agentic_paasd.Backup.Files.{
  Luck, write_file, rename_entry, rename, tmp_of, vacuum_of, finish_gzip, compressed, gzip_found,
  gzip_file_atomic, left_over, vacuumed, cleaned_up, backup_sqlite,
}
use agentic_paasd.Backup.Kept.{find-remove_file}

abbrev pub content_of : Option DirEntry → Option Text
content_of none = none
content_of (some e) = some e.content

-- What a reader of the file finds.
abbrev pub content : Text → List DirEntry → Option Text
content n dir = content_of (find (is_named n) dir)

content-remove :
    (n m : Text) (dir : List DirEntry)
    → content n (remove_file m dir) ≡ (if same n m then none else content n dir)
content-remove n m dir = rw (find-remove_file n m dir) (ground arith)

content-write :
    (n m c : Text) (dir : List DirEntry)
    → content n (write_file m c dir) ≡ (if same n m then some c else content n dir)
unfolding find
content-write n m c dir = ground (arith, content-remove n m dir)

content-rename :
    (n a b c : Text) (dir : List DirEntry)
    → content a dir ≡ some c
    → content n (rename a b dir)
      ≡ (if same n b then some c else if same n a then none else content n dir)
unfolding rename
content-rename n a b c dir h = go (find (is_named a) dir) h
  where
    go :
        (found : Option DirEntry)
        → content_of found ≡ some c
        → content n (rename_entry found a b dir)
          ≡ (if same n b then some c else if same n a then none else content n dir)
    go none e = cc
    go (some e) h =
        rw (content-write n b e.content (remove_file a dir), content-remove n a dir) (ground arith)

apart : (n a b : Text) → length a ≢ length b → same n a ≡ true → same n b ≡ false
apart n a b d h = elim (Bool-cases (same n b)) [
  | inl e ↦ absurd (d (rw (← same_sound n a h, ← same_sound n b e) refl))
  | inr e ↦ e
]

module _ (gzip : Text → Text) (luck : Luck) where
  abbrev pub compressed_snapshot : Option Text → Option Text
  compressed_snapshot none = none
  compressed_snapshot (some c) = some (gzip c)

  finish_gzip-content :
      (n dst x : Text) (dir : List DirEntry)
      → luck.removes (tmp_of dst) ≡ true
      → content (tmp_of dst) dir ≡ some x
      → content n (finish_gzip gzip luck dst dir).1 ≡ (
          if (finish_gzip gzip luck dst dir).0 && same n dst
          then some x
          else if same n (tmp_of dst)
          then none
          else content n dir)
  unfolding finish_gzip
  finish_gzip-content n dst x dir r h =
      ground (arith, content-rename n (tmp_of dst) dst x dir h, content-remove n (tmp_of dst) dir)

  -- A name that is not there may be left out.
  absorb :
      (n m : Text) (dir : List DirEntry)
      → content m dir ≡ none
      → (if same n m then none else content n dir) ≡ content n dir
  absorb n m dir h = elim (Bool-cases (same n m)) [
    | inl e ↦ rw (e, same_sound n m e, h) refl
    | inr e ↦ rw e refl
  ]

  -- A compression that counts as done has written all.
  compressed-done :
      (dst c : Text) (dir : List DirEntry)
      → (finish_gzip gzip luck dst dir).0 ≡ true
      → compressed gzip luck c ≡ gzip c
  unfolding finish_gzip
  compressed-done dst c dir h = ground arith

  finished :
      (n dst c : Text) (dir : List DirEntry)
      → luck.removes (tmp_of dst) ≡ true
      → content (tmp_of dst) dir ≡ none
      → let (done, dir') =
          finish_gzip gzip luck dst (write_file (tmp_of dst) (compressed gzip luck c) dir) in
        content n dir' ≡ (if done && same n dst then some (gzip c) else content n dir)
  finished n dst c dir r t =
      let x = compressed gzip luck c in
      let out = write_file (tmp_of dst) x dir in
      let here : content (tmp_of dst) out ≡ some x =
        rw (content-write (tmp_of dst) (tmp_of dst) x dir, same_refl (tmp_of dst)) refl in
      rw (finish_gzip-content n dst x out r here, content-write n (tmp_of dst) x dir)
        (ground (arith, compressed-done dst c out, absorb n (tmp_of dst) dir t))

  gzip_file_atomic-content :
      (n src dst c : Text) (dir : List DirEntry)
      → luck.removes (tmp_of dst) ≡ true
      → content src dir ≡ some c
      → content (tmp_of dst) dir ≡ none
      → content n (gzip_file_atomic gzip luck src dst dir).1 ≡ (
          if (gzip_file_atomic gzip luck src dst dir).0 && same n dst
          then some (gzip c)
          else content n dir)
  unfolding gzip_file_atomic
  gzip_file_atomic-content n src dst c dir r h t = go (find (is_named src) dir) h
    where
      go :
          (found : Option DirEntry)
          → content_of found ≡ some c
          → content n (gzip_found gzip luck found dst dir).1 ≡ (
              if (gzip_found gzip luck found dst dir).0 && same n dst
              then some (gzip c)
              else content n dir)
      go none e = cc
      go (some e) k = elim (Bool-cases (luck.opens && luck.stats && luck.creates)) [
        | inl up ↦
            let same_content : e.content ≡ c = ground arith in
            rw (up, ← same_content) (finished n dst e.content dir r t)
        | inr down ↦ rw down refl
      ]

  left_over-content :
      (n dst : Text) (dir : List DirEntry) (left : Option Text)
      → content (vacuum_of dst) dir ≡ none
      → (if same n (vacuum_of dst)
          then none
          else content n (left_over gzip luck left (vacuum_of dst) dir))
        ≡ content n dir
  left_over-content n dst dir none v = absorb n (vacuum_of dst) dir v
  left_over-content n dst dir (some c) v =
      rw (content-write n (vacuum_of dst) c dir) (ground (arith, absorb n (vacuum_of dst) dir v))

  tmp_apart : (dst : Text) → same (tmp_of dst) (vacuum_of dst) ≡ false
  tmp_apart dst =
      apart (tmp_of dst) (tmp_of dst) (vacuum_of dst)
        (λ e.
          omega (arith, length-append dst (codes ".tmp"), length-append dst (codes ".vacuumtmp")))
        (same_refl (tmp_of dst))

  vacuum_apart : (n dst : Text) → same n (vacuum_of dst) ≡ true → same n dst ≡ false
  vacuum_apart n dst =
      apart n (vacuum_of dst) dst (λ e. omega (arith, length-append dst (codes ".vacuumtmp")))

  vacuumed-content :
      (n dst : Text) (dir : List DirEntry) (snapshot : Option Text)
      → luck.removes (tmp_of dst) ≡ true
      → content (tmp_of dst) dir ≡ none
      → content (vacuum_of dst) dir ≡ none
      → (if same n (vacuum_of dst) then none else content n (vacuumed gzip luck snapshot dst dir).1)
        ≡ (if (vacuumed gzip luck snapshot dst dir).0 && same n dst
            then compressed_snapshot snapshot
            else content n dir)
  vacuumed-content n dst dir none r t v = left_over-content n dst dir luck.leftover v
  vacuumed-content n dst dir (some c) r t v =
      let copy = write_file (vacuum_of dst) c dir in
      let here : content (vacuum_of dst) copy ≡ some c =
        rw (content-write (vacuum_of dst) (vacuum_of dst) c dir, same_refl (vacuum_of dst)) refl in
      let free : content (tmp_of dst) copy ≡ none =
        rw (content-write (tmp_of dst) (vacuum_of dst) c dir, tmp_apart dst) t in
      rw
        (
          gzip_file_atomic-content n (vacuum_of dst) dst c copy r here free,
          content-write n (vacuum_of dst) c dir,
        )
        (ground (arith, vacuum_apart n dst, absorb n (vacuum_of dst) dir v))

  -- os.Remove works on the two temporary names, and neither is there before. Then, wherever the
  -- backup fails, every file of the directory reads as before; and after one that succeeds the new
  -- backup is the whole snapshot, compressed, and every other file reads as before.
  pub backup_is_atomic :
      (n dst : Text) (dir : List DirEntry)
      → luck.removes (tmp_of dst) ≡ true
      → luck.removes (vacuum_of dst) ≡ true
      → content (tmp_of dst) dir ≡ none
      → content (vacuum_of dst) dir ≡ none
      → let (done, dir') = backup_sqlite gzip luck dst dir in
        content n dir'
        ≡ (if done && same n dst then compressed_snapshot luck.snapshot else content n dir)
  unfolding backup_sqlite
  backup_is_atomic n dst dir r r' t v = go luck.opens_db
    where
      go :
          (up : Bool)
          → content n (cleaned_up gzip luck up (vacuumed gzip luck luck.snapshot dst dir) dst dir).1
            ≡ (if (cleaned_up gzip luck up (vacuumed gzip luck luck.snapshot dst dir) dst dir).0
                  && same n dst
                then compressed_snapshot luck.snapshot
                else content n dir)
      go true =
          rw (r', content-remove n (vacuum_of dst) (vacuumed gzip luck luck.snapshot dst dir).1)
            (vacuumed-content n dst dir luck.snapshot r t v)
      go false = refl
