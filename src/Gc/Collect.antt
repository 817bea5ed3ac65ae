-- ===== src/Gc/Collect.antt =====
-- findOrphanedContainers, findOrphanedVolumes, cleanOldBuildDirs and collectOnce.
use agentic_paasd.Prelude.{
  ℕ, zero, ◌+◌, Bool, true, false, not, ◌&&◌, ◌||◌, ◌++◌, Option, none, some, List, [], ◌∷◌, Text,
  codes, same, has_prefix, count, ltb, if◌then◌else◌,
}
use agentic_paasd.Store.{Db, Service, Database}
use agentic_paasd.Runtime.{
  Env, Exec, Error, Call, Answer, got, failure, Result, ok, err, ContainerInfo, ◌>>=◌, ◌>>◌, pure,
  attempt, or_fail_with, skip, ignore, query, time_now, docker_, docker_info, docker_list, for_each,
}

-- minResourceAge, in seconds.
abbrev pub min_resource_age : ℕ
min_resource_age = 600

-- info.CreatedAt.After(cutoff)
abbrev pub too_new : ℕ → ContainerInfo → Bool
too_new now info = ltb now (info.created_at + min_resource_age)

-- SELECT COUNT(*) FROM services WHERE container_id = ?
unfoldable pub services_naming : Text → Db → ℕ
services_naming id db = count (λ (s : Service). same s.container_id id) db.services

abbrev pub holds_text : Option Text → Text → Bool
holds_text none t = false
holds_text (some c) t = same c t

-- SELECT COUNT(*) FROM databases WHERE container_id = ?
unfoldable pub databases_naming : Text → Db → ℕ
databases_naming id db = count (λ (d : Database). holds_text d.container_id id) db.databases

-- SELECT COUNT(*) FROM databases WHERE volume_name = ?
unfoldable pub databases_mounting : Text → Db → ℕ
databases_mounting name db = count (λ (d : Database). same d.volume_name name) db.databases

-- A count that fails is not one of no rows.
abbrev pub no_rows : Option ℕ → Bool
no_rows (some zero) = true
no_rows _ = false

-- The entries that the loop body appends.
unfoldable pub sift : (Text → Exec Bool) → List Text → Exec (List Text)
sift f [] = pure []
sift f (x ∷ xs) = do taken ← f x; rest ← sift f xs; pure (if taken then x ∷ rest else rest)

module _ (env : Env) where
  unfoldable pub counts_none : (Db → ℕ) → Exec Bool
  counts_none f = do n ← query env f; pure (no_rows n)

  -- Behind the look at a container: what cannot be looked at, or is too new, is kept.
  unfoldable pub judged : ℕ → (Db → ℕ) → Answer ContainerInfo → Exec Bool
  judged now f (failure m) = pure false
  judged now f (got info) = if too_new now info then pure false else counts_none f

  unfoldable pub is_orphan : ℕ → (Text → Db → ℕ) → Text → Exec Bool
  is_orphan now naming id = do
    info ← docker_info env (Call.inspect_container id)
    judged now (naming id) info

  unfoldable pub find_orphaned_containers : Exec (List Text)
  find_orphaned_containers = do
    listed ← docker_list env (Call.list_by_label (codes "ah.service") [])
    service_containers ← or_fail_with listed ignore (λ _. Error.list_failed)
    listed_2 ← docker_list env (Call.list_by_label (codes "ah.type") (codes "database"))
    db_containers ← or_fail_with listed_2 ignore (λ _. Error.list_failed)
    now ← time_now env
    of_services ← sift (is_orphan now services_naming) service_containers
    of_databases ← sift (is_orphan now databases_naming) db_containers
    pure (of_services ++ of_databases)

  -- strings.HasPrefix, as Docker's filter may match inside a name.
  unfoldable pub is_orphaned_volume : Text → Exec Bool
  is_orphaned_volume name =
      if has_prefix name (codes "ah-db-") then counts_none (databases_mounting name) else pure false

  unfoldable pub find_orphaned_volumes : Exec (List Text)
  find_orphaned_volumes = do
    listed ← docker_list env (Call.list_volumes (codes "ah-db-"))
    volumes ← or_fail_with listed ignore (λ _. Error.list_failed)
    sift is_orphaned_volume volumes

  unfoldable pub remove_orphan : Text → Exec (Unit {0})
  remove_orphan id = do docker_ env (Call.stop_container id); docker_ env (Call.remove_container id)

  -- An error is logged, and the pass goes on.
  unfoldable pub each_of : Result (List Text) → (Text → Exec (Unit {0})) → Exec (Unit {0})
  each_of (ok xs) f = for_each xs f
  each_of (err e) f = skip

  -- The parts of collectOnce that concern Docker; the build directories are below.
  unfoldable pub collect_once : Exec (Unit {0})
  collect_once = do
    containers ← attempt find_orphaned_containers
    each_of containers remove_orphan
    volumes ← attempt find_orphaned_volumes
    each_of volumes (λ name. docker_ env (Call.remove_volume_safe name))
    docker_ env Call.prune_images

-- An entry of the build directory, as the file system answers for it.
pub record DirEntry : Type 0 where
  pub name : Text
  pub is_dir : Bool
  pub has_info : Bool
  pub is_symlink : Bool
  pub mod_time : ℕ
  pub resolved : Option Text  -- filepath.EvalSymlinks
  pub removable : Bool  -- os.RemoveAll succeeds

-- HasPrefix(resolved, absBase + "/") || resolved == absBase
unfoldable pub is_under : Text → Text → Bool
is_under base path = has_prefix path (base ++ codes "/") || same path base

abbrev resolves_under : Text → Option Text → Bool
resolves_under base none = false
resolves_under base (some path) = is_under base path

-- What the loop of cleanOldBuildDirs hands to os.RemoveAll; the times are in seconds.
unfoldable pub to_remove : ℕ → ℕ → Text → DirEntry → Bool
to_remove now max_age base e =
    e.is_dir
    && not (has_prefix e.name (codes "."))
    && e.has_info
    && not e.is_symlink
    && ltb (e.mod_time + max_age) now
    && resolves_under base e.resolved

unfoldable pub clean_old_build_dirs : ℕ → ℕ → Text → List DirEntry → ℕ
clean_old_build_dirs now max_age base entries =
    count (λ e. to_remove now max_age base e && e.removable) entries
