-- ===== src/Builds/Vetted.antt =====
-- What StartBuild has made sure of before a build is queued.
use agentic_paasd.Prelude.{
  ◌≤◌, ◌≡◌, ◌&&◌, ◌∷◌, ◌++◌, List, [], ap, sym, subst, Bool-cases, inl, inr, ltb, refl, &&-eq-true,
  Bool, true, false, not, Option, none, some, Text, codes, arith, any, has_prefix, is_empty, length,
  map, same,
}
use agentic_paasd.Runtime.{Error, Result, ok, err, is_ok}
use agentic_paasd.Services.Rows.{owns}
use agentic_paasd.Builds.Validate.{
  ParsedUrl, lower, is_allowed_host, check_parsed, validate_git_url, is_ref_char,
  validate_source_ref,
}
use agentic_paasd.Store.{Build}
use agentic_paasd.Builds.Job.{Job, as_builder, clone_command}
use agentic_paasd.Builds.Site.{Site, max_queued, has_build_id}
use agentic_paasd.Builds.Control.{
  StartBuildRequest, Fate, ref_of, then_ok, disk_ok, require, has_service, check_request,
  place_build, start_build, enqueue, insert_build, new_job, new_build,
}

-- A source that may be cloned: by HTTPS, from a known host, without credentials.
abbrev pub IsTrusted : (Text → Option ParsedUrl) → Text → Type 0
IsTrusted parse url =
    (has_prefix url (codes "https://") ≡ true)
    × (length url ≤ 2048)
    × (u : ParsedUrl) × (parse url ≡ some u)
    × (u.has_user ≡ false)
    × (is_allowed_host (map lower u.hostname) ≡ true)

abbrev pub IsSafeRef : Text → Type 0
IsSafeRef ref =
    (is_empty ref ≡ false) × (length ref ≤ 256) × (any (λ c. not (is_ref_char c)) ref ≡ false)

both_ok :
    (r q : Result (Unit {0})) → is_ok (then_ok r q) ≡ true → (is_ok r ≡ true) × (is_ok q ≡ true)
both_ok (ok u) q h = (refl, h)
both_ok (err e) q h = absurd cc

required : (b : Bool) (e : Error) → is_ok (require b e) ≡ true → b ≡ true
required true e h = refl
required false e h = absurd cc

check_parsed-ok :
    (o : Option ParsedUrl)
    → is_ok (check_parsed o) ≡ true
    → (u : ParsedUrl) × (o ≡ some u)
      × (u.has_user ≡ false)
      × (is_allowed_host (map lower u.hostname) ≡ true)
unfolding check_parsed
check_parsed-ok none h = absurd cc
check_parsed-ok (some u) h = (u, refl, ground arith, ground arith)

validate_git_url-IsTrusted :
    (parse : Text → Option ParsedUrl) (url : Text)
    → is_ok (validate_git_url parse url) ≡ true
    → IsTrusted parse url
unfolding validate_git_url
validate_git_url-IsTrusted parse url h =
    let (u, e, c, a) = check_parsed-ok (parse url) (ground arith) in
    (ground arith, ground arith, u, e, c, a)

validate_source_ref-IsSafe : (ref : Text) → is_ok (validate_source_ref ref) ≡ true → IsSafeRef ref
unfolding validate_source_ref
validate_source_ref-IsSafe ref h = (ground arith, ground arith, ground arith)

place_build-ok :
    (r : Result (Unit {0})) (fate : Fate) (tenant service : Text) (req : StartBuildRequest)
    (s : Site)
    → is_ok (place_build r fate tenant service req s).0 ≡ true
    → is_ok r ≡ true
unfolding place_build
place_build-ok (ok u) fate tenant service req s h = refl
place_build-ok (err e) fate tenant service req s h = h

-- The part of the checks behind the type of the source.
check_request-parts :
    (parse : Text → Option ParsedUrl) (fate : Fate) (tenant service : Text)
    (req : StartBuildRequest)
    → is_ok (check_request parse fate tenant service req) ≡ true
    → (same req.source_type (codes "git") ≡ true)
      × (is_ok (validate_git_url parse req.source_url) ≡ true)
      × (is_ok (validate_source_ref (ref_of req.source_ref)) ≡ true)
      × (any (owns tenant service) fate.services ≡ true)
unfolding check_request
check_request-parts parse fate tenant service req h =
    let (d, a) = both_ok (disk_ok fate.disk) _ h in
    let (git, b) =
      both_ok (require (same req.source_type (codes "git")) Error.unsupported_source) _ a in
    let (full, c) = both_ok (require (not (is_empty req.source_url)) Error.url_required) _ b in
    let (url, e) = both_ok (validate_git_url parse req.source_url) _ c in
    let (ref, found) = both_ok (validate_source_ref (ref_of req.source_ref)) _ e in
    (
      required (same req.source_type (codes "git")) Error.unsupported_source git,
      url,
      ref,
      (&&-eq-true fate.query_up (any (owns tenant service) fate.services)
          (required (has_service fate tenant service) Error.service_not_found found)).1,
    )

-- A clone of a trusted source at a safe ref, which follows no redirects.
abbrev pub ClonesSafely : (Text → Option ParsedUrl) → Text → List Text → Type 0
ClonesSafely parse build_dir command =
    (url : Text) × (ref : Text) × (runner : List Text) × (command
      ≡ runner
        ++ (codes "git"
            ∷ codes "clone"
            ∷ codes "--depth=1"
            ∷ codes "--branch"
            ∷ ref
            ∷ codes "--config"
            ∷ codes "http.followRedirects=false"
            ∷ url
            ∷ build_dir
            ∷ []))
    × IsTrusted parse url
    × IsSafeRef ref

clone_command-ClonesSafely :
    (parse : Text → Option ParsedUrl) (build_dir : Text) (j : Job)
    → IsTrusted parse j.source_url
    → IsSafeRef j.source_ref
    → ClonesSafely parse build_dir (clone_command build_dir j)
unfolding clone_command
clone_command-ClonesSafely parse build_dir j t r =
    (j.source_url, j.source_ref, as_builder j, rw r.0 refl, t, r)

-- The row that the insertion appends says what the goroutine is given.
abbrev pub Recorded : Job → List Build → List Build → Type 0
Recorded j before after =
    (b : Build) × (after ≡ before ++ b ∷ [])
    × (b.id ≡ j.build_id)
    × (b.source_url ≡ j.source_url)
    × (b.source_ref ≡ j.source_ref)

module _ (fate : Fate) (tenant service : Text) (req : StartBuildRequest) where
  -- What a queued goroutine was given, and the row beside it.
  Queued : List Build → Result Job × Site → Type 0
  Queued rows (ok j, s) =
      (j.source_url ≡ req.source_url)
      × (j.source_ref ≡ ref_of req.source_ref)
      × Recorded j rows s.builds
  Queued rows (err e, s) = Unit

  enqueue-Queued :
      (id : Text) (rows : List Build) (s : Site)
      → s.builds ≡ rows ++ new_build id tenant service req fate.now ∷ []
      → Queued rows (enqueue fate id tenant service req s)
  unfolding Queued enqueue new_job new_build
  enqueue-Queued id rows s h = elim (Bool-cases (ltb s.queue max_queued)) [
    | inl e ↦ rw e (refl, refl, (_, h, refl, refl, refl))
    | inr e ↦ rw e tt
  ]

  insert_build-Queued :
      (random : Option Text) (s : Site)
      → Queued s.builds (insert_build fate random tenant service req s)
  unfolding Queued insert_build
  insert_build-Queued none s = tt
  insert_build-Queued (some id) s =
      elim (Bool-cases (fate.insert_up && not (any (has_build_id id) s.builds))) [
        | inl e ↦ rw e (enqueue-Queued id s.builds _ refl)
        | inr e ↦ rw e tt
      ]

  place_build-Queued :
      (r : Result (Unit {0})) (s : Site) → Queued s.builds (place_build r fate tenant service req s)
  unfolding Queued place_build
  place_build-Queued (ok u) s = insert_build-Queued fate.random s
  place_build-Queued (err e) s = tt

  Queued-ok :
      (rows : List Build) (r : Result Job) (s : Site) (j : Job)
      → Queued rows (r, s)
      → r ≡ ok j
      → Queued rows (ok j, s)
  Queued-ok rows r s j q e = subst (λ x. Queued rows (x, s)) e q

-- The goroutine of a build that StartBuild has queued clones with Git, over HTTPS, from one of the
-- five known hosts, with no credentials in the URL and without following redirects, at a ref of
-- safe characters only. The row that is appended to the builds has the URL and the ref of that
-- clone, and the query found the service as the tenant's.
pub queued_build_is_vetted :
    (parse : Text → Option ParsedUrl) (fate : Fate) (tenant service : Text)
    (req : StartBuildRequest) (s : Site) (build_dir : Text) (j : Job)
    → (start_build parse fate tenant service req s).0 ≡ ok j
    → ClonesSafely parse build_dir (clone_command build_dir j)
      × Recorded j s.builds (start_build parse fate tenant service req s).1.builds
      × (any (owns tenant service) fate.services ≡ true)
unfolding start_build Queued
queued_build_is_vetted parse fate tenant service req s build_dir j h =
    let (g, u, r, f) =
      check_request-parts parse fate tenant service req
        (place_build-ok _ fate tenant service req s (ap is_ok h)) in
    let (url, ref, row) =
      Queued-ok fate tenant service req s.builds _ _ j
        (place_build-Queued fate tenant service req (check_request parse fate tenant service req) s)
        h in
    (
      clone_command-ClonesSafely parse build_dir j
          (subst (IsTrusted parse) (sym url) (validate_git_url-IsTrusted parse req.source_url u))
          (subst IsSafeRef (sym ref) (validate_source_ref-IsSafe (ref_of req.source_ref) r)),
      row,
      f,
    )
