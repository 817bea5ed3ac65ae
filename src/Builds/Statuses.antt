-- ===== src/Builds/Statuses.antt =====
-- The statuses of internal/api/builds.go.
use agentic_paasd.Prelude.{
  ◌≡◌, refl, ◌≤◌, true, false, Option, none, [], Text, codes, contains, has_prefix, find, same,
  is_empty, length, ltb, arith,
}
use agentic_paasd.Runtime.{Error, err}
use agentic_paasd.Server.Replies.{Body, sent, status_of, with_manager}
use agentic_paasd.Services.Messages.{message, says}
use agentic_paasd.Services.Handlers.{status_for}
use agentic_paasd.Builds.Validate.{ParsedUrl, validate_git_url}
use agentic_paasd.Builds.Site.{Site, owns_build}
use agentic_paasd.Builds.Control.{
  StartBuildRequest, Fate, check_request, place_build, start_build, get_build, get_build_logs,
  may_cancel,
}
use agentic_paasd.Builds.Handlers.{
  CancelFate, handle_build_create, handle_build_get, handle_build_logs, handle_build_cancel,
}

missing_build :
    (tenant id : Text) (s : Site)
    → find (owns_build tenant id) s.builds ≡ none
    → get_build true tenant id s ≡ err Error.build_not_found
unfolding get_build
missing_build tenant id s foreign = ground arith

missing_logs :
    (tenant id : Text) (s : Site)
    → find (owns_build tenant id) s.builds ≡ none
    → get_build_logs true tenant id s ≡ err Error.build_not_found
unfolding get_build_logs
missing_logs tenant id s foreign = ground (arith, missing_build tenant id s)

-- To a tenant that has no build of that identifier, Get, Logs and Cancel answer 404 where the query
-- succeeds, whoever else has one, and change nothing; but Logs with follow answers 200, with
-- nothing behind it.
pub foreign_build_is_missing :
    (detail : Error → Text) (fate : CancelFate) (tenant id : Text) (s : Site)
    → fate.query_up ≡ true
    → find (owns_build tenant id) s.builds ≡ none
    → (status_of (handle_build_get detail true true tenant id s).0 ≡ 404)
      × (status_of (handle_build_logs detail true true false tenant id s).0 ≡ 404)
      × (status_of (handle_build_cancel detail true fate tenant id s).0 ≡ 404)
      × ((handle_build_cancel detail true fate tenant id s).1 ≡ s)
      × ((handle_build_logs detail true true true tenant id s).0 ≡ sent 200 [])
unfolding handle_build_get handle_build_logs handle_build_cancel with_manager may_cancel status_for
    message says contains has_prefix
foreign_build_is_missing detail fate tenant id s up foreign =
    rw (up, missing_build tenant id s foreign, missing_logs tenant id s foreign)
      (refl, refl, refl, refl, refl)

-- A request for a build whose URL is not HTTPS is refused before anything is written, but with
-- 500: its message, "only HTTPS git URLs are allowed", holds none of the words that make a 400.
pub plain_url_is_server_error :
    (detail : Error → Text) (parse : Text → Option ParsedUrl) (fate : Fate) (tenant service : Text)
    (req : StartBuildRequest) (s : Site)
    → fate.disk ≡ none
    → same req.source_type (codes "git") ≡ true
    → is_empty req.source_url ≡ false
    → length req.source_url ≤ 2048
    → has_prefix req.source_url (codes "https://") ≡ false
    → let (r, s') =
        handle_build_create detail true parse fate tenant service (Body.decoded req) s in
      (status_of r ≡ 500) × (s' ≡ s)
unfolding handle_build_create with_manager start_build place_build check_request validate_git_url
    status_for message says contains
plain_url_is_server_error detail parse fate tenant service req s disk git full short plain =
    let fits : ltb 2048 (length req.source_url) ≡ false = ground arith in
    rw (disk, git, full, fits, plain) (refl, refl)
