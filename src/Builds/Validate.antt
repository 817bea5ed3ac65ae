-- ===== src/Builds/Validate.antt =====
-- validateGitURL and validateSourceRef of internal/builds/builds.go, sanitizeLogLine of
-- internal/builder/builder.go.
use agentic_paasd.Prelude.{
  ℕ, ◌+◌, Bool, not, ◌||◌, Option, none, some, Text, codes, is_empty, same, has_prefix, any, keep,
  map, length, ltb, ◌==◌, if◌then◌else◌,
}
use agentic_paasd.Runtime.{Error, Result, ok, err}
use agentic_paasd.Services.Validate.{is_lower, is_upper, is_digit}

-- What url.Parse says of a text: the user information, and the host without its port.
pub record ParsedUrl : Type 0 where
  pub has_user : Bool
  pub hostname : Text

-- strings.ToLower on a host name, whose letters are ASCII.
abbrev pub lower : ℕ → ℕ
lower c = if is_upper c then c + 32 else c

-- allowedGitHosts[host]
unfoldable pub is_allowed_host : Text → Bool
is_allowed_host host =
    same host (codes "github.com")
    || same host (codes "gitlab.com")
    || same host (codes "bitbucket.org")
    || same host (codes "sr.ht")
    || same host (codes "codeberg.org")

-- The tests on a URL that url.Parse accepts.
unfoldable pub check_parsed : Option ParsedUrl → Result (Unit {0})
check_parsed none = err Error.url_invalid
check_parsed (some u) =
    if u.has_user
    then err Error.url_credentials
    else if is_empty u.hostname
    then err Error.url_no_host
    else if is_allowed_host (map lower u.hostname)
    then ok tt
    else err (Error.host_not_allowed u.hostname)

unfoldable pub validate_git_url : (Text → Option ParsedUrl) → Text → Result (Unit {0})
validate_git_url parse url =
    if ltb 2048 (length url)
    then err Error.url_too_long
    else if has_prefix url (codes "https://")
    then check_parsed (parse url)
    else err Error.url_not_https

-- [A-Za-z0-9._/\-]
unfoldable pub is_ref_char : ℕ → Bool
is_ref_char c =
    is_lower c
    || is_upper c
    || is_digit c
    || (c == b'.')
    || (c == b'_')
    || (c == b'/')
    || (c == b'-')

unfoldable pub validate_source_ref : Text → Result (Unit {0})
validate_source_ref ref =
    if ltb 256 (length ref)
    then err Error.ref_too_long
    else if is_empty ref || any (λ c. not (is_ref_char c)) ref
    then err Error.ref_invalid
    else ok tt

-- unicode.IsControl on ASCII; the control characters above it are two bytes and are not modelled.
abbrev is_control : ℕ → Bool
is_control c = ltb c 32 || c == 127

-- Tabs stay, other control characters go.
unfoldable pub sanitize_log_line : Text → Text
sanitize_log_line line = keep (λ c. c == 9 || not (is_control c)) line
