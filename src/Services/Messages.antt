-- ===== src/Services/Messages.antt =====
-- The texts of the errors of internal/services and internal/builds, in which the handlers of
-- internal/api look for words.
use agentic_paasd.Prelude.{Bool, List, ◌++◌, Text, codes, contains, any}
use agentic_paasd.Runtime.{Error}

-- `detail` is the whole text of an error that wraps one from outside, or that quotes a value which
-- the model does not keep.
unfoldable pub message : (Error → Text) → Error → Text
message detail Error.tenant_unknown = codes "tenant not found"
message detail Error.service_not_found = codes "service not found"
message detail Error.image_required = codes "image is required"
message detail Error.image_too_long = codes "image reference too long"
message detail Error.custom_registry =
    codes "custom registries not allowed; use Docker Hub images only"
message detail Error.invalid_image = codes "invalid image format"
message detail Error.port_range = codes "port must be between 1 and 65535"
message detail Error.circuit_is_open =
    codes "circuit breaker is open: service has crashed too many times; use POST /reset to clear"
message detail Error.no_container = codes "service has no container"
message detail (Error.stop_error m) = codes "stop container: " ++ m
message detail (Error.start_error m) = codes "start container: " ++ m
message detail Error.env_not_found = codes "env var not found"
message detail (Error.disk_error m) = codes "disk check: " ++ m
message detail Error.url_required = codes "source_url is required for git builds"
message detail Error.url_too_long = codes "source_url too long (max 2048)"
message detail Error.url_not_https = codes "only HTTPS git URLs are allowed"
message detail Error.url_credentials = codes "credentials in URL are not allowed"
message detail Error.url_no_host = codes "empty hostname in URL"
message detail Error.ref_too_long = codes "source_ref too long (max 256)"
message detail Error.ref_invalid = codes "source_ref contains invalid characters"
message detail Error.build_not_found = codes "build not found"
message detail Error.builds_full = codes "build queue full; try again later"
message detail e = detail e

-- strings.Contains(msg, …) || …
unfoldable pub says : List Text → Text → Bool
says words m = any (contains m) words
