-- ===== src/Auth.antt =====
-- internal/middleware/auth.go with the handlers of internal/api/auth.go and internal/api/tenants.go
-- that issue and take away keys: the token, the cache of validated keys, the request path, and
-- what a request that passes may be relied on for.
pub mod Token
pub mod Cache
pub mod Gate
pub mod Keys
pub mod Coherent
pub mod Access
pub mod Limit
pub mod Tests
pub mod Backing
