-- ===== src/Server/Guarded.antt =====
-- Which handlers of internal/api/server.go a request can reach.
use agentic_paasd.Prelude.{
  ◌≡◌, refl, Bool, true, false, ◌&&◌, List, [], ◌∷◌, ◌++◌, All, All-imp, arith,
}
use agentic_paasd.Server.Routes.{
  Middleware, Endpoint, Route, outer, guarded, routes, goes_through, reaches,
}

-- What the handler of an endpoint relies on.
abbrev pub needs : (Middleware → Bool) → Endpoint → Bool
needs passes Endpoint.health = true
needs passes Endpoint.tenant_register = true
needs passes Endpoint.database_create = passes Middleware.auth
needs passes Endpoint.build_logs = passes Middleware.auth
needs passes _ =
    passes Middleware.auth
    && (passes Middleware.tenant_rate
        && (passes Middleware.global_rate && passes Middleware.idempotency))

goes_through-append :
    (passes : Middleware → Bool) (ms ns : List Middleware)
    → goes_through passes (ms ++ ns) ≡ (goes_through passes ms && goes_through passes ns)
unfolding goes_through
goes_through-append passes [] ns = refl
goes_through-append passes (m ∷ ms) ns = ground (arith, goes_through-append passes ms ns)

abbrev pub ReachedAs : Bool → (Middleware → Bool) → Route → Type 0
ReachedAs dev_mode passes r =
    reaches dev_mode passes r ≡ (goes_through passes (outer dev_mode) && needs passes r.endpoint)

reached :
    (dev_mode : Bool) (passes : Middleware → Bool) (r : Route)
    → goes_through passes r.chain ≡ needs passes r.endpoint
    → ReachedAs dev_mode passes r
unfolding reaches
reached dev_mode passes r h = rw (goes_through-append passes (outer dev_mode) r.chain, h) refl

and_true : (b : Bool) → (b && true) ≡ b
and_true true = refl
and_true false = refl

none_lem : (passes : Middleware → Bool) → goes_through passes [] ≡ true
unfolding goes_through
none_lem passes = refl

guarded_lem :
    (passes : Middleware → Bool)
    → goes_through passes guarded ≡ (
        passes Middleware.auth
        && (passes Middleware.tenant_rate
            && (passes Middleware.global_rate && passes Middleware.idempotency)))
unfolding goes_through
guarded_lem passes = rw (and_true (passes Middleware.idempotency)) refl

auth_lem :
    (passes : Middleware → Bool)
    → goes_through passes (Middleware.auth ∷ []) ≡ passes Middleware.auth
unfolding goes_through
auth_lem passes = and_true (passes Middleware.auth)

-- The table, against what each endpoint needs.
chains :
    (passes : Middleware → Bool)
    → All (λ (r : Route). goes_through passes r.chain ≡ needs passes r.endpoint) routes
unfolding routes
chains passes =
    let open_lem : goes_through passes [] ≡ true = none_lem passes in
    search (open_lem, guarded_lem passes, auth_lem passes, tt)

-- By the middlewares' verdicts on a request, a route's handler is reached exactly if the outer ones
-- let the request through and, for every handler but health and registration, so does the
-- authentication, and, but for the creation of a database and the logs of a build, so do both rate
-- limits and the idempotency store.
pub routes_are_guarded :
    (dev_mode : Bool) (passes : Middleware → Bool) → All (ReachedAs dev_mode passes) routes
routes_are_guarded dev_mode passes = All-imp routes (reached dev_mode passes) (chains passes)
