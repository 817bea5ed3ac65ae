-- ===== src/Idempotency/Tests.antt =====
-- Requests against an empty store.
use agentic_paasd.Prelude.{
  ℕ, suc, ◌≡◌, refl, List, [], ◌∷◌, Text, codes, count, arith, same, has_prefix,
}
use agentic_paasd.BoundedMap.{get}
use agentic_paasd.Idempotency.{
  Call, Store, Body, Request, Response, Reply, rec_call, rec_calls, hash_request_body, middleware,
}
use agentic_paasd.Idempotency.Replay.{repeated_request_is_replayed}
use agentic_paasd.Idempotency.Limits.{Within, serve_all, serve_all-Within}

abbrev sample_request : Text → Request
sample_request b = record {
  method = codes "POST";
  path = codes "/v1/services";
  request_uri = codes "/v1/services";
  idempotency_key = codes "k1";
  tenant = codes "t1";
  body = Body.bytes b;
}

abbrev answer : List Call
answer = Call.write_header 201 ∷ Call.write (codes "id") ∷ Call.write (codes "=7") ∷ []

-- A handler that counts how often it runs.
abbrev counting : Request → ℕ → Response × ℕ
counting r n = (record { calls = answer; content_type = codes "text/plain" }, suc n)

abbrev plain : Text → Text
plain s = s

abbrev first_store : Store
first_store = (middleware plain counting 10 20 (sample_request (codes "x")) [] 0).1

repeated_request_is_replayed_example :
    middleware plain counting 30 40
      (sample_request (codes "x"))
      first_store
      (middleware plain counting 10 20 (sample_request (codes "x")) [] 0).2
    ≡ (Reply.replayed 201 (codes "text/plain") (codes "id=7"), first_store, 1)
unfolding hash_request_body same has_prefix get rec_calls rec_call count
repeated_request_is_replayed_example =
    repeated_request_is_replayed plain counting (sample_request (codes "x"))
      (sample_request (codes "x")) (codes "x") (codes "x") [] 0 10 20 30 40 (refl, refl, refl, refl)
      (refl, refl, refl, refl) refl refl refl (omega arith) (omega arith)

abbrev two_requests : List ((ℕ × ℕ) × Request)
two_requests = ((10, 20), sample_request (codes "x")) ∷ ((30, 40), sample_request (codes "y")) ∷ []

serve_all-Within_example : Within (codes "t1") (serve_all plain counting two_requests [] 0).0
unfolding count
serve_all-Within_example =
    serve_all-Within plain counting (codes "t1") two_requests [] 0 (refl, (refl, tt))
      ((refl, (refl, tt)), ((refl, (refl, tt)), tt)) (tt, omega arith, omega arith)
