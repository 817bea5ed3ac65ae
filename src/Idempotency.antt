-- ===== src/Idempotency.antt =====
-- internal/middleware/idempotency.go: the recorder of responses, the store of replies and the
-- middleware around a handler. The handler is a parameter: what it writes, and how it changes a
-- state that the middleware does not look at.
pub mod Recorder
pub mod Replay
pub mod Limits
pub mod Tests
use agentic_paasd.Prelude.{
  ℕ, ◌+◌, ◌*◌, Bool, true, false, not, ◌&&◌, ◌||◌, Option, none, some, List, [], ◌∷◌, ◌++◌, Text,
  codes, same, is_empty, has_prefix, length, count, drop_all, ltb, leb, if◌then◌else◌,
}
use agentic_paasd.BoundedMap.{get, put, evict}

abbrev pub max_idempotency_entries : ℕ
max_idempotency_entries = 500

abbrev pub max_idempotency_per_tenant : ℕ
max_idempotency_per_tenant = 50

abbrev pub max_idempotency_key_len : ℕ
max_idempotency_key_len = 128

abbrev pub max_idempotency_body_len : ℕ
max_idempotency_body_len = 8 * 1024

-- Nanoseconds.
abbrev pub idempotency_ttl : ℕ
idempotency_ttl = 600 * 1000000000

abbrev pub max_hash_body_size : ℕ
max_hash_body_size = 1048576

-- idempotencyEntry
pub record Entry : Type 0 where
  pub status_code : ℕ
  pub content_type : Text
  pub body : Text
  pub body_hash : Text
  pub created_at : ℕ
  pub expires_at : ℕ

abbrev pub Store : Type 0
Store = List (Text × Entry)

-- What a handler does with its http.ResponseWriter.
pub data Call : Type 0 where
  write_header : ℕ → Call
  write : Text → Call

-- responseRecorder, with the calls that it has passed on to the writer below it, the last first.
pub record ResponseRecorder : Type 0 where
  pub status_code : ℕ
  pub wrote_header : Bool
  pub body : Text
  pub overflow : Bool
  pub passed_on : List Call

abbrev pub new_recorder : ResponseRecorder
new_recorder = record {
  status_code = 0;
  wrote_header = false;
  body = [];
  overflow = false;
  passed_on = [];
}

-- (*responseRecorder).WriteHeader
abbrev pub rec_write_header : ℕ → ResponseRecorder → ResponseRecorder
rec_write_header code rr = if rr.wrote_header then rr else record rr {
  status_code = code;
  wrote_header = true;
  passed_on = write_header code ∷ rr.passed_on;
}

-- The buffering of (*responseRecorder).Write.
abbrev pub buffer : Text → ResponseRecorder → ResponseRecorder
buffer b rr =
    if rr.overflow
    then rr
    else if leb (length rr.body + length b) max_idempotency_body_len
    then record rr { body = rr.body ++ b }
    else record rr { overflow = true; body = [] }

abbrev pub pass_on : Call → ResponseRecorder → ResponseRecorder
pass_on c rr = record rr { passed_on = c ∷ rr.passed_on }

-- (*responseRecorder).Write, with its implicit 200.
abbrev pub rec_write : Text → ResponseRecorder → ResponseRecorder
rec_write b rr = pass_on (write b) (buffer b (rec_write_header 200 rr))

unfoldable pub rec_call : Call → ResponseRecorder → ResponseRecorder
rec_call (write_header code) rr = rec_write_header code rr
rec_call (write b) rr = rec_write b rr

unfoldable pub rec_calls : List Call → ResponseRecorder → ResponseRecorder
rec_calls [] rr = rr
rec_calls (c ∷ cs) rr = rec_calls cs (rec_call c rr)

abbrev rev_onto : List Call → List Call → List Call
rev_onto [] acc = acc
rev_onto (c ∷ cs) acc = rev_onto cs (c ∷ acc)

-- What has reached the writer below, in order.
abbrev pub sent : ResponseRecorder → List Call
sent rr = rev_onto rr.passed_on []

pub data Body : Type 0 where
  no_body unreadable : Body
  bytes : Text → Body

pub record Request : Type 0 where
  pub method : Text
  pub path : Text
  pub request_uri : Text
  pub idempotency_key : Text
  -- GetTenantID of the context
  pub tenant : Text
  pub body : Body

pub data HashResult : Type 0 where
  hashed : Text → HashResult
  read_failed too_large : HashResult

-- hashRequestBody, with SHA-256 in hex as a parameter.
unfoldable pub hash_request_body : (Text → Text) → Body → HashResult
hash_request_body sha256 no_body = hashed (codes "empty")
hash_request_body sha256 unreadable = read_failed
hash_request_body sha256 (bytes b) =
    if ltb max_hash_body_size (length b) then too_large else hashed (sha256 b)

pub record Response : Type 0 where
  pub calls : List Call
  pub content_type : Text

-- What the client gets.
pub data Reply : Type 0 where
  failed : ℕ → Reply
  replayed : ℕ → Text → Text → Reply
  -- the calls that reach the writer, in order
  handled : List Call → Reply

abbrev pub is_covered : Request → Bool
is_covered r =
    (same r.method (codes "POST") || same r.method (codes "PUT"))
    && not (is_empty r.idempotency_key)
    && not (has_prefix r.path (codes "/v1/auth/keys") || has_prefix r.path (codes "/v1/databases"))

abbrev pub tenant_prefix : Text → Text
tenant_prefix tenant = tenant ++ 58 ∷ []

-- tenantID + ":" + r.Method + ":" + r.URL.RequestURI() + ":" + key
abbrev pub full_key : Request → Text
full_key r = r.tenant ++ 58 ∷ (r.method ++ 58 ∷ (r.request_uri ++ 58 ∷ r.idempotency_key))

abbrev pub is_success : ℕ → Bool
is_success code = leb 200 code && ltb code 300

abbrev pub final_status : ResponseRecorder → ℕ
final_status rr = if rr.wrote_header then rr.status_code else 200

abbrev pub is_cacheable : ResponseRecorder → Bool
is_cacheable rr =
    is_success (final_status rr) && not rr.overflow && leb (length rr.body) max_idempotency_body_len

abbrev pub is_of_tenant : Text → Text × Entry → Bool
is_of_tenant tenant e =
    ltb (length (tenant_prefix tenant)) (length e.0) && has_prefix e.0 (tenant_prefix tenant)

-- The locked section that stores a reply.
unfoldable pub store_reply : Text → Text → Entry → Store → Store
store_reply tenant key e m =
    if ltb (count (is_of_tenant tenant) m) max_idempotency_per_tenant
    then put key e (evict max_idempotency_entries (λ v. v.created_at) m)
    else m

abbrev pub entry_of : Text → ResponseRecorder → Text → ℕ → Entry
entry_of content_type rr body_hash now = record {
  status_code = final_status rr;
  content_type = content_type;
  body = rr.body;
  body_hash = body_hash;
  created_at = now;
  expires_at = now + idempotency_ttl;
}

-- The content type of a replay: a default where the first response had none.
abbrev pub replay_type : Entry → Text
replay_type e =
    if is_empty e.body
    then []
    else if is_empty e.content_type
    then codes "application/json"
    else e.content_type

-- The answer from the store.
abbrev pub replay : Text → Entry → Reply
replay body_hash e =
    if same e.body_hash body_hash then replayed e.status_code (replay_type e) e.body else failed 409

abbrev pub is_fresh : ℕ → Option Entry → Bool
is_fresh now none = false
is_fresh now (some e) = ltb now e.expires_at

module _ {W : Type 0} (sha256 : Text → Text) (next : Request → W → Response × W) where
  -- next.ServeHTTP(w, r), without the recorder.
  abbrev pub call_next : Request → Store → W → Reply × Store × W
  call_next r m w = let (resp, w') = next r w in (handled resp.calls, m, w')

  -- The handler under the recorder, and the write to the store at the time `now`.
  unfoldable pub run_next : ℕ → Text → Request → Store → W → Reply × Store × W
  run_next now body_hash r m w =
      let (resp, w') = next r w in
      let rr = rec_calls resp.calls new_recorder in
      (
        handled (sent rr),
        if is_cacheable rr
            then store_reply r.tenant (full_key r) (entry_of resp.content_type rr body_hash now) m
            else m,
        w',
      )

  abbrev pub serve_entry :
      (looked_up_at stored_at : ℕ) → Text → Request → Store → W → Option Entry → Reply × Store × W
  serve_entry looked_up_at stored_at h r m w none = run_next stored_at h r m w
  serve_entry looked_up_at stored_at h r m w (some e) =
      if ltb looked_up_at e.expires_at then (replay h e, m, w) else run_next stored_at h r m w

  abbrev pub serve_hashed :
      (looked_up_at stored_at : ℕ) → Request → Store → W → HashResult → Reply × Store × W
  serve_hashed looked_up_at stored_at r m w read_failed = (failed 400, m, w)
  serve_hashed looked_up_at stored_at r m w too_large = (failed 413, m, w)
  serve_hashed looked_up_at stored_at r m w (hashed h) =
      serve_entry looked_up_at stored_at h r m w (get (full_key r) m)

  -- (*IdempotencyStore).Middleware
  unfoldable pub middleware : (looked_up_at stored_at : ℕ) → Request → Store → W → Reply × Store × W
  middleware looked_up_at stored_at r m w =
      if not (is_covered r)
      then call_next r m w
      else if ltb max_idempotency_key_len (length r.idempotency_key)
      then (failed 400, m, w)
      else if is_empty r.tenant
      then (failed 500, m, w)
      else serve_hashed looked_up_at stored_at r m w (hash_request_body sha256 r.body)

-- One turn of (*IdempotencyStore).cleanup.
unfoldable pub cleanup : ℕ → Store → Store
cleanup now m = drop_all (λ e. ltb e.1.expires_at now) m
