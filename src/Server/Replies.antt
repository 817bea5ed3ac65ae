-- ===== src/Server/Replies.antt =====
-- What the handlers of internal/api share: writeError, writeJSON and writeDecodeError of
-- internal/api/server.go. Of an error's reply only the status is kept.
use agentic_paasd.Prelude.{ℕ, Bool, true, false}

-- What the decoder of the request's body makes of it.
pub data Body (A : Type 0) : Type 0 where
  too_large malformed : Body A
  decoded : A → Body A

-- The status, and the value that is written with it.
pub data Reply (A : Type 0) : Type 0 where
  sent : ℕ → A → Reply A
  refused : ℕ → Reply A

abbrev pub status_of : {A : Type 0} → Reply A → ℕ
status_of (sent n a) = n
status_of (refused n) = n

abbrev pub Handler : Type 0 → Type 0 → Type 0
Handler S A = S → Reply A × S

-- The guards that answer 503 where the server has no such manager.
unfoldable pub with_manager : {S A : Type 0} → Bool → Handler S A → Handler S A
with_manager true handler s = handler s
with_manager false handler s = (refused 503, s)

abbrev pub refuse : {S A : Type 0} → ℕ → Handler S A
refuse n s = (refused n, s)

abbrev pub with_body : {S A B : Type 0} → Body B → (B → Handler S A) → Handler S A
with_body too_large handler = refuse 413
with_body malformed handler = refuse 400
with_body (decoded b) handler = handler b
