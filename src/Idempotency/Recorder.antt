-- ===== src/Idempotency/Recorder.antt =====
-- The recorder keeps a response whole or not at all, and knows its status.
use agentic_paasd.Prelude.{
  ℕ, ◌+◌, ◌≤◌, ◌<◌, ◌≡◌, refl, sym, subst, ap, true, false, List, [], ◌∷◌, ◌++◌, Text, length,
  length-append, append_assoc, append_nil, ◌⊎◌, leb, arith, if_both, Bool-cases, inl, inr,
}
use agentic_paasd.Idempotency.{
  Call, ResponseRecorder, new_recorder, rec_call, rec_calls, rec_write_header, rec_write, buffer,
  final_status, max_idempotency_body_len,
}

-- The bytes that the calls write.
abbrev pub content : List Call → Text
content [] = []
content (Call.write_header code ∷ cs) = content cs
content (Call.write b ∷ cs) = b ++ content cs

-- The status that net/http gives the calls.
abbrev pub status_of : List Call → ℕ
status_of [] = 200
status_of (Call.write_header code ∷ cs) = code
status_of (Call.write b ∷ cs) = 200

-- The buffer holds `p`, or `p` is too long and the buffer is given up.
abbrev Holds : Text → ResponseRecorder → Type 0
Holds p rr =
    ((length p ≤ max_idempotency_body_len) × (rr.body ≡ p) × (rr.overflow ≡ false))
    ⊎ ((max_idempotency_body_len < length p) × (rr.body ≡ []) × (rr.overflow ≡ true))

Holds-buffer : (p b : Text) (rr : ResponseRecorder) → Holds p rr → Holds (p ++ b) (buffer b rr)
Holds-buffer p b rr (inr (l, e, o)) = rw o (inr (omega (arith, l, length-append p b), e, refl))
Holds-buffer p b rr (inl (l, e, o)) =
    elim (Bool-cases (leb (length rr.body + length b) max_idempotency_body_len)) [
      | inl q ↦
          rw (o, q) (inl (ground (arith, length-append p b, ap length e), ap (λ x. x ++ b) e, refl))
      | inr q ↦ rw (o, q) (inr (ground (arith, length-append p b, ap length e), refl, refl))
    ]

Holds-header :
    (p : Text) (code : ℕ) (rr : ResponseRecorder) → Holds p rr → Holds p (rec_write_header code rr)
Holds-header p code rr h = elim (Bool-cases rr.wrote_header) [ inl e ↦ rw e h | inr e ↦ rw e h ]

Holds-calls :
    (p : Text) (cs : List Call) (rr : ResponseRecorder)
    → Holds p rr
    → Holds (p ++ content cs) (rec_calls cs rr)
unfolding rec_calls rec_call
Holds-calls p [] rr h = subst (λ x. Holds x rr) (sym (append_nil p)) h
Holds-calls p (Call.write_header code ∷ cs) rr h = Holds-calls p cs _ (Holds-header p code rr h)
Holds-calls p (Call.write b ∷ cs) rr h =
    subst (λ x. Holds x (rec_calls cs (rec_call (Call.write b) rr))) (append_assoc p b (content cs))
      (Holds-calls (p ++ b) cs _ (Holds-buffer p b _ (Holds-header p 200 rr h)))

-- A header has been written, with this status.
abbrev Settled : ℕ → ResponseRecorder → Type 0
Settled code rr = (rr.wrote_header ≡ true) × (rr.status_code ≡ code)

Settled-header :
    (c code : ℕ) (rr : ResponseRecorder) → Settled c rr → Settled c (rec_write_header code rr)
Settled-header c code rr (w, s) = rw w (refl, s)

Settled-buffer : (c : ℕ) (b : Text) (rr : ResponseRecorder) → Settled c rr → Settled c (buffer b rr)
Settled-buffer c b rr h =
    if_both (Settled c) rr.overflow h
      (if_both (Settled c) (leb (length rr.body + length b) max_idempotency_body_len) h h)

-- Once a header is written the status stays.
Settled-calls :
    (c : ℕ) (cs : List Call) (rr : ResponseRecorder) → Settled c rr → Settled c (rec_calls cs rr)
unfolding rec_calls rec_call
Settled-calls c [] rr h = h
Settled-calls c (Call.write_header code ∷ cs) rr h =
    Settled-calls c cs _ (Settled-header c code rr h)
Settled-calls c (Call.write b ∷ cs) rr h =
    Settled-calls c cs _ (Settled-buffer c b (rec_write_header 200 rr) (Settled-header c 200 rr h))

final_of_Settled : (c : ℕ) (rr : ResponseRecorder) → Settled c rr → final_status rr ≡ c
final_of_Settled c rr (w, s) = rw w s

final_status-calls : (cs : List Call) → final_status (rec_calls cs new_recorder) ≡ status_of cs
unfolding rec_calls rec_call
final_status-calls [] = refl
final_status-calls (Call.write_header code ∷ cs) =
    let rr = rec_write_header code new_recorder in
    final_of_Settled code (rec_calls cs rr) (Settled-calls code cs rr (refl, refl))
final_status-calls (Call.write b ∷ cs) =
    let rr = rec_write b new_recorder in
    final_of_Settled 200 (rec_calls cs rr) (
      Settled-calls 200 cs rr
        (Settled-buffer 200 b (rec_write_header 200 new_recorder) (refl, refl)))

-- The status that the recorder reports for a handler is the one that net/http gives it, and its
-- buffer holds exactly what the handler wrote where that is at most 8 KB; of a longer response
-- it keeps nothing, and says so.
pub recorder_keeps_all_or_nothing :
    (calls : List Call)
    → (final_status (rec_calls calls new_recorder) ≡ status_of calls)
      × (((length (content calls) ≤ max_idempotency_body_len)
            × ((rec_calls calls new_recorder).body ≡ content calls)
            × ((rec_calls calls new_recorder).overflow ≡ false))
          ⊎ ((max_idempotency_body_len < length (content calls))
              × ((rec_calls calls new_recorder).body ≡ [])
              × ((rec_calls calls new_recorder).overflow ≡ true)))
recorder_keeps_all_or_nothing calls =
    (final_status-calls calls, Holds-calls [] calls new_recorder (inl (omega arith, refl, refl)))
