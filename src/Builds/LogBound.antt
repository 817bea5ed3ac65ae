-- ===== src/Builds/LogBound.antt =====
-- The log of a build stays within its limit.
use agentic_paasd.Prelude.{
  ℕ, suc, ◌+◌, ◌≤◌, ◌≡◌, refl, sym, ap, subst, Bool, true, false, ◌++◌, Option, none, some, List,
  [], ◌∷◌, All, Text, arith, inl, inr, Bool-cases, find, find_sound, update, drop_all, length,
  length-append, same, same_sound, same_meet, ltb, if_both, if◌then◌else◌,
}
use agentic_paasd.Store.{Build}
use agentic_paasd.Builds.Lifecycle.{changed, find-changed}
use agentic_paasd.Builds.Site.{
  Site, max_log_size, has_build_id, update_builds, add_line, without, size_of, log_size, append_log,
  end_run,
}

abbrev pub log_length : Option Build → ℕ
log_length none = 0
log_length (some b) = length b.log

-- The bytes in the log of the build with that identifier.
abbrev pub bytes_of : Text → Site → ℕ
bytes_of id s = log_length (find (has_build_id id) s.builds)

-- What happens to the logs: a line of a build is appended, with the outcome of its statement, or a
-- build's goroutine ends and the recorded size of its log is deleted.
pub data LogEvent : Type 0 where
  appended : Bool → Text → Text → LogEvent
  ended : Text → LogEvent

abbrev pub log_event : LogEvent → Site → Site
log_event (appended up id line) s = append_log up id line s
log_event (ended id) s = end_run id s

unfoldable pub log_events : List LogEvent → Site → Site
log_events [] s = s
log_events (e ∷ events) s = log_events events (log_event e s)

abbrev pub is_end_of : Text → LogEvent → Bool
is_end_of id (appended up i line) = false
is_end_of id (ended i) = same i id

find-without_other :
    (i id : Text) (m : List (Text × ℕ))
    → same i id ≡ false
    → find (λ (e : Text × ℕ). same e.0 id) (without i m) ≡ find (λ (e : Text × ℕ). same e.0 id) m
unfolding find drop_all
find-without_other i id [] h = refl
find-without_other i id (e ∷ m) h =
    ground (arith, same_meet e.0 i id, same_meet e.0 id i, find-without_other i id m h)

line_added :
    (line : Text) (b : Build) → length (add_line line b).log ≡ length b.log + suc (length line)
line_added line b =
    omega (arith, length-append b.log (line ++ 10 ∷ []), length-append line (10 ∷ []))

-- What a line may add to the log of the build `id`.
abbrev added : Text → Text → Text → ℕ
added i id line = if same i id then suc (length line) else 0

bytes-update :
    (i id line : Text) (rows : List Build)
    → log_length (find (has_build_id id) (update (has_build_id i) (add_line line) rows))
      ≤ log_length (find (has_build_id id) rows) + added i id line
bytes-update i id line rows =
    subst (λ o. log_length o ≤ log_length (find (has_build_id id) rows) + added i id line)
      (sym (find-changed id (has_build_id i) (add_line line) rows (λ b. refl)))
      (at_row (find (has_build_id id) rows) refl)
  where
    at_row :
        (o : Option Build)
        → find (has_build_id id) rows ≡ o
        → log_length (changed (has_build_id i) (add_line line) o) ≤ log_length o + added i id line
    at_row none e = omega arith
    at_row (some b) e = elim (Bool-cases (same b.id i)) [
      | inl f ↦
          let here : same i id ≡ true =
            same_meet b.id id i (find_sound (has_build_id id) rows e) f in
          rw (f, here) (omega (arith, line_added line b))
      | inr f ↦ rw f (omega arith)
    ]

-- The log is no longer than what is recorded of it, and that is within the limit.
abbrev WithinLimit : Text → Site → Type 0
WithinLimit id s = (bytes_of id s ≤ log_size id s) × (log_size id s ≤ max_log_size)

-- The size that appendLog records, where there is room.
new_size : Text → Text → Site → ℕ
new_size i line s = log_size i s + suc (length line)

recorded :
    (i id line : Text) (s : Site)
    → log_size id (record s { log_sizes = (i, new_size i line s) ∷ without i s.log_sizes })
      ≡ (if same i id then new_size i line s else log_size id s)
unfolding log_size find
recorded i id line s = elim (Bool-cases (same i id)) [
  | inl e ↦ rw e refl
  | inr e ↦ rw e (ap size_of (find-without_other i id s.log_sizes e))
]

bounded :
    (i id line : Text) (s t : Site)
    → bytes_of id t ≤ bytes_of id s + added i id line
    → log_size id t ≡ (if same i id then new_size i line s else log_size id s)
    → new_size i line s ≤ max_log_size
    → WithinLimit id s
    → WithinLimit id t
unfolding new_size
bounded i id line s t grown e room (h, k) = elim (Bool-cases (same i id)) [
  | inl f ↦
      let here : log_size i s ≡ log_size id s = ap (λ x. log_size x s) (same_sound i id f) in
      ground arith
  | inr f ↦ ground arith
]

append_log-Bound :
    (up : Bool) (i id line : Text) (s : Site)
    → WithinLimit id s
    → WithinLimit id (append_log up i line s)
unfolding append_log update_builds new_size update log_size
append_log-Bound up i id line s h =
    elim (Bool-cases (ltb max_log_size (log_size i s + suc (length line)))) [
      | inl e ↦ rw e h
      | inr e ↦
          let sized = record s { log_sizes = (i, new_size i line s) ∷ without i s.log_sizes } in
          let room : new_size i line s ≤ max_log_size = ground arith in
          let size = recorded i id line s in
          rw e (
            if_both (λ (t : Site). WithinLimit id t) up
              (bounded i id line s (record sized { builds = _ }) (bytes-update i id line s.builds)
                size room h)
              (bounded i id line s sized (omega arith) size room h))
    ]

end_run-Bound :
    (i id : Text) (s : Site) → same i id ≡ false → WithinLimit id s → WithinLimit id (end_run i s)
unfolding end_run log_size
end_run-Bound i id s other (h, k) =
    let size = ap size_of (find-without_other i id s.log_sizes other) in (rw size h, rw size k)

log_event-Bound :
    (id : Text) (e : LogEvent) (s : Site)
    → is_end_of id e ≡ false
    → WithinLimit id s
    → WithinLimit id (log_event e s)
log_event-Bound id (LogEvent.appended up i line) s other h = append_log-Bound up i id line s h
log_event-Bound id (LogEvent.ended i) s other h = end_run-Bound i id s other h

log_events-Bound :
    (id : Text) (events : List LogEvent) (s : Site)
    → All (λ e. is_end_of id e ≡ false) events
    → WithinLimit id s
    → WithinLimit id (log_events events s)
unfolding log_events
log_events-Bound id [] s others h = h
log_events-Bound id (e ∷ events) s others h =
    log_events-Bound id events (log_event e s) others.1 (log_event-Bound id e s others.0 h)

-- Up to the end of its goroutine the log of a build that starts empty, with no size recorded, does
-- not pass 5 MiB, however many lines are appended to the logs of whatever builds and whichever
-- other builds end meanwhile. Behind its own end the recorded size is gone, and this says nothing.
pub log_stays_within_limit :
    (id : Text) (events : List LogEvent) (s : Site)
    → All (λ e. is_end_of id e ≡ false) events
    → bytes_of id s ≡ 0
    → log_size id s ≡ 0
    → bytes_of id (log_events events s) ≤ max_log_size
log_stays_within_limit id events s others e f =
    let (h, k) = log_events-Bound id events s others (omega (arith, e), omega (arith, f)) in
    omega (arith, h, k)
