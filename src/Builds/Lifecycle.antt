-- ===== src/Builds/Lifecycle.antt =====
-- The life of one build, as the interleaved system shows it.
use agentic_paasd.Prelude.{
  ℕ, ◌≡◌, refl, sym, subst, Bool, true, false, ◌++◌, Option, none, some, List, [], ◌∷◌, Text, arith,
  inl, inr, Bool-cases, &&-eq-true, find, update, same, if_both, if◌then◌else◌,
}
use agentic_paasd.Store.{Build, BuildStatus}
use agentic_paasd.Builds.Site.{
  Site, is_pending, is_building, has_build_id, update_builds, set_running, set_finished, add_line,
  append_log,
}
use agentic_paasd.Builds.Job.{still_pending, still_running}

-- One step of a build's life, `none` before it is inserted. A build fails from any state: from
-- `succeeded` too, where a cancellation comes too late.
pub data Life : Option BuildStatus → Option BuildStatus → Type 0 where
  opens : Life none (some BuildStatus.pending)
  begins : Life (some BuildStatus.pending) (some BuildStatus.build_running)
  succeeds : Life (some BuildStatus.build_running) (some BuildStatus.succeeded)
  fails : {s : BuildStatus} → Life (some s) (some BuildStatus.build_failed)

pub data Lives : Option BuildStatus → Option BuildStatus → Type 0 where
  stays : {s : Option BuildStatus} → Lives s s
  goes : {a b c : Option BuildStatus} → Life a b → Lives b c → Lives a c

pub Lives-trans : (a b c : Option BuildStatus) → Lives a b → Lives b c → Lives a c
Lives-trans a b c stays k = k
Lives-trans a b c (goes l h) k = goes l (Lives-trans _ b c h k)

once : (a b : Option BuildStatus) → Life a b → Lives a b
once a b l = goes l stays

abbrev pub status_in : Option Build → Option BuildStatus
status_in none = none
status_in (some b) = some b.status

-- The status of the build with that identifier.
abbrev pub status_of : Text → List Build → Option BuildStatus
status_of id rows = status_in (find (has_build_id id) rows)

abbrev pub changed : (Build → Bool) → (Build → Build) → Option Build → Option Build
changed p f none = none
changed p f (some b) = some (if p b then f b else b)

pub find-changed :
    (id : Text) (p : Build → Bool) (f : Build → Build) (rows : List Build)
    → ((b : Build) → (f b).id ≡ b.id)
    → find (has_build_id id) (update p f rows) ≡ changed p f (find (has_build_id id) rows)
unfolding find update
find-changed id p f [] k = refl
find-changed id p f (b ∷ rows) k = ground (arith, k b, find-changed id p f rows k)

-- An update whose every change is a step of life, or none.
Lives-update :
    (id : Text) (p : Build → Bool) (f : Build → Build) (rows : List Build)
    → ((b : Build) → (f b).id ≡ b.id)
    → ((b : Build) → p b ≡ true → Lives (some b.status) (some (f b).status))
    → Lives (status_of id rows) (status_of id (update p f rows))
Lives-update id p f rows k h =
    subst (λ o. Lives (status_of id rows) (status_in o)) (sym (find-changed id p f rows k))
      (at_row (find (has_build_id id) rows))
  where
    at_row : (o : Option Build) → Lives (status_in o) (status_in (changed p f o))
    at_row none = stays
    at_row (some b) = elim (Bool-cases (p b)) [ inl e ↦ rw e (h b e) | inr e ↦ rw e stays ]

pub Lives-append :
    (id : Text) (b : Build) (rows : List Build)
    → b.status ≡ BuildStatus.pending
    → Lives (status_of id rows) (status_of id (rows ++ b ∷ []))
unfolding find
Lives-append id b [] e = elim (Bool-cases (same b.id id)) [
  | inl t ↦ rw (t, e) (once _ _ opens)
  | inr t ↦ rw t stays
]
Lives-append id b (c ∷ rows) e = elim (Bool-cases (same c.id id)) [
  | inl t ↦ rw t stays
  | inr t ↦ rw t (Lives-append id b rows e)
]

abbrev pub LivesOn : Text → Site → Site → Type 0
LivesOn id s s' = Lives (status_of id s.builds) (status_of id s'.builds)

-- The status updates of the source.
pub running-Lives :
    (id : Text) (up : Bool) (i : Text) (now : ℕ) (s : Site)
    → LivesOn id s (update_builds up (still_pending i) (set_running now) s)
unfolding update_builds
running-Lives id false i now s = stays
running-Lives id true i now s =
    Lives-update id (still_pending i) (set_running now) s.builds (λ b. refl)
      (λ b h. of_pending b.status (&&-eq-true (same b.id i) (is_pending b.status) h).1)
  where
    of_pending :
        (t : BuildStatus) → is_pending t ≡ true → Lives (some t) (some BuildStatus.build_running)
    of_pending BuildStatus.pending h = once _ _ begins
    of_pending BuildStatus.build_running h = absurd cc
    of_pending BuildStatus.succeeded h = absurd cc
    of_pending BuildStatus.build_failed h = absurd cc

pub succeeded-Lives :
    (id : Text) (up : Bool) (i : Text) (now : ℕ) (s : Site)
    → LivesOn id s (update_builds up (still_running i) (set_finished BuildStatus.succeeded now) s)
unfolding update_builds
succeeded-Lives id false i now s = stays
succeeded-Lives id true i now s =
    Lives-update id (still_running i) (set_finished BuildStatus.succeeded now) s.builds (λ b. refl)
      (λ b h. of_running b.status (&&-eq-true (same b.id i) (is_building b.status) h).1)
  where
    of_running :
        (t : BuildStatus) → is_building t ≡ true → Lives (some t) (some BuildStatus.succeeded)
    of_running BuildStatus.build_running h = once _ _ succeeds
    of_running BuildStatus.pending h = absurd cc
    of_running BuildStatus.succeeded h = absurd cc
    of_running BuildStatus.build_failed h = absurd cc

pub failed-Lives :
    (id : Text) (up : Bool) (p : Build → Bool) (now : ℕ) (s : Site)
    → LivesOn id s (update_builds up p (set_finished BuildStatus.build_failed now) s)
unfolding update_builds
failed-Lives id false p now s = stays
failed-Lives id true p now s =
    Lives-update id p (set_finished BuildStatus.build_failed now) s.builds (λ b. refl)
      (λ b h. once _ _ fails)

pub append_log-Lives :
    (id : Text) (up : Bool) (i line : Text) (s : Site) → LivesOn id s (append_log up i line s)
unfolding append_log update_builds
append_log-Lives id up i line s =
    if_both (λ v. LivesOn id s v) _ stays
      (if_both (λ v. LivesOn id s v) up
        (Lives-update id (has_build_id i) (add_line line) s.builds (λ b. refl) (λ b h. stays))
        stays)
