-- ===== src/Builds/Sound.antt =====
-- The queue, the slots and the tenants' places over any run.
use agentic_paasd.Prelude.{
  ℕ, zero, suc, ◌+◌, ◌≤◌, ◌≡◌, refl, sym, ◌∙◌, subst, Bool, not, ◌&&◌, Option, none, some, List, [],
  ◌∷◌, Text, arith, inl, inr, Bool-cases, any, if_both, ltb, ltb→lt,
}
use agentic_paasd.Runtime.{Result, ok, err}
use agentic_paasd.Builds.Validate.{ParsedUrl}
use agentic_paasd.Builds.Site.{Site, has_build_id, max_builds, max_queued, close_log_subs}
use agentic_paasd.Builds.Job.{Phase, Job, Luck, turn}
use agentic_paasd.Builds.Control.{
  Fate, StartBuildRequest, start_build, place_build, insert_build, enqueue, new_job, finish_cancel,
}
use agentic_paasd.Builds.Steps.{System, Event, add_job, move_at, happen, run}
use agentic_paasd.Builds.Accounting.{
  is_live, slots_of, claim, places_of, Places, places, Held, places-append_log,
  places-update_builds,
}
use agentic_paasd.Builds.Turns.{turn-IsBalanced}
use agentic_paasd.Builds.Kept.{turn-Kept}

unfoldable pub total : (Job → ℕ) → List Job → ℕ
total f [] = 0
total f (j ∷ jobs) = f j + total f jobs

abbrev pub live : Job → ℕ
live j = is_live j.phase

abbrev pub slots : Job → ℕ
slots j = slots_of j.phase

abbrev pub claims : Text → Job → ℕ
claims t j = claim t j.tenant_id j.phase

-- The places cover what these goroutines hold, within the limits.
abbrev Covered : List Job → Places → Type 0
Covered jobs a =
    (total live jobs ≤ a.0)
    × (total slots jobs ≤ a.1)
    × (a.1 ≤ max_builds)
    × ((t : Text) → total (claims t) jobs ≤ places_of t a.2)
    × ((t : Text) → places_of t a.2 ≤ 1)

abbrev Moved : List Job → Places → List Job → Places → Type 0
Moved jobs a jobs' b =
    (b.0 + total live jobs ≡ a.0 + total live jobs')
    × (b.1 + total slots jobs ≡ a.1 + total slots jobs')
    × ((t : Text)
        → places_of t b.2 + total (claims t) jobs ≡ places_of t a.2 + total (claims t) jobs')
    × (b.0 ≤ a.0)
    × (b.1 ≤ max_builds)
    × ((t : Text) → places_of t b.2 ≤ 1)

move_at-Moved :
    (i : ℕ) (luck : Luck) (jobs : List Job) (s : Site)
    → Covered jobs (places s)
    → Moved jobs (places s) (move_at i luck jobs s).0 (places (move_at i luck jobs s).1)
unfolding move_at total
move_at-Moved i luck [] s (hl, hs, hm, hc, ho) = (refl, refl, λ t. refl, omega arith, hm, ho)
move_at-Moved zero luck (j ∷ jobs) s (hl, hs, hm, hc, ho) =
    let held : Held j.tenant_id j.phase (places s) =
      (omega (arith, hl), omega (arith, hs), hm, λ t. omega (arith, hc t), ho) in
    let (bl, bs, bc, bq, bm, bo) = turn-IsBalanced luck j j.phase s held in
    let r = turn luck j.phase j s in
    (
      omega (arith, bl),
      omega (arith, bs),
      λ t. omega (
        arith,
        subst
            (λ o.
              places_of t (places r.1).2 + claim t j.tenant_id j.phase
              ≡ places_of t (places s).2 + claim t o r.0.phase)
            (sym (turn-Kept luck j.phase j s).0) (bc t),
      ),
      bq,
      bm,
      bo,
    )
move_at-Moved (suc i) luck (j ∷ jobs) s (hl, hs, hm, hc, ho) =
    let (bl, bs, bc, bq, bm, bo) =
      move_at-Moved i luck jobs s
        (omega (arith, hl), omega (arith, hs), hm, λ t. omega (arith, hc t), ho) in
    (omega (arith, bl), omega (arith, bs), λ t. omega (arith, bc t), bq, bm, bo)

-- What StartBuild does to the places.
Placed : Site → Result Job → Site → Type 0
Placed s (ok j) s' =
    (j.phase ≡ Phase.queued)
    × (places s' ≡ (suc s.queue, s.sem, s.busy))
    × (suc s.queue ≤ max_queued)
Placed s (err e) s' = places s' ≡ places s

module _ (fate : Fate) (tenant service : Text) (req : StartBuildRequest) where
  enqueue-Placed :
      (id : Text) (s : Site)
      → Placed s (enqueue fate id tenant service req s).0 (enqueue fate id tenant service req s).1
  unfolding enqueue Placed new_job
  enqueue-Placed id s = elim (Bool-cases (ltb s.queue max_queued)) [
    | inl e ↦ rw e (refl, refl, ltb→lt s.queue max_queued e)
    | inr e ↦ rw e (places-update_builds fate.fail_up _ _ s)
  ]

  insert_build-Placed :
      (random : Option Text) (s : Site)
      → Placed s
          (insert_build fate random tenant service req s).0
          (insert_build fate random tenant service req s).1
  unfolding insert_build Placed
  insert_build-Placed none s = refl
  insert_build-Placed (some id) s =
      elim (Bool-cases (fate.insert_up && not (any (has_build_id id) s.builds))) [
        | inl e ↦ rw e (enqueue-Placed id _)
        | inr e ↦ rw e refl
      ]

  place_build-Placed :
      (r : Result (Unit {0})) (s : Site)
      → Placed s
          (place_build r fate tenant service req s).0
          (place_build r fate tenant service req s).1
  unfolding place_build Placed
  place_build-Placed (err e) s = refl
  place_build-Placed (ok u) s = insert_build-Placed fate.random s

  start_build-Placed :
      (parse : Text → Option ParsedUrl) (s : Site)
      → Placed s
          (start_build parse fate tenant service req s).0
          (start_build parse fate tenant service req s).1
  unfolding start_build
  start_build-Placed parse s = place_build-Placed _ s

places-finish_cancel :
    (up log_up : Bool) (now : ℕ) (id : Text) (s : Site)
    → places (finish_cancel up log_up now id s) ≡ places s
unfolding finish_cancel close_log_subs
places-finish_cancel up log_up now id s =
    places-append_log log_up id _ _ ∙ places-update_builds up _ _ s

-- The places are those that the goroutines hold, and within the limits.
abbrev pub IsSound : List Job → Places → Type 0
IsSound jobs a =
    (a.0 ≡ total live jobs)
    × (a.1 ≡ total slots jobs)
    × ((t : Text) → places_of t a.2 ≡ total (claims t) jobs)
    × (a.0 ≤ max_queued)
    × (a.1 ≤ max_builds)
    × ((t : Text) → places_of t a.2 ≤ 1)

abbrev pub Sound : System → Type 0
Sound w = IsSound w.jobs (places w.site)

onto_places : (jobs : List Job) (a b : Places) → b ≡ a → IsSound jobs a → IsSound jobs b
onto_places jobs a b e h = subst (IsSound jobs) (sym e) h

started-IsSound :
    (r : Result Job) (s s' : Site) (jobs : List Job)
    → Placed s r s'
    → IsSound jobs (places s)
    → IsSound (add_job r jobs) (places s')
unfolding Placed total
started-IsSound (err e) s s' jobs p h = onto_places jobs (places s) (places s') p h
started-IsSound (ok j) s s' jobs (q, e, room) (hl, hs, hc, hq, hm, ho) =
    onto_places (j ∷ jobs) (suc s.queue, s.sem, s.busy) (places s') e
      (
        rw q (omega (arith, hl)),
        rw q (omega (arith, hs)),
        λ t. rw q (omega (arith, hc t)),
        room,
        hm,
        ho,
      )

Moved-IsSound :
    (jobs jobs' : List Job) (a b : Places) → Moved jobs a jobs' b → IsSound jobs a → IsSound jobs' b
Moved-IsSound jobs jobs' a b (ml, ms, mc, mq, mm, mo) (hl, hs, hc, hq, hm, ho) = (
  omega (arith, ml, hl),
  omega (arith, ms, hs),
  λ t. omega (arith, mc t, hc t),
  omega (arith, mq, hq),
  mm,
  mo,
)

module _ (parse : Text → Option ParsedUrl) where
  pub happen-Sound : (e : Event) (w : System) → Sound w → Sound (happen parse e w)
  unfolding happen
  happen-Sound (Event.start fate tenant service req) w h =
      started-IsSound _ w.site _ w.jobs (start_build-Placed fate tenant service req parse w.site) h
  happen-Sound (Event.move i luck) w (hl, hs, hc, hq, hm, ho) =
      Moved-IsSound w.jobs _ (places w.site) _
        (move_at-Moved i luck w.jobs w.site
          (omega (arith, hl), omega (arith, hs), hm, λ t. omega (arith, hc t), ho))
        (hl, hs, hc, hq, hm, ho)
  happen-Sound (Event.output up id line) w h =
      onto_places w.jobs (places w.site) _ (places-append_log up id line w.site) h
  happen-Sound (Event.ask_cancel up tenant id) w h = h
  happen-Sound (Event.cancel up log_up now id) w h =
      if_both (λ v. Sound v) _
        (onto_places w.jobs (places w.site) _ (places-finish_cancel up log_up now id w.site) h) h

  -- Over any run of requests, builds' steps, processes' output and cancellations, in any order,
  -- that starts from a sound system (an empty one is), the entries of the build queue are the
  -- goroutines that have not ended, ten at most; the slots taken are the builds that hold one,
  -- three at most; and the places taken for a tenant are its builds behind acquireTenant, one at
  -- most.
  pub run-Sound : (events : List Event) (w : System) → Sound w → Sound (run parse events w)
  unfolding run
  run-Sound [] w h = h
  run-Sound (e ∷ events) w h = run-Sound events (happen parse e w) (happen-Sound e w h)
