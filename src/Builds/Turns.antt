-- ===== src/Builds/Turns.antt =====
-- Every step of a build's goroutine balances its places.
use agentic_paasd.Prelude.{
  ◌≡◌, refl, sym, ◌∙◌, ap, subst, Bool, true, false, Option, none, some, Text, ltb, ltb→lt,
}
use agentic_paasd.Builds.Site.{Site, max_builds, close_log_subs, end_run, is_busy, untrack_unit}
use agentic_paasd.Builds.Job.{
  Stage, Phase, Job, Luck, turn, begin_run, enter, take_slot, start_stage, end_stage, leave_stage,
  begin_stage, mark_build_failed, mark_succeeded, end_deploy, tenant_taken, context_over,
}
use agentic_paasd.Builds.Accounting.{
  Held, Balanced, Places, places, places-append_log, places-update_builds, ended, given_back,
  released, Balanced-stay, Balanced-end, Balanced-give_back, Balanced-release, Balanced-hold,
  Balanced-slot,
}

-- A step of `j`, out of the phase `p`, that balances.
abbrev pub IsBalanced : Phase → Job → Site → Job × Site → Type 0
IsBalanced p j s r = Balanced j.tenant_id p (places s) r.0.phase (places r.1)

onto :
    (owner : Text) (p p' : Phase) (a b c : Places)
    → c ≡ b
    → Balanced owner p a p' b
    → Balanced owner p a p' c
onto owner p p' a b c e h = subst (λ x. Balanced owner p a p' x) (sym e) h

places-begin_stage :
    (luck : Luck) (stage : Stage) (j : Job) (s : Site)
    → places (begin_stage luck stage j s) ≡ places s
unfolding begin_stage
places-begin_stage luck Stage.clone j s =
    places-append_log luck.log_up j.build_id _ _ ∙ places-append_log luck.log_up j.build_id _ s
places-begin_stage luck Stage.pack j s = places-append_log luck.log_up j.build_id _ s
places-begin_stage luck Stage.push j s = places-append_log luck.log_up j.build_id _ s

module _ (luck : Luck) (j : Job) where
  begin_run-IsBalanced :
      (b : Bool) (s : Site)
      → Held j.tenant_id Phase.queued (places s)
      → IsBalanced Phase.queued j s (begin_run luck b j s)
  unfolding begin_run end_run ended
  begin_run-IsBalanced true s h =
      onto j.tenant_id Phase.queued Phase.entering (places s) (places s) _
        (places-update_builds true _ _ s)
        (Balanced-stay j.tenant_id Phase.queued Phase.entering (places s) refl refl refl h)
  begin_run-IsBalanced false s h = Balanced-end j.tenant_id Phase.queued (places s) refl refl refl h

  enter-IsBalanced :
      (b : Bool) (s : Site)
      → is_busy j.tenant_id s ≡ b
      → Held j.tenant_id Phase.entering (places s)
      → IsBalanced Phase.entering j s (enter b j s)
  unfolding enter
  enter-IsBalanced true s e h =
      Balanced-stay j.tenant_id Phase.entering (Phase.failing tenant_taken) (places s) refl refl
        refl h
  enter-IsBalanced false s e h =
      Balanced-hold j.tenant_id Phase.entering Phase.waiting s.queue s.sem s.busy refl refl refl
        refl e h

  take_slot-IsBalanced :
      (over free : Bool) (error : Option Text) (s : Site)
      → ltb s.sem max_builds ≡ free
      → Held j.tenant_id Phase.waiting (places s)
      → IsBalanced Phase.waiting j s (take_slot over free error j s)
  unfolding take_slot released
  take_slot-IsBalanced true free error s e h =
      Balanced-release j.tenant_id Phase.waiting (Phase.failing context_over) (places s) refl refl
        refl refl h
  take_slot-IsBalanced false true none s e h =
      Balanced-slot j.tenant_id Phase.waiting (Phase.starting Stage.clone) s.queue s.sem s.busy refl
        refl refl refl (ltb→lt s.sem max_builds e) h
  take_slot-IsBalanced false true (some m) s e h =
      Balanced-release j.tenant_id Phase.waiting (Phase.failing m) (places s) refl refl refl refl h
  take_slot-IsBalanced false false error s e h =
      Balanced-stay j.tenant_id Phase.waiting Phase.waiting (places s) refl refl refl h

  start_stage-IsBalanced :
      (error : Option Text) (stage : Stage) (s : Site)
      → Held j.tenant_id (Phase.starting stage) (places s)
      → IsBalanced (Phase.starting stage) j s (start_stage luck error stage j s)
  unfolding start_stage given_back
  start_stage-IsBalanced (some m) stage s h =
      onto j.tenant_id (Phase.starting stage) (Phase.failing m) (places s)
        (given_back j.tenant_id (places s)) _
        (ap (given_back j.tenant_id) (places-begin_stage luck stage j s))
        (Balanced-give_back j.tenant_id (Phase.starting stage) (Phase.failing m) (places s) refl
          refl refl refl refl h)
  start_stage-IsBalanced none stage s h =
      onto j.tenant_id (Phase.starting stage) (Phase.working stage) (places s) (places s) _
        (places-begin_stage luck stage j s)
        (Balanced-stay j.tenant_id (Phase.starting stage) (Phase.working stage) (places s) refl refl
          refl h)

  leave_stage-IsBalanced :
      (stage : Stage) (s : Site)
      → Held j.tenant_id (Phase.working stage) (places s)
      → IsBalanced (Phase.working stage) j s (leave_stage luck stage j s)
  unfolding leave_stage given_back
  leave_stage-IsBalanced Stage.clone s h =
      onto j.tenant_id (Phase.working Stage.clone) (Phase.starting Stage.pack) (places s) (places s)
        _ (places-append_log luck.log_up j.build_id _ s)
        (Balanced-stay j.tenant_id (Phase.working Stage.clone) (Phase.starting Stage.pack)
          (places s) refl refl refl h)
  leave_stage-IsBalanced Stage.pack s h =
      onto j.tenant_id (Phase.working Stage.pack) (Phase.starting Stage.push) (places s) (places s)
        _ (places-append_log luck.log_up j.build_id _ s)
        (Balanced-stay j.tenant_id (Phase.working Stage.pack) (Phase.starting Stage.push) (places s)
          refl refl refl h)
  leave_stage-IsBalanced Stage.push s h =
      onto j.tenant_id (Phase.working Stage.push) Phase.finishing (places s)
        (given_back j.tenant_id (places s)) _
        (ap (given_back j.tenant_id) (
          places-append_log luck.log_up j.build_id _ _
          ∙ places-append_log luck.log_up j.build_id _ s))
        (Balanced-give_back j.tenant_id (Phase.working Stage.push) Phase.finishing (places s) refl
          refl refl refl refl h)

  end_stage-IsBalanced :
      (error : Option Text) (stage : Stage) (s : Site)
      → Held j.tenant_id (Phase.working stage) (places s)
      → IsBalanced (Phase.working stage) j s (end_stage luck error stage j s)
  unfolding end_stage given_back
  end_stage-IsBalanced (some m) stage s h =
      Balanced-give_back j.tenant_id (Phase.working stage) (Phase.failing m) (places s) refl refl
        refl refl refl h
  end_stage-IsBalanced none stage s h = leave_stage-IsBalanced stage (untrack_unit j.build_id s) h

  mark_build_failed-IsBalanced :
      (m : Text) (s : Site)
      → Held j.tenant_id (Phase.failing m) (places s)
      → IsBalanced (Phase.failing m) j s (mark_build_failed luck m j s)
  unfolding mark_build_failed end_run close_log_subs ended
  mark_build_failed-IsBalanced m s h =
      onto j.tenant_id (Phase.failing m) Phase.done (places s) (ended (places s)) _
        (ap ended
          (places-update_builds luck.up _ _ _ ∙ places-append_log luck.log_up j.build_id _ s))
        (Balanced-end j.tenant_id (Phase.failing m) (places s) refl refl refl h)

  mark_succeeded-IsBalanced :
      (s : Site)
      → Held j.tenant_id Phase.finishing (places s)
      → IsBalanced Phase.finishing j s (mark_succeeded luck j s)
  unfolding mark_succeeded
  mark_succeeded-IsBalanced s h =
      onto j.tenant_id Phase.finishing Phase.deploying (places s) (places s) _
        (places-append_log luck.log_up j.build_id _ _ ∙ places-update_builds luck.up _ _ s)
        (Balanced-stay j.tenant_id Phase.finishing Phase.deploying (places s) refl refl refl h)

  end_deploy-IsBalanced :
      (s : Site)
      → Held j.tenant_id Phase.deploying (places s)
      → IsBalanced Phase.deploying j s (end_deploy luck j s)
  unfolding end_deploy end_run close_log_subs ended
  end_deploy-IsBalanced s h =
      onto j.tenant_id Phase.deploying Phase.done (places s) (ended (places s)) _
        (ap ended (places-append_log luck.log_up j.build_id _ s))
        (Balanced-end j.tenant_id Phase.deploying (places s) refl refl refl h)

  pub turn-IsBalanced :
      (p : Phase) (s : Site) → Held j.tenant_id p (places s) → IsBalanced p j s (turn luck p j s)
  unfolding turn
  turn-IsBalanced Phase.queued s h = begin_run-IsBalanced _ s h
  turn-IsBalanced Phase.entering s h = enter-IsBalanced _ s refl h
  turn-IsBalanced Phase.waiting s h = take_slot-IsBalanced _ _ luck.error s refl h
  turn-IsBalanced (Phase.starting stage) s h = start_stage-IsBalanced luck.error stage s h
  turn-IsBalanced (Phase.working stage) s h = end_stage-IsBalanced luck.error stage s h
  turn-IsBalanced (Phase.failing m) s h = mark_build_failed-IsBalanced m s h
  turn-IsBalanced Phase.finishing s h = mark_succeeded-IsBalanced s h
  turn-IsBalanced Phase.deploying s h = end_deploy-IsBalanced s h
  turn-IsBalanced Phase.done s h =
      Balanced-stay j.tenant_id Phase.done Phase.done (places s) refl refl refl h
