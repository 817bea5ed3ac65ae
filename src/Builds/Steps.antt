-- ===== src/Builds/Steps.antt =====
-- The builds' goroutines and the requests, interleaved: a run is a list of events.
use agentic_paasd.Prelude.{
  ℕ, zero, suc, Bool, Option, List, [], ◌∷◌, Text, same, any, if◌then◌else◌,
}
use agentic_paasd.Runtime.{Result, ok, err}
use agentic_paasd.Builds.Validate.{ParsedUrl}
use agentic_paasd.Builds.Site.{Site, append_log}
use agentic_paasd.Builds.Job.{Job, Luck, turn}
use agentic_paasd.Builds.Control.{
  StartBuildRequest, Fate, start_build, get_build, may_cancel, finish_cancel,
}

pub record System : Type 0 where
  pub site : Site
  pub jobs : List Job  -- the goroutines, ended ones too
  pub cancels : List Text  -- the CancelBuild calls between their check and their update

pub data Event : Type 0 where
  start : Fate → Text → Text → StartBuildRequest → Event
  move : ℕ → Luck → Event  -- the next step of one goroutine
  output : Bool → Text → Text → Event  -- a line of a build's process
  ask_cancel : Bool → Text → Text → Event
  cancel : Bool → Bool → ℕ → Text → Event

abbrev pub add_job : Result Job → List Job → List Job
add_job (ok j) jobs = j ∷ jobs
add_job (err e) jobs = jobs

abbrev add_cancel : Result (Unit {0}) → Text → List Text → List Text
add_cancel (ok u) id cancels = id ∷ cancels
add_cancel (err e) id cancels = cancels

unfoldable pub remove_one : Text → List Text → List Text
remove_one id [] = []
remove_one id (c ∷ cancels) =
    let rest = remove_one id cancels in if same c id then cancels else c ∷ rest

unfoldable pub move_at : ℕ → Luck → List Job → Site → List Job × Site
move_at i luck [] s = ([], s)
move_at zero luck (j ∷ jobs) s = let (j', s') = turn luck j.phase j s in (j' ∷ jobs, s')
move_at (suc i) luck (j ∷ jobs) s = let (jobs', s') = move_at i luck jobs s in (j ∷ jobs', s')

module _ (parse : Text → Option ParsedUrl) where
  unfoldable pub happen : Event → System → System
  happen (Event.start fate tenant service req) w =
      let (r, s) = start_build parse fate tenant service req w.site in
      record w { site = s; jobs = add_job r w.jobs }
  happen (Event.move i luck) w =
      let (jobs, s) = move_at i luck w.jobs w.site in record w { site = s; jobs = jobs }
  happen (Event.output up id line) w = record w { site = append_log up id line w.site }
  happen (Event.ask_cancel up tenant id) w = record w {
    cancels = add_cancel (may_cancel (get_build up tenant id w.site)) id w.cancels;
  }
  happen (Event.cancel up log_up now id) w =
      if any (λ c. same c id) w.cancels
      then record w {
        site = finish_cancel up log_up now id w.site;
        cancels = remove_one id w.cancels;
      }
      else w

  unfoldable pub run : List Event → System → System
  run [] w = w
  run (e ∷ events) w = run events (happen e w)
