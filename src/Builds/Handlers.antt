-- ===== src/Builds/Handlers.antt =====
-- The handlers of internal/api/builds.go, on top of the manager.
use agentic_paasd.Prelude.{Bool, Option, List, [], ◌∷◌, Text, ℕ, codes, if◌then◌else◌}
use agentic_paasd.Store.{Build}
use agentic_paasd.Runtime.{Error, Result, ok, err}
use agentic_paasd.Server.Replies.{Body, Reply, sent, refused, Handler, with_manager, with_body}
use agentic_paasd.Services.Messages.{message}
use agentic_paasd.Services.Handlers.{Branch, status_for, missing}
use agentic_paasd.Builds.Validate.{ParsedUrl}
use agentic_paasd.Builds.Site.{Site}
use agentic_paasd.Builds.Job.{Job}
use agentic_paasd.Builds.Control.{
  StartBuildRequest, Fate, start_build, get_build, list_builds, get_build_logs, may_cancel,
  finish_cancel,
}

-- What the outside answers to CancelBuild.
pub record CancelFate : Type 0 where
  pub query_up : Bool
  pub update_up : Bool
  pub log_up : Bool
  pub now : ℕ

module _ (detail : Error → Text) (has_manager : Bool) where
  abbrev pub reply_of : {A : Type 0} → ℕ → List Branch → Result A → Reply A
  reply_of n branches (ok a) = sent n a
  reply_of n branches (err e) = refused (status_for branches 500 (message detail e))

  abbrev pub creation_errors : List Branch
  creation_errors =
      (missing, 404)
      ∷ (
        codes "not allowed"
            ∷ codes "unsupported"
            ∷ codes "required"
            ∷ codes "too long"
            ∷ codes "invalid"
            ∷ codes "credentials"
            ∷ [],
        400,
      )
      ∷ (codes "already running" ∷ [], 409)
      ∷ []

  unfoldable pub handle_build_create :
      (Text → Option ParsedUrl) → Fate → Text → Text → Body StartBuildRequest → Handler Site Job
  handle_build_create parse fate tenant service body = with_manager has_manager (
      with_body body (λ req s.
        let (r, s') = start_build parse fate tenant service req s in
        (reply_of 202 creation_errors r, s')))

  unfoldable pub handle_build_list : Bool → Text → Text → Handler Site (List Build)
  handle_build_list up tenant service =
      with_manager has_manager
        (λ s. (if up then sent 200 (list_builds tenant service s) else refused 500, s))

  unfoldable pub handle_build_get : Bool → Text → Text → Handler Site Build
  handle_build_get up tenant id =
      with_manager has_manager
        (λ s. (reply_of 200 ((missing, 404) ∷ []) (get_build up tenant id s), s))

  -- StreamBuildLogs comes behind the status: of an error nothing is said any more.
  abbrev pub streamed : Result Text → Reply Text
  streamed (ok log) = sent 200 log
  streamed (err e) = sent 200 []

  -- With `follow` the reply holds the log so far; the lines that follow are the builds' output.
  unfoldable pub handle_build_logs : Bool → Bool → Text → Text → Handler Site Text
  handle_build_logs up follow tenant id = with_manager has_manager (λ s.
      let r = get_build_logs up tenant id s in
      (if follow then streamed r else reply_of 200 ((missing, 404) ∷ []) r, s))

  abbrev pub cancelled : Result (Unit {0}) → CancelFate → Text → Handler Site (Unit {0})
  cancelled (ok u) fate id s = (sent 200 tt, finish_cancel fate.update_up fate.log_up fate.now id s)
  cancelled (err e) fate id s =
      (reply_of 200 ((missing, 404) ∷ (codes "not in progress" ∷ [], 409) ∷ []) (err e), s)

  -- The stop of the unit in between is the build's next event.
  unfoldable pub handle_build_cancel : CancelFate → Text → Text → Handler Site (Unit {0})
  handle_build_cancel fate tenant id =
      with_manager has_manager
        (λ s. cancelled (may_cancel (get_build fate.query_up tenant id s)) fate id s)
