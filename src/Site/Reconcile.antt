-- ===== src/Site/Reconcile.antt =====
-- Reconcile, reconcile and cleanup of internal/controller/newtsite/controller.go.
use pangolin_operator.Base.{none, some, List, [], ◌∷◌, ◌++◌, not, if◌then◌else◌}
use pangolin_operator.Base.Errors.{
  Error, wrap, message, is_not_found, is_bad_request, is_kube_not_found,
}
use pangolin_operator.Base.Exec.{
  Result, ok, err, Outcome, done, requeue_after, retry, terminal, wrapping, ◌>>◌,
}
use pangolin_operator.Base.Int.{ℤ, pos, ◌==ℤ◌}
use pangolin_operator.Base.Text.{Text, txt, itoa}
use pangolin_operator.Pangolin.Api.{get_site, delete_site}
use pangolin_operator.Pangolin.Requests.{GetSiteResponse}
use pangolin_operator.Site.Create.{find_or_create, update_remote}
use pangolin_operator.Site.Run.{note, not_ready, fail_with, run_site}
use pangolin_operator.Site.Env.{
  Env, Call, get_object, State, M, call_api, refetch, update, patch_status,
}
use pangolin_operator.Types.Meta.{error, reason_permanent_error}
use pangolin_operator.Types.Site.{NewtSite, NewtSiteStatus}

abbrev pub finalizer : Text
finalizer = txt "pangolin.home-operations.com/newtsite-finalizer"

-- DeleteSite, where a site that is gone already is no error.
abbrev pub unless_gone : ℤ → Result (Unit {0}) → Result (Unit {0})
unless_gone id (ok _) = ok tt
unless_gone id (err e) =
    if is_not_found e then ok tt else err (wrap (txt "delete Pangolin site " ++ itoa id) e)

abbrev pub with_finalizers : State → List Text → State
with_finalizers s fs = record s {
  site = record s.site { metadata = record s.site.metadata { finalizers = fs } };
}

abbrev pub forgotten : NewtSiteStatus → NewtSiteStatus
forgotten st = record st { site_id = pos 0; nice_id = []; newt_secret_name = [] }

module _ (env : Env) where
  -- The error branches of findOrCreate in reconcile.
  unfoldable pub on_create_error : Error → State → Outcome × State
  on_create_error e s =
      if is_bad_request e
      then (
        terminal e,
        note env
            (λ st. record (not_ready env reason_permanent_error (message e) s st) { phase = error })
            s,
      )
      else fail_with env e s

  abbrev pub after_forget : Result (Unit {0}) × State → Outcome × State
  after_forget (ok _, s) = (requeue_after 1, s)
  after_forget (err e, s) = (retry e, s)

  -- The site is gone from Pangolin: the status forgets it.
  unfoldable pub forget_site : State → Outcome × State
  forget_site s = after_forget (patch_status env forgotten s)

  abbrev pub after_reread : Result (Unit {0}) × State → Outcome × State
  after_reread (ok _, s) = run_site env s
  after_reread (err e, s) = (retry e, s)

  abbrev pub after_create : Result (Unit {0}) × State → Outcome × State
  after_create (ok _, s) = after_reread (refetch env s)
  after_create (err e, s) = on_create_error e s

  abbrev pub after_update : Result (Unit {0}) × State → Outcome × State
  after_update (ok _, s) = run_site env s
  after_update (err e, s) = if is_not_found e then forget_site s else fail_with env e s

  abbrev pub after_drift : Result GetSiteResponse × State → Outcome × State
  after_drift (ok _, s) = run_site env s
  after_drift (err e, s) =
      if is_not_found e then forget_site s else (retry (wrap (txt "drift check GetSite") e), s)

  -- reconcile
  unfoldable pub reconcile : State → Outcome × State
  reconcile s =
      let id = s.site.status.site_id in
      if id ==ℤ pos 0
      then after_create (find_or_create env s)
      else if not (s.site.metadata.generation ==ℤ s.site.status.observed_generation)
      then after_update (update_remote env s)
      else after_drift (call_api (get_site id) (λ h. env.pangolin.get_site h id) s)

  abbrev pub delete_remote : M (Unit {0})
  delete_remote s =
      let id = s.site.status.site_id in
      if id ==ℤ pos 0
      then (ok tt, s)
      else (let (r, s') = call_api (delete_site id) (λ h. env.pangolin.delete_site h id) s in
          (unless_gone id r, s'))

  abbrev pub remove_finalizer : M (Unit {0})
  remove_finalizer s =
      update env (with_finalizers s (env.lib.remove_finalizer s.site.metadata.finalizers finalizer))

  abbrev pub outcome_of : Result (Unit {0}) × State → Outcome × State
  outcome_of (ok _, s) = (done, s)
  outcome_of (err e, s) = (retry e, s)

  unfoldable pub cleanup : State → Outcome × State
  cleanup s = outcome_of ((delete_remote >> wrapping (txt "remove finalizer") remove_finalizer) s)

  abbrev pub after_finalizer : Result (Unit {0}) × State → Outcome × State
  after_finalizer (ok _, s) = reconcile s
  after_finalizer (err e, s) = (retry e, s)

  -- Reconcile, for the object that was read.
  unfoldable pub handle : State → Outcome × State
  handle s = elim s.site.metadata.deletion_timestamp [
    | some _ ↦ cleanup s
    | none ↦
        if env.lib.contains_finalizer s.site.metadata.finalizers finalizer
        then reconcile s
        else after_finalizer (
            update env
              (with_finalizers s (env.lib.add_finalizer s.site.metadata.finalizers finalizer)))
  ]

  abbrev started : Result NewtSite → List Call → Outcome × List Call
  started (err e) log = (if is_kube_not_found e then done else retry e, log)
  started (ok site) log = let (o, s) = handle (record { site = site; log = log }) in (o, s.log)

  unfoldable pub reconcile_request : List Call → Outcome × List Call
  reconcile_request log = started (env.get log) (get_object ∷ log)
