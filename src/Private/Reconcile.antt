-- ===== src/Private/Reconcile.antt =====
-- Reconcile, reconcile and cleanup of internal/controller/privateresource/controller.go.
use pangolin_operator.Base.{
  none, some, List, [], ◌∷◌, ◌++◌, Bool, true, false, not, ◌&&◌, ◌||◌, if◌then◌else◌,
}
use pangolin_operator.Base.Errors.{
  Error, wrap, message, is_not_found, is_bad_request, is_site_not_found, is_kube_not_found,
}
use pangolin_operator.Base.Exec.{
  Result, ok, err, Outcome, done, requeue_after, retry, terminal, wrapping, ◌>>◌,
}
use pangolin_operator.Base.Int.{ℤ, pos, ◌==ℤ◌}
use pangolin_operator.Base.Text.{Text, txt, itoa}
use pangolin_operator.Pangolin.Api.{delete_site_resource}
use pangolin_operator.Types.Meta.{
  Phase, ready, error, condition_true, condition_false, resync_interval, requeue_dependency_wait,
  reason_reconciled, reason_pending, reason_error, reason_permanent_error,
}
use pangolin_operator.Types.Private.{PrivateResource, PrivateResourceStatus}
use pangolin_operator.Types.Site.{NewtSite}
use pangolin_operator.Private.Resource.{ensure_exists}
use pangolin_operator.Private.Env.{
  Env, Call, get_object, State, M, call_api, refetch, update, patch_status, with_condition,
  find_site,
}
use pangolin_operator.Private.Resource

abbrev pub finalizer : Text
finalizer = txt "pangolin.home-operations.com/privateresource-finalizer"

abbrev pub is_ready : Phase → Bool
is_ready ready = true
is_ready _ = false

-- The guard on the NewtSite: ready, and with a Pangolin id.
abbrev pub site_is_ready : NewtSite → Bool
site_is_ready site = is_ready site.status.phase && not (site.status.site_id ==ℤ pos 0)

-- What is left of a state when a patch of the status is tried and its error only logged.
abbrev state_of : {A : Type 0} → Result A × State → State
state_of r = r.1

-- The test before updateSiteResource.
abbrev pub needs_update : Bool → Bool → PrivateResource → Bool
needs_update adopted had_id res =
    adopted
    || (had_id
        && (not (res.status.site_resource_id ==ℤ pos 0)
            && not (res.metadata.generation ==ℤ res.status.observed_generation)))

-- DeleteSiteResource, where a resource that is gone already is no error.
abbrev pub unless_gone : ℤ → Result (Unit {0}) → Result (Unit {0})
unless_gone id (ok _) = ok tt
unless_gone id (err e) =
    if is_not_found e then ok tt else err (wrap (txt "delete Pangolin site resource " ++ itoa id) e)

abbrev pub with_finalizers : State → List Text → State
with_finalizers s fs = record s {
  res = record s.res { metadata = record s.res.metadata { finalizers = fs } };
}

module _ (env : Env) where
  -- Patch the status; an error is logged and passed over.
  unfoldable pub note : (PrivateResourceStatus → PrivateResourceStatus) → State → State
  note mutate s = state_of (patch_status env mutate s)

  -- The condition Ready set to false, with this reason and message.
  abbrev not_ready : Text → Text → State → PrivateResourceStatus → PrivateResourceStatus
  not_ready reason text s st =
      with_condition env condition_false reason text s.res.metadata.generation st

  unfoldable pub mark_not_ready : Text → Text → State → State
  unfolding note
  mark_not_ready reason text s = note (not_ready reason text s) s

  -- The error branches of ensureExists in reconcile.
  unfoldable pub on_ensure_error : Error → State → Outcome × State
  unfolding mark_not_ready note
  on_ensure_error e s =
      if is_bad_request e
      then (
        terminal e,
        note (λ st. record (not_ready reason_permanent_error (message e) s st) { phase = error }) s,
      )
      else (retry e, mark_not_ready reason_error (message e) s)

  -- The error branches of updateSiteResource in reconcile.
  unfoldable pub on_update_error : Error → State → Outcome × State
  unfolding mark_not_ready note
  on_update_error e s =
      if is_not_found e
      then (requeue_after 1, note (λ st. record st { site_resource_id = pos 0; nice_id = [] }) s)
      else (retry e, mark_not_ready reason_error (message e) s)

  -- The last patch of reconcile.
  abbrev pub ready_status : State → PrivateResourceStatus → PrivateResourceStatus
  ready_status s st =
      record (with_condition env condition_true reason_reconciled
        (txt "resource reconciled successfully") s.res.metadata.generation st) {
          phase = ready;
          observed_generation = s.res.metadata.generation;
        }

  abbrev pub after_report : Result (Unit {0}) × State → Outcome × State
  after_report (ok _, s) = (requeue_after resync_interval, s)
  after_report (err e, s) = (retry e, s)

  unfoldable pub report_ready : State → Outcome × State
  report_ready s = after_report (patch_status env (ready_status s) s)

  abbrev pub after_update : Result (Unit {0}) × State → Outcome × State
  after_update (ok _, s) = report_ready s
  after_update (err e, s) = on_update_error e s

  unfoldable pub update_if_needed : NewtSite → Bool → Bool → State → Outcome × State
  update_if_needed site adopted had_id s =
      if needs_update adopted had_id s.res
      then after_update (Resource.update env site.status.site_id s)
      else report_ready s

  abbrev pub after_refetch : NewtSite → Bool → Bool → Result (Unit {0}) × State → Outcome × State
  after_refetch site adopted had_id (ok _, s) = update_if_needed site adopted had_id s
  after_refetch site adopted had_id (err e, s) = (retry e, s)

  -- What follows ensureExists.
  unfoldable pub after_ensure : NewtSite → Bool → Result Bool × State → Outcome × State
  after_ensure site had_id (err e, s) = on_ensure_error e s
  after_ensure site had_id (ok adopted, s) =
      if had_id && not adopted
      then after_refetch site adopted had_id (refetch env s)
      else update_if_needed site adopted had_id s

  unfoldable pub after_site : Result NewtSite × State → Outcome × State
  unfolding mark_not_ready
  after_site (err e, s) = (
    (if is_site_not_found e then requeue_after requeue_dependency_wait else retry e),
    mark_not_ready reason_pending (message e) s,
  )
  after_site (ok site, s) =
      if site_is_ready site
      then after_ensure site (not (s.res.status.site_resource_id ==ℤ pos 0))
          (ensure_exists env site.status.site_id s)
      else (
        requeue_after requeue_dependency_wait,
        mark_not_ready reason_pending (txt "waiting for NewtSite to become ready") s,
      )

  unfoldable pub reconcile : State → Outcome × State
  reconcile s = after_site (find_site env s.res.spec.site_ref s)

  abbrev pub delete_remote : M (Unit {0})
  delete_remote s =
      let id = s.res.status.site_resource_id in
      if id ==ℤ pos 0
      then (ok tt, s)
      else (let (r, s') =
            call_api (delete_site_resource id) (λ h. env.pangolin.delete_site_resource h id) s in
          (unless_gone id r, s'))

  abbrev pub remove_finalizer : M (Unit {0})
  remove_finalizer s =
      update env (with_finalizers s (env.lib.remove_finalizer s.res.metadata.finalizers finalizer))

  abbrev pub outcome_of : Result (Unit {0}) × State → Outcome × State
  outcome_of (ok _, s) = (done, s)
  outcome_of (err e, s) = (retry e, s)

  unfoldable pub cleanup : State → Outcome × State
  cleanup s = outcome_of ((delete_remote >> wrapping (txt "remove finalizer") remove_finalizer) s)

  abbrev pub after_finalizer : Result (Unit {0}) × State → Outcome × State
  after_finalizer (ok _, s) = reconcile s
  after_finalizer (err e, s) = (retry e, s)

  -- Reconcile, for the object that was read.
  unfoldable pub handle : State → Outcome × State
  handle s = elim s.res.metadata.deletion_timestamp [
    | some _ ↦ cleanup s
    | none ↦
        if env.lib.contains_finalizer s.res.metadata.finalizers finalizer
        then reconcile s
        else after_finalizer (
            update env
              (with_finalizers s (env.lib.add_finalizer s.res.metadata.finalizers finalizer)))
  ]

  abbrev started : Result PrivateResource → List Call → Outcome × List Call
  started (err e) log = (if is_kube_not_found e then done else retry e, log)
  started (ok res) log = let (o, s) = handle (record { res = res; log = log }) in (o, s.log)

  unfoldable pub reconcile_request : List Call → Outcome × List Call
  reconcile_request log = started (env.get log) (get_object ∷ log)
