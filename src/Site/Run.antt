-- ===== src/Site/Run.antt =====
-- ensureServiceAccount, ensureDeployment and the second half of reconcile of
-- internal/controller/newtsite/controller.go: what is done once Pangolin has the site.
use pangolin_operator.Base.{
  ℕ, Option, none, some, List, ◌∷◌, ◌++◌, Bool, true, false, not, ◌&&◌, if◌then◌else◌,
}
use pangolin_operator.Base.Errors.{Error, message}
use pangolin_operator.Base.Exec.{
  Result, ok, err, Outcome, requeue_after, retry, or_fail, wrap_result, ◌>>=◌, ◌>>◌,
}
use pangolin_operator.Base.Int.{ℤ, pos, leb_ℤ}
use pangolin_operator.Base.Text.{Text, txt, text_eq, is_empty}
use pangolin_operator.Site.Create.{secret_name_of}
use pangolin_operator.Site.Deployment.{build_deployment, named_meta}
use pangolin_operator.Site.Scan.{reconcile_autodiscover}
use pangolin_operator.Site.Env.{
  Env, Call, apply_service_account, apply_deployment, get_deployment, State, M, call_kube,
  patch_status, with_condition,
}
use pangolin_operator.Types.Meta.{
  ready, condition_true, condition_false, resync_interval, ObjectMeta, reason_reconciled,
  reason_error, site_type_local,
}
use pangolin_operator.Types.Pod.{Deployment}
use pangolin_operator.Types.Site.{NewtSite, NewtSiteStatus, AutoDiscoverSpec}

-- What is left of a state when a patch of the status is tried and its error only logged.
abbrev state_of : {A : Type 0} → Result A × State → State
state_of r = r.1

abbrev true_or : Option Bool → Bool
true_or none = true
true_or (some b) = b

unfoldable pub is_managed_deployment : NewtSite → Bool
is_managed_deployment site = true_or site.spec.managed_deployment

-- The test before the service account and the deployment.
abbrev pub has_deployment : NewtSite → Bool
has_deployment site =
    not (text_eq site.spec.site_type site_type_local) && is_managed_deployment site

-- The resync interval, shorter where the site discovers routes.
abbrev pub interval_of : Option AutoDiscoverSpec → ℕ
interval_of none = resync_interval
interval_of (some _) = 300

abbrev is_positive : Result ℤ → Bool
is_positive (ok n) = not (leb_ℤ n (pos 0))
is_positive (err _) = false

abbrev pub secret_name_or : NewtSite → Text
secret_name_or site =
    if is_empty site.status.newt_secret_name
    then secret_name_of site
    else site.status.newt_secret_name

module _ (env : Env) where
  -- Patch the status; an error is logged and passed over.
  unfoldable pub note : (NewtSiteStatus → NewtSiteStatus) → State → State
  note mutate s = state_of (patch_status env mutate s)

  -- The condition Ready set to false, with this reason and message.
  abbrev pub not_ready : Text → Text → State → NewtSiteStatus → NewtSiteStatus
  not_ready reason text s st =
      with_condition env condition_false reason text s.site.metadata.generation st

  unfoldable pub fail_with : Error → State → Outcome × State
  fail_with e s = (retry e, note (not_ready reason_error (message e) s) s)

  abbrev pub account_meta : NewtSite → Result ObjectMeta
  account_meta site = wrap_result (txt "set controller reference on serviceaccount") (
      env.set_controller_reference site
        (named_meta (site.metadata.name ++ txt "-newtsite") env.operator_namespace none))

  abbrev pub store_account : ObjectMeta → M (Unit {0})
  store_account account =
      call_kube (apply_service_account account) (λ h. env.service_account h account)

  -- ensureServiceAccount
  unfoldable pub ensure_service_account : M (Unit {0})
  ensure_service_account s = (or_fail (account_meta s.site) >>= store_account) s

  abbrev set_owned : Deployment → Result ObjectMeta → Result Deployment
  set_owned d (ok metadata) = ok (record d { metadata = metadata })
  set_owned d (err e) = err e

  -- The function that CreateOrUpdate applies to the deployment, a new one or the one that exists.
  abbrev pub refresh_deployment : NewtSite → Deployment → Deployment → Result Deployment
  refresh_deployment site desired existing =
      let metadata = record existing.metadata { labels = desired.metadata.labels } in
      set_owned (record { metadata = metadata; spec = desired.spec })
        (env.set_controller_reference site metadata)

  abbrev pub desired_for : NewtSite → Deployment
  desired_for site = build_deployment site (secret_name_or site) env.operator_namespace

  abbrev pub owned_by : NewtSite → Deployment → Result ObjectMeta
  owned_by site desired =
      wrap_result (txt "set controller reference on deployment")
        (env.set_controller_reference site desired.metadata)

  -- CreateOrUpdate of the deployment with this one's name and namespace.
  abbrev pub store_deployment : NewtSite → Deployment → M (Unit {0})
  store_deployment site desired =
      let existing = named_meta desired.metadata.name desired.metadata.namespace none in
      call_kube (apply_deployment existing (refresh_deployment site desired))
        (λ h. env.deployment h existing (refresh_deployment site desired))

  -- ensureDeployment
  unfoldable pub ensure_deployment : M (Unit {0})
  ensure_deployment s =
      (or_fail (owned_by s.site (desired_for s.site))
          >>= (λ _. store_deployment s.site (desired_for s.site)))
        s

  abbrev pub is_online : State → Bool × State
  is_online s = (
    is_positive (env.ready_replicas s.log env.operator_namespace s.site.metadata.name),
    record s { log = get_deployment env.operator_namespace s.site.metadata.name ∷ s.log },
  )

  -- The last patch of reconcile.
  abbrev pub ready_status : Bool → State → NewtSiteStatus → NewtSiteStatus
  ready_status online s st =
      record (with_condition env condition_true reason_reconciled
        (txt "site reconciled successfully") s.site.metadata.generation st) {
          phase = ready;
          observed_generation = s.site.metadata.generation;
          online = online;
        }

  abbrev pub after_scan : NewtSite → Result (Unit {0}) × List Call → Outcome × State
  after_scan site (ok _, log) =
      (requeue_after (interval_of site.spec.auto_discover), record { site = site; log = log })
  after_scan site (err e, log) = (retry e, record { site = site; log = log })

  abbrev pub after_report : Result (Unit {0}) × State → Outcome × State
  after_report (ok _, s) = after_scan s.site (reconcile_autodiscover env.cluster s.site s.log)
  after_report (err e, s) = (retry e, s)

  unfoldable pub report_ready : Bool × State → Outcome × State
  report_ready (online, s) = after_report (patch_status env (ready_status online s) s)

  abbrev pub after_deployment : Result (Unit {0}) × State → Outcome × State
  after_deployment (ok _, s) = report_ready (is_online s)
  after_deployment (err e, s) = fail_with e s

  unfoldable pub run_newt : State → Outcome × State
  run_newt s = after_deployment ((ensure_service_account >> ensure_deployment) s)

  -- What follows the three ways to find the site in Pangolin.
  unfoldable pub run_site : State → Outcome × State
  run_site s = if has_deployment s.site then run_newt s else report_ready (false, s)
