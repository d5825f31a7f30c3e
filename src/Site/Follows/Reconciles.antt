-- ===== src/Site/Follows/Reconciles.antt =====
-- The calls of reconcile of internal/controller/newtsite/controller.go.
use pangolin_operator.Base.{List, Bool, true, false, not, if◌then◌else◌}
use pangolin_operator.Base.Errors.{Error, is_bad_request, is_not_found}
use pangolin_operator.Base.Exec.{Result, ok, err, Outcome, or_fail, ◌>>◌}
use pangolin_operator.Base.Int.{pos, ◌==ℤ◌}
use pangolin_operator.Pangolin.Api.{get_site}
use pangolin_operator.Pangolin.Requests.{GetSiteResponse}
use pangolin_operator.Site.Create.{find_or_create, update_remote}
use pangolin_operator.Site.Env.{Env, Call, State, patch_status, refetch}
use pangolin_operator.Site.Follows.{
  Follows, here, asked, stored_account, stored_deployment, looked, scanned, Goes, bind-Goes,
  patch_here, refetch-Goes,
}
use pangolin_operator.Site.Follows.Creation.{find_or_create-Goes, update_remote-Goes}
use pangolin_operator.Site.Machine.{Step, forgot, refused, failed, reported}
use pangolin_operator.Site.Reconcile.{
  reconcile, after_create, after_reread, after_update, after_drift, after_forget, forgotten,
  forget_site, on_create_error,
}
use pangolin_operator.Site.Run.{
  has_deployment, is_online, report_ready, after_report, after_scan, ready_status, note,
  ensure_service_account, ensure_deployment, after_deployment, run_newt, run_site, fail_with,
  account_meta, store_account, desired_for, owned_by, store_deployment,
}
use pangolin_operator.Site.Scan.{reconcile_autodiscover}
use pangolin_operator.Site.Scan.Calls.{reconcile_autodiscover-Discovered}
use pangolin_operator.Types.Site.{NewtSite, NewtSiteStatus}

module _ (env : Env) (start : List Call) where
  Follows-if :
      (b : Bool) (x y : Outcome × State)
      → Follows start x.1.log
      → Follows start y.1.log
      → Follows start (if b then x else y).1.log
  Follows-if true x y h g = h
  Follows-if false x y h g = g

  ensure_service_account-Goes : Goes start (ensure_service_account env)
  unfolding ensure_service_account
  ensure_service_account-Goes s =
      bind-Goes start (or_fail (account_meta env s.site)) (store_account env) (λ t d. d)
        (λ account t d. stored_account d) s

  ensure_deployment-Goes : Goes start (ensure_deployment env)
  unfolding ensure_deployment
  ensure_deployment-Goes s =
      bind-Goes start (or_fail (owned_by env s.site (desired_for env s.site)))
        (λ _. store_deployment env s.site (desired_for env s.site)) (λ t d. d)
        (λ _ t d. stored_deployment d) s

  note-Follows :
      (mutate : NewtSiteStatus → NewtSiteStatus) (s : State)
      → Step s.site (mutate s.site.status)
      → Follows start s.log
      → Follows start (note env mutate s).log
  unfolding note
  note-Follows mutate s step d = patch_here env start mutate s step d

  fail_with-Follows :
      (e : Error) (s : State) → Follows start s.log → Follows start (fail_with env e s).1.log
  unfolding fail_with
  fail_with-Follows e s d = note-Follows _ s (failed _) d

  on_create_error-Follows :
      (e : Error) (s : State) → Follows start s.log → Follows start (on_create_error env e s).1.log
  unfolding on_create_error
  on_create_error-Follows e s d =
      Follows-if (is_bad_request e) _ _ (note-Follows _ s (refused _) d) (fail_with-Follows e s d)

  after_forget-Follows :
      (r : Result (Unit {0}) × State)
      → Follows start r.1.log
      → Follows start (after_forget env r).1.log
  after_forget-Follows (ok _, s) d = d
  after_forget-Follows (err e, s) d = d

  forget_site-Follows : (s : State) → Follows start s.log → Follows start (forget_site env s).1.log
  unfolding forget_site
  forget_site-Follows s d = after_forget-Follows _ (patch_here env start forgotten s forgot d)

  after_scan-Follows :
      (site : NewtSite) (r : Result (Unit {0}) × List Call)
      → Follows start r.1
      → Follows start (after_scan env site r).1.log
  after_scan-Follows site (ok _, log) d = d
  after_scan-Follows site (err e, log) d = d

  after_report-Follows :
      (r : Result (Unit {0}) × State)
      → Follows start r.1.log
      → Follows start (after_report env r).1.log
  after_report-Follows (ok _, s) d =
      after_scan-Follows s.site (reconcile_autodiscover env.cluster s.site s.log)
        (scanned d (reconcile_autodiscover-Discovered env.cluster s.site s.log))
  after_report-Follows (err e, s) d = d

  report_ready-Follows :
      (online : Bool) (s : State)
      → Follows start s.log
      → Follows start (report_ready env (online, s)).1.log
  unfolding report_ready
  report_ready-Follows online s d =
      after_report-Follows (patch_status env (ready_status env online s) s)
        (patch_here env start (ready_status env online s) s (reported _ online) d)

  after_deployment-Follows :
      (r : Result (Unit {0}) × State)
      → Follows start r.1.log
      → Follows start (after_deployment env r).1.log
  after_deployment-Follows (ok _, s) d =
      report_ready-Follows (is_online env s).0 (is_online env s).1 (looked d)
  after_deployment-Follows (err e, s) d = fail_with-Follows e s d

  run_newt-Follows : (s : State) → Follows start s.log → Follows start (run_newt env s).1.log
  unfolding run_newt
  run_newt-Follows s d =
      after_deployment-Follows ((ensure_service_account env >> ensure_deployment env) s) (
        bind-Goes start (ensure_service_account env) (λ _. ensure_deployment env)
          ensure_service_account-Goes (λ _. ensure_deployment-Goes) s d)

  run_site-Follows : (s : State) → Follows start s.log → Follows start (run_site env s).1.log
  unfolding run_site
  run_site-Follows s d =
      Follows-if (has_deployment s.site) (run_newt env s) (report_ready env (false, s))
        (run_newt-Follows s d) (report_ready-Follows false s d)

  after_reread-Follows :
      (r : Result (Unit {0}) × State)
      → Follows start r.1.log
      → Follows start (after_reread env r).1.log
  after_reread-Follows (ok _, s) d = run_site-Follows s d
  after_reread-Follows (err e, s) d = d

  after_create-Follows :
      (r : Result (Unit {0}) × State)
      → Follows start r.1.log
      → Follows start (after_create env r).1.log
  after_create-Follows (ok _, s) d =
      after_reread-Follows (refetch env s) (refetch-Goes env start s d)
  after_create-Follows (err e, s) d = on_create_error-Follows e s d

  after_update-Follows :
      (r : Result (Unit {0}) × State)
      → Follows start r.1.log
      → Follows start (after_update env r).1.log
  after_update-Follows (ok _, s) d = run_site-Follows s d
  after_update-Follows (err e, s) d =
      Follows-if (is_not_found e) _ _ (forget_site-Follows s d) (fail_with-Follows e s d)

  after_drift-Follows :
      (r : Result GetSiteResponse × State)
      → Follows start r.1.log
      → Follows start (after_drift env r).1.log
  after_drift-Follows (ok _, s) d = run_site-Follows s d
  after_drift-Follows (err e, s) d = Follows-if (is_not_found e) _ _ (forget_site-Follows s d) d

  reconcile-Follows_from : (s : State) → Follows start s.log → Follows start (reconcile env s).1.log
  unfolding reconcile
  reconcile-Follows_from s d =
      Follows-if (s.site.status.site_id ==ℤ pos 0) _ _
        (after_create-Follows (find_or_create env s) (find_or_create-Goes env start s d))
        (Follows-if (not (s.site.metadata.generation ==ℤ s.site.status.observed_generation)) _ _
          (after_update-Follows (update_remote env s) (update_remote-Goes env start s d))
          (after_drift-Follows _ (asked (get_site s.site.status.site_id) d)))

-- What reconcile asks for follows the log that it starts with: every patch of the object changes its
-- status by a step of the status machine and nothing else of it, the object is never updated whole,
-- and no PublicResource is deleted.
pub reconcile-Follows : (env : Env) (s : State) → Follows s.log (reconcile env s).1.log
reconcile-Follows env s = reconcile-Follows_from env s.log s here
