-- ===== src/Site/Branches.antt =====
-- The ways in which reconcile of internal/controller/newtsite/controller.go ends.
use pangolin_operator.Base.{Bool, true, false, not, if◌then◌else◌}
use pangolin_operator.Base.Errors.{Error, is_not_found}
use pangolin_operator.Base.Exec.{Result, ok, err, Outcome, retry}
use pangolin_operator.Base.Int.{pos, ◌==ℤ◌}
use pangolin_operator.Pangolin.Requests.{GetSiteResponse}
use pangolin_operator.Site.Create.{find_or_create, update_remote}
use pangolin_operator.Site.Env.{Env, State, refetch}
use pangolin_operator.Site.Reconcile.{
  reconcile, after_create, after_reread, after_update, after_drift, forget_site, on_create_error,
}
use pangolin_operator.Site.Run.{
  has_deployment, is_online, report_ready, after_deployment, run_newt, run_site, fail_with,
}

-- A predicate that holds where the status is reported, on any error that is retried, where the site
-- is forgotten and after an error of findOrCreate holds of what reconcile returns.
module _ {ℓ} (env : Env) (P : Outcome × State → Type ℓ)
    (on_report : (online : Bool) (s : State) → P (report_ready env (online, s)))
    (on_retry : (e : Error) (s : State) → P (retry e, s))
    (on_forget : (s : State) → P (forget_site env s))
    (on_create : (e : Error) (s : State) → P (on_create_error env e s)) where
  on_retry_with : (e : Error) (s : State) → P (fail_with env e s)
  unfolding fail_with
  on_retry_with e s = on_retry e _

  P-if : (b : Bool) (x y : Outcome × State) → P x → P y → P (if b then x else y)
  P-if true x y hx hy = hx
  P-if false x y hx hy = hy

  after_deployment-P : (r : Result (Unit {0}) × State) → P (after_deployment env r)
  after_deployment-P (ok _, s) = on_report (is_online env s).0 (is_online env s).1
  after_deployment-P (err e, s) = on_retry_with e s

  run_site-P : (s : State) → P (run_site env s)
  unfolding run_site run_newt
  run_site-P s =
      P-if (has_deployment s.site) (run_newt env s) (report_ready env (false, s))
        (after_deployment-P _) (on_report false s)

  after_reread-P : (r : Result (Unit {0}) × State) → P (after_reread env r)
  after_reread-P (ok _, s) = run_site-P s
  after_reread-P (err e, s) = on_retry e s

  after_create-P : (r : Result (Unit {0}) × State) → P (after_create env r)
  after_create-P (ok _, s) = after_reread-P (refetch env s)
  after_create-P (err e, s) = on_create e s

  after_update-P : (r : Result (Unit {0}) × State) → P (after_update env r)
  after_update-P (ok _, s) = run_site-P s
  after_update-P (err e, s) = P-if (is_not_found e) _ _ (on_forget s) (on_retry_with e s)

  after_drift-P : (r : Result GetSiteResponse × State) → P (after_drift env r)
  after_drift-P (ok _, s) = run_site-P s
  after_drift-P (err e, s) = P-if (is_not_found e) _ _ (on_forget s) (on_retry _ s)

  pub reconcile_induction : (s : State) → P (reconcile env s)
  unfolding reconcile
  reconcile_induction s =
      P-if (s.site.status.site_id ==ℤ pos 0) _ _ (after_create-P (find_or_create env s)) (
        P-if (not (s.site.metadata.generation ==ℤ s.site.status.observed_generation)) _ _
          (after_update-P (update_remote env s)) (after_drift-P _))
