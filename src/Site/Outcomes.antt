-- ===== src/Site/Outcomes.antt =====
-- What reconcile of internal/controller/newtsite/controller.go returns, and what happens to a site
-- that Pangolin has lost.
use mathlib.Core.Path.{◌∙◌}
use pangolin_operator.Base.{
  ap, ℕ, ◌≤◌, List, ◌∷◌, ◌≡◌, ◌≢◌, true, arith, Bool, Option, some, none, Bool-cases, inl, inr,
  refl,
}
use pangolin_operator.Base.Errors.{Error, is_not_found, is_bad_request}
use pangolin_operator.Base.Exec.{Result, ok, err, Outcome, requeue_after, retry, terminal}
use pangolin_operator.Base.Int.{pos, ==ℤ_iff}
use pangolin_operator.Pangolin.Api.{get_site}
use pangolin_operator.Site.Branches.{reconcile_induction}
use pangolin_operator.Site.Create.{find_or_create}
use pangolin_operator.Site.Env.{Env, Call, State, api, patch_object, patch_status}
use pangolin_operator.Site.Reconcile.{
  reconcile, forget_site, forgotten, on_create_error, after_create, after_forget,
}
use pangolin_operator.Site.Run.{interval_of, report_ready, fail_with, after_report, after_scan}
use pangolin_operator.Types.Site.{NewtSite, AutoDiscoverSpec}

-- An outcome with which the reconciler is called again in ten minutes at most, or at once with
-- backoff, unless Pangolin refused the request as a bad one.
pub data Reschedules : Outcome → Type 0 where
  soon : {n : ℕ} → n ≢ 0 → n ≤ 600 → Reschedules (requeue_after n)
  failed : (e : Error) → Reschedules (retry e)
  given_up : (e : Error) → is_bad_request e ≡ true → Reschedules (terminal e)

interval_of-soon : (cfg : Option AutoDiscoverSpec) → Reschedules (requeue_after (interval_of cfg))
interval_of-soon none = soon (ground arith) (omega arith)
interval_of-soon (some cfg) = soon (ground arith) (omega arith)

module _ (env : Env) where
  after_scan-Reschedules :
      (site : NewtSite) (r : Result (Unit {0}) × List Call) → Reschedules (after_scan env site r).0
  after_scan-Reschedules site (ok _, log) = interval_of-soon site.spec.auto_discover
  after_scan-Reschedules site (err e, log) = failed e

  after_report-Reschedules : (r : Result (Unit {0}) × State) → Reschedules (after_report env r).0
  after_report-Reschedules (ok _, s) = after_scan-Reschedules s.site _
  after_report-Reschedules (err e, s) = failed e

  report_ready-Reschedules :
      (online : Bool) (s : State) → Reschedules (report_ready env (online, s)).0
  unfolding report_ready
  report_ready-Reschedules online s = after_report-Reschedules _

  on_create_error-Reschedules : (e : Error) (s : State) → Reschedules (on_create_error env e s).0
  unfolding on_create_error fail_with
  on_create_error-Reschedules e s = elim (Bool-cases (is_bad_request e)) [
    | inl bad ↦ rw bad (given_up e bad)
    | inr other ↦ rw other (failed e)
  ]

  after_forget-Reschedules : (r : Result (Unit {0}) × State) → Reschedules (after_forget env r).0
  after_forget-Reschedules (ok _, s) = soon (ground arith) (omega arith)
  after_forget-Reschedules (err e, s) = failed e

  forget_site-Reschedules : (s : State) → Reschedules (forget_site env s).0
  unfolding forget_site
  forget_site-Reschedules s = after_forget-Reschedules _

-- Whatever the servers answer, reconcile of a NewtSite asks to be called again, in at least a second
-- and at most ten minutes or on an error to retry, unless it gives up on an error that satisfies
-- IsBadRequest.
pub reconcile-Reschedules : (env : Env) (s : State) → Reschedules (reconcile env s).0
reconcile-Reschedules env =
    reconcile_induction env (λ r. Reschedules r.0) (report_ready-Reschedules env) (λ e s. failed e)
      (forget_site-Reschedules env) (on_create_error-Reschedules env)

forgets :
    (env : Env) (s : State) (e : Error) (answer : NewtSite)
    → s.site.status.site_id ≢ pos 0
    → s.site.metadata.generation ≡ s.site.status.observed_generation
    → env.pangolin.get_site s.log s.site.status.site_id ≡ err e
    → is_not_found e ≡ true
    → env.patch
        (api (get_site s.site.status.site_id) ∷ s.log)
        s.site
        (record s.site { status = forgotten s.site.status })
      ≡ ok answer
    → reconcile env s ≡ (
      requeue_after 1,
      record {
        site = answer;
        log =
            patch_object s.site (record s.site { status = forgotten s.site.status })
            ∷ api (get_site s.site.status.site_id)
            ∷ s.log;
      },
    )
unfolding reconcile forget_site patch_status
forgets env s e answer h1 h2 h3 h4 h5 = ground (
  arith,
  ==ℤ_iff s.site.status.site_id (pos 0),
  ==ℤ_iff s.site.metadata.generation s.site.status.observed_generation,
)

unknown :
    (env : Env) (s : State)
    → s.site.status.site_id ≡ pos 0
    → reconcile env s ≡ after_create env (find_or_create env s)
unfolding reconcile
unknown env s h = rw h refl

-- When Pangolin answers the drift check of a site with an error that satisfies IsNotFound, and the
-- Kubernetes server accepts the patch that follows and stores its status, reconcile comes back in a
-- second, and the next reconcile, of the object that the server answered, begins with findOrCreate.
pub reconcile_lost :
    (env : Env) (s : State) (e : Error) (answer : NewtSite)
    → s.site.status.site_id ≢ pos 0
    → s.site.metadata.generation ≡ s.site.status.observed_generation
    → env.pangolin.get_site s.log s.site.status.site_id ≡ err e
    → is_not_found e ≡ true
    → env.patch
        (api (get_site s.site.status.site_id) ∷ s.log)
        s.site
        (record s.site { status = forgotten s.site.status })
      ≡ ok answer
    → answer.status ≡ forgotten s.site.status
    → ((reconcile env s).0 ≡ requeue_after 1)
      × ((reconcile env s).1.site ≡ answer)
      × (reconcile env (reconcile env s).1
          ≡ after_create env (find_or_create env (reconcile env s).1))
reconcile_lost env s e answer h1 h2 h3 h4 h5 h6 =
    let step = forgets env s e answer h1 h2 h3 h4 h5 in
    (
      ap (λ (x : Outcome × State). x.0) step,
      ap (λ (x : Outcome × State). x.1.site) step,
      unknown env (reconcile env s).1
          (ap (λ (x : Outcome × State). x.1.site.status.site_id) step ∙ ap (λ st. st.site_id) h6),
    )
