-- ===== src/Public/Outcomes.antt =====
-- What reconcile and cleanup of internal/controller/publicresource/controller.go return, and which
-- calls they make, branch by branch.
use pangolin_operator.Base.{List, [], ◌∷◌, true, false, ◌≡◌, ◌⊎◌, arith}
use pangolin_operator.Base.Errors.{Error, is_bad_request, is_site_not_found}
use pangolin_operator.Base.Exec.{ok, terminal, requeue_after, retry}
use pangolin_operator.Types.Site.{NewtSite}
use pangolin_operator.Public.Env.{
  Env, State, api_calls, find_site, patch_status, api, list_newt_sites,
}
use pangolin_operator.Types.Public.{PublicResource}
use pangolin_operator.Pangolin.Requests.{ResourceItem}
use pangolin_operator.Pangolin.Api.{list_resources}
use pangolin_operator.Base.Int.{pos, ◌==ℤ◌, ==ℤ_iff}
use pangolin_operator.Public.Create.{ensure_exists}
use pangolin_operator.Public.Requests.{still_listed}
use pangolin_operator.Public.Reconcile.{
  reconcile, after_site, after_ensure, on_ensure_error, on_update_error, update_if_needed,
  report_ready, site_is_ready, note, mark_not_ready,
}

-- An error that reconcile marks as terminal, never to be retried, is one that satisfies
-- IsBadRequest.
pub reconcile-terminal :
    (env : Env) (s s' : State) (e : Error)
    → reconcile env s ≡ (terminal e, s')
    → is_bad_request e ≡ true
unfolding reconcile after_site after_ensure on_ensure_error on_update_error update_if_needed
    report_ready
reconcile-terminal env s s' e h = ground arith

-- The first of the sites with the resource's name is missing or not ready.
abbrev pub NoReadySite : List NewtSite → Type 0
NoReadySite [] = Unit
NoReadySite (site ∷ _) = site_is_ready site ≡ false

-- Where the named NewtSite does not exist, or is not ready, reconcile asks to be called again in ten
-- seconds and calls nothing of Pangolin, whatever the Kubernetes server answers to the patch of the
-- status.
pub reconcile_waits :
    (env : Env) (s : State) (sites : List NewtSite)
    → env.sites_named s.log s.res.spec.site_ref ≡ ok sites
    → NoReadySite sites
    → ((reconcile env s).0 ≡ requeue_after 10)
      × (api_calls (reconcile env s).1.log ≡ api_calls s.log)
unfolding reconcile after_site find_site note mark_not_ready patch_status is_site_not_found
reconcile_waits env s [] h n = (ground arith, ground arith)
reconcile_waits env s (site ∷ sites) h n = (ground arith, ground arith)

-- In the steady state (the site is ready, Pangolin lists the resource's id, and the object read
-- again has an observed generation that is its generation) reconcile's one call of Pangolin is the
-- list, whatever targets and rules the status names, and it comes back at the resync interval or
-- with an error to retry.
pub reconcile_steady :
    (env : Env) (s : State) (site : NewtSite) (sites : List NewtSite) (items : List ResourceItem)
    (fresh : PublicResource)
    → env.sites_named s.log s.res.spec.site_ref ≡ ok (site ∷ sites)
    → site_is_ready site ≡ true
    → (s.res.status.resource_id ==ℤ pos 0) ≡ false
    → env.pangolin.list_resources (list_newt_sites s.res.spec.site_ref ∷ s.log) s.res.spec.name
      ≡ ok items
    → still_listed s.res.status.resource_id items ≡ true
    → env.get (api (list_resources s.res.spec.name) ∷ list_newt_sites s.res.spec.site_ref ∷ s.log)
      ≡ ok fresh
    → fresh.metadata.generation ≡ fresh.status.observed_generation
    → (api_calls (reconcile env s).1.log ≡ list_resources s.res.spec.name ∷ api_calls s.log)
      × (((reconcile env s).0 ≡ requeue_after 600)
          ⊎ ((e : Error) × ((reconcile env s).0 ≡ retry e)))
unfolding reconcile after_site find_site after_ensure ensure_exists update_if_needed report_ready
    patch_status
reconcile_steady env s site sites items fresh h1 h2 h3 h4 h5 h6 h7 = (
  ground (arith, ==ℤ_iff fresh.metadata.generation fresh.status.observed_generation),
  ground (arith, ==ℤ_iff fresh.metadata.generation fresh.status.observed_generation),
)
