-- ===== src/Site/Tests.antt =====
-- Tests of the NewtSite controller on concrete servers.
pub mod Data
mod Servers
use pangolin_operator.Base.{
  ℕ, ◌≢◌, ◌⊎◌, ◌↔◌, none, some, List, [], ◌∷◌, ◌≡◌, refl, true, false, inl, inr, arith, All, onto,
}
use pangolin_operator.Base.Errors.{
  join, plain, wrap, not_found, kube_not_found, is_not_found, is_kube_not_found,
}
use pangolin_operator.Base.Exec.{ok, err, done, requeue_after}
use pangolin_operator.Base.Int.{pos}
use pangolin_operator.Base.Text.{Text, txt, text_eq, lookup}
use pangolin_operator.Discover.Specs.{build_http_route_spec, http_route_target}
use pangolin_operator.Discover.Annotations.{is_opt_out, site_ref, new_resolver}
use pangolin_operator.Discover.Ensure.{needs_patch}
use pangolin_operator.Pangolin.Api.{delete_site}
use pangolin_operator.Site.Cleanup.{SiteIsGone, cleanup-SiteIsGone}
use pangolin_operator.Site.Container.{newt_container, env_newt_id}
use pangolin_operator.Site.Create.{
  find_or_create, create_newt, put_secret, secret_name_of, with_ids,
}
use pangolin_operator.Site.Deployment.{build_deployment, pod_spec}
use pangolin_operator.Site.Discovery.{delete_owned_resources, delete_all}
use pangolin_operator.Site.Env.{
  Call, State, api, update_object, patch_status, for_each, list_owned, delete_public,
  get_http_route, list_http_routes, api_calls,
}
use pangolin_operator.Site.First.{
  FirstClaiming, Names, IsAtGateway, resolve_site_for_http_route_iff,
}
use pangolin_operator.Site.Follows.{Follows}
use pangolin_operator.Site.Follows.Names.{KeepsSecret, reconcile-KeepsSecret}
use pangolin_operator.Site.Follows.Reconciles.{reconcile-Follows}
use pangolin_operator.Site.Garbage.{
  AllDeleted, delete_owned_resources_done_iff, reconcile_http_route_gone,
}
use pangolin_operator.Site.Hardening.{IsConfined, AsksForMore, build_deployment-IsConfined}
use pangolin_operator.Site.Leftover.{IsRolledBack, after_creation, create_newt_leftover}
use pangolin_operator.Site.Outcomes.{Reschedules, reconcile-Reschedules, reconcile_lost}
use pangolin_operator.Site.PodEnv.{id, effective, newt_container-effective}
use pangolin_operator.Site.Ready.{IsReadyReport, reconcile-IsReadyReport}
use pangolin_operator.Site.Reconcile.{
  reconcile, cleanup, with_finalizers, after_create, forget_site, forgotten,
}
use pangolin_operator.Site.Resolve.{resolve_site_for_http_route, reconcile_http_route}
use pangolin_operator.Site.Run.{
  is_managed_deployment, ensure_service_account, ensure_deployment, run_site, run_newt,
  report_ready,
}
use pangolin_operator.Site.Scan.{route_matches, scan_http_routes, reconcile_autodiscover}
use pangolin_operator.Site.Scan.Plan.{http_route_plan, ensure_wanted}
use pangolin_operator.Site.Scan.Refinement.{scan_http_routes-Plan}
use pangolin_operator.Site.Scan.Runs.{flat_map, seen, all_run}
use pangolin_operator.Types.Site.{NewtSite}
use pangolin_operator.Types.Pod.{secret_key}
use pangolin_operator.Site.Scan.Steady.{IsUpToDate, read_of, scan_http_routes_steady}
use pangolin_operator.Site.Tests.Data.{cfg, home, local_home, route, web, other_web, owned_web}
use pangolin_operator.Site.Tests.Servers.{
  json, cluster, defaults, created, env, no_secrets, lost, start, steady_cluster, quiet,
}

cleanup-SiteIsGone_example :
    SiteIsGone env start
    × ((cleanup env start).1.log
        ≡ update_object (with_finalizers start []).site ∷ api (delete_site (pos 9)) ∷ [])
unfolding cleanup
cleanup-SiteIsGone_example = cleanup-SiteIsGone env start (cleanup env start).1 refl

reconcile-Reschedules_example : Reschedules (reconcile lost start).0
reconcile-Reschedules_example = reconcile-Reschedules lost start

nine_ne_zero : pos 9 ≢ pos 0
nine_ne_zero h = cc

reconcile_lost_example :
    ((reconcile lost start).0 ≡ requeue_after 1)
    × ((reconcile lost start).1.site ≡ record home { status = forgotten home.status })
    × (reconcile lost (reconcile lost start).1
        ≡ after_create lost (find_or_create lost (reconcile lost start).1))
unfolding is_not_found
reconcile_lost_example =
    reconcile_lost lost start (not_found (txt "no such site"))
      (record home { status = forgotten home.status }) nine_ne_zero refl refl refl refl refl

create_newt_leftover_example :
    IsRolledBack (pos 9) (after_creation home defaults []) (create_newt no_secrets start).1
    ⊎ ((put_secret no_secrets defaults (after_creation home defaults []) ≡ (
      err (wrap (txt "create/update newt credentials secret") (plain (txt "forbidden"))),
      (create_newt no_secrets start).1,
    ))
        × (api_calls (create_newt no_secrets start).1.log
            ≡ api_calls (after_creation home defaults []).log))
unfolding create_newt put_secret
create_newt_leftover_example =
    create_newt_leftover no_secrets start (create_newt no_secrets start).1 defaults created
      (wrap (txt "create/update newt credentials secret") (plain (txt "forbidden"))) refl refl refl

scan_http_routes-Plan_example :
    seen (scan_http_routes cluster home cfg (txt "pangolin-operator") [])
    ≡ all_run
        (ensure_wanted cluster)
        (flat_map (http_route_plan json home cfg (txt "pangolin-operator")) (route ∷ []))
        (list_http_routes ∷ [])
scan_http_routes-Plan_example =
    scan_http_routes-Plan cluster home cfg (txt "pangolin-operator") (route ∷ []) [] refl

resolve_site_for_http_route_iff_example :
    ((resolve_site_for_http_route cluster route []).0
      ≡ ok (some (home, cfg, txt "pangolin-operator")))
    ↔ FirstClaiming
        (λ site c.
          (c.enable_route_discovery ≡ true)
          × (Names route.annotations site c ⊎ IsAtGateway route c))
        (home ∷ [])
        (home, cfg, txt "pangolin-operator")
resolve_site_for_http_route_iff_example =
    resolve_site_for_http_route_iff cluster route [] (home ∷ [])
      (home, cfg, txt "pangolin-operator") refl

reconcile_http_route_gone_example : reconcile_http_route cluster (txt "default") (txt "web") [] ≡ (
  done,
  delete_public other_web
      ∷ delete_public web
      ∷ list_owned (txt "httproute") (txt "web")
      ∷ get_http_route (txt "default") (txt "web")
      ∷ [],
)
unfolding text_eq is_kube_not_found
reconcile_http_route_gone_example =
    reconcile_http_route_gone cluster (txt "default") (txt "web") [] (kube_not_found (txt "web"))
      (web ∷ other_web ∷ []) refl refl refl
      (inl refl, (inr (kube_not_found (txt "web"), refl, refl), tt))

-- A site without the native interface.
abbrev plain_home : NewtSite
plain_home = record home {
  spec = record home.spec { newt = record home.spec.newt { use_native_interface = false } };
}

build_deployment-IsConfined_example :
    IsConfined plain_home
      (build_deployment plain_home (txt "home-newt-credentials") (txt "pangolin"))
    ⊎ AsksForMore plain_home
build_deployment-IsConfined_example =
    build_deployment-IsConfined plain_home (txt "home-newt-credentials") (txt "pangolin")

newt_container-effective_example :
    effective env_newt_id (newt_container home.spec.newt (txt "home-newt-credentials")).env
    ≡ some (secret_key (txt "home-newt-credentials") env_newt_id)
newt_container-effective_example =
    newt_container-effective home.spec.newt (txt "home-newt-credentials") env_newt_id id

abbrev local_start : State
local_start = record { site = local_home; log = [] }

five_minutes_ne : ◌≢◌ {A = ℕ} 300 1
five_minutes_ne h = omega arith

reconcile-IsReadyReport_example : IsReadyReport quiet 300 (reconcile quiet start).1
unfolding reconcile run_site text_eq is_managed_deployment run_newt ensure_service_account
    ensure_deployment report_ready patch_status reconcile_autodiscover scan_http_routes join
    for_each
reconcile-IsReadyReport_example =
    reconcile-IsReadyReport quiet start (reconcile quiet start).1 300 refl five_minutes_ne

delete_owned_resources_done_iff_example :
    (delete_owned_resources cluster (txt "httproute") (txt "web") [] ≡ (
      done,
      delete_public other_web ∷ delete_public web ∷ list_owned (txt "httproute") (txt "web") ∷ [],
    ))
    ↔ (AllDeleted cluster (web ∷ other_web ∷ []) (list_owned (txt "httproute") (txt "web") ∷ [])
        × ◌≡◌ {A = List Call}
            (delete_public other_web
              ∷ delete_public web
              ∷ list_owned (txt "httproute") (txt "web")
              ∷ [])
            (onto delete_public
              (web ∷ other_web ∷ [])
              (list_owned (txt "httproute") (txt "web") ∷ [])))
delete_owned_resources_done_iff_example =
    delete_owned_resources_done_iff cluster (txt "httproute") (txt "web") []
      (delete_public other_web ∷ delete_public web ∷ list_owned (txt "httproute") (txt "web") ∷ [])
      (web ∷ other_web ∷ []) refl

scan_http_routes_steady_example :
    seen (scan_http_routes steady_cluster home cfg (txt "pangolin-operator") []) ≡ (
      true,
      onto read_of
          (flat_map
            (http_route_plan steady_cluster.json home cfg (txt "pangolin-operator"))
            (route ∷ []))
          (list_http_routes ∷ []),
    )
unfolding build_http_route_spec route_matches is_opt_out lookup text_eq site_ref new_resolver
    http_route_target needs_patch
scan_http_routes_steady_example =
    scan_http_routes_steady steady_cluster home cfg (txt "pangolin-operator") (route ∷ []) [] refl
      ((λ log. (owned_web, refl, refl)), tt)

reconcile-Follows_example : Follows [] (reconcile env start).1.log
reconcile-Follows_example = reconcile-Follows env start

abbrev new_home : NewtSite
new_home = record home { status = forgotten home.status }

abbrev new_start : State
new_start = record { site = new_home; log = [] }

reconcile-KeepsSecret_example : All KeepsSecret (reconcile env new_start).1.log
reconcile-KeepsSecret_example = reconcile-KeepsSecret env new_start tt
