-- ===== src/Site/Scan.antt =====
-- reconcileAutodiscover, scanHTTPRoutes, scanTCPRoutes and scanServices of
-- internal/controller/newtsite/controller.go.
pub mod Runs
pub mod Plan
pub mod Refinement
pub mod Steady
pub mod Trace
pub mod Calls
use pangolin_operator.Base.{Option, none, some, List, ◌∷◌, Bool, not, ◌&&◌, ◌||◌, if◌then◌else◌}
use pangolin_operator.Base.Exec.{Result, ok, err, wrap_result, pure, ◌>>◌}
use pangolin_operator.Base.Text.{Text, txt, text_eq, is_empty}
use pangolin_operator.Discover.Annotations.{Annotations, annotation_prefix, is_opt_out}
use pangolin_operator.Discover.Objects.{Route, Service}
use pangolin_operator.Discover.Targets.{route_references_gateway}
use pangolin_operator.Site.Discovery.{
  site_ref_of, process_http_route, process_tcp_route, process_service,
}
use pangolin_operator.Site.Env.{
  Cluster, Call, list_http_routes, list_tcp_routes, list_services, Run, for_each, join_errors,
}
use pangolin_operator.Types.Site.{NewtSite, AutoDiscoverSpec}

abbrev pub names_site : NewtSite → Text → Annotations → Bool
names_site site prefix annotations = text_eq (site_ref_of annotations prefix) site.metadata.name

-- The loop's tests for a route: not opted out, and named by its annotation or at the gateway.
unfoldable pub route_matches : NewtSite → AutoDiscoverSpec → Text → Route → Bool
route_matches site cfg prefix route =
    not (is_opt_out route.annotations prefix)
    && (names_site site prefix route.annotations
        || (not (is_empty cfg.gateway_name)
            && route_references_gateway route cfg.gateway_name cfg.gateway_namespace))

unfoldable pub service_matches : NewtSite → Text → Service → Bool
service_matches site prefix svc =
    not (is_opt_out svc.annotations prefix) && names_site site prefix svc.annotations

-- `continue` where the test fails.
abbrev pub only_if : {A : Type 0} → (A → Bool) → (A → Run (Unit {0})) → A → Run (Unit {0})
only_if test f x log = if test x then f x log else (ok tt, log)

abbrev pub for_listed :
    {A : Type 0}
    → Text
    → (A → Run (Unit {0}))
    → Result (List A)
    → List Call
    → Result (Unit {0}) × List Call
for_listed what f (err e) log = (wrap_result what (err e), log)
for_listed what f (ok xs) log = join_errors (for_each f xs log)

module _ (cluster : Cluster) (site : NewtSite) (cfg : AutoDiscoverSpec) (prefix : Text) where
  unfoldable pub scan_http_routes : Run (Unit {0})
  scan_http_routes log =
      for_listed (txt "list HTTPRoutes")
        (only_if (route_matches site cfg prefix) (process_http_route cluster site cfg))
        (cluster.http_routes log) (list_http_routes ∷ log)

  unfoldable pub scan_tcp_routes : Run (Unit {0})
  scan_tcp_routes log =
      for_listed (txt "list TCPRoutes")
        (only_if (route_matches site cfg prefix) (process_tcp_route cluster site cfg))
        (cluster.tcp_routes log) (list_tcp_routes ∷ log)

  unfoldable pub scan_services : Run (Unit {0})
  scan_services log =
      for_listed (txt "list Services")
        (only_if (service_matches site prefix) (process_service cluster site cfg prefix))
        (cluster.services log) (list_services ∷ log)

abbrev pub when : Bool → Run (Unit {0}) → Run (Unit {0})
when b m log = if b then m log else (ok tt, log)

abbrev pub autodiscover_with : Cluster → NewtSite → Option AutoDiscoverSpec → Run (Unit {0})
autodiscover_with cluster site none = pure tt
autodiscover_with cluster site (some cfg) =
    let prefix = annotation_prefix cfg in
    when cfg.enable_route_discovery (scan_http_routes cluster site cfg prefix)
    >> when cfg.enable_tcp_route_discovery (scan_tcp_routes cluster site cfg prefix)
    >> when cfg.enable_service_discovery (scan_services cluster site cfg prefix)

unfoldable pub reconcile_autodiscover : Cluster → NewtSite → Run (Unit {0})
reconcile_autodiscover cluster site = autodiscover_with cluster site site.spec.auto_discover
