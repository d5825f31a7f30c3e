-- ===== src/Site/Scan/Calls.antt =====
-- The calls of reconcileAutodiscover of internal/controller/newtsite/controller.go.
use pangolin_operator.Base.{List, Option, none, some, not}
use pangolin_operator.Base.Exec.{Result, ok, err, ◌>>◌}
use pangolin_operator.Base.Text.{Text, txt, is_empty}
use pangolin_operator.Discover.Annotations.{annotation_prefix}
use pangolin_operator.Discover.Objects.{Route, Service}
use pangolin_operator.Discover.Services.{build_single_port_spec}
use pangolin_operator.Discover.Specs.{build_http_route_spec, build_tcp_route_spec}
use pangolin_operator.Site.Discovery.{
  site_ref_of, service_hostname, all_ports_of, ensure_hostname, ensure_hostname_spec,
  ensure_tcp_spec, ensure_single, process_http_route, process_tcp_route, process_service,
}
use pangolin_operator.Site.Env.{Cluster, Call, list_http_routes, list_tcp_routes, list_services}
use pangolin_operator.Site.Scan.{
  when, autodiscover_with, route_matches, service_matches, scan_http_routes, scan_tcp_routes,
  scan_services, reconcile_autodiscover,
}
use pangolin_operator.Types.Public.{PublicResourceSpec}
use pangolin_operator.Types.Site.{NewtSite, AutoDiscoverSpec}
use pangolin_operator.Site.Scan.Trace.{
  Discovered, here, Discovers, lists_http_routes, lists_tcp_routes, lists_services,
  for_each-Discovers, ensure_resource-Discovers, Discovered-if, then-Discovers,
  for_listed-Discovers, when-Discovers,
}

module _ (cluster : Cluster) (site : NewtSite) (cfg : AutoDiscoverSpec) where
  ensure_hostname-Discovers :
      (route : Route) (host : Text) → Discovers (ensure_hostname cluster site cfg route host)
  unfolding ensure_hostname
  ensure_hostname-Discovers route host =
      by_spec
        (build_http_route_spec cluster.json route host route.annotations cfg site.metadata.name)
    where
      by_spec :
          (r : Result PublicResourceSpec)
          → Discovers (ensure_hostname_spec cluster site route host r)
      by_spec (ok spec) = ensure_resource-Discovers cluster _ _ _ spec
      by_spec (err e) = λ log. here

  process_http_route-Discovers :
      (route : Route) → Discovers (process_http_route cluster site cfg route)
  unfolding process_http_route
  process_http_route-Discovers route log =
      for_each-Discovers (ensure_hostname cluster site cfg route) (ensure_hostname-Discovers route)
        route.hostnames log

  process_tcp_route-Discovers :
      (route : Route) → Discovers (process_tcp_route cluster site cfg route)
  unfolding process_tcp_route
  process_tcp_route-Discovers route =
      by_spec (build_tcp_route_spec route route.annotations cfg site.metadata.name)
    where
      by_spec : (r : Result PublicResourceSpec) → Discovers (ensure_tcp_spec cluster site route r)
      by_spec (ok spec) = ensure_resource-Discovers cluster _ _ _ spec
      by_spec (err e) = λ log. here

  process_service-Discovers :
      (prefix : Text) (svc : Service) → Discovers (process_service cluster site cfg prefix svc)
  unfolding process_service
  process_service-Discovers prefix svc log =
      Discovered-if (not cfg.enable_service_discovery) _ _ here (
        Discovered-if (is_empty site_ref) _ _ here (
          Discovered-if (all_ports_of cfg prefix svc) _ _
            (for_each-Discovers _
              (λ (e : Text × PublicResourceSpec) log'.
                ensure_resource-Discovers cluster _ _ e.0 e.1 log')
              _ log)
            (by_entry (
              build_single_port_spec cluster.json svc svc.annotations cfg site_ref
                (service_hostname svc)))))
    where
      site_ref : Text
      site_ref = site_ref_of svc.annotations prefix

      by_entry :
          (e : Option (Text × PublicResourceSpec))
          → Discovered log (ensure_single cluster site svc e log).1
      by_entry none = here
      by_entry (some (name, spec)) = ensure_resource-Discovers cluster _ _ name spec log

  scan_http_routes-Discovers :
      (prefix : Text) → Discovers (scan_http_routes cluster site cfg prefix)
  unfolding scan_http_routes
  scan_http_routes-Discovers prefix log =
      for_listed-Discovers list_http_routes (txt "list HTTPRoutes") (route_matches site cfg prefix)
        (process_http_route cluster site cfg) (cluster.http_routes log) lists_http_routes
        process_http_route-Discovers log

  scan_tcp_routes-Discovers : (prefix : Text) → Discovers (scan_tcp_routes cluster site cfg prefix)
  unfolding scan_tcp_routes
  scan_tcp_routes-Discovers prefix log =
      for_listed-Discovers list_tcp_routes (txt "list TCPRoutes") (route_matches site cfg prefix)
        (process_tcp_route cluster site cfg) (cluster.tcp_routes log) lists_tcp_routes
        process_tcp_route-Discovers log

  scan_services-Discovers : (prefix : Text) → Discovers (scan_services cluster site cfg prefix)
  unfolding scan_services
  scan_services-Discovers prefix log =
      for_listed-Discovers list_services (txt "list Services") (service_matches site prefix)
        (process_service cluster site cfg prefix) (cluster.services log) lists_services
        (process_service-Discovers prefix) log

  autodiscover_with-Discovers : Discovers (autodiscover_with cluster site (some cfg))
  autodiscover_with-Discovers =
      let prefix = annotation_prefix cfg in
      let http = when cfg.enable_route_discovery (scan_http_routes cluster site cfg prefix) in
      let tcp = when cfg.enable_tcp_route_discovery (scan_tcp_routes cluster site cfg prefix) in
      let services = when cfg.enable_service_discovery (scan_services cluster site cfg prefix) in
      then-Discovers (http >> tcp) services
        (then-Discovers http tcp
          (when-Discovers cfg.enable_route_discovery (scan_http_routes cluster site cfg prefix)
            (scan_http_routes-Discovers prefix))
          (when-Discovers cfg.enable_tcp_route_discovery (scan_tcp_routes cluster site cfg prefix)
            (scan_tcp_routes-Discovers prefix)))
        (when-Discovers cfg.enable_service_discovery (scan_services cluster site cfg prefix)
          (scan_services-Discovers prefix))

-- After reconcileAutodiscover the log is the log before with calls of discovery after it, whatever
-- the site's settings, the cluster and its errors: it calls nothing of Pangolin, changes no site,
-- secret or deployment, and deletes nothing.
pub reconcile_autodiscover-Discovered :
    (cluster : Cluster) (site : NewtSite) (log : List Call)
    → Discovered log (reconcile_autodiscover cluster site log).1
unfolding reconcile_autodiscover
reconcile_autodiscover-Discovered cluster site log = by_settings site.spec.auto_discover
  where
    by_settings :
        (cfg : Option AutoDiscoverSpec) → Discovered log (autodiscover_with cluster site cfg log).1
    by_settings none = here
    by_settings (some cfg) = autodiscover_with-Discovers cluster site cfg log
