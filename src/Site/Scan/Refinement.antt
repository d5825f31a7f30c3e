-- ===== src/Site/Scan/Refinement.antt =====
-- scanHTTPRoutes and scanTCPRoutes of internal/controller/newtsite/controller.go against the plan of
-- Site.Scan.Plan.
use mathlib.Core.Path.{◌∙◌}
use pangolin_operator.Base.{List, ◌∷◌, ◌≡◌, refl, inl, inr}
use pangolin_operator.Base.Exec.{ok, Result-cases}
use pangolin_operator.Base.Text.{Text, txt}
use pangolin_operator.Discover.Objects.{Route}
use pangolin_operator.Discover.Specs.{build_http_route_spec, build_tcp_route_spec}
use pangolin_operator.Site.Discovery.{
  owner_of, ensure_hostname, process_http_route, process_tcp_route,
}
use pangolin_operator.Site.Env.{Cluster, Call, list_http_routes, list_tcp_routes}
use pangolin_operator.Site.Scan.{route_matches, scan_http_routes, scan_tcp_routes}
use pangolin_operator.Types.Site.{NewtSite, AutoDiscoverSpec}
use pangolin_operator.Site.Scan.Runs.{
  flat_map, seen, all_run, seen-for_each, all_run-flat_map, seen_wrapped, seen-only_if,
}
use pangolin_operator.Site.Scan.Plan.{
  wanted_of, hostname_plan, http_route_plan, tcp_route_plan, ensure_wanted,
}

module _ (cluster : Cluster) (site : NewtSite) (cfg : AutoDiscoverSpec) (prefix : Text) where
  ensure_hostname-plan :
      (route : Route) (host : Text) (log : List Call)
      → seen (ensure_hostname cluster site cfg route host log)
        ≡ all_run (ensure_wanted cluster) (hostname_plan cluster.json site cfg route host) log
  unfolding ensure_hostname
  ensure_hostname-plan route host log =
      elim (Result-cases
        (build_http_route_spec cluster.json route host route.annotations cfg site.metadata.name)) [
          | inl (spec, e) ↦ rw e (seen_wrapped _ _)
          | inr (e, h) ↦ rw h refl
        ]

  process_http_route-plan :
      (route : Route) (log : List Call)
      → seen (process_http_route cluster site cfg route log)
        ≡ all_run
            (ensure_wanted cluster)
            (flat_map (hostname_plan cluster.json site cfg route) route.hostnames)
            log
  unfolding process_http_route
  process_http_route-plan route log =
      seen-for_each (ensure_hostname cluster site cfg route) route.hostnames log
      ∙ all_run-flat_map (ensure_hostname cluster site cfg route) (ensure_wanted cluster)
          (hostname_plan cluster.json site cfg route) (ensure_hostname-plan route) route.hostnames
          log

  process_tcp_route-plan :
      (route : Route) (log : List Call)
      → seen (process_tcp_route cluster site cfg route log)
        ≡ all_run
            (ensure_wanted cluster)
            (wanted_of
              (owner_of site (txt "tcproute") route.name)
              route.namespace
              route.name
              (build_tcp_route_spec route route.annotations cfg site.metadata.name))
            log
  unfolding process_tcp_route
  process_tcp_route-plan route log =
      elim (Result-cases (build_tcp_route_spec route route.annotations cfg site.metadata.name)) [
        | inl (spec, e) ↦ rw e (seen_wrapped _ _)
        | inr (e, h) ↦ rw h refl
      ]

  -- When the cluster lists its HTTPRoutes, scanHTTPRoutes makes the calls of ensuring, one after the
  -- other and whichever of them fail, the PublicResources of the plan: one for each host name with a
  -- spec of each route that matches, in the order of the lists. It succeeds where all of them do.
  pub scan_http_routes-Plan :
      (routes : List Route) (log : List Call)
      → cluster.http_routes log ≡ ok routes
      → seen (scan_http_routes cluster site cfg prefix log)
        ≡ all_run
            (ensure_wanted cluster)
            (flat_map (http_route_plan cluster.json site cfg prefix) routes)
            (list_http_routes ∷ log)
  unfolding scan_http_routes
  scan_http_routes-Plan routes log listed = rw listed (
      seen-for_each _ routes (list_http_routes ∷ log)
      ∙ all_run-flat_map _ (ensure_wanted cluster) (http_route_plan cluster.json site cfg prefix)
          (λ route log'.
            seen-only_if (route_matches site cfg prefix) (process_http_route cluster site cfg)
              (ensure_wanted cluster)
              (λ r. flat_map (hostname_plan cluster.json site cfg r) r.hostnames) route log'
              (process_http_route-plan route log'))
          routes (list_http_routes ∷ log))

  -- When the cluster lists its TCPRoutes, scanTCPRoutes makes the calls of ensuring, one after the
  -- other and whichever of them fail, the PublicResources of the plan: one for each route that
  -- matches and has a spec, in the order of the list. It succeeds where all of them do.
  pub scan_tcp_routes-Plan :
      (routes : List Route) (log : List Call)
      → cluster.tcp_routes log ≡ ok routes
      → seen (scan_tcp_routes cluster site cfg prefix log)
        ≡ all_run
            (ensure_wanted cluster)
            (flat_map (tcp_route_plan site cfg prefix) routes)
            (list_tcp_routes ∷ log)
  unfolding scan_tcp_routes
  scan_tcp_routes-Plan routes log listed = rw listed (
      seen-for_each _ routes (list_tcp_routes ∷ log)
      ∙ all_run-flat_map _ (ensure_wanted cluster) (tcp_route_plan site cfg prefix)
          (λ route log'.
            seen-only_if (route_matches site cfg prefix) (process_tcp_route cluster site cfg)
              (ensure_wanted cluster)
              (λ r.
                wanted_of (owner_of site (txt "tcproute") r.name) r.namespace r.name
                  (build_tcp_route_spec r r.annotations cfg site.metadata.name))
              route log' (process_tcp_route-plan route log'))
          routes (list_tcp_routes ∷ log))
