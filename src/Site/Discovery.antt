-- ===== src/Site/Discovery.antt =====
-- processHTTPRoute, processTCPRoute, processService and deleteOwnedResources of
-- internal/controller/newtsite/controller.go.
use pangolin_operator.Base.{Option, none, some, List, [], ◌∷◌, ◌++◌, Bool, not, ◌&&◌, if◌then◌else◌}
use pangolin_operator.Base.Errors.{Error, is_kube_not_found}
use pangolin_operator.Base.Exec.{Result, ok, err, Outcome, done, retry, wrap_result}
use pangolin_operator.Base.Text.{Text, txt, is_empty, lookup, or_zero}
use pangolin_operator.Discover.Annotations.{Annotations, key_of, resolve_all_ports}
use pangolin_operator.Discover.Ensure.{Owner}
use pangolin_operator.Discover.Names.{hostname_to_resource_name}
use pangolin_operator.Discover.Objects.{Route, Service}
use pangolin_operator.Discover.Services.{build_all_port_specs, build_single_port_spec}
use pangolin_operator.Discover.Specs.{build_http_route_spec, build_tcp_route_spec}
use pangolin_operator.Site.Env.{
  Cluster, Call, list_owned, delete_public, Run, for_each, join_errors, ensure_resource,
}
use pangolin_operator.Types.Public.{PublicResource, PublicResourceSpec}
use pangolin_operator.Types.Site.{NewtSite, AutoDiscoverSpec}

-- The owner that EnsureHTTPRouteResource and its like record: a site, a kind and an object's name.
abbrev pub owner_of : NewtSite → Text → Text → Owner
owner_of site kind name = record {
  site_name = site.metadata.name;
  site_uid = site.metadata.uid;
  kind = kind;
  name = name;
}

-- annotations[prefix+"/site-ref"], empty where it is missing
abbrev pub site_ref_of : Annotations → Text → Text
site_ref_of annotations prefix = or_zero (lookup (key_of prefix (txt "site-ref")) annotations)

abbrev pub service_hostname : Service → Text
service_hostname svc = svc.name ++ b'.' ∷ svc.namespace ++ txt ".svc.cluster.local"

abbrev pub all_ports_of : AutoDiscoverSpec → Text → Service → Bool
all_ports_of cfg prefix svc =
    is_empty (or_zero (lookup (key_of prefix (txt "full-domain")) svc.annotations))
    && resolve_all_ports svc.annotations prefix cfg

module _ (cluster : Cluster) where
  abbrev pub ensure_hostname_spec :
      NewtSite → Route → Text → Result PublicResourceSpec → Run (Unit {0})
  ensure_hostname_spec site route host (err _) log = (ok tt, log)
  ensure_hostname_spec site route host (ok spec) log =
      let (r, log') =
        ensure_resource cluster (owner_of site (txt "httproute") route.name) route.namespace
          (hostname_to_resource_name route.name host) spec log in
      (wrap_result (txt "ensure PublicResource for HTTPRoute hostname " ++ host) r, log')

  -- The loop body of processHTTPRoute: a spec that cannot be built is skipped.
  unfoldable pub ensure_hostname : NewtSite → AutoDiscoverSpec → Route → Text → Run (Unit {0})
  ensure_hostname site cfg route host =
      ensure_hostname_spec site route host
        (build_http_route_spec cluster.json route host route.annotations cfg site.metadata.name)

  unfoldable pub process_http_route : NewtSite → AutoDiscoverSpec → Route → Run (Unit {0})
  process_http_route site cfg route log =
      join_errors (for_each (ensure_hostname site cfg route) route.hostnames log)

  abbrev pub ensure_tcp_spec : NewtSite → Route → Result PublicResourceSpec → Run (Unit {0})
  ensure_tcp_spec site route (err _) log = (ok tt, log)
  ensure_tcp_spec site route (ok spec) log =
      let (r, log') =
        ensure_resource cluster (owner_of site (txt "tcproute") route.name) route.namespace
          route.name spec log in
      (wrap_result (txt "ensure PublicResource for TCPRoute " ++ route.name) r, log')

  unfoldable pub process_tcp_route : NewtSite → AutoDiscoverSpec → Route → Run (Unit {0})
  process_tcp_route site cfg route =
      ensure_tcp_spec site route
        (build_tcp_route_spec route route.annotations cfg site.metadata.name)

  abbrev pub ensure_service_resource :
      NewtSite → Service → Text → Text × PublicResourceSpec → Run (Unit {0})
  ensure_service_resource site svc what (res_name, spec) log =
      let (r, log') =
        ensure_resource cluster (owner_of site (txt "service") svc.name) svc.namespace res_name spec
          log in
      (wrap_result (what ++ res_name) r, log')

  abbrev pub ensure_single :
      NewtSite → Service → Option (Text × PublicResourceSpec) → Run (Unit {0})
  ensure_single site svc none log = (ok tt, log)
  ensure_single site svc (some entry) log =
      ensure_service_resource site svc (txt "ensure PublicResource for Service ") entry log

  unfoldable pub process_service : NewtSite → AutoDiscoverSpec → Text → Service → Run (Unit {0})
  process_service site cfg prefix svc log =
      let site_ref = site_ref_of svc.annotations prefix in
      if not cfg.enable_service_discovery
      then (ok tt, log)
      else if is_empty site_ref
      then (ok tt, log)
      else if all_ports_of cfg prefix svc
      then join_errors (
          for_each
            (ensure_service_resource site svc (txt "ensure PublicResource for Service port "))
            (cluster.map_order log
              (build_all_port_specs svc svc.annotations cfg site_ref (service_hostname svc)))
            log)
      else ensure_single site svc
          (build_single_port_spec cluster.json svc svc.annotations cfg site_ref
            (service_hostname svc))
          log

  -- deleteOwnedResources: the first deletion that fails ends the loop.
  abbrev failed_delete : Result (Unit {0}) → Option Error
  failed_delete (ok _) = none
  failed_delete (err e) = if is_kube_not_found e then none else some e

  unfoldable pub delete_all : List PublicResource → List Call → Option Error × List Call
  delete_all [] log = (none, log)
  delete_all (r ∷ rs) log =
      let rest = delete_all rs (delete_public r ∷ log) in
      elim (failed_delete (cluster.delete log r)) [
        | some e ↦ (some e, delete_public r ∷ log)
        | none ↦ rest
      ]

  abbrev pub deleted : Option Error × List Call → Outcome × List Call
  deleted (none, log) = (done, log)
  deleted (some e, log) = (retry e, log)

  abbrev delete_listed : Result (List PublicResource) → List Call → Outcome × List Call
  delete_listed (err e) log = (retry e, log)
  delete_listed (ok rs) log = deleted (delete_all rs log)

  unfoldable pub delete_owned_resources : Text → Text → List Call → Outcome × List Call
  delete_owned_resources kind name log =
      delete_listed (cluster.owned log kind name) (list_owned kind name ∷ log)
