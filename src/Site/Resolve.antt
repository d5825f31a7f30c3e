-- ===== src/Site/Resolve.antt =====
-- resolveSite, ReconcileHTTPRoute, ReconcileTCPRoute, ReconcileService and the event predicates of
-- internal/controller/newtsite/controller.go.
use pangolin_operator.Base.{
  Option, none, some, List, [], ◌∷◌, Bool, true, false, not, ◌&&◌, ◌||◌, if◌then◌else◌,
}
use pangolin_operator.Base.Errors.{is_kube_not_found}
use pangolin_operator.Base.Exec.{Result, ok, err, Outcome, done, retry}
use pangolin_operator.Base.Text.{Text, txt, text_eq, is_empty, has_suffix}
use pangolin_operator.Discover.Annotations.{Annotations, annotation_prefix, is_opt_out}
use pangolin_operator.Discover.Objects.{ParentReference, Route, Service}
use pangolin_operator.Discover.Targets.{route_references_gateway}
use pangolin_operator.Site.Discovery.{
  site_ref_of, process_http_route, process_tcp_route, process_service, delete_owned_resources,
}
use pangolin_operator.Site.Env.{
  Cluster, Call, list_sites, get_http_route, get_tcp_route, get_service,
}
use pangolin_operator.Types.Site.{NewtSite, AutoDiscoverSpec}

-- The site, its settings and its annotation prefix.
abbrev pub Resolved : Type 0
Resolved = NewtSite × AutoDiscoverSpec × Text

module _ (annotations : Annotations) (enabled gateway_match : AutoDiscoverSpec → Bool) where
  -- The tests of the loop of resolveSite, for a site with these settings.
  abbrev pub accepts : NewtSite → AutoDiscoverSpec → Bool
  accepts site cfg =
      enabled cfg
      && (text_eq (site_ref_of annotations (annotation_prefix cfg)) site.metadata.name
          || gateway_match cfg)

  abbrev pub accepted : NewtSite → Option AutoDiscoverSpec → Option Resolved
  accepted site none = none
  accepted site (some cfg) =
      if accepts site cfg then some (site, cfg, annotation_prefix cfg) else none

  abbrev pub or_else : Option Resolved → Option Resolved → Option Resolved
  or_else (some r) rest = some r
  or_else none rest = rest

  unfoldable pub first_accepting : List NewtSite → Option Resolved
  first_accepting [] = none
  first_accepting (site ∷ sites) =
      or_else (accepted site site.spec.auto_discover) (first_accepting sites)

  abbrev resolved : Result (List NewtSite) → Result (Option Resolved)
  resolved (err e) = err e
  resolved (ok sites) = ok (first_accepting sites)

  unfoldable pub resolve_site : Cluster → List Call → Result (Option Resolved) × List Call
  resolve_site cluster log = (resolved (cluster.sites log), list_sites ∷ log)

-- The match at the gateway of resolveSiteForHTTPRoute and resolveSiteForTCPRoute.
abbrev pub at_gateway_of : Route → AutoDiscoverSpec → Bool
at_gateway_of route cfg =
    not (is_empty cfg.gateway_name)
    && route_references_gateway route cfg.gateway_name cfg.gateway_namespace

unfoldable pub resolve_site_for_http_route :
    Cluster → Route → List Call → Result (Option Resolved) × List Call
resolve_site_for_http_route cluster route =
    resolve_site route.annotations (λ cfg. cfg.enable_route_discovery) (at_gateway_of route) cluster

unfoldable pub resolve_site_for_tcp_route :
    Cluster → Route → List Call → Result (Option Resolved) × List Call
resolve_site_for_tcp_route cluster route =
    resolve_site route.annotations (λ cfg. cfg.enable_tcp_route_discovery) (at_gateway_of route)
      cluster

unfoldable pub resolve_site_for_service :
    Cluster → Service → List Call → Result (Option Resolved) × List Call
resolve_site_for_service cluster svc =
    resolve_site svc.annotations (λ cfg. cfg.enable_service_discovery) (λ _. false) cluster

abbrev finished : Result (Unit {0}) × List Call → Outcome × List Call
finished (ok _, log) = (done, log)
finished (err e, log) = (retry e, log)

-- What the three handlers share: the object read, the site resolved, the test for opting out.
module _ {A : Type 0} (cluster : Cluster) (kind name : Text) (name_of : A → Text)
    (annotations_of : A → Annotations)
    (resolve : A → List Call → Result (Option Resolved) × List Call)
    (process : Resolved → A → List Call → Result (Unit {0}) × List Call) where
  abbrev after_resolve : A → Result (Option Resolved) × List Call → Outcome × List Call
  after_resolve x (err e, log) = (retry e, log)
  after_resolve x (ok none, log) = (done, log)
  after_resolve x (ok (some (site, cfg, prefix)), log) =
      if is_opt_out (annotations_of x) prefix
      then delete_owned_resources cluster kind (name_of x) log
      else finished (process (site, cfg, prefix) x log)

  abbrev after_read : Result A → List Call → Outcome × List Call
  after_read (err e) log =
      if is_kube_not_found e then delete_owned_resources cluster kind name log else (retry e, log)
  after_read (ok x) log = after_resolve x (resolve x log)

  unfoldable pub discover : Result A → List Call → Outcome × List Call
  discover r log = after_read r log

module _ (cluster : Cluster) (namespace name : Text) where
  unfoldable pub reconcile_http_route : List Call → Outcome × List Call
  reconcile_http_route log =
      discover cluster (txt "httproute") name (λ (route : Route). route.name)
        (λ (route : Route). route.annotations) (resolve_site_for_http_route cluster)
        (λ r. process_http_route cluster r.0 r.1) (cluster.http_route log namespace name)
        (get_http_route namespace name ∷ log)

  unfoldable pub reconcile_tcp_route : List Call → Outcome × List Call
  reconcile_tcp_route log =
      discover cluster (txt "tcproute") name (λ (route : Route). route.name)
        (λ (route : Route). route.annotations) (resolve_site_for_tcp_route cluster)
        (λ r. process_tcp_route cluster r.0 r.1) (cluster.tcp_route log namespace name)
        (get_tcp_route namespace name ∷ log)

  unfoldable pub reconcile_service : List Call → Outcome × List Call
  reconcile_service log =
      discover cluster (txt "service") name (λ (svc : Service). svc.name)
        (λ (svc : Service). svc.annotations) (resolve_site_for_service cluster)
        (λ r. process_service cluster r.0 r.1 r.2) (cluster.service log namespace name)
        (get_service namespace name ∷ log)

-- The event predicates.
unfoldable pub has_site_ref_annotation : Annotations → Bool
has_site_ref_annotation [] = false
has_site_ref_annotation ((k, _) ∷ rest) =
    if has_suffix k (txt "/site-ref") then true else has_site_ref_annotation rest

unfoldable pub has_parent_ref : List ParentReference → Bool
has_parent_ref [] = false
has_parent_ref (_ ∷ _) = true
