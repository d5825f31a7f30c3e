-- ===== src/Site/Scan/Plan.antt =====
-- An abstract scan for internal/controller/newtsite/controller.go: the PublicResources that the
-- listed routes ask for, as a list that no answer of the server changes.
use pangolin_operator.Base.{List, [], ◌∷◌, if◌then◌else◌}
use pangolin_operator.Base.Exec.{Result, ok, err}
use pangolin_operator.Base.Text.{Text, txt}
use pangolin_operator.Discover.Ensure.{Owner}
use pangolin_operator.Discover.Names.{hostname_to_resource_name}
use pangolin_operator.Discover.Objects.{Json, Route}
use pangolin_operator.Discover.Specs.{build_http_route_spec, build_tcp_route_spec}
use pangolin_operator.Site.Discovery.{owner_of}
use pangolin_operator.Site.Env.{Cluster, Run, ensure_resource}
use pangolin_operator.Site.Scan.{route_matches}
use pangolin_operator.Types.Public.{PublicResourceSpec}
use pangolin_operator.Types.Site.{NewtSite, AutoDiscoverSpec}
use pangolin_operator.Site.Scan.Runs.{flat_map}

-- A PublicResource that should exist.
pub record Wanted : Type 0 where
  pub owner : Owner
  pub namespace : Text
  pub name : Text
  pub spec : PublicResourceSpec

abbrev pub wanted_of : Owner → Text → Text → Result PublicResourceSpec → List Wanted
wanted_of owner namespace name (err _) = []
wanted_of owner namespace name (ok spec) =
    record { owner = owner; namespace = namespace; name = name; spec = spec } ∷ []

module _ (json : Json) (site : NewtSite) (cfg : AutoDiscoverSpec) where
  abbrev pub hostname_plan : Route → Text → List Wanted
  hostname_plan route host =
      wanted_of (owner_of site (txt "httproute") route.name) route.namespace
        (hostname_to_resource_name route.name host)
        (build_http_route_spec json route host route.annotations cfg site.metadata.name)

module _ (json : Json) (site : NewtSite) (cfg : AutoDiscoverSpec) (prefix : Text) where
  abbrev pub http_route_plan : Route → List Wanted
  http_route_plan route =
      if route_matches site cfg prefix route
      then flat_map (hostname_plan json site cfg route) route.hostnames
      else []

module _ (site : NewtSite) (cfg : AutoDiscoverSpec) (prefix : Text) where
  abbrev pub tcp_route_plan : Route → List Wanted
  tcp_route_plan route =
      if route_matches site cfg prefix route
      then wanted_of (owner_of site (txt "tcproute") route.name) route.namespace route.name
          (build_tcp_route_spec route route.annotations cfg site.metadata.name)
      else []

abbrev pub ensure_wanted : Cluster → Wanted → Run (Unit {0})
ensure_wanted cluster w = ensure_resource cluster w.owner w.namespace w.name w.spec
