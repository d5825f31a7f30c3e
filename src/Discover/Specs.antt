-- ===== src/Discover/Specs.antt =====
-- buildHTTPSpec, buildTCPSpec, BuildHTTPRouteSpec and BuildTCPRouteSpec of
-- internal/autodiscover/autodiscover.go.
pub mod Address
pub mod HttpRoute
use pangolin_operator.Base.{
  Option, none, some, List, [], ◌∷◌, ◌++◌, Bool, true, false, if◌then◌else◌,
}
use pangolin_operator.Base.Errors.{Error, plain}
use pangolin_operator.Base.Exec.{Result, ok, err}
use pangolin_operator.Base.Int.{ℤ, pos, ◌==ℤ◌}
use pangolin_operator.Base.Text.{Text, txt, is_empty}
use pangolin_operator.Discover.Annotations.{
  Annotations, Resolver, new_resolver, get, enabled, name, site_ref, ssl, method, tls_server_name,
  proxy_port,
}
use pangolin_operator.Discover.Auth.{build_auth}
use pangolin_operator.Discover.Objects.{BackendObjectReference, Json, Route}
use pangolin_operator.Discover.Rules.{build_headers, build_rules, build_maintenance}
use pangolin_operator.Discover.Targets.{build_target_extras, cluster_hostname, resolve_backend_ref}
use pangolin_operator.Types.Public.{PublicTargetSpec, PublicResourceSpec}
use pangolin_operator.Types.Site.{AutoDiscoverSpec}

-- A target of which only these fields are given.
abbrev pub plain_target : Text → ℤ → Text → PublicTargetSpec
plain_target hostname port method = record {
  hostname = hostname;
  port = port;
  method = method;
  enabled = none;
  path = [];
  path_match_type = [];
  rewrite_path = [];
  rewrite_path_type = [];
  priority = pos 0;
  healthcheck = none;
}

abbrev pub target_extras : Resolver → PublicTargetSpec → PublicTargetSpec
target_extras r base = build_target_extras base r.annotations r.prefix

unfoldable pub build_tcp_spec :
    Resolver → Text → Text → Text → ℤ → PublicTargetSpec → PublicResourceSpec
build_tcp_spec r site name protocol proxy_port target = record {
  site_ref = site;
  name = name;
  protocol = protocol;
  full_domain = [];
  proxy_port = proxy_port;
  enabled = enabled r;
  ssl = false;
  host_header = [];
  tls_server_name = [];
  headers = [];
  auth = none;
  maintenance = none;
  rules = [];
  targets = target ∷ [];
}

-- The first backendRef of the first rule.
abbrev pub first_of_first : List (List BackendObjectReference) → Option BackendObjectReference
first_of_first [] = none
first_of_first ([] ∷ _) = none
first_of_first ((ref ∷ _) ∷ _) = some ref

unfoldable pub first_backend : Route → Option BackendObjectReference
first_backend route = first_of_first route.rules

abbrev described : Text → Route → Text
described kind route = kind ++ b' ' ∷ route.namespace ++ b'/' ∷ route.name

abbrev no_site_ref : Resolver → Text → Route → Error
no_site_ref r kind route =
    plain (txt "annotation " ++ r.prefix ++ txt "/site-ref is required on " ++ described kind route)

-- The host, port and default method of the target of an HTTPRoute.
unfoldable pub gateway_hostname : AutoDiscoverSpec → Route → Result Text
gateway_hostname cfg route =
    if is_empty cfg.gateway_target_hostname
    then (if is_empty cfg.gateway_namespace
        then err (
            plain (
              txt "autoDiscover.gatewayNamespace is required to derive gateway target hostname ("
              ++ described (txt "HTTPRoute") route
              ++ txt ")"))
        else ok (cluster_hostname cfg.gateway_name cfg.gateway_namespace))
    else ok cfg.gateway_target_hostname

abbrev port_default : ℤ → ℤ → ℤ
port_default def p = if p ==ℤ pos 0 then def else p

abbrev text_default : Text → Text → Text
text_default def t = if is_empty t then def else t

abbrev pub at_gateway : AutoDiscoverSpec → Result Text → Result (Text × ℤ × Text)
at_gateway cfg (err e) = err e
at_gateway cfg (ok hostname) = ok (
  hostname,
  port_default (pos 443) cfg.gateway_target_port,
  text_default (txt "https") cfg.gateway_target_method,
)

abbrev pub at_backend : Route → Option BackendObjectReference → Result (Text × ℤ × Text)
at_backend route none = err (plain (described (txt "HTTPRoute") route ++ txt " has no backendRefs"))
at_backend route (some ref) =
    let (hostname, port) = resolve_backend_ref ref route.namespace (pos 80) in
    ok (hostname, port, txt "http")

unfoldable pub http_route_target : AutoDiscoverSpec → Route → Result (Text × ℤ × Text)
unfolding gateway_hostname first_backend
http_route_target cfg route =
    if is_empty cfg.gateway_name
    then at_backend route (first_backend route)
    else at_gateway cfg (gateway_hostname cfg route)

module _ (json : Json) where
  unfoldable pub build_http_spec :
      Resolver → Text → Text → Text → PublicTargetSpec → PublicResourceSpec
  build_http_spec r site name hostname target = record {
    site_ref = site;
    name = name;
    protocol = txt "http";
    full_domain = hostname;
    proxy_port = pos 0;
    enabled = enabled r;
    ssl = ssl r;
    host_header = get r (txt "host-header");
    tls_server_name = tls_server_name r hostname;
    headers = build_headers json r.annotations r.prefix;
    auth = build_auth r.annotations r.prefix r.cfg;
    maintenance = build_maintenance r.annotations r.prefix;
    rules = build_rules json r.annotations r.prefix r.cfg;
    targets = target ∷ [];
  }

  abbrev pub http_route_spec :
      Resolver → Route → Text → Text → Result (Text × ℤ × Text) → Result PublicResourceSpec
  http_route_spec r route hostname site (err e) = err e
  http_route_spec r route hostname site (ok (target_hostname, target_port, target_method)) = ok (
      build_http_spec r site (name r route.name) hostname
        (target_extras r (plain_target target_hostname target_port (method r target_method))))

  abbrev http_route_at : Resolver → Route → Text → Option Text → Result PublicResourceSpec
  http_route_at r route hostname none = err (no_site_ref r (txt "HTTPRoute") route)
  http_route_at r route hostname (some site) =
      http_route_spec r route hostname site (http_route_target r.cfg route)

  unfoldable pub build_http_route_spec :
      Route → Text → Annotations → AutoDiscoverSpec → Text → Result PublicResourceSpec
  build_http_route_spec route hostname annotations cfg site_ref_fallback =
      let r = new_resolver annotations cfg in
      http_route_at r route hostname (site_ref r site_ref_fallback)

abbrev tcp_route_spec :
    Resolver → Route → Text → Option BackendObjectReference → Result PublicResourceSpec
tcp_route_spec r route site none =
    err (plain (described (txt "TCPRoute") route ++ txt " has no backendRefs"))
tcp_route_spec r route site (some ref) =
    let (hostname, port) = resolve_backend_ref ref route.namespace (pos 0) in
    ok (
      build_tcp_spec r site (name r route.name) (txt "tcp") (proxy_port r port)
        (plain_target hostname port []))

abbrev tcp_route_at : Resolver → Route → Option Text → Result PublicResourceSpec
tcp_route_at r route none = err (no_site_ref r (txt "TCPRoute") route)
tcp_route_at r route (some site) = tcp_route_spec r route site (first_backend route)

unfoldable pub build_tcp_route_spec :
    Route → Annotations → AutoDiscoverSpec → Text → Result PublicResourceSpec
build_tcp_route_spec route annotations cfg site_ref_fallback =
    let r = new_resolver annotations cfg in tcp_route_at r route (site_ref r site_ref_fallback)
