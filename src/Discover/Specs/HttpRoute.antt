-- ===== src/Discover/Specs/HttpRoute.antt =====
-- What BuildHTTPRouteSpec of internal/autodiscover/autodiscover.go puts into a spec.
use pangolin_operator.Base.{some, [], ◌∷◌, ◌≡◌, ◌≢◌, inl, inr, refl, sym, All, arith, Option-cases}
use pangolin_operator.Base.Exec.{ok, Result-cases}
use pangolin_operator.Base.Text.{Text, txt}
use pangolin_operator.Discover.Annotations.{Annotations, Resolver, new_resolver, site_ref}
use pangolin_operator.Discover.Objects.{Json, Route}
use pangolin_operator.Discover.Rules.Acceptable.{Acceptable, build_rules-Acceptable}
use pangolin_operator.Discover.Specs.Address.{Address, http_route_target-Address}
use pangolin_operator.Discover.Specs.{
  build_http_spec, http_route_target, http_route_spec, build_http_route_spec,
}
use pangolin_operator.Discover.Targets.{build_target_extras}
use pangolin_operator.Types.Public.{PublicResourceSpec, PublicTargetSpec}
use pangolin_operator.Types.Site.{AutoDiscoverSpec}

-- A spec for a route: HTTP, under the host name, on a named site, with rules that pass the API's
-- validation and one target, at the gateway or the route's first backend.
pub record Serves (route : Route) (hostname : Text) (cfg : AutoDiscoverSpec)
    (spec : PublicResourceSpec) : Type 0 where
  pub protocol : spec.protocol ≡ txt "http"
  pub full_domain : spec.full_domain ≡ hostname
  pub site_ref : spec.site_ref ≢ []
  pub rules : All Acceptable spec.rules
  pub target : PublicTargetSpec
  pub only_target : spec.targets ≡ target ∷ []
  pub address : Address cfg route target.hostname target.port

ok_injective : {a b : PublicResourceSpec} → ok a ≡ ok b → a ≡ b
ok_injective h = cc

site_ref_ne : (r : Resolver) (fallback site : Text) → site_ref r fallback ≡ some site → site ≢ []
unfolding site_ref
site_ref_ne r fallback site h = ground arith

module _ (json : Json) (route : Route) (hostname : Text) (annotations : Annotations)
    (cfg : AutoDiscoverSpec) (fallback : Text) where
  abbrev resolver : Resolver
  resolver = new_resolver annotations cfg

  target-Serves :
      (site : Text) (spec : PublicResourceSpec)
      → site ≢ []
      → http_route_spec json resolver route hostname site (http_route_target cfg route) ≡ ok spec
      → Serves route hostname cfg spec
  unfolding build_http_spec new_resolver build_target_extras
  target-Serves site spec ne h = elim (Result-cases (http_route_target cfg route)) [
    | inl ((host, port, default_method), found) ↦
        let same = ok_injective (rw found at h) in
        rw (sym same) (record {
          protocol = refl;
          full_domain = refl;
          site_ref = ne;
          rules = build_rules-Acceptable json annotations _ cfg;
          target = _;
          only_target = refl;
          address = http_route_target-Address cfg route host port default_method found;
        })
    | inr (e, failed) ↦ cc (rw failed at h)
  ]

  -- A spec that BuildHTTPRouteSpec returns is an HTTP spec with the given host name, a named site,
  -- rules that pass the API's validation of a rule, and one target. Where the settings name a gateway,
  -- the target has the configured host name, or else that of the gateway's service, and the
  -- configured port, or else 443. Otherwise it has the name of the service of the first backend of
  -- the first rule, in the backend's namespace or else the route's, and its port, or else 80.
  pub build_http_route_spec-Serves :
      (spec : PublicResourceSpec)
      → build_http_route_spec json route hostname annotations cfg fallback ≡ ok spec
      → Serves route hostname cfg spec
  unfolding build_http_route_spec new_resolver
  build_http_route_spec-Serves spec h = elim (Option-cases (site_ref resolver fallback)) [
    | inl missing ↦ cc (rw missing at h)
    | inr (site, found) ↦
        target-Serves site spec (site_ref_ne resolver fallback site found) (rw found at h)
  ]
