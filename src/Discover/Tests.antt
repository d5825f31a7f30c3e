-- ===== src/Discover/Tests.antt =====
-- Tests of the discovery of PublicResources on concrete objects.
use pangolin_operator.Base.{
  ℕ, none, some, List, [], ◌∷◌, ◌≡◌, ◌≢◌, ◌↔◌, ◌⊎◌, inl, inr, refl, sym, ◌∙◌, false, true, arith,
  In, All,
}
use pangolin_operator.Base.Exec.{Result, ok}
use pangolin_operator.Base.Int.{ℤ, pos}
use pangolin_operator.Base.Text.{
  Text, txt, text_eq, text_eq_iff, lookup, trim_space, is_space, itoa,
}
use pangolin_operator.Discover.Annotations.{
  Annotations, Resolver, annotation_prefix, new_resolver, name, method, site_ref, split_csv,
}
use pangolin_operator.Discover.Annotations.Csv.{IsEntry, joined, split_csv-joined}
use pangolin_operator.Discover.Ensure.{
  Call, Server, Owner, new_resource, needs_patch, has_owner_labels, ensure_owned_public_resource,
}
use pangolin_operator.Discover.Ensure.Written.{
  IsKept, IsCreated, IsPatched, ensure_owned_public_resource_lem,
}
use pangolin_operator.Discover.Names.{hostname_to_resource_name}
use pangolin_operator.Discover.Names.Collisions.{hostname_to_resource_name_confuses}
use pangolin_operator.Discover.Objects.{Json, ParentReference, Route, ServicePort, Service}
use pangolin_operator.Discover.Rules.{build_rules}
use pangolin_operator.Discover.Rules.Acceptable.{Acceptable, build_rules-Acceptable}
use pangolin_operator.Discover.Services.{service_protocol, build_all_port_specs}
use pangolin_operator.Discover.Services.AllPorts.{
  IsTransport, HasEntry, resource_name, transport_of, Unambiguous, build_all_port_specs_complete,
}
use pangolin_operator.Discover.Specs.{
  plain_target, build_http_spec, build_http_route_spec, http_route_target, gateway_hostname,
  first_backend,
}
use pangolin_operator.Discover.Specs.HttpRoute.{Serves, build_http_route_spec-Serves}
use pangolin_operator.Discover.Targets.{
  build_target_extras, resolve_backend_ref, route_references_gateway,
}
use pangolin_operator.Discover.Targets.Parents.{IsGateway, route_references_gateway_iff}
use pangolin_operator.Types.Meta.{label_owner_kind}
use pangolin_operator.Types.Public.{
  PublicAuthSpec, PublicResource, PublicResourceSpec, PublicRuleSpec,
}
use pangolin_operator.Types.Site.{AutoDiscoverSpec}

-- A server with one object, which answers a patch with its own default for a field.
abbrev server : PublicResource → Server
server stored = record {
  get = λ _ _ _. ok stored;
  create = λ _ o. ok o;
  patch = λ _ _ o. ok (record o { spec = record o.spec { ssl = true } });
}

abbrev rule : Text → ℤ → PublicRuleSpec
rule action priority = record {
  action = action;
  match_kind = txt "cidr";
  value = txt "10.0.0.0/8";
  priority = priority;
}

-- A decoder that always reads a rule that is valid and one that is not.
abbrev json : Json
json = record {
  decode_headers = λ _. none;
  decode_rules = λ _. some (rule (txt "ACCEPT") (pos 1) ∷ rule (txt "ALLOW") (pos 2) ∷ []);
  encode_spec = λ spec. spec.name;
}

abbrev owner : Owner
owner = record {
  site_name = txt "home";
  site_uid = txt "u-1";
  kind = txt "HTTPRoute";
  name = txt "web";
}

abbrev spec : PublicResourceSpec
spec = record {
  site_ref = txt "home";
  name = txt "web";
  protocol = txt "http";
  full_domain = txt "web.example.com";
  proxy_port = pos 0;
  enabled = true;
  ssl = true;
  host_header = [];
  tls_server_name = [];
  headers = [];
  auth = none;
  maintenance = none;
  rules = [];
  targets = plain_target (txt "a") (pos 80) (txt "http") ∷ [];
}

-- The resource of another owner's making, with a label of a user.
abbrev stored : PublicResource
stored = record (new_resource owner (txt "default") (txt "web") spec) {
  metadata = record (new_resource owner (txt "default") (txt "web") spec).metadata {
    labels = some ((txt "team", txt "infra") ∷ (label_owner_kind, txt "Service") ∷ []);
  };
}

abbrev after_ensure : Result (Unit {0}) × List Call
after_ensure =
    ensure_owned_public_resource json (server stored) owner (txt "default") (txt "web") spec []

ensure_owned_public_resource_example :
    IsKept json (server stored) owner (txt "default") (txt "web") spec [] after_ensure.1
    ⊎ (IsCreated json (server stored) owner (txt "default") (txt "web") spec [] after_ensure.1
        ⊎ IsPatched json (server stored) owner (txt "default") (txt "web") spec [] after_ensure.1)
unfolding ensure_owned_public_resource needs_patch has_owner_labels lookup text_eq
ensure_owned_public_resource_example =
    ensure_owned_public_resource_lem json (server stored) owner (txt "default") (txt "web") spec []
      refl

abbrev cfg : AutoDiscoverSpec
cfg = record {
  annotation_prefix = [];
  gateway_name = [];
  gateway_namespace = [];
  gateway_target_hostname = [];
  gateway_target_port = pos 0;
  gateway_target_method = [];
  enable_route_discovery = true;
  enable_service_discovery = true;
  enable_tcp_route_discovery = false;
  all_ports = false;
  ssl = true;
  deny_countries = txt "XX, YY";
  auth_sso_roles = txt "Admin";
  auth_sso_users = [];
  auth_sso_idp = pos 3;
  auth_whitelist_users = txt "a@example.com";
}

abbrev annotations : Annotations
annotations =
    (txt "pangolin-operator/rules", txt "[]")
    ∷ (txt "pangolin-operator/port", txt "8080")
    ∷ (txt "pangolin-operator/target-priority", txt "7")
    ∷ (txt "pangolin-operator/proxy-port", txt "70000")
    ∷ []

abbrev resolver : Resolver
resolver = new_resolver annotations cfg

abbrev prefix : Text
prefix = txt "pangolin-operator"

build_rules-Acceptable_example : All Acceptable (build_rules json annotations prefix cfg)
build_rules-Acceptable_example = build_rules-Acceptable json annotations prefix cfg

letter-IsEntry : (c : ℕ) → is_space c ≡ false → c ≢ b',' → IsEntry (c ∷ [])
unfolding trim_space
letter-IsEntry c plain other = record {
  nonempty = λ h. cc;
  trimmed = rw plain (rw plain refl);
  no_comma = λ m. elim m [ inl e ↦ other (sym e) | inr n ↦ n ];
}

split_csv-joined_example :
    split_csv (joined ((b'a' ∷ []) ∷ (b'b' ∷ []) ∷ [])) ≡ (b'a' ∷ []) ∷ (b'b' ∷ []) ∷ []
split_csv-joined_example =
    split_csv-joined ((b'a' ∷ []) ∷ (b'b' ∷ []) ∷ [])
      (letter-IsEntry b'a' refl (omega arith), (letter-IsEntry b'b' refl (omega arith), tt))

abbrev route : Route
route = record {
  name = txt "web";
  namespace = txt "default";
  annotations = annotations;
  parent_refs = record { name = txt "gw"; namespace = none } ∷ [];
  hostnames = txt "web.example.com" ∷ [];
  rules = (record { name = txt "web"; namespace = none; port = some (pos 8080) } ∷ []) ∷ [];
}

route_references_gateway_iff_example :
    (route_references_gateway route (txt "gw") (txt "net") ≡ true) ↔ (
      (parent : ParentReference) × In parent route.parent_refs
      × IsGateway (txt "gw") (txt "net") parent)
route_references_gateway_iff_example = route_references_gateway_iff (txt "gw") (txt "net") route

hostname_to_resource_name_confuses_example :
    hostname_to_resource_name (txt "web") (txt "a.b.com")
    ≡ hostname_to_resource_name (txt "web") (txt "a-b.com")
hostname_to_resource_name_confuses_example =
    hostname_to_resource_name_confuses (txt "web") (txt "a") (txt "b.com")

abbrev http_port : ServicePort
http_port = record { name = txt "web"; port = pos 8080; protocol = txt "TCP" }

abbrev metrics_port : ServicePort
metrics_port = record { name = txt "metrics"; port = pos 9090; protocol = txt "TCP" }

abbrev service : Service
service = record {
  name = txt "web";
  namespace = txt "default";
  annotations = annotations;
  ports = metrics_port ∷ http_port ∷ [];
}

keys_differ :
    resource_name service metrics_port (txt "tcp") ≢ resource_name service http_port (txt "tcp")
unfolding itoa text_eq
keys_differ h = cc (
    (text_eq_iff (resource_name service metrics_port (txt "tcp"))
        (resource_name service http_port (txt "tcp"))).1
      h)

tcp_of : (a : Text) → IsTransport (txt "TCP") a → a ≡ txt "tcp"
unfolding service_protocol text_eq
tcp_of a h = sym (transport_of (txt "TCP") a h)

service-Unambiguous : Unambiguous service
service-Unambiguous p q a b (inl m) (inl n) ta tb same = m ∙ sym n
service-Unambiguous p q a b (inr (inl m)) (inr (inl n)) ta tb same = m ∙ sym n
service-Unambiguous p q a b (inl m) (inr (inl n)) ta tb same =
    absurd (keys_differ (rw (m, n, tcp_of a (rw m at ta), tcp_of b (rw n at tb)) at same))
service-Unambiguous p q a b (inr (inl m)) (inl n) ta tb same =
    absurd (keys_differ (sym (rw (m, n, tcp_of a (rw m at ta), tcp_of b (rw n at tb)) at same)))
service-Unambiguous p q a b (inr (inr k)) m ta tb same = absurd k
service-Unambiguous p q a b (inl m) (inr (inr k)) ta tb same = absurd k
service-Unambiguous p q a b (inr (inl m)) (inr (inr k)) ta tb same = absurd k

build_all_port_specs_complete_example :
    HasEntry service
      (txt "home")
      (txt "web.default")
      http_port
      (build_all_port_specs service annotations cfg (txt "home") (txt "web.default"))
build_all_port_specs_complete_example =
    build_all_port_specs_complete service annotations cfg (txt "home") (txt "web.default") http_port
      service-Unambiguous (inr (inl refl))

abbrev whitelist_only : PublicAuthSpec
whitelist_only = record {
  sso_enabled = false;
  sso_roles = [];
  sso_users = [];
  whitelist_users = txt "a@example.com" ∷ [];
  auto_login_idp = pos 0;
  auth_secret_ref = [];
}

build_http_route_spec-Serves_example : Serves route (txt "web.example.com") cfg (
    build_http_spec json resolver (txt "home") (txt "web") (txt "web.example.com") (
      build_target_extras
        (plain_target (txt "web.default.svc.cluster.local") (pos 8080) (txt "http"))
        annotations
        prefix))
unfolding build_http_route_spec http_route_target gateway_hostname first_backend resolve_backend_ref
    name method site_ref new_resolver annotation_prefix lookup text_eq
build_http_route_spec-Serves_example =
    build_http_route_spec-Serves json route (txt "web.example.com") annotations cfg (txt "home")
      (build_http_spec json resolver (txt "home") (txt "web") (txt "web.example.com") (
        build_target_extras
          (plain_target (txt "web.default.svc.cluster.local") (pos 8080) (txt "http")) annotations
          prefix))
      refl
