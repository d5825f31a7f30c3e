-- ===== src/Discover/Services.antt =====
-- selectPort, serviceProtocol, BuildAllPortSpecs and BuildSinglePortSpec of
-- internal/autodiscover/autodiscover.go.
pub mod Selection
pub mod AllPorts
use pangolin_operator.Base.{
  Option, none, some, List, [], ◌∷◌, ◌++◌, Bool, true, false, ◌||◌, if◌then◌else◌,
}
use pangolin_operator.Base.Int.{ℤ}
use pangolin_operator.Base.Text.{Text, txt, text_eq, is_empty, lookup, insert, trim_space, itoa}
use pangolin_operator.Discover.Annotations.{
  Annotations, Resolver, key_of, new_resolver, get, name, method, protocol,
}
use pangolin_operator.Discover.Names.{hostname_to_resource_name, service_resource_name}
use pangolin_operator.Discover.Objects.{Json, Service, ServicePort}
use pangolin_operator.Discover.Specs.{plain_target, target_extras, build_http_spec, build_tcp_spec}
use pangolin_operator.Types.Public.{PublicResourceSpec}
use pangolin_operator.Types.Site.{AutoDiscoverSpec}

unfoldable pub service_protocol : Text → Text
service_protocol p = if text_eq p (txt "UDP") then txt "udp" else txt "tcp"

-- The first port with this number or name.
unfoldable pub port_called : Text → List ServicePort → Option ServicePort
port_called v [] = none
port_called v (p ∷ ps) =
    let rest = port_called v ps in
    if text_eq (itoa p.port) v || text_eq p.name v then some p else rest

unfoldable pub port_named : Text → List ServicePort → Option ServicePort
port_named v [] = none
port_named v (p ∷ ps) = let rest = port_named v ps in if text_eq p.name v then some p else rest

unfoldable pub default_port : List ServicePort → Option ServicePort
unfolding port_named
default_port (p ∷ []) = some p
default_port ps = port_named (txt "http") ps

abbrev select_by : Option Text → List ServicePort → Option ServicePort
select_by none ps = default_port ps
select_by (some v) ps = port_called (trim_space v) ps

-- `none` for false
unfoldable pub select_port : Service → Annotations → Text → Option ServicePort
unfolding port_called default_port
select_port svc annotations prefix =
    select_by (lookup (key_of prefix (txt "port")) annotations) svc.ports

abbrev pub port_label : ServicePort → Text
port_label p = if is_empty p.name then itoa p.port else p.name

abbrev pub display_name : Service → ServicePort → Text
display_name svc p = svc.name ++ b'-' ∷ port_label p

abbrev pub all_ports_entry :
    Resolver → Service → Text → Text → ServicePort → Text × PublicResourceSpec
all_ports_entry r svc site hostname p = (
  service_resource_name svc.namespace svc.name (itoa p.port) (service_protocol p.protocol),
  build_tcp_spec r site (display_name svc p) (service_protocol p.protocol) p.port
      (plain_target hostname p.port []),
)

-- The map that the loop fills.
unfoldable pub fill_all_ports :
    Resolver
    → Service
    → Text
    → Text
    → List ServicePort
    → List (Text × PublicResourceSpec)
    → List (Text × PublicResourceSpec)
fill_all_ports r svc site hostname [] out = out
fill_all_ports r svc site hostname (p ∷ ps) out =
    let (key, spec) = all_ports_entry r svc site hostname p in
    fill_all_ports r svc site hostname ps (insert key spec out)

unfoldable pub build_all_port_specs :
    Service → Annotations → AutoDiscoverSpec → Text → Text → List (Text × PublicResourceSpec)
unfolding fill_all_ports
build_all_port_specs svc annotations cfg site hostname =
    fill_all_ports (new_resolver annotations cfg) svc site hostname svc.ports []

module _ (json : Json) where
  abbrev single_port_spec :
      Resolver → Service → Text → Text → ServicePort → Text × PublicResourceSpec
  single_port_spec r svc site hostname p =
      let full_domain = trim_space (get r (txt "full-domain")) in
      let shown = name r (display_name svc p) in
      let proto = protocol r (service_protocol p.protocol) in
      if is_empty full_domain
      then (
        service_resource_name svc.namespace svc.name (itoa p.port) proto,
        build_tcp_spec r site shown proto p.port (plain_target hostname p.port []),
      )
      else (
        hostname_to_resource_name svc.name full_domain,
        build_http_spec json r site shown full_domain
            (target_extras r (plain_target hostname p.port (method r (txt "http")))),
      )

  abbrev single_port_at :
      Resolver → Service → Text → Text → Option ServicePort → Option (Text × PublicResourceSpec)
  single_port_at r svc site hostname none = none
  single_port_at r svc site hostname (some p) = some (single_port_spec r svc site hostname p)

  -- `none` for ok = false
  unfoldable pub build_single_port_spec :
      Service → Annotations → AutoDiscoverSpec → Text → Text → Option (Text × PublicResourceSpec)
  build_single_port_spec svc annotations cfg site hostname =
      let r = new_resolver annotations cfg in
      single_port_at r svc site hostname (select_port svc annotations r.prefix)
