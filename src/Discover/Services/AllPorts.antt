-- ===== src/Discover/Services/AllPorts.antt =====
-- BuildAllPortSpecs of internal/autodiscover/autodiscover.go.
use pangolin_operator.Base.{
  some, List, [], ◌∷◌, ◌++◌, ◌≡◌, ◌≢◌, ◌⊎◌, inl, inr, refl, sym, ap, ◌∙◌, In, Bool-cases, arith,
  if◌then◌else◌,
}
use pangolin_operator.Base.Text.{
  Text, txt, itoa, is_empty, text_eq, text_eq_iff, text_eq_refl, lookup, insert, lookup-insert,
}
use pangolin_operator.Discover.Annotations.{Annotations, Resolver, new_resolver}
use pangolin_operator.Discover.Objects.{Service, ServicePort}
use pangolin_operator.Discover.Names.{service_resource_name}
use pangolin_operator.Discover.Services.{
  all_ports_entry, fill_all_ports, build_all_port_specs, display_name, service_protocol,
}
use pangolin_operator.Discover.Specs.{build_tcp_spec}
use pangolin_operator.Types.Public.{PublicResourceSpec, PublicTargetSpec}
use pangolin_operator.Types.Site.{AutoDiscoverSpec}

-- The transport of a protocol: UDP is udp, all else tcp.
abbrev pub IsTransport : Text → Text → Type 0
IsTransport protocol transport =
    ((protocol ≡ txt "UDP") × (transport ≡ txt "udp"))
    ⊎ ((protocol ≢ txt "UDP") × (transport ≡ txt "tcp"))

-- The name of the resource of a port.
abbrev pub resource_name : Service → ServicePort → Text → Text
resource_name svc p transport =
    svc.namespace ++ b'-' ∷ svc.name ++ b'-' ∷ itoa p.port ++ b'-' ∷ transport

-- No two ports claim one resource name.
abbrev pub Unambiguous : Service → Type 0
Unambiguous svc =
    (p q : ServicePort) (a b : Text)
    → In p svc.ports
    → In q svc.ports
    → IsTransport p.protocol a
    → IsTransport q.protocol b
    → resource_name svc p a ≡ resource_name svc q b
    → p ≡ q

-- The map has an entry for the port: under its resource name a spec for the site with the port's
-- transport and number, called after the service and the port, and one target.
pub record HasEntry (svc : Service) (site hostname : Text) (p : ServicePort)
    (specs : List (Text × PublicResourceSpec)) : Type 0 where
  pub transport : Text
  pub of_protocol : IsTransport p.protocol transport
  pub spec : PublicResourceSpec
  pub entry : lookup (resource_name svc p transport) specs ≡ some spec
  pub site_ref : spec.site_ref ≡ site
  pub protocol : spec.protocol ≡ transport
  pub proxy_port : spec.proxy_port ≡ p.port
  pub full_domain : spec.full_domain ≡ []
  pub called :
      ((p.name ≢ []) × (spec.name ≡ svc.name ++ b'-' ∷ p.name))
      ⊎ ((p.name ≡ []) × (spec.name ≡ svc.name ++ b'-' ∷ itoa p.port))
  pub target : PublicTargetSpec
  pub only_target : spec.targets ≡ target ∷ []
  pub target_hostname : target.hostname ≡ hostname
  pub target_port : target.port ≡ p.port

service_protocol-IsTransport : (protocol : Text) → IsTransport protocol (service_protocol protocol)
unfolding service_protocol
service_protocol-IsTransport protocol = ground (arith, text_eq_iff protocol (txt "UDP"))

pub transport_of :
    (protocol transport : Text)
    → IsTransport protocol transport
    → service_protocol protocol ≡ transport
unfolding service_protocol
transport_of protocol transport h = ground (arith, text_eq_iff protocol (txt "UDP"))

label_of :
    (svc : Service) (p : ServicePort)
    → ((p.name ≢ []) × (display_name svc p ≡ svc.name ++ b'-' ∷ p.name))
      ⊎ ((p.name ≡ []) × (display_name svc p ≡ svc.name ++ b'-' ∷ itoa p.port))
label_of svc p = by_name p.name
  where
    by_name :
        (n : Text)
        → ((n ≢ [])
            × (svc.name ++ b'-' ∷ (if is_empty n then itoa p.port else n) ≡ svc.name ++ b'-' ∷ n))
          ⊎ ((n ≡ [])
              × (svc.name ++ b'-' ∷ (if is_empty n then itoa p.port else n)
                  ≡ svc.name ++ b'-' ∷ itoa p.port))
    by_name [] = inr (refl, refl)
    by_name (c ∷ n) = inl ((λ e. cc), refl)

module _ (r : Resolver) (svc : Service) (site hostname : Text) where
  abbrev entry : ServicePort → Text × PublicResourceSpec
  entry p = all_ports_entry r svc site hostname p

  fill-keeps :
      (key : Text) (spec : PublicResourceSpec) (ps : List ServicePort)
      (out : List (Text × PublicResourceSpec))
      → ((q : ServicePort) → In q ps → (entry q).0 ≡ key → (entry q).1 ≡ spec)
      → lookup key out ≡ some spec
      → lookup key (fill_all_ports r svc site hostname ps out) ≡ some spec
  unfolding fill_all_ports
  fill-keeps key spec [] out agree h = h
  fill-keeps key spec (q ∷ ps) out agree h =
      fill-keeps key spec ps (insert (entry q).0 (entry q).1 out) (λ x m. agree x (inr m))
        (lookup-insert (entry q).0 key (entry q).1 out
          ∙ elim (Bool-cases (text_eq (entry q).0 key)) [
            | inl same ↦
                rw same (ap some (agree q (inl refl) ((text_eq_iff (entry q).0 key).0 same)))
            | inr other ↦ rw other h
          ])

  fill-has :
      (p : ServicePort) (ps : List ServicePort) (out : List (Text × PublicResourceSpec))
      → In p ps
      → ((q : ServicePort) → In q ps → (entry q).0 ≡ (entry p).0 → (entry q).1 ≡ (entry p).1)
      → lookup (entry p).0 (fill_all_ports r svc site hostname ps out) ≡ some (entry p).1
  unfolding fill_all_ports
  fill-has p [] out m agree = absurd m
  fill-has p (q ∷ ps) out (inl same) agree =
      fill-keeps (entry p).0 (entry p).1 ps (insert (entry q).0 (entry q).1 out)
        (λ x n. agree x (inr n))
        (rw (sym same) (
          lookup-insert (entry p).0 (entry p).0 (entry p).1 out
          ∙ rw (text_eq_refl (entry p).0) refl))
  fill-has p (q ∷ ps) out (inr m) agree =
      fill-has p ps (insert (entry q).0 (entry q).1 out) m (λ x n. agree x (inr n))

  fill-HasEntry :
      (p : ServicePort)
      → Unambiguous svc
      → In p svc.ports
      → HasEntry svc site hostname p (fill_all_ports r svc site hostname svc.ports [])
  unfolding service_resource_name build_tcp_spec
  fill-HasEntry p clear m = record {
    transport = service_protocol p.protocol;
    of_protocol = service_protocol-IsTransport p.protocol;
    spec = (entry p).1;
    entry = fill-has p svc.ports [] m (λ q n same.
        ap (λ (x : ServicePort). (entry x).1)
          (clear q p (service_protocol q.protocol) (service_protocol p.protocol) n m
            (service_protocol-IsTransport q.protocol) (service_protocol-IsTransport p.protocol)
            same));
    site_ref = refl;
    protocol = refl;
    proxy_port = refl;
    full_domain = refl;
    called = label_of svc p;
    target = _;
    only_target = refl;
    target_hostname = refl;
    target_port = refl;
  }

-- Where no two ports of the service claim one resource name, BuildAllPortSpecs has an entry for
-- every port: under the name made of the service's namespace and name, the port and its transport
-- (udp for UDP, else tcp), a spec for the site with that transport and that proxy port, without a
-- full domain, called after the service and the port's name or else number, and with one target, at
-- the given host name and that port.
pub build_all_port_specs_complete :
    (svc : Service) (annotations : Annotations) (cfg : AutoDiscoverSpec) (site hostname : Text)
    (p : ServicePort)
    → Unambiguous svc
    → In p svc.ports
    → HasEntry svc site hostname p (build_all_port_specs svc annotations cfg site hostname)
unfolding build_all_port_specs
build_all_port_specs_complete svc annotations cfg site hostname p clear m =
    fill-HasEntry (new_resolver annotations cfg) svc site hostname p clear m
