-- ===== src/Discover/Specs/Address.antt =====
-- Where the target of an HTTPRoute points in BuildHTTPRouteSpec of
-- internal/autodiscover/autodiscover.go.
use pangolin_operator.Base.{
  Option, none, some, List, [], ◌∷◌, ◌++◌, ◌≡◌, ◌≢◌, ◌⊎◌, inl, inr, refl, sym, ap, ◌∙◌, arith,
  Bool-cases, Option-cases, true, false,
}
use pangolin_operator.Base.Exec.{ok}
use pangolin_operator.Base.Int.{ℤ, pos, ==ℤ_iff}
use pangolin_operator.Base.Text.{Text, txt, is_empty}
use pangolin_operator.Discover.Objects.{BackendObjectReference, Route}
use pangolin_operator.Discover.Specs.{
  http_route_target, gateway_hostname, first_backend, at_gateway, at_backend, first_of_first,
}
use pangolin_operator.Discover.Targets.{resolve_backend_ref, namespace_or}
use pangolin_operator.Types.Site.{AutoDiscoverSpec}

-- The configured host name of the gateway, or the name of its service in the cluster, and the
-- configured port, or 443.
pub record GatewayAddress (cfg : AutoDiscoverSpec) (host : Text) (port : ℤ) : Type 0 where
  pub hostname :
      ((cfg.gateway_target_hostname ≢ []) × (host ≡ cfg.gateway_target_hostname))
      ⊎ ((cfg.gateway_target_hostname ≡ [])
          × (cfg.gateway_namespace ≢ [])
          × (host ≡ cfg.gateway_name ++ b'.' ∷ cfg.gateway_namespace ++ txt ".svc.cluster.local"))
  pub number :
      ((cfg.gateway_target_port ≢ pos 0) × (port ≡ cfg.gateway_target_port))
      ⊎ ((cfg.gateway_target_port ≡ pos 0) × (port ≡ pos 443))

-- The service of the first backend of the first rule, in the backend's namespace or else the
-- route's, and the backend's port, or 80.
pub record BackendAddress (route : Route) (host : Text) (port : ℤ) : Type 0 where
  pub ref : BackendObjectReference
  pub others : List BackendObjectReference
  pub rules : List (List BackendObjectReference)
  pub first : route.rules ≡ (ref ∷ others) ∷ rules
  pub namespace : Text
  pub in_namespace :
      ((ref.namespace ≡ some namespace) × (namespace ≢ []))
      ⊎ (((ref.namespace ≡ none) ⊎ (ref.namespace ≡ some [])) × (namespace ≡ route.namespace))
  pub hostname : host ≡ ref.name ++ b'.' ∷ namespace ++ txt ".svc.cluster.local"
  pub number : (ref.port ≡ some port) ⊎ ((ref.port ≡ none) × (port ≡ pos 80))

-- At the gateway where the site names one, else at the backend.
abbrev pub Address : AutoDiscoverSpec → Route → Text → ℤ → Type 0
Address cfg route host port =
    ((cfg.gateway_name ≢ []) × GatewayAddress cfg host port)
    ⊎ ((cfg.gateway_name ≡ []) × BackendAddress route host port)

empty_of : (t : Text) → is_empty t ≡ true → t ≡ []
empty_of [] h = refl
empty_of (c ∷ t) h = cc

nonempty_of : (t : Text) → is_empty t ≡ false → t ≢ []
nonempty_of t h e = cc

module _ (cfg : AutoDiscoverSpec) (route : Route) (host : Text) (port : ℤ) (method : Text) where
  gateway-Address :
      at_gateway cfg (gateway_hostname cfg route) ≡ ok (host, port, method)
      → GatewayAddress cfg host port
  unfolding gateway_hostname
  gateway-Address h = record {
    hostname = elim (Bool-cases (is_empty cfg.gateway_target_hostname)) [
      | inl blank ↦ elim (Bool-cases (is_empty cfg.gateway_namespace)) [
        | inl nowhere ↦ ground arith
        | inr placed ↦ inr (
          empty_of cfg.gateway_target_hostname blank,
          nonempty_of cfg.gateway_namespace placed,
          ground arith,
        )
      ]
      | inr given ↦ inl (nonempty_of cfg.gateway_target_hostname given, ground arith)
    ];
    number = ground (arith, ==ℤ_iff cfg.gateway_target_port (pos 0));
  }

  in_namespace_of :
      (n : Option Text)
      → ((n ≡ some (namespace_or route.namespace n)) × (namespace_or route.namespace n ≢ []))
        ⊎ (((n ≡ none) ⊎ (n ≡ some [])) × (namespace_or route.namespace n ≡ route.namespace))
  in_namespace_of none = inr (inl refl, refl)
  in_namespace_of (some []) = inr (inr refl, refl)
  in_namespace_of (some (c ∷ t)) = inl (refl, λ e. cc)

  number_of :
      (ref : BackendObjectReference)
      → (resolve_backend_ref ref route.namespace (pos 80)).1 ≡ port
      → (ref.port ≡ some port) ⊎ ((ref.port ≡ none) × (port ≡ pos 80))
  unfolding resolve_backend_ref
  number_of ref h = elim (Option-cases ref.port) [
    | inl missing ↦ inr (missing, sym h ∙ rw missing refl)
    | inr (p, given) ↦ inl (given ∙ ap some (rw given at h))
  ]

  backend-Address :
      (rules : List (List BackendObjectReference))
      → route.rules ≡ rules
      → at_backend route (first_of_first rules) ≡ ok (host, port, method)
      → BackendAddress route host port
  unfolding resolve_backend_ref
  backend-Address [] e h = cc
  backend-Address ([] ∷ rules) e h = cc
  backend-Address ((ref ∷ others) ∷ rules) e h = record {
    ref = ref;
    others = others;
    rules = rules;
    first = e;
    namespace = namespace_or route.namespace ref.namespace;
    in_namespace = in_namespace_of ref.namespace;
    hostname = cc;
    number = number_of ref cc;
  }

  pub http_route_target-Address :
      http_route_target cfg route ≡ ok (host, port, method) → Address cfg route host port
  unfolding http_route_target first_backend
  http_route_target-Address = elim (Bool-cases (is_empty cfg.gateway_name)) [
    | inl blank ↦
        rw blank (λ h. inr (empty_of cfg.gateway_name blank, backend-Address route.rules refl h))
    | inr given ↦ rw given (λ h. inl (nonempty_of cfg.gateway_name given, gateway-Address h))
  ]
