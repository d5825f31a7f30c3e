-- ===== src/Site/First.antt =====
-- The loop of resolveSite in internal/controller/newtsite/controller.go: which site it settles on.
use mathlib.Core.Path.{subst}
use pangolin_operator.Base.{
  Option, none, some, List, [], ◌∷◌, ◌++◌, ◌≡◌, ◌≢◌, ◌↔◌, ◌⊎◌, inl, inr, refl, sym, ap, In, not,
  if◌then◌else◌, Bool, true, Bool-cases, and_split, arith,
}
use pangolin_operator.Base.Exec.{ok}
use pangolin_operator.Base.Text.{Text, txt, text_eq, text_eq_iff, is_empty, lookup, or_zero}
use pangolin_operator.Discover.Annotations.{Annotations, annotation_prefix}
use pangolin_operator.Discover.Objects.{ParentReference, Route}
use pangolin_operator.Discover.Targets.Parents.{IsGateway, route_references_gateway_iff}
use pangolin_operator.Site.Discovery.{site_ref_of}
use pangolin_operator.Site.Env.{Cluster, Call}
use pangolin_operator.Site.Resolve.{
  Resolved, accepts, accepted, at_gateway_of, first_accepting, resolve_site,
  resolve_site_for_http_route,
}
use pangolin_operator.Types.Site.{NewtSite, AutoDiscoverSpec}

some_injective : {A : Type 0} {a b : A} → some a ≡ some b → a ≡ b
some_injective h = cc

-- A prefix that is left empty is the operator's.
abbrev pub prefix_or_default : Text → Text
prefix_or_default [] = txt "pangolin-operator"
prefix_or_default (c ∷ prefix) = c ∷ prefix

abbrev pub prefix_of : AutoDiscoverSpec → Text
prefix_of cfg = prefix_or_default cfg.annotation_prefix

annotation_prefix-eq-prefix_of : (cfg : AutoDiscoverSpec) → annotation_prefix cfg ≡ prefix_of cfg
unfolding annotation_prefix
annotation_prefix-eq-prefix_of cfg = by_text cfg.annotation_prefix
  where
    by_text : (t : Text) → (if is_empty t then txt "pangolin-operator" else t) ≡ prefix_or_default t
    by_text [] = refl
    by_text (c ∷ t) = refl

-- The first of the sites that claims the object, with its settings and its prefix.
pub data FirstClaiming (Claims : NewtSite → AutoDiscoverSpec → Type 0)
    : List NewtSite → Resolved → Type 0 where
  found :
      {site : NewtSite} {sites : List NewtSite} {cfg : AutoDiscoverSpec}
      → site.spec.auto_discover ≡ some cfg
      → Claims site cfg
      → FirstClaiming Claims (site ∷ sites) (site, cfg, prefix_of cfg)
  passed :
      {site : NewtSite} {sites : List NewtSite} {r : Resolved}
      → ((cfg : AutoDiscoverSpec) → site.spec.auto_discover ≡ some cfg → ¬ Claims site cfg)
      → FirstClaiming Claims sites r
      → FirstClaiming Claims (site ∷ sites) r

module _ (annotations : Annotations) (enabled gateway_match : AutoDiscoverSpec → Bool)
    (Claims : NewtSite → AutoDiscoverSpec → Type 0)
    (claims_iff : (site : NewtSite) (cfg : AutoDiscoverSpec)
      → (accepts annotations enabled gateway_match site cfg ≡ true) ↔ Claims site cfg) where
  accepted-cases :
      (site : NewtSite) (d : Option AutoDiscoverSpec)
      → ((accepted annotations enabled gateway_match site d ≡ none)
          × ((cfg : AutoDiscoverSpec) → d ≡ some cfg → ¬ Claims site cfg))
        ⊎ ((cfg : AutoDiscoverSpec) × (d ≡ some cfg)
            × Claims site cfg
            × (accepted annotations enabled gateway_match site d ≡ some (site, cfg, prefix_of cfg)))
  accepted-cases site none = inl (refl, λ cfg h. cc)
  accepted-cases site (some cfg) =
      elim (Bool-cases (accepts annotations enabled gateway_match site cfg)) [
        | inl yes_ ↦ inr (
          cfg,
          refl,
          (claims_iff site cfg).0 yes_,
          rw yes_ (ap (λ (x : Text). some (site, cfg, x)) (annotation_prefix-eq-prefix_of cfg)),
        )
        | inr no_ ↦ inl (
          rw no_ refl,
          λ c h k.
              cc (no_, (claims_iff site cfg).1 (subst (Claims site) (sym (some_injective h)) k)),
        )
      ]

  accepted_of :
      (site : NewtSite) (d : Option AutoDiscoverSpec) (cfg : AutoDiscoverSpec)
      → d ≡ some cfg
      → Claims site cfg
      → accepted annotations enabled gateway_match site d ≡ some (site, cfg, prefix_of cfg)
  accepted_of site d cfg h k =
      rw (h, (claims_iff site cfg).1 k)
        (ap (λ (x : Text). some (site, cfg, x)) (annotation_prefix-eq-prefix_of cfg))

  accepted_of_refusal :
      (site : NewtSite) (d : Option AutoDiscoverSpec)
      → ((cfg : AutoDiscoverSpec) → d ≡ some cfg → ¬ Claims site cfg)
      → accepted annotations enabled gateway_match site d ≡ none
  accepted_of_refusal site d h = elim (accepted-cases site d) [
    | inl (e, _) ↦ e
    | inr (cfg, e, k, _) ↦ absurd (h cfg e k)
  ]

  first_accepting-First :
      (sites : List NewtSite) (r : Resolved)
      → first_accepting annotations enabled gateway_match sites ≡ some r
      → FirstClaiming Claims sites r
  unfolding first_accepting
  first_accepting-First [] r = λ h. cc
  first_accepting-First (site ∷ sites) r = elim (accepted-cases site site.spec.auto_discover) [
    | inl (e, refuses) ↦ rw e (λ h. passed refuses (first_accepting-First sites r h))
    | inr (cfg, d, k, e) ↦
        rw e (λ h. subst (FirstClaiming Claims (site ∷ sites)) (some_injective h) (found d k))
  ]

  first_accepting_of_First :
      (sites : List NewtSite) (r : Resolved)
      → FirstClaiming Claims sites r
      → first_accepting annotations enabled gateway_match sites ≡ some r
  unfolding first_accepting
  first_accepting_of_First _ _ (found {site} {sites} {cfg} d k) =
      rw (accepted_of site site.spec.auto_discover cfg d k) refl
  first_accepting_of_First _ _ (passed {site} {sites} {r} refuses rest) =
      rw (accepted_of_refusal site site.spec.auto_discover refuses)
        (first_accepting_of_First sites r rest)

  resolve_site_iff :
      (cluster : Cluster) (log : List Call) (sites : List NewtSite) (r : Resolved)
      → cluster.sites log ≡ ok sites
      → ((resolve_site annotations enabled gateway_match cluster log).0 ≡ ok (some r))
        ↔ FirstClaiming Claims sites r
  unfolding resolve_site
  resolve_site_iff cluster log sites r listed =
      rw listed
        (λ h. first_accepting-First sites r cc, λ f. ap ok (first_accepting_of_First sites r f))

-- The annotation of the object for the site, under the prefix of the site's settings.
abbrev pub Names : Annotations → NewtSite → AutoDiscoverSpec → Type 0
Names annotations site cfg =
    (lookup (prefix_of cfg ++ txt "/site-ref") annotations ≡ some site.metadata.name)
    ⊎ ((lookup (prefix_of cfg ++ txt "/site-ref") annotations ≡ none) × (site.metadata.name ≡ []))

-- The route refers to the gateway of the site's settings.
abbrev pub IsAtGateway : Route → AutoDiscoverSpec → Type 0
IsAtGateway route cfg =
    (cfg.gateway_name ≢ [])
    × ((parent : ParentReference) × In parent route.parent_refs
        × IsGateway cfg.gateway_name cfg.gateway_namespace parent)

or_zero_iff :
    (o : Option Text) (name : Text)
    → (or_zero o ≡ name) ↔ ((o ≡ some name) ⊎ ((o ≡ none) × (name ≡ [])))
or_zero_iff none name = (λ h. inr (refl, sym h), λ m. elim m [ inl e ↦ cc | inr (_, e) ↦ sym e ])
or_zero_iff (some v) name =
    (λ h. inl (ap some h), λ m. elim m [ inl e ↦ some_injective e | inr (e, _) ↦ cc ])

nonempty_iff : (t : Text) → (not (is_empty t) ≡ true) ↔ (t ≢ [])
nonempty_iff [] = (λ h. cc, λ h. absurd (h refl))
nonempty_iff (c ∷ t) = (λ _ e. cc, λ _. refl)

site_ref_of-Names :
    (annotations : Annotations) (site : NewtSite) (cfg : AutoDiscoverSpec)
    → (site_ref_of annotations (annotation_prefix cfg) ≡ site.metadata.name)
      ↔ Names annotations site cfg
site_ref_of-Names annotations site cfg =
    rw (annotation_prefix-eq-prefix_of cfg)
      (or_zero_iff (lookup (prefix_of cfg ++ txt "/site-ref") annotations) site.metadata.name)

at_gateway_of_iff :
    (route : Route) (cfg : AutoDiscoverSpec)
    → (at_gateway_of route cfg ≡ true) ↔ IsAtGateway route cfg
at_gateway_of_iff route cfg =
    let (to, from) = route_references_gateway_iff cfg.gateway_name cfg.gateway_namespace route in
    (
      λ h. ((nonempty_iff cfg.gateway_name).0 (and_split _ _ h).0, to (and_split _ _ h).1),
      λ (given, parent). ground (arith, (nonempty_iff cfg.gateway_name).1 given, from parent),
    )

accepts_iff :
    (route : Route) (enabled : AutoDiscoverSpec → Bool) (site : NewtSite) (cfg : AutoDiscoverSpec)
    → (accepts route.annotations enabled (at_gateway_of route) site cfg ≡ true)
      ↔ ((enabled cfg ≡ true) × (Names route.annotations site cfg ⊎ IsAtGateway route cfg))
accepts_iff route enabled site cfg =
    let same =
      text_eq_iff (site_ref_of route.annotations (annotation_prefix cfg)) site.metadata.name in
    let named = site_ref_of-Names route.annotations site cfg in
    (
      λ h. (
        (and_split _ _ h).0,
        elim (Bool-cases
            (text_eq (site_ref_of route.annotations (annotation_prefix cfg)) site.metadata.name)) [
              | inl yes_ ↦ inl (named.0 (same.0 yes_))
              | inr no_ ↦ inr ((at_gateway_of_iff route cfg).0 (ground arith))
            ],
      ),
      λ (on, k). elim k [
        | inl m ↦ ground (arith, same.1 (named.1 m))
        | inr g ↦ ground (arith, (at_gateway_of_iff route cfg).1 g)
      ],
    )

-- For a list of sites that the server answers, the site that an HTTPRoute is resolved to, with its
-- settings and its prefix, is the first of the list that has discovery settings in which routes are
-- enabled, and that the route's annotation site-ref names under the settings' prefix (or the
-- operator's where that is empty), or whose gateway, if one is given, the route has as a parent.
pub resolve_site_for_http_route_iff :
    (cluster : Cluster) (route : Route) (log : List Call) (sites : List NewtSite) (r : Resolved)
    → cluster.sites log ≡ ok sites
    → ((resolve_site_for_http_route cluster route log).0 ≡ ok (some r))
      ↔ FirstClaiming
          (λ site cfg.
            (cfg.enable_route_discovery ≡ true)
            × (Names route.annotations site cfg ⊎ IsAtGateway route cfg))
          sites
          r
unfolding resolve_site_for_http_route
resolve_site_for_http_route_iff cluster route log sites r listed =
    resolve_site_iff route.annotations (λ cfg. cfg.enable_route_discovery) (at_gateway_of route) _
      (accepts_iff route (λ cfg. cfg.enable_route_discovery)) cluster log sites r listed
