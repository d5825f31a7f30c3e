-- ===== src/Discover/Targets/Parents.antt =====
-- parentRefsMatch of internal/autodiscover/autodiscover.go.
use pangolin_operator.Base.{
  Option, none, some, List, [], ◌∷◌, Bool, true, false, not, ◌≡◌, ◌↔◌, ◌⊎◌, inl, inr, refl, In,
  arith, Bool-cases, ◌&&◌, if◌then◌else◌,
}
use mathlib.Core.Path.{subst}
use pangolin_operator.Base.Text.{Text, text_eq, text_eq_iff}
use pangolin_operator.Discover.Objects.{ParentReference, Route}
use pangolin_operator.Discover.Targets.{
  parent_refs_match, route_references_gateway, other_namespace,
}

-- A parent reference to the gateway: its name, and its namespace unless the reference or the
-- configuration leaves that open.
pub record IsGateway (gateway_name gateway_namespace : Text) (parent : ParentReference)
    : Type 0 where
  pub same_name : parent.name ≡ gateway_name
  pub same_namespace :
      (gateway_namespace ≡ [])
      ⊎ ((parent.namespace ≡ none) ⊎ (parent.namespace ≡ some gateway_namespace))

module _ (gateway_name gateway_namespace : Text) where
  same_namespace_iff :
      (namespace : Option Text)
      → (other_namespace gateway_namespace namespace ≡ false)
        ↔ ((gateway_namespace ≡ []) ⊎ ((namespace ≡ none) ⊎ (namespace ≡ some gateway_namespace)))
  same_namespace_iff none = (λ _. inr (inl refl), λ _. refl)
  same_namespace_iff (some ns) = go gateway_namespace
    where
      go :
          (wanted : Text)
          → (other_namespace wanted (some ns) ≡ false)
            ↔ ((wanted ≡ []) ⊎ ((some ns ≡ none) ⊎ (some ns ≡ some wanted)))
      go [] = (λ _. inl refl, λ _. refl)
      go (c ∷ t) = ground (arith, text_eq_iff ns (c ∷ t))

  matches : ParentReference → Bool
  matches parent =
      text_eq parent.name gateway_name && not (other_namespace gateway_namespace parent.namespace)

  matches_iff :
      (parent : ParentReference)
      → (matches parent ≡ true) ↔ IsGateway gateway_name gateway_namespace parent
  unfolding matches
  matches_iff parent = (
    λ h. record {
      same_name = (text_eq_iff parent.name gateway_name).0 (ground arith);
      same_namespace = (same_namespace_iff parent.namespace).0 (ground arith);
    },
    λ g. ground (
      arith,
      (text_eq_iff parent.name gateway_name).1 g.same_name,
      (same_namespace_iff parent.namespace).1 g.same_namespace,
    ),
  )

  parent_refs_match-cons :
      (parent : ParentReference) (refs : List ParentReference)
      → parent_refs_match (parent ∷ refs) gateway_name gateway_namespace
        ≡ (if matches parent then true else parent_refs_match refs gateway_name gateway_namespace)
  unfolding matches parent_refs_match
  parent_refs_match-cons parent refs = ground arith

  -- A route belongs to the gateway exactly where one of its parent references names it, by its name
  -- and by its namespace, unless the reference or the configuration gives no namespace.
  pub route_references_gateway_iff :
      (route : Route)
      → (route_references_gateway route gateway_name gateway_namespace ≡ true) ↔ (
          (parent : ParentReference) × In parent route.parent_refs
          × IsGateway gateway_name gateway_namespace parent)
  unfolding route_references_gateway parent_refs_match
  route_references_gateway_iff route = go route.parent_refs
    where
      go :
          (refs : List ParentReference)
          → (parent_refs_match refs gateway_name gateway_namespace ≡ true) ↔ (
              (parent : ParentReference) × In parent refs
              × IsGateway gateway_name gateway_namespace parent)
      go [] = (λ h. cc, λ (p, m, g). absurd m)
      go (p ∷ refs) = rw (parent_refs_match-cons p refs) (elim (Bool-cases (matches p)) [
        | inl hit ↦ rw hit (λ _. (p, inl refl, (matches_iff p).0 hit), λ _. refl)
        | inr miss ↦ rw miss (
          λ h. (let (q, m, g) = (go refs).0 h in (q, inr m, g)),
          λ (q, m, g). elim m [
            | inl e ↦
                cc (miss, (matches_iff p).1 (subst (IsGateway gateway_name gateway_namespace) e g))
            | inr n ↦ (go refs).1 (q, n, g)
          ],
        )
      ])
