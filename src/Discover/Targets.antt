-- ===== src/Discover/Targets.antt =====
-- buildTargetExtras, resolveBackendRef and parentRefsMatch of internal/autodiscover/autodiscover.go.
pub mod Parents
pub mod Extras
use pangolin_operator.Base.{
  Option, none, some, List, [], ◌∷◌, ◌++◌, Bool, true, false, not, ◌&&◌, ◌||◌, if◌then◌else◌,
}
use pangolin_operator.Base.Int.{ℤ, pos}
use pangolin_operator.Base.Text.{Text, txt, text_eq, is_empty, lookup, or_zero, trim_space, atoi}
use pangolin_operator.Discover.Annotations.{Annotations, key_of, is_truthy, between, number_or}
use pangolin_operator.Discover.Objects.{ParentReference, BackendObjectReference, Route}
use pangolin_operator.Types.Public.{PublicTargetSpec}

abbrev pub one_of : Text → List Text → Bool
one_of v [] = false
one_of v (w ∷ ws) = text_eq v w || one_of v ws

abbrev pub path_match_types : List Text
path_match_types = txt "prefix" ∷ txt "exact" ∷ txt "regex" ∷ []

abbrev pub rewrite_path_types : List Text
rewrite_path_types = txt "exact" ∷ txt "prefix" ∷ txt "regex" ∷ txt "stripPrefix" ∷ []

-- `if v != "" { field = v }`
abbrev set_text : Text → Text → Text
set_text old v = if is_empty v then old else v

-- `if v != "" { switch v { case …: field = v } }`; no listed text is empty.
abbrev pub set_choice : List Text → Text → Text → Text
set_choice choices old v = if is_empty v then old else if one_of v choices then v else old

abbrev set_number : (ℤ → Bool) → ℤ → Text → ℤ
set_number valid old v = if is_empty v then old else number_or valid old (atoi v)

abbrev set_flag : Option Bool → Text → Option Bool
set_flag old v = if is_empty v then old else some (is_truthy v)

unfoldable pub build_target_extras : PublicTargetSpec → Annotations → Text → PublicTargetSpec
build_target_extras base annotations prefix =
    let read = λ (key : Text). trim_space (or_zero (lookup (key_of prefix key) annotations)) in
    record base {
      path = set_text base.path (read (txt "target-path"));
      path_match_type =
          set_choice path_match_types base.path_match_type (read (txt "target-path-match"));
      rewrite_path = set_text base.rewrite_path (read (txt "target-rewrite-path"));
      rewrite_path_type =
          set_choice rewrite_path_types base.rewrite_path_type (read (txt "target-rewrite-match"));
      priority =
          set_number (between (pos 1) (pos 1000)) base.priority (read (txt "target-priority"));
      enabled = set_flag base.enabled (read (txt "target-enabled"));
    }

-- `name.namespace.svc.cluster.local`
abbrev pub cluster_hostname : Text → Text → Text
cluster_hostname name namespace = name ++ b'.' ∷ namespace ++ txt ".svc.cluster.local"

abbrev pub namespace_or : Text → Option Text → Text
namespace_or def none = def
namespace_or def (some ns) = if is_empty ns then def else ns

abbrev port_or : ℤ → Option ℤ → ℤ
port_or def none = def
port_or def (some p) = p

unfoldable pub resolve_backend_ref : BackendObjectReference → Text → ℤ → Text × ℤ
resolve_backend_ref ref route_namespace default_port = (
  cluster_hostname ref.name (namespace_or route_namespace ref.namespace),
  port_or default_port ref.port,
)

abbrev pub other_namespace : Text → Option Text → Bool
other_namespace wanted none = false
other_namespace wanted (some ns) = not (is_empty wanted) && not (text_eq ns wanted)

unfoldable pub parent_refs_match : List ParentReference → Text → Text → Bool
parent_refs_match [] gateway_name gateway_namespace = false
parent_refs_match (parent ∷ refs) gateway_name gateway_namespace =
    let rest = parent_refs_match refs gateway_name gateway_namespace in
    if not (text_eq parent.name gateway_name)
    then rest
    else if other_namespace gateway_namespace parent.namespace
    then rest
    else true

-- RouteReferencesGateway and TCPRouteReferencesGateway
unfoldable pub route_references_gateway : Route → Text → Text → Bool
unfolding parent_refs_match
route_references_gateway route gateway_name gateway_namespace =
    parent_refs_match route.parent_refs gateway_name gateway_namespace
