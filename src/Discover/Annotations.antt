-- ===== src/Discover/Annotations.antt =====
-- Reading annotations in internal/autodiscover/autodiscover.go: annotationPrefix, IsOptOut, IsOptIn,
-- isTruthy, splitCSV and the methods of annotationResolver.
pub mod Csv
pub mod Choices
use pangolin_operator.Base.{
  ℕ, Option, none, some, List, [], ◌∷◌, ◌++◌, Bool, true, false, ◌&&◌, ◌||◌, not, if◌then◌else◌,
}
use pangolin_operator.Base.Int.{ℤ, pos, leb_ℤ}
use pangolin_operator.Base.Text.{
  Text, txt, text_eq, is_empty, lookup, or_zero, trim_space, to_lower, split_on, atoi,
}
use pangolin_operator.Types.Site.{AutoDiscoverSpec}

abbrev pub default_annotation_prefix : Text
default_annotation_prefix = txt "pangolin-operator"

unfoldable pub annotation_prefix : AutoDiscoverSpec → Text
annotation_prefix cfg =
    if is_empty cfg.annotation_prefix then default_annotation_prefix else cfg.annotation_prefix

abbrev pub Annotations : Type 0
Annotations = List (Text × Text)

-- `prefix+"/"+key`
abbrev pub key_of : Text → Text → Text
key_of prefix key = prefix ++ b'/' ∷ key

unfoldable pub is_truthy : Text → Bool
is_truthy v = text_eq v (txt "true") || text_eq v (txt "1")

abbrev is_falsy : Text → Bool
is_falsy v = text_eq v (txt "false") || text_eq v (txt "0")

abbrev present_and : (Text → Bool) → Option Text → Bool
present_and test none = false
present_and test (some v) = test v

unfoldable pub is_opt_out : Annotations → Text → Bool
is_opt_out annotations prefix =
    present_and is_falsy (lookup (key_of prefix (txt "enabled")) annotations)

unfoldable pub is_opt_in : Annotations → Text → Bool
is_opt_in annotations prefix =
    present_and is_truthy (lookup (key_of prefix (txt "enabled")) annotations)

-- The trimmed parts that are not empty.
unfoldable pub nonempty_parts : List Text → List Text
nonempty_parts [] = []
nonempty_parts (v ∷ vs) =
    let rest = nonempty_parts vs in if is_empty (trim_space v) then rest else trim_space v ∷ rest

unfoldable pub split_csv : Text → List Text
unfolding nonempty_parts
split_csv s = if is_empty s then [] else nonempty_parts (split_on b',' s)

pub record Resolver : Type 0 where
  pub annotations : Annotations
  pub prefix : Text
  pub cfg : AutoDiscoverSpec

unfoldable pub new_resolver : Annotations → AutoDiscoverSpec → Resolver
unfolding annotation_prefix
new_resolver annotations cfg = record {
  annotations = annotations;
  prefix = annotation_prefix cfg;
  cfg = cfg;
}

abbrev pub look : Resolver → Text → Option Text
look r key = lookup (key_of r.prefix key) r.annotations

abbrev pub get : Resolver → Text → Text
get r key = or_zero (look r key)

abbrev truthy_or : Bool → Option Text → Bool
truthy_or def none = def
truthy_or def (some v) = is_truthy v

unfoldable pub enabled_or : Resolver → Bool → Bool
enabled_or r def = truthy_or def (look r (txt "enabled"))

unfoldable pub enabled : Resolver → Bool
unfolding enabled_or
enabled r = enabled_or r true

abbrev pub text_or : Text → Option Text → Text
text_or def none = def
text_or def (some v) = if is_empty v then def else v

unfoldable pub name : Resolver → Text → Text
name r default_name = text_or default_name (look r (txt "name"))

-- siteRef: none for false.
abbrev fallback_or_none : Text → Option Text
fallback_or_none fallback = if is_empty fallback then none else some fallback

abbrev site_ref_of : Text → Option Text → Option Text
site_ref_of fallback none = fallback_or_none fallback
site_ref_of fallback (some v) = if is_empty v then fallback_or_none fallback else some v

unfoldable pub site_ref : Resolver → Text → Option Text
site_ref r fallback = site_ref_of fallback (look r (txt "site-ref"))

unfoldable pub ssl : Resolver → Bool
ssl r = truthy_or r.cfg.ssl (look r (txt "ssl"))

abbrev normal : Text → Text
normal v = to_lower (trim_space v)

abbrev method_of : Text → Option Text → Text
method_of def none = def
method_of def (some v) =
    if text_eq (normal v) (txt "http")
      || (text_eq (normal v) (txt "https") || text_eq (normal v) (txt "h2c"))
    then normal v
    else def

unfoldable pub method : Resolver → Text → Text
method r default_method = method_of default_method (look r (txt "method"))

unfoldable pub tls_server_name : Resolver → Text → Text
tls_server_name r default_name =
    if is_empty (trim_space (get r (txt "tls-server-name")))
    then default_name
    else trim_space (get r (txt "tls-server-name"))

-- `p, err := strconv.Atoi(v); err == nil && p >= lo && p <= hi`
abbrev pub between : ℤ → ℤ → ℤ → Bool
between lo hi p = leb_ℤ lo p && leb_ℤ p hi

abbrev pub number_or : (ℤ → Bool) → ℤ → Option ℤ → ℤ
number_or valid def none = def
number_or valid def (some p) = if valid p then p else def

abbrev parsed_or : (ℤ → Bool) → ℤ → Option Text → ℤ
parsed_or valid def none = def
parsed_or valid def (some v) = number_or valid def (atoi v)

unfoldable pub proxy_port : Resolver → ℤ → ℤ
proxy_port r default_port =
    parsed_or (between (pos 1) (pos 65535)) default_port (look r (txt "proxy-port"))

abbrev protocol_of : Text → Option Text → Text
protocol_of def none = def
protocol_of def (some v) =
    if text_eq (normal v) (txt "tcp") || text_eq (normal v) (txt "udp") then normal v else def

unfoldable pub protocol : Resolver → Text → Text
protocol r default_proto = protocol_of default_proto (look r (txt "protocol"))

-- ResolveAllPorts
unfoldable pub resolve_all_ports : Annotations → Text → AutoDiscoverSpec → Bool
resolve_all_ports annotations prefix cfg =
    truthy_or cfg.all_ports (lookup (key_of prefix (txt "all-ports")) annotations)
