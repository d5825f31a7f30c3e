-- ===== src/Public/Requests.antt =====
-- findResource and the requests that the PublicResource reconciler builds.
use pangolin_operator.Base.{
  ℕ, ◌+◌, ◌*◌, Option, none, some, List, [], ◌∷◌, Bool, true, false, not, ◌&&◌, if◌then◌else◌,
}
use pangolin_operator.Base.Int.{ℤ, pos, ◌==ℤ◌, leb_ℤ}
use pangolin_operator.Base.Text.{Text, txt, text_eq, is_empty, to_upper}
use pangolin_operator.Pangolin.Requests.{
  ResourceItem, UpdateResourceRequest, CreateTargetRequest, CreateRuleRequest,
}
use pangolin_operator.Types.Public.{
  PublicAuthSpec, PublicRuleSpec, PublicTargetSpec, PublicResourceSpec,
}

abbrev pub protocol_http : Text
protocol_http = txt "http"

abbrev pub protocol_tcp : Text
protocol_tcp = txt "tcp"

abbrev pub is_http : PublicResourceSpec → Bool
is_http spec = text_eq spec.protocol protocol_http

-- The loop body of findResource: whether the item is the one to return.
abbrev pub item_matches : PublicResourceSpec → ResourceItem → Bool
item_matches spec item =
    if not (text_eq item.name spec.name)
    then false
    else if is_http spec && not (is_empty spec.full_domain)
    then text_eq item.full_domain spec.full_domain
    else true

unfoldable pub find_resource : List ResourceItem → PublicResourceSpec → Option ResourceItem
find_resource [] spec = none
find_resource (item ∷ items) spec =
    if item_matches spec item then some item else find_resource items spec

-- The loop of ensureExists over the listed items.
unfoldable pub still_listed : ℤ → List ResourceItem → Bool
still_listed id [] = false
still_listed id (item ∷ items) = if item.resource_id ==ℤ id then true else still_listed id items

abbrev pub empty_update : UpdateResourceRequest
empty_update = record {
  name = [];
  subdomain = [];
  ssl = none;
  sso = none;
  block_access = none;
  email_whitelist_enabled = none;
  apply_rules = none;
  enabled = none;
  sticky_session = none;
  tls_server_name = none;
  set_host_header = none;
  skip_to_idp_id = none;
}

abbrev some_if : Text → Option Text
some_if t = if is_empty t then none else some t

abbrev has_any {ℓ} : {A : Type ℓ} → List A → Bool
has_any [] = false
has_any (_ ∷ _) = true

abbrev sso_of : Option PublicAuthSpec → Bool
sso_of none = false
sso_of (some auth) = auth.sso_enabled

abbrev idp_of : Option PublicAuthSpec → Option ℤ
idp_of none = none
idp_of (some auth) =
    if auth.sso_enabled && not (leb_ℤ auth.auto_login_idp (pos 0))
    then some auth.auto_login_idp
    else none

abbrev whitelist_of : Option PublicAuthSpec → Option Bool
whitelist_of none = none
whitelist_of (some auth) = if has_any auth.whitelist_users then some true else none

unfoldable pub build_http_update_request : PublicResourceSpec → UpdateResourceRequest
build_http_update_request spec = record empty_update {
  ssl = some spec.ssl;
  sso = some (sso_of spec.auth);
  block_access = some false;
  email_whitelist_enabled = whitelist_of spec.auth;
  apply_rules = some (has_any spec.rules);
  enabled = some spec.enabled;
  tls_server_name = some_if spec.tls_server_name;
  set_host_header = some_if spec.host_header;
  skip_to_idp_id = idp_of spec.auth;
}

-- The request of updateResource.
unfoldable pub update_request : PublicResourceSpec → UpdateResourceRequest
unfolding build_http_update_request
update_request spec =
    if is_http spec
    then record (build_http_update_request spec) { name = spec.name }
    else record empty_update { name = spec.name; enabled = some spec.enabled }

-- The request that createResource sends after the creation.
unfoldable pub post_create_request : PublicResourceSpec → UpdateResourceRequest
unfolding build_http_update_request
post_create_request spec =
    if is_http spec
    then build_http_update_request spec
    else record empty_update { name = spec.name; enabled = some spec.enabled }

unfoldable pub target_request : ℤ → PublicTargetSpec → CreateTargetRequest
target_request site_id t = record {
  site_id = site_id;
  ip = t.hostname;
  port = t.port;
  method = t.method;
  enabled = t.enabled;
  path = t.path;
  path_match_type = t.path_match_type;
  rewrite_path = t.rewrite_path;
  rewrite_path_type = t.rewrite_path_type;
  priority = t.priority;
}

-- The rule at position i of the list has priority (i + 1) * 10 unless it states one.
unfoldable pub rule_request : ℕ → PublicRuleSpec → CreateRuleRequest
rule_request i rule = record {
  action = to_upper rule.action;
  match_kind = to_upper rule.match_kind;
  value = rule.value;
  priority = if rule.priority ==ℤ pos 0 then pos ((i + 1) * 10) else rule.priority;
  enabled = none;
}
