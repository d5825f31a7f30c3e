-- ===== src/Private/Resource.antt =====
-- ensureExists, findSiteResource, httpFieldsFor, createSiteResource and updateSiteResource of
-- internal/controller/privateresource/controller.go. A nil slice and an empty one are one list, so
-- orEmpty is left out.
use pangolin_operator.Base.{
  Option, none, some, List, [], ◌∷◌, ◌++◌, Bool, true, false, not, ◌&&◌, ◌||◌, if◌then◌else◌,
}
use pangolin_operator.Base.Errors.{plain}
use pangolin_operator.Base.Exec.{Result, ok, err, attempt, pure, fail, wrapping, ◌>>=◌, ◌>>◌}
use pangolin_operator.Base.Int.{ℤ, pos, ◌==ℤ◌}
use pangolin_operator.Base.Text.{Text, txt, text_eq, is_empty, quoted}
use pangolin_operator.Pangolin.Api.{
  list_domains, list_site_resources, create_site_resource, update_site_resource,
  delete_site_resource,
}
use pangolin_operator.Pangolin.Domain.{resolve_domain}
use pangolin_operator.Pangolin.Requests.{
  SiteResourceItem, CreateSiteResourceRequest, CreateSiteResourceResponse,
  UpdateSiteResourceRequest,
}
use pangolin_operator.Private.Env.{Env, M, gets, call_api, patch_status}
use pangolin_operator.Types.Meta.{creating}
use pangolin_operator.Types.Private.{PrivateResourceSpec}

abbrev pub mode_http : Text
mode_http = txt "http"

abbrev pub is_http : PrivateResourceSpec → Bool
is_http spec = text_eq spec.mode mode_http

-- The loop body of findSiteResource: whether the item is the one to return.
unfoldable pub item_matches : PrivateResourceSpec → ℤ → SiteResourceItem → Bool
item_matches spec site_id item =
    if not (text_eq item.name spec.name) || not (text_eq item.mode spec.mode)
    then false
    else if is_http spec
    then not (is_empty spec.full_domain) && text_eq item.full_domain spec.full_domain
    else text_eq item.destination spec.destination && (item.site_id ==ℤ site_id)

unfoldable pub find_site_resource :
    List SiteResourceItem → PrivateResourceSpec → ℤ → Option SiteResourceItem
find_site_resource [] spec site_id = none
find_site_resource (item ∷ items) spec site_id =
    if item_matches spec site_id item then some item else find_site_resource items spec site_id

-- The loop of ensureExists over the listed items.
unfoldable pub still_listed : ℤ → List SiteResourceItem → Bool
still_listed id [] = false
still_listed id (item ∷ items) =
    if item.site_resource_id ==ℤ id then true else still_listed id items

pub record HttpFields : Type 0 where
  pub domain_id : Text
  pub subdomain : Text
  pub scheme : Text
  pub destination_port : ℤ
  pub ssl : Option Bool

unfoldable pub fields_of : PrivateResourceSpec → Option (Text × Text) → M HttpFields
fields_of spec none = fail (plain (txt "no Pangolin domain matches " ++ quoted spec.full_domain))
fields_of spec (some (id, sub)) = pure (record {
  domain_id = id;
  subdomain = sub;
  scheme = spec.scheme;
  destination_port = spec.destination_port;
  ssl = spec.ssl;
})

-- The requests for mode http and for the other modes.
abbrev pub create_http : PrivateResourceSpec → ℤ → HttpFields → CreateSiteResourceRequest
create_http spec site_id h = record {
  name = spec.name;
  site_id = site_id;
  mode = spec.mode;
  destination = spec.destination;
  tcp_port_range_string = [];
  udp_port_range_string = [];
  disable_icmp = spec.disable_icmp;
  alias = spec.alias;
  role_ids = spec.role_ids;
  user_ids = spec.user_ids;
  client_ids = spec.client_ids;
  ssl = h.ssl;
  scheme = h.scheme;
  domain_id = h.domain_id;
  subdomain = h.subdomain;
  destination_port = h.destination_port;
}

abbrev no_fields : HttpFields
no_fields = record {
  domain_id = [];
  subdomain = [];
  scheme = [];
  destination_port = pos 0;
  ssl = none;
}

abbrev pub create_ports : PrivateResourceSpec → ℤ → CreateSiteResourceRequest
create_ports spec site_id = record (create_http spec site_id no_fields) {
  tcp_port_range_string = spec.tcp_ports;
  udp_port_range_string = spec.udp_ports;
}

abbrev pub update_http : PrivateResourceSpec → ℤ → HttpFields → UpdateSiteResourceRequest
update_http spec site_id h = record {
  user_ids = spec.user_ids;
  role_ids = spec.role_ids;
  client_ids = spec.client_ids;
  site_id = site_id;
  name = spec.name;
  mode = spec.mode;
  destination = spec.destination;
  tcp_port_range_string = [];
  udp_port_range_string = [];
  disable_icmp = spec.disable_icmp;
  alias = spec.alias;
  ssl = h.ssl;
  scheme = h.scheme;
  domain_id = h.domain_id;
  subdomain = h.subdomain;
  destination_port = h.destination_port;
}

abbrev pub update_ports : PrivateResourceSpec → ℤ → UpdateSiteResourceRequest
update_ports spec site_id = record (update_http spec site_id no_fields) {
  tcp_port_range_string = spec.tcp_ports;
  udp_port_range_string = spec.udp_ports;
}

module _ (env : Env) where
  unfoldable pub http_fields_for : PrivateResourceSpec → M HttpFields
  unfolding fields_of
  http_fields_for spec =
      if is_empty spec.full_domain
      then fail (plain (txt "fullDomain is required when mode is " ++ quoted mode_http))
      else (do
        domains ←
            wrapping (txt "ListDomains") (call_api list_domains (λ h. env.pangolin.list_domains h))
        fields_of spec (resolve_domain domains spec.full_domain))

  unfoldable pub create_request : PrivateResourceSpec → ℤ → M CreateSiteResourceRequest
  unfolding http_fields_for
  create_request spec site_id =
      if is_http spec
      then (do h ← http_fields_for spec; pure (create_http spec site_id h))
      else pure (create_ports spec site_id)

  -- The rollback: the created resource is deleted where its id could not be stored.
  unfoldable pub roll_back : ℤ → Result (Unit {0}) → M (Unit {0})
  roll_back id (ok _) = pure tt
  roll_back id (err e) = do
    attempt (call_api (delete_site_resource id) (λ h. env.pangolin.delete_site_resource h id))
    fail e

  unfoldable pub persist_or_roll_back : CreateSiteResourceResponse → M (Unit {0})
  unfolding roll_back
  persist_or_roll_back created = do
    stored ← attempt (
        patch_status env (λ st. record st {
          site_resource_id = created.site_resource_id;
          nice_id = created.nice_id;
          full_domain = created.full_domain;
          phase = creating;
        }))
    roll_back created.site_resource_id stored

  unfoldable pub create : ℤ → M (Unit {0})
  create site_id = do
    patch_status env (λ st. record st { phase = creating })
    spec ← gets (λ s. s.res.spec)
    req ← create_request spec site_id
    created ←
        wrapping (txt "CreateSiteResource")
          (call_api (create_site_resource req) (λ h. env.pangolin.create_site_resource h req))
    persist_or_roll_back created

  -- The end of ensureExists: adopt the item found, or create a resource. The answer is `adopted`.
  unfoldable pub adopt_or_create : ℤ → Option SiteResourceItem → M Bool
  adopt_or_create site_id none = do create site_id; pure false
  adopt_or_create site_id (some item) = do
    patch_status env (λ st. record st {
      site_resource_id = item.site_resource_id;
      nice_id = item.nice_id;
      full_domain = item.full_domain;
      phase = creating;
    })
    pure true

  unfoldable pub ensure_exists : ℤ → M Bool
  ensure_exists site_id = do
    spec ← gets (λ s. s.res.spec)
    items ← wrapping (txt "ListSiteResources") (
        call_api (list_site_resources spec.name)
          (λ h. env.pangolin.list_site_resources h spec.name))
    id ← gets (λ s. s.res.status.site_resource_id)
    if not (id ==ℤ pos 0) && still_listed id items
        then pure false
        else adopt_or_create site_id (find_site_resource items spec site_id)

  unfoldable pub update_request : PrivateResourceSpec → ℤ → M UpdateSiteResourceRequest
  unfolding http_fields_for
  update_request spec site_id =
      if is_http spec
      then (do h ← http_fields_for spec; pure (update_http spec site_id h))
      else pure (update_ports spec site_id)

  unfoldable pub update : ℤ → M (Unit {0})
  update site_id = do
    res ← gets (λ s. s.res)
    req ← update_request res.spec site_id
    wrapping (txt "UpdateSiteResource") (
        call_api (update_site_resource res.status.site_resource_id req)
          (λ h. env.pangolin.update_site_resource h res.status.site_resource_id req))
