-- ===== src/Site/Create.antt =====
-- findOrCreate, findSite, createSite and updateSite of internal/controller/newtsite/controller.go.
use pangolin_operator.Base.{Option, none, some, List, [], ◌∷◌, ◌++◌, if◌then◌else◌}
use pangolin_operator.Base.Errors.{Error}
use pangolin_operator.Base.Exec.{
  Result, ok, fail, pure, or_fail, attempt, wrapping, wrap_result, ◌>>=◌, ◌>>◌,
}
use pangolin_operator.Base.Int.{ℤ}
use pangolin_operator.Base.Text.{Text, txt, text_eq, insert}
use pangolin_operator.Pangolin.Api.{
  pick_site_defaults, create_site, get_site, list_sites, update_site, delete_site,
}
use pangolin_operator.Pangolin.Requests.{
  PickSiteDefaultsResponse, CreateSiteRequest, CreateSiteResponse, SiteItem, GetSiteResponse,
}
use pangolin_operator.Types.Meta.{
  ObjectMeta, creating, label_managed_by, site_type_local, site_type_newt,
}
use pangolin_operator.Types.Pod.{Secret}
use pangolin_operator.Types.Site.{NewtSite, NewtSiteStatus}
use pangolin_operator.Site.Container.{
  env_pangolin_endpoint, env_newt_id, env_newt_secret, part_of_pangolin_op,
}
use pangolin_operator.Site.Deployment.{named_meta}
use pangolin_operator.Site.Env.{Env, M, apply_secret, call_api, call_kube, patch_status}

-- findSite
unfoldable pub find_site : List SiteItem → Text → Option SiteItem
find_site [] name = none
find_site (item ∷ items) name = if text_eq item.name name then some item else find_site items name

abbrev pub secret_name_of : NewtSite → Text
secret_name_of site = site.metadata.name ++ txt "-newt-credentials"

abbrev pub local_request : NewtSite → CreateSiteRequest
local_request site = record {
  name = site.spec.name;
  address = [];
  site_type = site_type_local;
  newt_id = [];
  secret = [];
}

abbrev pub newt_request : NewtSite → PickSiteDefaultsResponse → CreateSiteRequest
newt_request site defaults = record {
  name = site.spec.name;
  address = defaults.client_address;
  site_type = site_type_newt;
  newt_id = defaults.newt_id;
  secret = defaults.newt_secret;
}

abbrev pub with_ids : CreateSiteResponse → NewtSiteStatus → NewtSiteStatus
with_ids created st = record st { site_id = created.site_id; nice_id = created.nice_id }

abbrev pub credentials : Text → PickSiteDefaultsResponse → List (Text × Text)
credentials endpoint defaults =
    (env_pangolin_endpoint, endpoint)
    ∷ (env_newt_id, defaults.newt_id)
    ∷ (env_newt_secret, defaults.newt_secret)
    ∷ []

abbrev labels_or_empty : Option (List (Text × Text)) → List (Text × Text)
labels_or_empty none = []
labels_or_empty (some labels) = labels

-- What CreateOrUpdate does with the secret, a new one or the one that exists.
abbrev pub refresh_secret : List (Text × Text) → Secret → Secret
refresh_secret data_texts secret = record {
  metadata = record secret.metadata {
    labels =
        some (insert label_managed_by part_of_pangolin_op (labels_or_empty secret.metadata.labels));
  };
  string_data = data_texts;
}

abbrev pub credentials_secret : ObjectMeta → List (Text × Text) → Secret
credentials_secret metadata texts = record { metadata = metadata; string_data = texts }

abbrev pub adopted : SiteItem → NewtSiteStatus → NewtSiteStatus
adopted item st = record st { site_id = item.site_id; nice_id = item.nice_id; phase = creating }

abbrev pub managed_label : Option (List (Text × Text))
managed_label = some ((label_managed_by, part_of_pangolin_op) ∷ [])

module _ (env : Env) where
  -- The site is deleted again where its id could not be stored; the patch's error is returned.
  unfoldable pub roll_back : ℤ → Error → M (Unit {0})
  roll_back id e = do
    attempt (call_api (delete_site id) (λ h. env.pangolin.delete_site h id))
    fail e

  abbrev pub kept_or_rolled_back : ℤ → Result (Unit {0}) → M (Unit {0})
  kept_or_rolled_back id (ok _) = pure tt
  kept_or_rolled_back id (Result.err e) = roll_back id e

  unfoldable pub persist_or_roll_back : ℤ → (NewtSiteStatus → NewtSiteStatus) → M (Unit {0})
  persist_or_roll_back id mutate = do
    r ← attempt (patch_status env mutate)
    kept_or_rolled_back id r

  abbrev pub request_site : CreateSiteRequest → M CreateSiteResponse
  request_site req =
      wrapping (txt "CreateSite") (call_api (create_site req) (λ h. env.pangolin.create_site h req))

  unfoldable pub create_local : M (Unit {0})
  create_local s =
      (do
        created ← request_site (local_request s.site)
        persist_or_roll_back created.site_id (with_ids created))
        s

  abbrev pub secret_meta : NewtSite → Result ObjectMeta
  secret_meta site = wrap_result (txt "set controller reference on secret") (
      env.set_controller_reference site
        (named_meta (secret_name_of site) env.operator_namespace managed_label))

  abbrev pub store_secret : List (Text × Text) → ObjectMeta → M (Unit {0})
  store_secret texts metadata =
      let secret = credentials_secret metadata texts in
      wrapping (txt "create/update newt credentials secret") (
        call_kube (apply_secret secret (refresh_secret texts))
          (λ h. env.secret h secret (refresh_secret texts)))

  -- The credentials secret: its owner is set, then it is created or updated.
  unfoldable pub put_secret : PickSiteDefaultsResponse → M (Unit {0})
  put_secret defaults s =
      (do
        metadata ← or_fail (secret_meta s.site)
        store_secret (credentials env.newt_endpoint defaults) metadata)
        s

  -- What follows the creation of the site in Pangolin.
  abbrev pub store_newt : PickSiteDefaultsResponse → CreateSiteResponse → M (Unit {0})
  store_newt defaults created = do
    put_secret defaults
    λ s.
        persist_or_roll_back created.site_id
          (λ st. record (with_ids created st) { newt_secret_name = secret_name_of s.site }) s

  abbrev pub ask_defaults : M PickSiteDefaultsResponse
  ask_defaults =
      wrapping (txt "PickSiteDefaults")
        (call_api pick_site_defaults env.pangolin.pick_site_defaults)

  unfoldable pub create_newt : M (Unit {0})
  create_newt = do
    defaults ← ask_defaults
    created ← λ s. request_site (newt_request s.site defaults) s
    store_newt defaults created

  unfoldable pub create : M (Unit {0})
  create = do
    patch_status env (λ st. record st { phase = creating })
    λ s. if text_eq s.site.spec.site_type site_type_local then create_local s else create_newt s

  abbrev pub adopt_or_create : Option SiteItem → M (Unit {0})
  adopt_or_create (some item) = patch_status env (adopted item)
  adopt_or_create none = create

  abbrev pub list_named : Text → M (List SiteItem)
  list_named name =
      wrapping (txt "ListSites") (call_api (list_sites name) (λ h. env.pangolin.list_sites h name))

  unfoldable pub find_or_create : M (Unit {0})
  find_or_create s =
      (do items ← list_named s.site.spec.name; adopt_or_create (find_site items s.site.spec.name)) s

  abbrev pub rename_if : GetSiteResponse → M (Unit {0})
  rename_if live s =
      if text_eq live.name s.site.spec.name
      then (ok tt, s)
      else wrapping (txt "UpdateSite")
          (call_api (update_site s.site.status.site_id (record { name = s.site.spec.name })) (λ h.
            env.pangolin.update_site h s.site.status.site_id (record { name = s.site.spec.name })))
          s

  abbrev pub ask_site : ℤ → M GetSiteResponse
  ask_site id = wrapping (txt "GetSite") (call_api (get_site id) (λ h. env.pangolin.get_site h id))

  -- updateSite
  unfoldable pub update_remote : M (Unit {0})
  update_remote s = (do live ← ask_site s.site.status.site_id; rename_if live) s
