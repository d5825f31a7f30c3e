-- ===== src/Discover/Ensure.antt =====
-- ensureOwnedPublicResource of internal/autodiscover/autodiscover.go, of which
-- EnsureHTTPRouteResource, EnsureServiceResource and EnsureTCPRouteResource are the instances for
-- three kinds of owner. As in Public.Env, `log` holds the calls, the latest first, and each answer of
-- the Kubernetes server is a function of it.
pub mod Written
use pangolin_operator.Base.{
  Option, none, some, List, [], ◌∷◌, Bool, true, false, not, ◌&&◌, ◌||◌, if◌then◌else◌,
}
use pangolin_operator.Base.Errors.{Error, is_kube_not_found}
use pangolin_operator.Base.Exec.{Result, ok, err}
use pangolin_operator.Base.Int.{ℤ, pos}
use pangolin_operator.Base.Text.{Text, txt, text_eq, lookup, insert, or_zero}
use pangolin_operator.Discover.Objects.{Json}
use pangolin_operator.Types.Meta.{
  ObjectMeta, OwnerReference, unset, label_owner_kind, label_owner_name, label_site,
}
use pangolin_operator.Types.Public.{PublicResource, PublicResourceSpec}

pub data Call : Type 0 where
  get_object : Text → Text → Call
  create_object : PublicResource → Call
  -- the object as it was, and as it is sent
  patch_object : PublicResource → PublicResource → Call

pub record Server : Type 0 where
  pub get : List Call → Text → Text → Result PublicResource
  pub create : List Call → PublicResource → Result PublicResource
  pub patch : List Call → PublicResource → PublicResource → Result PublicResource

-- The NewtSite that owns the resource, and the object that it is made from.
pub record Owner : Type 0 where
  pub site_name : Text
  pub site_uid : Text
  pub kind : Text
  pub name : Text

abbrev pub Labels : Type 0
Labels = List (Text × Text)

abbrev owner_labels : Owner → Labels
owner_labels owner =
    (label_owner_kind, owner.kind)
    ∷ (label_owner_name, owner.name)
    ∷ (label_site, owner.site_name)
    ∷ []

abbrev pub owned_meta : Owner → Text → Text → ObjectMeta
owned_meta owner namespace res_name = record {
  name = res_name;
  namespace = namespace;
  uid = [];
  generation = pos 0;
  deletion_timestamp = none;
  finalizers = [];
  labels = some (owner_labels owner);
  annotations = [];
  owner_references =
      record {
        api_version = txt "pangolin.home-operations.com/v1alpha1";
        kind = txt "NewtSite";
        name = owner.site_name;
        uid = owner.site_uid;
        controller = some true;
        block_owner_deletion = some true;
      }
      ∷ [];
}

-- The object that is created, with the zero status.
abbrev pub new_resource : Owner → Text → Text → PublicResourceSpec → PublicResource
new_resource owner namespace res_name spec = record {
  metadata = owned_meta owner namespace res_name;
  spec = spec;
  status = record {
    phase = unset;
    resource_id = pos 0;
    nice_id = [];
    full_domain = [];
    target_ids = [];
    targets_hash = [];
    rule_ids = [];
    rules_hash = [];
    observed_generation = pos 0;
    conditions = [];
  };
}

abbrev pub no_labels : Option Labels → Bool
no_labels none = true
no_labels (some _) = false

abbrev pub labels_of : Option Labels → Labels
labels_of none = []
labels_of (some labels) = labels

abbrev pub label_is : Labels → Text → Text → Bool
label_is labels key value = text_eq (or_zero (lookup key labels)) value

unfoldable pub has_owner_labels : Owner → Labels → Bool
has_owner_labels owner labels =
    label_is labels label_owner_kind owner.kind
    && (label_is labels label_owner_name owner.name && label_is labels label_site owner.site_name)

unfoldable pub with_owner_labels : Owner → Labels → Labels
with_owner_labels owner labels =
    insert label_site owner.site_name
      (insert label_owner_name owner.name (insert label_owner_kind owner.kind labels))

module _ (json : Json) (server : Server) (owner : Owner) (namespace res_name : Text)
    (spec : PublicResourceSpec) where
  unfoldable pub needs_patch : PublicResource → Bool
  unfolding has_owner_labels
  needs_patch existing =
      no_labels existing.metadata.labels
      || (not (has_owner_labels owner (labels_of existing.metadata.labels))
          || not (text_eq (json.encode_spec spec) (json.encode_spec existing.spec)))

  -- The object with its labels made, and as it is sent.
  abbrev relabelled : PublicResource → Labels → PublicResource
  relabelled existing labels = record existing {
    metadata = record existing.metadata { labels = some labels };
  }

  abbrev pub base_of : PublicResource → PublicResource
  base_of existing = relabelled existing (labels_of existing.metadata.labels)

  abbrev pub patched : PublicResource → PublicResource
  patched existing =
      record (relabelled existing (with_owner_labels owner (labels_of existing.metadata.labels))) {
        spec = spec;
      }

  abbrev forget : Result PublicResource → Result (Unit {0})
  forget (ok _) = ok tt
  forget (err e) = err e

  abbrev on_get : Result PublicResource → List Call → Result (Unit {0}) × List Call
  on_get (err e) log =
      if is_kube_not_found e
      then (
        forget (server.create log (new_resource owner namespace res_name spec)),
        create_object (new_resource owner namespace res_name spec) ∷ log,
      )
      else (err e, log)
  on_get (ok existing) log =
      if needs_patch existing
      then (
        forget (server.patch log (base_of existing) (patched existing)),
        patch_object (base_of existing) (patched existing) ∷ log,
      )
      else (ok tt, log)

  unfoldable pub ensure_owned_public_resource : List Call → Result (Unit {0}) × List Call
  unfolding needs_patch with_owner_labels
  ensure_owned_public_resource log =
      on_get (server.get log namespace res_name) (get_object namespace res_name ∷ log)
