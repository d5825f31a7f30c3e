-- ===== src/Public/Create.antt =====
-- ensureExists and createResource of internal/controller/publicresource/controller.go.
use pangolin_operator.Base.{
  Option, none, some, List, [], ◌∷◌, ◌++◌, Bool, true, false, not, ◌&&◌, if◌then◌else◌,
}
use pangolin_operator.Base.Errors.{Error, plain}
use pangolin_operator.Base.Exec.{Result, ok, err, attempt, pure, fail, wrapping, ◌>>=◌, ◌>>◌}
use pangolin_operator.Base.Int.{ℤ, pos, ◌==ℤ◌}
use pangolin_operator.Base.Text.{Text, txt, is_empty, quoted}
use pangolin_operator.Pangolin.Api.{
  list_resources, list_domains, create_resource, delete_resource, update_resource,
}
use pangolin_operator.Pangolin.Domain.{resolve_domain}
use pangolin_operator.Pangolin.Requests.{
  ResourceItem, CreateResourceRequest, CreateResourceResponse,
}
use pangolin_operator.Types.Meta.{creating}
use pangolin_operator.Types.Public.{PublicResourceSpec}
use pangolin_operator.Public.Batch.{create_targets, create_rules}
use pangolin_operator.Public.Env.{Env, M, gets, call_api, refetch, patch_status}
use pangolin_operator.Public.Requests.{
  protocol_tcp, is_http, find_resource, still_listed, post_create_request,
}

abbrev pub create_request_base : PublicResourceSpec → CreateResourceRequest
create_request_base spec = record {
  name = spec.name;
  http = is_http spec;
  protocol = if is_http spec then protocol_tcp else spec.protocol;
  proxy_port = spec.proxy_port;
  domain_id = [];
  subdomain = [];
}

unfoldable pub with_domain : PublicResourceSpec → Option (Text × Text) → M CreateResourceRequest
with_domain spec none = fail (plain (txt "no Pangolin domain matches " ++ quoted spec.full_domain))
with_domain spec (some (id, sub)) =
    pure (record (create_request_base spec) { domain_id = id; subdomain = sub })

module _ (env : Env) where
  -- The request of createResource, with the domain looked up for an HTTP resource that names one.
  unfoldable pub create_request : PublicResourceSpec → M CreateResourceRequest
  unfolding with_domain
  create_request spec =
      if is_http spec
      then (if is_empty spec.full_domain then pure (create_request_base spec) else do
        domains ←
            wrapping (txt "ListDomains") (call_api list_domains (λ h. env.pangolin.list_domains h))
        with_domain spec (resolve_domain domains spec.full_domain))
      else pure (create_request_base spec)

  -- The rollback: the created resource is deleted where its id could not be stored.
  unfoldable pub roll_back : ℤ → Result (Unit {0}) → M (Unit {0})
  roll_back id (ok _) = pure tt
  roll_back id (err e) = do
    attempt (call_api (delete_resource id) (λ h. env.pangolin.delete_resource h id))
    fail e

  unfoldable pub persist_or_roll_back : CreateResourceResponse → M (Unit {0})
  unfolding roll_back
  persist_or_roll_back created = do
    stored ← attempt (
        patch_status env (λ st. record st {
          resource_id = created.resource_id;
          nice_id = created.nice_id;
          full_domain = created.full_domain;
          phase = creating;
        }))
    roll_back created.resource_id stored

  -- What follows the creation of the rules in createResource.
  unfoldable pub after_rules : List ℤ → List ℤ × Option Error → M (Unit {0})
  after_rules target_ids (rule_ids, some e) = do
    attempt (patch_status env (λ st. record st { target_ids = target_ids; rule_ids = rule_ids }))
    fail e
  after_rules target_ids (rule_ids, none) = do
    spec ← gets (λ s. s.res.spec)
    patch_status env (λ st. record st {
      target_ids = target_ids;
      targets_hash = env.hash_targets spec.targets;
      rule_ids = rule_ids;
      rules_hash = env.hash_rules spec.rules;
    })

  -- What follows the creation of the targets.
  unfoldable pub after_targets : ℤ → List ℤ × Option Error → M (Unit {0})
  unfolding after_rules
  after_targets id ([], some e) = fail e
  after_targets id (t ∷ ts, some e) = do
    attempt (patch_status env (λ st. record st { target_ids = t ∷ ts }))
    fail e
  after_targets id (target_ids, none) = do
    spec ← gets (λ s. s.res.spec)
    rules ← create_rules env id spec.rules
    after_rules target_ids rules

  -- The part of createResource behind the creation: settings, targets and rules.
  unfoldable pub configure : ℤ → ℤ → M (Unit {0})
  unfolding after_targets
  configure site_id id = do
    refetch env
    spec ← gets (λ s. s.res.spec)
    let req = post_create_request spec
    wrapping (txt "UpdateResource (post-create settings)")
        (call_api (update_resource id req) (λ h. env.pangolin.update_resource h id req))
    targets ← create_targets env id site_id spec.targets
    after_targets id targets

  unfoldable pub create : ℤ → M (Unit {0})
  create site_id = do
    patch_status env (λ st. record st { phase = creating })
    spec ← gets (λ s. s.res.spec)
    req ← create_request spec
    created ←
        wrapping (txt "CreateResource")
          (call_api (create_resource req) (λ h. env.pangolin.create_resource h req))
    persist_or_roll_back created
    configure site_id created.resource_id

  -- The end of ensureExists: adopt the item found, or create a resource. The answer is `adopted`.
  unfoldable pub adopt_or_create : ℤ → Option ResourceItem → M Bool
  adopt_or_create site_id none = do create site_id; pure false
  adopt_or_create site_id (some item) = do
    patch_status env (λ st. record st {
      resource_id = item.resource_id;
      nice_id = item.nice_id;
      full_domain = item.full_domain;
      phase = creating;
      targets_hash = [];
      rules_hash = [];
      target_ids = [];
      rule_ids = [];
    })
    pure true

  unfoldable pub ensure_exists : ℤ → M Bool
  ensure_exists site_id = do
    spec ← gets (λ s. s.res.spec)
    items ←
        wrapping (txt "ListResources")
          (call_api (list_resources spec.name) (λ h. env.pangolin.list_resources h spec.name))
    id ← gets (λ s. s.res.status.resource_id)
    if not (id ==ℤ pos 0) && still_listed id items
        then pure false
        else adopt_or_create site_id (find_resource items spec)
