-- ===== src/Public/Update.antt =====
-- updateResource of internal/controller/publicresource/controller.go.
use pangolin_operator.Base.{Option, none, some, List, [], ◌∷◌, ◌++◌, if◌then◌else◌}
use pangolin_operator.Base.Errors.{Error}
use pangolin_operator.Base.Exec.{attempt, pure, fail, wrapping, ◌>>=◌, ◌>>◌}
use pangolin_operator.Base.Int.{ℤ}
use pangolin_operator.Base.Text.{Text, txt, text_eq}
use pangolin_operator.Pangolin.Api.{update_resource, delete_target, delete_rule}
use pangolin_operator.Public.Batch.{create_targets, create_rules}
use pangolin_operator.Public.Env.{Env, M, gets, call_api, patch_status}
use pangolin_operator.Public.Requests.{update_request}

module _ (env : Env) where
  -- The loops over the old ids: an error is logged and passed over.
  unfoldable pub delete_targets : List ℤ → M (Unit {0})
  delete_targets [] = pure tt
  delete_targets (id ∷ ids) = do
    attempt (call_api (delete_target id) (λ h. env.pangolin.delete_target h id))
    delete_targets ids

  unfoldable pub delete_rules : ℤ → List ℤ → M (Unit {0})
  delete_rules resource_id [] = pure tt
  delete_rules resource_id (id ∷ ids) = do
    attempt (call_api (delete_rule resource_id id) (λ h. env.pangolin.delete_rule h resource_id id))
    delete_rules resource_id ids

  -- What follows the creation of the new targets.
  unfoldable pub replace_targets : Text → List ℤ → List ℤ × Option Error → M (Unit {0})
  replace_targets hash old ([], some e) = fail e
  replace_targets hash old (id ∷ ids, some e) = do
    attempt (patch_status env (λ st. record st { target_ids = st.target_ids ++ id ∷ ids }))
    fail e
  replace_targets hash old (ids, none) = do
    patch_status env (λ st. record st { target_ids = ids; targets_hash = hash })
    delete_targets old

  unfoldable pub replace_rules : Text → List ℤ → List ℤ × Option Error → M (Unit {0})
  replace_rules hash old ([], some e) = fail e
  replace_rules hash old (r ∷ rs, some e) = do
    attempt (patch_status env (λ st. record st { rule_ids = st.rule_ids ++ r ∷ rs }))
    fail e
  replace_rules hash old (ids, none) = do
    patch_status env (λ st. record st { rule_ids = ids; rules_hash = hash })
    resource_id ← gets (λ s. s.res.status.resource_id)
    delete_rules resource_id old

  -- The targets, where their hash differs from the stored one.
  unfoldable pub sync_targets : ℤ → M (Unit {0})
  sync_targets site_id = do
    res ← gets (λ s. s.res)
    let hash = env.hash_targets res.spec.targets
    if text_eq hash res.status.targets_hash then pure tt else do
      created ← create_targets env res.status.resource_id site_id res.spec.targets
      replace_targets hash res.status.target_ids created

  unfoldable pub sync_rules : M (Unit {0})
  sync_rules = do
    res ← gets (λ s. s.res)
    let hash = env.hash_rules res.spec.rules
    if text_eq hash res.status.rules_hash then pure tt else do
      created ← create_rules env res.status.resource_id res.spec.rules
      replace_rules hash res.status.rule_ids created

  unfoldable pub update : ℤ → M (Unit {0})
  update site_id = do
    res ← gets (λ s. s.res)
    let req = update_request res.spec
    wrapping (txt "UpdateResource") (
        call_api (update_resource res.status.resource_id req)
          (λ h. env.pangolin.update_resource h res.status.resource_id req))
    sync_targets site_id
    sync_rules
