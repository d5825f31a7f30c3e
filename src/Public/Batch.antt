-- ===== src/Public/Batch.antt =====
-- createTargets and createRules of internal/controller/publicresource/controller.go. Each request
-- of a batch runs in a goroutine of its own and writes its own slot of `ids`; the model runs them
-- in the order of the list, which fixes only the order of the joined errors and of the calls.
pub mod Laws
pub mod Created
use pangolin_operator.Base.{
  ℕ, zero, suc, ◌+◌, Option, none, some, List, [], ◌∷◌, Bool, true, false, if◌then◌else◌,
}
use pangolin_operator.Base.Errors.{Error, wrap, join}
use pangolin_operator.Base.Exec.{Result, ok, err, attempt, pure, ◌>>=◌}
use pangolin_operator.Base.Int.{ℤ, pos, ◌==ℤ◌}
use pangolin_operator.Base.Text.{Text, txt}
use pangolin_operator.Pangolin.Api.{create_target, create_rule}
use pangolin_operator.Pangolin.Requests.{
  CreateTargetRequest, CreateTargetResponse, CreateRuleRequest, CreateRuleResponse,
}
use pangolin_operator.Types.Public.{PublicRuleSpec, PublicTargetSpec}
use pangolin_operator.Public.Env.{Env, M, call_api}
use pangolin_operator.Public.Requests.{target_request, rule_request}

-- The slots: the id, or 0 where the call failed.
unfoldable pub slots : List (Result ℤ) → List ℤ
slots [] = []
slots (ok id ∷ rs) = id ∷ slots rs
slots (err _ ∷ rs) = pos 0 ∷ slots rs

unfoldable pub errors_of : Text → List (Result ℤ) → List Error
errors_of prefix [] = []
errors_of prefix (ok _ ∷ rs) = errors_of prefix rs
errors_of prefix (err e ∷ rs) = wrap prefix e ∷ errors_of prefix rs

unfoldable pub nonzero : List ℤ → List ℤ
nonzero [] = []
nonzero (id ∷ ids) = let rest = nonzero ids in if id ==ℤ pos 0 then rest else id ∷ rest

-- After wg.Wait: all the ids, or those that were created and the joined error.
unfoldable pub collect : Text → List (Result ℤ) → List ℤ × Option Error
unfolding slots errors_of nonzero join
collect prefix rs = elim (join (errors_of prefix rs)) [
  | none ↦ (slots rs, none)
  | some e ↦ (nonzero (slots rs), some e)
]

abbrev pub target_id_of : Result CreateTargetResponse → Result ℤ
target_id_of (ok r) = ok r.target_id
target_id_of (err e) = err e

abbrev pub rule_id_of : Result CreateRuleResponse → Result ℤ
rule_id_of (ok r) = ok r.rule_id
rule_id_of (err e) = err e

module _ (env : Env) (resource_id : ℤ) where
  unfoldable pub send_target : CreateTargetRequest → M (Result ℤ)
  send_target req = do
    r ← attempt (
        call_api (create_target resource_id req)
          (λ h. env.pangolin.create_target h resource_id req))
    pure (target_id_of r)

  unfoldable pub send_targets : ℤ → List PublicTargetSpec → M (List (Result ℤ))
  send_targets site_id [] = pure []
  send_targets site_id (t ∷ ts) = do
    r ← send_target (target_request site_id t)
    rs ← send_targets site_id ts
    pure (r ∷ rs)

  unfoldable pub create_targets : ℤ → List PublicTargetSpec → M (List ℤ × Option Error)
  create_targets site_id targets = do
    rs ← send_targets site_id targets
    pure (collect (txt "CreateTarget") rs)

  unfoldable pub send_rule : CreateRuleRequest → M (Result ℤ)
  send_rule req = do
    r ←
        attempt
          (call_api (create_rule resource_id req) (λ h. env.pangolin.create_rule h resource_id req))
    pure (rule_id_of r)

  -- `i` is the position of the first rule of the list.
  unfoldable pub send_rules : ℕ → List PublicRuleSpec → M (List (Result ℤ))
  send_rules i [] = pure []
  send_rules i (rule ∷ rules) = do
    r ← send_rule (rule_request i rule)
    rs ← send_rules (i + 1) rules
    pure (r ∷ rs)

  unfoldable pub create_rules : List PublicRuleSpec → M (List ℤ × Option Error)
  create_rules rules = do rs ← send_rules 0 rules; pure (collect (txt "CreateRule") rs)
