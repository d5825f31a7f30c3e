-- ===== src/Public/Env.antt =====
-- The state and the effects of the PublicResource reconciler. `log` records every call to the
-- Kubernetes and Pangolin servers, the latest first, and each answer of `Env` is a function of it:
-- any behaviour of the servers, failures and concurrent writers included, is such a value.
use pangolin_operator.Base.{List, [], ◌∷◌, ◌++◌}
use pangolin_operator.Base.Errors.{site_not_found}
use pangolin_operator.Base.Exec.{Result, ok, err, Exec, wrap_result, ◌>>=◌}
use pangolin_operator.Base.Int.{ℤ}
use pangolin_operator.Base.Text.{Text, txt, quoted}
use pangolin_operator.Pangolin.Api.{ApiCall, Api}
use pangolin_operator.Types.Meta.{KubeLib, ConditionStatus, set_condition}
use pangolin_operator.Types.Public.{
  PublicRuleSpec, PublicTargetSpec, PublicResourceStatus, PublicResource,
}
use pangolin_operator.Types.Site.{NewtSite}

pub data Call : Type 0 where
  api : ApiCall → Call
  get_object : Call
  update_object : PublicResource → Call
  -- the object as it was, and as it is sent
  patch_object : PublicResource → PublicResource → Call
  list_newt_sites : Text → Call

-- The calls that went to Pangolin.
abbrev pub api_calls : List Call → List ApiCall
api_calls [] = []
api_calls (api c ∷ log) = c ∷ api_calls log
api_calls (_ ∷ log) = api_calls log

pub record Env : Type 0 where
  pub pangolin : Api (List Call)
  pub lib : KubeLib
  pub get : List Call → Result PublicResource
  pub update : List Call → PublicResource → Result PublicResource
  pub patch : List Call → PublicResource → PublicResource → Result PublicResource
  pub sites_named : List Call → Text → Result (List NewtSite)
  -- hashJSON of the targets and of the rules
  pub hash_targets : List PublicTargetSpec → Text
  pub hash_rules : List PublicRuleSpec → Text

pub record State : Type 0 where
  pub res : PublicResource
  pub log : List Call

abbrev pub M : Type 0 → Type 0
M A = Exec State A

abbrev pub gets : {A : Type 0} → (State → A) → M A
gets f s = (ok (f s), s)

-- A call of the Pangolin API.
abbrev pub call_api : {A : Type 0} → ApiCall → (List Call → Result A) → M A
call_api c answer s = (answer s.log, record s { log = api c ∷ s.log })

-- What the client does with an object that the server sends back.
abbrev pub received : PublicResource → Result PublicResource → List Call → Result (Unit {0}) × State
received sent (ok answer) log = (ok tt, record { res = answer; log = log })
received sent (err e) log = (err e, record { res = sent; log = log })

module _ (env : Env) where
  -- r.Get into `res`
  abbrev pub refetch : M (Unit {0})
  refetch s = received s.res (env.get s.log) (get_object ∷ s.log)

  -- r.Update
  abbrev pub update : M (Unit {0})
  update s = received s.res (env.update s.log s.res) (update_object s.res ∷ s.log)

  -- The status is changed in memory before it is sent, and stays changed where the patch fails.
  unfoldable pub patch_status : (PublicResourceStatus → PublicResourceStatus) → M (Unit {0})
  patch_status mutate s =
      let sent = record s.res { status = mutate s.res.status } in
      received sent (env.patch s.log s.res sent) (patch_object s.res sent ∷ s.log)

  -- shared.SetCondition on the status
  abbrev pub with_condition :
      ConditionStatus → Text → Text → ℤ → PublicResourceStatus → PublicResourceStatus
  with_condition status reason message generation st = record st {
    conditions =
        set_condition env.lib.set_status_condition st.conditions status reason message generation;
  }

  -- resolve.Site
  abbrev first_site : Text → List NewtSite → Result NewtSite
  first_site name [] = err (site_not_found name)
  first_site name (site ∷ _) = ok site

  unfoldable pub find_site : Text → M NewtSite
  find_site name = do
    sites ← λ s. (
      wrap_result (txt "list NewtSites by name " ++ quoted name) (env.sites_named s.log name),
      record s { log = list_newt_sites name ∷ s.log },
    )
    λ s. (first_site name sites, s)
