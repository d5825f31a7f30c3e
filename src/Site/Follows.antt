-- ===== src/Site/Follows.antt =====
-- The calls of reconcile of internal/controller/newtsite/controller.go, as an inductive relation
-- between the log before and the log after.
pub mod Creation
pub mod Reconciles
pub mod Names
use pangolin_operator.Base.{List, [], ◌∷◌, ◌≡◌, refl, Bool, true, false, if◌then◌else◌, inl, inr}
use pangolin_operator.Base.Errors.{Error}
use pangolin_operator.Base.Exec.{Result, ok, err, ◌>>=◌, ◌>>◌}
use pangolin_operator.Base.Int.{ℤ}
use pangolin_operator.Base.Text.{Text}
use pangolin_operator.Pangolin.Api.{ApiCall, delete_site}
use pangolin_operator.Pangolin.Requests.{PickSiteDefaultsResponse, CreateSiteResponse, SiteItem}
use pangolin_operator.Site.Env.{
  Env, Call, State, M, api, get_object, patch_object, apply_secret, apply_service_account,
  apply_deployment, get_deployment, received, patch_status, refetch,
}
use pangolin_operator.Site.Machine.{
  Step, begun, adopts, created_local, created_newt, forgot, refused, failed, reported,
}
use pangolin_operator.Site.Scan.Trace.{Discovered}
use pangolin_operator.Types.Meta.{ObjectMeta}
use pangolin_operator.Types.Pod.{Secret, Deployment}
use pangolin_operator.Types.Site.{NewtSite, NewtSiteStatus}

-- The second log is the first with calls after it, in which each patch changes the status by a step
-- and nothing else of the object, no object is updated whole and no PublicResource is deleted.
pub data Follows (start : List Call) : List Call → Type 0 where
  here : Follows start start
  asked : {log : List Call} (c : ApiCall) → Follows start log → Follows start (api c ∷ log)
  read_again : {log : List Call} → Follows start log → Follows start (get_object ∷ log)
  patched :
      {log : List Call} (base : NewtSite) (status : NewtSiteStatus)
      → Step base status
      → Follows start log
      → Follows start (patch_object base (record base { status = status }) ∷ log)
  stored_secret :
      {log : List Call} {secret : Secret} {change : Secret → Secret}
      → Follows start log
      → Follows start (apply_secret secret change ∷ log)
  stored_account :
      {log : List Call} {metadata : ObjectMeta}
      → Follows start log
      → Follows start (apply_service_account metadata ∷ log)
  stored_deployment :
      {log : List Call} {metadata : ObjectMeta} {change : Deployment → Result Deployment}
      → Follows start log
      → Follows start (apply_deployment metadata change ∷ log)
  looked :
      {log : List Call} {namespace name : Text}
      → Follows start log
      → Follows start (get_deployment namespace name ∷ log)
  scanned : {log log' : List Call} → Follows start log → Discovered log log' → Follows start log'

-- A method after which the log goes on so.
abbrev pub Goes : {A : Type 0} → List Call → M A → Type 0
Goes start m = (s : State) → Follows start s.log → Follows start (m s).1.log

module _ {A B : Type 0} (start : List Call) where
  pub bind-Goes :
      (m : M A) (f : A → M B) → Goes start m → ((a : A) → Goes start (f a)) → Goes start (m >>= f)
  bind-Goes m f h g s d = by_result (m s) (h s d)
    where
      by_result :
          (r : Result A × State)
          → Follows start r.1.log
          → Follows start (((λ (_ : State). r) >>= f) s).1.log
      by_result (ok a, t) e = g a t e
      by_result (err x, t) e = e

pub Follows-received :
    {start : List Call} (sent : NewtSite) (r : Result NewtSite) (log : List Call)
    → Follows start log
    → Follows start (received sent r log).1.log
Follows-received sent (ok site) log d = d
Follows-received sent (err e) log d = d

module _ (env : Env) (start : List Call) where
  -- A patch by a change that is a step at every object.
  pub patch_status-Goes :
      (mutate : NewtSiteStatus → NewtSiteStatus)
      → ((site : NewtSite) → Step site (mutate site.status))
      → Goes start (patch_status env mutate)
  unfolding patch_status
  patch_status-Goes mutate step s d =
      Follows-received _ _ _ (patched s.site (mutate s.site.status) (step s.site) d)

  pub patch_here :
      (mutate : NewtSiteStatus → NewtSiteStatus) (s : State)
      → Step s.site (mutate s.site.status)
      → Follows start s.log
      → Follows start (patch_status env mutate s).1.log
  unfolding patch_status
  patch_here mutate s step d = Follows-received _ _ _ (patched s.site (mutate s.site.status) step d)

  pub refetch-Goes : Goes start (refetch env)
  refetch-Goes s d = Follows-received _ _ _ (read_again d)
