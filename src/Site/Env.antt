-- ===== src/Site/Env.antt =====
-- The state and the effects of the NewtSite reconciler. As in Public.Env, `log` records every call to
-- the Kubernetes and Pangolin servers, the latest first, and each answer is a function of it.
-- `Cluster` is what the discovery loops ask of Kubernetes, `Env` what the site itself needs.
use pangolin_operator.Base.{List, [], ◌∷◌, ◌++◌, map, Option, none, some}
use pangolin_operator.Base.Errors.{Error, join}
use pangolin_operator.Base.Exec.{Result, ok, err, Exec}
use pangolin_operator.Base.Int.{ℤ}
use pangolin_operator.Base.Text.{Text}
use pangolin_operator.Discover.Ensure
use pangolin_operator.Discover.Ensure.{Server, Owner}
use pangolin_operator.Discover.Objects.{Route, Service, Json}
use pangolin_operator.Pangolin.Api.{ApiCall, Api}
use pangolin_operator.Types.Meta.{ObjectMeta, KubeLib, ConditionStatus, set_condition}
use pangolin_operator.Types.Pod.{Secret, Deployment}
use pangolin_operator.Types.Public.{PublicResource, PublicResourceSpec}
use pangolin_operator.Types.Site.{NewtSite, NewtSiteStatus}

pub data Call : Type 0 where
  api : ApiCall → Call
  get_object : Call
  update_object : NewtSite → Call
  -- the object as it was, and as it is sent
  patch_object : NewtSite → NewtSite → Call
  -- controllerutil.CreateOrUpdate: the object to be created, and the change to the one that exists
  apply_secret : Secret → (Secret → Secret) → Call
  apply_service_account : ObjectMeta → Call
  apply_deployment : ObjectMeta → (Deployment → Result Deployment) → Call
  get_deployment : Text → Text → Call
  list_sites : Call
  list_http_routes list_tcp_routes list_services : Call
  get_http_route get_tcp_route get_service : Text → Text → Call
  -- a call of ensureOwnedPublicResource
  ensure : Ensure.Call → Call
  -- PublicResources by the labels of owner kind and owner name
  list_owned : Text → Text → Call
  delete_public : PublicResource → Call

-- The calls that went to Pangolin.
abbrev pub api_calls : List Call → List ApiCall
api_calls [] = []
api_calls (api c ∷ log) = c ∷ api_calls log
api_calls (_ ∷ log) = api_calls log

pub record Cluster : Type 0 where
  pub json : Json
  pub sites : List Call → Result (List NewtSite)
  pub http_routes : List Call → Result (List Route)
  pub tcp_routes : List Call → Result (List Route)
  pub services : List Call → Result (List Service)
  pub http_route : List Call → Text → Text → Result Route
  pub tcp_route : List Call → Text → Text → Result Route
  pub service : List Call → Text → Text → Result Service
  pub owned : List Call → Text → Text → Result (List PublicResource)
  pub delete : List Call → PublicResource → Result (Unit {0})
  pub get_public : List Call → Text → Text → Result PublicResource
  pub create_public : List Call → PublicResource → Result PublicResource
  pub patch_public : List Call → PublicResource → PublicResource → Result PublicResource
  -- the order in which Go ranges over a map of specs
  pub map_order : List Call → List (Text × PublicResourceSpec) → List (Text × PublicResourceSpec)

pub record Env : Type 0 where
  pub pangolin : Api (List Call)
  pub lib : KubeLib
  pub cluster : Cluster
  pub newt_endpoint : Text
  pub operator_namespace : Text
  -- controllerutil.SetControllerReference
  pub set_controller_reference : NewtSite → ObjectMeta → Result ObjectMeta
  pub get : List Call → Result NewtSite
  pub update : List Call → NewtSite → Result NewtSite
  pub patch : List Call → NewtSite → NewtSite → Result NewtSite
  pub secret : List Call → Secret → (Secret → Secret) → Result (Unit {0})
  pub service_account : List Call → ObjectMeta → Result (Unit {0})
  pub deployment : List Call → ObjectMeta → (Deployment → Result Deployment) → Result (Unit {0})
  -- status.readyReplicas of the deployment in this namespace, of this name
  pub ready_replicas : List Call → Text → Text → Result ℤ

pub record State : Type 0 where
  pub site : NewtSite
  pub log : List Call

abbrev pub M : Type 0 → Type 0
M A = Exec State A

abbrev pub call_api : {A : Type 0} → ApiCall → (List Call → Result A) → M A
call_api c answer s = (answer s.log, record s { log = api c ∷ s.log })

-- A call of Kubernetes that leaves the site in memory as it is.
abbrev pub call_kube : {A : Type 0} → Call → (List Call → Result A) → M A
call_kube c answer s = (answer s.log, record s { log = c ∷ s.log })

-- What the client does with an object that the server sends back.
abbrev pub received : NewtSite → Result NewtSite → List Call → Result (Unit {0}) × State
received sent (ok answer) log = (ok tt, record { site = answer; log = log })
received sent (err e) log = (err e, record { site = sent; log = log })

module _ (env : Env) where
  -- r.Get into `site`
  abbrev pub refetch : M (Unit {0})
  refetch s = received s.site (env.get s.log) (get_object ∷ s.log)

  -- r.Update
  abbrev pub update : M (Unit {0})
  update s = received s.site (env.update s.log s.site) (update_object s.site ∷ s.log)

  -- The status is changed in memory before it is sent, and stays changed where the patch fails.
  unfoldable pub patch_status : (NewtSiteStatus → NewtSiteStatus) → M (Unit {0})
  patch_status mutate s =
      let sent = record s.site { status = mutate s.site.status } in
      received sent (env.patch s.log s.site sent) (patch_object s.site sent ∷ s.log)

  -- shared.SetCondition on the status
  abbrev pub with_condition : ConditionStatus → Text → Text → ℤ → NewtSiteStatus → NewtSiteStatus
  with_condition status reason message generation st = record st {
    conditions =
        set_condition env.lib.set_status_condition st.conditions status reason message generation;
  }

-- The discovery loops: calls on a log, with no object of their own.
abbrev pub Run : Type 0 → Type 0
Run A = Exec (List Call) A

-- A loop that goes on after an error and keeps all errors.
abbrev errors_of : Result (Unit {0}) → List Error
errors_of (ok _) = []
errors_of (err e) = e ∷ []

unfoldable pub for_each :
    {A : Type 0} → (A → Run (Unit {0})) → List A → List Call → List Error × List Call
for_each f [] log = ([], log)
for_each f (x ∷ xs) log =
    let (r, log') = f x log in let (es, log'') = for_each f xs log' in (errors_of r ++ es, log'')

-- errors.Join
abbrev pub joined : Option Error → Result (Unit {0})
joined none = ok tt
joined (some e) = err e

abbrev pub join_errors : List Error × List Call → Result (Unit {0}) × List Call
join_errors r = (joined (join r.0), r.1)

module _ (cluster : Cluster) where
  -- The server of ensureOwnedPublicResource, after the calls in `log`.
  abbrev pub server : List Call → Server
  server log = record {
    get = λ calls. cluster.get_public (map ensure calls ++ log);
    create = λ calls. cluster.create_public (map ensure calls ++ log);
    patch = λ calls. cluster.patch_public (map ensure calls ++ log);
  }

  unfoldable pub ensure_resource : Owner → Text → Text → PublicResourceSpec → Run (Unit {0})
  ensure_resource owner namespace res_name spec log =
      let (r, calls) =
        Ensure.ensure_owned_public_resource cluster.json (server log) owner namespace res_name spec
          [] in
      (r, map ensure calls ++ log)
