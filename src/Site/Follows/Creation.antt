-- ===== src/Site/Follows/Creation.antt =====
-- The calls of findOrCreate and updateSite of internal/controller/newtsite/controller.go.
use pangolin_operator.Base.{List, Option, none, some, Bool, true, false, if◌then◌else◌}
use pangolin_operator.Base.Exec.{Result, ok, err, or_fail, wrapping, ◌>>=◌}
use pangolin_operator.Base.Int.{ℤ}
use pangolin_operator.Base.Text.{txt, text_eq}
use pangolin_operator.Pangolin.Api.{
  delete_site, create_site, pick_site_defaults, list_sites, get_site, update_site,
}
use pangolin_operator.Pangolin.Requests.{
  PickSiteDefaultsResponse, CreateSiteResponse, SiteItem, GetSiteResponse,
}
use pangolin_operator.Site.Create.{
  find_site, ask_site, ask_defaults, list_named, secret_meta, store_secret, secret_name_of,
  local_request, newt_request, with_ids, credentials, roll_back, kept_or_rolled_back,
  persist_or_roll_back, request_site, create_local, put_secret, store_newt, create_newt, create,
  adopted, adopt_or_create, find_or_create, rename_if, update_remote,
}
use pangolin_operator.Site.Env.{Env, Call, State, M, call_api, patch_status}
use pangolin_operator.Site.Follows.{
  Follows, asked, stored_secret, Goes, bind-Goes, patch_status-Goes, patch_here,
}
use pangolin_operator.Site.Machine.{Step, begun, adopts, created_local, created_newt}
use pangolin_operator.Types.Meta.{creating, site_type_local}
use pangolin_operator.Types.Site.{NewtSiteStatus}

module _ (env : Env) (start : List Call) where
  persist-Follows :
      (id : ℤ) (mutate : NewtSiteStatus → NewtSiteStatus) (s : State)
      → Step s.site (mutate s.site.status)
      → Follows start s.log
      → Follows start (persist_or_roll_back env id mutate s).1.log
  unfolding persist_or_roll_back roll_back
  persist-Follows id mutate s step d =
      by_result (patch_status env mutate s) (patch_here env start mutate s step d)
    where
      by_result :
          (r : Result (Unit {0}) × State)
          → Follows start r.1.log
          → Follows start (kept_or_rolled_back env id r.0 r.1).1.log
      by_result (ok _, t) e = e
      by_result (err x, t) e = asked (delete_site id) e

  create_local-Goes : Goes start (create_local env)
  unfolding create_local
  create_local-Goes s =
      bind-Goes start (request_site env (local_request s.site))
        (λ created. persist_or_roll_back env created.site_id (with_ids created))
        (λ t d. asked (create_site (local_request s.site)) d)
        (λ created t d.
          persist-Follows created.site_id (with_ids created) t (created_local created) d)
        s

  put_secret-Goes : (defaults : PickSiteDefaultsResponse) → Goes start (put_secret env defaults)
  unfolding put_secret
  put_secret-Goes defaults s =
      bind-Goes start (or_fail (secret_meta env s.site))
        (store_secret env (credentials env.newt_endpoint defaults)) (λ t d. d)
        (λ metadata t d. stored_secret d) s

  store_newt-Goes :
      (defaults : PickSiteDefaultsResponse) (created : CreateSiteResponse)
      → Goes start (store_newt env defaults created)
  store_newt-Goes defaults created =
      bind-Goes start (put_secret env defaults)
        (λ _ t.
          persist_or_roll_back env created.site_id
            (λ st. record (with_ids created st) { newt_secret_name = secret_name_of t.site }) t)
        (put_secret-Goes defaults)
        (λ _ t d.
          persist-Follows created.site_id
            (λ st. record (with_ids created st) { newt_secret_name = secret_name_of t.site }) t
            (created_newt created) d)

  create_newt-Goes : Goes start (create_newt env)
  unfolding create_newt
  create_newt-Goes =
      bind-Goes start (ask_defaults env)
        (λ defaults.
          (λ s. request_site env (newt_request s.site defaults) s) >>= store_newt env defaults)
        (λ t d. asked pick_site_defaults d)
        (λ defaults.
          bind-Goes start (λ s. request_site env (newt_request s.site defaults) s)
            (store_newt env defaults) (λ t d. asked (create_site (newt_request t.site defaults)) d)
            (λ created. store_newt-Goes defaults created))

  Goes-if :
      (b : State → Bool) (m k : M (Unit {0}))
      → Goes start m
      → Goes start k
      → Goes start (λ s. if b s then m s else k s)
  Goes-if b m k h g s d = by_test (b s)
    where
      by_test : (c : Bool) → Follows start (if c then m s else k s).1.log
      by_test true = h s d
      by_test false = g s d

  create-Goes : Goes start (create env)
  unfolding create
  create-Goes =
      bind-Goes start (patch_status env (λ st. record st { phase = creating }))
        (λ _ s.
          if text_eq s.site.spec.site_type site_type_local
          then create_local env s
          else create_newt env s)
        (patch_status-Goes env start (λ st. record st { phase = creating }) (λ site. begun))
        (λ _.
          Goes-if (λ s. text_eq s.site.spec.site_type site_type_local) (create_local env)
            (create_newt env) create_local-Goes create_newt-Goes)

  adopt_or_create-Goes : (match : Option SiteItem) → Goes start (adopt_or_create env match)
  adopt_or_create-Goes none = create-Goes
  adopt_or_create-Goes (some item) =
      patch_status-Goes env start (adopted item) (λ site. adopts item)

  pub find_or_create-Goes : Goes start (find_or_create env)
  unfolding find_or_create
  find_or_create-Goes s =
      bind-Goes start (list_named env s.site.spec.name)
        (λ items. adopt_or_create env (find_site items s.site.spec.name))
        (λ t d. asked (list_sites s.site.spec.name) d)
        (λ items. adopt_or_create-Goes (find_site items s.site.spec.name)) s

  rename_if-Goes : (live : GetSiteResponse) → Goes start (rename_if env live)
  rename_if-Goes live s d = by_test (text_eq live.name s.site.spec.name)
    where
      rename : M (Unit {0})
      rename = wrapping (txt "UpdateSite") (
          call_api (update_site s.site.status.site_id (record { name = s.site.spec.name })) (λ h.
            env.pangolin.update_site h s.site.status.site_id (record { name = s.site.spec.name })))

      by_test : (c : Bool) → Follows start (if c then (ok tt, s) else rename s).1.log
      by_test true = d
      by_test false =
          asked (update_site s.site.status.site_id (record { name = s.site.spec.name })) d

  pub update_remote-Goes : Goes start (update_remote env)
  unfolding update_remote
  update_remote-Goes s =
      bind-Goes start (ask_site env s.site.status.site_id) (rename_if env)
        (λ t d. asked (get_site s.site.status.site_id) d) (λ live. rename_if-Goes live) s
