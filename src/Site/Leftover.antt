-- ===== src/Site/Leftover.antt =====
-- What createSite of internal/controller/newtsite/controller.go leaves in Pangolin where it fails
-- after the site was created there.
use mathlib.Core.Path.{sym, ◌∙◌}
use pangolin_operator.Base.{ap, List, ◌∷◌, ◌≡◌, ◌⊎◌, arith, inl, inr, refl}
use pangolin_operator.Base.Errors.{Error}
use pangolin_operator.Base.Exec.{Result, ok, err, ◌>>◌}
use pangolin_operator.Base.Int.{ℤ}
use pangolin_operator.Pangolin.Api.{pick_site_defaults, create_site, delete_site}
use pangolin_operator.Pangolin.Requests.{PickSiteDefaultsResponse, CreateSiteResponse}
use pangolin_operator.Site.Create.{
  create_newt, newt_request, put_secret, store_newt, with_ids, secret_name_of, persist_or_roll_back,
  roll_back,
}
use pangolin_operator.Site.Env.{Env, Call, State, api, api_calls, patch_status}
use pangolin_operator.Types.Site.{NewtSite, NewtSiteStatus}

-- Where the patch is refused, the last call to Pangolin deletes the site.
persist-RolledBack :
    (env : Env) (id : ℤ) (mutate : NewtSiteStatus → NewtSiteStatus) (s s' : State) (e : Error)
    → persist_or_roll_back env id mutate s ≡ (err e, s')
    → api_calls s'.log ≡ delete_site id ∷ api_calls s.log
unfolding persist_or_roll_back roll_back patch_status
persist-RolledBack env id mutate s s' e h = ground arith

api_calls-put_secret :
    (env : Env) (defaults : PickSiteDefaultsResponse) (s : State)
    → api_calls (put_secret env defaults s).1.log ≡ api_calls s.log
unfolding put_secret
api_calls-put_secret env defaults s = ground arith

-- The state in which the secret is put.
abbrev pub after_creation : NewtSite → PickSiteDefaultsResponse → List Call → State
after_creation site defaults log = record {
  site = site;
  log = api (create_site (newt_request site defaults)) ∷ api pick_site_defaults ∷ log;
}

create_newt-created :
    (env : Env) (s : State) (defaults : PickSiteDefaultsResponse) (created : CreateSiteResponse)
    → env.pangolin.pick_site_defaults s.log ≡ ok defaults
    → env.pangolin.create_site (api pick_site_defaults ∷ s.log) (newt_request s.site defaults)
      ≡ ok created
    → create_newt env s ≡ store_newt env defaults created (after_creation s.site defaults s.log)
unfolding create_newt
create_newt-created env s defaults created h1 h2 = rw (h1, h2) refl

-- The last call to Pangolin after `before` was the deletion of the site.
abbrev pub IsRolledBack : ℤ → State → State → Type 0
IsRolledBack id before after = api_calls after.log ≡ delete_site id ∷ api_calls before.log

store_newt_leftover :
    (env : Env) (defaults : PickSiteDefaultsResponse) (created : CreateSiteResponse) (s s' : State)
    (e : Error)
    → store_newt env defaults created s ≡ (err e, s')
    → IsRolledBack created.site_id s s' ⊎ (put_secret env defaults s ≡ (err e, s'))
store_newt_leftover env defaults created s s' e h = by_secret (put_secret env defaults s) refl h
  where
    store : State → Result (Unit {0}) × State
    store t =
        persist_or_roll_back env created.site_id
          (λ st. record (with_ids created st) { newt_secret_name = secret_name_of t.site }) t

    by_secret :
        (r : Result (Unit {0}) × State)
        → put_secret env defaults s ≡ r
        → ((λ (_ : State). r) >> store) s ≡ (err e, s')
        → IsRolledBack created.site_id s s' ⊎ (put_secret env defaults s ≡ (err e, s'))
    by_secret (ok _, t) made k = inl (
        persist-RolledBack env created.site_id _ t s' e k
        ∙ ap (λ l. delete_site created.site_id ∷ l)
            (sym (ap (λ (x : Result (Unit {0}) × State). api_calls x.1.log) made)
              ∙ api_calls-put_secret env defaults s))
    by_secret (err f, t) made k = inr (made ∙ k)

-- When Pangolin created a newt site and createSite fails then, either its last call to Pangolin was
-- the deletion of that site, or the credentials secret could not be stored and the site stays: no
-- call to Pangolin came after the creation.
pub create_newt_leftover :
    (env : Env) (s s' : State) (defaults : PickSiteDefaultsResponse) (created : CreateSiteResponse)
    (e : Error)
    → env.pangolin.pick_site_defaults s.log ≡ ok defaults
    → env.pangolin.create_site (api pick_site_defaults ∷ s.log) (newt_request s.site defaults)
      ≡ ok created
    → create_newt env s ≡ (err e, s')
    → IsRolledBack created.site_id (after_creation s.site defaults s.log) s'
      ⊎ ((put_secret env defaults (after_creation s.site defaults s.log) ≡ (err e, s'))
          × (api_calls s'.log ≡ api_calls (after_creation s.site defaults s.log).log))
create_newt_leftover env s s' defaults created e h1 h2 h3 =
    elim (store_newt_leftover env defaults created (after_creation s.site defaults s.log) s' e
      (sym (create_newt-created env s defaults created h1 h2) ∙ h3)) [
        | inl gone ↦ inl gone
        | inr kept ↦ inr (
          kept,
          sym (ap (λ (x : Result (Unit {0}) × State). api_calls x.1.log) kept)
              ∙ api_calls-put_secret env defaults (after_creation s.site defaults s.log),
        )
      ]
