-- ===== src/Site/Garbage.antt =====
-- deleteOwnedResources of internal/controller/newtsite/controller.go, and the handlers that call it.
use mathlib.Core.Path.{◌∙◌, sym}
use pangolin_operator.Base.{
  ap, Option, none, some, List, [], ◌∷◌, ◌≡◌, ◌⊎◌, inl, inr, refl, true, false, onto, Bool-cases,
  ◌↔◌,
}
use pangolin_operator.Base.Errors.{Error, is_kube_not_found}
use pangolin_operator.Base.Exec.{ok, err, Outcome, done, Result-cases}
use pangolin_operator.Base.Text.{Text, txt}
use pangolin_operator.Site.Discovery.{delete_all, deleted, delete_owned_resources}
use pangolin_operator.Site.Env.{Cluster, Call, list_owned, delete_public, get_http_route}
use pangolin_operator.Site.Resolve.{discover, reconcile_http_route}
use pangolin_operator.Types.Public.{PublicResource}

-- The server's answer to a deletion: it is deleted, or was not there.
abbrev pub WasDeleted : Cluster → List Call → PublicResource → Type 0
WasDeleted cluster log r =
    (cluster.delete log r ≡ ok tt)
    ⊎ ((e : Error) × (cluster.delete log r ≡ err e) × (is_kube_not_found e ≡ true))

-- Each of the resources was deleted, one after the other.
abbrev pub AllDeleted : Cluster → List PublicResource → List Call → Type 0
AllDeleted cluster [] log = Unit
AllDeleted cluster (r ∷ rs) log =
    WasDeleted cluster log r × AllDeleted cluster rs (delete_public r ∷ log)

module _ (cluster : Cluster) where
  delete_all-cons :
      (r : PublicResource) (rs : List PublicResource) (log : List Call)
      → WasDeleted cluster log r
      → delete_all cluster (r ∷ rs) log ≡ delete_all cluster rs (delete_public r ∷ log)
  unfolding delete_all
  delete_all-cons r rs log (inl e) = rw (delete_all, e) refl
  delete_all-cons r rs log (inr (e, f, absent)) = rw (delete_all, f, absent) refl

  delete_all_fails :
      (r : PublicResource) (rs : List PublicResource) (log : List Call) (e : Error)
      → cluster.delete log r ≡ err e
      → is_kube_not_found e ≡ false
      → delete_all cluster (r ∷ rs) log ≡ (some e, delete_public r ∷ log)
  unfolding delete_all
  delete_all_fails r rs log e f broken = rw (delete_all, f, broken) refl

  WasDeleted-cases :
      (log : List Call) (r : PublicResource)
      → WasDeleted cluster log r
        ⊎ ((e : Error) × (cluster.delete log r ≡ err e) × (is_kube_not_found e ≡ false))
  WasDeleted-cases log r = elim (Result-cases (cluster.delete log r)) [
    | inl (u, e) ↦ inl (inl e)
    | inr (e, f) ↦ elim (Bool-cases (is_kube_not_found e)) [
      | inl absent ↦ inl (inr (e, f, absent))
      | inr broken ↦ inr (e, f, broken)
    ]
  ]

  delete_all-AllDeleted :
      (rs : List PublicResource) (log log' : List Call)
      → delete_all cluster rs log ≡ (none, log')
      → AllDeleted cluster rs log × (log' ≡ onto delete_public rs log)
  unfolding delete_all
  delete_all-AllDeleted [] log log' h = (tt, sym (ap (λ (x : Option Error × List Call). x.1) h))
  delete_all-AllDeleted (r ∷ rs) log log' h = elim (WasDeleted-cases log r) [
    | inl gone ↦
        let (all, same) =
          delete_all-AllDeleted rs (delete_public r ∷ log) log'
            (sym (delete_all-cons r rs log gone) ∙ h) in
        ((gone, all), same)
    | inr (e, f, broken) ↦ absurd (some_ne (sym (delete_all_fails r rs log e f broken) ∙ h))
  ]
    where
      some_ne :
          {e : Error} {a b : List Call}
          → ◌≡◌ {A = Option Error × List Call} (some e, a) (none, b)
          → ⊥
      some_ne k = cc

  delete_all_of_AllDeleted :
      (rs : List PublicResource) (log : List Call)
      → AllDeleted cluster rs log
      → delete_all cluster rs log ≡ (none, onto delete_public rs log)
  unfolding delete_all
  delete_all_of_AllDeleted [] log _ = refl
  delete_all_of_AllDeleted (r ∷ rs) log (gone, all) =
      delete_all-cons r rs log gone ∙ delete_all_of_AllDeleted rs (delete_public r ∷ log) all

  -- Once the PublicResources with the labels of an owner are listed, deleteOwnedResources is done
  -- just where the server has deleted each of them, or did not find it, and then its calls are one
  -- deletion of each in the list's order.
  pub delete_owned_resources_done_iff :
      (kind name : Text) (log log' : List Call) (rs : List PublicResource)
      → cluster.owned log kind name ≡ ok rs
      → (delete_owned_resources cluster kind name log ≡ (done, log')) ↔ (
          AllDeleted cluster rs (list_owned kind name ∷ log)
          × (log' ≡ onto delete_public rs (list_owned kind name ∷ log)))
  unfolding delete_owned_resources
  delete_owned_resources_done_iff kind name log log' rs listed = rw listed (
    by_result (delete_all cluster rs (list_owned kind name ∷ log)) refl,
    λ (all, same). rw (delete_all_of_AllDeleted rs (list_owned kind name ∷ log) all, same) refl,
  )
    where
      by_result :
          (r : Option Error × List Call)
          → delete_all cluster rs (list_owned kind name ∷ log) ≡ r
          → deleted cluster r ≡ (done, log')
          → AllDeleted cluster rs (list_owned kind name ∷ log)
            × (log' ≡ onto delete_public rs (list_owned kind name ∷ log))
      by_result (none, log'') e h =
          delete_all-AllDeleted rs (list_owned kind name ∷ log) log'
            (e ∙ ap (λ (x : Outcome × List Call). (none, x.1)) h)
      by_result (some f, log'') e h = cc

-- Where the HTTPRoute of a request is gone, the handler deletes the PublicResources whose labels
-- have this kind and this name, as the server lists them, whatever their namespace and that of the
-- request, and is done once each is deleted.
pub reconcile_http_route_gone :
    (cluster : Cluster) (namespace name : Text) (log : List Call) (e : Error)
    (rs : List PublicResource)
    → cluster.http_route log namespace name ≡ err e
    → is_kube_not_found e ≡ true
    → cluster.owned (get_http_route namespace name ∷ log) (txt "httproute") name ≡ ok rs
    → AllDeleted cluster rs
        (list_owned (txt "httproute") name ∷ get_http_route namespace name ∷ log)
    → reconcile_http_route cluster namespace name log ≡ (
      done,
      onto delete_public rs
          (list_owned (txt "httproute") name ∷ get_http_route namespace name ∷ log),
    )
unfolding reconcile_http_route discover
reconcile_http_route_gone cluster namespace name log e rs absent gone listed all =
    rw (absent, gone)
      ((delete_owned_resources_done_iff cluster (txt "httproute") name
          (get_http_route namespace name ∷ log) _ rs listed).1
        (all, refl))
