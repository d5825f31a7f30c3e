-- ===== src/Private/Pushed.antt =====
-- updateSiteResource of internal/controller/privateresource/controller.go: what it sends.
use mathlib.Core.Path.{sym, subst}
use pangolin_operator.Base.{
  List, some, ◌∷◌, ◌≡◌, ◌∙◌, inl, inr, refl, ap, Bool, true, false, arith, Bool-cases, Option-cases,
  if◌then◌else◌,
}
use pangolin_operator.Base.Exec.{Result, ok, err, pure, wrapping, wrap_result, Result-cases, ◌>>=◌}
use pangolin_operator.Base.Int.{ℤ}
use pangolin_operator.Base.Text.{Text, txt, is_empty}
use pangolin_operator.Pangolin.Api.{list_domains, update_site_resource}
use pangolin_operator.Pangolin.Domain.{resolve_domain}
use pangolin_operator.Pangolin.Requests.{Domain, UpdateSiteResourceRequest}
use pangolin_operator.Private.Env.{Env, Call, State, M, api, call_api}
use pangolin_operator.Private.Resource
use pangolin_operator.Private.Resource.{
  HttpFields, update_http, update_ports, fields_of, http_fields_for, is_http, update_request,
}
use pangolin_operator.Types.Private.{PrivateResource, PrivateResourceSpec}

-- The call before was a list of the domains, and in its answer the full domain stands for this id
-- and subdomain.
pub record InDomain (env : Env) (full_domain : Text) (log : List Call) (id sub : Text)
    : Type 0 where
  pub domains : List Domain
  pub before : List Call
  pub asked : log ≡ api list_domains ∷ before
  pub answered : env.pangolin.list_domains before ≡ ok domains
  pub resolved : resolve_domain domains full_domain ≡ some (id, sub)

-- The request, sent behind `log`, has what the spec says: the shared fields, and those of the mode.
pub record Carries (env : Env) (log : List Call) (site_id : ℤ) (spec : PrivateResourceSpec)
    (req : UpdateSiteResourceRequest) : Type 0 where
  pub site : req.site_id ≡ site_id
  pub name : req.name ≡ spec.name
  pub mode : req.mode ≡ spec.mode
  pub destination : req.destination ≡ spec.destination
  pub alias : req.alias ≡ spec.alias
  pub icmp : req.disable_icmp ≡ spec.disable_icmp
  pub roles : req.role_ids ≡ spec.role_ids
  pub users : req.user_ids ≡ spec.user_ids
  pub clients : req.client_ids ≡ spec.client_ids
  pub http :
      is_http spec ≡ true
      → (req.scheme ≡ spec.scheme)
        × (req.destination_port ≡ spec.destination_port)
        × (req.ssl ≡ spec.ssl)
        × InDomain env spec.full_domain log req.domain_id req.subdomain
  pub ports :
      is_http spec ≡ false
      → (req.tcp_port_range_string ≡ spec.tcp_ports) × (req.udp_port_range_string ≡ spec.udp_ports)

-- The last call updated the object's resource as its spec says, and Pangolin accepted it.
pub record Pushed (env : Env) (site_id : ℤ) (res : PrivateResource) (log : List Call) : Type 0 where
  pub req : UpdateSiteResourceRequest
  pub earlier : List Call
  pub last_call : log ≡ api (update_site_resource res.status.site_resource_id req) ∷ earlier
  pub accepted : env.pangolin.update_site_resource earlier res.status.site_resource_id req ≡ ok tt
  pub carries : Carries env earlier site_id res.spec req

ok_inj : {A : Type 0} {x y : A} → ok x ≡ ok y → x ≡ y
ok_inj h = cc

module _ (env : Env) (site_id : ℤ) where
  abbrev FieldsOf : PrivateResourceSpec → PrivateResource → Result HttpFields × State → Type 0
  FieldsOf spec res (r, t) =
      (t.res ≡ res)
      × ((h : HttpFields)
          → r ≡ ok h
          → (h.scheme ≡ spec.scheme)
            × (h.destination_port ≡ spec.destination_port)
            × (h.ssl ≡ spec.ssl)
            × InDomain env spec.full_domain t.log h.domain_id h.subdomain)

  http_fields_for-InDomain :
      (spec : PrivateResourceSpec) (s : State) (h : HttpFields)
      → (http_fields_for env spec s).0 ≡ ok h
      → InDomain env spec.full_domain (http_fields_for env spec s).1.log h.domain_id h.subdomain
  unfolding http_fields_for fields_of
  http_fields_for-InDomain spec s h = elim (Bool-cases (is_empty spec.full_domain)) [
    | inl blank ↦ rw blank (λ k. cc)
    | inr named ↦ rw named (elim (Result-cases (env.pangolin.list_domains s.log)) [
      | inr (e, failed) ↦ rw failed (λ k. cc)
      | inl (domains, answer) ↦
          rw answer (elim (Option-cases (resolve_domain domains spec.full_domain)) [
            | inl missing ↦ rw missing (λ k. cc)
            | inr ((id, sub), found) ↦ rw found (λ k. record {
              domains = domains;
              before = s.log;
              asked = refl;
              answered = answer;
              resolved =
                  found ∙ ap (λ (x : HttpFields). some (x.domain_id, x.subdomain)) (ok_inj k);
            })
          ])
    ])
  ]

  http_fields_for-FieldsOf :
      (spec : PrivateResourceSpec) (s : State) → FieldsOf spec s.res (http_fields_for env spec s)
  unfolding http_fields_for fields_of
  http_fields_for-FieldsOf spec s = (
    ground arith,
    (λ h k. (ground arith, ground arith, ground arith, http_fields_for-InDomain spec s h k)),
  )

  abbrev RequestOf :
      PrivateResourceSpec → PrivateResource → Result UpdateSiteResourceRequest × State → Type 0
  RequestOf spec res (r, t) =
      (t.res ≡ res)
      × ((req : UpdateSiteResourceRequest) → r ≡ ok req → Carries env t.log site_id spec req)

  update_request-RequestOf :
      (spec : PrivateResourceSpec) (s : State)
      → RequestOf spec s.res (update_request env spec site_id s)
  unfolding update_request
  update_request-RequestOf spec s = by_mode (is_http spec) refl
    where
      by_fields :
          is_http spec ≡ true
          → (r : Result HttpFields × State) → FieldsOf spec s.res r
          → RequestOf spec s.res
              (((λ (_ : State). r) >>= (λ h. pure (update_http spec site_id h))) s)
      by_fields e (ok h, t) (same, f) = (
        same,
        (λ req k. subst (Carries env t.log site_id spec) (ok_inj k) (record {
          site = refl;
          name = refl;
          mode = refl;
          destination = refl;
          alias = refl;
          icmp = refl;
          roles = refl;
          users = refl;
          clients = refl;
          http = λ _. f h refl;
          ports = λ g. cc;
        })),
      )
      by_fields e (err x, t) (same, f) = (same, (λ req k. cc))

      by_mode :
          (b : Bool)
          → is_http spec ≡ b
          → RequestOf spec s.res (
              (if b
                  then (http_fields_for env spec >>= (λ h. pure (update_http spec site_id h)))
                  else pure (update_ports spec site_id))
                s)
      by_mode true e = by_fields e (http_fields_for env spec s) (http_fields_for-FieldsOf spec s)
      by_mode false e = (
        refl,
        (λ req k. subst (Carries env s.log site_id spec) (ok_inj k) (record {
          site = refl;
          name = refl;
          mode = refl;
          destination = refl;
          alias = refl;
          icmp = refl;
          roles = refl;
          users = refl;
          clients = refl;
          http = λ g. cc;
          ports = λ _. (refl, refl);
        })),
      )

  abbrev send : ℤ → UpdateSiteResourceRequest → M (Unit {0})
  send id req =
      wrapping (txt "UpdateSiteResource")
        (call_api (update_site_resource id req) (λ h. env.pangolin.update_site_resource h id req))

  wrap_result-ok :
      (prefix : Text) (r : Result (Unit {0})) → wrap_result prefix r ≡ ok tt → r ≡ ok tt
  wrap_result-ok prefix (ok _) h = refl
  wrap_result-ok prefix (err e) h = cc

  -- Where updateSiteResource succeeds, its last call sent the spec, and Pangolin accepted it.
  pub update-Pushed :
      (s t : State) → Resource.update env site_id s ≡ (ok tt, t) → Pushed env site_id t.res t.log
  unfolding Resource.update
  update-Pushed s t h =
      by_request (update_request env s.res.spec site_id s) (update_request-RequestOf s.res.spec s) h
    where
      by_request :
          (r : Result UpdateSiteResourceRequest × State)
          → RequestOf s.res.spec s.res r
          → ((λ (_ : State). r) >>= send s.res.status.site_resource_id) s ≡ (ok tt, t)
          → Pushed env site_id t.res t.log
      by_request (ok req, t') (same, f) g =
          subst (λ (x : State). Pushed env site_id x.res x.log)
            (ap (λ (x : Result (Unit {0}) × State). x.1) g)
            (subst
              (λ (x : PrivateResource).
                Pushed env site_id x
                  (api (update_site_resource s.res.status.site_resource_id req) ∷ t'.log))
              (sym same)
              (record {
                req = req;
                earlier = t'.log;
                last_call = refl;
                accepted = wrap_result-ok _ _ (ap (λ (x : Result (Unit {0}) × State). x.0) g);
                carries = f req refl;
              }))
      by_request (err x, t') k g = cc
