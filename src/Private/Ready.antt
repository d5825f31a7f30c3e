-- ===== src/Private/Ready.antt =====
-- When reconcile of internal/controller/privateresource/controller.go reports success.
use mathlib.Core.Path.{sym, subst}
use pangolin_operator.Base.{
  List, ◌∷◌, ◌≡◌, ◌≢◌, refl, ap, Bool, true, false, arith, not, ◌&&◌, if◌then◌else◌,
}
use pangolin_operator.Base.Errors.{Error, is_site_not_found}
use pangolin_operator.Base.Exec.{Result, ok, err, Outcome, requeue_after, retry}
use pangolin_operator.Base.Int.{pos, ◌==ℤ◌, ==ℤ_iff}
use pangolin_operator.Base.Text.{Text}
use pangolin_operator.Private.Env.{Env, Call, State, patch_status, patch_object, refetch, find_site}
use pangolin_operator.Private.Pushed.{Pushed, update-Pushed}
use pangolin_operator.Private.Reconcile.{
  reconcile, after_site, after_ensure, after_refetch, after_update, on_ensure_error,
  on_update_error, update_if_needed, report_ready, ready_status, needs_update, is_ready,
  site_is_ready,
}
use pangolin_operator.Private.Resource
use pangolin_operator.Private.Resource.{ensure_exists}
use pangolin_operator.Types.Meta.{Phase, unset, pending, creating, ready, deleting, error}
use pangolin_operator.Types.Private.{PrivateResource}
use pangolin_operator.Types.Site.{NewtSite}

-- An object that had an id at the start, still has one, and whose generation is not the observed one
-- was pushed to Pangolin by the last call.
abbrev Pushes : Env → State → NewtSite → PrivateResource → List Call → Type 0
Pushes env start site res log =
    start.res.status.site_resource_id ≢ pos 0
    → res.status.site_resource_id ≢ pos 0
    → res.metadata.generation ≢ res.status.observed_generation
    → Pushed env site.status.site_id res log

-- The last call was a patch that the server accepted, and that set the phase to Ready and the
-- observed generation to the object's generation; a new generation was pushed before.
pub record IsSynced (env : Env) (start s : State) : Type 0 where
  pub site : NewtSite
  pub found : (find_site env start.res.spec.site_ref start).0 ≡ ok site
  pub site_phase : site.status.phase ≡ ready
  pub has_site_id : site.status.site_id ≢ pos 0
  pub base : PrivateResource
  pub sent : PrivateResource
  pub before : List Call
  pub last_call : s.log ≡ patch_object base sent ∷ before
  pub accepted : env.patch before base sent ≡ ok s.res
  pub phase : sent.status.phase ≡ ready
  pub generation : sent.status.observed_generation ≡ base.metadata.generation
  pub pushed : Pushes env start site base before

-- An outcome that comes back at the resync interval was reported.
abbrev Reports : Env → State → Outcome × State → Type 0
Reports env start (o, s) = o ≡ requeue_after 600 → IsSynced env start s

is_ready-phase : (p : Phase) → is_ready p ≡ true → p ≡ ready
is_ready-phase unset h = cc
is_ready-phase pending h = cc
is_ready-phase creating h = cc
is_ready-phase ready h = refl
is_ready-phase deleting h = cc
is_ready-phase error h = cc

ready_parts :
    (site : NewtSite)
    → site_is_ready site ≡ true
    → (site.status.phase ≡ ready) × (site.status.site_id ≢ pos 0)
ready_parts site h = (
  is_ready-phase site.status.phase (ground arith),
  λ none_. ground (arith, ==ℤ_iff site.status.site_id (pos 0)),
)

module _ (env : Env) (start : State) where
  Reports-if :
      (b : Bool) (x y : Outcome × State)
      → (b ≡ true → Reports env start x)
      → (b ≡ false → Reports env start y)
      → Reports env start (if b then x else y)
  Reports-if true x y hx hy = hx refl
  Reports-if false x y hx hy = hy refl

  on_update_error-ne : (e : Error) (s : State) → (on_update_error env e s).0 ≢ requeue_after 600
  unfolding on_update_error
  on_update_error-ne e s = ground arith

  on_ensure_error-ne : (e : Error) (s : State) → (on_ensure_error env e s).0 ≢ requeue_after 600
  unfolding on_ensure_error
  on_ensure_error-ne e s = ground arith

  module _ (site : NewtSite) (found : (find_site env start.res.spec.site_ref start).0 ≡ ok site)
      (is_up : site_is_ready site ≡ true) where
    report_ready-Reports :
        (s : State) → Pushes env start site s.res s.log → Reports env start (report_ready env s)
    unfolding report_ready patch_status
    report_ready-Reports s push h = record {
      site = site;
      found = found;
      site_phase = (ready_parts site is_up).0;
      has_site_id = (ready_parts site is_up).1;
      base = s.res;
      sent = record s.res { status = ready_status env s s.res.status };
      before = s.log;
      last_call = ground arith;
      accepted = ground arith;
      phase = refl;
      generation = refl;
      pushed = push;
    }

    after_update-Reports :
        (r : Result (Unit {0}) × State)
        → ((t : State) → r ≡ (ok tt, t) → Pushed env site.status.site_id t.res t.log)
        → Reports env start (after_update env r)
    after_update-Reports (ok _, s) push = report_ready-Reports s (λ _ _ _. push s refl)
    after_update-Reports (err e, s) push = λ h. absurd (on_update_error-ne e s h)

    abbrev had_id : Bool
    had_id = not (start.res.status.site_resource_id ==ℤ pos 0)

    not_needed :
        (adopted : Bool) (res : PrivateResource)
        → needs_update adopted had_id res ≡ false
        → start.res.status.site_resource_id ≢ pos 0
        → res.status.site_resource_id ≢ pos 0
        → res.metadata.generation ≢ res.status.observed_generation
        → ⊥
    not_needed adopted res h a b c = ground (
      arith,
      ==ℤ_iff start.res.status.site_resource_id (pos 0),
      ==ℤ_iff res.status.site_resource_id (pos 0),
      ==ℤ_iff res.metadata.generation res.status.observed_generation,
    )

    update_if_needed-Reports :
        (adopted : Bool) (s : State)
        → Reports env start (update_if_needed env site adopted had_id s)
    unfolding update_if_needed
    update_if_needed-Reports adopted s =
        Reports-if (needs_update adopted had_id s.res) _ _
          (λ _.
            after_update-Reports (Resource.update env site.status.site_id s)
              (update-Pushed env site.status.site_id s))
          (λ h. report_ready-Reports s (λ a b c. absurd (not_needed adopted s.res h a b c)))

    after_refetch-Reports :
        (adopted : Bool) (r : Result (Unit {0}) × State)
        → Reports env start (after_refetch env site adopted had_id r)
    after_refetch-Reports adopted (ok _, s) = update_if_needed-Reports adopted s
    after_refetch-Reports adopted (err e, s) = λ h. cc

    after_ensure-Reports :
        (r : Result Bool × State) → Reports env start (after_ensure env site had_id r)
    unfolding after_ensure
    after_ensure-Reports (err e, s) = λ h. absurd (on_ensure_error-ne e s h)
    after_ensure-Reports (ok adopted, s) =
        Reports-if (had_id && not adopted) _ _ (λ _. after_refetch-Reports adopted (refetch env s))
          (λ _. update_if_needed-Reports adopted s)

  find_site_res : (name : Text) (s : State) → (find_site env name s).1.res ≡ s.res
  unfolding find_site
  find_site_res name s = ground arith

  ten_ne : requeue_after 10 ≢ requeue_after 600
  ten_ne = ground arith

  wait_ne :
      (e : Error) → (if is_site_not_found e then requeue_after 10 else retry e) ≢ requeue_after 600
  wait_ne e = ground arith

  after_site-Reports :
      (r : Result NewtSite × State)
      → (find_site env start.res.spec.site_ref start).0 ≡ r.0
      → r.1.res ≡ start.res
      → Reports env start (after_site env r)
  unfolding after_site
  after_site-Reports (err e, s) _ _ = λ h. absurd (wait_ne e h)
  after_site-Reports (ok site, s) found same =
      Reports-if (site_is_ready site) _ _
        (λ is_up.
          subst
            (λ (res : PrivateResource). Reports env start (
              after_ensure env site (not (res.status.site_resource_id ==ℤ pos 0))
                (ensure_exists env site.status.site_id s)))
            (sym same)
            (after_ensure-Reports site found is_up (ensure_exists env site.status.site_id s)))
        (λ _ h. absurd (ten_ne h))

-- reconcile comes back at the resync interval only where the NewtSite that the object names was
-- found with phase Ready and an id other than 0, and its last call was a patch of the status that the server accepted, with phase
-- Ready and the object's generation as observed generation. Where that generation was not yet the
-- observed one, and the object had an id at the start and has one then, the call before was an
-- update of the Pangolin resource that Pangolin accepted, with the site's id and the spec's name,
-- mode, destination, alias, ICMP setting, roles, users and clients; in mode http with its scheme,
-- destination port and ssl, and with the domain id and subdomain that its full domain has among the
-- domains that Pangolin listed just before; in the other modes with its port ranges.
pub reconcile-IsSynced :
    (env : Env) (s s' : State) → reconcile env s ≡ (requeue_after 600, s') → IsSynced env s s'
unfolding reconcile
reconcile-IsSynced env s s' h = subst (IsSynced env s) (ap (λ (x : Outcome × State). x.1) h) (
    after_site-Reports env s (find_site env s.res.spec.site_ref s) refl
      (find_site_res env s s.res.spec.site_ref s) (ap (λ (x : Outcome × State). x.0) h))
