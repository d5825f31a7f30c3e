-- ===== src/Public/Ready.antt =====
-- When reconcile of internal/controller/publicresource/controller.go reports success.
use pangolin_operator.Base.{
  List, ◌∷◌, ◌≡◌, ◌≢◌, refl, ap, Bool, true, false, arith, not, ◌&&◌, if◌then◌else◌,
}
use pangolin_operator.Base.Errors.{Error, is_site_not_found}
use pangolin_operator.Base.Exec.{Result, ok, err, Outcome, requeue_after, retry}
use pangolin_operator.Base.Int.{pos, ◌==ℤ◌}
use mathlib.Core.Path.{subst}
use pangolin_operator.Public.Create.{ensure_exists}
use pangolin_operator.Public.Update
use pangolin_operator.Types.Meta.{ready}
use pangolin_operator.Types.Public.{PublicResource}
use pangolin_operator.Types.Site.{NewtSite}
use pangolin_operator.Public.Env.{Env, Call, State, patch_status, patch_object, refetch, find_site}
use pangolin_operator.Public.Reconcile.{
  reconcile, after_site, after_ensure, after_refetch, after_update, on_ensure_error,
  on_update_error, update_if_needed, report_ready, ready_status, needs_update, site_is_ready,
}

-- The last call was a patch that the server accepted, and that set the phase to Ready and the
-- observed generation to the object's generation; `res` is the server's answer.
pub record IsReported (env : Env) (s : State) : Type 0 where
  pub base : PublicResource
  pub sent : PublicResource
  pub before : List Call
  pub last_call : s.log ≡ patch_object base sent ∷ before
  pub accepted : env.patch before base sent ≡ ok s.res
  pub phase : sent.status.phase ≡ ready
  pub generation : sent.status.observed_generation ≡ base.metadata.generation

-- An outcome that comes back at the resync interval was reported.
abbrev Reports : Env → Outcome × State → Type 0
Reports env (o, s) = o ≡ requeue_after 600 → IsReported env s

module _ (env : Env) where
  report_ready-Reports : (s : State) → Reports env (report_ready env s)
  unfolding report_ready patch_status
  report_ready-Reports s h = record {
    base = s.res;
    sent = record s.res { status = ready_status env s s.res.status };
    before = s.log;
    last_call = ground arith;
    accepted = ground arith;
    phase = refl;
    generation = refl;
  }

  on_update_error-ne : (e : Error) (s : State) → (on_update_error env e s).0 ≢ requeue_after 600
  unfolding on_update_error
  on_update_error-ne e s = ground arith

  on_ensure_error-ne : (e : Error) (s : State) → (on_ensure_error env e s).0 ≢ requeue_after 600
  unfolding on_ensure_error
  on_ensure_error-ne e s = ground arith

  after_update-Reports : (r : Result (Unit {0}) × State) → Reports env (after_update env r)
  after_update-Reports (ok _, s) = report_ready-Reports s
  after_update-Reports (err e, s) = λ h. absurd (on_update_error-ne e s h)

  Reports-if :
      (b : Bool) (x y : Outcome × State)
      → Reports env x
      → Reports env y
      → Reports env (if b then x else y)
  Reports-if true x y hx hy = hx
  Reports-if false x y hx hy = hy

  update_if_needed-Reports :
      (site : NewtSite) (adopted had_id : Bool) (s : State)
      → Reports env (update_if_needed env site adopted had_id s)
  unfolding update_if_needed
  update_if_needed-Reports site adopted had_id s =
      Reports-if (needs_update adopted had_id s.res) _ _
        (after_update-Reports (Update.update env site.status.site_id s)) (report_ready-Reports s)

  after_refetch-Reports :
      (site : NewtSite) (adopted had_id : Bool) (r : Result (Unit {0}) × State)
      → Reports env (after_refetch env site adopted had_id r)
  after_refetch-Reports site adopted had_id (ok _, s) =
      update_if_needed-Reports site adopted had_id s
  after_refetch-Reports site adopted had_id (err e, s) = λ h. cc

  after_ensure-Reports :
      (site : NewtSite) (had_id : Bool) (r : Result Bool × State)
      → Reports env (after_ensure env site had_id r)
  unfolding after_ensure
  after_ensure-Reports site had_id (err e, s) = λ h. absurd (on_ensure_error-ne e s h)
  after_ensure-Reports site had_id (ok adopted, s) =
      Reports-if (had_id && not adopted) _ _
        (after_refetch-Reports site adopted had_id (refetch env s))
        (update_if_needed-Reports site adopted had_id s)

  after_site-Reports : (r : Result NewtSite × State) → Reports env (after_site env r)
  unfolding after_site
  after_site-Reports (err e, s) = λ h. absurd (wait_ne e h)
    where
      wait_ne :
          (e : Error)
          → (if is_site_not_found e then requeue_after 10 else retry e) ≢ requeue_after 600
      wait_ne e = ground arith
  after_site-Reports (ok site, s) =
      Reports-if (site_is_ready site) _ _
        (after_ensure-Reports site (not (s.res.status.resource_id ==ℤ pos 0))
          (ensure_exists env site.status.site_id s))
        (λ h. absurd (ten_ne h))
    where
      ten_ne : requeue_after 10 ≢ requeue_after 600
      ten_ne = ground arith

-- reconcile comes back at the resync interval only where its last call was a patch of the status
-- that the server accepted, with phase Ready and the object's generation as observed generation.
pub reconcile-IsReported :
    (env : Env) (s s' : State) → reconcile env s ≡ (requeue_after 600, s') → IsReported env s'
unfolding reconcile
reconcile-IsReported env s s' h = subst (IsReported env) (ap (λ (x : Outcome × State). x.1) h) (
    after_site-Reports env (find_site env s.res.spec.site_ref s)
      (ap (λ (x : Outcome × State). x.0) h))
