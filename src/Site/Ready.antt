-- ===== src/Site/Ready.antt =====
-- When reconcile of internal/controller/newtsite/controller.go reports success.
use mathlib.Core.Path.{subst}
use pangolin_operator.Base.{ℕ, List, ◌∷◌, ◌≡◌, ◌≢◌, refl, ap, Bool, arith}
use pangolin_operator.Base.Errors.{Error}
use pangolin_operator.Base.Exec.{Result, ok, err, Outcome, requeue_after}
use pangolin_operator.Site.Env.{Env, Call, State, patch_status, patch_object, received}
use pangolin_operator.Site.Reconcile.{reconcile, forget_site, on_create_error}
use pangolin_operator.Site.Run.{
  interval_of, ready_status, report_ready, after_report, after_scan, fail_with,
}
use pangolin_operator.Site.Branches.{reconcile_induction}
use pangolin_operator.Site.Scan.{reconcile_autodiscover}
use pangolin_operator.Site.Scan.Trace.{Discovered}
use pangolin_operator.Site.Scan.Calls.{reconcile_autodiscover-Discovered}
use pangolin_operator.Types.Meta.{ready}
use pangolin_operator.Types.Site.{NewtSite}

-- A patch that the server accepted set the phase to Ready and the observed generation to the
-- object's generation; after it came only calls of discovery, and `site` is the server's answer.
pub record IsReadyReport (env : Env) (n : ℕ) (s : State) : Type 0 where
  pub base : NewtSite
  pub sent : NewtSite
  pub before : List Call
  pub accepted : env.patch before base sent ≡ ok s.site
  pub last_calls : Discovered (patch_object base sent ∷ before) s.log
  pub phase : sent.status.phase ≡ ready
  pub generation : sent.status.observed_generation ≡ base.metadata.generation
  pub interval : n ≡ interval_of s.site.spec.auto_discover

-- An outcome that comes back later than in a second was reported.
abbrev Reports : Env → Outcome × State → Type 0
Reports env (o, s) = (n : ℕ) → o ≡ requeue_after n → n ≢ 1 → IsReadyReport env n s

module _ (env : Env) where
  module _ (base sent site : NewtSite) (before : List Call)
      (accepted : env.patch before base sent ≡ ok site) (phase : sent.status.phase ≡ ready)
      (generation : sent.status.observed_generation ≡ base.metadata.generation) where
    after_scan-Reports :
        (r : Result (Unit {0}) × List Call)
        → Discovered (patch_object base sent ∷ before) r.1
        → Reports env (after_scan env site r)
    after_scan-Reports (ok _, log) d n h k = record {
      base = base;
      sent = sent;
      before = before;
      accepted = accepted;
      last_calls = d;
      phase = phase;
      generation = generation;
      interval = ground arith;
    }
    after_scan-Reports (err e, log) d n h k = cc

  report_ready-Reports : (online : Bool) (s : State) → Reports env (report_ready env (online, s))
  unfolding report_ready patch_status
  report_ready-Reports online s = by_answer (env.patch s.log s.site sent_status) refl
    where
      sent_status : NewtSite
      sent_status = record s.site { status = ready_status env online s s.site.status }

      by_answer :
          (r : Result NewtSite)
          → env.patch s.log s.site sent_status ≡ r
          → Reports env
              (after_report env (received sent_status r (patch_object s.site sent_status ∷ s.log)))
      by_answer (ok site) e =
          after_scan-Reports s.site sent_status site s.log e refl refl
            (reconcile_autodiscover env.cluster site (patch_object s.site sent_status ∷ s.log))
            (reconcile_autodiscover-Discovered env.cluster site
              (patch_object s.site sent_status ∷ s.log))
      by_answer (err f) e = λ n h k. cc

  forget_site-Reports : (s : State) → Reports env (forget_site env s)
  unfolding forget_site
  forget_site-Reports s n h k = absurd (only_one n h k)
    where
      only_one : (m : ℕ) → (forget_site env s).0 ≡ requeue_after m → m ≢ 1 → ⊥
      only_one m = ground arith

  on_create_error-Reports : (e : Error) (s : State) → Reports env (on_create_error env e s)
  unfolding on_create_error fail_with
  on_create_error-Reports e s n h k = absurd (never n h)
    where
      never : (m : ℕ) → (on_create_error env e s).0 ≢ requeue_after m
      never m = ground arith

  reconcile-Reports : (s : State) → Reports env (reconcile env s)
  reconcile-Reports =
      reconcile_induction env (Reports env) report_ready-Reports (λ e s n h k. cc)
        forget_site-Reports on_create_error-Reports

-- Where reconcile asks to be called again in other than a second, a patch of the status was accepted
-- that set the phase to Ready and the observed generation to the object's; only calls of discovery
-- came after it, and the time is the resync interval of the object that the server answered.
pub reconcile-IsReadyReport :
    (env : Env) (s s' : State) (n : ℕ)
    → reconcile env s ≡ (requeue_after n, s')
    → n ≢ 1
    → IsReadyReport env n s'
reconcile-IsReadyReport env s s' n h k =
    subst (IsReadyReport env n) (ap (λ (x : Outcome × State). x.1) h)
      (reconcile-Reports env s n (ap (λ (x : Outcome × State). x.0) h) k)
