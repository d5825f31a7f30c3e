-- ===== src/Site/Cleanup.antt =====
-- The method cleanup of internal/controller/newtsite/controller.go.
use pangolin_operator.Base.{◌∷◌, true, ◌≡◌, ◌⊎◌, arith, if◌then◌else◌}
use pangolin_operator.Base.Errors.{Error, is_not_found}
use pangolin_operator.Base.Exec.{ok, err, done}
use pangolin_operator.Base.Int.{pos, ◌==ℤ◌, ==ℤ_iff}
use pangolin_operator.Pangolin.Api.{delete_site}
use pangolin_operator.Site.Env.{Env, State, api, update_object}
use pangolin_operator.Site.Reconcile.{cleanup, finalizer, with_finalizers}

module _ (env : Env) (s : State) where
  -- Pangolin has no site of this object (any more), as the answers tell.
  abbrev pub SiteIsGone : Type 0
  SiteIsGone =
      (s.site.status.site_id ≡ pos 0)
      ⊎ ((env.pangolin.delete_site s.log s.site.status.site_id ≡ ok tt)
          ⊎ ((e : Error) × (env.pangolin.delete_site s.log s.site.status.site_id ≡ err e)
              × (is_not_found e ≡ true)))

-- A clean-up of a NewtSite that is done has Pangolin's answer that the site is gone, or no id to
-- delete, and its last call is the update of the object without the finalizer, which comes behind
-- the deletion.
pub cleanup-SiteIsGone :
    (env : Env) (s s' : State)
    → cleanup env s ≡ (done, s')
    → SiteIsGone env s
      × (s'.log
          ≡ update_object
              (with_finalizers s
                (env.lib.remove_finalizer s.site.metadata.finalizers finalizer)).site
            ∷ (if s.site.status.site_id ==ℤ pos 0
                then s.log
                else api (delete_site s.site.status.site_id) ∷ s.log))
unfolding cleanup
cleanup-SiteIsGone env s s' h =
    (ground (arith, ==ℤ_iff s.site.status.site_id (pos 0)), ground arith)
