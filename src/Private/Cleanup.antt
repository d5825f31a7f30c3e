-- ===== src/Private/Cleanup.antt =====
-- The method cleanup of internal/controller/privateresource/controller.go.
use pangolin_operator.Base.{◌∷◌, true, ◌≡◌, ◌⊎◌, arith, if◌then◌else◌}
use pangolin_operator.Base.Errors.{Error, is_not_found}
use pangolin_operator.Base.Exec.{ok, err, done}
use pangolin_operator.Base.Int.{pos, ◌==ℤ◌, ==ℤ_iff}
use pangolin_operator.Pangolin.Api.{delete_site_resource}
use pangolin_operator.Private.Env.{Env, State, api, update_object}
use pangolin_operator.Private.Reconcile.{cleanup, finalizer, with_finalizers}

module _ (env : Env) (s : State) where
  -- Pangolin has no resource of this object (any more), as the answers tell.
  abbrev pub IsGone : Type 0
  IsGone =
      (s.res.status.site_resource_id ≡ pos 0)
      ⊎ ((env.pangolin.delete_site_resource s.log s.res.status.site_resource_id ≡ ok tt)
          ⊎ ((e : Error) × (env.pangolin.delete_site_resource s.log s.res.status.site_resource_id
                ≡ err e)
              × (is_not_found e ≡ true)))

-- A clean-up that is done has Pangolin's answer that the resource is gone, or no id to delete, and
-- its last call is the update of the object without the finalizer, which comes behind the deletion.
pub cleanup_done :
    (env : Env) (s s' : State)
    → cleanup env s ≡ (done, s')
    → IsGone env s
      × (s'.log
          ≡ update_object
              (with_finalizers s (env.lib.remove_finalizer s.res.metadata.finalizers finalizer)).res
            ∷ (if s.res.status.site_resource_id ==ℤ pos 0
                then s.log
                else api (delete_site_resource s.res.status.site_resource_id) ∷ s.log))
unfolding cleanup
cleanup_done env s s' h =
    (ground (arith, ==ℤ_iff s.res.status.site_resource_id (pos 0)), ground arith)
