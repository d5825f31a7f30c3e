-- ===== src/Public/Cleanup.antt =====
-- The method cleanup of internal/controller/publicresource/controller.go.
use pangolin_operator.Base.{some, ◌∷◌, ◌++◌, true, false, ◌≡◌, ◌≢◌, ◌⊎◌, arith, if◌then◌else◌}
use pangolin_operator.Base.Errors.{Error, wrap, is_not_found}
use pangolin_operator.Base.Exec.{ok, err, done, retry}
use pangolin_operator.Base.Int.{pos, ◌==ℤ◌, ==ℤ_iff}
use pangolin_operator.Base.Text.{Text, txt, itoa}
use pangolin_operator.Pangolin.Api.{delete_resource}
use pangolin_operator.Public.Env.{Env, State, api, update_object, api_calls}
use pangolin_operator.Public.Reconcile.{cleanup, handle, finalizer, with_finalizers}

module _ (env : Env) (s : State) where
  -- Pangolin has no resource of this object (any more), as the answers tell.
  abbrev pub IsGone : Type 0
  IsGone =
      (s.res.status.resource_id ≡ pos 0)
      ⊎ ((env.pangolin.delete_resource s.log s.res.status.resource_id ≡ ok tt)
          ⊎ ((e : Error) × (env.pangolin.delete_resource s.log s.res.status.resource_id ≡ err e)
              × (is_not_found e ≡ true)))

-- A deletion that Pangolin refuses, other than by not knowing the resource, ends the clean-up: the
-- object is as it was, finalizer included, nothing more is called, and the error is retried.
pub cleanup_refused :
    (env : Env) (s : State) (e : Error)
    → s.res.status.resource_id ≢ pos 0
    → env.pangolin.delete_resource s.log s.res.status.resource_id ≡ err e
    → is_not_found e ≡ false
    → cleanup env s ≡ (
      retry (wrap (txt "delete Pangolin resource " ++ itoa s.res.status.resource_id) e),
      record s { log = api (delete_resource s.res.status.resource_id) ∷ s.log },
    )
unfolding cleanup
cleanup_refused env s e h1 h2 h3 = ground (arith, ==ℤ_iff s.res.status.resource_id (pos 0))

-- A clean-up that is done has Pangolin's answer that the resource is gone, or no id to delete, and
-- its last call is the update of the object without the finalizer, which comes behind the deletion.
pub cleanup-IsGone :
    (env : Env) (s s' : State)
    → cleanup env s ≡ (done, s')
    → IsGone env s
      × (s'.log
          ≡ update_object
              (with_finalizers s (env.lib.remove_finalizer s.res.metadata.finalizers finalizer)).res
            ∷ (if s.res.status.resource_id ==ℤ pos 0
                then s.log
                else api (delete_resource s.res.status.resource_id) ∷ s.log))
unfolding cleanup
cleanup-IsGone env s s' h = (ground (arith, ==ℤ_iff s.res.status.resource_id (pos 0)), ground arith)

-- An object with a deletion timestamp is only cleaned up: Pangolin is asked for one deletion of its
-- id, or for nothing where there is no id.
pub handle_deleting :
    (env : Env) (s : State) (t : Text)
    → s.res.metadata.deletion_timestamp ≡ some t
    → api_calls (handle env s).1.log ≡ (
        if s.res.status.resource_id ==ℤ pos 0
        then api_calls s.log
        else delete_resource s.res.status.resource_id ∷ api_calls s.log)
unfolding handle cleanup
handle_deleting env s t h = ground arith
