-- ===== src/Public/Order/Failure.antt =====
-- What updateResource leaves behind where the replacement of the targets fails.
use pangolin_operator.Base.{
  Option, none, some, List, [], ◌∷◌, ◌++◌, ◌≡◌, ◌⊎◌, inl, inr, sym, ◌∙◌, onto, arith, false,
}
use pangolin_operator.Base.Errors.{Error}
use pangolin_operator.Base.Exec.{err, Result-cases}
use pangolin_operator.Base.Int.{ℤ}
use pangolin_operator.Base.Text.{text_eq}
use pangolin_operator.Types.Public.{PublicResource}
use pangolin_operator.Public.Batch.Laws.{target_call}
use pangolin_operator.Public.Env.{Env, State, patch_object, patch_status}
use pangolin_operator.Public.Update.{replace_targets, sync_targets}
use pangolin_operator.Public.Order.{
  creations, sent_with, stored_state, sync_targets-Step, replace_targets-none, delete_targets_lem,
}

-- The calls of a failed replacement: the creations, and at most one patch behind them. Nothing is
-- deleted.
abbrev pub KeepsOld : Env → ℤ → State → State → Type 0
KeepsOld env site_id s s' =
    (s'.log ≡ onto (target_call env s.res.status.resource_id site_id) s.res.spec.targets s.log)
    ⊎ ((sent : PublicResource) × (s'.log
          ≡ patch_object s.res sent
            ∷ onto (target_call env s.res.status.resource_id site_id) s.res.spec.targets s.log))

module _ (env : Env) (site_id : ℤ) (s s' : State) where
  replace_failed :
      (ids : List ℤ) (failure : Option Error) (e : Error)
      → replace_targets env
          (env.hash_targets s.res.spec.targets)
          s.res.status.target_ids
          (ids, failure)
          (record { res = s.res; log = creations env site_id s s' })
        ≡ (err e, s')
      → KeepsOld env site_id s s'
  unfolding replace_targets patch_status
  replace_failed [] (some f) e h = inl (ground arith)
  replace_failed (id ∷ ids) (some f) e h = inr (
    record s.res {
      status = record s.res.status { target_ids = s.res.status.target_ids ++ id ∷ ids };
    },
    ground arith,
  )
  replace_failed ids none e h =
      elim (Result-cases
        (env.patch (creations env site_id s s') s.res (sent_with env site_id s s' ids))) [
          | inl (answer, ok_patch) ↦ ground (
            arith,
            replace_targets-none env (env.hash_targets s.res.spec.targets) s.res.status.target_ids
                ids (record { res = s.res; log = creations env site_id s s' }),
            delete_targets_lem env s.res.status.target_ids
                (stored_state env site_id s s' ids answer),
          )
          | inr (failure, no_patch) ↦ inr (
            sent_with env site_id s s' ids,
            ground (
              arith,
              replace_targets-none env (env.hash_targets s.res.spec.targets) s.res.status.target_ids
                  ids (record { res = s.res; log = creations env site_id s s' }),
            ),
          )
        ]

-- Where the replacement of the targets fails, by a target that cannot be created or by a patch that
-- is refused, no target is deleted: the calls are the creations and at most one patch of the status.
pub sync_targets-KeepsOld :
    (env : Env) (site_id : ℤ) (s s' : State) (e : Error)
    → text_eq (env.hash_targets s.res.spec.targets) s.res.status.targets_hash ≡ false
    → sync_targets env site_id s ≡ (err e, s')
    → KeepsOld env site_id s s'
sync_targets-KeepsOld env site_id s s' e differs h =
    let st = sync_targets-Step env site_id s s' differs in
    replace_failed env site_id s s' st.ids st.failure e (sym st.step ∙ h)
