-- ===== src/Public/Tests.antt =====
-- Tests of the PublicResource reconciler on concrete servers.
mod Data
use pangolin_operator.Base.{
  ℕ, suc, ◌++◌, ◌≢◌, ◌⊎◌, none, some, List, [], ◌∷◌, ◌≡◌, ◌↔◌, refl, false, true, All, inl, inr,
  length, onto, if◌then◌else◌,
}
use pangolin_operator.Base.Errors.{
  Error, join, plain, bad_request, wrap, is_bad_request, is_conflict, is_not_found,
}
use pangolin_operator.Base.Exec.{ok, err, done, retry, requeue_after}
use pangolin_operator.Base.Int.{ℤ, pos, ◌==ℤ◌}
use pangolin_operator.Base.Text.{Text, txt, text_eq, itoa}
use pangolin_operator.Pangolin.Api.{list_resources, delete_resource}
use pangolin_operator.Pangolin.Requests.{ResourceItem, CreateTargetResponse}
use pangolin_operator.Types.Public.{PublicResource}
use pangolin_operator.Public.Adoption.{
  ensure_exists_listed, ensure_exists_adopts, persist_or_roll_back_lem, adopted_status,
  created_status,
}
use pangolin_operator.Public.Batch.{
  create_targets, create_rules, send_target, send_targets, send_rule, send_rules, collect, slots,
  errors_of, nonzero,
}
use pangolin_operator.Public.Batch.Created.{
  Returned, create_targets-Returned, create_rules-Returned,
}
use pangolin_operator.Public.Batch.Laws.{target_call, target_answers}
use pangolin_operator.Public.Cleanup.{IsGone, cleanup_refused, cleanup-IsGone, handle_deleting}
use pangolin_operator.Public.Create.{ensure_exists, persist_or_roll_back}
use pangolin_operator.Public.Env.{
  Env, State, api, api_calls, patch_object, update_object, patch_status, find_site,
}
use pangolin_operator.Public.Find.{
  StandsFor, IsFirst, find_resource-IsFirst, find_resource-eq-none_iff,
}
use pangolin_operator.Public.Order.{Replaced, sync_targets-Replaced}
use pangolin_operator.Public.Order.Failure.{KeepsOld, sync_targets-KeepsOld}
use pangolin_operator.Public.Outcomes.{reconcile-terminal, reconcile_waits, reconcile_steady}
use pangolin_operator.Public.Ready.{IsReported, reconcile-IsReported}
use pangolin_operator.Public.Reconcile.{
  cleanup, handle, reconcile, finalizer, with_finalizers, after_site, report_ready,
  update_if_needed, after_ensure, on_ensure_error, on_update_error,
}
use pangolin_operator.Public.Requests.{find_resource, item_matches, still_listed, target_request}
use pangolin_operator.Public.Update.{sync_targets, replace_targets, delete_targets}
use pangolin_operator.Public.Tests.Data.{
  env, strict, read_only, no_sites, start, new_start, deleted, web, new_web, items, item, home,
  unready_home, two_targets, one_rule, created,
}

sync_targets-Replaced_example : Replaced env (pos 9) start (sync_targets env (pos 9) start).1
unfolding text_eq sync_targets replace_targets create_targets send_targets send_target collect slots
    errors_of nonzero patch_status delete_targets
sync_targets-Replaced_example =
    sync_targets-Replaced env (pos 9) start (sync_targets env (pos 9) start).1 refl refl

sync_targets-KeepsOld_example : KeepsOld strict (pos 9) start (sync_targets strict (pos 9) start).1
unfolding text_eq sync_targets replace_targets create_targets send_targets send_target collect slots
    errors_of nonzero patch_status delete_targets join target_request
sync_targets-KeepsOld_example =
    sync_targets-KeepsOld strict (pos 9) start (sync_targets strict (pos 9) start).1
      (wrap (txt "CreateTarget") (plain (txt "no such port"))) refl refl

create_targets-Returned_example :
    Returned
      (λ (r : CreateTargetResponse). r.target_id)
      (onto (target_call strict (pos 5) (pos 9)) two_targets [])
      (target_answers strict (pos 5) (pos 9) two_targets [])
      start
      (create_targets strict (pos 5) (pos 9) two_targets start).1
      (pos 7 ∷ [])
      (some (wrap (txt "CreateTarget") (plain (txt "no such port"))))
unfolding create_targets send_targets send_target collect slots errors_of nonzero join
    target_request
create_targets-Returned_example =
    create_targets-Returned strict (pos 5) (pos 9) two_targets start
      (create_targets strict (pos 5) (pos 9) two_targets start).1 (pos 7 ∷ [])
      (some (wrap (txt "CreateTarget") (plain (txt "no such port")))) refl

ne_zero : (n : ℕ) → pos (suc n) ≢ pos 0
ne_zero n h = cc

cleanup-IsGone_example :
    IsGone env start
    × ((cleanup env start).1.log
        ≡ update_object (with_finalizers start []).res ∷ api (delete_resource (pos 5)) ∷ [])
unfolding cleanup
cleanup-IsGone_example = cleanup-IsGone env start (cleanup env start).1 refl

reconcile-IsReported_example : IsReported env (reconcile env start).1
unfolding reconcile after_site find_site after_ensure ensure_exists update_if_needed report_ready
    patch_status still_listed
reconcile-IsReported_example = reconcile-IsReported env start (reconcile env start).1 refl

reconcile_steady_example :
    (api_calls (reconcile env start).1.log ≡ list_resources (txt "web") ∷ [])
    × (((reconcile env start).0 ≡ requeue_after 600)
        ⊎ ((e : Error) × ((reconcile env start).0 ≡ retry e)))
unfolding still_listed
reconcile_steady_example =
    reconcile_steady env start home [] items web refl refl refl refl refl refl refl

ensure_exists_adopts_example :
    ((ensure_exists env (pos 9) new_start).1.log
      ≡ patch_object new_web
          (record new_web { status = adopted_status (item (pos 5) (txt "web")) new_web.status })
        ∷ api (list_resources (txt "web"))
        ∷ [])
    × (((answer : PublicResource) × (env.patch
              (api (list_resources (txt "web")) ∷ [])
              new_web
              (record new_web { status = adopted_status (item (pos 5) (txt "web")) new_web.status })
            ≡ ok answer)
          × ((ensure_exists env (pos 9) new_start).0 ≡ ok true))
        ⊎ ((e : Error) × (env.patch
                (api (list_resources (txt "web")) ∷ [])
                new_web
                (record new_web {
                  status = adopted_status (item (pos 5) (txt "web")) new_web.status;
                })
              ≡ err e)
            × ((ensure_exists env (pos 9) new_start).0 ≡ err e)))
unfolding find_resource text_eq
ensure_exists_adopts_example =
    ensure_exists_adopts env (pos 9) new_start items (item (pos 5) (txt "web")) refl (inl refl) refl

persist_or_roll_back_example :
    ((answer : PublicResource) × (read_only.patch [] new_web
          (record new_web { status = created_status created new_web.status })
        ≡ ok answer)
      × (persist_or_roll_back read_only created new_start ≡ (
        ok tt,
        record {
          res = answer;
          log =
              patch_object new_web
                (record new_web { status = created_status created new_web.status })
              ∷ [];
        },
      )))
    ⊎ ((e : Error) × (read_only.patch [] new_web
            (record new_web { status = created_status created new_web.status })
          ≡ err e)
        × ((persist_or_roll_back read_only created new_start).0 ≡ err e)
        × ((persist_or_roll_back read_only created new_start).1.log
            ≡ api (delete_resource (pos 5))
              ∷ patch_object new_web
                  (record new_web { status = created_status created new_web.status })
              ∷ []))
persist_or_roll_back_example = persist_or_roll_back_lem read_only created new_start
