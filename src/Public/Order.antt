-- ===== src/Public/Order.antt =====
-- The replacement of the targets in updateResource of
-- internal/controller/publicresource/controller.go.
pub mod Failure
use mathlib.Core.Path.{ap₂, subst}
use pangolin_operator.Base.{
  ℕ, Option, none, some, List, [], ◌∷◌, map, ◌≡◌, ◌≢◌, ◌⊎◌, inl, inr, refl, sym, ap, ◌∙◌, length,
  length-map, In, onto, arith, true, false,
}
use pangolin_operator.Base.Errors.{Error}
use pangolin_operator.Base.Exec.{Result, ok, err, Result-cases, >>=-ok, ◌>>=◌, ◌>>◌}
use pangolin_operator.Base.Int.{ℤ}
use pangolin_operator.Base.Text.{Text, txt, text_eq}
use pangolin_operator.Pangolin.Api.{delete_target, delete_rule}
use pangolin_operator.Pangolin.Requests.{CreateTargetResponse}
use pangolin_operator.Types.Public.{PublicResource, PublicTargetSpec}
use pangolin_operator.Public.Batch.{create_targets, create_rules}
use pangolin_operator.Public.Batch.Laws.{target_call, target_answers, AllCreated}
use pangolin_operator.Public.Batch.Created.{
  Returned, create_targets-Returned, create_rules-Returned, create_targets_total,
}
use pangolin_operator.Public.Env.{Env, Call, State, api, patch_object, patch_status}
use pangolin_operator.Public.Update.{
  delete_targets, delete_rules, replace_targets, sync_targets, sync_rules,
}

abbrev target_deletion : ℤ → Call
target_deletion id = api (delete_target id)

module _ (env : Env) where
  delete_targets_lem :
      (ids : List ℤ) (s : State)
      → delete_targets env ids s ≡ (ok tt, record s { log = onto target_deletion ids s.log })
  unfolding delete_targets
  delete_targets_lem [] s = refl
  delete_targets_lem (id ∷ ids) s =
      delete_targets_lem ids (record s { log = target_deletion id ∷ s.log })

  delete_rules_lem :
      (rid : ℤ) (ids : List ℤ) (s : State)
      → delete_rules env rid ids s
        ≡ (ok tt, record s { log = onto (λ id. api (delete_rule rid id)) ids s.log })
  unfolding delete_rules
  delete_rules_lem rid [] s = refl
  delete_rules_lem rid (id ∷ ids) s =
      delete_rules_lem rid ids (record s { log = api (delete_rule rid id) ∷ s.log })

-- The object as it is sent with new target ids and the new hash.
abbrev pub with_targets : PublicResource → List ℤ → Text → PublicResource
with_targets res ids hash = record res {
  status = record res.status { target_ids = ids; targets_hash = hash };
}

-- The calls of a replacement of targets: Pangolin creates every new one, the ids that it answers are
-- stored by a patch that the server accepts, and only then are the old ones deleted.
pub record Replaced (env : Env) (site_id : ℤ) (s s' : State) : Type 0 where
  pub ids : List ℤ
  pub created :
      AllCreated
        (λ (r : CreateTargetResponse). r.target_id)
        (target_answers env s.res.status.resource_id site_id s.res.spec.targets s.log)
        ids
  pub stored :
      env.patch
        (onto (target_call env s.res.status.resource_id site_id) s.res.spec.targets s.log)
        s.res
        (with_targets s.res ids (env.hash_targets s.res.spec.targets))
      ≡ ok s'.res
  pub log :
      s'.log
      ≡ onto target_deletion s.res.status.target_ids (
          patch_object s.res (with_targets s.res ids (env.hash_targets s.res.spec.targets))
          ∷ onto (target_call env s.res.status.resource_id site_id) s.res.spec.targets s.log)

state_of_parts :
    (s : State) (res : PublicResource) (log : List Call)
    → s.res ≡ res
    → s.log ≡ log
    → s ≡ record { res = res; log = log }
state_of_parts s res log p q = ap₂ (λ r l. record { res = r; log = l }) p q

replace_targets-none :
    (env : Env) (hash : Text) (old ids : List ℤ) (s : State)
    → replace_targets env hash old (ids, none) s
      ≡ (patch_status env (λ st. record st { target_ids = ids; targets_hash = hash })
            >> delete_targets env old)
          s
unfolding replace_targets
replace_targets-none env hash old [] s = refl
replace_targets-none env hash old (id ∷ ids) s = refl

module _ (env : Env) (site_id : ℤ) (s s' : State) where
  abbrev creations : List Call
  creations = onto (target_call env s.res.status.resource_id site_id) s.res.spec.targets s.log

  abbrev target_id_in : CreateTargetResponse → ℤ
  target_id_in r = r.target_id

  abbrev answers : List (Result CreateTargetResponse)
  answers = target_answers env s.res.status.resource_id site_id s.res.spec.targets s.log

  abbrev sent_with : List ℤ → PublicResource
  sent_with ids = with_targets s.res ids (env.hash_targets s.res.spec.targets)

  -- The state behind an accepted patch.
  abbrev stored_state : List ℤ → PublicResource → State
  stored_state ids answer = record {
    res = answer;
    log = patch_object s.res (sent_with ids) ∷ creations;
  }

  replace-Replaced :
      (ids : List ℤ)
      → AllCreated target_id_in answers ids
      → replace_targets env
          (env.hash_targets s.res.spec.targets)
          s.res.status.target_ids
          (ids, none)
          (record { res = s.res; log = creations })
        ≡ (ok tt, s')
      → Replaced env site_id s s'
  unfolding patch_status
  replace-Replaced ids all h = elim (Result-cases (env.patch creations s.res (sent_with ids))) [
    | inl (answer, e) ↦
        let final : s' ≡ record (stored_state ids answer) {
          log = onto target_deletion s.res.status.target_ids (stored_state ids answer).log;
        } =
          ground (
            arith,
            replace_targets-none env (env.hash_targets s.res.spec.targets) s.res.status.target_ids
                ids (record { res = s.res; log = creations }),
            delete_targets_lem env s.res.status.target_ids (stored_state ids answer),
          ) in
        record {
          ids = ids;
          created = all;
          stored = e ∙ ap (λ (x : State). ok x.res) (sym final);
          log = ap (λ (x : State). x.log) final;
        }
    | inr (failure, e) ↦ ground (
      arith,
      replace_targets-none env (env.hash_targets s.res.spec.targets) s.res.status.target_ids ids
          (record { res = s.res; log = creations }),
    )
  ]

  -- sync_targets, where the hash differs, is the replacement behind the batch.
  record Step : Type 0 where
    ids : List ℤ
    failure : Option Error
    returned :
        Returned target_id_in creations answers s
          (record { res = s.res; log = creations })
          ids
          failure
    step :
        sync_targets env site_id s
        ≡ replace_targets env
            (env.hash_targets s.res.spec.targets)
            s.res.status.target_ids
            (ids, failure)
            (record { res = s.res; log = creations })

  sync_targets-Step :
      text_eq (env.hash_targets s.res.spec.targets) s.res.status.targets_hash ≡ false → Step
  unfolding sync_targets
  sync_targets-Step differs =
      let (ids, failure, reply) =
        create_targets_total env s.res.status.resource_id site_id s.res.spec.targets s in
      let out = create_targets env s.res.status.resource_id site_id s.res.spec.targets s in
      let r =
        create_targets-Returned env s.res.status.resource_id site_id s.res.spec.targets s out.1 ids
          failure (ap (λ (x : Result (List ℤ × Option Error)). (x, out.1)) reply) in
      let same = state_of_parts out.1 s.res creations r.untouched r.log in
      record {
        ids = ids;
        failure = failure;
        returned =
            subst (λ (x : State). Returned target_id_in creations answers s x ids failure) same r;
        step = rw differs (
            >>=-ok (create_targets env s.res.status.resource_id site_id s.res.spec.targets) _
              (λ i. (reply i, same i)));
      }

  step_ok :
      (ids : List ℤ) (failure : Option Error)
      → Returned target_id_in creations answers s
          (record { res = s.res; log = creations })
          ids
          failure
      → replace_targets env
          (env.hash_targets s.res.spec.targets)
          s.res.status.target_ids
          (ids, failure)
          (record { res = s.res; log = creations })
        ≡ (ok tt, s')
      → Replaced env site_id s s'
  unfolding replace_targets
  step_ok [] (some e) r h = cc
  step_ok (id ∷ ids) (some e) r h = cc
  step_ok ids none r h = replace-Replaced ids (r.all_ids refl) h

-- updateResource's replacement of the targets, where their hash differs and no error is returned:
-- Pangolin answered that it created every target of the spec, the ids of its answers, each in its
-- target's place, are stored with the hash by a patch that the server accepts, and after that, in
-- this order, the old targets are deleted. The requests of a batch are taken one after the other.
pub sync_targets-Replaced :
    (env : Env) (site_id : ℤ) (s s' : State)
    → text_eq (env.hash_targets s.res.spec.targets) s.res.status.targets_hash ≡ false
    → sync_targets env site_id s ≡ (ok tt, s')
    → Replaced env site_id s s'
sync_targets-Replaced env site_id s s' differs h =
    let st = sync_targets-Step env site_id s s' differs in
    step_ok env site_id s s' st.ids st.failure st.returned (sym st.step ∙ h)
