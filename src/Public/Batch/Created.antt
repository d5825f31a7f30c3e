-- ===== src/Public/Batch/Created.antt =====
-- createTargets and createRules of internal/controller/publicresource/controller.go as a whole.
use pangolin_operator.Base.{
  Option, none, some, List, map, ◌≡◌, ◌≢◌, ◌↔◌, sym, ap, ◌∙◌, refl, In, onto, arith,
}
use pangolin_operator.Base.Errors.{Error}
use pangolin_operator.Base.Exec.{Result, ok, err}
use pangolin_operator.Base.Int.{ℤ, pos}
use pangolin_operator.Base.Text.{Text, txt}
use pangolin_operator.Pangolin.Requests.{CreateTargetResponse, CreateRuleResponse}
use pangolin_operator.Types.Public.{PublicRuleSpec, PublicTargetSpec}
use pangolin_operator.Public.Batch.{collect, create_targets, create_rules, target_id_of, rule_id_of}
use pangolin_operator.Public.Batch.Laws.{
  Sent, send_targets-Sent, send_rules-Sent, target_call, target_answers, rule_calls, rule_answers,
  collect_ok, collect_err, AllCreated, WasCreated, AllCreated_of_map, In-map_iff,
}
use pangolin_operator.Public.Env.{Env, Call, State}

-- A batch made `calls`, left the object alone, and returned `ids` from these answers: without an
-- error, all were created, and these are their ids; with one, a request failed, and `ids` are just
-- the ids other than 0 of those that succeeded.
pub record Returned {A : Type 0} (id_of : A → ℤ) (calls : List Call) (answers : List (Result A))
    (s s' : State) (ids : List ℤ) (e : Option Error) : Type 0 where
  pub untouched : s'.res ≡ s.res
  pub log : s'.log ≡ calls
  pub all_ids : e ≡ none → AllCreated id_of answers ids
  pub created_ids :
      (failure : Error)
      → e ≡ some failure
      → (id : ℤ) → In id ids ↔ (WasCreated id_of answers id × (id ≢ pos 0))

module _ (prefix : Text) {A : Type 0} (id_of : A → ℤ) (f : Result A → Result ℤ)
    (f_ok : (r : A) → f (ok r) ≡ ok (id_of r)) (f_err : (e : Error) → f (err e) ≡ err e)
    (answers : List (Result A)) where
  created_iff :
      (ids : List ℤ) (failure : Error)
      → collect prefix (map f answers) ≡ (ids, some failure)
      → (id : ℤ) → In id ids ↔ (WasCreated id_of answers id × (id ≢ pos 0))
  created_iff ids failure h id =
      let (to, from) = collect_err prefix (map f answers) ids failure h id in
      let (back, forth) = In-map_iff id_of f f_ok f_err answers id in
      (λ m. (back (to m).0, (to m).1), λ (m, ne). from (forth m, ne))

  Returned-collect :
      {calls : List Call} {s s' : State} (out : Result (List (Result ℤ)) × State) (ids : List ℤ)
      (e : Option Error)
      → Sent calls (map f answers) s out
      → collect prefix (map f answers) ≡ (ids, e)
      → out.1 ≡ s'
      → Returned id_of calls answers s s' ids e
  Returned-collect out ids e sent h same = record {
    untouched = ap (λ (x : State). x.res) (sym same) ∙ sent.untouched;
    log = ap (λ (x : State). x.log) (sym same) ∙ sent.log;
    all_ids = λ clean.
        AllCreated_of_map id_of f f_ok f_err answers ids
          (collect_ok prefix (map f answers) ids (h ∙ ap (λ (x : Option Error). (ids, x)) clean));
    created_ids =
        λ failure bad. created_iff ids failure (h ∙ ap (λ (x : Option Error). (ids, x)) bad);
  }

-- createTargets makes one call for each target, whether or not some of them fail, and changes
-- nothing of the object. Without an error, Pangolin created every target, and the ids returned are
-- those of its answers, each in its target's place; with one, they are just the ids other than 0 of
-- the targets that Pangolin created. The requests of a batch are taken one after the other.
pub create_targets-Returned :
    (env : Env) (resource_id site_id : ℤ) (targets : List PublicTargetSpec) (s s' : State)
    (ids : List ℤ) (e : Option Error)
    → create_targets env resource_id site_id targets s ≡ (ok (ids, e), s')
    → Returned
        (λ (r : CreateTargetResponse). r.target_id)
        (onto (target_call env resource_id site_id) targets s.log)
        (target_answers env resource_id site_id targets s.log)
        s
        s'
        ids
        e
unfolding create_targets
create_targets-Returned env resource_id site_id targets s s' ids e h =
    let sent = send_targets-Sent env resource_id site_id targets s in
    Returned-collect (txt "CreateTarget") (λ (r : CreateTargetResponse). r.target_id) target_id_of
      (λ r. refl) (λ f. refl) (target_answers env resource_id site_id targets s.log) _ ids e sent
      (ground arith) (ground arith)

-- createRules makes one call for each rule, with the priority that the rule or its position gives,
-- whether or not some of them fail, and changes nothing of the object. Without an error, Pangolin
-- created every rule, and the ids returned are those of its answers, each in its rule's place; with
-- one, they are just the ids other than 0 of the rules that Pangolin created. The requests of a
-- batch are taken one after the other.
pub create_rules-Returned :
    (env : Env) (resource_id : ℤ) (rules : List PublicRuleSpec) (s s' : State) (ids : List ℤ)
    (e : Option Error)
    → create_rules env resource_id rules s ≡ (ok (ids, e), s')
    → Returned
        (λ (r : CreateRuleResponse). r.rule_id)
        (rule_calls env resource_id 0 rules s.log)
        (rule_answers env resource_id 0 rules s.log)
        s
        s'
        ids
        e
unfolding create_rules
create_rules-Returned env resource_id rules s s' ids e h =
    let sent = send_rules-Sent env resource_id 0 rules s in
    Returned-collect (txt "CreateRule") (λ (r : CreateRuleResponse). r.rule_id) rule_id_of
      (λ r. refl) (λ f. refl) (rule_answers env resource_id 0 rules s.log) _ ids e sent
      (ground arith) (ground arith)

-- Neither returns an error of the monad: failures are in the pair.
pub create_targets_total :
    (env : Env) (resource_id site_id : ℤ) (targets : List PublicTargetSpec) (s : State)
    → (ids : List ℤ) × (e : Option Error) × ((create_targets env resource_id site_id targets s).0
        ≡ ok (ids, e))
unfolding create_targets
create_targets_total env resource_id site_id targets s =
    let sent = send_targets-Sent env resource_id site_id targets s in
    (
      (collect (txt "CreateTarget")
          (map target_id_of (target_answers env resource_id site_id targets s.log))).0,
      (collect (txt "CreateTarget")
          (map target_id_of (target_answers env resource_id site_id targets s.log))).1,
      ground arith,
    )
