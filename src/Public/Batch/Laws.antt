-- ===== src/Public/Batch/Laws.antt =====
-- What createTargets and createRules of internal/controller/publicresource/controller.go return,
-- and the calls they make.
use pangolin_operator.Base.{
  ℕ, ◌+◌, Option, none, some, List, [], ◌∷◌, map, ◌≡◌, ◌≢◌, ◌↔◌, refl, sym, ap, ◌∙◌, ◌⊎◌, inl, inr,
  In, onto, arith, Bool-cases,
}
use pangolin_operator.Base.Errors.{Error, join_onto}
use pangolin_operator.Base.Exec.{Result, ok, err}
use pangolin_operator.Base.Int.{ℤ, pos, ◌==ℤ◌, ==ℤ_iff}
use pangolin_operator.Base.Text.{Text}
use pangolin_operator.Pangolin.Api.{create_target, create_rule}
use pangolin_operator.Pangolin.Requests.{CreateTargetResponse, CreateRuleResponse}
use pangolin_operator.Types.Public.{PublicRuleSpec, PublicTargetSpec}
use pangolin_operator.Public.Batch.{
  slots, errors_of, nonzero, collect, target_id_of, rule_id_of, send_target, send_targets,
  send_rule, send_rules,
}
use pangolin_operator.Public.Env.{Env, Call, State, api}
use pangolin_operator.Public.Requests.{target_request, rule_request}

ok_inj : (a b : ℤ) → ok a ≡ ok b → a ≡ b
ok_inj a b h = cc

slots_of_no_errors :
    (prefix : Text) (rs : List (Result ℤ)) → errors_of prefix rs ≡ [] → rs ≡ map ok (slots rs)
unfolding errors_of slots
slots_of_no_errors prefix [] h = refl
slots_of_no_errors prefix (ok id ∷ rs) h = ap (λ l. ok id ∷ l) (slots_of_no_errors prefix rs h)
slots_of_no_errors prefix (err e ∷ rs) h = cc

collect_cases :
    (prefix : Text) (rs : List (Result ℤ))
    → ((errors_of prefix rs ≡ []) × (collect prefix rs ≡ (slots rs, none)))
      ⊎ ((e : Error) × (collect prefix rs ≡ (nonzero (slots rs), some e)))
unfolding collect
collect_cases prefix rs = go (errors_of prefix rs) refl
  where
    go :
        (l : List Error)
        → errors_of prefix rs ≡ l
        → ((errors_of prefix rs ≡ []) × (collect prefix rs ≡ (slots rs, none)))
          ⊎ ((e : Error) × (collect prefix rs ≡ (nonzero (slots rs), some e)))
    go [] e = inl (e, ground arith)
    go (x ∷ l) e = inr (join_onto x l, ground arith)

-- A batch that returns no error returns the answered ids, one for each call, in order.
pub collect_ok :
    (prefix : Text) (rs : List (Result ℤ)) (ids : List ℤ)
    → collect prefix rs ≡ (ids, none)
    → rs ≡ map ok ids
collect_ok prefix rs ids h = elim (collect_cases prefix rs) [
  | inl (clean, e) ↦
      slots_of_no_errors prefix rs clean
      ∙ ap (λ (r : List ℤ × Option Error). map ok r.0) (sym e ∙ h)
  | inr (_, e) ↦ cc
]

In-nonzero-slots-cons :
    (x id : ℤ) (rs : List (Result ℤ))
    → (In id (nonzero (slots rs)) ↔ (In (ok id) rs × (id ≢ pos 0)))
    → In id (nonzero (x ∷ slots rs)) ↔ (In (ok id) (ok x ∷ rs) × (id ≢ pos 0))
unfolding nonzero
In-nonzero-slots-cons x id rs (to, from) = elim (Bool-cases (x ==ℤ pos 0)) [
  | inl zero_id ↦ rw zero_id (
    λ m. (inr (to m).0, (to m).1),
    λ (m, ne). elim m [
      | inl e ↦ absurd (ne (ok_inj id x e ∙ (==ℤ_iff x (pos 0)).0 zero_id))
      | inr n ↦ from (n, ne)
    ],
  )
  | inr made ↦ rw made (
    λ m. elim m [
      | inl e ↦ (inl (ap ok e), λ z. cc ((==ℤ_iff x (pos 0)).1 (sym e ∙ z)))
      | inr n ↦ (inr (to n).0, (to n).1)
    ],
    λ (m, ne). elim m [ inl e ↦ inl (ok_inj id x e) | inr n ↦ inr (from (n, ne)) ],
  )
]

In-nonzero-slots :
    (rs : List (Result ℤ)) (id : ℤ) → In id (nonzero (slots rs)) ↔ (In (ok id) rs × (id ≢ pos 0))
unfolding nonzero slots
In-nonzero-slots [] id = (λ h. absurd h, λ h. absurd h.0)
In-nonzero-slots (ok x ∷ rs) id = In-nonzero-slots-cons x id rs (In-nonzero-slots rs id)
In-nonzero-slots (err e ∷ rs) id =
    let (to, from) = In-nonzero-slots rs id in
    (λ m. (inr (to m).0, (to m).1), λ (m, ne). elim m [ inl c ↦ cc | inr n ↦ from (n, ne) ])

-- A batch that returns an error returns just the ids other than 0 that were answered.
pub collect_err :
    (prefix : Text) (rs : List (Result ℤ)) (ids : List ℤ) (e : Error)
    → collect prefix rs ≡ (ids, some e)
    → (id : ℤ) → In id ids ↔ (In (ok id) rs × (id ≢ pos 0))
collect_err prefix rs ids e h id = elim (collect_cases prefix rs) [
  | inl (_, c) ↦ cc
  | inr (_, c) ↦ rw (← ap (λ (r : List ℤ × Option Error). r.0) (sym c ∙ h)) (In-nonzero-slots rs id)
]

-- Every request of a batch was answered with an object, and these are the objects' ids, in order.
module _ {A : Type 0} (id_of : A → ℤ) where
  abbrev pub AllCreated : List (Result A) → List ℤ → Type 0
  AllCreated [] [] = Unit
  AllCreated (ok r ∷ answers) (id ∷ ids) = (id_of r ≡ id) × AllCreated answers ids
  AllCreated [] (_ ∷ _) = ⊥
  AllCreated (ok _ ∷ _) [] = ⊥
  AllCreated (err _ ∷ _) _ = ⊥

  -- The id of one of the objects that were created.
  abbrev pub WasCreated : List (Result A) → ℤ → Type 0
  WasCreated answers id = (r : A) × In (ok r) answers × (id_of r ≡ id)

  module _ (f : Result A → Result ℤ) (f_ok : (r : A) → f (ok r) ≡ ok (id_of r))
      (f_err : (e : Error) → f (err e) ≡ err e) where
    pub AllCreated_of_map :
        (answers : List (Result A)) (ids : List ℤ)
        → map f answers ≡ map ok ids
        → AllCreated answers ids
    AllCreated_of_map [] [] h = tt
    AllCreated_of_map [] (id ∷ ids) h = cc
    AllCreated_of_map (ok r ∷ answers) [] h = cc
    AllCreated_of_map (ok r ∷ answers) (id ∷ ids) h =
        (ok_inj (id_of r) id (sym (f_ok r) ∙ cc), AllCreated_of_map answers ids cc)
    AllCreated_of_map (err e ∷ answers) [] h = cc
    AllCreated_of_map (err e ∷ answers) (id ∷ ids) h = cc (f_err e)

    pub In-map_iff :
        (answers : List (Result A)) (id : ℤ) → In (ok id) (map f answers) ↔ WasCreated answers id
    In-map_iff [] id = (λ h. absurd h, λ h. absurd h.1)
    In-map_iff (ok r ∷ answers) id = (
      λ m. elim m [
        | inl e ↦ (r, inl refl, sym (ok_inj id (id_of r) (e ∙ f_ok r)))
        | inr n ↦ (let (x, k, same) = (In-map_iff answers id).0 n in (x, inr k, same))
      ],
      λ (x, m, same). elim m [
        | inl e ↦ inl (ap ok (sym same) ∙ sym (f_ok x) ∙ ap f e)
        | inr n ↦ inr ((In-map_iff answers id).1 (x, n, same))
      ],
    )
    In-map_iff (err e ∷ answers) id = (
      λ m. elim m [
        | inl k ↦ cc (f_err e)
        | inr n ↦ (let (x, k, same) = (In-map_iff answers id).0 n in (x, inr k, same))
      ],
      λ (x, m, same). elim m [ inl k ↦ cc | inr n ↦ inr ((In-map_iff answers id).1 (x, n, same)) ],
    )

-- What a batch does from a state: it answers with these results, leaves the object alone, and its
-- calls are the given ones, once each.
pub record Sent (calls : List Call) (results : List (Result ℤ)) (s : State)
    (out : Result (List (Result ℤ)) × State) : Type 0 where
  pub answered : out.0 ≡ ok results
  pub untouched : out.1.res ≡ s.res
  pub log : out.1.log ≡ calls

module _ (env : Env) (resource_id : ℤ) where
  abbrev pub target_call : ℤ → PublicTargetSpec → Call
  target_call site_id t = api (create_target resource_id (target_request site_id t))

  -- What Pangolin answers to the requests for the targets, one after the other behind `log`.
  abbrev pub target_answers :
      ℤ → List PublicTargetSpec → List Call → List (Result CreateTargetResponse)
  target_answers site_id [] log = []
  target_answers site_id (t ∷ ts) log =
      env.pangolin.create_target log resource_id (target_request site_id t)
      ∷ target_answers site_id ts (target_call site_id t ∷ log)

  pub send_targets-Sent :
      (site_id : ℤ) (ts : List PublicTargetSpec) (s : State)
      → Sent
          (onto (target_call site_id) ts s.log)
          (map target_id_of (target_answers site_id ts s.log))
          s
          (send_targets env resource_id site_id ts s)
  unfolding send_targets send_target
  send_targets-Sent site_id [] s = record { answered = refl; untouched = refl; log = refl }
  send_targets-Sent site_id (t ∷ ts) s =
      let rest = send_targets-Sent site_id ts (record s { log = target_call site_id t ∷ s.log }) in
      record { answered = ground arith; untouched = ground arith; log = ground arith }

  abbrev pub rule_call : ℕ → PublicRuleSpec → Call
  rule_call i rule = api (create_rule resource_id (rule_request i rule))

  -- The calls for the rules from position `i` on.
  abbrev pub rule_calls : ℕ → List PublicRuleSpec → List Call → List Call
  rule_calls i [] log = log
  rule_calls i (rule ∷ rules) log = rule_calls (i + 1) rules (rule_call i rule ∷ log)

  abbrev pub rule_answers : ℕ → List PublicRuleSpec → List Call → List (Result CreateRuleResponse)
  rule_answers i [] log = []
  rule_answers i (rule ∷ rules) log =
      env.pangolin.create_rule log resource_id (rule_request i rule)
      ∷ rule_answers (i + 1) rules (rule_call i rule ∷ log)

  pub send_rules-Sent :
      (i : ℕ) (rules : List PublicRuleSpec) (s : State)
      → Sent
          (rule_calls i rules s.log)
          (map rule_id_of (rule_answers i rules s.log))
          s
          (send_rules env resource_id i rules s)
  unfolding send_rules send_rule
  send_rules-Sent i [] s = record { answered = refl; untouched = refl; log = refl }
  send_rules-Sent i (rule ∷ rules) s =
      let rest = send_rules-Sent (i + 1) rules (record s { log = rule_call i rule ∷ s.log }) in
      record { answered = ground arith; untouched = ground arith; log = ground arith }
