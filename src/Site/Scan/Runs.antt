-- ===== src/Site/Scan/Runs.antt =====
-- The loops of internal/controller/newtsite/controller.go as a caller sees them: whether they fail,
-- and the calls.
use mathlib.Core.Path.{sym}
use pangolin_operator.Base.{
  List, [], ◌∷◌, ◌++◌, ◌≡◌, arith, refl, ap, Bool, true, false, ◌&&◌, if◌then◌else◌, Bool-cases,
  inl, inr,
}
use pangolin_operator.Base.Errors.{Error, join}
use pangolin_operator.Base.Exec.{Result, ok, err, wrap_result, Result-cases}
use pangolin_operator.Base.Text.{Text}
use pangolin_operator.Site.Env.{Call, Run, for_each, join_errors, joined}
use pangolin_operator.Site.Scan.{only_if}

abbrev pub flat_map : {A B : Type 0} → (A → List B) → List A → List B
flat_map f [] = []
flat_map f (x ∷ xs) = f x ++ flat_map f xs

-- What a caller sees of a run: whether it failed, and the calls.
abbrev pub is_ok : Result (Unit {0}) → Bool
is_ok (ok _) = true
is_ok (err _) = false

abbrev pub seen : Result (Unit {0}) × List Call → Bool × List Call
seen r = (is_ok r.0, r.1)

abbrev pub all_run : {A : Type 0} → (A → Run (Unit {0})) → List A → List Call → Bool × List Call
all_run f [] log = (true, log)
all_run f (x ∷ xs) log =
    let (b, log') = seen (f x log) in let (c, log'') = all_run f xs log' in (b && c, log'')

join_fails : (e : Error) (es : List Error) → is_ok (joined (join (e ∷ es))) ≡ false
unfolding join
join_fails e es = refl

module _ {A : Type 0} (f : A → Run (Unit {0})) where
  pub seen-for_each :
      (xs : List A) (log : List Call) → seen (join_errors (for_each f xs log)) ≡ all_run f xs log
  unfolding for_each join
  seen-for_each [] log = refl
  seen-for_each (x ∷ xs) log = elim (Result-cases (f x log).0) [
    | inl (u, e) ↦ rw e (seen-for_each xs (f x log).1)
    | inr (e, h) ↦ rw h (ap (λ (r : Bool × List Call). (false, r.1)) (seen-for_each xs (f x log).1))
  ]

  all_run-append :
      (xs ys : List A) (log : List Call)
      → all_run f (xs ++ ys) log ≡ (
          let (b, log') = all_run f xs log in let (c, log'') = all_run f ys log' in (b && c, log''))
  all_run-append [] ys log = refl
  all_run-append (x ∷ xs) ys log = rw (all_run-append xs ys (f x log).1) (
      ap (λ b. (b, (all_run f ys (all_run f xs (f x log).1).1).1))
        (and_assoc (seen (f x log)).0 (all_run f xs (f x log).1).0
          (all_run f ys (all_run f xs (f x log).1).1).0))
    where
      and_assoc : (a b c : Bool) → (a && (b && c)) ≡ ((a && b) && c)
      and_assoc a b c = ground arith

-- A loop whose body behaves as the ensuring of a plan behaves as the ensuring of all plans.
module _ {A B : Type 0} (f : A → Run (Unit {0})) (g : B → Run (Unit {0})) (plan : A → List B)
    (same : (x : A) (log : List Call) → seen (f x log) ≡ all_run g (plan x) log) where
  pub all_run-flat_map :
      (xs : List A) (log : List Call) → all_run f xs log ≡ all_run g (flat_map plan xs) log
  all_run-flat_map [] log = refl
  all_run-flat_map (x ∷ xs) log = rw (
    all_run-append g (plan x) (flat_map plan xs) log,
    sym (same x log),
    all_run-flat_map xs (f x log).1,
  )

-- A plan of one, whose error is wrapped.
pub seen_wrapped :
    (what : Text) (r : Result (Unit {0}) × List Call)
    → seen (wrap_result what r.0, r.1) ≡ (is_ok r.0 && true, r.1)
seen_wrapped what (ok _, log) = refl
seen_wrapped what (err e, log) = refl

-- A test in front of a body that behaves as a plan.
pub seen-only_if :
    {A B : Type 0} (test : A → Bool) (f : A → Run (Unit {0})) (g : B → Run (Unit {0}))
    (plan : A → List B) (x : A) (log : List Call)
    → seen (f x log) ≡ all_run g (plan x) log
    → seen (only_if test f x log) ≡ all_run g (if test x then plan x else []) log
seen-only_if test f g plan x log h = elim (Bool-cases (test x)) [
  | inl yes_ ↦ rw yes_ h
  | inr no_ ↦ rw no_ refl
]
