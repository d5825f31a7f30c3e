-- ===== src/Base/Exec.antt =====
-- Methods that change state and may return an error: Go's `(T, error)` as a result beside the
-- state, so what was changed before an error stays changed.
use Prim.Native.Nat.{ℕ}
use mathlib.Core.Path.{◌≡◌, refl, ap}
use mathlib.Core.Logic.{◌⊎◌, inl, inr}
use pangolin_operator.Base.Errors.{Error, wrap}
use pangolin_operator.Base.Text.{Text}

pub data Result {ℓ} (A : Type ℓ) : Type ℓ where
  ok : A → Result A
  err : Error → Result A

abbrev pub Exec {ℓ} : Type ℓ → Type ℓ → Type ℓ
Exec S A = S → Result A × S

module _ {ℓ} {S A : Type ℓ} where
  abbrev pub pure : A → Exec S A
  pure a s = (ok a, s)

  abbrev pub fail : Error → Exec S A
  fail e s = (err e, s)

  abbrev pub or_fail : Result A → Exec S A
  or_fail r s = (r, s)

  -- `x, err := m`: the caller looks at the result itself.
  abbrev pub attempt : Exec S A → Exec S (Result A)
  attempt m s = let (r, s') = m s in (ok r, s')

module _ {ℓ} {S A B : Type ℓ} where
  abbrev proceed : (A → Exec S B) → Result A → Exec S B
  proceed f (ok a) s = f a s
  proceed f (err e) s = (err e, s)

  -- `if err != nil { return err }`
  infixl 5 ◌>>=◌ ◌>>◌
  abbrev pub ◌>>=◌ : Exec S A → (A → Exec S B) → Exec S B
  ◌>>=◌ m f s = let (r, s') = m s in proceed f r s'

  abbrev pub ◌>>◌ : Exec S A → Exec S B → Exec S B
  m >> k = m >>= λ _. k

-- `return fmt.Errorf("prefix: %w", err)` on an error.
abbrev pub wrap_result {ℓ} : {A : Type ℓ} → Text → Result A → Result A
wrap_result prefix (ok a) = ok a
wrap_result prefix (err e) = err (wrap prefix e)

module _ {ℓ} {S A : Type ℓ} where
  abbrev pub wrapping : Text → Exec S A → Exec S A
  wrapping prefix m s = let (r, s') = m s in (wrap_result prefix r, s')

-- What a reconciler returns: ctrl.Result{}, nil; a requeue after some seconds; an error, which is
-- retried with backoff; a terminal error, which is not.
pub data Outcome : Type 0 where
  done : Outcome
  requeue_after : ℕ → Outcome
  retry : Error → Outcome
  terminal : Error → Outcome

-- To split on an answer and keep the equation.
pub Result-cases {ℓ} :
    {A : Type ℓ} (r : Result A) → ((a : A) × (r ≡ ok a)) ⊎ ((e : Error) × (r ≡ err e))
Result-cases (ok a) = inl (a, refl)
Result-cases (err e) = inr (e, refl)

-- A step that succeeds hands its value and its state on.
pub >>=-ok {ℓ} :
    {S A B : Type ℓ} (m : Exec S A) (f : A → Exec S B) {s s' : S} {a : A}
    → m s ≡ (ok a, s')
    → (m >>= f) s ≡ f a s'
>>=-ok {S} {A} m f e = ap (λ (x : Result A × S). proceed f x.0 x.1) e
