-- ===== src/Metrics/Totals.antt =====
-- The phase counts of internal/metrics/collector.go against a count of their own.
use pangolin_operator.Base.{
  ℕ, ◌+◌, List, [], ◌∷◌, ◌≡◌, ap, arith, length, if◌then◌else◌, Bool-cases, inl, inr,
}
use pangolin_operator.Base.Text.{Text, text_eq, eq_of_text_eq, lookup, insert, lookup-insert}
use pangolin_operator.Types.Meta.{Phase}
use pangolin_operator.Metrics.Collector.{shown_phase, Counts, or_no, increment, count_phases}

-- How many of the phases are shown so.
abbrev pub occurrences : Text → List Phase → ℕ
occurrences phase [] = 0
occurrences phase (p ∷ ps) = (if text_eq (shown_phase p) phase then 1 else 0) + occurrences phase ps

abbrev pub total : Counts → ℕ
total [] = 0
total ((_, n) ∷ counts) = n + total counts

lookup-increment :
    (k phase : Text) (counts : Counts)
    → or_no (lookup phase (increment k counts))
      ≡ (if text_eq k phase then 1 else 0) + or_no (lookup phase counts)
lookup-increment k phase counts =
    rw (lookup-insert k phase (or_no (lookup k counts) + 1) counts)
      (elim (Bool-cases (text_eq k phase)) [
        | inl same ↦
            rw same (omega (arith, ap (λ t. or_no (lookup t counts)) (eq_of_text_eq k phase same)))
        | inr other ↦ rw other (omega arith)
      ])

count-onto :
    (ps : List Phase) (counts : Counts) (phase : Text)
    → or_no (lookup phase (count_phases ps counts))
      ≡ occurrences phase ps + or_no (lookup phase counts)
unfolding count_phases
count-onto [] counts phase = omega arith
count-onto (p ∷ ps) counts phase = omega (
  arith,
  count-onto ps (increment (shown_phase p) counts) phase,
  lookup-increment (shown_phase p) phase counts,
)

total-insert :
    (phase : Text) (n : ℕ) (counts : Counts)
    → total (insert phase n counts) + or_no (lookup phase counts) ≡ n + total counts
unfolding insert lookup
total-insert phase n [] = omega arith
total-insert phase n ((k, m) ∷ counts) = elim (Bool-cases (text_eq k phase)) [
  | inl same ↦ rw same (omega arith)
  | inr other ↦ rw other (omega (arith, total-insert phase n counts))
]

total-onto :
    (ps : List Phase) (counts : Counts) → total (count_phases ps counts) ≡ length ps + total counts
unfolding count_phases
total-onto [] counts = omega arith
total-onto (p ∷ ps) counts = omega (
  arith,
  total-onto ps (increment (shown_phase p) counts),
  total-insert (shown_phase p) (or_no (lookup (shown_phase p) counts) + 1) counts,
)

-- The count that the collector has for a phase is the number of the listed objects whose phase is
-- shown so, with the empty phase shown as Pending, and all its counts together are the number of the
-- objects.
pub count_phases_lem :
    (ps : List Phase) (phase : Text)
    → (or_no (lookup phase (count_phases ps [])) ≡ occurrences phase ps)
      × (total (count_phases ps []) ≡ length ps)
unfolding lookup
count_phases_lem ps phase = (omega (arith, count-onto ps [] phase), omega (arith, total-onto ps []))
