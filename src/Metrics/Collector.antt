-- ===== src/Metrics/Collector.antt =====
-- The collector of internal/metrics/collector.go: what Collect sends on its channel, in order. A
-- count is a float64 in the source, which is exact below 2 ^ 53.
use pangolin_operator.Base.{ℕ, ◌+◌, List, [], ◌∷◌, ◌++◌, Option, none, some, Bool, if◌then◌else◌}
use pangolin_operator.Base.Exec.{Result, ok, err}
use pangolin_operator.Base.Text.{Text, txt, is_empty, lookup, insert}
use pangolin_operator.Types.Meta.{Phase, unset, pending, creating, ready, deleting, error}
use pangolin_operator.Types.Public.{PublicResource}
use pangolin_operator.Types.Private.{PrivateResource}
use pangolin_operator.Types.Site.{NewtSite}

pub data Metric : Type 0 where
  -- collectErrorDesc, with the kind
  collect_error : Text → Metric
  -- onlineDesc, with name and namespace
  online : Bool → Text → Text → Metric
  -- phaseDesc, with kind and phase
  phase_count : ℕ → Text → Text → Metric

abbrev pub text_of : Phase → Text
text_of unset = []
text_of pending = txt "Pending"
text_of creating = txt "Creating"
text_of ready = txt "Ready"
text_of deleting = txt "Deleting"
text_of error = txt "Error"

-- The empty phase counts as Pending.
abbrev pub shown_phase : Phase → Text
shown_phase phase = if is_empty (text_of phase) then txt "Pending" else text_of phase

abbrev pub Counts : Type 0
Counts = List (Text × ℕ)

abbrev pub or_no : Option ℕ → ℕ
or_no none = 0
or_no (some n) = n

-- counts[phase]++
abbrev pub increment : Text → Counts → Counts
increment phase counts = insert phase (or_no (lookup phase counts) + 1) counts

unfoldable pub count_phases : List Phase → Counts → Counts
count_phases [] counts = counts
count_phases (p ∷ ps) counts = count_phases ps (increment (shown_phase p) counts)

abbrev pub phase_metrics : Text → Counts → List Metric
phase_metrics kind [] = []
phase_metrics kind ((phase, n) ∷ counts) = phase_count n kind phase ∷ phase_metrics kind counts

abbrev pub site_phases : List NewtSite → List Phase
site_phases [] = []
site_phases (s ∷ ss) = s.status.phase ∷ site_phases ss

abbrev public_phases : List PublicResource → List Phase
public_phases [] = []
public_phases (r ∷ rs) = r.status.phase ∷ public_phases rs

abbrev private_phases : List PrivateResource → List Phase
private_phases [] = []
private_phases (r ∷ rs) = r.status.phase ∷ private_phases rs

abbrev pub online_metrics : List NewtSite → List Metric
online_metrics [] = []
online_metrics (s ∷ ss) =
    online s.status.online s.metadata.name s.metadata.namespace ∷ online_metrics ss

-- `order` is the order in which Go ranges over the map of counts.
module _ (order : Counts → Counts) where
  abbrev pub phases_of : Text → List Phase → List Metric
  phases_of kind phases = phase_metrics kind (order (count_phases phases []))

  unfoldable pub collect_newt_sites : Result (List NewtSite) → List Metric
  collect_newt_sites (err _) = collect_error (txt "newtsite") ∷ []
  collect_newt_sites (ok sites) =
      online_metrics sites ++ phases_of (txt "newtsite") (site_phases sites)

  unfoldable pub collect_public_resources : Result (List PublicResource) → List Metric
  collect_public_resources (err _) = collect_error (txt "publicresource") ∷ []
  collect_public_resources (ok rs) = phases_of (txt "publicresource") (public_phases rs)

  unfoldable pub collect_private_resources : Result (List PrivateResource) → List Metric
  collect_private_resources (err _) = collect_error (txt "privateresource") ∷ []
  collect_private_resources (ok rs) = phases_of (txt "privateresource") (private_phases rs)

  unfoldable pub collect :
      Result (List NewtSite)
      → Result (List PublicResource)
      → Result (List PrivateResource)
      → List Metric
  collect sites publics privates =
      collect_newt_sites sites
      ++ (collect_public_resources publics ++ collect_private_resources privates)
