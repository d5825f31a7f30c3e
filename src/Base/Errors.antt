-- ===== src/Base/Errors.antt =====
-- Go's `error` values and the tests on them (internal/pangolin/client.go, and the errors of the
-- Kubernetes client and of the package resolve).
use mathlib.Core.Bool.{Bool, true, false, ◌||◌}
use mathlib.Core.Option.{Option, none, some}
use mathlib.Core.List.{List, [], ◌∷◌, ◌++◌}
use pangolin_operator.Base.Text.{Text, txt, quoted}

pub data Error : Type 0 where
  not_found conflict bad_request : Text → Error
  kube_not_found : Text → Error
  site_not_found : Text → Error
  plain : Text → Error
  -- fmt.Errorf("prefix: %w", err)
  wrap : Text → Error → Error
  -- errors.Join of two
  both : Error → Error → Error

unfoldable pub message : Error → Text
message (not_found m) = m
message (conflict m) = m
message (bad_request m) = m
message (kube_not_found m) = m
message (site_not_found name) = txt "NewtSite not found: " ++ quoted name
message (plain m) = m
message (wrap prefix e) = prefix ++ txt ": " ++ message e
message (both e e') = message e ++ 10 ∷ message e'

unfoldable pub is_not_found : Error → Bool
is_not_found (not_found _) = true
is_not_found (wrap _ e) = is_not_found e
is_not_found (both e e') = is_not_found e || is_not_found e'
is_not_found _ = false

unfoldable pub is_conflict : Error → Bool
is_conflict (conflict _) = true
is_conflict (wrap _ e) = is_conflict e
is_conflict (both e e') = is_conflict e || is_conflict e'
is_conflict _ = false

unfoldable pub is_bad_request : Error → Bool
is_bad_request (bad_request _) = true
is_bad_request (wrap _ e) = is_bad_request e
is_bad_request (both e e') = is_bad_request e || is_bad_request e'
is_bad_request _ = false

-- errors.Is(err, resolve.ErrNotFound)
unfoldable pub is_site_not_found : Error → Bool
is_site_not_found (site_not_found _) = true
is_site_not_found (wrap _ e) = is_site_not_found e
is_site_not_found (both e e') = is_site_not_found e || is_site_not_found e'
is_site_not_found _ = false

-- The Kubernetes client's IsNotFound, of which client.IgnoreNotFound makes nil.
unfoldable pub is_kube_not_found : Error → Bool
is_kube_not_found (kube_not_found _) = true
is_kube_not_found (wrap _ e) = is_kube_not_found e
is_kube_not_found (both e e') = is_kube_not_found e || is_kube_not_found e'
is_kube_not_found _ = false

-- errors.Join: nil for no error.
unfoldable pub join_onto : Error → List Error → Error
join_onto acc [] = acc
join_onto acc (e ∷ es) = join_onto (both acc e) es

unfoldable pub join : List Error → Option Error
unfolding join_onto
join [] = none
join (e ∷ es) = some (join_onto e es)
