-- ===== src/Metrics/Classify.antt =====
-- ClassifyEndpoint of internal/metrics/metrics.go. The path of the parsed URL is an argument, `none`
-- where net/url cannot parse it.
use Prim.Native.Nat.{ℕ}
use pangolin_operator.Base.{
  Option, none, some, List, [], ◌∷◌, ◌≡◌, refl, Bool, true, ◌==◌, leb, length, drop, take, ◌&&◌,
  if◌then◌else◌,
}
use pangolin_operator.Base.Text.{Text, txt, text_eq, split_on}

abbrev endpoint_target : Text
endpoint_target = txt "target"

abbrev endpoint_rule : Text
endpoint_rule = txt "rule"

abbrev pub endpoint_unknown : Text
endpoint_unknown = txt "unknown"

abbrev endpoint_site : Text
endpoint_site = txt "site"

abbrev endpoint_resource : Text
endpoint_resource = txt "resource"

abbrev endpoint_site_resource : Text
endpoint_site_resource = txt "site_resource"

-- strings.HasPrefix, strings.TrimPrefix, strings.TrimRight of slashes
abbrev pub has_prefix : Text → Text → Bool
has_prefix s t = leb (length t) (length s) && text_eq (take (length t) s) t

unfoldable pub trim_prefix : Text → Text → Text
trim_prefix s t = if has_prefix s t then drop (length t) s else s

abbrev only_slashes : Text → Bool
only_slashes [] = true
only_slashes (c ∷ s) = c == b'/' && only_slashes s

unfoldable pub trim_right_slashes : Text → Text
trim_right_slashes [] = []
trim_right_slashes (c ∷ s) =
    let rest = trim_right_slashes s in if only_slashes (c ∷ s) then [] else c ∷ rest

-- The text before the first slash and the text after it.
abbrev shift : ℕ → Option (Text × Text) → Option (Text × Text)
shift c none = none
shift c (some (before, after)) = some (c ∷ before, after)

unfoldable pub cut : Text → Option (Text × Text)
cut [] = none
cut (c ∷ s) = let rest = cut s in if c == b'/' then some ([], s) else shift c rest

-- parts[2] of strings.SplitN(path, "/", 3), where there are three parts.
abbrev after_cut : Option (Text × Text) → Option (Text × Text)
after_cut none = none
after_cut (some (before, after)) = cut after

abbrev third_or : Text → Option (Text × Text) → Text
third_or path none = path
third_or path (some (_, rest)) = rest

unfoldable pub after_org : Text → Text
after_org path = if has_prefix path (txt "org/") then third_or path (after_cut (cut path)) else path

-- The switch on the third segment of a resource's path.
abbrev pub of_resource : List Text → Text
of_resource (_ ∷ third ∷ _) =
    if text_eq third endpoint_target
    then endpoint_target
    else if text_eq third endpoint_rule
    then endpoint_rule
    else endpoint_resource
of_resource _ = endpoint_resource

abbrev pub of_segments : List Text → Text
of_segments [] = endpoint_unknown
of_segments (first ∷ rest) =
    if text_eq first (txt "pick-site-defaults")
    then txt "site_defaults"
    else if text_eq first endpoint_site
    then endpoint_site
    else if text_eq first endpoint_resource
    then of_resource rest
    else if text_eq first endpoint_target
    then endpoint_target
    else if text_eq first endpoint_rule
    then endpoint_rule
    else if text_eq first (txt "site-resource")
    then endpoint_site_resource
    else if text_eq first (txt "domains")
    then txt "domain"
    else endpoint_unknown

abbrev pub of_path : Option Text → Text
of_path none = endpoint_unknown
of_path (some path) =
    of_segments (split_on b'/' (trim_right_slashes (after_org (trim_prefix path (txt "/v1/")))))

unfoldable pub classify_endpoint : (Text → Option Text) → Text → Text
classify_endpoint path_of raw_url = of_path (path_of raw_url)

abbrev pub all_labels : List Text
all_labels =
    txt "site_defaults"
    ∷ endpoint_site
    ∷ endpoint_resource
    ∷ endpoint_target
    ∷ endpoint_rule
    ∷ endpoint_site_resource
    ∷ txt "domain"
    ∷ endpoint_unknown
    ∷ []

test_paths :
    (classify_endpoint some (txt "/v1/org/org1/site") ≡ txt "site")
    × (classify_endpoint some (txt "/v1/resource/7/rule") ≡ txt "rule")
    × (classify_endpoint some (txt "/v1/site-resource/12/") ≡ txt "site_resource")
    × (classify_endpoint some (txt "/v1/org/org1/sites") ≡ txt "unknown")
unfolding classify_endpoint trim_prefix after_org cut split_on text_eq trim_right_slashes
test_paths = (refl, refl, refl, refl)
