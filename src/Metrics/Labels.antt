-- ===== src/Metrics/Labels.antt =====
-- Which labels ClassifyEndpoint of internal/metrics/metrics.go gives.
use mathlib.Core.Path.{◌∙◌}
use pangolin_operator.Base.{
  ℕ, Option, none, some, List, [], ◌∷◌, ◌++◌, ◌≡◌, inl, inr, refl, ap, Bool, true, false, ◌==◌,
  length-append, take-append_length, drop-append_length, if◌then◌else◌, In, All, arith,
}
use pangolin_operator.Base.Text.{Text, txt, text_eq, text_eq_refl, split_on}
use pangolin_operator.Pangolin.Client.{Http, Client, page_url}
use pangolin_operator.Metrics.Classify.{
  endpoint_unknown, all_labels, of_segments, of_resource, of_path, has_prefix, trim_prefix,
  trim_right_slashes, cut, after_org, classify_endpoint,
}

In-if :
    (b : Bool) (x y : Text) → In x all_labels → In y all_labels → In (if b then x else y) all_labels
In-if true x y h k = h
In-if false x y h k = k

site_defaults-In : In (txt "site_defaults") all_labels
site_defaults-In = inl refl

site-In : In (txt "site") all_labels
site-In = inr (inl refl)

resource-In : In (txt "resource") all_labels
resource-In = inr (inr (inl refl))

target-In : In (txt "target") all_labels
target-In = inr (inr (inr (inl refl)))

rule-In : In (txt "rule") all_labels
rule-In = inr (inr (inr (inr (inl refl))))

site_resource-In : In (txt "site_resource") all_labels
site_resource-In = inr (inr (inr (inr (inr (inl refl)))))

domain-In : In (txt "domain") all_labels
domain-In = inr (inr (inr (inr (inr (inr (inl refl))))))

unknown-In : In endpoint_unknown all_labels
unknown-In = inr (inr (inr (inr (inr (inr (inr (inl refl)))))))

of_resource-In : (segments : List Text) → In (of_resource segments) all_labels
of_resource-In [] = resource-In
of_resource-In (_ ∷ []) = resource-In
of_resource-In (_ ∷ third ∷ _) = In-if _ _ _ target-In (In-if _ _ _ rule-In resource-In)

of_segments-In : (segments : List Text) → In (of_segments segments) all_labels
of_segments-In [] = unknown-In
of_segments-In (first ∷ rest) = In-if _ _ _ site_defaults-In (
    In-if _ _ _ site-In (
      In-if _ _ _ (of_resource-In rest) (
        In-if _ _ _ target-In
          (In-if _ _ _ rule-In (In-if _ _ _ site_resource-In (In-if _ _ _ domain-In unknown-In))))))

of_path-In : (path : Option Text) → In (of_path path) all_labels
of_path-In none = unknown-In
of_path-In (some path) = of_segments-In _

-- Whatever the URL and however it is parsed, the label is one of eight, so that the metrics have a
-- bounded number of series.
pub classify_endpoint-In :
    (path_of : Text → Option Text) (raw_url : Text)
    → In (classify_endpoint path_of raw_url) all_labels
unfolding classify_endpoint
classify_endpoint-In path_of raw_url = of_path-In (path_of raw_url)

has_prefix-append : (t s : Text) → has_prefix (t ++ s) t ≡ true
has_prefix-append t s =
    rw (take-append_length t s, text_eq_refl t) (ground (arith, length-append t s))

trim_prefix-append : (t s : Text) → trim_prefix (t ++ s) t ≡ s
unfolding trim_prefix
trim_prefix-append t s = rw (has_prefix-append t s) (drop-append_length t s)

abbrev pub NotSlash : Text → Type 0
NotSlash s = All (λ c. (c == b'/') ≡ false) s

cut-append : (org rest : Text) → NotSlash org → cut (org ++ b'/' ∷ rest) ≡ some (org, rest)
unfolding cut
cut-append [] rest h = refl
cut-append (c ∷ org) rest (h, hs) = rw (h, cut-append org rest hs) refl

after_org_lem :
    (org rest : Text) → NotSlash org → after_org (txt "org/" ++ org ++ b'/' ∷ rest) ≡ rest
unfolding after_org cut
after_org_lem org rest h =
    rw (has_prefix-append (txt "org/") (org ++ b'/' ∷ rest), cut-append org rest h) refl

-- The last segments of the URLs of the three page loops.
pub data IsListed : Text → Type 0 where
  sites : IsListed (txt "sites")
  resources : IsListed (txt "resources")
  site_resources : IsListed (txt "site-resources")

segments-unknown :
    (kind : Text)
    → IsListed kind
    → of_segments (split_on b'/' (trim_right_slashes kind)) ≡ endpoint_unknown
unfolding split_on trim_right_slashes text_eq
segments-unknown _ sites = refl
segments-unknown _ resources = refl
segments-unknown _ site_resources = refl

-- When the URL of a page of ListSites, ListResources or ListSiteResources is parsed to its path
-- below /v1, for an organisation whose name has no slash, ClassifyEndpoint labels it unknown.
pub classify_endpoint_page :
    (path_of : Text → Option Text) (http : Http) (client : Client) (kind : Text) (page : ℕ)
    (query : Text)
    → IsListed kind
    → NotSlash client.org_id
    → path_of (page_url http client kind page query)
      ≡ some (txt "/v1/org/" ++ client.org_id ++ b'/' ∷ kind)
    → classify_endpoint path_of (page_url http client kind page query) ≡ endpoint_unknown
unfolding classify_endpoint
classify_endpoint_page path_of http client kind page query listed h parsed = rw parsed (
    ap (λ p. of_segments (split_on b'/' (trim_right_slashes (after_org p))))
      (trim_prefix-append (txt "/v1/") (txt "org/" ++ client.org_id ++ b'/' ∷ kind))
    ∙ ap (λ p. of_segments (split_on b'/' (trim_right_slashes p)))
        (after_org_lem client.org_id kind h)
    ∙ segments-unknown kind listed)
