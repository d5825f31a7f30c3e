-- ===== src/Metrics/Tests.antt =====
-- Tests of the labels and the counts of the metrics.
use pangolin_operator.Base.{Option, none, some, List, [], ◌∷◌, ◌≡◌, refl, In}
use pangolin_operator.Base.Exec.{ok, err}
use pangolin_operator.Base.Errors.{plain}
use pangolin_operator.Base.Text.{Text, txt, text_eq, lookup}
use pangolin_operator.Metrics.Classify.{all_labels, endpoint_unknown, classify_endpoint}
use pangolin_operator.Metrics.Collector.{
  collect, collect_error, collect_newt_sites, collect_public_resources, collect_private_resources,
  count_phases, or_no,
}
use pangolin_operator.Metrics.Labels.{resources, classify_endpoint-In, classify_endpoint_page}
use pangolin_operator.Metrics.Totals.{total, count_phases_lem}
use pangolin_operator.Pangolin.Client.{Http, Client, failure, page_url}
use pangolin_operator.Types.Meta.{Phase, unset, pending, ready}

abbrev http : Http
http = record {
  refuse = λ _ _. none;
  send = λ _. failure (txt "offline");
  decode_message = λ _. none;
  decode_envelope = λ _. failure (txt "offline");
  query_escape = λ q. q;
}

abbrev client : Client
client = record {
  endpoint = txt "https://pangolin.example.com";
  api_key = txt "k";
  org_id = txt "org1";
}

-- What a parser answers for the URL of a page of resources.
abbrev path_of : Text → Option Text
path_of url = some (txt "/v1/org/org1/resources")

classify_endpoint-In_example :
    In (classify_endpoint path_of (txt "https://pangolin.example.com/v1/site/42")) all_labels
classify_endpoint-In_example =
    classify_endpoint-In path_of (txt "https://pangolin.example.com/v1/site/42")

classify_endpoint_page_example :
    classify_endpoint path_of (page_url http client (txt "resources") 1 (txt "web"))
    ≡ endpoint_unknown
classify_endpoint_page_example =
    classify_endpoint_page path_of http client (txt "resources") 1 (txt "web") resources
      (refl, (refl, (refl, (refl, tt)))) refl

abbrev phases : List Phase
phases = unset ∷ ready ∷ pending ∷ []

count_phases_example :
    (or_no (lookup (txt "Pending") (count_phases phases [])) ≡ 2)
    × (total (count_phases phases []) ≡ 3)
unfolding text_eq
count_phases_example = count_phases_lem phases (txt "Pending")

collect_test :
    collect (λ counts. counts) (ok []) (err (plain (txt "timeout"))) (ok [])
    ≡ collect_error (txt "publicresource") ∷ []
unfolding collect collect_newt_sites collect_public_resources collect_private_resources count_phases
collect_test = refl
