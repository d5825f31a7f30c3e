-- ===== src/Pangolin/Tests.antt =====
-- Tests of the Pangolin client on concrete answers.
use pangolin_operator.Base.{
  ℕ, zero, suc, ◌*◌, take, drop, arith, true, none, some, List, [], ◌∷◌, ◌≡◌, ◌≢◌, ◌↔◌, refl, ap,
  inl, inr,
}
use pangolin_operator.Pangolin.Client.Methods.{Codec}
use pangolin_operator.Base.Errors.{
  Error, wrap, not_found, is_not_found, is_bad_request, is_conflict,
}
use pangolin_operator.Base.Exec.{ok}
use pangolin_operator.Base.Int.{pos}
use pangolin_operator.Pangolin.Client.{
  Answer, value, failure, HttpResponse, Http, Client, do_request, list_resources,
}
use pangolin_operator.Pangolin.Client.Status.{do_request_status}
use pangolin_operator.Pangolin.Client.Paging.{list_resources-serves}
use pangolin_operator.Base.Text.{Text, txt, text_eq, text_eq_iff, has_suffix, trim_suffix}
use pangolin_operator.Pangolin.Requests.{Domain, ResourceItem}
use pangolin_operator.Pangolin.Domain.{
  resolve_domain, resolve_domain_id, scan, consider, covers, subdomain_for, subdomain_under,
}
use pangolin_operator.Pangolin.Domain.Laws.{
  UniqueIds, Resolved, IsNamed, resolve_domain-Resolved, resolve_domain_drops,
}

abbrev example_com : Domain
example_com = record { domain_id = txt "d1"; base_domain = txt "example.com" }

abbrev lab : Domain
lab = record { domain_id = txt "d2"; base_domain = txt "lab.example.com" }

abbrev domains : List Domain
domains = example_com ∷ lab ∷ []

ids_differ : txt "d1" ≢ txt "d2"
unfolding text_eq
ids_differ h = cc ((text_eq_iff (txt "d1") (txt "d2")).1 h)

domains-UniqueIds : UniqueIds domains
domains-UniqueIds d e (inl p) (inl q) h = cc
domains-UniqueIds d e (inr (inl p)) (inr (inl q)) h = cc
domains-UniqueIds d e (inl p) (inr (inl q)) h = absurd (ids_differ cc)
domains-UniqueIds d e (inr (inl p)) (inl q) h = absurd (ids_differ cc)
domains-UniqueIds d e (inl p) (inr (inr n)) h = absurd n
domains-UniqueIds d e (inr (inl p)) (inr (inr n)) h = absurd n
domains-UniqueIds d e (inr (inr n)) m h = absurd n

resolve_domain-Resolved_example :
    Resolved domains (txt "git.lab.example.com") (txt "d2") (txt "git")
unfolding resolve_domain resolve_domain_id scan consider covers subdomain_for subdomain_under
    text_eq has_suffix trim_suffix
resolve_domain-Resolved_example =
    resolve_domain-Resolved domains (txt "git.lab.example.com") (txt "d2") (txt "git")
      domains-UniqueIds refl

not_empty : (c : ℕ) (s : Text) → (c ∷ s) ≢ []
not_empty c s h = cc

domains-IsNamed : IsNamed domains
domains-IsNamed d (inl p) = rw p ((λ h. cc), (λ h. cc))
domains-IsNamed d (inr (inl p)) = rw p ((λ h. cc), (λ h. cc))
domains-IsNamed d (inr (inr n)) = absurd n

resolve_domain_drops_example :
    resolve_domain (example_com ∷ []) (txt "example.com.example.com") ≡ some (txt "d1", [])
resolve_domain_drops_example =
    resolve_domain_drops example_com [] (not_empty b'd' _) (not_empty b'e' _)

-- A server that answers every request with status 404.
abbrev lost : HttpResponse
lost = record { status_code = 404; body = [] }

abbrev no_server : Http
no_server = record {
  refuse = λ _ _. none;
  send = λ _. value lost;
  decode_message = λ _. none;
  decode_envelope = λ _. failure (txt "not JSON");
  query_escape = λ q. q;
}

-- A server whose answer is an envelope without data.
abbrev empty_server : Http
empty_server = record {
  refuse = λ _ _. none;
  send = λ _. value (record { status_code = 200; body = [] });
  decode_message = λ _. none;
  decode_envelope =
      λ _. value (record { payload = []; success = true; message = []; status = pos 200 });
  query_escape = λ q. q;
}

abbrev client : Client
client = record { endpoint = txt "https://api.example.com"; api_key = txt "k"; org_id = txt "o" }

abbrev nothing_decoded : Text → Answer (List ResourceItem)
nothing_decoded _ = failure (txt "unused")

do_request_status_example :
    ((is_not_found (not_found (txt "not found (HTTP 404)")) ≡ true) ↔ (lost.status_code ≡ 404))
    × ((is_bad_request (not_found (txt "not found (HTTP 404)")) ≡ true) ↔ (lost.status_code ≡ 400))
    × ((is_conflict (not_found (txt "not found (HTTP 404)")) ≡ true) ↔ (lost.status_code ≡ 409))
unfolding do_request
do_request_status_example =
    do_request_status no_server client [] nothing_decoded (txt "GET") (txt "u") lost
      (not_found (txt "not found (HTTP 404)")) refl refl refl

drop_nil : (n : ℕ) → [] ≡ take 100 (drop {A = ResourceItem} n [])
drop_nil zero = refl
drop_nil (suc n) = refl

list_resources-serves_example :
    list_resources empty_server client nothing_decoded 1 (txt "web") ≡ some (ok [])
unfolding do_request
list_resources-serves_example =
    list_resources-serves empty_server client nothing_decoded (txt "web") [] 1
      (λ k. ap ok (drop_nil (100 * k))) (omega arith)

-- A codec that can write and read nothing.
abbrev no_codec : Codec
no_codec = record {
  marshal_create_site = λ _. failure (txt "unused");
  marshal_update_site = λ _. failure (txt "unused");
  marshal_create_resource = λ _. failure (txt "unused");
  marshal_update_resource = λ _. failure (txt "unused");
  marshal_create_rule = λ _. failure (txt "unused");
  marshal_create_target = λ _. failure (txt "unused");
  marshal_create_site_resource = λ _. failure (txt "unused");
  marshal_update_site_resource = λ _. failure (txt "unused");
  site_defaults = λ _. failure (txt "unused");
  created_site = λ _. failure (txt "unused");
  site = λ _. failure (txt "unused");
  domains = λ _. failure (txt "unused");
  created_resource = λ _. failure (txt "unused");
  created_rule = λ _. failure (txt "unused");
  created_target = λ _. failure (txt "unused");
  created_site_resource = λ _. failure (txt "unused");
}

abbrev lost_error : Error
lost_error = wrap (txt "DeleteResource(5)") (not_found (txt "not found (HTTP 404)"))
