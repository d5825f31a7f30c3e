-- ===== src/Pangolin/Client.antt =====
-- The methods `do`, ListSites, ListResources and ListSiteResources of internal/pangolin/client.go.
-- net/http, encoding/json and net/url are the parameters in Http: their errors are texts, since none
-- of them returns an error type of this package. What the metrics record is the status label beside
-- the result. The page loop has no bound in the source; `pages` runs on fuel.
pub mod Status
pub mod Paging
pub mod Methods
use pangolin_operator.Base.{
  ℕ, zero, suc, ◌+◌, Option, none, some, List, [], ◌∷◌, ◌++◌, Bool, true, false, not, ◌==◌, ltb,
  length, if◌then◌else◌,
}
use pangolin_operator.Base.Errors.{Error, plain, wrap, not_found, bad_request, conflict}
use pangolin_operator.Base.Exec.{Result, ok, err, wrap_result}
use pangolin_operator.Base.Int.{ℤ, pos}
use pangolin_operator.Base.Text.{Text, txt, itoa, is_empty}
use pangolin_operator.Pangolin.Requests.{SiteItem, ResourceItem, SiteResourceItem}

pub data Answer {ℓ} (A : Type ℓ) : Type ℓ where
  value : A → Answer A
  failure : Text → Answer A

pub record HttpRequest : Type 0 where
  pub method : Text
  pub url : Text
  pub authorization : Text
  pub content_type : Option Text
  pub body : Option Text

pub record HttpResponse : Type 0 where
  pub status_code : ℕ
  pub body : Text

pub record Envelope : Type 0 where
  pub payload : Text
  pub success : Bool
  pub message : Text
  pub status : ℤ

pub record Http : Type 0 where
  -- what http.NewRequestWithContext refuses
  pub refuse : Text → Text → Option Text
  pub send : HttpRequest → Answer HttpResponse
  -- the `message` field of a body, and the envelope
  pub decode_message : Text → Option Text
  pub decode_envelope : Text → Answer Envelope
  pub query_escape : Text → Text

pub record Client : Type 0 where
  pub endpoint : Text
  pub api_key : Text
  pub org_id : Text

abbrev pub api_base : Client → Text
api_base client = client.endpoint ++ txt "/v1"

abbrev content_type_of : Option Text → Option Text
content_type_of none = none
content_type_of (some _) = some (txt "application/json")

abbrev pub request : Client → Text → Text → Option Text → HttpRequest
request client method url body = record {
  method = method;
  url = url;
  authorization = txt "Bearer " ++ client.api_key;
  content_type = content_type_of body;
  body = body;
}

abbrev bad_request_error : Option Text → Error
bad_request_error none = bad_request (txt "bad request (HTTP 400)")
bad_request_error (some m) =
    if is_empty m
    then bad_request (txt "bad request (HTTP 400)")
    else bad_request (txt "bad request (HTTP 400): " ++ m)

-- `zero_value` is `out` before the call, and `decode` is json.Unmarshal into it.
module _ {A : Type 0} (http : Http) (client : Client) (zero_value : A)
    (decode : Text → Answer A) where
  abbrev decoded : Answer A → Result A × Text
  decoded (failure m) = (err (wrap (txt "decode response data") (plain m)), txt "error")
  decoded (value a) = (ok a, txt "success")

  abbrev on_envelope : Text → Text → HttpResponse → Answer Envelope → Result A × Text
  on_envelope method url resp (failure m) = (
    err (
        wrap
          (txt "decode response from "
            ++ method
            ++ b' ' ∷ url
            ++ txt " (HTTP "
            ++ itoa (pos resp.status_code)
            ++ txt ")")
          (plain m)),
    txt "error",
  )
  on_envelope method url resp (value envelope) =
      if not envelope.success
      then (
        err (
            plain (
              txt "pangolin API error (HTTP "
              ++ itoa (pos resp.status_code)
              ++ txt ", status "
              ++ itoa envelope.status
              ++ txt "): "
              ++ envelope.message)),
        txt "error",
      )
      else if is_empty envelope.payload
      then (ok zero_value, txt "success")
      else decoded (decode envelope.payload)

  abbrev on_response : Text → Text → Answer HttpResponse → Result A × Text
  on_response method url (failure m) =
      (err (wrap (method ++ txt " request failed") (plain m)), txt "error")
  on_response method url (value resp) =
      if resp.status_code == 404
      then (err (not_found (txt "not found (HTTP 404)")), txt "not_found")
      else if resp.status_code == 400
      then (err (bad_request_error (http.decode_message resp.body)), txt "bad_request")
      else if resp.status_code == 409
      then (err (conflict (txt "conflict (HTTP 409)")), txt "conflict")
      else on_envelope method url resp (http.decode_envelope resp.body)

  abbrev build : Text → Text → Option Text → Option Text → Result A × Text
  build method url body (some m) = (err (wrap (txt "build request") (plain m)), txt "error")
  build method url body none = on_response method url (http.send (request client method url body))

  -- `do`: the body is what json.Marshal answers for it, and nothing for nil. Beside the result is
  -- the status label of the metrics.
  unfoldable pub do_request : Text → Text → Option (Answer Text) → Result A × Text
  do_request method url none = build method url none (http.refuse method url)
  do_request method url (some (failure m)) =
      (err (wrap (txt "marshal request body") (plain m)), txt "error")
  do_request method url (some (value b)) = build method url (some b) (http.refuse method url)

abbrev pub list_page_size : ℕ
list_page_size = 100

module _ {A : Type 0} where
  abbrev on_page :
      Text
      → Result (List A)
      → List A
      → (List A → Option (Result (List A)))
      → Option (Result (List A))
  on_page prefix (err e) all next = some (err (wrap prefix e))
  on_page prefix (ok items) all next =
      if ltb (length items) list_page_size then some (ok (all ++ items)) else next (all ++ items)

  -- The loop over the pages from `page` on; `none` where the fuel does not suffice.
  unfoldable pub pages : Text → (ℕ → Result (List A)) → ℕ → ℕ → List A → Option (Result (List A))
  pages prefix fetch zero page all = none
  pages prefix fetch (suc fuel) page all =
      on_page prefix (fetch page) all (λ more. pages prefix fetch fuel (page + 1) more)

module _ (http : Http) (client : Client) where
  abbrev pub page_url : Text → ℕ → Text → Text
  page_url kind page query =
      api_base client
      ++ txt "/org/"
      ++ client.org_id
      ++ b'/' ∷ kind
      ++ txt "?pageSize="
      ++ itoa (pos list_page_size)
      ++ txt "&page="
      ++ itoa (pos page)
      ++ txt "&query="
      ++ http.query_escape query

  -- One request of such a loop; `decode` reads the list out of the envelope's data.
  abbrev pub fetch_page :
      {A : Type 0} → (Text → Answer (List A)) → Text → Text → ℕ → Result (List A)
  fetch_page decode kind query page =
      (do_request http client [] decode (txt "GET") (page_url kind page query) none).0

  unfoldable pub list_sites :
      (Text → Answer (List SiteItem)) → ℕ → Text → Option (Result (List SiteItem))
  unfolding pages
  list_sites decode fuel query =
      pages (txt "ListSites") (fetch_page decode (txt "sites") query) fuel 1 []

  unfoldable pub list_resources :
      (Text → Answer (List ResourceItem)) → ℕ → Text → Option (Result (List ResourceItem))
  unfolding pages
  list_resources decode fuel query =
      pages (txt "ListResources") (fetch_page decode (txt "resources") query) fuel 1 []

  unfoldable pub list_site_resources :
      (Text → Answer (List SiteResourceItem)) → ℕ → Text → Option (Result (List SiteResourceItem))
  unfolding pages
  list_site_resources decode fuel query =
      pages (txt "ListSiteResources") (fetch_page decode (txt "site-resources") query) fuel 1 []
