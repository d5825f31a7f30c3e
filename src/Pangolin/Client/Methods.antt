-- ===== src/Pangolin/Client/Methods.antt =====
-- NewClient and the methods of internal/pangolin/client.go that send one request: a verb, a URL, and
-- the prefix of their error. `Codec` is encoding/json at the requests and answers of the API; `out`
-- is the zero value of its struct where the envelope has no data.
pub mod Deletion
use pangolin_operator.Base.{
  none, some, List, [], ◌∷◌, ◌++◌, Option, ◌==◌, ◌&&◌, if◌then◌else◌, false,
}
use pangolin_operator.Base.Exec.{Result, wrap_result}
use pangolin_operator.Base.Int.{ℤ, pos}
use pangolin_operator.Base.Text.{Text, txt, itoa, is_empty}
use pangolin_operator.Pangolin.Client.{Answer, value, Http, Client, api_base, do_request}
use pangolin_operator.Pangolin.Requests.{
  PickSiteDefaultsResponse, CreateSiteRequest, CreateSiteResponse, GetSiteResponse,
  UpdateSiteRequest, Domain, CreateResourceRequest, CreateResourceResponse, UpdateResourceRequest,
  CreateRuleRequest, CreateRuleResponse, CreateTargetRequest, CreateTargetResponse,
  CreateSiteResourceRequest, CreateSiteResourceResponse, UpdateSiteResourceRequest,
}

pub record Credentials : Type 0 where
  pub endpoint : Text
  pub api_key : Text
  pub org_id : Text

-- strings.TrimRight(s, "/")
trim_slashes : Text → Text
trim_slashes [] = []
trim_slashes (c ∷ s) =
    let rest = trim_slashes s in if c == b'/' && is_empty rest then [] else c ∷ rest

unfoldable pub new_client : Credentials → Client
unfolding trim_slashes
new_client creds = record {
  endpoint = trim_slashes creds.endpoint;
  api_key = creds.api_key;
  org_id = creds.org_id;
}

pub record Codec : Type 0 where
  pub marshal_create_site : CreateSiteRequest → Answer Text
  pub marshal_update_site : UpdateSiteRequest → Answer Text
  pub marshal_create_resource : CreateResourceRequest → Answer Text
  pub marshal_update_resource : UpdateResourceRequest → Answer Text
  pub marshal_create_rule : CreateRuleRequest → Answer Text
  pub marshal_create_target : CreateTargetRequest → Answer Text
  pub marshal_create_site_resource : CreateSiteResourceRequest → Answer Text
  pub marshal_update_site_resource : UpdateSiteResourceRequest → Answer Text
  pub site_defaults : Text → Answer PickSiteDefaultsResponse
  pub created_site : Text → Answer CreateSiteResponse
  pub site : Text → Answer GetSiteResponse
  pub domains : Text → Answer (List Domain)
  pub created_resource : Text → Answer CreateResourceResponse
  pub created_rule : Text → Answer CreateRuleResponse
  pub created_target : Text → Answer CreateTargetResponse
  pub created_site_resource : Text → Answer CreateSiteResourceResponse

abbrev pub ignored : Text → Answer (Unit {0})
ignored _ = value tt

-- `Name(id)`
abbrev pub with_id : Text → ℤ → Text
with_id name id = name ++ b'(' ∷ itoa id ++ txt ")"

module _ (http : Http) (codec : Codec) (client : Client) where
  abbrev at : Text → Text
  at path = api_base client ++ path

  abbrev at_org : Text → Text
  at_org path = api_base client ++ txt "/org/" ++ client.org_id ++ path

  -- A request with an answer, and one whose answer is ignored (a nil `out`).
  abbrev fetch :
      {A : Type 0} → A → (Text → Answer A) → Text → Text → Text → Option (Answer Text) → Result A
  fetch zero_value decode prefix method url body =
      wrap_result prefix (do_request http client zero_value decode method url body).0

  abbrev act : Text → Text → Text → Option (Answer Text) → Result (Unit {0})
  act prefix method url body = fetch tt ignored prefix method url body

  unfoldable pub pick_site_defaults : Result PickSiteDefaultsResponse
  pick_site_defaults =
      fetch (record { newt_id = []; newt_secret = []; client_address = [] }) codec.site_defaults
        (txt "PickSiteDefaults") (txt "GET") (at_org (txt "/pick-site-defaults")) none

  unfoldable pub create_site : CreateSiteRequest → Result CreateSiteResponse
  create_site req =
      fetch (record { site_id = pos 0; nice_id = [] }) codec.created_site (txt "CreateSite")
        (txt "PUT") (at_org (txt "/site")) (some (codec.marshal_create_site req))

  unfoldable pub get_site : ℤ → Result GetSiteResponse
  get_site id =
      fetch
        (record {
          site_id = pos 0;
          nice_id = [];
          name = [];
          site_type = [];
          online = false;
          address = [];
        })
        codec.site (with_id (txt "GetSite") id) (txt "GET") (at (txt "/site/" ++ itoa id)) none

  unfoldable pub update_site : ℤ → UpdateSiteRequest → Result (Unit {0})
  update_site id req =
      act (with_id (txt "UpdateSite") id) (txt "POST") (at (txt "/site/" ++ itoa id))
        (some (codec.marshal_update_site req))

  unfoldable pub delete_site : ℤ → Result (Unit {0})
  delete_site id =
      act (with_id (txt "DeleteSite") id) (txt "DELETE") (at (txt "/site/" ++ itoa id)) none

  unfoldable pub list_domains : Result (List Domain)
  list_domains =
      fetch [] codec.domains (txt "ListDomains") (txt "GET") (at_org (txt "/domains")) none

  unfoldable pub create_resource : CreateResourceRequest → Result CreateResourceResponse
  create_resource req =
      fetch (record { resource_id = pos 0; nice_id = []; full_domain = [] }) codec.created_resource
        (txt "CreateResource") (txt "PUT") (at_org (txt "/resource"))
        (some (codec.marshal_create_resource req))

  unfoldable pub update_resource : ℤ → UpdateResourceRequest → Result (Unit {0})
  update_resource id req =
      act (with_id (txt "UpdateResource") id) (txt "POST") (at (txt "/resource/" ++ itoa id))
        (some (codec.marshal_update_resource req))

  unfoldable pub delete_resource : ℤ → Result (Unit {0})
  delete_resource id =
      act (with_id (txt "DeleteResource") id) (txt "DELETE") (at (txt "/resource/" ++ itoa id)) none

  unfoldable pub create_rule : ℤ → CreateRuleRequest → Result CreateRuleResponse
  create_rule resource_id req =
      fetch (record { rule_id = pos 0 }) codec.created_rule
        (txt "CreateRule(resource=" ++ itoa resource_id ++ txt ")") (txt "PUT")
        (at (txt "/resource/" ++ itoa resource_id ++ txt "/rule"))
        (some (codec.marshal_create_rule req))

  unfoldable pub delete_rule : ℤ → ℤ → Result (Unit {0})
  delete_rule resource_id rule_id =
      act (with_id (txt "DeleteRule") rule_id) (txt "DELETE")
        (at (txt "/resource/" ++ itoa resource_id ++ txt "/rule/" ++ itoa rule_id)) none

  unfoldable pub create_target : ℤ → CreateTargetRequest → Result CreateTargetResponse
  create_target resource_id req =
      fetch (record { target_id = pos 0 }) codec.created_target
        (txt "CreateTarget(resource=" ++ itoa resource_id ++ txt ")") (txt "PUT")
        (at (txt "/resource/" ++ itoa resource_id ++ txt "/target"))
        (some (codec.marshal_create_target req))

  unfoldable pub delete_target : ℤ → Result (Unit {0})
  delete_target id =
      act (with_id (txt "DeleteTarget") id) (txt "DELETE") (at (txt "/target/" ++ itoa id)) none

  unfoldable pub create_site_resource :
      CreateSiteResourceRequest → Result CreateSiteResourceResponse
  create_site_resource req =
      fetch (record { site_resource_id = pos 0; nice_id = []; full_domain = [] })
        codec.created_site_resource (txt "CreateSiteResource(site=" ++ itoa req.site_id ++ txt ")")
        (txt "PUT") (at_org (txt "/site-resource")) (some (codec.marshal_create_site_resource req))

  unfoldable pub update_site_resource : ℤ → UpdateSiteResourceRequest → Result (Unit {0})
  update_site_resource id req =
      act (with_id (txt "UpdateSiteResource") id) (txt "POST")
        (at (txt "/site-resource/" ++ itoa id)) (some (codec.marshal_update_site_resource req))

  unfoldable pub delete_site_resource : ℤ → Result (Unit {0})
  delete_site_resource id =
      act (with_id (txt "DeleteSiteResource") id) (txt "DELETE")
        (at (txt "/site-resource/" ++ itoa id)) none
