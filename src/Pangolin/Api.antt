-- ===== src/Pangolin/Api.antt =====
-- The interface `API` of internal/pangolin/client.go, as its callers see it: each method's answer
-- is a function of what was called before (`H`, a history) and of the arguments, so that any
-- behaviour of the server is a value of this record.
use pangolin_operator.Base.{List}
use pangolin_operator.Base.Exec.{Result}
use pangolin_operator.Base.Int.{ℤ}
use pangolin_operator.Base.Text.{Text}
use pangolin_operator.Pangolin.Requests.{
  PickSiteDefaultsResponse, CreateSiteRequest, CreateSiteResponse, GetSiteResponse,
  UpdateSiteRequest, SiteItem, Domain, CreateResourceRequest, CreateResourceResponse, ResourceItem,
  UpdateResourceRequest, CreateRuleRequest, CreateRuleResponse, CreateTargetRequest,
  CreateTargetResponse, CreateSiteResourceRequest, CreateSiteResourceResponse, SiteResourceItem,
  UpdateSiteResourceRequest,
}

pub data ApiCall : Type 0 where
  pick_site_defaults list_domains : ApiCall
  create_site : CreateSiteRequest → ApiCall
  get_site : ℤ → ApiCall
  list_sites : Text → ApiCall
  update_site : ℤ → UpdateSiteRequest → ApiCall
  delete_site : ℤ → ApiCall
  create_resource : CreateResourceRequest → ApiCall
  list_resources : Text → ApiCall
  update_resource : ℤ → UpdateResourceRequest → ApiCall
  delete_resource : ℤ → ApiCall
  create_target : ℤ → CreateTargetRequest → ApiCall
  delete_target : ℤ → ApiCall
  create_rule : ℤ → CreateRuleRequest → ApiCall
  delete_rule : ℤ → ℤ → ApiCall
  create_site_resource : CreateSiteResourceRequest → ApiCall
  list_site_resources : Text → ApiCall
  update_site_resource : ℤ → UpdateSiteResourceRequest → ApiCall
  delete_site_resource : ℤ → ApiCall

pub record Api (H : Type 0) : Type 0 where
  pub pick_site_defaults : H → Result PickSiteDefaultsResponse
  pub create_site : H → CreateSiteRequest → Result CreateSiteResponse
  pub get_site : H → ℤ → Result GetSiteResponse
  pub list_sites : H → Text → Result (List SiteItem)
  pub update_site : H → ℤ → UpdateSiteRequest → Result (Unit {0})
  pub delete_site : H → ℤ → Result (Unit {0})
  pub list_domains : H → Result (List Domain)
  pub create_resource : H → CreateResourceRequest → Result CreateResourceResponse
  pub list_resources : H → Text → Result (List ResourceItem)
  pub update_resource : H → ℤ → UpdateResourceRequest → Result (Unit {0})
  pub delete_resource : H → ℤ → Result (Unit {0})
  pub create_target : H → ℤ → CreateTargetRequest → Result CreateTargetResponse
  pub delete_target : H → ℤ → Result (Unit {0})
  pub create_rule : H → ℤ → CreateRuleRequest → Result CreateRuleResponse
  pub delete_rule : H → ℤ → ℤ → Result (Unit {0})
  pub create_site_resource : H → CreateSiteResourceRequest → Result CreateSiteResourceResponse
  pub list_site_resources : H → Text → Result (List SiteResourceItem)
  pub update_site_resource : H → ℤ → UpdateSiteResourceRequest → Result (Unit {0})
  pub delete_site_resource : H → ℤ → Result (Unit {0})
