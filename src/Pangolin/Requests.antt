-- ===== src/Pangolin/Requests.antt =====
-- The request and response structs of internal/pangolin/client.go.
use pangolin_operator.Base.{List, Option, Bool}
use pangolin_operator.Base.Int.{ℤ}
use pangolin_operator.Base.Text.{Text}

pub record PickSiteDefaultsResponse : Type 0 where
  pub newt_id : Text
  pub newt_secret : Text
  pub client_address : Text

pub record CreateSiteRequest : Type 0 where
  pub name : Text
  pub address : Text
  pub site_type : Text
  pub newt_id : Text
  pub secret : Text

pub record CreateSiteResponse : Type 0 where
  pub site_id : ℤ
  pub nice_id : Text

pub record GetSiteResponse : Type 0 where
  pub site_id : ℤ
  pub nice_id : Text
  pub name : Text
  pub site_type : Text
  pub online : Bool
  pub address : Text

pub record UpdateSiteRequest : Type 0 where
  pub name : Text

pub record SiteItem : Type 0 where
  pub site_id : ℤ
  pub nice_id : Text
  pub name : Text
  pub site_type : Text

pub record Domain : Type 0 where
  pub domain_id : Text
  pub base_domain : Text

pub record CreateResourceRequest : Type 0 where
  pub name : Text
  pub http : Bool
  pub protocol : Text
  pub proxy_port : ℤ
  pub domain_id : Text
  pub subdomain : Text

pub record CreateResourceResponse : Type 0 where
  pub resource_id : ℤ
  pub nice_id : Text
  pub full_domain : Text

pub record ResourceItem : Type 0 where
  pub resource_id : ℤ
  pub nice_id : Text
  pub name : Text
  pub full_domain : Text
  pub subdomain : Text
  pub domain_id : Text
  pub enabled : Bool

pub record UpdateResourceRequest : Type 0 where
  pub name : Text
  pub subdomain : Text
  pub ssl : Option Bool
  pub sso : Option Bool
  pub block_access : Option Bool
  pub email_whitelist_enabled : Option Bool
  pub apply_rules : Option Bool
  pub enabled : Option Bool
  pub sticky_session : Option Bool
  pub tls_server_name : Option Text
  pub set_host_header : Option Text
  pub skip_to_idp_id : Option ℤ

pub record CreateRuleRequest : Type 0 where
  pub action : Text
  pub match_kind : Text
  pub value : Text
  pub priority : ℤ
  pub enabled : Option Bool

pub record CreateRuleResponse : Type 0 where
  pub rule_id : ℤ

pub record CreateTargetRequest : Type 0 where
  pub site_id : ℤ
  pub ip : Text
  pub port : ℤ
  pub method : Text
  pub enabled : Option Bool
  pub path : Text
  pub path_match_type : Text
  pub rewrite_path : Text
  pub rewrite_path_type : Text
  pub priority : ℤ

pub record CreateTargetResponse : Type 0 where
  pub target_id : ℤ

pub record CreateSiteResourceRequest : Type 0 where
  pub name : Text
  pub site_id : ℤ
  pub mode : Text
  pub destination : Text
  pub tcp_port_range_string : Text
  pub udp_port_range_string : Text
  pub disable_icmp : Bool
  pub alias : Text
  pub role_ids : List ℤ
  pub user_ids : List Text
  pub client_ids : List ℤ
  pub ssl : Option Bool
  pub scheme : Text
  pub domain_id : Text
  pub subdomain : Text
  pub destination_port : ℤ

pub record CreateSiteResourceResponse : Type 0 where
  pub site_resource_id : ℤ
  pub nice_id : Text
  pub full_domain : Text

pub record SiteResourceItem : Type 0 where
  pub site_resource_id : ℤ
  pub site_id : ℤ
  pub nice_id : Text
  pub name : Text
  pub mode : Text
  pub destination : Text
  pub enabled : Bool
  pub full_domain : Text
  pub domain_id : Text
  pub subdomain : Text

pub record UpdateSiteResourceRequest : Type 0 where
  pub user_ids : List Text
  pub role_ids : List ℤ
  pub client_ids : List ℤ
  pub site_id : ℤ
  pub name : Text
  pub mode : Text
  pub destination : Text
  pub tcp_port_range_string : Text
  pub udp_port_range_string : Text
  pub disable_icmp : Bool
  pub alias : Text
  pub ssl : Option Bool
  pub scheme : Text
  pub domain_id : Text
  pub subdomain : Text
  pub destination_port : ℤ
