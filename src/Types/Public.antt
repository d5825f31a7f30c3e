-- ===== src/Types/Public.antt =====
-- api/v1alpha1/publicresource_types.go
use pangolin_operator.Base.{List, Option, Bool}
use pangolin_operator.Base.Int.{ℤ}
use pangolin_operator.Base.Text.{Text}
use pangolin_operator.Types.Meta.{ObjectMeta, Condition, Phase}

pub record PublicHeaderSpec : Type 0 where
  pub name : Text
  pub value : Text

pub record PublicRuleSpec : Type 0 where
  pub action : Text
  pub match_kind : Text
  pub value : Text
  pub priority : ℤ

pub record PublicAuthSpec : Type 0 where
  pub sso_enabled : Bool
  pub sso_roles : List Text
  pub sso_users : List Text
  pub whitelist_users : List Text
  pub auto_login_idp : ℤ
  pub auth_secret_ref : Text

pub record PublicMaintenanceSpec : Type 0 where
  pub enabled : Bool
  pub kind : Text
  pub title : Text
  pub message : Text
  pub estimated_time : Text

pub record PublicHealthCheckSpec : Type 0 where
  pub hostname : Text
  pub port : ℤ
  pub enabled : Option Bool
  pub path : Text
  pub scheme : Text
  pub mode : Text
  pub interval : ℤ
  pub unhealthy_interval : ℤ
  pub timeout : ℤ
  pub headers : List PublicHeaderSpec
  pub follow_redirects : Option Bool
  pub method : Text
  pub status : ℤ

pub record PublicTargetSpec : Type 0 where
  pub hostname : Text
  pub port : ℤ
  pub method : Text
  pub enabled : Option Bool
  pub path : Text
  pub path_match_type : Text
  pub rewrite_path : Text
  pub rewrite_path_type : Text
  pub priority : ℤ
  pub healthcheck : Option PublicHealthCheckSpec

pub record PublicResourceSpec : Type 0 where
  pub site_ref : Text
  pub name : Text
  pub protocol : Text
  pub full_domain : Text
  pub proxy_port : ℤ
  pub enabled : Bool
  pub ssl : Bool
  pub host_header : Text
  pub tls_server_name : Text
  pub headers : List PublicHeaderSpec
  pub auth : Option PublicAuthSpec
  pub maintenance : Option PublicMaintenanceSpec
  pub rules : List PublicRuleSpec
  pub targets : List PublicTargetSpec

pub record PublicResourceStatus : Type 0 where
  pub phase : Phase
  pub resource_id : ℤ
  pub nice_id : Text
  pub full_domain : Text
  pub target_ids : List ℤ
  pub targets_hash : Text
  pub rule_ids : List ℤ
  pub rules_hash : Text
  pub observed_generation : ℤ
  pub conditions : List Condition

pub record PublicResource : Type 0 where
  pub metadata : ObjectMeta
  pub spec : PublicResourceSpec
  pub status : PublicResourceStatus
