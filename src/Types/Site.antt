-- ===== src/Types/Site.antt =====
-- api/v1alpha1/newtsite_types.go.
use pangolin_operator.Base.{List, Option, Bool}
use pangolin_operator.Base.Int.{ℤ}
use pangolin_operator.Base.Text.{Text}
use pangolin_operator.Types.Meta.{ObjectMeta, Condition, Phase}
use pangolin_operator.Types.Pod.{PassedOn, EnvVar, SecurityContext, PodSecurityContext}

pub record NewtMetricsSpec : Type 0 where
  pub port : ℤ
  pub admin_addr : Text

pub record NewtSpec : Type 0 where
  pub image : Text
  pub tag : Text
  pub replicas : Option ℤ
  pub log_level : Text
  pub mtu : ℤ
  pub ping_interval : Text
  pub ping_timeout : Text
  pub interface_name : Text
  pub dns : Text
  pub accept_clients : Bool
  pub resources : Option PassedOn
  pub use_native_interface : Bool
  pub host_network : Bool
  pub host_pid : Bool
  pub pod_annotations : List (Text × Text)
  pub node_selector : List (Text × Text)
  pub tolerations : List PassedOn
  pub affinity : Option PassedOn
  pub topology_spread_constraints : List PassedOn
  pub pod_security_context : Option PodSecurityContext
  pub security_context : Option SecurityContext
  pub extra_env : List EnvVar
  pub extra_volumes : List PassedOn
  pub extra_volume_mounts : List PassedOn
  pub init_containers : List PassedOn
  pub extra_containers : List PassedOn
  pub metrics : Option NewtMetricsSpec

pub record AutoDiscoverSpec : Type 0 where
  pub annotation_prefix : Text
  pub gateway_name : Text
  pub gateway_namespace : Text
  pub gateway_target_hostname : Text
  pub gateway_target_port : ℤ
  pub gateway_target_method : Text
  pub enable_route_discovery : Bool
  pub enable_service_discovery : Bool
  pub enable_tcp_route_discovery : Bool
  pub all_ports : Bool
  pub ssl : Bool
  pub deny_countries : Text
  pub auth_sso_roles : Text
  pub auth_sso_users : Text
  pub auth_sso_idp : ℤ
  pub auth_whitelist_users : Text

pub record NewtSiteSpec : Type 0 where
  pub name : Text
  pub site_type : Text
  pub newt : NewtSpec
  pub managed_deployment : Option Bool
  pub auto_discover : Option AutoDiscoverSpec

pub record NewtSiteStatus : Type 0 where
  pub phase : Phase
  pub site_id : ℤ
  pub nice_id : Text
  pub newt_secret_name : Text
  pub online : Bool
  pub observed_generation : ℤ
  pub conditions : List Condition

pub record NewtSite : Type 0 where
  pub metadata : ObjectMeta
  pub spec : NewtSiteSpec
  pub status : NewtSiteStatus
