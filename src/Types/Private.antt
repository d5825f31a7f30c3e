-- ===== src/Types/Private.antt =====
-- api/v1alpha1/privateresource_types.go
use pangolin_operator.Base.{List, Option, Bool}
use pangolin_operator.Base.Int.{ℤ}
use pangolin_operator.Base.Text.{Text}
use pangolin_operator.Types.Meta.{ObjectMeta, Condition, Phase}

pub record PrivateResourceSpec : Type 0 where
  pub site_ref : Text
  pub name : Text
  pub mode : Text
  pub destination : Text
  pub tcp_ports : Text
  pub udp_ports : Text
  pub full_domain : Text
  pub destination_port : ℤ
  pub scheme : Text
  pub ssl : Option Bool
  pub disable_icmp : Bool
  pub alias : Text
  pub role_ids : List ℤ
  pub user_ids : List Text
  pub client_ids : List ℤ

pub record PrivateResourceStatus : Type 0 where
  pub phase : Phase
  pub site_resource_id : ℤ
  pub nice_id : Text
  pub full_domain : Text
  pub observed_generation : ℤ
  pub conditions : List Condition

pub record PrivateResource : Type 0 where
  pub metadata : ObjectMeta
  pub spec : PrivateResourceSpec
  pub status : PrivateResourceStatus
