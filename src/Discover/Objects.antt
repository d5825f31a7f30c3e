-- ===== src/Discover/Objects.antt =====
-- The Kubernetes and Gateway API objects that internal/autodiscover/autodiscover.go reads, as far as
-- it reads them. An HTTPRoute and a TCPRoute are one record: a TCPRoute has no host names.
use pangolin_operator.Base.{Option, List}
use pangolin_operator.Base.Int.{ℤ}
use pangolin_operator.Base.Text.{Text}
use pangolin_operator.Types.Public.{PublicHeaderSpec, PublicRuleSpec, PublicResourceSpec}

pub record ParentReference : Type 0 where
  pub name : Text
  pub namespace : Option Text

pub record BackendObjectReference : Type 0 where
  pub name : Text
  pub namespace : Option Text
  pub port : Option ℤ

pub record Route : Type 0 where
  pub name : Text
  pub namespace : Text
  pub annotations : List (Text × Text)
  pub parent_refs : List ParentReference
  pub hostnames : List Text
  -- the backendRefs of each rule
  pub rules : List (List BackendObjectReference)

pub record ServicePort : Type 0 where
  pub name : Text
  pub port : ℤ
  pub protocol : Text

pub record Service : Type 0 where
  pub name : Text
  pub namespace : Text
  pub annotations : List (Text × Text)
  pub ports : List ServicePort

-- encoding/json at the types that are decoded and encoded here; `none` is a decoding error.
pub record Json : Type 0 where
  pub decode_headers : Text → Option (List PublicHeaderSpec)
  pub decode_rules : Text → Option (List PublicRuleSpec)
  pub encode_spec : PublicResourceSpec → Text
