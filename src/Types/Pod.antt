-- ===== src/Types/Pod.antt =====
-- The Kubernetes types that internal/controller/newtsite/deployment.go fills in, as far as it writes
-- them. A value that is only passed on from the NewtSpec stands for itself as its JSON text.
use pangolin_operator.Base.{List, Option, Bool}
use pangolin_operator.Base.Int.{ℤ}
use pangolin_operator.Base.Text.{Text}
use pangolin_operator.Types.Meta.{ObjectMeta}

abbrev pub PassedOn : Type 0
PassedOn = Text

pub data EnvValue : Type 0 where
  plain_value : Text → EnvValue
  -- a secretKeyRef: the secret's name, and the key
  secret_key : Text → Text → EnvValue
  other_source : PassedOn → EnvValue

pub record EnvVar : Type 0 where
  pub name : Text
  pub value : EnvValue

pub record SecurityContext : Type 0 where
  pub run_as_user : Option ℤ
  pub run_as_non_root : Option Bool
  pub read_only_root_filesystem : Option Bool
  pub privileged : Option Bool
  pub allow_privilege_escalation : Option Bool
  pub add_capabilities : List Text
  pub drop_capabilities : List Text

pub record PodSecurityContext : Type 0 where
  pub run_as_non_root : Option Bool
  pub seccomp_profile : Option Text

pub data Resources : Type 0 where
  -- the requested CPU and memory
  requests : Text → Text → Resources
  resources_given : PassedOn → Resources

pub record ContainerPort : Type 0 where
  pub name : Text
  pub container_port : ℤ
  pub protocol : Text

pub record NewtContainer : Type 0 where
  pub name : Text
  pub image : Text
  pub env : List EnvVar
  pub security_context : Option SecurityContext
  pub resources : Resources
  pub volume_mounts : List PassedOn
  pub ports : List ContainerPort

pub data Container : Type 0 where
  newt : NewtContainer → Container
  container_given : PassedOn → Container

pub record PodSpec : Type 0 where
  pub service_account_name : Text
  pub automount_service_account_token : Option Bool
  pub termination_grace_period_seconds : Option ℤ
  pub security_context : Option PodSecurityContext
  pub host_network : Bool
  pub host_pid : Bool
  pub init_containers : List PassedOn
  pub containers : List Container
  pub volumes : List PassedOn
  pub node_selector : List (Text × Text)
  pub tolerations : List PassedOn
  pub affinity : Option PassedOn
  pub topology_spread_constraints : List PassedOn

pub record DeploymentSpec : Type 0 where
  pub replicas : Option ℤ
  pub match_labels : List (Text × Text)
  pub pod_labels : List (Text × Text)
  pub pod_annotations : Option (List (Text × Text))
  pub pod : PodSpec

pub record Deployment : Type 0 where
  pub metadata : ObjectMeta
  pub spec : DeploymentSpec

pub record Secret : Type 0 where
  pub metadata : ObjectMeta
  pub string_data : List (Text × Text)
