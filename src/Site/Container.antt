-- ===== src/Site/Container.antt =====
-- internal/controller/newtsite/deployment.go: the newt container, its environment and its security
-- contexts.
use pangolin_operator.Base.{
  ℕ, ◌-◌, ◌%◌, Option, none, some, List, [], ◌∷◌, ◌++◌, Bool, true, false, not, ◌&&◌, leb,
  if◌then◌else◌,
}
use pangolin_operator.Base.Int.{ℤ, pos, negsuc, ◌==ℤ◌}
use pangolin_operator.Base.Text.{Text, txt, text_eq, is_empty, itoa}
use pangolin_operator.Types.Pod.{
  PassedOn, EnvVar, plain_value, secret_key, SecurityContext, PodSecurityContext, Resources,
  requests, resources_given, ContainerPort, NewtContainer,
}
use pangolin_operator.Types.Site.{NewtMetricsSpec, NewtSpec}

abbrev pub env_pangolin_endpoint : Text
env_pangolin_endpoint = txt "PANGOLIN_ENDPOINT"

abbrev pub env_newt_id : Text
env_newt_id = txt "NEWT_ID"

abbrev pub env_newt_secret : Text
env_newt_secret = txt "NEWT_SECRET"

abbrev pub newt_container_name : Text
newt_container_name = txt "newt"

abbrev pub part_of_pangolin_op : Text
part_of_pangolin_op = txt "pangolin-operator"

abbrev default_text : Text → Text → Text
default_text def v = if is_empty v then def else v

-- int32 of an int, with its wrap-around.
abbrev signed_32 : ℕ → ℤ
signed_32 n = if leb n 2147483647 then pos n else negsuc (4294967295 - n)

unfoldable pub to_int32 : ℤ → ℤ
to_int32 (pos n) = signed_32 (n % 4294967296)
to_int32 (negsuc n) = signed_32 (4294967295 - n % 4294967296)

abbrev pub from_secret : Text → Text → EnvVar
from_secret secret_name key = record { name = key; value = secret_key secret_name key }

abbrev pub valued : Text → Text → EnvVar
valued name value = record { name = name; value = plain_value value }

-- An environment variable that is appended under a condition.
abbrev pub var_if : Bool → Text → Text → List EnvVar
var_if b name value = if b then valued name value ∷ [] else []

abbrev pub metrics_port : NewtMetricsSpec → ℤ
metrics_port m = if m.port ==ℤ pos 0 then pos 9090 else m.port

abbrev pub admin_addr : NewtMetricsSpec → Text
admin_addr m =
    if is_empty m.admin_addr then txt "0.0.0.0:" ++ itoa (metrics_port m) else m.admin_addr

abbrev pub metrics_env : Option NewtMetricsSpec → List EnvVar
metrics_env none = []
metrics_env (some m) = valued (txt "NEWT_ADMIN_ADDR") (admin_addr m) ∷ []

-- The environment of the newt container before the extra variables.
unfoldable pub operator_env : NewtSpec → Text → List EnvVar
operator_env spec secret_name =
    from_secret secret_name env_pangolin_endpoint
      ∷ from_secret secret_name env_newt_id
      ∷ from_secret secret_name env_newt_secret
      ∷ valued (txt "LOG_LEVEL") (default_text (txt "INFO") spec.log_level)
      ∷ var_if (not (spec.mtu ==ℤ pos 1280)) (txt "MTU") (itoa spec.mtu)
    ++ var_if (not (is_empty spec.ping_interval)) (txt "PING_INTERVAL") spec.ping_interval
    ++ var_if (not (is_empty spec.ping_timeout)) (txt "PING_TIMEOUT") spec.ping_timeout
    ++ var_if (not (is_empty spec.dns)) (txt "DNS") spec.dns
    ++ var_if spec.accept_clients (txt "ACCEPT_CLIENTS") (txt "true")
    ++ var_if
        (not (is_empty spec.interface_name)
          && not (text_eq spec.interface_name newt_container_name))
        (txt "INTERFACE") spec.interface_name
    ++ metrics_env spec.metrics

abbrev native_context : SecurityContext
native_context = record {
  run_as_user = some (pos 0);
  run_as_non_root = none;
  read_only_root_filesystem = none;
  privileged = some true;
  allow_privilege_escalation = some true;
  add_capabilities = txt "NET_ADMIN" ∷ txt "SYS_MODULE" ∷ [];
  drop_capabilities = [];
}

abbrev pub restricted_context : SecurityContext
restricted_context = record {
  run_as_user = some (pos 65534);
  run_as_non_root = some true;
  read_only_root_filesystem = some true;
  privileged = none;
  allow_privilege_escalation = some false;
  add_capabilities = [];
  drop_capabilities = txt "ALL" ∷ [];
}

abbrev pub restricted_pod_context : PodSecurityContext
restricted_pod_context = record {
  run_as_non_root = some true;
  seccomp_profile = some (txt "RuntimeDefault");
}

-- Where the spec has no context of its own.
abbrev pub default_contexts : Bool → Option SecurityContext × Option PodSecurityContext
default_contexts native =
    if native
    then (some native_context, none)
    else (some restricted_context, some restricted_pod_context)

abbrev pub contexts_or :
    Option SecurityContext × Option PodSecurityContext
    → Option SecurityContext
    → Option PodSecurityContext
    → Option SecurityContext × Option PodSecurityContext
contexts_or def none none = def
contexts_or def none (some p) = (none, some p)
contexts_or def (some c) p = (some c, p)

unfoldable pub build_security_contexts :
    NewtSpec → Option SecurityContext × Option PodSecurityContext
build_security_contexts spec =
    contexts_or (default_contexts spec.use_native_interface) spec.security_context
      spec.pod_security_context

abbrev resources_or : Option PassedOn → Resources
resources_or none = requests (txt "10m") (txt "32Mi")
resources_or (some r) = resources_given r

abbrev pub metrics_ports : Option NewtMetricsSpec → List ContainerPort
metrics_ports none = []
metrics_ports (some m) =
    record {
      name = txt "metrics";
      container_port = to_int32 (metrics_port m);
      protocol = txt "TCP";
    }
    ∷ []

unfoldable pub newt_container : NewtSpec → Text → NewtContainer
newt_container spec secret_name = record {
  name = newt_container_name;
  image =
      default_text (txt "ghcr.io/fosrl/newt") spec.image
      ++ b':' ∷ default_text (txt "latest") spec.tag;
  env = operator_env spec secret_name ++ spec.extra_env;
  security_context = (build_security_contexts spec).0;
  resources = resources_or spec.resources;
  volume_mounts = spec.extra_volume_mounts;
  ports = metrics_ports spec.metrics;
}
