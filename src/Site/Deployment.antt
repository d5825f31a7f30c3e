-- ===== src/Site/Deployment.antt =====
-- buildDeployment of internal/controller/newtsite/deployment.go. Maps are association lists, in the
-- source's order.
use pangolin_operator.Base.{Option, none, some, List, [], ◌∷◌, ◌++◌, map, false, ◌&&◌}
use pangolin_operator.Base.Int.{ℤ, pos}
use pangolin_operator.Base.Text.{Text, txt}
use pangolin_operator.Types.Meta.{ObjectMeta}
use pangolin_operator.Types.Pod.{newt, container_given, PodSpec, Deployment}
use pangolin_operator.Types.Site.{NewtSpec, NewtSite}
use pangolin_operator.Site.Container.{
  newt_container, build_security_contexts, newt_container_name, part_of_pangolin_op,
}

-- An object's metadata as a Go literal sets it, all else zero.
abbrev pub named_meta : Text → Text → Option (List (Text × Text)) → ObjectMeta
named_meta name namespace labels = record {
  name = name;
  namespace = namespace;
  uid = [];
  generation = pos 0;
  deletion_timestamp = none;
  finalizers = [];
  labels = labels;
  annotations = [];
  owner_references = [];
}

abbrev newt_labels : Text → List (Text × Text)
newt_labels name =
    (txt "app.kubernetes.io/name", txt "newtsite")
    ∷ (txt "app.kubernetes.io/instance", name)
    ∷ (txt "app.kubernetes.io/component", newt_container_name)
    ∷ (txt "app.kubernetes.io/part-of", part_of_pangolin_op)
    ∷ []

abbrev copied : List (Text × Text) → Option (List (Text × Text))
copied [] = none
copied (a ∷ rest) = some (a ∷ rest)

abbrev replicas_or : Option ℤ → ℤ
replicas_or none = pos 1
replicas_or (some n) = n

unfoldable pub pod_spec : Text → NewtSpec → Text → PodSpec
pod_spec name spec secret_name = record {
  service_account_name = name ++ txt "-newtsite";
  automount_service_account_token = some false;
  termination_grace_period_seconds = some (pos 30);
  security_context = (build_security_contexts spec).1;
  host_network = spec.use_native_interface && spec.host_network;
  host_pid = spec.use_native_interface && spec.host_pid;
  init_containers = spec.init_containers;
  containers = newt (newt_container spec secret_name) ∷ map container_given spec.extra_containers;
  volumes = spec.extra_volumes;
  node_selector = spec.node_selector;
  tolerations = spec.tolerations;
  affinity = spec.affinity;
  topology_spread_constraints = spec.topology_spread_constraints;
}

unfoldable pub build_deployment : NewtSite → Text → Text → Deployment
build_deployment site secret_name namespace =
    let labels = newt_labels site.metadata.name in
    record {
      metadata = named_meta site.metadata.name namespace (some labels);
      spec = record {
        replicas = some (replicas_or site.spec.newt.replicas);
        match_labels = labels;
        pod_labels = labels;
        pod_annotations = copied site.spec.newt.pod_annotations;
        pod = pod_spec site.metadata.name site.spec.newt secret_name;
      };
    }
