-- ===== src/Site/Tests/Data.antt =====
-- Objects for the tests of the NewtSite controller.
use pangolin_operator.Base.{none, some, [], ◌∷◌, true, false}
use pangolin_operator.Base.Int.{pos}
use pangolin_operator.Base.Text.{Text, txt}
use pangolin_operator.Discover.Objects.{Route}
use pangolin_operator.Types.Meta.{ObjectMeta, ready}
use pangolin_operator.Types.Public.{PublicResource}
use pangolin_operator.Types.Site.{AutoDiscoverSpec, NewtSpec, NewtSite}

abbrev pub meta : Text → ObjectMeta
meta name = record {
  name = name;
  namespace = txt "default";
  uid = txt "u-3";
  generation = pos 2;
  deletion_timestamp = none;
  finalizers = [];
  labels = none;
  annotations = [];
  owner_references = [];
}

abbrev pub plain_newt : NewtSpec
plain_newt = record {
  image = [];
  tag = [];
  replicas = none;
  log_level = [];
  mtu = pos 1280;
  ping_interval = txt "60s";
  ping_timeout = [];
  interface_name = txt "newt";
  dns = [];
  accept_clients = true;
  resources = none;
  use_native_interface = true;
  host_network = true;
  host_pid = false;
  pod_annotations = [];
  node_selector = [];
  tolerations = [];
  affinity = none;
  topology_spread_constraints = [];
  pod_security_context = none;
  security_context = none;
  extra_env = [];
  extra_volumes = [];
  extra_volume_mounts = [];
  init_containers = [];
  extra_containers = [];
  metrics = none;
}

abbrev pub cfg : AutoDiscoverSpec
cfg = record {
  annotation_prefix = [];
  gateway_name = txt "gw";
  gateway_namespace = txt "net";
  gateway_target_hostname = [];
  gateway_target_port = pos 0;
  gateway_target_method = [];
  enable_route_discovery = true;
  enable_service_discovery = false;
  enable_tcp_route_discovery = false;
  all_ports = false;
  ssl = true;
  deny_countries = [];
  auth_sso_roles = [];
  auth_sso_users = [];
  auth_sso_idp = pos 0;
  auth_whitelist_users = [];
}

abbrev pub home : NewtSite
home = record {
  metadata = meta (txt "home");
  spec = record {
    name = txt "home";
    site_type = txt "newt";
    newt = plain_newt;
    managed_deployment = none;
    auto_discover = some cfg;
  };
  status = record {
    phase = ready;
    site_id = pos 9;
    nice_id = txt "home-9";
    newt_secret_name = txt "home-newt-credentials";
    online = true;
    observed_generation = pos 2;
    conditions = [];
  };
}

-- A site that runs beside the Pangolin server.
abbrev pub local_home : NewtSite
local_home = record home { spec = record home.spec { site_type = txt "local" } }

abbrev pub route : Route
route = record {
  name = txt "web";
  namespace = txt "default";
  annotations = (txt "pangolin-operator/site-ref", txt "home") ∷ [];
  parent_refs = record { name = txt "gw"; namespace = none } ∷ [];
  hostnames = txt "web.example.com" ∷ [];
  rules = [];
}

abbrev pub web : PublicResource
web = record {
  metadata = meta (txt "web-web-example-com");
  spec = record {
    site_ref = txt "home";
    name = txt "web";
    protocol = txt "http";
    full_domain = txt "web.example.com";
    proxy_port = pos 0;
    enabled = true;
    ssl = true;
    host_header = [];
    tls_server_name = [];
    headers = [];
    auth = none;
    maintenance = none;
    rules = [];
    targets = [];
  };
  status = record {
    phase = ready;
    resource_id = pos 5;
    nice_id = txt "web-5";
    full_domain = txt "web.example.com";
    target_ids = [];
    targets_hash = [];
    rule_ids = [];
    rules_hash = [];
    observed_generation = pos 2;
    conditions = [];
  };
}

-- A resource of another namespace with the same labels.
abbrev pub other_web : PublicResource
other_web = record web { metadata = record web.metadata { namespace = txt "other" } }

-- The resource of `route`, with the labels that its owner gives it.
abbrev pub owned_web : PublicResource
owned_web = record web {
  metadata = record web.metadata {
    labels = some (
        (txt "pangolin.home-operations.com/owner-kind", txt "httproute")
        ∷ (txt "pangolin.home-operations.com/owner-name", txt "web")
        ∷ (txt "pangolin.home-operations.com/site", txt "home")
        ∷ []);
  };
}
