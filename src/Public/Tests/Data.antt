-- ===== src/Public/Tests/Data.antt =====
-- Objects and servers for the tests of the PublicResource reconciler.
use pangolin_operator.Base.{none, some, List, [], ◌∷◌, true, false, if◌then◌else◌}
use pangolin_operator.Base.Errors.{plain, bad_request}
use pangolin_operator.Base.Exec.{ok, err}
use pangolin_operator.Base.Int.{ℤ, pos, ◌==ℤ◌}
use pangolin_operator.Base.Text.{Text, txt}
use pangolin_operator.Pangolin.Api.{Api}
use pangolin_operator.Pangolin.Requests.{Domain, ResourceItem, CreateResourceResponse}
use pangolin_operator.Types.Meta.{ObjectMeta, ready, unset}
use pangolin_operator.Types.Public.{PublicRuleSpec, PublicTargetSpec, PublicResource}
use pangolin_operator.Types.Site.{NewtSite, NewtSpec}
use pangolin_operator.Public.Env.{Call, Env, State}

abbrev pub plain_newt : NewtSpec
plain_newt = record {
  image = [];
  tag = [];
  replicas = none;
  log_level = [];
  mtu = pos 1280;
  ping_interval = [];
  ping_timeout = [];
  interface_name = txt "newt";
  dns = [];
  accept_clients = false;
  resources = none;
  use_native_interface = false;
  host_network = false;
  host_pid = false;
  pod_annotations = [];
  node_selector = [];
  tolerations = [];
  affinity = none;
  topology_spread_constraints = [];
  pod_security_context = none;
  security_context = none;
  extra_env = [];
  extra_volumes = [];
  extra_volume_mounts = [];
  init_containers = [];
  extra_containers = [];
  metrics = none;
}

abbrev pub meta : Text → ObjectMeta
meta name = record {
  name = name;
  namespace = txt "default";
  uid = txt "u-1";
  generation = pos 2;
  deletion_timestamp = none;
  finalizers = txt "pangolin.home-operations.com/publicresource-finalizer" ∷ [];
  labels = none;
  annotations = [];
  owner_references = [];
}

abbrev pub target : Text → ℤ → PublicTargetSpec
target host port = record {
  hostname = host;
  port = port;
  method = txt "http";
  enabled = none;
  path = [];
  path_match_type = [];
  rewrite_path = [];
  rewrite_path_type = [];
  priority = pos 0;
  healthcheck = none;
}

abbrev pub two_targets : List PublicTargetSpec
two_targets = target (txt "a.internal") (pos 80) ∷ target (txt "b.internal") (pos 81) ∷ []

abbrev pub one_rule : PublicRuleSpec
one_rule = record {
  action = txt "DROP";
  match_kind = txt "country";
  value = txt "XX";
  priority = pos 100;
}

abbrev pub web : PublicResource
web = record {
  metadata = meta (txt "web");
  spec = record {
    site_ref = txt "home";
    name = txt "web";
    protocol = txt "http";
    full_domain = txt "web.example.com";
    proxy_port = pos 0;
    enabled = true;
    ssl = true;
    host_header = [];
    tls_server_name = [];
    headers = [];
    auth = none;
    maintenance = none;
    rules = one_rule ∷ [];
    targets = two_targets;
  };
  status = record {
    phase = ready;
    resource_id = pos 5;
    nice_id = txt "web-5";
    full_domain = txt "web.example.com";
    target_ids = pos 1 ∷ pos 2 ∷ [];
    targets_hash = txt "old";
    rule_ids = pos 3 ∷ [];
    rules_hash = txt "old";
    observed_generation = pos 2;
    conditions = [];
  };
}

-- An object that has no resource in Pangolin yet.
abbrev pub new_web : PublicResource
new_web = record web {
  status = record web.status { resource_id = pos 0; phase = unset; target_ids = []; rule_ids = [] };
}

abbrev pub item : ℤ → Text → ResourceItem
item id name = record {
  resource_id = id;
  nice_id = txt "nice";
  name = name;
  full_domain = txt "web.example.com";
  subdomain = txt "web";
  domain_id = txt "d1";
  enabled = true;
}

abbrev pub items : List ResourceItem
items = item (pos 4) (txt "other") ∷ item (pos 5) (txt "web") ∷ []

abbrev pub example_com : Domain
example_com = record { domain_id = txt "d1"; base_domain = txt "example.com" }

abbrev pub home : NewtSite
home = record {
  metadata = meta (txt "home");
  spec = record {
    name = txt "home";
    site_type = txt "newt";
    newt = plain_newt;
    managed_deployment = none;
    auto_discover = none;
  };
  status = record {
    phase = ready;
    site_id = pos 9;
    nice_id = txt "home-9";
    newt_secret_name = txt "home-newt";
    online = true;
    observed_generation = pos 2;
    conditions = [];
  };
}

-- A site that has not been created in Pangolin.
abbrev pub unready_home : NewtSite
unready_home = record home { status = record home.status { site_id = pos 0 } }

abbrev pub created : CreateResourceResponse
created = record { resource_id = pos 5; nice_id = txt "web-5"; full_domain = txt "web.example.com" }

-- A Pangolin server that lists `items` and accepts everything else.
abbrev pub accepting : Api (List Call)
accepting = record {
  pick_site_defaults = λ _. err (plain (txt "unused"));
  create_site = λ _ _. err (plain (txt "unused"));
  get_site = λ _ _. err (plain (txt "unused"));
  list_sites = λ _ _. ok [];
  update_site = λ _ _ _. ok tt;
  delete_site = λ _ _. ok tt;
  list_domains = λ _. ok (example_com ∷ []);
  create_resource = λ _ _. ok created;
  list_resources = λ _ _. ok items;
  update_resource = λ _ _ _. ok tt;
  delete_resource = λ _ _. ok tt;
  create_target = λ _ _ _. ok (record { target_id = pos 7 });
  delete_target = λ _ _. ok tt;
  create_rule = λ _ _ _. ok (record { rule_id = pos 8 });
  delete_rule = λ _ _ _. ok tt;
  create_site_resource = λ _ _. err (plain (txt "unused"));
  list_site_resources = λ _ _. ok [];
  update_site_resource = λ _ _ _. ok tt;
  delete_site_resource = λ _ _. ok tt;
}

-- A Kubernetes server that stores what it is sent.
abbrev pub env : Env
env = record {
  pangolin = accepting;
  lib = record {
    set_status_condition = λ cs c. c ∷ cs;
    contains_finalizer = λ _ _. true;
    add_finalizer = λ fs f. f ∷ fs;
    remove_finalizer = λ _ _. [];
  };
  get = λ _. ok web;
  update = λ _ sent. ok sent;
  patch = λ _ _ sent. ok sent;
  sites_named = λ _ _. ok (home ∷ []);
  hash_targets = λ _. txt "new";
  hash_rules = λ _. txt "new";
}

-- Pangolin refuses every second target, and every deletion.
abbrev pub strict : Env
strict = record env {
  pangolin = record accepting {
    create_target = λ _ _ t.
        if t.port ==ℤ pos 81
        then err (plain (txt "no such port"))
        else ok (record { target_id = pos 7 });
    delete_resource = λ _ _. err (plain (txt "busy"));
    list_resources = λ _ _. err (bad_request (txt "bad query"));
  };
}

-- The Kubernetes server refuses every patch.
abbrev pub read_only : Env
read_only = record env { patch = λ _ _ _. err (plain (txt "conflict")) }

-- No site, and no resource in Pangolin.
abbrev pub no_sites : Env
no_sites = record env { sites_named = λ _ _. ok (unready_home ∷ []) }

abbrev pub start : State
start = record { res = web; log = [] }

abbrev pub new_start : State
new_start = record { res = new_web; log = [] }

abbrev pub deleted : State
deleted = record start {
  res = record web {
    metadata = record web.metadata { deletion_timestamp = some (txt "2026-01-01T00:00:00Z") };
  };
}
