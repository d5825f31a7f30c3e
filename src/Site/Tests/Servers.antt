-- ===== src/Site/Tests/Servers.antt =====
-- Servers for the tests of the NewtSite controller.
use pangolin_operator.Base.{none, List, [], ◌∷◌, true, if◌then◌else◌}
use pangolin_operator.Base.Errors.{plain, not_found, kube_not_found}
use pangolin_operator.Base.Exec.{ok, err}
use pangolin_operator.Base.Int.{pos}
use pangolin_operator.Base.Text.{txt, text_eq}
use pangolin_operator.Discover.Objects.{Json}
use pangolin_operator.Pangolin.Api.{Api}
use pangolin_operator.Pangolin.Requests.{PickSiteDefaultsResponse, CreateSiteResponse}
use pangolin_operator.Site.Env.{Call, Cluster, Env, State}
use pangolin_operator.Site.Tests.Data.{home, route, web, other_web, owned_web}

abbrev pub json : Json
json = record {
  decode_headers = λ _. none;
  decode_rules = λ _. none;
  encode_spec = λ spec. spec.name;
}

-- One route, and no PublicResource yet; the one that is deleted second is gone already.
abbrev pub cluster : Cluster
cluster = record {
  json = json;
  sites = λ _. ok (home ∷ []);
  http_routes = λ _. ok (route ∷ []);
  tcp_routes = λ _. ok [];
  services = λ _. ok [];
  http_route = λ _ _ name. err (kube_not_found name);
  tcp_route = λ _ _ name. err (kube_not_found name);
  service = λ _ _ name. err (kube_not_found name);
  owned = λ _ _ _. ok (web ∷ other_web ∷ []);
  delete = λ _ r.
      if text_eq r.metadata.namespace (txt "other")
      then err (kube_not_found (txt "web"))
      else ok tt;
  get_public = λ _ _ name. err (kube_not_found name);
  create_public = λ _ sent. ok sent;
  patch_public = λ _ _ sent. ok sent;
  map_order = λ _ specs. specs;
}

abbrev pub defaults : PickSiteDefaultsResponse
defaults = record {
  newt_id = txt "n-1";
  newt_secret = txt "s-1";
  client_address = txt "100.90.128.0/24";
}

abbrev pub created : CreateSiteResponse
created = record { site_id = pos 9; nice_id = txt "home-9" }

abbrev pub accepting : Api (List Call)
accepting = record {
  pick_site_defaults = λ _. ok defaults;
  create_site = λ _ _. ok created;
  get_site = λ _ id. ok (record {
    site_id = id;
    nice_id = txt "home-9";
    name = txt "home";
    site_type = txt "newt";
    online = true;
    address = [];
  });
  list_sites = λ _ _. ok [];
  update_site = λ _ _ _. ok tt;
  delete_site = λ _ _. ok tt;
  list_domains = λ _. ok [];
  create_resource = λ _ _. err (plain (txt "unused"));
  list_resources = λ _ _. ok [];
  update_resource = λ _ _ _. ok tt;
  delete_resource = λ _ _. ok tt;
  create_target = λ _ _ _. err (plain (txt "unused"));
  delete_target = λ _ _. ok tt;
  create_rule = λ _ _ _. err (plain (txt "unused"));
  delete_rule = λ _ _ _. ok tt;
  create_site_resource = λ _ _. err (plain (txt "unused"));
  list_site_resources = λ _ _. ok [];
  update_site_resource = λ _ _ _. ok tt;
  delete_site_resource = λ _ _. ok tt;
}

abbrev pub env : Env
env = record {
  pangolin = accepting;
  lib = record {
    set_status_condition = λ cs c. c ∷ cs;
    contains_finalizer = λ _ _. true;
    add_finalizer = λ fs f. f ∷ fs;
    remove_finalizer = λ _ _. [];
  };
  cluster = cluster;
  newt_endpoint = txt "https://pangolin.example.com";
  operator_namespace = txt "pangolin";
  set_controller_reference = λ _ m. ok m;
  get = λ _. ok home;
  update = λ _ sent. ok sent;
  patch = λ _ _ sent. ok sent;
  secret = λ _ _ _. ok tt;
  service_account = λ _ _. ok tt;
  deployment = λ _ _ _. ok tt;
  ready_replicas = λ _ _ _. ok (pos 1);
}

-- The Kubernetes server stores no secrets.
abbrev pub no_secrets : Env
no_secrets = record env { secret = λ _ _ _. err (plain (txt "forbidden")) }

-- Pangolin knows no site.
abbrev pub lost : Env
lost = record env {
  pangolin = record accepting { get_site = λ _ _. err (not_found (txt "no such site")) };
}

abbrev pub start : State
start = record { site = home; log = [] }

-- Every resource is there, and all specs have one encoding.
abbrev pub steady_cluster : Cluster
steady_cluster = record cluster {
  json = record json { encode_spec = λ _. [] };
  get_public = λ _ _ _. ok owned_web;
}

-- A cluster without routes.
abbrev pub quiet : Env
quiet = record env { cluster = record cluster { http_routes = λ _. ok [] } }
