-- ===== src/Private/Tests.antt =====
-- Tests of the PrivateResource reconciler on concrete servers.
use pangolin_operator.Base.{none, some, List, [], ◌∷◌, ◌≡◌, refl, true, false}
use pangolin_operator.Base.Errors.{plain}
use pangolin_operator.Base.Exec.{ok, err}
use pangolin_operator.Base.Int.{pos}
use pangolin_operator.Base.Text.{Text, txt, text_eq}
use pangolin_operator.Pangolin.Api.{Api, delete_site_resource}
use pangolin_operator.Pangolin.Requests.{SiteResourceItem}
use pangolin_operator.Private.Cleanup.{IsGone, cleanup_done}
use pangolin_operator.Private.Env.{Call, Env, State, api, update_object, find_site, patch_status}
use pangolin_operator.Private.Reconcile.{
  cleanup, with_finalizers, reconcile, after_site, after_ensure, update_if_needed, report_ready,
}
use pangolin_operator.Private.Ready.{IsSynced, reconcile-IsSynced}
use pangolin_operator.Private.Requests.{as_update_result, update_request-create_request}
use pangolin_operator.Private.Resource.{
  create_request, update_request, ensure_exists, still_listed, update,
}
use pangolin_operator.Site.Tests.Data.{home}
use pangolin_operator.Types.Meta.{ready}
use pangolin_operator.Types.Private.{PrivateResource}

abbrev grafana : PrivateResource
grafana = record {
  metadata = record {
    name = txt "grafana";
    namespace = txt "default";
    uid = txt "u-2";
    generation = pos 1;
    deletion_timestamp = none;
    finalizers = [];
    labels = none;
    annotations = [];
    owner_references = [];
  };
  spec = record {
    site_ref = txt "home";
    name = txt "grafana";
    mode = txt "http";
    destination = txt "grafana.default.svc";
    tcp_ports = [];
    udp_ports = [];
    full_domain = txt "grafana.example.com";
    destination_port = pos 3000;
    scheme = txt "http";
    ssl = some true;
    disable_icmp = false;
    alias = [];
    role_ids = [];
    user_ids = [];
    client_ids = [];
  };
  status = record {
    phase = ready;
    site_resource_id = pos 4;
    nice_id = txt "g-4";
    full_domain = txt "grafana.example.com";
    observed_generation = pos 1;
    conditions = [];
  };
}

abbrev item : Text → SiteResourceItem
item full_domain = record {
  site_resource_id = pos 4;
  site_id = pos 9;
  nice_id = txt "g-4";
  name = txt "grafana";
  mode = txt "http";
  destination = txt "old.default.svc";
  enabled = true;
  full_domain = full_domain;
  domain_id = txt "d1";
  subdomain = txt "grafana";
}

abbrev accepting : Api (List Call)
accepting = record {
  pick_site_defaults = λ _. err (plain (txt "unused"));
  create_site = λ _ _. err (plain (txt "unused"));
  get_site = λ _ _. err (plain (txt "unused"));
  list_sites = λ _ _. ok [];
  update_site = λ _ _ _. ok tt;
  delete_site = λ _ _. ok tt;
  list_domains = λ _. ok (record { domain_id = txt "d1"; base_domain = txt "example.com" } ∷ []);
  create_resource = λ _ _. err (plain (txt "unused"));
  list_resources = λ _ _. ok [];
  update_resource = λ _ _ _. ok tt;
  delete_resource = λ _ _. ok tt;
  create_target = λ _ _ _. err (plain (txt "unused"));
  delete_target = λ _ _. ok tt;
  create_rule = λ _ _ _. err (plain (txt "unused"));
  delete_rule = λ _ _ _. ok tt;
  create_site_resource = λ _ _. err (plain (txt "unused"));
  list_site_resources = λ _ _. ok [];
  update_site_resource = λ _ _ _. ok tt;
  delete_site_resource = λ _ _. ok tt;
}

abbrev env : Env
env = record {
  pangolin = accepting;
  lib = record {
    set_status_condition = λ cs c. c ∷ cs;
    contains_finalizer = λ _ _. true;
    add_finalizer = λ fs f. f ∷ fs;
    remove_finalizer = λ _ _. [];
  };
  get = λ _. ok grafana;
  update = λ _ sent. ok sent;
  patch = λ _ _ sent. ok sent;
  sites_named = λ _ _. ok [];
}

abbrev start : State
start = record { res = grafana; log = [] }

cleanup_done_example :
    IsGone env start
    × ((cleanup env start).1.log
        ≡ update_object (with_finalizers start []).res ∷ api (delete_site_resource (pos 4)) ∷ [])
unfolding cleanup
cleanup_done_example = cleanup_done env start (cleanup env start).1 refl

update_request-create_request_example : update_request env grafana.spec (pos 9) start ≡ (
  as_update_result (create_request env grafana.spec (pos 9) start).0,
  (create_request env grafana.spec (pos 9) start).1,
)
update_request-create_request_example = update_request-create_request env grafana.spec (pos 9) start

-- A generation that was not observed, of a resource that Pangolin lists.
abbrev changed : PrivateResource
changed = record grafana {
  spec = record grafana.spec { mode = txt "host" };
  status = record grafana.status { observed_generation = pos 0 };
}

abbrev listing : Env
listing = record env {
  pangolin = record accepting { list_site_resources = λ _ _. ok (item [] ∷ []) };
  get = λ _. ok changed;
  sites_named = λ _ _. ok (home ∷ []);
}

abbrev changed_start : State
changed_start = record { res = changed; log = [] }

reconcile-IsSynced_example : IsSynced listing changed_start (reconcile listing changed_start).1
unfolding reconcile after_site find_site after_ensure ensure_exists still_listed update_if_needed
    update update_request report_ready patch_status text_eq
reconcile-IsSynced_example =
    reconcile-IsSynced listing changed_start (reconcile listing changed_start).1 refl
