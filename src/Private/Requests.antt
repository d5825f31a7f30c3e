-- ===== src/Private/Requests.antt =====
-- The requests of createSiteResource and updateSiteResource of
-- internal/controller/privateresource/controller.go.
use pangolin_operator.Base.{◌≡◌, refl, inl, inr, Bool-cases}
use pangolin_operator.Base.Exec.{Result, ok, err, Result-cases}
use pangolin_operator.Base.Int.{ℤ}
use pangolin_operator.Pangolin.Requests.{CreateSiteResourceRequest, UpdateSiteResourceRequest}
use pangolin_operator.Private.Env.{Env, State}
use pangolin_operator.Private.Resource.{is_http, http_fields_for, create_request, update_request}
use pangolin_operator.Types.Private.{PrivateResourceSpec}

-- The update that sets what a creation sets.
abbrev pub as_update : CreateSiteResourceRequest → UpdateSiteResourceRequest
as_update req = record {
  user_ids = req.user_ids;
  role_ids = req.role_ids;
  client_ids = req.client_ids;
  site_id = req.site_id;
  name = req.name;
  mode = req.mode;
  destination = req.destination;
  tcp_port_range_string = req.tcp_port_range_string;
  udp_port_range_string = req.udp_port_range_string;
  disable_icmp = req.disable_icmp;
  alias = req.alias;
  ssl = req.ssl;
  scheme = req.scheme;
  domain_id = req.domain_id;
  subdomain = req.subdomain;
  destination_port = req.destination_port;
}

abbrev pub as_update_result : Result CreateSiteResourceRequest → Result UpdateSiteResourceRequest
as_update_result (ok req) = ok (as_update req)
as_update_result (err e) = err e

-- From one state, the request of updateSiteResource is the request of createSiteResource field by
-- field, in both modes; both fail with the same error, and make the same calls on the way.
pub update_request-create_request :
    (env : Env) (spec : PrivateResourceSpec) (site_id : ℤ) (s : State)
    → update_request env spec site_id s ≡ (
      as_update_result (create_request env spec site_id s).0,
      (create_request env spec site_id s).1,
    )
unfolding update_request create_request
update_request-create_request env spec site_id s = elim (Bool-cases (is_http spec)) [
  | inl http ↦ rw http (elim (Result-cases (http_fields_for env spec s).0) [
    | inl (fields, good) ↦ rw good refl
    | inr (e, bad) ↦ rw bad refl
  ])
  | inr ports ↦ rw ports refl
]
