-- ===== src/Site/Scan/Steady.antt =====
-- scanHTTPRoutes of internal/controller/newtsite/controller.go where nothing has changed.
use mathlib.Core.Path.{◌∙◌}
use pangolin_operator.Base.{List, [], ◌∷◌, ◌≡◌, refl, true, false, All, onto}
use pangolin_operator.Base.Exec.{ok}
use pangolin_operator.Discover.Ensure.{get_object, needs_patch, ensure_owned_public_resource}
use pangolin_operator.Discover.Objects.{Route}
use pangolin_operator.Site.Env.{Cluster, Call, list_http_routes, ensure, server, ensure_resource}
use pangolin_operator.Site.Scan.{scan_http_routes}
use pangolin_operator.Site.Scan.Plan.{Wanted, http_route_plan, ensure_wanted}
use pangolin_operator.Site.Scan.Refinement.{scan_http_routes-Plan}
use pangolin_operator.Site.Scan.Runs.{flat_map, seen, all_run}
use pangolin_operator.Types.Public.{PublicResource}
use pangolin_operator.Types.Site.{NewtSite, AutoDiscoverSpec}
use pangolin_operator.Base.Text.{Text}

-- At any time the server answers with an object that needs no patch.
abbrev pub IsUpToDate : Cluster → Wanted → Type 0
IsUpToDate cluster w =
    (log : List Call)
    → (r : PublicResource) × (cluster.get_public log w.namespace w.name ≡ ok r)
      × (needs_patch cluster.json (server cluster log) w.owner w.namespace w.name w.spec r ≡ false)

abbrev pub read_of : Wanted → Call
read_of w = ensure (get_object w.namespace w.name)

module _ (cluster : Cluster) where
  ensure_wanted-IsUpToDate :
      (w : Wanted) (log : List Call)
      → IsUpToDate cluster w
      → ensure_resource cluster w.owner w.namespace w.name w.spec log ≡ (ok tt, read_of w ∷ log)
  unfolding ensure_resource ensure_owned_public_resource
  ensure_wanted-IsUpToDate w log h = let (r, found, steady) = h log in rw (found, steady) refl

  all_run-IsUpToDate :
      (ws : List Wanted) (log : List Call)
      → All (IsUpToDate cluster) ws
      → all_run (ensure_wanted cluster) ws log ≡ (true, onto read_of ws log)
  all_run-IsUpToDate [] log _ = refl
  all_run-IsUpToDate (w ∷ ws) log (h, hs) =
      rw (ensure_wanted-IsUpToDate w log h) (all_run-IsUpToDate ws (read_of w ∷ log) hs)

-- Where each PublicResource of the plan is there at any time and needs no patch, scanHTTPRoutes
-- succeeds, and after the list of the routes it only reads each of them, in the plan's order.
pub scan_http_routes_steady :
    (cluster : Cluster) (site : NewtSite) (cfg : AutoDiscoverSpec) (prefix : Text)
    (routes : List Route) (log : List Call)
    → cluster.http_routes log ≡ ok routes
    → All (IsUpToDate cluster) (flat_map (http_route_plan cluster.json site cfg prefix) routes)
    → seen (scan_http_routes cluster site cfg prefix log) ≡ (
      true,
      onto read_of
          (flat_map (http_route_plan cluster.json site cfg prefix) routes)
          (list_http_routes ∷ log),
    )
scan_http_routes_steady cluster site cfg prefix routes log listed h =
    scan_http_routes-Plan cluster site cfg prefix routes log listed
    ∙ all_run-IsUpToDate cluster (flat_map (http_route_plan cluster.json site cfg prefix) routes)
        (list_http_routes ∷ log) h
