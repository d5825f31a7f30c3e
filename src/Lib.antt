-- ===== src/Lib.antt =====
-- Verification library of the Pangolin operator, a Kubernetes operator in Go that keeps resources of
-- a Pangolin server (a tunnelling reverse proxy) in line with custom resources of a cluster.
--
-- The program's parts. A PublicResource names a NewtSite, a protocol, targets and rules; its
-- reconciler (internal/controller/publicresource) creates, adopts, updates and deletes the resource
-- in Pangolin that stands for it, through the client in internal/pangolin, and stores ids and hashes
-- in the object's status. A PrivateResource stands for a resource of a site that is reached through
-- the VPN; its reconciler (internal/controller/privateresource) works alike. A NewtSite stands for a
-- site of Pangolin and for the deployment of newt that connects it; its controller
-- (internal/controller/newtsite) creates both, and where the site discovers routes makes
-- PublicResources from annotated HTTPRoutes, TCPRoutes and Services with the package
-- internal/autodiscover, on every reconcile of the site and on every event of such an object. The
-- package internal/metrics counts the requests of the client and the objects by phase.
--
-- The files.
--   Base      numbers and their Boolean tests, lists, Go's signed integers (Base.Int), Go strings as
--             lists of bytes with the functions of strings and strconv (Base.Text), error values and
--             the tests on them (Base.Errors), and methods that change state and may fail, with the
--             outcome of a reconciler (Base.Exec).
--   Types     api/v1alpha1: the specs and statuses, object metadata and conditions.
--   Pangolin  internal/pangolin/client.go: Requests has its structs, Api the interface API, Domain
--             ResolveDomainID and ResolveDomain, Client the method `do` (do_request) and the loops of
--             ListSites, ListResources and ListSiteResources, Client.Methods NewClient and the
--             methods that send one request.
--   Public    internal/controller/publicresource/controller.go: Requests has findResource and the
--             requests it builds, Batch createTargets and createRules, Create ensureExists and
--             createResource, Update updateResource, Reconcile the methods Reconcile, reconcile and
--             cleanup. The other files hold what is proved of them.
--   Private   internal/controller/privateresource/controller.go: Resource has findSiteResource,
--             httpFieldsFor, ensureExists, createSiteResource and updateSiteResource, Reconcile the
--             methods Reconcile, reconcile and cleanup.
--   Discover  internal/autodiscover/autodiscover.go: Annotations, Rules, Auth, Targets, Names, Specs
--             and Services build specs, Ensure is ensureOwnedPublicResource.
--   Site      internal/controller/newtsite: Container and Deployment are deployment.go; of
--             controller.go Create has findOrCreate, createSite and updateSite, Reconcile the methods
--             Reconcile and cleanup and the first half of reconcile, Run its second half with
--             ensureServiceAccount and ensureDeployment, Scan reconcileAutodiscover and the three
--             scans, Discovery processHTTPRoute and its like and deleteOwnedResources, Resolve
--             resolveSite and the handlers of routes and Services. Scan.Plan is an abstract scan,
--             Branches an induction principle for reconcile, Machine the status of a NewtSite as a
--             state machine, Follows the logs that its steps allow.
--   Metrics   internal/metrics: Classify is ClassifyEndpoint, Collector the collector of phases.
--
-- State and calls. A reconciler's state is the object in memory and the list of all calls so far, to
-- the Kubernetes server and to Pangolin, the latest first. The servers are parameters: each answer
-- is any function of that list and of the call, so that failures, concurrent writers and changing
-- data are all included, and nothing is assumed of them but where a theorem says so. A Go method is
-- a function from a state to a result and a state, as what it changed before an error stays changed.
-- SHA-256 with JSON (hashJSON), encoding/json, net/http, net/url, apimeta and controllerutil
-- (CreateOrUpdate and SetControllerReference too) are parameters, and so is the order in which Go
-- ranges over a map. The calls of ensureOwnedPublicResource become calls of the NewtSite controller's
-- log (Site.Env.ensure_resource). Logging, the recording of metrics, contexts and time-outs are left
-- out; the goroutines of a batch run in the order of the list.
--
-- Bounds. A Go int is an integer without a bound: the program adds and multiplies only a loop
-- counter, strconv.Atoi is limited to 64 bits, and the metrics port wraps around at 32. The page
-- loops of the client have no bound in the source; they run on fuel, one unit for each page, and a
-- list of n elements needs more than n/100 units. All other loops follow their lists.
--
-- Not modelled: cmd/main.go (flags and the set-up of the manager), the registration of controllers
-- and metrics, the generated deep copies, and the helpers of the Go tests.
pub mod Base
pub mod Types
pub mod Pangolin
pub mod Public
pub mod Private
pub mod Discover
pub mod Site
pub mod Metrics
