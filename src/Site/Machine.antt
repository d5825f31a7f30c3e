-- ===== src/Site/Machine.antt =====
-- The status of a NewtSite as a state machine: the changes that
-- internal/controller/newtsite/controller.go makes to it, and the statuses that they lead to.
use pangolin_operator.Base.{List, [], ◌≡◌, Bool}
use pangolin_operator.Pangolin.Requests.{SiteItem, CreateSiteResponse}
use pangolin_operator.Site.Create.{adopted, with_ids, secret_name_of}
use pangolin_operator.Site.Reconcile.{forgotten}
use pangolin_operator.Types.Meta.{Condition, creating, ready, error}
use pangolin_operator.Types.Site.{NewtSite, NewtSiteStatus}

-- From the status of an object to the status that is sent for it.
pub data Step (site : NewtSite) : NewtSiteStatus → Type 0 where
  begun : Step site (record site.status { phase = creating })
  adopts : (item : SiteItem) → Step site (adopted item site.status)
  created_local : (c : CreateSiteResponse) → Step site (with_ids c site.status)
  created_newt :
      (c : CreateSiteResponse)
      → Step site (record (with_ids c site.status) { newt_secret_name = secret_name_of site })
  forgot : Step site (forgotten site.status)
  refused :
      (cs : List Condition) → Step site (record site.status { conditions = cs; phase = error })
  failed : (cs : List Condition) → Step site (record site.status { conditions = cs })
  reported :
      (cs : List Condition) (online : Bool)
      → Step site (record site.status {
        conditions = cs;
        phase = ready;
        observed_generation = site.metadata.generation;
        online = online;
      })

-- An object that was created without a status, or whose status came from that of a reachable one of
-- the same name by a step. The spec and the rest of the metadata may have changed in between.
pub data Reachable : NewtSite → Type 0 where
  fresh : (site : NewtSite) → site.status.newt_secret_name ≡ [] → Reachable site
  stepped :
      (before after : NewtSite)
      → Reachable before
      → after.metadata.name ≡ before.metadata.name
      → Step before after.status
      → Reachable after
