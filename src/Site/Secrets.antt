-- ===== src/Site/Secrets.antt =====
-- The name of the credentials secret in internal/controller/newtsite/controller.go.
use pangolin_operator.Base.{[], ◌++◌, ◌≡◌, ◌⊎◌, inl, inr, refl, if◌then◌else◌, ◌∷◌}
use pangolin_operator.Base.Text.{Text, txt, is_empty}
use pangolin_operator.Site.Create.{secret_name_of}
use pangolin_operator.Site.Machine.{
  Step, begun, adopts, created_local, created_newt, forgot, refused, failed, reported, Reachable,
  fresh, stepped,
}
use pangolin_operator.Site.Run.{secret_name_or}
use pangolin_operator.Types.Site.{NewtSite, NewtSiteStatus}

-- The status names no secret, or the one secret of this object.
abbrev Named : Text → NewtSiteStatus → Type 0
Named name st = (st.newt_secret_name ≡ []) ⊎ (st.newt_secret_name ≡ name ++ txt "-newt-credentials")

Step-Named :
    (site : NewtSite) (st : NewtSiteStatus)
    → Step site st
    → Named site.metadata.name site.status
    → Named site.metadata.name st
Step-Named site _ begun h = h
Step-Named site _ (adopts item) h = h
Step-Named site _ (created_local c) h = h
Step-Named site _ (created_newt c) h = inr refl
Step-Named site _ forgot h = inl refl
Step-Named site _ (refused cs) h = h
Step-Named site _ (failed cs) h = h
Step-Named site _ (reported cs online) h = h

Reachable-Named : (site : NewtSite) → Reachable site → Named site.metadata.name site.status
Reachable-Named site (fresh _ h) = inl h
Reachable-Named site (stepped before _ r same step) =
    rw same (Step-Named before site.status step (Reachable-Named before r))

-- For an object whose status came about by the controller's own changes, the secret that
-- ensureDeployment refers to is always the one that is called after the object, whatever secret the
-- status names, also where none was ever created.
pub secret_name_or-Reachable :
    (site : NewtSite) → Reachable site → secret_name_or site ≡ secret_name_of site
secret_name_or-Reachable site r = by_name site.status.newt_secret_name (Reachable-Named site r)
  where
    by_name :
        (t : Text)
        → ((t ≡ []) ⊎ (t ≡ secret_name_of site))
        → (if is_empty t then secret_name_of site else t) ≡ secret_name_of site
    by_name t (inl h) = rw h refl
    by_name [] (inr h) = refl
    by_name (c ∷ t) (inr h) = h
