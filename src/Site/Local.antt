-- ===== src/Site/Local.antt =====
-- The second half of reconcile of internal/controller/newtsite/controller.go for a site without a
-- deployment of the operator's.
use pangolin_operator.Site.Env.{Env}
