-- ===== src/Site/Follows/Names.antt =====
-- The secret names that reconcile of internal/controller/newtsite/controller.go writes.
use pangolin_operator.Base.{List, ◌≡◌, refl, All}
use pangolin_operator.Site.Env.{Env, Call, State, patch_object}
use pangolin_operator.Site.Create.{secret_name_of}
use pangolin_operator.Site.Follows.{
  Follows, asked, read_again, patched, stored_secret, stored_account, stored_deployment, looked,
  scanned,
}
use pangolin_operator.Site.Follows.Reconciles.{reconcile-Follows}
use pangolin_operator.Site.Machine.{Reachable, stepped}
use pangolin_operator.Site.Reconcile.{reconcile}
use pangolin_operator.Site.Run.{secret_name_or}
use pangolin_operator.Site.Scan.Trace.{
  Discovered, further, lists_http_routes, lists_tcp_routes, lists_services, ensures,
}
use pangolin_operator.Site.Secrets.{secret_name_or-Reachable}

-- A patch of an object whose status came about by the controller's changes keeps that, and keeps
-- the name of the secret.
abbrev pub KeepsSecret : Call → Type 0
KeepsSecret (patch_object base sent) =
    Reachable base → Reachable sent × (secret_name_or sent ≡ secret_name_of base)
KeepsSecret _ = Unit

Discovered-KeepsSecret :
    {start log : List Call} → Discovered start log → All KeepsSecret start → All KeepsSecret log
Discovered-KeepsSecret Discovered.here h = h
Discovered-KeepsSecret (further lists_http_routes d) h = (tt, Discovered-KeepsSecret d h)
Discovered-KeepsSecret (further lists_tcp_routes d) h = (tt, Discovered-KeepsSecret d h)
Discovered-KeepsSecret (further lists_services d) h = (tt, Discovered-KeepsSecret d h)
Discovered-KeepsSecret (further (ensures c) d) h = (tt, Discovered-KeepsSecret d h)

Follows-KeepsSecret :
    {start log : List Call} → Follows start log → All KeepsSecret start → All KeepsSecret log
Follows-KeepsSecret Follows.here h = h
Follows-KeepsSecret (asked c d) h = (tt, Follows-KeepsSecret d h)
Follows-KeepsSecret (read_again d) h = (tt, Follows-KeepsSecret d h)
Follows-KeepsSecret (patched base status step d) h = (
  (λ r.
      let reached = stepped base (record base { status = status }) r refl step in
      (reached, secret_name_or-Reachable _ reached)),
  Follows-KeepsSecret d h,
)
Follows-KeepsSecret (stored_secret d) h = (tt, Follows-KeepsSecret d h)
Follows-KeepsSecret (stored_account d) h = (tt, Follows-KeepsSecret d h)
Follows-KeepsSecret (stored_deployment d) h = (tt, Follows-KeepsSecret d h)
Follows-KeepsSecret (looked d) h = (tt, Follows-KeepsSecret d h)
Follows-KeepsSecret (scanned d e) h = Discovered-KeepsSecret e (Follows-KeepsSecret d h)

-- Where all patches so far keep the secret's name, those that reconcile sends do so too: a patch of
-- an object whose status came about by the controller's own changes sends such an object again, and
-- the secret that ensureDeployment takes for the object sent is the one called after the object that
-- was patched.
pub reconcile-KeepsSecret :
    (env : Env) (s : State) → All KeepsSecret s.log → All KeepsSecret (reconcile env s).1.log
reconcile-KeepsSecret env s h = Follows-KeepsSecret (reconcile-Follows env s) h
