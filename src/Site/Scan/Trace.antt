-- ===== src/Site/Scan/Trace.antt =====
-- The calls of the discovery loops of internal/controller/newtsite/controller.go, as an inductive
-- relation between the log before and the log after.
use pangolin_operator.Base.{List, [], ◌∷◌, ◌++◌, map, ◌≡◌, refl, Bool, true, false, if◌then◌else◌}
use pangolin_operator.Base.Exec.{Result, ok, err, ◌>>◌}
use pangolin_operator.Base.Text.{Text}
use pangolin_operator.Discover.Ensure
use pangolin_operator.Discover.Ensure.{Owner}
use pangolin_operator.Site.Env.{
  Cluster, Call, list_http_routes, list_tcp_routes, list_services, ensure, api_calls, Run, for_each,
  ensure_resource,
}
use pangolin_operator.Site.Scan.{for_listed, only_if, when}
use pangolin_operator.Types.Public.{PublicResourceSpec}

-- A list of routes or services, or a call of ensureOwnedPublicResource.
pub data IsDiscovery : Call → Type 0 where
  lists_http_routes : IsDiscovery list_http_routes
  lists_tcp_routes : IsDiscovery list_tcp_routes
  lists_services : IsDiscovery list_services
  ensures : (c : Ensure.Call) → IsDiscovery (ensure c)

-- The second log is the first with calls of discovery after it.
pub data Discovered (start : List Call) : List Call → Type 0 where
  here : Discovered start start
  further :
      {c : Call} {log : List Call}
      → IsDiscovery c
      → Discovered start log
      → Discovered start (c ∷ log)

Discovered-trans : {a b c : List Call} → Discovered a b → Discovered b c → Discovered a c
Discovered-trans d here = d
Discovered-trans d (further i e) = further i (Discovered-trans d e)

pub api_calls-Discovered : {a b : List Call} → Discovered a b → api_calls b ≡ api_calls a
api_calls-Discovered here = refl
api_calls-Discovered (further lists_http_routes d) = api_calls-Discovered d
api_calls-Discovered (further lists_tcp_routes d) = api_calls-Discovered d
api_calls-Discovered (further lists_services d) = api_calls-Discovered d
api_calls-Discovered (further (ensures c) d) = api_calls-Discovered d

-- A run that makes only calls of discovery.
abbrev pub Discovers : Run (Unit {0}) → Type 0
Discovers m = (log : List Call) → Discovered log (m log).1

pub for_each-Discovers :
    {A : Type 0} (f : A → Run (Unit {0})) (all : (x : A) → Discovers (f x)) (xs : List A)
    → (log : List Call) → Discovered log (for_each f xs log).1
unfolding for_each
for_each-Discovers f all [] log = here
for_each-Discovers f all (x ∷ xs) log =
    Discovered-trans (all x log) (for_each-Discovers f all xs (f x log).1)

ensures-Discovered :
    (calls : List Ensure.Call) (log : List Call) → Discovered log (map ensure calls ++ log)
ensures-Discovered [] log = here
ensures-Discovered (c ∷ calls) log = further (ensures c) (ensures-Discovered calls log)

pub ensure_resource-Discovers :
    (cluster : Cluster) (owner : Owner) (namespace name : Text) (spec : PublicResourceSpec)
    → Discovers (ensure_resource cluster owner namespace name spec)
unfolding ensure_resource
ensure_resource-Discovers cluster owner namespace name spec log = ensures-Discovered _ log

pub Discovered-if :
    {log : List Call} (b : Bool) (x y : Result (Unit {0}) × List Call)
    → Discovered log x.1
    → Discovered log y.1
    → Discovered log (if b then x else y).1
Discovered-if true x y h g = h
Discovered-if false x y h g = g

pub then-Discovers : (m k : Run (Unit {0})) → Discovers m → Discovers k → Discovers (m >> k)
then-Discovers m k h g log = proceed-Discovered (m log) (h log)
  where
    proceed-Discovered :
        (r : Result (Unit {0}) × List Call)
        → Discovered log r.1
        → Discovered log (((λ (_ : List Call). r) >> k) log).1
    proceed-Discovered (ok _, log') d = Discovered-trans d (g log')
    proceed-Discovered (err e, log') d = d

pub for_listed-Discovers :
    {A : Type 0} (c : Call) (what : Text) (test : A → Bool) (f : A → Run (Unit {0}))
    (r : Result (List A))
    → IsDiscovery c
    → ((x : A) → Discovers (f x))
    → (log : List Call) → Discovered log (for_listed what (only_if test f) r (c ∷ log)).1
for_listed-Discovers c what test f (err e) i all log = further i here
for_listed-Discovers c what test f (ok xs) i all log = Discovered-trans (further i here) (
    for_each-Discovers (only_if test f)
      (λ x log'. Discovered-if (test x) (f x log') (ok tt, log') (all x log') here) xs (c ∷ log))

pub when-Discovers : (b : Bool) (m : Run (Unit {0})) → Discovers m → Discovers (when b m)
when-Discovers b m h log = Discovered-if b (m log) (ok tt, log) (h log) here
