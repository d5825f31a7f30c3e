-- ===== src/Site/PodEnv.antt =====
-- The environment of the newt container of internal/controller/newtsite/deployment.go, as Kubernetes
-- reads it: of several entries with one name the last counts.
use mathlib.Core.Path.{sym, ◌∙◌}
use pangolin_operator.Base.{
  ap, Option, none, some, List, [], ◌∷◌, ◌++◌, ◌≡◌, refl, Bool, true, false, if◌then◌else◌,
}
use pangolin_operator.Base.Text.{Text, txt, text_eq}
use pangolin_operator.Site.Container.{
  newt_container, operator_env, env_pangolin_endpoint, env_newt_id, env_newt_secret, var_if,
  metrics_env,
}
use pangolin_operator.Types.Pod.{EnvVar, EnvValue, secret_key}
use pangolin_operator.Types.Site.{NewtSpec, NewtMetricsSpec}

abbrev pub or_else : Option EnvValue → Option EnvValue → Option EnvValue
or_else (some v) rest = some v
or_else none rest = rest

-- The value of the last entry with this name.
abbrev pub effective : Text → List EnvVar → Option EnvValue
effective name [] = none
effective name (v ∷ vs) =
    or_else (effective name vs) (if text_eq v.name name then some v.value else none)

or_else_assoc : (a b c : Option EnvValue) → or_else (or_else a b) c ≡ or_else a (or_else b c)
or_else_assoc none b c = refl
or_else_assoc (some a) b c = refl

or_else-none : (a : Option EnvValue) → or_else a none ≡ a
or_else-none none = refl
or_else-none (some a) = refl

effective-append :
    (name : Text) (vs ws : List EnvVar)
    → effective name (vs ++ ws) ≡ or_else (effective name ws) (effective name vs)
effective-append name [] ws = sym (or_else-none (effective name ws))
effective-append name (v ∷ vs) ws = rw (effective-append name vs ws) (
    or_else_assoc (effective name ws) (effective name vs)
      (if text_eq v.name name then some v.value else none))

effective-var_if :
    (name : Text) (b : Bool) (other value : Text)
    → text_eq other name ≡ false
    → effective name (var_if b other value) ≡ none
effective-var_if name true other value h = rw h refl
effective-var_if name false other value h = refl

effective-metrics_env :
    (name : Text) (m : Option NewtMetricsSpec)
    → text_eq (txt "NEWT_ADMIN_ADDR") name ≡ false
    → effective name (metrics_env m) ≡ none
effective-metrics_env name none h = refl
effective-metrics_env name (some m) h = rw h refl

-- The three variables that come from the credentials secret.
pub data IsCredential : Text → Type 0 where
  endpoint : IsCredential env_pangolin_endpoint
  id : IsCredential env_newt_id
  secret : IsCredential env_newt_secret

credential-effective :
    (spec : NewtSpec) (secret_name name : Text)
    → IsCredential name
    → effective name (operator_env spec secret_name) ≡ some (secret_key secret_name name)
unfolding operator_env text_eq
credential-effective spec secret_name _ endpoint =
    simp (effective-append, effective-var_if, effective-metrics_env)
credential-effective spec secret_name _ id =
    simp (effective-append, effective-var_if, effective-metrics_env)
credential-effective spec secret_name _ secret =
    simp (effective-append, effective-var_if, effective-metrics_env)

-- In the environment of the newt container each of PANGOLIN_ENDPOINT, NEWT_ID and NEWT_SECRET has the
-- value that the spec's extra variables give it, and where they give none comes from the credentials
-- secret under the key of that name, whatever the other settings.
pub newt_container-effective :
    (spec : NewtSpec) (secret_name name : Text)
    → IsCredential name
    → effective name (newt_container spec secret_name).env
      ≡ or_else (effective name spec.extra_env) (some (secret_key secret_name name))
unfolding newt_container
newt_container-effective spec secret_name name c =
    effective-append name (operator_env spec secret_name) spec.extra_env
    ∙ ap (or_else (effective name spec.extra_env)) (credential-effective spec secret_name name c)
