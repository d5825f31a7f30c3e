-- ===== src/Site/Hardening.antt =====
-- How confined the deployment of internal/controller/newtsite/deployment.go is.
use pangolin_operator.Base.{
  Option, none, some, [], ◌∷◌, map, ◌≡◌, ◌≢◌, ◌⊎◌, inl, inr, refl, Bool, true, false, In,
}
use pangolin_operator.Base.Int.{pos}
use pangolin_operator.Base.Text.{Text, txt}
use pangolin_operator.Site.Container.{
  newt_container, build_security_contexts, restricted_context, restricted_pod_context,
}
use pangolin_operator.Site.Deployment.{build_deployment, pod_spec}
use pangolin_operator.Types.Pod.{
  SecurityContext, PodSecurityContext, NewtContainer, newt, container_given, Deployment,
}
use pangolin_operator.Types.Site.{NewtSite}

-- A container's context that meets the restricted Pod Security Standard: a user that is not root, no
-- privileges and no way to gain them, all capabilities dropped and none added; and a root file
-- system that is read-only.
pub record IsRestricted (c : SecurityContext) : Type 0 where
  pub not_root : c.run_as_user ≢ some (pos 0)
  pub non_root : c.run_as_non_root ≡ some true
  pub read_only : c.read_only_root_filesystem ≡ some true
  pub unprivileged : c.privileged ≢ some true
  pub no_escalation : c.allow_privilege_escalation ≡ some false
  pub none_added : c.add_capabilities ≡ []
  pub all_dropped : In (txt "ALL") c.drop_capabilities

-- The pod of the site: it shares no namespace with the host and mounts no service account token, its
-- context and the newt container's are restricted, and all else that it runs or mounts is what the
-- spec lists.
pub record IsConfined (site : NewtSite) (d : Deployment) : Type 0 where
  pub no_host_network : d.spec.pod.host_network ≡ false
  pub no_host_pid : d.spec.pod.host_pid ≡ false
  pub no_token : d.spec.pod.automount_service_account_token ≡ some false
  pub pod_context : PodSecurityContext
  pub has_pod_context : d.spec.pod.security_context ≡ some pod_context
  pub pod_non_root : pod_context.run_as_non_root ≡ some true
  pub seccomp : pod_context.seccomp_profile ≡ some (txt "RuntimeDefault")
  pub container : NewtContainer
  pub containers :
      d.spec.pod.containers ≡ newt container ∷ map container_given site.spec.newt.extra_containers
  pub context : SecurityContext
  pub has_context : container.security_context ≡ some context
  pub restricted : IsRestricted context
  pub mounts : container.volume_mounts ≡ site.spec.newt.extra_volume_mounts
  pub init_containers : d.spec.pod.init_containers ≡ site.spec.newt.init_containers
  pub volumes : d.spec.pod.volumes ≡ site.spec.newt.extra_volumes

-- The spec asks for the native interface, or has a security context of its own.
abbrev pub AsksForMore : NewtSite → Type 0
AsksForMore site =
    (site.spec.newt.use_native_interface ≡ true)
    ⊎ ((site.spec.newt.security_context ≢ none) ⊎ (site.spec.newt.pod_security_context ≢ none))

module _ (site : NewtSite) (secret_name namespace : Text) where
  default-IsConfined :
      site.spec.newt.use_native_interface ≡ false
      → site.spec.newt.security_context ≡ none
      → site.spec.newt.pod_security_context ≡ none
      → IsConfined site (build_deployment site secret_name namespace)
  unfolding build_deployment pod_spec newt_container build_security_contexts
  default-IsConfined plain no_context no_pod_context = record {
    no_host_network = rw plain refl;
    no_host_pid = rw plain refl;
    no_token = refl;
    pod_context = restricted_pod_context;
    has_pod_context = rw (plain, no_context, no_pod_context) refl;
    pod_non_root = refl;
    seccomp = refl;
    container = newt_container site.spec.newt secret_name;
    containers = refl;
    context = restricted_context;
    has_context = rw (plain, no_context, no_pod_context) refl;
    restricted = record {
      not_root = λ h. cc;
      non_root = refl;
      read_only = refl;
      unprivileged = λ h. cc;
      no_escalation = refl;
      none_added = refl;
      all_dropped = inl refl;
    };
    mounts = refl;
    init_containers = refl;
    volumes = refl;
  }

  -- The deployment of a site is confined unless the site's spec asks for the native interface or has
  -- a security context, for the container or the pod, of its own: no host network or process ids,
  -- no service account token, a pod that runs as non-root under the default seccomp profile, and a
  -- newt container that is not root, not privileged and cannot become so, drops all capabilities,
  -- adds none and has a read-only root file system. All other containers and all volumes are those
  -- that the spec lists.
  pub build_deployment-IsConfined :
      IsConfined site (build_deployment site secret_name namespace) ⊎ AsksForMore site
  build_deployment-IsConfined =
      by_settings site.spec.newt.use_native_interface site.spec.newt.security_context
        site.spec.newt.pod_security_context refl refl refl
    where
      by_settings :
          (native : Bool) (c : Option SecurityContext) (p : Option PodSecurityContext)
          → site.spec.newt.use_native_interface ≡ native
          → site.spec.newt.security_context ≡ c
          → site.spec.newt.pod_security_context ≡ p
          → IsConfined site (build_deployment site secret_name namespace) ⊎ AsksForMore site
      by_settings true c p e f g = inr (inl e)
      by_settings false (some c) p e f g = inr (inr (inl (λ h. cc)))
      by_settings false none (some p) e f g = inr (inr (inr (λ h. cc)))
      by_settings false none none e f g = inl (default-IsConfined e f g)
