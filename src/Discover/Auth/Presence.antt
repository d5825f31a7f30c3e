-- ===== src/Discover/Auth/Presence.antt =====
-- When buildAuth of internal/autodiscover/autodiscover.go returns an auth block.
use pangolin_operator.Base.{none, some, List, [], ◌∷◌, true, false, ◌≡◌, ◌↔◌, refl, arith}
use pangolin_operator.Base.Int.{pos}
use pangolin_operator.Base.Text.{Text, is_empty}
use pangolin_operator.Discover.Annotations.{Annotations}
use pangolin_operator.Discover.Auth.{
  is_nil, sso_enabled, sso_roles, sso_users, sso_idp, whitelist_users, auth_secret_ref, build_auth,
}
use pangolin_operator.Types.Public.{PublicAuthSpec}
use pangolin_operator.Types.Site.{AutoDiscoverSpec}

is_nil_iff : (l : List Text) → (is_nil l ≡ true) ↔ (l ≡ [])
is_nil_iff [] = (λ _. refl, λ _. refl)
is_nil_iff (x ∷ l) = (λ h. cc, λ h. cc)

is_empty_iff : (s : Text) → (is_empty s ≡ true) ↔ (s ≡ [])
is_empty_iff [] = (λ _. refl, λ _. refl)
is_empty_iff (c ∷ s) = (λ h. cc, λ h. cc)

module _ (annotations : Annotations) (prefix : Text) (cfg : AutoDiscoverSpec) where
  -- buildAuth returns no block exactly where single sign-on is off, nobody is whitelisted, and no
  -- secret is named.
  pub build_auth-eq-none_iff : (build_auth annotations prefix cfg ≡ none) ↔ (
      (sso_enabled annotations prefix cfg ≡ false)
      × (whitelist_users annotations prefix cfg ≡ [])
      × (auth_secret_ref annotations prefix cfg ≡ []))
  unfolding build_auth
  build_auth-eq-none_iff = ground (
    arith,
    is_nil_iff (whitelist_users annotations prefix cfg),
    is_empty_iff (auth_secret_ref annotations prefix cfg),
  )

  -- Where single sign-on is off, the block that buildAuth returns, if any, names no role, no user
  -- and no identity provider, whatever is configured.
  pub build_auth_without_sso :
      (auth : PublicAuthSpec)
      → build_auth annotations prefix cfg ≡ some auth
      → auth.sso_enabled ≡ false
      → (auth.sso_roles ≡ []) × (auth.sso_users ≡ []) × (auth.auto_login_idp ≡ pos 0)
  unfolding build_auth sso_roles sso_users sso_idp
  build_auth_without_sso auth h off = (ground arith, ground arith, ground arith)
