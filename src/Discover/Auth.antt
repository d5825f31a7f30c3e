-- ===== src/Discover/Auth.antt =====
-- buildAuth of internal/autodiscover/autodiscover.go.
pub mod Presence
use pangolin_operator.Base.{
  Option, none, some, List, [], ◌∷◌, Bool, true, false, not, ◌&&◌, if◌then◌else◌,
}
use pangolin_operator.Base.Int.{ℤ, pos, leb_ℤ}
use pangolin_operator.Base.Text.{Text, txt, is_empty, lookup, atoi, or_zero}
use pangolin_operator.Discover.Annotations.{Annotations, key_of, is_truthy, split_csv}
use pangolin_operator.Types.Public.{PublicAuthSpec}
use pangolin_operator.Types.Site.{AutoDiscoverSpec}

abbrev pub is_nil {ℓ} : {A : Type ℓ} → List A → Bool
is_nil [] = true
is_nil (_ ∷ _) = false

-- An annotation replaces the configured text, also by an empty one.
abbrev pub override : Text → Option Text → Text
override def none = def
override def (some v) = v

abbrev positive_or : ℤ → Option ℤ → ℤ
positive_or def none = def
positive_or def (some p) = if leb_ℤ p (pos 0) then def else p

abbrev idp_or : ℤ → Option Text → ℤ
idp_or def none = def
idp_or def (some v) = positive_or def (atoi v)

abbrev truthy : Option Text → Bool
truthy none = false
truthy (some v) = is_truthy v

module _ (annotations : Annotations) (prefix : Text) (cfg : AutoDiscoverSpec) where
  abbrev read : Text → Option Text
  read key = lookup (key_of prefix key) annotations

  unfoldable pub sso_enabled : Bool
  sso_enabled = truthy (read (txt "auth-sso"))

  unfoldable pub sso_roles : List Text
  sso_roles =
      if sso_enabled
      then split_csv (override cfg.auth_sso_roles (read (txt "auth-sso-roles")))
      else []

  unfoldable pub sso_users : List Text
  sso_users =
      if sso_enabled
      then split_csv (override cfg.auth_sso_users (read (txt "auth-sso-users")))
      else []

  unfoldable pub sso_idp : ℤ
  sso_idp = if sso_enabled then idp_or cfg.auth_sso_idp (read (txt "auth-sso-idp")) else pos 0

  unfoldable pub whitelist_users : List Text
  whitelist_users =
      split_csv (override cfg.auth_whitelist_users (read (txt "auth-whitelist-users")))

  -- An empty annotation and a missing one both give the empty text.
  unfoldable pub auth_secret_ref : Text
  auth_secret_ref = or_zero (read (txt "auth-secret"))

  unfoldable pub build_auth : Option PublicAuthSpec
  build_auth =
      if not sso_enabled && (is_nil whitelist_users && is_empty auth_secret_ref)
      then none
      else some (record {
        sso_enabled = sso_enabled;
        sso_roles = sso_roles;
        sso_users = sso_users;
        whitelist_users = whitelist_users;
        auto_login_idp = sso_idp;
        auth_secret_ref = auth_secret_ref;
      })
