-- ===== src/Discover/Rules.antt =====
-- buildHeaders, buildRules, isValidRule and buildMaintenance of
-- internal/autodiscover/autodiscover.go.
pub mod Acceptable
use pangolin_operator.Base.{
  Option, none, some, List, [], ◌∷◌, ◌++◌, Bool, true, false, not, ◌&&◌, ◌||◌, if◌then◌else◌,
}
use pangolin_operator.Base.Int.{ℤ, pos, ◌==ℤ◌, leb_ℤ}
use pangolin_operator.Base.Text.{
  Text, txt, text_eq, is_empty, lookup, or_zero, trim_space, split_on,
}
use pangolin_operator.Discover.Annotations.{Annotations, key_of, is_truthy, nonempty_parts}
use pangolin_operator.Discover.Objects.{Json}
use pangolin_operator.Types.Public.{PublicHeaderSpec, PublicRuleSpec, PublicMaintenanceSpec}
use pangolin_operator.Types.Site.{AutoDiscoverSpec}

-- A missing and an empty annotation are one case.
abbrev present : Option Text → Option Text
present none = none
present (some v) = if is_empty v then none else some v

abbrev or_nothing {ℓ} : {A : Type ℓ} → Option (List A) → List A
or_nothing none = []
or_nothing (some l) = l

unfoldable pub is_valid_action : Text → Bool
is_valid_action a = text_eq a (txt "ACCEPT") || (text_eq a (txt "DROP") || text_eq a (txt "PASS"))

unfoldable pub is_valid_match : Text → Bool
is_valid_match m =
    text_eq m (txt "cidr")
    || (text_eq m (txt "ip") || (text_eq m (txt "path") || text_eq m (txt "country")))

unfoldable pub is_valid_rule : PublicRuleSpec → Bool
unfolding is_valid_action is_valid_match
is_valid_rule r =
    if not (is_valid_action r.action) || (not (is_valid_match r.match_kind) || is_empty r.value)
    then false
    else if not (r.priority ==ℤ pos 0)
        && (not (leb_ℤ (pos 1) r.priority) || not (leb_ℤ r.priority (pos 1000)))
    then false
    else true

-- The loop over the parsed rules.
unfoldable pub valid_rules : List PublicRuleSpec → List PublicRuleSpec
valid_rules [] = []
valid_rules (r ∷ rs) = let rest = valid_rules rs in if is_valid_rule r then r ∷ rest else rest

abbrev pub country_rule : Text → PublicRuleSpec
country_rule country = record {
  action = txt "DROP";
  match_kind = txt "country";
  value = country;
  priority = pos 0;
}

-- The loop over the countries.
unfoldable pub country_rules : List Text → List PublicRuleSpec
country_rules [] = []
country_rules (c ∷ cs) =
    let rest = country_rules cs in
    if is_empty (trim_space c) then rest else country_rule (trim_space c) ∷ rest

unfoldable pub deny_rules : Text → List PublicRuleSpec
unfolding country_rules
deny_rules countries = if is_empty countries then [] else country_rules (split_on b',' countries)

module _ (json : Json) where
  abbrev decoded {ℓ} : {A : Type ℓ} → (Text → Option (List A)) → Option Text → List A
  decoded decode none = []
  decoded decode (some raw) = or_nothing (decode raw)

  unfoldable pub build_headers : Annotations → Text → List PublicHeaderSpec
  build_headers annotations prefix =
      decoded json.decode_headers (present (lookup (key_of prefix (txt "headers")) annotations))

  unfoldable pub build_rules : Annotations → Text → AutoDiscoverSpec → List PublicRuleSpec
  unfolding valid_rules deny_rules
  build_rules annotations prefix cfg =
      valid_rules
        (decoded json.decode_rules (present (lookup (key_of prefix (txt "rules")) annotations)))
      ++ deny_rules cfg.deny_countries

abbrev maintenance_if : Annotations → Text → Option Text → Option PublicMaintenanceSpec
maintenance_if annotations prefix none = none
maintenance_if annotations prefix (some v) =
    if is_truthy v
    then some (record {
      enabled = true;
      kind = or_zero (lookup (key_of prefix (txt "maintenance-type")) annotations);
      title = or_zero (lookup (key_of prefix (txt "maintenance-title")) annotations);
      message = or_zero (lookup (key_of prefix (txt "maintenance-message")) annotations);
      estimated_time =
          or_zero (lookup (key_of prefix (txt "maintenance-estimated-time")) annotations);
    })
    else none

unfoldable pub build_maintenance : Annotations → Text → Option PublicMaintenanceSpec
build_maintenance annotations prefix =
    maintenance_if annotations prefix
      (lookup (key_of prefix (txt "maintenance-enabled")) annotations)
