-- ===== src/Discover/Rules/Acceptable.antt =====
-- Which rules buildRules of internal/autodiscover/autodiscover.go lets through.
use pangolin_operator.Base.{
  List, [], ◌∷◌, true, false, ◌≡◌, ◌≢◌, ◌↔◌, ◌⊎◌, inl, inr, refl, All, All-append, arith,
  Bool-cases,
}
use pangolin_operator.Base.Int.{pos, ==ℤ_iff, leb_ℤ}
use pangolin_operator.Base.Text.{Text, txt, text_eq_iff, is_empty, trim_space, split_on}
use pangolin_operator.Discover.Annotations.{Annotations}
use pangolin_operator.Discover.Objects.{Json}
use pangolin_operator.Discover.Rules.{
  is_valid_action, is_valid_match, is_valid_rule, valid_rules, country_rule, country_rules,
  deny_rules, build_rules,
}
use pangolin_operator.Types.Public.{PublicRuleSpec}
use pangolin_operator.Types.Site.{AutoDiscoverSpec}

-- The validation of PublicRuleSpec in the API: a known action, a known kind of match, a value that is
-- not empty, and a priority from 1 to 1000 or none at all. The form of the value is left open.
pub record Acceptable (r : PublicRuleSpec) : Type 0 where
  pub action : (r.action ≡ txt "ACCEPT") ⊎ ((r.action ≡ txt "DROP") ⊎ (r.action ≡ txt "PASS"))
  pub match_kind :
      (r.match_kind ≡ txt "cidr")
      ⊎ ((r.match_kind ≡ txt "ip") ⊎ ((r.match_kind ≡ txt "path") ⊎ (r.match_kind ≡ txt "country")))
  pub value : r.value ≢ []
  pub priority :
      (r.priority ≡ pos 0)
      ⊎ ((leb_ℤ (pos 1) r.priority ≡ true) × (leb_ℤ r.priority (pos 1000) ≡ true))

is_empty_ne : (s : Text) → is_empty s ≡ false → s ≢ []
is_empty_ne s h e = cc

ne_is_empty : (s : Text) → s ≢ [] → is_empty s ≡ false
ne_is_empty [] h = absurd (h refl)
ne_is_empty (c ∷ s) h = refl

valid_action_iff :
    (a : Text)
    → (is_valid_action a ≡ true) ↔ ((a ≡ txt "ACCEPT") ⊎ ((a ≡ txt "DROP") ⊎ (a ≡ txt "PASS")))
unfolding is_valid_action
valid_action_iff a =
    ground
      (arith, text_eq_iff a (txt "ACCEPT"), text_eq_iff a (txt "DROP"), text_eq_iff a (txt "PASS"))

valid_match_iff :
    (m : Text)
    → (is_valid_match m ≡ true)
      ↔ ((m ≡ txt "cidr") ⊎ ((m ≡ txt "ip") ⊎ ((m ≡ txt "path") ⊎ (m ≡ txt "country"))))
unfolding is_valid_match
valid_match_iff m = ground (
  arith,
  text_eq_iff m (txt "cidr"),
  text_eq_iff m (txt "ip"),
  text_eq_iff m (txt "path"),
  text_eq_iff m (txt "country"),
)

rule_parts :
    (r : PublicRuleSpec)
    → is_valid_rule r ≡ true
    → (is_valid_action r.action ≡ true)
      × (is_valid_match r.match_kind ≡ true)
      × (is_empty r.value ≡ false)
      × ((r.priority ≡ pos 0)
          ⊎ ((leb_ℤ (pos 1) r.priority ≡ true) × (leb_ℤ r.priority (pos 1000) ≡ true)))
unfolding is_valid_rule
rule_parts r h = ground (arith, ==ℤ_iff r.priority (pos 0))

rule_of_parts :
    (r : PublicRuleSpec)
    → is_valid_action r.action ≡ true
    → is_valid_match r.match_kind ≡ true
    → is_empty r.value ≡ false
    → (r.priority ≡ pos 0)
      ⊎ ((leb_ℤ (pos 1) r.priority ≡ true) × (leb_ℤ r.priority (pos 1000) ≡ true))
    → is_valid_rule r ≡ true
unfolding is_valid_rule
rule_of_parts r a m v p = ground (arith, ==ℤ_iff r.priority (pos 0))

-- isValidRule accepts just the rules that pass the API's validation.
pub is_valid_rule_iff : (r : PublicRuleSpec) → (is_valid_rule r ≡ true) ↔ Acceptable r
is_valid_rule_iff r = (
  λ h.
      (let (a, m, v, p) = rule_parts r h in
        record {
          action = (valid_action_iff r.action).0 a;
          match_kind = (valid_match_iff r.match_kind).0 m;
          value = is_empty_ne r.value v;
          priority = p;
        }),
  λ h.
      rule_of_parts r ((valid_action_iff r.action).1 h.action)
        ((valid_match_iff r.match_kind).1 h.match_kind) (ne_is_empty r.value h.value) h.priority,
)

valid_rules-Acceptable : (rs : List PublicRuleSpec) → All Acceptable (valid_rules rs)
unfolding valid_rules
valid_rules-Acceptable [] = tt
valid_rules-Acceptable (r ∷ rs) = elim (Bool-cases (is_valid_rule r)) [
  | inl valid ↦ rw valid ((is_valid_rule_iff r).0 valid, valid_rules-Acceptable rs)
  | inr other ↦ rw other (valid_rules-Acceptable rs)
]

country-Acceptable : (c : Text) → c ≢ [] → Acceptable (country_rule c)
country-Acceptable c h = record {
  action = inr (inl refl);
  match_kind = inr (inr (inr refl));
  value = h;
  priority = inl refl;
}

country_rules-Acceptable : (cs : List Text) → All Acceptable (country_rules cs)
unfolding country_rules
country_rules-Acceptable [] = tt
country_rules-Acceptable (c ∷ cs) = elim (Bool-cases (is_empty (trim_space c))) [
  | inl blank ↦ rw blank (country_rules-Acceptable cs)
  | inr named ↦ rw named (
    country-Acceptable (trim_space c) (is_empty_ne (trim_space c) named),
    country_rules-Acceptable cs,
  )
]

deny_rules-Acceptable : (countries : Text) → All Acceptable (deny_rules countries)
unfolding deny_rules
deny_rules-Acceptable [] = tt
deny_rules-Acceptable (c ∷ s) = country_rules-Acceptable (split_on b',' (c ∷ s))

-- Whatever the annotation and the configured countries hold, every rule that buildRules returns has
-- the action ACCEPT, DROP or PASS, matches by cidr, ip, path or country, has a value that is not
-- empty, and has a priority from 1 to 1000, or 0 for none: what the API's validation of a rule asks.
-- The form of the value (an address, a country code) is not checked.
pub build_rules-Acceptable :
    (json : Json) (annotations : Annotations) (prefix : Text) (cfg : AutoDiscoverSpec)
    → All Acceptable (build_rules json annotations prefix cfg)
unfolding build_rules
build_rules-Acceptable json annotations prefix cfg =
    All-append Acceptable _ (deny_rules cfg.deny_countries) (valid_rules-Acceptable _)
      (deny_rules-Acceptable cfg.deny_countries)
