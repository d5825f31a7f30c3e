-- ===== src/Public/Find.antt =====
-- What findResource of internal/controller/publicresource/controller.go finds.
use mathlib.Core.Option.{some-injective}
use mathlib.Core.Path.{subst}
use pangolin_operator.Base.{
  none, some, List, [], ◌∷◌, ◌++◌, true, false, ◌≡◌, ◌≢◌, ◌↔◌, refl, ap, inl, inr, All, arith,
  Bool-cases,
}
use pangolin_operator.Base.Text.{text_eq_iff}
use pangolin_operator.Pangolin.Requests.{ResourceItem}
use pangolin_operator.Types.Public.{PublicResourceSpec}
use pangolin_operator.Public.Requests.{protocol_http, item_matches, find_resource}

-- An item of Pangolin stands for a resource of this spec: the names agree and, for an HTTP resource
-- with a full domain, the full domains too.
pub record StandsFor (spec : PublicResourceSpec) (item : ResourceItem) : Type 0 where
  pub same_name : item.name ≡ spec.name
  pub same_domain :
      spec.protocol ≡ protocol_http → spec.full_domain ≢ [] → item.full_domain ≡ spec.full_domain

item_matches_sound :
    (spec : PublicResourceSpec) (item : ResourceItem)
    → item_matches spec item ≡ true
    → StandsFor spec item
item_matches_sound spec item h = record {
  same_name = ground (arith, text_eq_iff item.name spec.name);
  same_domain = λ p d. ground (
    arith,
    text_eq_iff spec.protocol protocol_http,
    text_eq_iff item.full_domain spec.full_domain,
  );
}

item_matches_complete :
    (spec : PublicResourceSpec) (item : ResourceItem)
    → StandsFor spec item
    → item_matches spec item ≡ true
item_matches_complete spec item h = ground (
  arith,
  text_eq_iff item.name spec.name,
  text_eq_iff spec.protocol protocol_http,
  text_eq_iff item.full_domain spec.full_domain,
  h.same_domain,
)

-- The first item of the list that stands for the spec.
pub record IsFirst (spec : PublicResourceSpec) (items : List ResourceItem) (item : ResourceItem)
    : Type 0 where
  pub before : List ResourceItem
  pub after : List ResourceItem
  pub split : items ≡ before ++ item ∷ after
  pub stands : StandsFor spec item
  pub none_before : All (λ other. ¬ StandsFor spec other) before

find_resource-cons :
    (spec : PublicResourceSpec) (other : ResourceItem) (items : List ResourceItem)
    (item : ResourceItem)
    → ¬ StandsFor spec other
    → IsFirst spec items item
    → IsFirst spec (other ∷ items) item
find_resource-cons spec other items item h f = record {
  before = other ∷ f.before;
  after = f.after;
  split = ap (λ l. other ∷ l) f.split;
  stands = f.stands;
  none_before = (h, f.none_before);
}

not-StandsFor :
    (spec : PublicResourceSpec) (item : ResourceItem)
    → item_matches spec item ≡ false
    → ¬ StandsFor spec item
not-StandsFor spec item h stands = cc (item_matches_complete spec item stands)

-- findResource returns an item exactly where it is the first of the list that stands for the spec.
pub find_resource-IsFirst :
    (spec : PublicResourceSpec) (items : List ResourceItem) (item : ResourceItem)
    → find_resource items spec ≡ some item
    → IsFirst spec items item
unfolding find_resource
find_resource-IsFirst spec [] item h = cc
find_resource-IsFirst spec (x ∷ items) item h = elim (Bool-cases (item_matches spec x)) [
  | inl hit ↦ record {
    before = [];
    after = items;
    split = ap (λ y. y ∷ items) (some-injective x item (rw hit at h));
    stands =
        subst (StandsFor spec) (some-injective x item (rw hit at h))
          (item_matches_sound spec x hit);
    none_before = tt;
  }
  | inr miss ↦
      find_resource-cons spec x items item (not-StandsFor spec x miss)
        (find_resource-IsFirst spec items item (rw miss at h))
]

-- findResource returns nothing exactly where no item stands for the spec.
pub find_resource-eq-none_iff :
    (spec : PublicResourceSpec) (items : List ResourceItem)
    → (find_resource items spec ≡ none) ↔ All (λ item. ¬ StandsFor spec item) items
unfolding find_resource
find_resource-eq-none_iff spec [] = (λ _. tt, λ _. refl)
find_resource-eq-none_iff spec (x ∷ items) =
    let (to, from) = find_resource-eq-none_iff spec items in
    elim (Bool-cases (item_matches spec x)) [
      | inl hit ↦ (λ h. cc (rw hit at h), λ a. absurd (a.0 (item_matches_sound spec x hit)))
      | inr miss ↦ (λ h. (not-StandsFor spec x miss, to (rw miss at h)), λ a. rw miss (from a.1))
    ]
