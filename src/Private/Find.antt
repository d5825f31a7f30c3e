-- ===== src/Private/Find.antt =====
-- What findSiteResource of internal/controller/privateresource/controller.go finds.
use mathlib.Core.Option.{some-injective}
use mathlib.Core.Path.{subst}
use pangolin_operator.Base.{
  some, List, [], ◌∷◌, ◌++◌, true, false, ◌≡◌, ◌≢◌, ap, ◌⊎◌, inl, inr, All, arith, Bool-cases,
}
use pangolin_operator.Base.Int.{ℤ, ==ℤ_iff}
use pangolin_operator.Base.Text.{text_eq_iff}
use pangolin_operator.Pangolin.Requests.{SiteResourceItem}
use pangolin_operator.Private.Resource.{mode_http, item_matches, find_site_resource}
use pangolin_operator.Types.Private.{PrivateResourceSpec}

-- An item of Pangolin stands for a resource of this spec: name and mode agree, and in mode http the
-- full domain, which is not empty, and in the other modes the destination and the site.
pub record StandsFor (spec : PrivateResourceSpec) (site_id : ℤ) (item : SiteResourceItem)
    : Type 0 where
  pub same_name : item.name ≡ spec.name
  pub same_mode : item.mode ≡ spec.mode
  pub same_place :
      ((spec.mode ≡ mode_http) × (spec.full_domain ≢ []) × (item.full_domain ≡ spec.full_domain))
      ⊎ ((spec.mode ≢ mode_http) × (item.destination ≡ spec.destination) × (item.site_id ≡ site_id))

-- The first item of the list that stands for the spec.
pub record IsFirst (spec : PrivateResourceSpec) (site_id : ℤ) (items : List SiteResourceItem)
    (item : SiteResourceItem) : Type 0 where
  pub before : List SiteResourceItem
  pub after : List SiteResourceItem
  pub split : items ≡ before ++ item ∷ after
  pub stands : StandsFor spec site_id item
  pub none_before : All (λ other. item_matches spec site_id other ≡ false) before

module _ (spec : PrivateResourceSpec) (site_id : ℤ) where
  item_matches_sound :
      (item : SiteResourceItem)
      → item_matches spec site_id item ≡ true
      → StandsFor spec site_id item
  unfolding item_matches
  item_matches_sound item h = record {
    same_name = ground (arith, text_eq_iff item.name spec.name);
    same_mode = ground (arith, text_eq_iff item.mode spec.mode);
    same_place = ground (
      arith,
      text_eq_iff spec.mode mode_http,
      text_eq_iff item.full_domain spec.full_domain,
      text_eq_iff item.destination spec.destination,
      ==ℤ_iff item.site_id site_id,
    );
  }

  -- An item that findSiteResource returns is the first of the list that its loop does not pass over,
  -- and it stands for the spec on this site.
  pub find_site_resource-IsFirst :
      (items : List SiteResourceItem) (item : SiteResourceItem)
      → find_site_resource items spec site_id ≡ some item
      → IsFirst spec site_id items item
  unfolding find_site_resource
  find_site_resource-IsFirst [] item h = cc
  find_site_resource-IsFirst (x ∷ items) item h = elim (Bool-cases (item_matches spec site_id x)) [
    | inl hit ↦
        let same : x ≡ item = some-injective x item (rw hit at h) in
        record {
          before = [];
          after = items;
          split = ap (λ y. y ∷ items) same;
          stands = subst (StandsFor spec site_id) same (item_matches_sound x hit);
          none_before = tt;
        }
    | inr miss ↦
        let f = find_site_resource-IsFirst items item (rw miss at h) in
        record {
          before = x ∷ f.before;
          after = f.after;
          split = ap (λ l. x ∷ l) f.split;
          stands = f.stands;
          none_before = (miss, f.none_before);
        }
  ]
