-- ===== src/Pangolin/Domain/Laws.antt =====
-- What ResolveDomain of internal/pangolin/client.go answers.
use pangolin_operator.Base.{
  ◌≤◌, ◌<◌, List, [], ◌∷◌, ◌++◌, ◌≡◌, ◌≢◌, ◌↔◌, refl, sym, ap, ◌∙◌, ◌⊎◌, inl, inr, true, false,
  none, some, length, In, arith, Bool-cases, length-append,
}
use pangolin_operator.Base.Text.{
  Text, text_eq, text_eq_iff, text_eq_refl, has_suffix, trim_suffix, trim_suffix-append,
  trim_suffix-append_of_has_suffix, trim_suffix_of_no_suffix, has_suffix-append,
}
use pangolin_operator.Pangolin.Requests.{Domain}
use pangolin_operator.Pangolin.Domain.{
  Best, no_best, covers, consider, scan, resolve_domain_id, subdomain_under, subdomain_for,
  resolve_domain,
}
use pangolin_operator.Pangolin.Domain.Scan.{scan-IsFrom, scan_longest}

length_zero : (s : Text) → length s ≡ 0 → s ≡ []
length_zero [] h = refl
length_zero (c ∷ s) h = absurd (omega arith)

-- A text that is strictly longer is another text.
ne_of_length : (s t : Text) → length s < length t → text_eq s t ≡ false
ne_of_length s t h = elim (Bool-cases (text_eq s t)) [
  | inl same ↦ absurd (omega (arith, ap length ((text_eq_iff s t).0 same)))
  | inr other ↦ other
]

no_suffix_of_shorter : (s t : Text) → length s < length t → has_suffix s t ≡ false
unfolding has_suffix
no_suffix_of_shorter s t h = ground arith

pub subdomain_under-dot :
    (p base : Text) → has_suffix p base ≡ false → subdomain_under (p ++ b'.' ∷ base) base ≡ p
unfolding subdomain_under
subdomain_under-dot p base h =
    rw
      (
        trim_suffix-append p (b'.' ∷ base),
        trim_suffix_of_no_suffix p base h,
        ne_of_length p (p ++ b'.' ∷ base) (omega (arith, length-append p (b'.' ∷ base))),
      )
      refl

pub subdomain_under_self : (base : Text) → subdomain_under base base ≡ []
unfolding subdomain_under
subdomain_under_self base =
    rw
      (
        trim_suffix_of_no_suffix base (b'.' ∷ base)
            (no_suffix_of_shorter base (b'.' ∷ base) (omega arith)),
        trim_suffix-append [] base,
      )
      (ground arith)

-- How a covering domain splits the full domain.
covers_cases :
    (d : Domain) (full : Text)
    → covers d full ≡ true
    → (full ≡ d.base_domain) ⊎ ((p : Text) × (full ≡ p ++ b'.' ∷ d.base_domain))
unfolding covers
covers_cases d full h = elim (Bool-cases (text_eq d.base_domain full)) [
  | inl same ↦ inl (sym ((text_eq_iff d.base_domain full).0 same))
  | inr other ↦ inr (
    trim_suffix full (b'.' ∷ d.base_domain),
    sym (trim_suffix-append_of_has_suffix full (b'.' ∷ d.base_domain) (ground arith)),
  )
]

-- The domain ids of the list tell its entries apart.
abbrev pub UniqueIds : List Domain → Type 0
UniqueIds ds = (d e : Domain) → In d ds → In e ds → d.domain_id ≡ e.domain_id → d ≡ e

subdomain_for_of_unique :
    (ds : List Domain) (full : Text) (d : Domain)
    → In d ds
    → ((e : Domain) → In e ds → e.domain_id ≡ d.domain_id → e ≡ d)
    → subdomain_for ds full d.domain_id ≡ subdomain_under full d.base_domain
unfolding subdomain_for
subdomain_for_of_unique [] full d h u = absurd h
subdomain_for_of_unique (e ∷ ds) full d h u = elim (Bool-cases (text_eq e.domain_id d.domain_id)) [
  | inl same ↦ rw same (
      ap (λ (x : Domain). subdomain_under full x.base_domain)
        (u e (inl refl) ((text_eq_iff e.domain_id d.domain_id).0 same)))
  | inr other ↦ rw other (subdomain_for_of_unique ds full d (later other h) (λ x m. u x (inr m)))
]
  where
    later : text_eq e.domain_id d.domain_id ≡ false → In d (e ∷ ds) → In d ds
    later other (inl same) =
        cc ((text_eq_iff e.domain_id d.domain_id).1 (sym (ap (λ (x : Domain). x.domain_id) same)))
    later other (inr m) = m

-- The answer of ResolveDomain read back: the base domain it stands for, a longest one that covers
-- the full domain, and how the full domain is put together again.
pub record Resolved (ds : List Domain) (full id sub : Text) : Type 0 where
  pub domain : Domain
  pub listed : In domain ds
  pub same_id : domain.domain_id ≡ id
  pub longest :
      (e : Domain)
      → In e ds
      → covers e full ≡ true
      → length e.base_domain ≤ length domain.base_domain
  pub parts :
      ((full ≡ domain.base_domain) × (sub ≡ []))
      ⊎ ((p : Text) × (full ≡ p ++ b'.' ∷ domain.base_domain)
          × (has_suffix p domain.base_domain ≡ false → sub ≡ p))

resolve_domain_parts :
    (ds : List Domain) (full id sub : Text)
    → resolve_domain ds full ≡ some (id, sub)
    → (id ≡ (scan full no_best ds).id) × (id ≢ []) × (sub ≡ subdomain_for ds full id)
unfolding resolve_domain resolve_domain_id
resolve_domain_parts ds full id sub h = ground arith

subdomain_of_covering :
    (d : Domain) (full sub : Text)
    → covers d full ≡ true
    → sub ≡ subdomain_under full d.base_domain
    → ((full ≡ d.base_domain) × (sub ≡ []))
      ⊎ ((p : Text) × (full ≡ p ++ b'.' ∷ d.base_domain)
          × (has_suffix p d.base_domain ≡ false → sub ≡ p))
subdomain_of_covering d full sub c e = elim (covers_cases d full c) [
  | inl same ↦ inl (same, e ∙ rw same (subdomain_under_self d.base_domain))
  | inr (p, split) ↦ inr (p, split, λ h. e ∙ rw split (subdomain_under-dot p d.base_domain h))
]

-- Where the domain ids are distinct, an answer (id, subdomain) of ResolveDomain comes from a listed
-- domain with that id, no covering domain is longer, and either the full domain is the base domain
-- and the subdomain is empty, or the full domain is p.base and the subdomain is p, unless p itself
-- ends with the base domain.
pub resolve_domain-Resolved :
    (ds : List Domain) (full id sub : Text)
    → UniqueIds ds
    → resolve_domain ds full ≡ some (id, sub)
    → Resolved ds full id sub
resolve_domain-Resolved ds full id sub unique h =
    let (is_best, nonempty, is_sub) = resolve_domain_parts ds full id sub h in
    elim (scan-IsFrom full no_best ds) [
      | inl unchanged ↦ absurd (nonempty (is_best ∙ ap (λ (b : Best). b.id) unchanged))
      | inr f ↦ record {
        domain = f.domain;
        listed = f.listed;
        same_id = f.id ∙ sym is_best;
        longest = λ e m c. omega (arith, scan_longest full no_best ds e m c, f.len);
        parts = subdomain_of_covering f.domain full sub f.covering (
            is_sub
            ∙ ap (subdomain_for ds full) (sym (f.id ∙ sym is_best))
            ∙ subdomain_for_of_unique ds full f.domain f.listed
                (λ e m s. unique e f.domain m f.listed s));
      }
    ]

resolve_domain-eq-none :
    (ds : List Domain) (full : Text)
    → (resolve_domain ds full ≡ none) ↔ ((scan full no_best ds).id ≡ [])
unfolding resolve_domain resolve_domain_id
resolve_domain-eq-none ds full = ground arith

-- Every listed domain has an id and a base domain.
abbrev pub IsNamed : List Domain → Type 0
IsNamed ds = (d : Domain) → In d ds → (d.domain_id ≢ []) × (d.base_domain ≢ [])

best_of_covered :
    (ds : List Domain) (full : Text) (d : Domain)
    → IsNamed ds
    → In d ds
    → covers d full ≡ true
    → (scan full no_best ds).id ≢ []
best_of_covered ds full d named m c e = elim (scan-IsFrom full no_best ds) [
  | inl unchanged ↦ (named d m).1 (
      length_zero d.base_domain
        (omega (arith, scan_longest full no_best ds d m c, ap (λ (b : Best). b.len) unchanged)))
  | inr f ↦ (named f.domain f.listed).0 (f.id ∙ e)
]

-- Where every listed domain has an id and a base domain, ResolveDomain fails exactly when none of
-- them covers the full domain.
pub resolve_domain-eq-none_iff :
    (ds : List Domain) (full : Text)
    → IsNamed ds
    → (resolve_domain ds full ≡ none) ↔ ((d : Domain) → In d ds → covers d full ≡ false)
resolve_domain-eq-none_iff ds full named = (
  λ h d m. elim (Bool-cases (covers d full)) [
    | inl c ↦ absurd (best_of_covered ds full d named m c ((resolve_domain-eq-none ds full).0 h))
    | inr c ↦ c
  ],
  λ h. (resolve_domain-eq-none ds full).1 (elim (scan-IsFrom full no_best ds) [
    | inl unchanged ↦ ap (λ (b : Best). b.id) unchanged
    | inr f ↦ cc (f.covering, h f.domain f.listed)
  ]),
)

-- The subdomain loses its end where it ends with the base domain itself: for q followed by the
-- base domain, a dot and the base domain, ResolveDomain answers q.
pub subdomain_under_twice : (q base : Text) → subdomain_under ((q ++ base) ++ b'.' ∷ base) base ≡ q
unfolding subdomain_under
subdomain_under_twice q base =
    rw
      (
        trim_suffix-append (q ++ base) (b'.' ∷ base),
        trim_suffix-append q base,
        ne_of_length q ((q ++ base) ++ b'.' ∷ base)
            (omega (arith, length-append (q ++ base) (b'.' ∷ base), length-append q base)),
      )
      refl

-- With one listed domain, named and not empty, ResolveDomain answers the subdomain q for the full
-- domain q ++ base ++ "." ++ base, whose part before ".base" is q ++ base.
pub resolve_domain_drops :
    (d : Domain) (q : Text)
    → d.domain_id ≢ []
    → d.base_domain ≢ []
    → resolve_domain (d ∷ []) ((q ++ d.base_domain) ++ b'.' ∷ d.base_domain) ≡ some (d.domain_id, q)
unfolding resolve_domain resolve_domain_id scan consider subdomain_for covers
resolve_domain_drops d q named based = ground (
  arith,
  has_suffix-append (q ++ d.base_domain) (b'.' ∷ d.base_domain),
  text_eq_refl d.domain_id,
  subdomain_under_twice q d.base_domain,
)
