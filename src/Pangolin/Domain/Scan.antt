-- ===== src/Pangolin/Domain/Scan.antt =====
-- The loop of ResolveDomainID of internal/pangolin/client.go.
use pangolin_operator.Base.{
  ◌≤◌, List, [], ◌∷◌, ◌≡◌, refl, sym, ap, ◌∙◌, ◌⊎◌, inl, inr, true, length, In, arith,
}
use pangolin_operator.Base.Text.{Text}
use pangolin_operator.Pangolin.Requests.{Domain}
use pangolin_operator.Pangolin.Domain.{Best, covers, consider, scan}

-- `b` was taken from one of the domains `ds`.
pub record IsFrom (full : Text) (ds : List Domain) (b : Best) : Type 0 where
  pub domain : Domain
  pub listed : In domain ds
  pub covering : covers domain full ≡ true
  pub id : domain.domain_id ≡ b.id
  pub len : length domain.base_domain ≡ b.len

IsFrom-cons :
    {full : Text} {d : Domain} {ds : List Domain} {b : Best}
    → IsFrom full ds b
    → IsFrom full (d ∷ ds) b
IsFrom-cons f = record {
  domain = f.domain;
  listed = inr f.listed;
  covering = f.covering;
  id = f.id;
  len = f.len;
}

consider_cases :
    (full : Text) (b : Best) (d : Domain)
    → ((consider full b d ≡ b)
        ⊎ ((covers d full ≡ true)
            × (consider full b d ≡ record { id = d.domain_id; len = length d.base_domain })))
unfolding consider
consider_cases full b d = ground arith

consider_grows : (full : Text) (b : Best) (d : Domain) → b.len ≤ (consider full b d).len
unfolding consider
consider_grows full b d = ground arith

consider-covers :
    (full : Text) (b : Best) (d : Domain)
    → covers d full ≡ true
    → length d.base_domain ≤ (consider full b d).len
unfolding consider
consider-covers full b d h = ground arith

pub scan_grows : (full : Text) (b : Best) (ds : List Domain) → b.len ≤ (scan full b ds).len
unfolding scan
scan_grows full b [] = omega arith
scan_grows full b (d ∷ ds) =
    omega (arith, consider_grows full b d, scan_grows full (consider full b d) ds)

pub scan_longest :
    (full : Text) (b : Best) (ds : List Domain) (d : Domain)
    → In d ds
    → covers d full ≡ true
    → length d.base_domain ≤ (scan full b ds).len
unfolding scan
scan_longest full b [] d h c = absurd h
scan_longest full b (e ∷ ds) d (inl same) c =
    omega (arith, consider-covers full b d c, ap_len, scan_grows full (consider full b e) ds)
  where
    ap_len : (consider full b d).len ≡ (consider full b e).len
    ap_len = cc
scan_longest full b (e ∷ ds) d (inr h) c = scan_longest full (consider full b e) ds d h c

pub scan-IsFrom :
    (full : Text) (b : Best) (ds : List Domain)
    → (scan full b ds ≡ b) ⊎ IsFrom full ds (scan full b ds)
unfolding scan
scan-IsFrom full b [] = inl refl
scan-IsFrom full b (d ∷ ds) = elim (scan-IsFrom full (consider full b d) ds) [
  | inr f ↦ inr (IsFrom-cons f)
  | inl same ↦ elim (consider_cases full b d) [
    | inl kept ↦ inl (same ∙ kept)
    | inr (c, taken) ↦ inr (record {
      domain = d;
      listed = inl refl;
      covering = c;
      id = sym (ap (λ (r : Best). r.id) (same ∙ taken));
      len = sym (ap (λ (r : Best). r.len) (same ∙ taken));
    })
  ]
]
