-- ===== src/Pangolin/Domain.antt =====
-- ResolveDomainID and ResolveDomain of internal/pangolin/client.go.
mod Scan
pub mod Laws
use pangolin_operator.Base.{
  ℕ, Option, none, some, List, [], ◌∷◌, Bool, ◌&&◌, ◌||◌, ltb, length, if◌then◌else◌,
}
use pangolin_operator.Base.Text.{Text, text_eq, has_suffix, trim_suffix, is_empty}
use pangolin_operator.Pangolin.Requests.{Domain}

-- The loop's variables `best` and `bestLen`.
pub record Best : Type 0 where
  pub id : Text
  pub len : ℕ

-- The test of the loop: the base domain is the full domain, or a suffix of it behind a dot.
unfoldable pub covers : Domain → Text → Bool
covers d full = text_eq d.base_domain full || has_suffix full (b'.' ∷ d.base_domain)

unfoldable pub consider : Text → Best → Domain → Best
consider full b d =
    if covers d full
    then (if ltb b.len (length d.base_domain)
        then record { id = d.domain_id; len = length d.base_domain }
        else b)
    else b

unfoldable pub scan : Text → Best → List Domain → Best
scan full b [] = b
scan full b (d ∷ ds) = scan full (consider full b d) ds

-- The zero values at the start of the loop.
abbrev pub no_best : Best
no_best = record { id = []; len = 0 }

-- `return best, best != ""`: `none` for false.
unfoldable pub resolve_domain_id : List Domain → Text → Option Text
resolve_domain_id ds full =
    let best = scan full no_best ds in if is_empty best.id then none else some best.id

-- The second loop of ResolveDomain: the part of the full domain before the base domain of the
-- first entry with the chosen id.
unfoldable pub subdomain_under : Text → Text → Text
subdomain_under full base =
    let sub = trim_suffix (trim_suffix full (b'.' ∷ base)) base in
    if text_eq sub full then [] else sub

unfoldable pub subdomain_for : List Domain → Text → Text → Text
subdomain_for [] full id = []
subdomain_for (d ∷ ds) full id =
    if text_eq d.domain_id id then subdomain_under full d.base_domain else subdomain_for ds full id

unfoldable pub resolve_domain : List Domain → Text → Option (Text × Text)
resolve_domain ds full = elim (resolve_domain_id ds full) [
  | none ↦ none
  | some id ↦ some (id, subdomain_for ds full id)
]
