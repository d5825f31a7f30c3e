-- ===== src/Discover/Names/Collisions.antt =====
-- HostnameToResourceName of internal/autodiscover/autodiscover.go.
use pangolin_operator.Base.{
  ◌≤◌, [], ◌∷◌, ◌++◌, ◌≡◌, refl, leb, length, take, length-take-le, arith, if◌then◌else◌,
  Bool-cases, inl, inr,
}
use pangolin_operator.Base.Text.{Text, replace_all}
use pangolin_operator.Discover.Names.{hostname_to_resource_name}

cut-bounded : (s : Text) → length (if leb (length s) 253 then s else take 253 s) ≤ 253
cut-bounded s = elim (Bool-cases (leb (length s) 253)) [
  | inl short ↦ rw short (ground arith)
  | inr long ↦ rw long (length-take-le 253 s)
]

-- A resource name made from a host name is a Kubernetes name by its length.
pub hostname_to_resource_name-bounded :
    (source_name hostname : Text) → length (hostname_to_resource_name source_name hostname) ≤ 253
unfolding hostname_to_resource_name
hostname_to_resource_name-bounded source_name hostname =
    cut-bounded (source_name ++ b'-' ∷ replace_all b'.' b'-' hostname)

replace_all_same :
    (a b : Text) → replace_all b'.' b'-' (a ++ b'.' ∷ b) ≡ replace_all b'.' b'-' (a ++ b'-' ∷ b)
unfolding replace_all
replace_all_same [] b = refl
replace_all_same (c ∷ a) b = rw (replace_all_same a b) refl

-- Two host names that differ only in one dot, a hyphen in the other, get the same resource name.
pub hostname_to_resource_name_confuses :
    (source_name a b : Text)
    → hostname_to_resource_name source_name (a ++ b'.' ∷ b)
      ≡ hostname_to_resource_name source_name (a ++ b'-' ∷ b)
unfolding hostname_to_resource_name
hostname_to_resource_name_confuses source_name a b = rw (replace_all_same a b) refl
