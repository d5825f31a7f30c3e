-- ===== src/Discover/Targets/Extras.antt =====
-- buildTargetExtras of internal/autodiscover/autodiscover.go.
use pangolin_operator.Base.{List, ◌∷◌, [], true, ◌≡◌, ◌⊎◌, inl, inr, refl, In, arith, Bool-cases}
use pangolin_operator.Base.Int.{pos, leb_ℤ}
use pangolin_operator.Base.Text.{Text, text_eq, text_eq_iff}
use pangolin_operator.Discover.Annotations.{Annotations}
use pangolin_operator.Discover.Targets.{
  build_target_extras, path_match_types, rewrite_path_types, one_of, set_choice,
}
use pangolin_operator.Types.Public.{PublicTargetSpec}

-- The target that the annotations give: its address is untouched, and each changed field has a
-- value that Pangolin knows.
pub record Extends (base t : PublicTargetSpec) : Type 0 where
  pub hostname : t.hostname ≡ base.hostname
  pub port : t.port ≡ base.port
  pub method : t.method ≡ base.method
  pub path_match_type :
      (t.path_match_type ≡ base.path_match_type) ⊎ In t.path_match_type path_match_types
  pub rewrite_path_type :
      (t.rewrite_path_type ≡ base.rewrite_path_type) ⊎ In t.rewrite_path_type rewrite_path_types
  pub priority :
      (t.priority ≡ base.priority)
      ⊎ ((leb_ℤ (pos 1) t.priority ≡ true) × (leb_ℤ t.priority (pos 1000) ≡ true))

one_of_sound : (v : Text) (ws : List Text) → one_of v ws ≡ true → In v ws
one_of_sound v [] h = cc
one_of_sound v (w ∷ ws) h = elim (Bool-cases (text_eq v w)) [
  | inl same ↦ inl ((text_eq_iff v w).0 same)
  | inr other ↦ inr (one_of_sound v ws (rw other at h))
]

chosen :
    (choices : List Text) (old v : Text)
    → (set_choice choices old v ≡ old) ⊎ In (set_choice choices old v) choices
chosen choices old [] = inl refl
chosen choices old (c ∷ v) = elim (Bool-cases (one_of (c ∷ v) choices)) [
  | inl listed ↦ rw listed (inr (one_of_sound (c ∷ v) choices listed))
  | inr other ↦ rw other (inl refl)
]

-- buildTargetExtras keeps the host name, the port and the method, and sets the kinds of path match
-- and rewrite and the priority to values that Pangolin knows, or leaves them as they were.
pub build_target_extras-Extends :
    (base : PublicTargetSpec) (annotations : Annotations) (prefix : Text)
    → Extends base (build_target_extras base annotations prefix)
unfolding build_target_extras
build_target_extras-Extends base annotations prefix = record {
  hostname = refl;
  port = refl;
  method = refl;
  path_match_type = chosen path_match_types base.path_match_type _;
  rewrite_path_type = chosen rewrite_path_types base.rewrite_path_type _;
  priority = ground arith;
}
