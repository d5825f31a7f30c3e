-- ===== src/Discover/Annotations/Csv.antt =====
-- splitCSV of internal/autodiscover/autodiscover.go.
use pangolin_operator.Base.{
  ℕ, List, [], ◌∷◌, ◌++◌, false, ◌≡◌, ◌≢◌, refl, sym, ap, ◌∙◌, inl, inr, In, All, ◌==◌, ==_iff,
  Bool-cases,
}
use pangolin_operator.Base.Text.{
  Text, is_empty, trim_space, trim_space-trim_space, In-trim_space, split_on, push_front,
}
use pangolin_operator.Discover.Annotations.{nonempty_parts, split_csv}

-- An entry of such a list: a trimmed text that is not empty and holds no comma.
pub record IsEntry (v : Text) : Type 0 where
  pub nonempty : v ≢ []
  pub trimmed : trim_space v ≡ v
  pub no_comma : ¬ In b',' v

abbrev NoByte : ℕ → Text → Type 0
NoByte sep v = ¬ In sep v

push_front-NoByte :
    (sep c : ℕ) (ps : List Text)
    → c ≢ sep
    → All (NoByte sep) ps
    → All (NoByte sep) (push_front c ps)
push_front-NoByte sep c [] h a = ((λ m. elim m [ inl e ↦ h (sym e) | inr n ↦ n ]), tt)
push_front-NoByte sep c (p ∷ ps) h (first, rest) =
    ((λ m. elim m [ inl e ↦ h (sym e) | inr n ↦ first n ]), rest)

split_on-NoByte : (sep : ℕ) (s : Text) → All (NoByte sep) (split_on sep s)
unfolding split_on
split_on-NoByte sep [] = ((λ m. m), tt)
split_on-NoByte sep (c ∷ s) = elim (Bool-cases (c == sep)) [
  | inl same ↦ rw same ((λ m. m), split_on-NoByte sep s)
  | inr other ↦ rw other (
      push_front-NoByte sep c (split_on sep s) (λ e. cc ((==_iff c sep).1 e))
        (split_on-NoByte sep s))
]

is_empty_ne : (s : Text) → is_empty s ≡ false → s ≢ []
is_empty_ne s h e = cc

parts-IsEntry : (ps : List Text) → All (NoByte b',') ps → All IsEntry (nonempty_parts ps)
unfolding nonempty_parts
parts-IsEntry [] h = tt
parts-IsEntry (v ∷ vs) (first, rest) = elim (Bool-cases (is_empty (trim_space v))) [
  | inl blank ↦ rw blank (parts-IsEntry vs rest)
  | inr named ↦ rw named (
    record {
      nonempty = is_empty_ne (trim_space v) named;
      trimmed = trim_space-trim_space v;
      no_comma = λ m. first (In-trim_space b',' v m);
    },
    parts-IsEntry vs rest,
  )
]

-- What splitCSV returns for any text are trimmed texts that are not empty and hold no comma.
pub split_csv-IsEntry : (s : Text) → All IsEntry (split_csv s)
unfolding split_csv
split_csv-IsEntry [] = tt
split_csv-IsEntry (c ∷ s) = parts-IsEntry (split_on b',' (c ∷ s)) (split_on-NoByte b',' (c ∷ s))

-- The entries with a comma between each two.
pub joined : List Text → Text
joined [] = []
joined (v ∷ []) = v
joined (v ∷ w ∷ vs) = v ++ b',' ∷ joined (w ∷ vs)

split_on_whole : (sep : ℕ) (v : Text) → NoByte sep v → split_on sep v ≡ v ∷ []
unfolding split_on
split_on_whole sep [] h = refl
split_on_whole sep (c ∷ v) h = elim (Bool-cases (c == sep)) [
  | inl same ↦ absurd (h (inl (sym ((==_iff c sep).0 same))))
  | inr other ↦ rw (other, split_on_whole sep v (λ m. h (inr m))) refl
]

split_on-append :
    (sep : ℕ) (v rest : Text)
    → NoByte sep v
    → split_on sep (v ++ sep ∷ rest) ≡ v ∷ split_on sep rest
unfolding split_on
split_on-append sep [] rest h = rw ((==_iff sep sep).1 refl) refl
split_on-append sep (c ∷ v) rest h = elim (Bool-cases (c == sep)) [
  | inl same ↦ absurd (h (inl (sym ((==_iff c sep).0 same))))
  | inr other ↦ rw (other, split_on-append sep v rest (λ m. h (inr m))) refl
]

split_on-joined :
    (v : Text) (vs : List Text) → All IsEntry (v ∷ vs) → split_on b',' (joined (v ∷ vs)) ≡ v ∷ vs
unfolding joined
split_on-joined v [] (h, _) = split_on_whole b',' v h.no_comma
split_on-joined v (w ∷ vs) (h, rest) =
    split_on-append b',' v (joined (w ∷ vs)) h.no_comma
    ∙ ap (λ l. v ∷ l) (split_on-joined w vs rest)

nonempty_parts_of_entries : (vs : List Text) → All IsEntry vs → nonempty_parts vs ≡ vs
unfolding nonempty_parts
nonempty_parts_of_entries [] h = refl
nonempty_parts_of_entries ([] ∷ vs) (h, rest) = absurd (h.nonempty refl)
nonempty_parts_of_entries ((c ∷ v) ∷ vs) (h, rest) =
    rw h.trimmed (ap (λ l. (c ∷ v) ∷ l) (nonempty_parts_of_entries vs rest))

csv_of_nonempty : (s : Text) → s ≢ [] → split_csv s ≡ nonempty_parts (split_on b',' s)
unfolding split_csv
csv_of_nonempty [] h = absurd (h refl)
csv_of_nonempty (c ∷ s) h = refl

joined_nonempty : (v : Text) (vs : List Text) → v ≢ [] → joined (v ∷ vs) ≢ []
unfolding joined
joined_nonempty [] vs h e = h refl
joined_nonempty (c ∷ v) [] h e = cc
joined_nonempty (c ∷ v) (w ∷ vs) h e = cc

-- splitCSV reads a list of entries back: joined by commas, entries that are trimmed, not empty and
-- without a comma come back as they were, in order.
pub split_csv-joined : (vs : List Text) → All IsEntry vs → split_csv (joined vs) ≡ vs
unfolding split_csv joined
split_csv-joined [] h = refl
split_csv-joined (v ∷ vs) h =
    csv_of_nonempty (joined (v ∷ vs)) (joined_nonempty v vs h.0.nonempty)
    ∙ ap nonempty_parts (split_on-joined v vs h)
    ∙ nonempty_parts_of_entries (v ∷ vs) h
