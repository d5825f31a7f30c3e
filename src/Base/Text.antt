-- ===== src/Base/Text.antt =====
-- Go strings as lists of bytes, with the functions of `strings` and `strconv` that the program
-- calls. White space is the ASCII white space.
use Prim.Native.Char.{code}
use Prim.Native.Nat.{ℕ, zero, suc, ◌+◌, ◌-◌, ◌*◌, ◌/◌, ◌%◌}
use Prim.Native.String.{String}
use mathlib.Core.Path.{◌≡◌, refl, ap, ap₂, sym, ◌∙◌}
use mathlib.Core.Logic.{◌↔◌, ◌⊎◌, inl, inr}
use mathlib.Core.Bool.{Bool, true, false, ◌&&◌, ◌||◌}
use mathlib.Core.Option.{Option, none, some}
use mathlib.Core.List.{List, [], ◌∷◌, ◌++◌, map}
use native.Mathlib.Omega.{arith}
use pangolin_operator.Base.Tests.{◌==◌, leb, ==_iff, if◌then◌else◌, and_split, Bool-cases}
use pangolin_operator.Base.Lists.{
  length, take, drop, In, length-append, take-append-drop, take-append_length, drop-append_length,
}
use pangolin_operator.Base.Int.{ℤ, pos, negsuc}

abbrev pub Text : Type 0
Text = List ℕ

abbrev codes : String → Text
codes String.[] = []
codes (String.◌∷◌ c s) = code c ∷ codes s

-- A string literal of the program.
abbrev pub txt : String → Text
txt s = codes s

unfoldable pub text_eq : Text → Text → Bool
text_eq [] [] = true
text_eq (a ∷ s) (b ∷ t) = a == b && text_eq s t
text_eq _ _ = false

pub text_eq_refl : (s : Text) → text_eq s s ≡ true
unfolding text_eq
text_eq_refl [] = refl
text_eq_refl (a ∷ s) = ground (arith, text_eq_refl s)

pub eq_of_text_eq : (s t : Text) → text_eq s t ≡ true → s ≡ t
unfolding text_eq
eq_of_text_eq [] [] h = refl
eq_of_text_eq [] (b ∷ t) h = cc
eq_of_text_eq (a ∷ s) [] h = cc
eq_of_text_eq (a ∷ s) (b ∷ t) h =
    let (p, q) = and_split (a == b) (text_eq s t) h in
    ap₂ (λ c r. c ∷ r) ((==_iff a b).0 p) (eq_of_text_eq s t q)

pub text_eq_iff : (s t : Text) → (text_eq s t ≡ true) ↔ (s ≡ t)
text_eq_iff s t = (eq_of_text_eq s t, λ e. rw e (text_eq_refl t))

abbrev pub is_empty : Text → Bool
is_empty [] = true
is_empty (_ ∷ _) = false

-- %q of a text with nothing to escape.
abbrev pub quoted : Text → Text
quoted s = b'"' ∷ s ++ b'"' ∷ []

-- strings.HasSuffix, strings.TrimSuffix
unfoldable pub has_suffix : Text → Text → Bool
has_suffix s t = leb (length t) (length s) && text_eq (drop (length s - length t) s) t

unfoldable pub trim_suffix : Text → Text → Text
unfolding has_suffix
trim_suffix s t = if has_suffix s t then take (length s - length t) s else s

pub trim_suffix-append_of_has_suffix :
    (s t : Text) → has_suffix s t ≡ true → trim_suffix s t ++ t ≡ s
unfolding trim_suffix
trim_suffix-append_of_has_suffix s t h =
    let (_, e) = and_split (leb (length t) (length s)) _ h in
    rw h (
      ap (λ r. take (length s - length t) s ++ r)
        (sym (eq_of_text_eq (drop (length s - length t) s) t e))
      ∙ take-append-drop (length s - length t) s)

length_sub : (s t : Text) → length (s ++ t) - length t ≡ length s
length_sub s t = omega (arith, length-append s t)

pub has_suffix-append : (s t : Text) → has_suffix (s ++ t) t ≡ true
unfolding has_suffix
has_suffix-append s t =
    rw (length_sub s t, drop-append_length s t, text_eq_refl t) (ground (arith, length-append s t))

pub trim_suffix-append : (s t : Text) → trim_suffix (s ++ t) t ≡ s
unfolding trim_suffix
trim_suffix-append s t = rw (has_suffix-append s t, length_sub s t) (take-append_length s t)

pub trim_suffix_of_no_suffix : (s t : Text) → has_suffix s t ≡ false → trim_suffix s t ≡ s
unfolding trim_suffix
trim_suffix_of_no_suffix s t h = rw h

-- strings.TrimSpace
abbrev pub is_space : ℕ → Bool
is_space c = c == 32 || (leb 9 c && leb c 13)

trim_left : Text → Text
trim_left [] = []
trim_left (c ∷ s) = if is_space c then trim_left s else c ∷ s

trim_right : Text → Text
trim_right [] = []
trim_right (c ∷ s) = let rest = trim_right s in if is_space c && is_empty rest then [] else c ∷ rest

unfoldable pub trim_space : Text → Text
unfolding trim_left trim_right
trim_space s = trim_right (trim_left s)

trim_left_cases :
    (s : Text)
    → (trim_left s ≡ []) ⊎ ((c : ℕ) × (t : Text) × (trim_left s ≡ c ∷ t) × (is_space c ≡ false))
unfolding trim_left
trim_left_cases [] = inl refl
trim_left_cases (c ∷ s) = elim (Bool-cases (is_space c)) [
  | inl space ↦ rw space (trim_left_cases s)
  | inr other ↦ rw other (inr (c, s, refl, other))
]

trim_right-trim_right : (s : Text) → trim_right (trim_right s) ≡ trim_right s
unfolding trim_right
trim_right-trim_right [] = refl
trim_right-trim_right (c ∷ s) = elim (Bool-cases (is_space c && is_empty (trim_right s))) [
  | inl gone ↦ rw gone refl
  | inr kept ↦ rw (kept, trim_right-trim_right s, kept) refl
]

-- A text that begins with no space keeps its first byte.
trim_space-cons : (c : ℕ) (s : Text) → is_space c ≡ false → trim_space (c ∷ s) ≡ c ∷ trim_right s
unfolding trim_space trim_left trim_right
trim_space-cons c s h = simp h

pub trim_space-trim_space : (s : Text) → trim_space (trim_space s) ≡ trim_space s
unfolding trim_space trim_right
trim_space-trim_space s = elim (trim_left_cases s) [
  | inl blank ↦ rw blank refl
  | inr (c, t, split, other) ↦ rw split (
      rw other (trim_space-cons c (trim_right t) other ∙ ap (λ r. c ∷ r) (trim_right-trim_right t)))
]

In-trim_left : (c : ℕ) (s : Text) → In c (trim_left s) → In c s
unfolding trim_left
In-trim_left c [] = λ m. m
In-trim_left c (d ∷ s) = elim (Bool-cases (is_space d)) [
  | inl space ↦ rw space (λ m. inr (In-trim_left c s m))
  | inr other ↦ rw other (λ m. m)
]

In-trim_right : (c : ℕ) (s : Text) → In c (trim_right s) → In c s
unfolding trim_right
In-trim_right c [] = λ m. m
In-trim_right c (d ∷ s) = elim (Bool-cases (is_space d && is_empty (trim_right s))) [
  | inl gone ↦ rw gone (λ m. absurd m)
  | inr kept ↦ rw kept (λ m. elim m [ inl e ↦ inl e | inr n ↦ inr (In-trim_right c s n) ])
]

pub In-trim_space : (c : ℕ) (s : Text) → In c (trim_space s) → In c s
unfolding trim_space
In-trim_space c s m = In-trim_left c s (In-trim_right c (trim_left s) m)

-- strings.SplitSeq at one byte: the parts between the separators, one part at least.
abbrev pub push_front : ℕ → List Text → List Text
push_front c [] = (c ∷ []) ∷ []
push_front c (p ∷ ps) = (c ∷ p) ∷ ps

unfoldable pub split_on : ℕ → Text → List Text
split_on sep [] = [] ∷ []
split_on sep (c ∷ s) =
    let parts = split_on sep s in if c == sep then [] ∷ parts else push_front c parts

-- strings.ToLower and strings.ToUpper on ASCII letters.
abbrev lower_byte : ℕ → ℕ
lower_byte c = if leb b'A' c && leb c b'Z' then c + 32 else c

unfoldable pub to_lower : Text → Text
to_lower s = map lower_byte s

abbrev upper_byte : ℕ → ℕ
upper_byte c = if leb b'a' c && leb c b'z' then c - 32 else c

unfoldable pub to_upper : Text → Text
to_upper s = map upper_byte s

-- strings.ReplaceAll of one byte by another.
unfoldable pub replace_all : ℕ → ℕ → Text → Text
replace_all old new [] = []
replace_all old new (c ∷ s) = (if c == old then new else c) ∷ replace_all old new s

-- strconv.Itoa
digits_onto : ℕ → ℕ → Text → Text
digits_onto zero n acc = acc
digits_onto (suc f) n acc =
    let more = digits_onto f (n / 10) ((48 + n % 10) ∷ acc) in
    if leb n 9 then (48 + n) ∷ acc else more

abbrev print : ℕ → Text
print n = digits_onto (suc n) n []

unfoldable pub itoa : ℤ → Text
unfolding digits_onto
itoa (pos n) = print n
itoa (negsuc n) = b'-' ∷ print (suc n)

-- strconv.Atoi: an optional sign and decimal digits, in the range of int64.
digits_value : ℕ → Text → Option ℕ
digits_value acc [] = some acc
digits_value acc (c ∷ s) =
    let rest = digits_value (acc * 10 + (c - 48)) s in if leb 48 c && leb c 57 then rest else none

abbrev unsigned : Text → Option ℕ
unsigned [] = none
unsigned (c ∷ s) = digits_value 0 (c ∷ s)

abbrev negate : ℕ → ℤ
negate zero = pos 0
negate (suc n) = negsuc n

abbrev in_range_pos : Option ℕ → Option ℤ
in_range_pos none = none
in_range_pos (some n) = if leb n 9223372036854775807 then some (pos n) else none

abbrev in_range_neg : Option ℕ → Option ℤ
in_range_neg none = none
in_range_neg (some n) = if leb n 9223372036854775808 then some (negate n) else none

unfoldable pub atoi : Text → Option ℤ
unfolding digits_value
atoi [] = none
atoi (c ∷ s) =
    if c == b'-'
    then in_range_neg (unsigned s)
    else if c == b'+'
    then in_range_pos (unsigned s)
    else in_range_pos (unsigned (c ∷ s))

-- A Go map with string keys; a read of a missing key gives the zero value, here by `get_text`.
module _ {ℓ} {V : Type ℓ} where
  unfoldable pub lookup : Text → List (Text × V) → Option V
  lookup k [] = none
  lookup k ((j, v) ∷ m) = if text_eq j k then some v else lookup k m

  unfoldable pub insert : Text → V → List (Text × V) → List (Text × V)
  insert k v [] = (k, v) ∷ []
  insert k v ((j, w) ∷ m) = if text_eq j k then (k, v) ∷ m else (j, w) ∷ insert k v m

  pub lookup-insert :
      (k j : Text) (v : V) (m : List (Text × V))
      → lookup j (insert k v m) ≡ (if text_eq k j then some v else lookup j m)
  unfolding lookup insert
  lookup-insert k j v [] = refl
  lookup-insert k j v ((i, w) ∷ m) =
      ground (arith, text_eq_iff k j, text_eq_iff i k, text_eq_iff i j, lookup-insert k j v m)

abbrev pub or_zero : Option Text → Text
or_zero none = []
or_zero (some v) = v

trim_test : trim_space (txt " a b\t ") ≡ txt "a b"
unfolding trim_space
trim_test = refl

number_tests :
    (atoi (itoa (pos 8080)) ≡ some (pos 8080)) × (atoi (itoa (negsuc 41)) ≡ some (negsuc 41))
unfolding atoi itoa
number_tests = (refl, refl)
