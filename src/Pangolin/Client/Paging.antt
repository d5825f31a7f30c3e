-- ===== src/Pangolin/Client/Paging.antt =====
-- The page loops of ListSites, ListResources and ListSiteResources of internal/pangolin/client.go.
use mathlib.Core.Path.{subst}
use pangolin_operator.Base.{
  ℕ, zero, suc, ◌+◌, ◌*◌, ◌-◌, ◌≤◌, ◌<◌, some, List, [], ◌∷◌, ◌++◌, ◌≡◌, refl, sym, ap, ◌∙◌, true,
  false, inl, inr, ◌⊎◌, ltb, length, take, drop, arith, Bool-cases,
}
use pangolin_operator.Base.Exec.{Result, ok}
use pangolin_operator.Base.Text.{Text, txt}
use pangolin_operator.Pangolin.Client.{Answer, Http, Client, pages, fetch_page, list_resources}
use pangolin_operator.Pangolin.Requests.{ResourceItem}

le_or_lt : (m n : ℕ) → (m ≤ n) ⊎ (n < m)
le_or_lt m n = omega arith

suc_add : (m n : ℕ) → suc (m + n) ≡ suc m + n
suc_add m n = omega arith

module _ {A : Type 0} where
  take_nil : (n : ℕ) → take {A = A} n [] ≡ []
  take_nil zero = refl
  take_nil (suc n) = refl

  take-append_take : (m n : ℕ) (xs : List A) → take m xs ++ take n (drop m xs) ≡ take (m + n) xs
  take-append_take zero n xs = ap (λ k. take k xs) (omega arith)
  take-append_take (suc m) n [] = take_nil n ∙ sym (take_nil (suc m + n))
  take-append_take (suc m) n (x ∷ xs) =
      ap (λ l. x ∷ l) (take-append_take m n xs) ∙ ap (λ k. take k (x ∷ xs)) (suc_add m n)

  take_whole : (n : ℕ) (xs : List A) → length xs ≤ n → take n xs ≡ xs
  take_whole zero [] h = refl
  take_whole zero (x ∷ xs) h = absurd (omega arith)
  take_whole (suc n) [] h = refl
  take_whole (suc n) (x ∷ xs) h = ap (λ l. x ∷ l) (take_whole n xs (omega arith))

  length-drop : (n : ℕ) (xs : List A) → length (drop n xs) ≡ length xs - n
  length-drop zero xs = omega arith
  length-drop (suc n) [] = omega arith
  length-drop (suc n) (x ∷ xs) = omega (arith, length-drop n xs)

  length-take_full : (n : ℕ) (xs : List A) → n ≤ length xs → length (take n xs) ≡ n
  length-take_full zero xs h = refl
  length-take_full (suc n) [] h = absurd (omega arith)
  length-take_full (suc n) (x ∷ xs) h = ap suc (length-take_full n xs (omega arith))

  -- The page of 100 elements behind the first `k` pages.
  abbrev pub page_of : List A → ℕ → List A
  page_of xs k = take 100 (drop (100 * k) xs)

  short_page :
      (xs : List A) (k : ℕ) → ltb (length (page_of xs k)) 100 ≡ true → length xs ≤ 100 * k + 100
  short_page xs k h = elim (le_or_lt 100 (length (drop (100 * k) xs))) [
    | inl long ↦ absurd (ground (arith, length-take_full 100 (drop (100 * k) xs) long))
    | inr small ↦ omega (arith, length-drop (100 * k) xs)
  ]

  full_page :
      (xs : List A) (k : ℕ) → ltb (length (page_of xs k)) 100 ≡ false → 100 * k + 100 ≤ length xs
  full_page xs k h = elim (le_or_lt 100 (length (drop (100 * k) xs))) [
    | inl long ↦ omega (arith, length-drop (100 * k) xs)
    | inr small ↦ absurd (ground (arith, take_whole 100 (drop (100 * k) xs) (omega arith)))
  ]

  pages_from :
      (prefix : Text) (fetch : ℕ → Result (List A)) (xs : List A) (fuel k : ℕ)
      → ((j : ℕ) → fetch (suc j) ≡ ok (page_of xs j))
      → 100 * k ≤ length xs
      → length xs < 100 * (k + fuel)
      → pages prefix fetch fuel (suc k) (take (100 * k) xs) ≡ some (ok xs)
  unfolding pages
  pages_from prefix fetch xs zero k serves lower upper = absurd (omega arith)
  pages_from prefix fetch xs (suc fuel) k serves lower upper =
      elim (Bool-cases (ltb (length (page_of xs k)) 100)) [
        | inl last ↦
            rw (serves k, last)
              (ap (λ l. some (ok l))
                (take-append_take (100 * k) 100 xs
                  ∙ take_whole (100 * k + 100) xs (short_page xs k last)))
        | inr more ↦
            rw (serves k, more, take-append_take (100 * k) 100 xs)
              (subst (λ n. pages prefix fetch fuel (suc k + 1) (take n xs) ≡ some (ok xs))
                (omega arith)
                (subst (λ n. pages prefix fetch fuel n (take (100 * suc k) xs) ≡ some (ok xs))
                  (omega arith)
                  (pages_from prefix fetch xs fuel (suc k) serves
                    (omega (arith, full_page xs k more)) (omega arith))))
      ]

-- Where the server answers page k+1 of the query with the elements 100k to 100k+99 of a list,
-- ListResources returns the whole list, in order, where 100 times the fuel exceeds its length.
pub list_resources-serves :
    (http : Http) (client : Client) (decode : Text → Answer (List ResourceItem)) (query : Text)
    (xs : List ResourceItem) (fuel : ℕ)
    → ((k : ℕ) → fetch_page http client decode (txt "resources") query (suc k) ≡ ok (page_of xs k))
    → length xs < 100 * fuel
    → list_resources http client decode fuel query ≡ some (ok xs)
unfolding list_resources
list_resources-serves http client decode query xs fuel serves enough =
    pages_from (txt "ListResources") (fetch_page http client decode (txt "resources") query) xs fuel
      0 serves (omega arith) (omega arith)
