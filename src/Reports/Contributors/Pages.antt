-- ===== src/Reports/Contributors/Pages.antt =====
-- The pages of a report together.
use akabbo.Prelude.{
  ℕ, zero, suc, ◌+◌, ◌*◌, ◌≡◌, ◌≤◌, ◌<◌, refl, List, [], ◌∷◌, ◌++◌, arith, ap, ◌∙◌, sym,
}
use akabbo.Prelude.Lists.{length, take, drop}
use akabbo.Reports.Contributors.{slice_page, total_pages}

module _ {ℓ} {A : Type ℓ} where
  -- The pages from 1 to a number, one after the other.
  unfoldable pub first_pages : ℕ → ℕ → List A → List A
  unfolding slice_page
  first_pages zero size xs = []
  first_pages (suc n) size xs = first_pages n size xs ++ slice_page (suc n) size xs

  take-nil : (n : ℕ) → take {A = A} n [] ≡ []
  unfolding take
  take-nil zero = refl
  take-nil (suc n) = refl

  take-add : (m n : ℕ) (xs : List A) → take (m + n) xs ≡ take m xs ++ take n (drop m xs)
  unfolding take drop
  take-add zero n xs = ap (λ (k : ℕ). take k xs) (omega arith)
  take-add (suc m) n [] = take-nil (suc m + n) ∙ sym (take-nil n)
  take-add (suc m) n (a ∷ xs) =
      let longer : suc m + n ≡ suc (m + n) = omega arith in
      ap (λ (k : ℕ). take k (a ∷ xs)) longer ∙ ap (λ r. a ∷ r) (take-add m n xs)

  take-all : (n : ℕ) (xs : List A) → length xs ≤ n → take n xs ≡ xs
  unfolding take length
  take-all zero [] h = refl
  take-all zero (a ∷ xs) h = absurd (omega arith)
  take-all (suc n) [] h = refl
  take-all (suc n) (a ∷ xs) h = ap (λ r. a ∷ r) (take-all n xs (omega arith))

  first_pages-take : (n size : ℕ) (xs : List A) → first_pages n size xs ≡ take (n * size) xs
  unfolding first_pages slice_page take
  first_pages-take zero size xs =
      let none_yet : ◌≡◌ {A = ℕ} 0 (0 * size) = omega arith in ap (λ (k : ℕ). take k xs) none_yet
  first_pages-take (suc n) size xs =
      ap (λ r. r ++ take size (drop (n * size) xs)) (first_pages-take n size xs)
      ∙ sym (take-add (n * size) size xs)
      ∙ ap (λ (k : ℕ). take k xs) (grind arith)

total_pages-enough : (records size : ℕ) → 0 < size → records ≤ total_pages records size * size
unfolding total_pages
total_pages-enough records size h = grind arith

-- For a page size of one or more, the pages from the first to the last that a report counts are, one
-- after the other, all of its rows in their order: none is left out and none comes twice.
pub all_pages :
    {A : Type 0} (size : ℕ) (xs : List A)
    → 0 < size
    → first_pages (total_pages (length xs) size) size xs ≡ xs
all_pages size xs h =
    first_pages-take (total_pages (length xs) size) size xs
    ∙ take-all (total_pages (length xs) size * size) xs (total_pages-enough (length xs) size h)
