-- ===== src/Accounts/UserDao/Pages.antt =====
-- The pages of a listing: `skip`, `take` and `totalPages` fit together.
use native.Mathlib.Omega.{div_fact, mod_fact}
use arcana_cloud_nodejs.Base.{
  ℕ, zero, suc, ◌+◌, ◌*◌, ◌/◌, ◌%◌, ◌≤◌, ◌<◌, ◌≡◌, refl, sym, ap, ◌∙◌, some, List, [], ◌∷◌, ◌++◌,
  ltb, arith, Bool-cases, inl, inr, length, take, drop,
}
use arcana_cloud_nodejs.Base.Int.{ℤ, pos, negsuc}
use arcana_cloud_nodejs.Accounts.UserDao.{skip_of, total_pages_of}

covers :
    (total n : ℕ)
    → (pages : ℕ) × (total_pages_of total (suc n) ≡ some pages)
      × (total ≤ pages * suc n)
      × (pages * suc n < total + suc n)
unfolding total_pages_of
covers total n = elim (Bool-cases (ltb 0 (total % suc n))) [
  | inl more ↦ (
    total / suc n + 1,
    rw more refl,
    ground (arith, div_fact total n, mod_fact total n),
    ground (arith, div_fact total n, mod_fact total n),
  )
  | inr whole ↦ (
    total / suc n,
    rw whole refl,
    ground (arith, div_fact total n, mod_fact total n),
    ground (arith, div_fact total n, mod_fact total n),
  )
]

suc_add : (m n : ℕ) → suc (m + n) ≡ suc m + n
suc_add m n = omega arith

none_yet : (n : ℕ) → 0 ≡ 0 * n
none_yet n = omega arith

one_more : (k n : ℕ) → k * n + n ≡ suc k * n
one_more k n = ground arith

module _ {A : Type 0} where
  -- what `findMany` answers for a `skip` and a `take`, of the rows in their order
  abbrev pub slice : ℤ → ℕ → List A → List A
  slice (pos k) n xs = take n (drop k xs)
  slice (negsuc k) n xs = []

  -- the pages 1 to k, one after another
  abbrev pub first_pages : ℕ → ℕ → List A → List A
  first_pages zero n xs = []
  first_pages (suc k) n xs = first_pages k n xs ++ slice (skip_of (suc k) n) n xs

  take-nil : (n : ℕ) → ◌≡◌ {A = List A} (take n []) []
  take-nil zero = refl
  take-nil (suc n) = refl

  take-append : (m n : ℕ) (xs : List A) → take m xs ++ take n (drop m xs) ≡ take (m + n) xs
  take-append zero n xs = ap (λ m. take m xs) (omega arith)
  take-append (suc m) n [] = take-nil n ∙ sym (take-nil (suc m + n))
  take-append (suc m) n (x ∷ xs) =
      ap (λ ys. x ∷ ys) (take-append m n xs) ∙ ap (λ k. take k (x ∷ xs)) (suc_add m n)

  take_all : (n : ℕ) (xs : List A) → length xs ≤ n → take n xs ≡ xs
  take_all zero [] h = refl
  take_all (suc n) [] h = refl
  take_all zero (x ∷ xs) h = elim h [ ]
  take_all (suc n) (x ∷ xs) h = ap (λ ys. x ∷ ys) (take_all n xs (omega arith))

  first_pages-eq-take : (k n : ℕ) (xs : List A) → first_pages k n xs ≡ take (k * n) xs
  unfolding skip_of
  first_pages-eq-take zero n xs = ap (λ m. take m xs) (none_yet n)
  first_pages-eq-take (suc k) n xs =
      ap (λ ys. ys ++ take n (drop (k * n) xs)) (first_pages-eq-take k n xs)
      ∙ take-append (k * n) n xs
      ∙ ap (λ m. take m xs) (one_more k n)

  -- For a positive page size, the number of pages that is reported is such that the pages from 1 to
  -- it, one after another, are all the rows, and one page fewer would not be enough.
  pub total_pages_of_lem :
      (n : ℕ) (xs : List A)
      → (pages : ℕ) × (total_pages_of (length xs) (suc n) ≡ some pages)
        × (first_pages pages (suc n) xs ≡ xs)
        × (pages * suc n < length xs + suc n)
  total_pages_of_lem n xs =
      let (pages, reported, enough, least) = covers (length xs) n in
      (
        pages,
        reported,
        first_pages-eq-take pages (suc n) xs ∙ take_all (pages * suc n) xs enough,
        least,
      )
