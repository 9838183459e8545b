-- ===== src/Recommendations/Status/Latest.antt =====
-- The first row of a sorted table.
use gechu_backend.Base.{
  ℕ, ◌≡◌, refl, ◌∙◌, ap, ◌<◌, Bool, true, false, none, some, List, [], ◌∷◌, ◌++◌, filter, first,
  any, All, arith, leb, Bool-cases, inl, inr, filter-append,
}
use gechu_backend.Base.Sort.{insert_by, sort_by, descending}

module _ {A : Type 0} (le : A → A → Bool) where
  insert_by-first : (x : A) (xs : List A) → (a : A) × (first (insert_by le x xs) ≡ some a)
  insert_by-first x [] = (x, refl)
  insert_by-first x (y ∷ ys) = elim (Bool-cases (le x y)) [
    | inl e ↦ (x, rw e refl)
    | inr e ↦ (y, rw e refl)
  ]

  -- A table has a first row if it has a row.
  pub first-sort_by :
      (p : A → Bool) (xs : List A)
      → any p xs ≡ true
      → (a : A) × (first (sort_by le (filter p xs)) ≡ some a)
  unfolding sort_by
  first-sort_by p [] h = cc
  first-sort_by p (x ∷ xs) h = elim (Bool-cases (p x)) [
    | inl e ↦ rw e (insert_by-first x (sort_by le (filter p xs)))
    | inr e ↦ rw e (first-sort_by p xs (rw e at h))
  ]

  pub first-sort_by_absent :
      (p : A → Bool) (xs : List A) → any p xs ≡ false → first (sort_by le (filter p xs)) ≡ none
  unfolding sort_by
  first-sort_by_absent p [] h = refl
  first-sort_by_absent p (x ∷ xs) h = elim (Bool-cases (p x)) [
    | inl e ↦ absurd (ground arith)
    | inr e ↦ rw e (first-sort_by_absent p xs (rw e at h))
  ]

module _ {A : Type 0} (key : A → ℕ) where
  -- A row that is added later than all others comes first.
  pub sort_by-append :
      (n : A) (xs : List A)
      → All (λ x. key x < key n) xs
      → (ys : List A) × (sort_by (descending key) (xs ++ n ∷ []) ≡ n ∷ ys)
  unfolding sort_by
  sort_by-append n [] h = ([], refl)
  sort_by-append n (x ∷ xs) h =
      let (ys, e) = sort_by-append n xs h.1 in
      let later : leb (key n) (key x) ≡ false = ground (arith, h.0) in
      (insert_by (descending key) x ys, ap (insert_by (descending key) x) e ∙ rw later)

  pub first-sort_by_append :
      (p : A → Bool) (n : A) (xs : List A)
      → All (λ x. key x < key n) xs
      → p n ≡ true
      → first (sort_by (descending key) (filter p (xs ++ n ∷ []))) ≡ some n
  first-sort_by_append p n xs h e =
      let (ys, sorted) = sort_by-append n (filter p xs) (kept p xs h) in
      ap (λ l. first (sort_by (descending key) l)) (filter-append p xs (n ∷ []) ∙ rw e)
      ∙ ap first sorted
    where
      kept :
          (p : A → Bool) (xs : List A)
          → All (λ x. key x < key n) xs
          → All (λ x. key x < key n) (filter p xs)
      kept p [] h = tt
      kept p (x ∷ xs) h = elim (Bool-cases (p x)) [
        | inl e ↦ rw e (h.0, kept p xs h.1)
        | inr e ↦ rw e (kept p xs h.1)
      ]
