-- ===== src/Base/Sort.antt =====
-- Stable insertion sort by a Boolean order: Python's `sorted`, and `order_by` of a query, where
-- rows that compare equal keep the order of the table.
use gechu_backend.Base.{
  zero, suc, ap, take, All-take, All-Elem, leb→le, ◌≤◌, ℕ, ◌+◌, ◌≡◌, refl, Bool, true, List, [],
  ◌∷◌, arith, All, Elem, length, leb, if◌then◌else◌, Bool-cases, inl, inr, ◌⊎◌,
}

module _ {A : Type 0} (le : A → A → Bool) where
  abbrev pub insert_by : A → List A → List A
  insert_by x [] = x ∷ []
  insert_by x (y ∷ ys) = if le x y then x ∷ y ∷ ys else y ∷ insert_by x ys

  unfoldable pub sort_by : List A → List A
  sort_by [] = []
  sort_by (x ∷ xs) = insert_by x (sort_by xs)

  -- Every item comes before all the later ones.
  abbrev pub IsSortedBy : List A → Type 0
  IsSortedBy [] = Unit
  IsSortedBy (x ∷ xs) = All (λ y. le x y ≡ true) xs × IsSortedBy xs

module _ {A : Type 0} (le : A → A → Bool) where
  length-insert_by : (x : A) (xs : List A) → length (insert_by le x xs) ≡ length xs + 1
  length-insert_by x [] = omega arith
  length-insert_by x (y ∷ ys) = ground (arith, length-insert_by x ys)

  pub length-sort_by : (xs : List A) → length (sort_by le xs) ≡ length xs
  unfolding sort_by
  length-sort_by [] = refl
  length-sort_by (x ∷ xs) = ground (arith, length-insert_by x (sort_by le xs), length-sort_by xs)

  Elem-insert_by : (a x : A) (xs : List A) → Elem a (insert_by le x xs) → (a ≡ x) ⊎ Elem a xs
  Elem-insert_by a x [] (inl e) = inl e
  Elem-insert_by a x [] (inr e) = absurd e
  Elem-insert_by a x (y ∷ ys) h = ground (arith, Elem-insert_by a x ys)

  Elem-insert_by_intro : (a x : A) (xs : List A) → (a ≡ x) ⊎ Elem a xs → Elem a (insert_by le x xs)
  Elem-insert_by_intro a x [] h = h
  Elem-insert_by_intro a x (y ∷ ys) h = ground (arith, Elem-insert_by_intro a x ys)

  pub Elem-sort_by : (a : A) (xs : List A) → Elem a (sort_by le xs) → Elem a xs
  unfolding sort_by
  Elem-sort_by a [] h = h
  Elem-sort_by a (x ∷ xs) h = ground (arith, Elem-insert_by a x (sort_by le xs), Elem-sort_by a xs)

  pub Elem-sort_by_intro : (a : A) (xs : List A) → Elem a xs → Elem a (sort_by le xs)
  unfolding sort_by
  Elem-sort_by_intro a [] h = h
  Elem-sort_by_intro a (x ∷ xs) h =
      ground (arith, Elem-insert_by_intro a x (sort_by le xs), Elem-sort_by_intro a xs)

  All-insert_by :
      (P : A → Type 0) (x : A) (xs : List A) → P x → All P xs → All P (insert_by le x xs)
  All-insert_by P x [] px h = (px, tt)
  All-insert_by P x (y ∷ ys) px h = ground (arith, All-insert_by P x ys px)

  pub All-sort_by : (P : A → Type 0) (xs : List A) → All P xs → All P (sort_by le xs)
  unfolding sort_by
  All-sort_by P [] h = tt
  All-sort_by P (x ∷ xs) h = All-insert_by P x (sort_by le xs) h.0 (All-sort_by P xs h.1)

-- Ascending, and descending, order of a key.
module _ {A : Type 0} (key : A → ℕ) where
  abbrev pub ascending : A → A → Bool
  ascending x y = leb (key x) (key y)

  abbrev pub descending : A → A → Bool
  descending x y = leb (key y) (key x)

  -- What comes after `x`, that is at most `x`, is at most all that is above `x`.
  All-descending_trans :
      (x y : A) (xs : List A)
      → descending x y ≡ true
      → All (λ z. descending y z ≡ true) xs
      → All (λ z. descending x z ≡ true) xs
  All-descending_trans x y [] h a = tt
  All-descending_trans x y (z ∷ zs) h a = (ground arith, All-descending_trans x y zs h a.1)

  insert_by-IsSortedBy :
      (x : A) (xs : List A)
      → IsSortedBy descending xs
      → IsSortedBy descending (insert_by descending x xs)
  insert_by-IsSortedBy x [] h = (tt, tt)
  insert_by-IsSortedBy x (y ∷ ys) h = elim (Bool-cases (leb (key y) (key x))) [
    | inl e ↦ rw e ((e, All-descending_trans x y ys e h.0), h)
    | inr e ↦ rw e (
      All-insert_by descending (λ z. descending y z ≡ true) x ys (ground arith) h.0,
      insert_by-IsSortedBy x ys h.1,
    )
  ]

  -- `sorted(..., key=..., reverse=True)` is in descending order.
  pub sort_by-IsSortedBy : (xs : List A) → IsSortedBy descending (sort_by descending xs)
  unfolding sort_by
  sort_by-IsSortedBy [] = tt
  sort_by-IsSortedBy (x ∷ xs) =
      insert_by-IsSortedBy x (sort_by descending xs) (sort_by-IsSortedBy xs)

module _ {A : Type 0} (key : A → ℕ) where
  -- What a cut of a list in descending order leaves out is no larger than anything it keeps, and is
  -- left out only if the cut is full.
  pub take-IsSortedBy :
      (a : A) (n : ℕ) (xs : List A)
      → IsSortedBy (descending key) xs
      → Elem a xs
      → Elem a (take n xs) ⊎ ((length (take n xs) ≡ n) × All (λ y. key a ≤ key y) (take n xs))
  take-IsSortedBy a zero xs h e = inr (refl, tt)
  take-IsSortedBy a (suc n) [] h e = absurd e
  take-IsSortedBy a (suc n) (x ∷ xs) h (inl e) = inl (inl e)
  take-IsSortedBy a (suc n) (x ∷ xs) h (inr e) = elim (take-IsSortedBy a n xs h.1 e) [
    | inl kept ↦ inl (inr kept)
    | inr (full, below) ↦ inr (
      ap suc full,
      (leb→le (key a) (key x) (All-Elem (λ z. leb (key z) (key x) ≡ true) a xs h.0 e), below),
    )
  ]

  pub IsSortedBy-take :
      (n : ℕ) (xs : List A)
      → IsSortedBy (descending key) xs
      → IsSortedBy (descending key) (take n xs)
  IsSortedBy-take zero xs h = tt
  IsSortedBy-take (suc n) [] h = tt
  IsSortedBy-take (suc n) (x ∷ xs) h =
      (All-take (λ z. descending key x z ≡ true) n xs h.0, IsSortedBy-take n xs h.1)
