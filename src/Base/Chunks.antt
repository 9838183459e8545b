-- ===== src/Base/Chunks.antt =====
-- A list cut into pieces of a size, as `for i in range(0, len(xs), size): xs[i : i + size]` does.
use gechu_backend.Base.{
  ℕ, zero, suc, ◌+◌, ◌≤◌, ◌<◌, ◌≡◌, refl, ap, ◌⊎◌, inl, inr, List, [], ◌∷◌, ◌++◌, arith, length,
  take, drop, length-take-le,
}

zero_plus : (m : ℕ) → 0 + m ≡ m
zero_plus m = omega arith

suc_plus : (n m : ℕ) → suc n + m ≡ suc (n + m)
suc_plus n m = omega arith

module _ {A : Type 0} where
  -- One piece for each unit of fuel; the length of the list is enough.
  unfoldable pub pieces : ℕ → ℕ → List A → List (List A)
  pieces zero size xs = []
  pieces (suc fuel) size [] = []
  pieces (suc fuel) size (x ∷ xs) = take size (x ∷ xs) ∷ pieces fuel size (drop size (x ∷ xs))

  unfoldable pub chunks : ℕ → List A → List (List A)
  unfolding pieces
  chunks size xs = pieces (length xs) size xs

  unfoldable pub concat : List (List A) → List A
  concat [] = []
  concat (xs ∷ xss) = xs ++ concat xss

  pub take-++-drop : (n : ℕ) (xs : List A) → take n xs ++ drop n xs ≡ xs
  take-++-drop zero xs = refl
  take-++-drop (suc n) [] = refl
  take-++-drop (suc n) (x ∷ xs) = ap (λ ys. x ∷ ys) (take-++-drop n xs)

  length-drop-lt :
      (n : ℕ) (x : A) (xs : List A) → 0 < n → length (drop n (x ∷ xs)) < length (x ∷ xs)
  length-drop-lt zero x xs h = absurd (omega arith)
  length-drop-lt (suc zero) x xs h = omega arith
  length-drop-lt (suc (suc n)) x [] h = omega arith
  length-drop-lt (suc (suc n)) x (y ∷ xs) h =
      omega (arith, length-drop-lt (suc n) y xs (omega arith))

  concat-pieces :
      (fuel size : ℕ) (xs : List A)
      → 0 < size
      → length xs ≤ fuel
      → concat (pieces fuel size xs) ≡ xs
  unfolding pieces concat
  concat-pieces zero size [] h le = refl
  concat-pieces zero size (x ∷ xs) h le = absurd (omega arith)
  concat-pieces (suc fuel) size [] h le = refl
  concat-pieces (suc fuel) size (x ∷ xs) h le =
      rw
        (concat-pieces fuel size (drop size (x ∷ xs)) h (omega (arith, length-drop-lt size x xs h)))
        (take-++-drop size (x ∷ xs))

  -- The pieces put together are the list.
  pub concat-chunks : (size : ℕ) (xs : List A) → 0 < size → concat (chunks size xs) ≡ xs
  unfolding chunks
  concat-chunks size xs h = concat-pieces (length xs) size xs h (omega arith)

  -- Every piece but the last has the whole size, and the last has something.
  abbrev pub AreFull : ℕ → List (List A) → Type 0
  AreFull size [] = Unit
  AreFull size (p ∷ []) = (0 < length p) × (length p ≤ size)
  AreFull size (p ∷ q ∷ ps) = (length p ≡ size) × AreFull size (q ∷ ps)

  pieces_nil : (fuel size : ℕ) → pieces fuel size [] ≡ []
  unfolding pieces
  pieces_nil zero size = refl
  pieces_nil (suc fuel) size = refl

  -- What is left after a piece tells that the piece was whole.
  length-take_full :
      (n : ℕ) (xs : List A) (y : A) (ys : List A) → drop n xs ≡ y ∷ ys → length (take n xs) ≡ n
  length-take_full zero xs y ys h = refl
  length-take_full (suc n) [] y ys h = cc
  length-take_full (suc n) (x ∷ xs) y ys h = omega (arith, length-take_full n xs y ys h)

  cons-AreFull :
      (size : ℕ) (p : List A) (ps : List (List A))
      → (0 < length p) × (length p ≤ size)
      → (ps ≡ []) ⊎ (length p ≡ size)
      → AreFull size ps
      → AreFull size (p ∷ ps)
  cons-AreFull size p [] small whole h = small
  cons-AreFull size p (q ∷ ps) small (inl none_left) h = cc
  cons-AreFull size p (q ∷ ps) small (inr whole) h = (whole, h)

  pieces-AreFull : (fuel size : ℕ) (xs : List A) → AreFull (suc size) (pieces fuel (suc size) xs)
  unfolding pieces
  pieces-AreFull zero size xs = tt
  pieces-AreFull (suc fuel) size [] = tt
  pieces-AreFull (suc fuel) size (x ∷ xs) =
      cons-AreFull (suc size) (take (suc size) (x ∷ xs))
        (pieces fuel (suc size) (drop (suc size) (x ∷ xs)))
        (omega arith, length-take-le (suc size) (x ∷ xs)) (rest (drop (suc size) (x ∷ xs)) refl)
        (pieces-AreFull fuel size (drop (suc size) (x ∷ xs)))
    where
      rest :
          (left : List A)
          → drop (suc size) (x ∷ xs) ≡ left
          → (pieces fuel (suc size) left ≡ []) ⊎ (length (take (suc size) (x ∷ xs)) ≡ suc size)
      rest [] e = inl (pieces_nil fuel (suc size))
      rest (y ∷ ys) e = inr (length-take_full (suc size) (x ∷ xs) y ys e)

  pub chunks-AreFull : (size : ℕ) (xs : List A) → AreFull (suc size) (chunks (suc size) xs)
  unfolding chunks
  chunks-AreFull size xs = pieces-AreFull (length xs) size xs

  pub take-nil : (n : ℕ) → take {A = A} n [] ≡ []
  take-nil zero = refl
  take-nil (suc n) = refl

  pub take_all : (n : ℕ) (xs : List A) → length xs ≤ n → take n xs ≡ xs
  take_all zero [] h = refl
  take_all zero (x ∷ xs) h = absurd (omega arith)
  take_all (suc n) [] h = refl
  take_all (suc n) (x ∷ xs) h = ap (λ ys. x ∷ ys) (take_all n xs (omega arith))

  -- A piece that is not full is the whole rest.
  pub take_short : (n : ℕ) (xs : List A) → length (take n xs) < n → take n xs ≡ xs
  take_short zero xs h = absurd (omega arith)
  take_short (suc n) [] h = refl
  take_short (suc n) (x ∷ xs) h = ap (λ ys. x ∷ ys) (take_short n xs (omega arith))

  pub take_nothing : (n : ℕ) (xs : List A) → 0 < n → take n xs ≡ [] → xs ≡ []
  take_nothing zero xs h e = absurd (omega arith)
  take_nothing (suc n) [] h e = refl
  take_nothing (suc n) (x ∷ xs) h e = cc

  pub take-add : (n m : ℕ) (xs : List A) → take (n + m) xs ≡ take n xs ++ take m (drop n xs)
  take-add zero m xs = rw (zero_plus m) refl
  take-add (suc n) m [] = rw (take-nil (suc n + m), take-nil m) refl
  take-add (suc n) m (x ∷ xs) = rw (suc_plus n m) (ap (λ ys. x ∷ ys) (take-add n m xs))

  pub drop-nil : (n : ℕ) → drop {A = A} n [] ≡ []
  drop-nil zero = refl
  drop-nil (suc n) = refl

  pub drop-add : (n m : ℕ) (xs : List A) → drop (n + m) xs ≡ drop m (drop n xs)
  drop-add zero m xs = rw (zero_plus m) refl
  drop-add (suc n) m [] = rw (drop-nil (suc n + m), drop-nil m) refl
  drop-add (suc n) m (x ∷ xs) = rw (suc_plus n m) (drop-add n m xs)
