-- ===== src/Recommendations/Similar/Unique.antt =====
-- The rows that are written keep the table's unique constraint, so `bulk_create` does not raise.
use gechu_backend.Base.{
  ℕ, zero, suc, ◌≡◌, refl, true, false, ◌||◌, none, List, [], ◌∷◌, ◌++◌, map, take, any, elem, All,
  IsDistinct, IsDistinct-take, arith, ◌==◌, if◌then◌else◌, Bool-cases, inl, inr,
}
use gechu_backend.Base.Dict.{Dict, nat_eq, pair_eq, lookup, get_or, IsDict}
use gechu_backend.Base.Sort.{sort_by, insert_by, descending}
use gechu_backend.Models.Recommendation.{GameSimilarity}
use gechu_backend.Recommendations.Similar.{
  group_by_game, ranked_similars, similarity_row, similarity_records, same_pair, all_unique,
  score_of,
}
use gechu_backend.Recommendations.Similar.Groups.{similars_of, get_or-group, group_by_game-IsDict}

abbrev pub firsts : List (ℕ × ℕ) → List ℕ
firsts [] = []
firsts ((s, score) ∷ l) = s ∷ firsts l

pub firsts-take : (n : ℕ) (l : List (ℕ × ℕ)) → firsts (take n l) ≡ take n (firsts l)
firsts-take zero l = refl
firsts-take (suc n) [] = refl
firsts-take (suc n) (x ∷ l) = rw (firsts-take n l)

elem-insert_by :
    (a : ℕ) (x : ℕ × ℕ) (l : List (ℕ × ℕ))
    → elem a (firsts (insert_by (descending score_of) x l)) ≡ (a == x.0 || elem a (firsts l))
elem-insert_by a x [] = refl
elem-insert_by a x (y ∷ l) = ground (arith, elem-insert_by a x l)

elem-sort_by :
    (a : ℕ) (l : List (ℕ × ℕ))
    → elem a (firsts (sort_by (descending score_of) l)) ≡ elem a (firsts l)
unfolding sort_by
elem-sort_by a [] = refl
elem-sort_by a (x ∷ l) =
    rw (elem-insert_by a x (sort_by (descending score_of) l)) (ground (arith, elem-sort_by a l))

insert_by-IsDistinct :
    (x : ℕ × ℕ) (l : List (ℕ × ℕ))
    → elem x.0 (firsts l) ≡ false
    → IsDistinct (firsts l)
    → IsDistinct (firsts (insert_by (descending score_of) x l))
insert_by-IsDistinct x [] n d = (refl, tt)
insert_by-IsDistinct x (y ∷ l) n d =
    ground (arith, elem-insert_by y.0 x l, insert_by-IsDistinct x l)

pub sort_by-IsDistinct :
    (l : List (ℕ × ℕ))
    → IsDistinct (firsts l)
    → IsDistinct (firsts (sort_by (descending score_of) l))
unfolding sort_by
sort_by-IsDistinct [] d = tt
sort_by-IsDistinct (x ∷ l) d =
    insert_by-IsDistinct x (sort_by (descending score_of) l) (rw (elem-sort_by x.0 l) d.0)
      (sort_by-IsDistinct l d.1)

pub ranked_similars-IsDistinct :
    (l : List (ℕ × ℕ)) → IsDistinct (firsts l) → IsDistinct (firsts (ranked_similars l))
unfolding ranked_similars
ranked_similars-IsDistinct l d =
    rw (firsts-take 50 (sort_by (descending score_of) l))
      (IsDistinct-take 50 (firsts (sort_by (descending score_of) l)) (sort_by-IsDistinct l d))

any-append :
    (r : GameSimilarity) (xs ys : List GameSimilarity)
    → any (same_pair r) (xs ++ ys) ≡ (any (same_pair r) xs || any (same_pair r) ys)
any-append r [] ys = refl
any-append r (x ∷ xs) ys = ground (arith, any-append r xs ys)

all_unique-append :
    (xs ys : List GameSimilarity)
    → all_unique xs ≡ true
    → all_unique ys ≡ true
    → All (λ r. any (same_pair r) ys ≡ false) xs
    → all_unique (xs ++ ys) ≡ true
all_unique-append [] ys hx hy a = hy
all_unique-append (x ∷ xs) ys hx hy a = ground (arith, any-append x xs ys, all_unique-append xs ys)

any-rows :
    (g h : ℕ) (x : ℕ × ℕ) (l : List (ℕ × ℕ))
    → any (same_pair (similarity_row g x)) (map (similarity_row h) l)
      ≡ (if g == h then elem x.0 (firsts l) else false)
any-rows g h x [] = ground arith
any-rows g h x (y ∷ l) = ground (arith, any-rows g h x l)

all_unique-rows :
    (g : ℕ) (l : List (ℕ × ℕ))
    → IsDistinct (firsts l)
    → all_unique (map (similarity_row g) l) ≡ true
all_unique-rows g [] d = refl
all_unique-rows g (x ∷ l) d = ground (arith, any-rows g g x l, all_unique-rows g l d.1)

any-records :
    (g : ℕ) (x : ℕ × ℕ) (top : Dict ℕ (List (ℕ × ℕ)))
    → lookup g top ≡ none
    → any (same_pair (similarity_row g x)) (similarity_records top) ≡ false
unfolding similarity_records
any-records g x [] h = refl
any-records g x ((k, l) ∷ top) h =
    rw
      (any-append (similarity_row g x) (map (similarity_row k) (ranked_similars l))
        (similarity_records top))
      (ground (arith, any-rows g k x (ranked_similars l), any-records g x top))

rows_apart :
    (g : ℕ) (l : List (ℕ × ℕ)) (top : Dict ℕ (List (ℕ × ℕ)))
    → lookup g top ≡ none
    → All (λ r. any (same_pair r) (similarity_records top) ≡ false) (map (similarity_row g) l)
rows_apart g [] top h = tt
rows_apart g (x ∷ l) top h = (any-records g x top h, rows_apart g l top h)

-- The groups are distinct, and in each group the games are.
abbrev IsGrouped : Dict ℕ (List (ℕ × ℕ)) → Type 0
IsGrouped [] = Unit
IsGrouped ((k, l) ∷ top) = (lookup k top ≡ none) × IsDistinct (firsts l) × IsGrouped top

all_unique-records :
    (top : Dict ℕ (List (ℕ × ℕ))) → IsGrouped top → all_unique (similarity_records top) ≡ true
unfolding similarity_records
all_unique-records [] h = refl
all_unique-records ((k, l) ∷ top) h =
    all_unique-append (map (similarity_row k) (ranked_similars l)) (similarity_records top)
      (all_unique-rows k (ranked_similars l) (ranked_similars-IsDistinct l h.1))
      (all_unique-records top h.2) (rows_apart k (ranked_similars l) top h.0)

-- A dict is grouped if each of its lists is.
IsGrouped-of_dict :
    (top : Dict ℕ (List (ℕ × ℕ)))
    → IsDict top
    → ((g : ℕ) → IsDistinct (firsts (get_or g top [])))
    → IsGrouped top
IsGrouped-of_dict [] h d = tt
IsGrouped-of_dict ((k, l) ∷ top) h d = (
  h.0,
  rw (get_or_self k l top) at (d k),
  IsGrouped-of_dict top h.1 (λ g. elim (Bool-cases (g == k)) [
    | inl e ↦ rw (get_or_missing g k top e h.0) tt
    | inr e ↦ rw (get_or_other g k l top e) at (d g)
  ]),
)
  where
    get_or_self :
        (k : ℕ) (l : List (ℕ × ℕ)) (top : Dict ℕ (List (ℕ × ℕ))) → get_or k ((k, l) ∷ top) [] ≡ l
    get_or_self k l top = ground arith

    get_or_missing :
        (g k : ℕ) (top : Dict ℕ (List (ℕ × ℕ)))
        → (g == k) ≡ true
        → lookup k top ≡ none
        → get_or g top [] ≡ []
    get_or_missing g k top e h = ground arith

    get_or_other :
        (g k : ℕ) (l : List (ℕ × ℕ)) (top : Dict ℕ (List (ℕ × ℕ)))
        → (g == k) ≡ false
        → get_or g ((k, l) ∷ top) [] ≡ get_or g top []
    get_or_other g k l top e = ground arith

similars_of-elem :
    (g s : ℕ) (pairs : Dict (ℕ × ℕ) ℕ)
    → lookup (g, s) pairs ≡ none
    → elem s (firsts (similars_of g pairs)) ≡ false
similars_of-elem g s [] h = refl
similars_of-elem g s (((x, y), v) ∷ pairs) h = ground (arith, similars_of-elem g s pairs)

pub similars_of-IsDistinct :
    (g : ℕ) (pairs : Dict (ℕ × ℕ) ℕ) → IsDict pairs → IsDistinct (firsts (similars_of g pairs))
similars_of-IsDistinct g [] h = tt
similars_of-IsDistinct g (((x, y), v) ∷ pairs) h = elim (Bool-cases (g == x)) [
  | inl e ↦
      let same : g ≡ x = ground arith in
      rw e (similars_of-elem g y pairs (rw same h.0), similars_of-IsDistinct g pairs h.1)
  | inr e ↦ rw e (similars_of-IsDistinct g pairs h.1)
]

-- From pairs that are keys of a dict no two rows are written for the same pair.
pub all_unique-similarity_records :
    (pairs : Dict (ℕ × ℕ) ℕ)
    → IsDict pairs
    → all_unique (similarity_records (group_by_game pairs [])) ≡ true
all_unique-similarity_records pairs h = all_unique-records (group_by_game pairs []) (
    IsGrouped-of_dict (group_by_game pairs []) (group_by_game-IsDict pairs [] tt)
      (λ g. rw (get_or-group g pairs) (similars_of-IsDistinct g pairs h)))
