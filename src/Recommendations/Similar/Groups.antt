-- ===== src/Recommendations/Similar/Groups.antt =====
-- The rows of one game: its scored pairs, the best ones first.
use mathlib.Core.List.{append-nil}
use gechu_backend.Base.{
  ℕ, ◌≡◌, refl, sym, ap, ◌∙◌, Bool, true, false, none, List, [], ◌∷◌, ◌++◌, map, filter,
  filter-append, arith, ◌==◌, if◌then◌else◌, Bool-cases, inl, inr,
}
use gechu_backend.Base.Dict.{
  Dict, nat_eq, lookup, insert, get_or, get_or-insert, IsDict, insert-IsDict,
}
use gechu_backend.Base.Sort.{sort_by}
use gechu_backend.Models.Recommendation.{GameSimilarity}
use gechu_backend.Recommendations.Similar.{
  group_by_game, ranked_similars, similarity_row, similarity_records,
}

-- The scored pairs of one game, in the order of the dict.
abbrev pub similars_of : ℕ → Dict (ℕ × ℕ) ℕ → List (ℕ × ℕ)
similars_of g [] = []
similars_of g (((game, similar), score) ∷ pairs) =
    if g == game then (similar, score) ∷ similars_of g pairs else similars_of g pairs

append_step : (xs ys : List (ℕ × ℕ)) (x : ℕ × ℕ) → (xs ++ x ∷ []) ++ ys ≡ xs ++ x ∷ ys
append_step [] ys x = refl
append_step (z ∷ xs) ys x = rw (append_step xs ys x)

get_or-group_from :
    (g : ℕ) (pairs : Dict (ℕ × ℕ) ℕ) (top : Dict ℕ (List (ℕ × ℕ)))
    → get_or g (group_by_game pairs top) [] ≡ get_or g top [] ++ similars_of g pairs
unfolding group_by_game
get_or-group_from g [] top = sym (append-nil (get_or g top []))
get_or-group_from g (((game, similar), score) ∷ pairs) top =
    get_or-group_from g pairs (insert game (get_or game top [] ++ (similar, score) ∷ []) top)
    ∙ rw (get_or-insert game g (get_or game top [] ++ (similar, score) ∷ []) [] top)
        (elim (Bool-cases (g == game)) [
          | inl e ↦
              let same : g ≡ game = ground arith in
              rw e (
                append_step (get_or game top []) (similars_of g pairs) (similar, score)
                ∙ ap (λ k. get_or k top [] ++ (similar, score) ∷ similars_of g pairs) (sym same))
          | inr e ↦ rw e refl
        ])

pub get_or-group :
    (g : ℕ) (pairs : Dict (ℕ × ℕ) ℕ) → get_or g (group_by_game pairs []) [] ≡ similars_of g pairs
get_or-group g pairs = get_or-group_from g pairs []

pub group_by_game-IsDict :
    (pairs : Dict (ℕ × ℕ) ℕ) (top : Dict ℕ (List (ℕ × ℕ)))
    → IsDict top
    → IsDict (group_by_game pairs top)
unfolding group_by_game
group_by_game-IsDict [] top h = h
group_by_game-IsDict (((game, similar), score) ∷ pairs) top h =
    group_by_game-IsDict pairs (insert game (get_or game top [] ++ (similar, score) ∷ []) top)
      (insert-IsDict game (get_or game top [] ++ (similar, score) ∷ []) top h)

abbrev pub is_of : ℕ → GameSimilarity → Bool
is_of g r = g == r.igdb_game_id

filter-rows_eq :
    (g h : ℕ) (l : List (ℕ × ℕ))
    → (g == h) ≡ true
    → filter (is_of g) (map (similarity_row h) l) ≡ map (similarity_row g) l
filter-rows_eq g h [] e = refl
filter-rows_eq g h (x ∷ l) e = ground (arith, filter-rows_eq g h l e)

filter-rows_ne :
    (g h : ℕ) (l : List (ℕ × ℕ))
    → (g == h) ≡ false
    → filter (is_of g) (map (similarity_row h) l) ≡ []
filter-rows_ne g h [] e = refl
filter-rows_ne g h (x ∷ l) e = ground (arith, filter-rows_ne g h l e)

ranked_nil : ranked_similars [] ≡ []
unfolding ranked_similars sort_by
ranked_nil = refl

filter-records_none :
    (g : ℕ) (top : Dict ℕ (List (ℕ × ℕ)))
    → lookup g top ≡ none
    → filter (is_of g) (similarity_records top) ≡ []
unfolding similarity_records
filter-records_none g [] h = refl
filter-records_none g ((k, l) ∷ top) h = elim (Bool-cases (g == k)) [
  | inl e ↦ ground arith
  | inr e ↦
      rw
        (filter-append (is_of g) (map (similarity_row k) (ranked_similars l))
          (similarity_records top))
        (rw (filter-rows_ne g k (ranked_similars l) e) (filter-records_none g top (ground arith)))
]

get_or_head :
    (g k : ℕ) (l : List (ℕ × ℕ)) (top : Dict ℕ (List (ℕ × ℕ)))
    → (g == k) ≡ true
    → get_or g ((k, l) ∷ top) [] ≡ l
get_or_head g k l top e = ground arith

get_or_tail :
    (g k : ℕ) (l : List (ℕ × ℕ)) (top : Dict ℕ (List (ℕ × ℕ)))
    → (g == k) ≡ false
    → get_or g ((k, l) ∷ top) [] ≡ get_or g top []
get_or_tail g k l top e = ground arith

filter-records :
    (g : ℕ) (top : Dict ℕ (List (ℕ × ℕ)))
    → IsDict top
    → filter (is_of g) (similarity_records top)
      ≡ map (similarity_row g) (ranked_similars (get_or g top []))
unfolding similarity_records
filter-records g [] h = rw ranked_nil
filter-records g ((k, l) ∷ top) h =
    filter-append (is_of g) (map (similarity_row k) (ranked_similars l)) (similarity_records top)
    ∙ elim (Bool-cases (g == k)) [
      | inl e ↦
          let same : g ≡ k = ground arith in
          rw (get_or_head g k l top e) (
            rw (filter-rows_eq g k (ranked_similars l) e) (
              rw (filter-records_none g top (rw same h.0))
                (append-nil (map (similarity_row g) (ranked_similars l)))))
      | inr e ↦
          rw (get_or_tail g k l top e)
            (rw (filter-rows_ne g k (ranked_similars l) e) (filter-records g top h.1))
    ]

-- The rows written for one game are those of its ranked pairs.
pub filter-similarity_records :
    (g : ℕ) (pairs : Dict (ℕ × ℕ) ℕ)
    → filter (is_of g) (similarity_records (group_by_game pairs []))
      ≡ map (similarity_row g) (ranked_similars (similars_of g pairs))
filter-similarity_records g pairs =
    filter-records g (group_by_game pairs []) (group_by_game-IsDict pairs [] tt)
    ∙ rw (get_or-group_from g pairs [])
