-- ===== src/Recommendations/Upsert/Results.antt =====
-- What `_upsert_recommendations` leaves in the table.
use gechu_backend.Base.{
  ℕ, ◌+◌, ◌≡◌, refl, ◌∙◌, sym, ◌<◌, Bool, true, false, not, Option, none, some, List, [], ◌∷◌,
  filter, elem, All, IsDistinct, arith, ◌==◌, if◌then◌else◌, Bool-cases, Option-cases, inl, inr,
}
use gechu_backend.Models.Recommendation.{ReasonType, UserRecommendation}
use gechu_backend.Recommendations.Similar.Unique.{firsts}
use gechu_backend.Recommendations.Upsert.{
  reason_eq, is_row, update_or_create, new_row, upsert_from, is_stale, upsert_recommendations,
}
use gechu_backend.Recommendations.Upsert.Rows.{find_row, is_row-fields, find-update_or_create}

reason_eq_refl : (q : ReasonType) → reason_eq q (some q) ≡ true
reason_eq_refl q = ground arith

module _ (user : ℕ) (reason : ReasonType) (generation now : ℕ) where
  -- The row that the candidate list asks for: the game at its place, counted from `rank`.
  abbrev pub wanted : ℕ → ℕ → List (ℕ × ℕ) → Option UserRecommendation
  wanted game rank [] = none
  wanted game rank (c ∷ candidates) =
      if game == c.0
      then some (new_row user reason generation now rank c)
      else wanted game (rank + 1) candidates

  abbrev or_else : Option UserRecommendation → Option UserRecommendation → Option UserRecommendation
  or_else none old = old
  or_else (some r) old = some r

  is_row-new_row :
      (game rank : ℕ) (c : ℕ × ℕ)
      → is_row user reason game (new_row user reason generation now rank c) ≡ (game == c.0)
  unfolding is_row
  is_row-new_row game rank c = ground (arith, reason_eq_refl reason)

  is_row-new_row_ne :
      (u game rank : ℕ) (q : ReasonType) (c : ℕ × ℕ)
      → ¬ ((u ≡ user) × (q ≡ reason))
      → is_row u q game (new_row user reason generation now rank c) ≡ false
  is_row-new_row_ne u game rank q c other =
      elim (Bool-cases (is_row u q game (new_row user reason generation now rank c))) [
        | inr e ↦ e
        | inl e ↦
            let f = is_row-fields u q game (new_row user reason generation now rank c) e in
            absurd (other (f.0, cc))
      ]

  wanted_absent :
      (game rank : ℕ) (candidates : List (ℕ × ℕ))
      → elem game (firsts candidates) ≡ false
      → wanted game rank candidates ≡ none
  wanted_absent game rank [] h = refl
  wanted_absent game rank (c ∷ candidates) h =
      ground (arith, wanted_absent game (rank + 1) candidates)

  find-upsert_from :
      (game rank : ℕ) (candidates : List (ℕ × ℕ)) (rows : List UserRecommendation)
      → IsDistinct (firsts candidates)
      → find_row user reason game (upsert_from user reason generation now rank candidates rows)
        ≡ or_else (wanted game rank candidates) (find_row user reason game rows)
  unfolding upsert_from
  find-upsert_from game rank [] rows d = refl
  find-upsert_from game rank (c ∷ candidates) rows d =
      let new = new_row user reason generation now rank c in
      find-upsert_from game (rank + 1) candidates (update_or_create user reason new rows) d.1
      ∙ rw (find-update_or_create user reason new rows user reason game (refl, refl)) (
          rw (is_row-new_row game rank c) (elim (Bool-cases (game == c.0)) [
            | inl e ↦
                let same : game ≡ c.0 = ground arith in
                rw e (rw (wanted_absent game (rank + 1) candidates (rw same d.0)))
            | inr e ↦ rw e refl
          ]))

  find-upsert_from_ne :
      (u : ℕ) (q : ReasonType) (game rank : ℕ) (candidates : List (ℕ × ℕ))
      (rows : List UserRecommendation)
      → ¬ ((u ≡ user) × (q ≡ reason))
      → find_row u q game (upsert_from user reason generation now rank candidates rows)
        ≡ find_row u q game rows
  unfolding upsert_from
  find-upsert_from_ne u q game rank [] rows other = refl
  find-upsert_from_ne u q game rank (c ∷ candidates) rows other =
      let new = new_row user reason generation now rank c in
      find-upsert_from_ne u q game (rank + 1) candidates (update_or_create user reason new rows)
        other
      ∙ rw (find-update_or_create user reason new rows u q game (refl, refl))
          (rw (is_row-new_row_ne u game rank q c other))

  abbrev stays : UserRecommendation → Bool
  stays r = not (is_stale user reason generation r)

  is_stale-own :
      (game : ℕ) (r : UserRecommendation)
      → is_row user reason game r ≡ true
      → is_stale user reason generation r ≡ not (generation == r.generation_version)
  unfolding is_stale
  is_stale-own game r h =
      let f = is_row-fields user reason game r h in ground (arith, reason_eq_refl reason)

  is_stale-fields :
      (r : UserRecommendation)
      → is_stale user reason generation r ≡ true
      → (user ≡ r.user_id) × (r.reason ≡ some reason)
  unfolding is_stale
  is_stale-fields r e = (ground arith, ground arith)

  is_stale-ne :
      (u : ℕ) (q : ReasonType) (game : ℕ) (r : UserRecommendation)
      → ¬ ((u ≡ user) × (q ≡ reason))
      → is_row u q game r ≡ true
      → is_stale user reason generation r ≡ false
  is_stale-ne u q game r other h = elim (Bool-cases (is_stale user reason generation r)) [
    | inr e ↦ e
    | inl e ↦
        let f = is_row-fields u q game r h in let s = is_stale-fields r e in absurd (other (cc, cc))
  ]

  find-filter_kept :
      (game : ℕ) (rows : List UserRecommendation) (r : UserRecommendation)
      → find_row user reason game rows ≡ some r
      → generation ≡ r.generation_version
      → find_row user reason game (filter stays rows) ≡ some r
  find-filter_kept game [] r h new = cc
  find-filter_kept game (q ∷ rows) r h new =
      ground (arith, is_stale-own game q, find-filter_kept game rows r)

  find-filter_gone :
      (game : ℕ) (rows : List UserRecommendation)
      → All (λ r. is_row user reason game r ≡ true → r.generation_version < generation) rows
      → find_row user reason game (filter stays rows) ≡ none
  find-filter_gone game [] h = refl
  find-filter_gone game (q ∷ rows) h =
      ground (arith, is_stale-own game q, h.0, find-filter_gone game rows h.1)

  find-filter_ne :
      (u : ℕ) (q : ReasonType) (game : ℕ) (rows : List UserRecommendation)
      → ¬ ((u ≡ user) × (q ≡ reason))
      → find_row u q game (filter stays rows) ≡ find_row u q game rows
  find-filter_ne u q game [] other = refl
  find-filter_ne u q game (r ∷ rows) other =
      ground (arith, is_stale-ne u q game r other, find-filter_ne u q game rows other)

  -- Rows of a game that is no candidate are left as they are by the loop.
  abbrev Old : ℕ → UserRecommendation → Type 0
  Old game r = is_row user reason game r ≡ true → r.generation_version < generation

  update_or_create-Old :
      (game : ℕ) (new : UserRecommendation) (rows : List UserRecommendation)
      → Old game new
      → All (Old game) rows
      → All (Old game) (update_or_create user reason new rows)
  unfolding update_or_create
  update_or_create-Old game new [] n h = (n, tt)
  update_or_create-Old game new (r ∷ rows) n h =
      elim (Bool-cases (is_row user reason new.igdb_game_id r)) [
        | inl e ↦ rw e (n, h.1)
        | inr e ↦ rw e (h.0, update_or_create-Old game new rows n h.1)
      ]

  upsert_from-Old :
      (game rank : ℕ) (candidates : List (ℕ × ℕ)) (rows : List UserRecommendation)
      → elem game (firsts candidates) ≡ false
      → All (Old game) rows
      → All (Old game) (upsert_from user reason generation now rank candidates rows)
  unfolding upsert_from
  upsert_from-Old game rank [] rows out h = h
  upsert_from-Old game rank (c ∷ candidates) rows out h =
      let new = new_row user reason generation now rank c in
      upsert_from-Old game (rank + 1) candidates (update_or_create user reason new rows)
        (ground arith)
        (update_or_create-Old game new rows
          (λ hit. absurd (ground (arith, is_row-new_row game rank c))) h)

  wanted-generation :
      (game rank : ℕ) (candidates : List (ℕ × ℕ)) (r : UserRecommendation)
      → wanted game rank candidates ≡ some r
      → generation ≡ r.generation_version
  wanted-generation game rank [] r h = cc
  wanted-generation game rank (c ∷ candidates) r h =
      ground (arith, wanted-generation game (rank + 1) candidates r)

  absent_of_wanted :
      (game rank : ℕ) (candidates : List (ℕ × ℕ))
      → wanted game rank candidates ≡ none
      → elem game (firsts candidates) ≡ false
  absent_of_wanted game rank [] h = refl
  absent_of_wanted game rank (c ∷ candidates) h =
      ground (arith, absent_of_wanted game (rank + 1) candidates)

  -- A row of the user with the reason is of an earlier generation.
  abbrev pub IsEarlier : UserRecommendation → Type 0
  IsEarlier r = r.user_id ≡ user → r.reason ≡ some reason → r.generation_version < generation

  IsEarlier-Old :
      (game : ℕ) (rows : List UserRecommendation) → All IsEarlier rows → All (Old game) rows
  IsEarlier-Old game [] h = tt
  IsEarlier-Old game (r ∷ rows) h = (
    λ hit. let f = is_row-fields user reason game r hit in h.0 (sym f.0) f.2,
    IsEarlier-Old game rows h.1,
  )

  pub upsert_recommendations_rows :
      (candidates : List (ℕ × ℕ)) (rows : List UserRecommendation)
      → IsDistinct (firsts candidates)
      → All IsEarlier rows
      → let rows' = upsert_recommendations user reason generation now candidates rows in
        ((game : ℕ) → find_row user reason game rows' ≡ wanted game 1 candidates)
        × ((u : ℕ) (q : ReasonType) (game : ℕ)
            → ¬ ((u ≡ user) × (q ≡ reason))
            → find_row u q game rows' ≡ find_row u q game rows)
  unfolding upsert_recommendations
  upsert_recommendations_rows candidates rows d earlier =
      let written = upsert_from user reason generation now 1 candidates rows in
      (
        λ game. elim (Option-cases (wanted game 1 candidates)) [
          | inl e ↦
              let absent = absent_of_wanted game 1 candidates e in
              let old =
                upsert_from-Old game 1 candidates rows absent (IsEarlier-Old game rows earlier) in
              rw e (find-filter_gone game written old)
          | inr (r, e) ↦
              let found = find-upsert_from game 1 candidates rows d in
              rw e (
                find-filter_kept game written r (found ∙ rw e)
                  (wanted-generation game 1 candidates r e))
        ],
        λ u q game other.
            find-filter_ne u q game written other
            ∙ find-upsert_from_ne u q game 1 candidates rows other,
      )
