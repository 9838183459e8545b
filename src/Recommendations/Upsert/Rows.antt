-- ===== src/Recommendations/Upsert/Rows.antt =====
-- One row is found by its user, reason and game, and the writer keeps it unique.
use gechu_backend.Base.{
  ℕ, suc, ◌≡◌, refl, true, false, ◌&&◌, Option, none, some, List, [], ◌∷◌, arith, ◌==◌,
  if◌then◌else◌, Bool-cases, inl, inr,
}
use gechu_backend.Models.Recommendation.{ReasonType, UserRecommendation}
use gechu_backend.Recommendations.Upsert.{reason_eq, is_row, update_or_create}

pub reason_same : (a b : ReasonType) → reason_eq a (some b) ≡ true → a ≡ b
reason_same a b h = ground arith

-- Reading one row of the table.
abbrev pub find_row : ℕ → ReasonType → ℕ → List UserRecommendation → Option UserRecommendation
find_row user reason game [] = none
find_row user reason game (r ∷ rows) =
    if is_row user reason game r then some r else find_row user reason game rows

-- A row that is found has the three fields, and a row with the three fields is found.
pub is_row-fields :
    (u : ℕ) (q : ReasonType) (g : ℕ) (r : UserRecommendation)
    → is_row u q g r ≡ true
    → (u ≡ r.user_id) × (g ≡ r.igdb_game_id) × (r.reason ≡ some q)
unfolding is_row
is_row-fields u q g r h = (ground arith, ground arith, ground arith)

pub fields-is_row :
    (u : ℕ) (q : ReasonType) (g : ℕ) (r : UserRecommendation)
    → u ≡ r.user_id
    → g ≡ r.igdb_game_id
    → r.reason ≡ some q
    → is_row u q g r ≡ true
unfolding is_row
fields-is_row u q g r a b c = ground arith

-- Rows with equal keys pass the same tests.
is_row_congr :
    (u : ℕ) (q : ReasonType) (g : ℕ) (r s : UserRecommendation)
    → r.user_id ≡ s.user_id
    → r.igdb_game_id ≡ s.igdb_game_id
    → r.reason ≡ s.reason
    → is_row u q g r ≡ is_row u q g s
unfolding is_row
is_row_congr u q g r s a b c = rw (a, b, c) refl

module _ (user : ℕ) (reason : ReasonType) where
  -- A row of the user with the reason.
  abbrev pub IsRowOf : UserRecommendation → Type 0
  IsRowOf r = (r.user_id ≡ user) × (r.reason ≡ some reason)

  -- The row that is overwritten has the key of the new one.
  overwritten :
      (new r : UserRecommendation) (u : ℕ) (q : ReasonType) (g : ℕ)
      → IsRowOf new
      → is_row user reason new.igdb_game_id r ≡ true
      → is_row u q g r ≡ is_row u q g new
  overwritten new r u q g own h =
      let f = is_row-fields user reason new.igdb_game_id r h in
      is_row_congr u q g r new (cc) (cc) (cc)

  -- A row that passes the new row's test by another key passes the overwriting test too.
  not_both :
      (new r : UserRecommendation) (u : ℕ) (q : ReasonType) (g : ℕ)
      → IsRowOf new
      → is_row user reason new.igdb_game_id r ≡ false
      → is_row u q g new ≡ true
      → is_row u q g r ≡ false
  not_both new r u q g own ne h = elim (Bool-cases (is_row u q g r)) [
    | inr e ↦ e
    | inl e ↦
        let f = is_row-fields u q g new h in
        let k = is_row-fields u q g r e in
        let hit = fields-is_row user reason new.igdb_game_id r (cc) (cc) (cc) in cc
  ]

  pub find-update_or_create :
      (new : UserRecommendation) (rows : List UserRecommendation) (u : ℕ) (q : ReasonType) (g : ℕ)
      → IsRowOf new
      → find_row u q g (update_or_create user reason new rows)
        ≡ (if is_row u q g new then some new else find_row u q g rows)
  unfolding update_or_create
  find-update_or_create new [] u q g own = refl
  find-update_or_create new (r ∷ rows) u q g own =
      elim (Bool-cases (is_row user reason new.igdb_game_id r)) [
        | inl e ↦ rw e (rw (overwritten new r u q g own e) (ground arith))
        | inr e ↦
            rw e
              (ground (arith, find-update_or_create new rows u q g own, not_both new r u q g own e))
      ]

-- How many rows of the table have a key; the unique constraint says that it is 1 at most.
abbrev pub times : ℕ → ReasonType → ℕ → List UserRecommendation → ℕ
times u q g [] = 0
times u q g (r ∷ rows) = if is_row u q g r then suc (times u q g rows) else times u q g rows

-- The key of the new row stands in the table afterwards, the other counts stay.
pub times-update_or_create :
    (user : ℕ) (reason : ReasonType) (new : UserRecommendation) (rows : List UserRecommendation)
    (u : ℕ) (q : ReasonType) (g : ℕ)
    → IsRowOf user reason new
    → times u q g (update_or_create user reason new rows)
      ≡ (if is_row u q g new && times u q g rows == 0 then 1 else times u q g rows)
unfolding update_or_create
times-update_or_create user reason new [] u q g own = ground arith
times-update_or_create user reason new (r ∷ rows) u q g own =
    elim (Bool-cases (is_row user reason new.igdb_game_id r)) [
      | inl e ↦ rw e (rw (overwritten user reason new r u q g own e) (ground arith))
      | inr e ↦ rw e (
          ground (
            arith,
            times-update_or_create user reason new rows u q g own,
            not_both user reason new r u q g own e,
          ))
    ]
