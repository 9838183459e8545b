-- ===== src/Recommendations/Job/Refresh.antt =====
-- What a refresh of one user's recommendations leaves in the table.
use gechu_backend.Base.{
  ℕ, ◌+◌, ◌≡◌, ◌≢◌, refl, ◌∙◌, sym, ◌≤◌, ◌<◌, some, List, [], ◌∷◌, filter, first, All, arith, ◌==◌,
  Bool, true, false, not, ◌&&◌,
}
use gechu_backend.Core.Errors.{ok}
use gechu_backend.Models.{Db}
use gechu_backend.Models.User.{User as UserRow}
use gechu_backend.Models.Recommendation.{ReasonType, similarity, preference, UserRecommendation}
use gechu_backend.Recommendations.Candidates.{
  collect_seed_game_ids, build_similarity_candidates, collect_preference_candidates,
}
use gechu_backend.Recommendations.Candidates.Results.{
  build_similarity_candidates_top, collect_preference_candidates_ranked,
}
use gechu_backend.Recommendations.Upsert.{upsert_recommendations}
use gechu_backend.Recommendations.Upsert.Rows.{find_row}
use gechu_backend.Recommendations.Upsert.Results.{wanted, IsEarlier, upsert_recommendations_rows}
use gechu_backend.Recommendations.Upsert.Earlier.{upsert_recommendations-IsEarlier}
use gechu_backend.Recommendations.Upsert.Others.{is_own, filter-upsert_recommendations}
use gechu_backend.Recommendations.Job.{Env, max_generation, refresh_user}

-- The next generation is above every row of the user.
abbrev IsBelow : ℕ → ℕ → UserRecommendation → Type 0
IsBelow user generation r = user ≡ r.user_id → r.generation_version < generation

IsBelow-weaken :
    (user g h : ℕ) (rows : List UserRecommendation)
    → g ≤ h
    → All (IsBelow user g) rows
    → All (IsBelow user h) rows
IsBelow-weaken user g h [] le a = tt
IsBelow-weaken user g h (r ∷ rows) le a =
    (λ e. let below = a.0 e in omega arith, IsBelow-weaken user g h rows le a.1)

max_generation-IsBelow :
    (user : ℕ) (rows : List UserRecommendation)
    → All (IsBelow user (max_generation user rows + 1)) rows
unfolding max_generation
max_generation-IsBelow user [] = tt
max_generation-IsBelow user (r ∷ rows) = (
  λ e. ground arith,
  IsBelow-weaken user (max_generation user rows + 1) _ rows (ground arith)
      (max_generation-IsBelow user rows),
)

module _ (user : ℕ) (reason : ReasonType) (generation : ℕ) where
  IsBelow-IsEarlier :
      (rows : List UserRecommendation)
      → All (IsBelow user generation) rows
      → All (IsEarlier user reason generation 0) rows
  IsBelow-IsEarlier [] a = tt
  IsBelow-IsEarlier (r ∷ rows) a = (λ e f. a.0 (sym e), IsBelow-IsEarlier rows a.1)

-- The rows of a user and reason are those of a list of candidates, in a generation.
abbrev pub HasRows : ℕ → ReasonType → ℕ → ℕ → List (ℕ × ℕ) → List UserRecommendation → Type 0
HasRows user reason generation now candidates rows =
    (game : ℕ)
    → find_row user reason game rows ≡ wanted user reason generation now game 1 candidates

refresh_user_lem :
    (env : Env) (user : ℕ) (row : UserRow) (seeds : List ℕ) (preferred : List (ℕ × ℕ)) (db : Db)
    → first (filter (λ u. user == u.id) db.users) ≡ some row
    → collect_seed_game_ids env.search user db.interaction_logs db.preferences ≡ ok seeds
    → collect_preference_candidates env.search user db.preferences ≡ ok preferred
    → let generation = max_generation user db.recommendations + 1 in
      let similar = build_similarity_candidates seeds db.similarities in
      refresh_user env user db ≡ (
        ok tt,
        record db {
          recommendations =
              upsert_recommendations user preference generation env.preferred_at preferred (
                upsert_recommendations user similarity generation env.similar_at similar
                  db.recommendations);
        },
      )
unfolding refresh_user
refresh_user_lem env user row seeds preferred db known seeded found =
    rw known (rw seeded (rw found))

reason_apart : preference ≢ similarity
reason_apart e = cc

similarity_apart : (u user : ℕ) → ¬ ((u ≡ user) × (similarity ≡ preference))
similarity_apart u user (same, e) = cc

preference_apart : (u user : ℕ) → ¬ ((u ≡ user) × (preference ≡ similarity))
preference_apart u user (same, e) = cc

-- A row that is neither of the two reasons of the user
abbrev pub is_other : ℕ → UserRecommendation → Bool
is_other user r = not (is_own user similarity r) && not (is_own user preference r)

similarity-is_other :
    (user : ℕ) (r : UserRecommendation) → is_own user similarity r ≡ true → is_other user r ≡ false
similarity-is_other user r own = rw own refl

preference-is_other :
    (user : ℕ) (r : UserRecommendation) → is_own user preference r ≡ true → is_other user r ≡ false
preference-is_other user r own = ground arith

-- If the user exists and the searches of the refresh return, the refresh returns: the user's rows
-- of reason similarity are then the similar games of the seeds, those of reason preference the
-- preferred games, both in the generation after the highest one of the user so far. All other rows,
-- those of other users, of another reason and of no reason, are there as before and in their order,
-- and no other table has changed.
pub refresh_user_rows :
    (env : Env) (user : ℕ) (row : UserRow) (seeds : List ℕ) (preferred : List (ℕ × ℕ)) (db : Db)
    → first (filter (λ u. user == u.id) db.users) ≡ some row
    → collect_seed_game_ids env.search user db.interaction_logs db.preferences ≡ ok seeds
    → collect_preference_candidates env.search user db.preferences ≡ ok preferred
    → let (result, db') = refresh_user env user db in
      let generation = max_generation user db.recommendations + 1 in
      let similar = build_similarity_candidates seeds db.similarities in
      (result ≡ ok tt)
      × (db' ≡ record db { recommendations = db'.recommendations })
      × HasRows user similarity generation env.similar_at similar db'.recommendations
      × HasRows user preference generation env.preferred_at preferred db'.recommendations
      × (filter (is_other user) db'.recommendations ≡ filter (is_other user) db.recommendations)
refresh_user_rows env user row seeds preferred db known seeded found =
    let generation = max_generation user db.recommendations + 1 in
    let similar = build_similarity_candidates seeds db.similarities in
    let once =
      upsert_recommendations user similarity generation env.similar_at similar db.recommendations in
    let below = max_generation-IsBelow user db.recommendations in
    let earlier = IsBelow-IsEarlier user similarity generation db.recommendations below in
    let later =
      upsert_recommendations-IsEarlier user preference generation similarity reason_apart
        env.similar_at similar db.recommendations
        (IsBelow-IsEarlier user preference generation db.recommendations below) in
    let first_rows =
      upsert_recommendations_rows user similarity generation env.similar_at similar
        db.recommendations (build_similarity_candidates_top seeds db.similarities).1 earlier in
    let second_rows =
      upsert_recommendations_rows user preference generation env.preferred_at preferred once
        (collect_preference_candidates_ranked env.search user db.preferences preferred found).1
        later in
    rw (refresh_user_lem env user row seeds preferred db known seeded found) (
      refl,
      refl,
      λ game. second_rows.1 user similarity game (similarity_apart user user) ∙ first_rows.0 game,
      second_rows.0,
      filter-upsert_recommendations user preference (is_other user)
            (λ r own. preference-is_other user r own) generation env.preferred_at preferred once
          ∙ filter-upsert_recommendations user similarity (is_other user)
              (λ r own. similarity-is_other user r own) generation env.similar_at similar
              db.recommendations,
    )
