-- ===== src/Recommendations/Status/Ready.antt =====
-- How readiness and the status that is shown belong together.
use gechu_backend.Base.{
  ℕ, ◌≡◌, ◌⊎◌, ◌↔◌, Bool, true, false, Option, none, some, List, any, arith, if◌then◌else◌,
  Bool-cases, inl, inr,
}
use gechu_backend.Models.{Db}
use gechu_backend.Models.Recommendation.{RecommendationJob, success, failed, UserRecommendation}
use gechu_backend.Recommendations.Status.{
  is_user_row, newer_first, latest_recommendation, get_latest_user_refresh_job, shown_status,
  get_status, blocks, is_recommendation_ready,
}
use gechu_backend.Recommendations.Status.Latest.{first-sort_by, first-sort_by_absent}

-- A user is ready when nothing is under way, and there is something to show.
abbrev IsShown : Option UserRecommendation → Bool → Type 0
IsShown none has_rows = has_rows ≡ false
IsShown (some r) has_rows = has_rows ≡ true

latest-IsShown :
    (user : ℕ) (rows : List UserRecommendation)
    → IsShown (latest_recommendation user rows) (any (is_user_row user) rows)
unfolding latest_recommendation
latest-IsShown user rows = elim (Bool-cases (any (is_user_row user) rows)) [
  | inl e ↦ let (r, found) = first-sort_by newer_first (is_user_row user) rows e in rw found e
  | inr e ↦ rw (first-sort_by_absent newer_first (is_user_row user) rows e) e
]

ready_of :
    (job : Option RecommendationJob) (latest : Option UserRecommendation) (has_rows : Bool)
    → IsShown latest has_rows
    → ((if blocks job then false else has_rows) ≡ true) ↔ (
        (shown_status job latest ≡ success)
        ⊎ ((shown_status job latest ≡ failed) × (has_rows ≡ true)))
unfolding blocks shown_status
ready_of none none has_rows e = ground arith
ready_of none (some r) has_rows e = ground arith
ready_of (some job) none has_rows e = ground arith
ready_of (some job) (some r) has_rows e = ground arith

-- A user's recommendations are ready exactly when the status that is shown is success, or it is
-- failed and the user still has recommendations.
pub is_recommendation_ready_iff :
    (user : ℕ) (db : Db)
    → let status = (get_status user db).status in
      (is_recommendation_ready user db ≡ true) ↔ (
        (status ≡ success)
        ⊎ ((status ≡ failed) × (any (is_user_row user) db.recommendations ≡ true)))
unfolding is_recommendation_ready get_status
is_recommendation_ready_iff user db =
    ready_of (get_latest_user_refresh_job user db.jobs)
      (latest_recommendation user db.recommendations) (any (is_user_row user) db.recommendations)
      (latest-IsShown user db.recommendations)
