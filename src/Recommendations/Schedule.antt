-- ===== src/Recommendations/Schedule.antt =====
-- `process_pending_recommendation_jobs` of apps/recommendations/tasks.py: pending jobs are handed to
-- the workers, refreshes of users before rebuilds, at most `limit` in one round.
pub mod Pick
pub mod Results
use gechu_backend.Base.{
  ℕ, ◌-◌, ◌≡◌, Bool, true, false, not, ◌&&◌, Option, none, some, List, [], ◌∷◌, ◌++◌, map, filter,
  take, length, elem, ltb, if◌then◌else◌,
}
use gechu_backend.Base.Sort.{sort_by, ascending}
use gechu_backend.Models.{Db}
use gechu_backend.Models.Recommendation.{
  RecommendationJob, JobType, user_refresh, similarity_rebuild, Status, pending, running, success,
  failed,
}
use gechu_backend.Recommendations.Job.{type_eq}
use gechu_backend.Recommendations.Status.{created}

abbrev pub is_pending : Status → Bool
is_pending pending = true
is_pending running = false
is_pending success = false
is_pending failed = false

abbrev pub is_targeted : Option ℕ → Bool
is_targeted none = false
is_targeted (some user) = true

-- Only a refresh is asked for its user.
abbrev pub has_target : JobType → RecommendationJob → Bool
has_target user_refresh j = is_targeted j.target_user_id
has_target similarity_rebuild j = true

-- The rows of the query; `skip_locked` leaves out the rows that `locked` names.
unfoldable pub is_due : (ℕ → Bool) → JobType → RecommendationJob → Bool
is_due locked type j =
    type_eq type j.job_type && is_pending j.status && has_target type j && not (locked j.id)

abbrev pub id_of : RecommendationJob → ℕ
id_of j = j.id

unfoldable pub pending_ids : (ℕ → Bool) → JobType → ℕ → List RecommendationJob → List ℕ
pending_ids locked type limit jobs =
    map id_of (take limit (sort_by (ascending created) (filter (is_due locked type) jobs)))

unfoldable pub handed : List ℕ → RecommendationJob → RecommendationJob
handed ids j =
    if elem j.id ids && is_pending j.status
    then record j { status = running; started_at = none }
    else j

-- With no ids the update is not sent, which leaves the table as an update of no row does.
pub hand_out : List ℕ → List RecommendationJob → List RecommendationJob
hand_out ids [] = []
hand_out ids (j ∷ jobs) = handed ids j ∷ hand_out ids jobs

-- The count that is returned, the tables, and the messages to the workers in their order.
pub record Dispatch : Type 0 where
  pub count : ℕ
  pub db : Db
  pub refreshes : List ℕ
  pub rebuilds : List ℕ

-- `remaining_limit > 0`, or no second query
unfoldable pub rebuild_ids : (ℕ → Bool) → ℕ → List RecommendationJob → List ℕ
rebuild_ids locked remaining jobs =
    if ltb 0 remaining then pending_ids locked similarity_rebuild remaining jobs else []

-- `locked` and `then_locked` are the rows that other transactions hold at the two queries.
unfoldable pub process_pending_recommendation_jobs : (ℕ → Bool) → (ℕ → Bool) → ℕ → Db → Dispatch
process_pending_recommendation_jobs locked then_locked limit db =
    let refreshes = pending_ids locked user_refresh limit db.jobs in
    let jobs = hand_out refreshes db.jobs in
    let rebuilds = rebuild_ids then_locked (limit - length refreshes) jobs in
    record {
      count = length (refreshes ++ rebuilds);
      db = record db { jobs = hand_out rebuilds jobs };
      refreshes = refreshes;
      rebuilds = rebuilds;
    }
