-- ===== src/Recommendations/Status.antt =====
-- apps/recommendations/services.py: what a user and an administrator see of jobs and recommendations,
-- and how a job is enqueued. The identity and the creation time of a new row are arguments.
pub mod Latest
pub mod Ready
pub mod Enqueue
use gechu_backend.Base.{
  ℕ, ◌≡◌, Bool, true, false, ◌&&◌, ◌||◌, Option, none, some, List, [], ◌∷◌, ◌++◌, filter, first,
  any, ltb, leb, ◌==◌, if◌then◌else◌,
}
use gechu_backend.Base.Sort.{sort_by, ascending, descending}
use gechu_backend.Core.Errors.{Error, api, job_already_running, Result, ok, err}
use gechu_backend.Core.Exec.{Exec}
use gechu_backend.Models.{Db}
use gechu_backend.Models.Recommendation.{
  RecommendationJob, JobType, user_refresh, similarity_rebuild, Status, pending, running, success,
  failed, ReasonType, UserRecommendation,
}
use gechu_backend.Recommendations.Upsert.{reason_eq}
use gechu_backend.Recommendations.Job.{type_eq, job_of}

abbrev pub is_for : Option ℕ → Option ℕ → Bool
is_for none none = true
is_for (some a) (some b) = a == b
is_for _ _ = false

abbrev pub created : RecommendationJob → ℕ
created j = j.created_at

unfoldable pub is_refresh_of : ℕ → RecommendationJob → Bool
is_refresh_of user j = is_for (some user) j.target_user_id && type_eq user_refresh j.job_type

unfoldable pub get_latest_user_refresh_job : ℕ → List RecommendationJob → Option RecommendationJob
get_latest_user_refresh_job user jobs =
    first (sort_by (descending created) (filter (is_refresh_of user) jobs))

abbrev pub is_user_row : ℕ → UserRecommendation → Bool
is_user_row user r = user == r.user_id

-- `order_by("-generation_version", "-generated_at")`
abbrev pub newer_first : UserRecommendation → UserRecommendation → Bool
newer_first r s =
    ltb s.generation_version r.generation_version
    || (r.generation_version == s.generation_version && leb s.generated_at r.generated_at)

unfoldable pub latest_recommendation : ℕ → List UserRecommendation → Option UserRecommendation
latest_recommendation user rows = first (sort_by newer_first (filter (is_user_row user) rows))

pub record RecommendationStatusResult : Type 0 where
  pub status : Status
  pub generation_version : Option ℕ
  pub generated_at : Option ℕ
  pub expires_at : Option ℕ

abbrev pub when_found : Option UserRecommendation → Status
when_found none = pending
when_found (some r) = success

pub shown_status : Option RecommendationJob → Option UserRecommendation → Status
shown_status none latest = when_found latest
shown_status (some job) latest = elim job.status [
  | success ↦ when_found latest
  | pending ↦ pending
  | running ↦ running
  | failed ↦ failed
]

abbrev pub read_row : Option UserRecommendation → (UserRecommendation → ℕ) → Option ℕ
read_row none f = none
read_row (some r) f = some (f r)

pub get_status : ℕ → Db → RecommendationStatusResult
get_status user db =
    let latest = latest_recommendation user db.recommendations in
    record {
      status = shown_status (get_latest_user_refresh_job user db.jobs) latest;
      generation_version = read_row latest (λ r. r.generation_version);
      generated_at = read_row latest (λ r. r.generated_at);
      expires_at = read_row latest (λ r. r.expires_at);
    }

-- `status in {PENDING, RUNNING}`
abbrev pub is_active_status : Status → Bool
is_active_status pending = true
is_active_status running = true
is_active_status success = false
is_active_status failed = false

pub blocks : Option RecommendationJob → Bool
blocks none = false
blocks (some job) = is_active_status job.status

pub is_recommendation_ready : ℕ → Db → Bool
is_recommendation_ready user db =
    if blocks (get_latest_user_refresh_job user db.jobs)
    then false
    else any (is_user_row user) db.recommendations

abbrev pub of_type : Option ReasonType → List UserRecommendation → List UserRecommendation
of_type none rows = rows
of_type (some reason) rows = filter (λ r. reason_eq reason r.reason) rows

-- A `rec_type` outside the choices is refused by the serializer before.
pub list_recommendations : ℕ → Option ReasonType → List UserRecommendation → List UserRecommendation
list_recommendations user rec_type rows =
    sort_by (ascending (λ r. r.rank)) (of_type rec_type (filter (is_user_row user) rows))

pub new_job : ℕ → ℕ → JobType → Option ℕ → RecommendationJob
new_job id now type target = record {
  id = id;
  job_type = type;
  target_user_id = target;
  status = pending;
  retry_count = 0;
  error_message = none;
  started_at = none;
  finished_at = none;
  created_at = now;
}

pub create_job : ℕ → ℕ → JobType → Option ℕ → Db → RecommendationJob × Db
create_job id now type target db =
    let job = new_job id now type target in (job, record db { jobs = db.jobs ++ job ∷ [] })

pub enqueue_for : ℕ → ℕ → ℕ → Option RecommendationJob → Db → RecommendationJob × Db
enqueue_for id now user none db = create_job id now user_refresh (some user) db
enqueue_for id now user (some job) db =
    if is_active_status job.status then (job, db) else create_job id now user_refresh (some user) db

pub enqueue_user_refresh_job_if_needed : ℕ → ℕ → ℕ → Db → RecommendationJob × Db
enqueue_user_refresh_job_if_needed id now user db =
    enqueue_for id now user (get_latest_user_refresh_job user db.jobs) db

-- `RecommendationAdminService.create_recommendation_job`
unfoldable pub is_active_for : JobType → Option ℕ → RecommendationJob → Bool
is_active_for type target j =
    type_eq type j.job_type && is_for target j.target_user_id && is_active_status j.status

pub create_recommendation_job : ℕ → ℕ → JobType → Option ℕ → Exec Db RecommendationJob
create_recommendation_job id now type target db =
    if any (is_active_for type target) db.jobs
    then (err (api job_already_running), db)
    else let (job, db') = create_job id now type target db in (ok job, db')

-- `RecommendationAdminService.get_recommendation_job`
pub get_recommendation_job : ℕ → List RecommendationJob → Option RecommendationJob
get_recommendation_job id jobs = first (filter (λ j. id == j.id) jobs)

-- `enqueue_similarity_rebuild_job_if_needed` of apps/recommendations/tasks.py
unfoldable pub is_active_rebuild : RecommendationJob → Bool
is_active_rebuild j = type_eq similarity_rebuild j.job_type && is_active_status j.status

pub enqueue_similarity_rebuild_job_if_needed : ℕ → ℕ → Db → ℕ × Db
enqueue_similarity_rebuild_job_if_needed id now db =
    if any is_active_rebuild db.jobs
    then (0, db)
    else let (job, db') = create_job id now similarity_rebuild none db in (1, db')
