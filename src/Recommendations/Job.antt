-- ===== src/Recommendations/Job.antt =====
-- The two jobs of apps/recommendations/tasks.py: one user's refresh, and the rebuild of all game
-- similarities. A job is claimed in a transaction, runs once, and ends as a success or a failure.
pub mod Claim
pub mod Once
pub mod Refresh
pub mod Rebuild
use gechu_backend.Base.{
  ℕ, suc, ◌+◌, ◌≡◌, Bool, true, false, ◌&&◌, Option, none, some, String, List, [], ◌∷◌, filter,
  first, any, ltb, ◌==◌, if◌then◌else◌,
}
use gechu_backend.Core.Errors.{Error, Result, ok, err, does_not_exist}
use gechu_backend.Core.Exec.{Exec, pure, raise, gets, modify, or_raise, ◌>>=◌, ◌>>◌}
use gechu_backend.Models.{Db}
use gechu_backend.Models.User.{User as UserRow}
use gechu_backend.Models.Recommendation.{
  RecommendationJob, JobType, user_refresh, similarity_rebuild, Status, pending, running, success,
  failed, similarity, preference, UserRecommendation,
}
use gechu_backend.Recommendations.Pairs.{FloatScore, build_similarity_pairs}
use gechu_backend.Recommendations.Similar.{replace_game_similarities}
use gechu_backend.Recommendations.Candidates.{
  GameSearch, collect_seed_game_ids, build_similarity_candidates, collect_preference_candidates,
}
use gechu_backend.Recommendations.Upsert.{upsert_recommendations}

abbrev pub type_eq : JobType → JobType → Bool
type_eq user_refresh user_refresh = true
type_eq similarity_rebuild similarity_rebuild = true
type_eq _ _ = false

-- `RecommendationJob.objects.filter(id=job_id, job_type=...).first()`
abbrev pub job_of : ℕ → JobType → List RecommendationJob → Option RecommendationJob
job_of id type [] = none
job_of id type (j ∷ jobs) =
    if id == j.id && type_eq type j.job_type then some j else job_of id type jobs

-- `filter(id=job_id).update(...)`, and `job.save(update_fields=...)`
abbrev pub update_job :
    ℕ → (RecommendationJob → RecommendationJob) → List RecommendationJob → List RecommendationJob
update_job id f [] = []
update_job id f (j ∷ jobs) = (if id == j.id then f j else j) ∷ update_job id f jobs

-- Pending, or handed to a worker and not begun.
abbrev pub is_open : Status → Option ℕ → Bool
is_open pending started_at = true
is_open running none = true
is_open running (some t) = false
is_open success started_at = false
is_open failed started_at = false

unfoldable pub is_claimable : RecommendationJob → Bool
is_claimable j = is_open j.status j.started_at

unfoldable pub started : ℕ → RecommendationJob → RecommendationJob
started now j = record j { status = running; started_at = some now; error_message = none }

unfoldable pub succeeded : ℕ → RecommendationJob → RecommendationJob
succeeded now j = record j { status = success; finished_at = some now }

unfoldable pub failed_with : ℕ → ℕ → String → RecommendationJob → RecommendationJob
failed_with now retry_count message j = record j {
  status = failed;
  finished_at = some now;
  retry_count = retry_count;
  error_message = some message;
}

abbrev pub update_jobs : (List RecommendationJob → List RecommendationJob) → Exec Db (Unit {0})
update_jobs f = modify (λ db. record db { jobs = f db.jobs })

-- What the task reads from outside: the search of games, the float quotient, the text
-- `str(err)[:1000]` of an exception, and the clock where it is read.
pub record Env : Type 0 where
  pub search : GameSearch
  pub float : FloatScore
  pub describe : Error → String
  pub started_at : ℕ
  pub similar_at : ℕ
  pub preferred_at : ℕ
  pub finished_at : ℕ

-- The `try` block: its success is recorded with it, a failure is recorded and goes on up.
pub settle : Env → ℕ → ℕ → Result (Unit {0}) × Db → Result (Unit {0}) × Db
settle env id retry_count (ok done, db) =
    (ok tt, record db { jobs = update_job id (succeeded env.finished_at) db.jobs })
settle env id retry_count (err e, db) = (
  err e,
  record db {
    jobs = update_job id (failed_with env.finished_at (retry_count + 1) (env.describe e)) db.jobs;
  },
)

-- `aggregate(Max("generation_version"))`, or 0
pub max_generation : ℕ → List UserRecommendation → ℕ
max_generation user [] = 0
max_generation user (r ∷ rows) =
    let rest = max_generation user rows in
    if user == r.user_id && ltb rest r.generation_version then r.generation_version else rest

module _ (env : Env) where
  pub refresh_user : ℕ → Exec Db (Unit {0})
  refresh_user user = do
    or_raise (first (← gets (λ db. filter (λ u. user == u.id) db.users))) does_not_exist
    generation ← gets (λ db. max_generation user db.recommendations + 1)
    seeds ← λ db. (collect_seed_game_ids env.search user db.interaction_logs db.preferences, db)
    similar ← gets (λ db. build_similarity_candidates seeds db.similarities)
    modify (λ db. record db {
      recommendations =
          upsert_recommendations user similarity generation env.similar_at similar
            db.recommendations;
    })
    preferred ← λ db. (collect_preference_candidates env.search user db.preferences, db)
    modify (λ db. record db {
      recommendations =
          upsert_recommendations user preference generation env.preferred_at preferred
            db.recommendations;
    })

  pub rebuild_similarities : Exec Db (Unit {0})
  rebuild_similarities = do
    scores ← gets (λ db. build_similarity_pairs env.float db.interaction_logs)
    replace_game_similarities scores
    pure tt

  -- The claim, in a transaction that cannot fail, and the work on the job that was claimed.
  run_claimed : ℕ → RecommendationJob → Exec Db (Unit {0}) → Exec Db (Unit {0})
  run_claimed id job work db =
      if is_claimable job
      then settle env id job.retry_count
          (work (record db { jobs = update_job id (started env.started_at) db.jobs }))
      else (ok tt, db)

  run_if_targeted : ℕ → RecommendationJob → Option ℕ → Exec Db (Unit {0})
  run_if_targeted id job none db = (ok tt, db)
  run_if_targeted id job (some user) db = run_claimed id job (refresh_user user) db

  run_found_refresh : ℕ → Option RecommendationJob → Exec Db (Unit {0})
  unfolding run_if_targeted
  run_found_refresh id none db = (ok tt, db)
  run_found_refresh id (some job) db = run_if_targeted id job job.target_user_id db

  pub run_user_refresh_job : ℕ → Exec Db (Unit {0})
  run_user_refresh_job id db = run_found_refresh id (job_of id user_refresh db.jobs) db

  run_found_rebuild : ℕ → Option RecommendationJob → Exec Db (Unit {0})
  run_found_rebuild id none db = (ok tt, db)
  run_found_rebuild id (some job) db = run_claimed id job rebuild_similarities db

  pub run_similarity_rebuild_job : ℕ → Exec Db (Unit {0})
  run_similarity_rebuild_job id db = run_found_rebuild id (job_of id similarity_rebuild db.jobs) db
