-- ===== src/Recommendations/Job/Claim.antt =====
-- Finding a job again after it was updated, and what the work of a job leaves alone.
use gechu_backend.Base.{
  ℕ, ◌≡◌, refl, false, Option, none, some, List, [], ◌∷◌, arith, ◌==◌, Bool-cases, inl, inr,
}
use gechu_backend.Models.{Db}
use gechu_backend.Models.Recommendation.{RecommendationJob, JobType}
use gechu_backend.Recommendations.Similar.{replace_game_similarities}
use gechu_backend.Recommendations.Job.{job_of, update_job, Env, refresh_user, rebuild_similarities}

abbrev pub map_job :
    (RecommendationJob → RecommendationJob) → Option RecommendationJob → Option RecommendationJob
map_job f none = none
map_job f (some j) = some (f j)

-- An update by id that keeps the id and the type is seen by every later lookup of the job.
pub job_of-update_job :
    (id : ℕ) (type : JobType) (f : RecommendationJob → RecommendationJob)
    (jobs : List RecommendationJob)
    → ((j : RecommendationJob) → ((f j).id ≡ j.id) × ((f j).job_type ≡ j.job_type))
    → job_of id type (update_job id f jobs) ≡ map_job f (job_of id type jobs)
job_of-update_job id type f [] keeps = refl
job_of-update_job id type f (j ∷ jobs) keeps = elim (Bool-cases (id == j.id)) [
  | inl e ↦ rw e (let k = keeps j in ground (arith, k, job_of-update_job id type f jobs keeps))
  | inr e ↦ rw e (rw e (job_of-update_job id type f jobs keeps))
]

-- The other jobs are found as before.
pub job_of-update_job_ne :
    (id other : ℕ) (type : JobType) (f : RecommendationJob → RecommendationJob)
    (jobs : List RecommendationJob)
    → ((j : RecommendationJob) → (f j).id ≡ j.id)
    → (other == id) ≡ false
    → job_of other type (update_job id f jobs) ≡ job_of other type jobs
job_of-update_job_ne id other type f [] keeps ne = refl
job_of-update_job_ne id other type f (j ∷ jobs) keeps ne =
    ground (arith, keeps j, job_of-update_job_ne id other type f jobs keeps ne)

-- The work of a job does not touch the table of jobs.
pub replace-jobs : (env : Env) (db : Db) → (rebuild_similarities env db).1.jobs ≡ db.jobs
unfolding rebuild_similarities replace_game_similarities
replace-jobs env db = ground arith

pub refresh_user-jobs :
    (env : Env) (user : ℕ) (db : Db) → (refresh_user env user db).1.jobs ≡ db.jobs
unfolding refresh_user
refresh_user-jobs env user db = ground arith
