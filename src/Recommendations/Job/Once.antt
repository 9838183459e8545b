-- ===== src/Recommendations/Job/Once.antt =====
-- A job runs once: how a claimed job ends, and that a second run of any job does nothing.
use gechu_backend.Base.{
  subst, ℕ, ◌+◌, ◌≡◌, refl, ◌∙◌, sym, ap, ◌⊎◌, true, false, Option, none, some, Bool-cases,
  Option-cases, inl, inr, String,
}
use gechu_backend.Core.Errors.{Result, ok, err}
use gechu_backend.Core.Exec.{Exec}
use gechu_backend.Models.{Db}
use gechu_backend.Models.Recommendation.{
  RecommendationJob, JobType, user_refresh, similarity_rebuild,
}
use gechu_backend.Recommendations.Job.{
  job_of, update_job, is_claimable, Env, refresh_user, rebuild_similarities, started, succeeded,
  failed_with, settle, run_claimed, run_if_targeted, run_found_refresh, run_found_rebuild,
  run_user_refresh_job, run_similarity_rebuild_job,
}
use gechu_backend.Recommendations.Job.Claim.{
  map_job, job_of-update_job, replace-jobs, refresh_user-jobs,
}

-- How a run that claimed a job has ended: with the result of the work, and the job as it stands.
abbrev pub Ended : Env → RecommendationJob → Result (Unit {0}) → RecommendationJob → Type 0
Ended env job (ok done) job' = job' ≡ succeeded env.finished_at (started env.started_at job)
Ended env job (err e) job' =
    job'
    ≡ failed_with env.finished_at (job.retry_count + 1) (env.describe e)
        (started env.started_at job)

started_keeps :
    (now : ℕ) (j : RecommendationJob)
    → ((started now j).id ≡ j.id) × ((started now j).job_type ≡ j.job_type)
unfolding started
started_keeps now j = (refl, refl)

succeeded_keeps :
    (now : ℕ) (j : RecommendationJob)
    → ((succeeded now j).id ≡ j.id) × ((succeeded now j).job_type ≡ j.job_type)
unfolding succeeded
succeeded_keeps now j = (refl, refl)

failed_with_keeps :
    (now retries : ℕ) (message : String) (j : RecommendationJob)
    → ((failed_with now retries message j).id ≡ j.id)
      × ((failed_with now retries message j).job_type ≡ j.job_type)
unfolding failed_with
failed_with_keeps now retries message j = (refl, refl)

module _ (env : Env) (id : ℕ) (type : JobType) where
  settle-Ended :
      (job : RecommendationJob) (p : Result (Unit {0}) × Db)
      → job_of id type p.1.jobs ≡ some (started env.started_at job)
      → let (result, db') = settle env id job.retry_count p in
        (job' : RecommendationJob) × (job_of id type db'.jobs ≡ some job')
        × Ended env job result job'
  unfolding settle
  settle-Ended job (ok done, db) h = (
    succeeded env.finished_at (started env.started_at job),
    job_of-update_job id type (succeeded env.finished_at) db.jobs (succeeded_keeps env.finished_at)
        ∙ ap (map_job (succeeded env.finished_at)) h,
    refl,
  )
  settle-Ended job (err e, db) h =
      let fail = failed_with env.finished_at (job.retry_count + 1) (env.describe e) in
      (
        fail (started env.started_at job),
        job_of-update_job id type fail db.jobs
              (failed_with_keeps env.finished_at (job.retry_count + 1) (env.describe e))
            ∙ ap (map_job fail) h,
        refl,
      )

  module _ (work : Exec Db (Unit {0})) (keeps : (db : Db) → (work db).1.jobs ≡ db.jobs) where
    run_claimed-Ended :
        (job : RecommendationJob) (db : Db)
        → job_of id type db.jobs ≡ some job
        → is_claimable job ≡ true
        → let (result, db') = run_claimed env id job work db in
          (job' : RecommendationJob) × (job_of id type db'.jobs ≡ some job')
          × Ended env job result job'
    unfolding run_claimed
    run_claimed-Ended job db h open_job =
        let db' = record db { jobs = update_job id (started env.started_at) db.jobs } in
        rw open_job (
          settle-Ended job (work db') (
            ap (job_of id type) (keeps db')
            ∙ job_of-update_job id type (started env.started_at) db.jobs
                (started_keeps env.started_at)
            ∙ ap (map_job (started env.started_at)) h))

-- Neither a success nor a failure can be claimed again.
Ended-not_claimable :
    (env : Env) (job job' : RecommendationJob) (result : Result (Unit {0}))
    → Ended env job result job'
    → is_claimable job' ≡ false
unfolding is_claimable succeeded failed_with
Ended-not_claimable env job job' (ok done) h = rw h refl
Ended-not_claimable env job job' (err e) h = rw h refl

-- A job that is missing, has no user, or is neither pending nor handed out, is left alone.
abbrev pub IsIdle : Option RecommendationJob → Type 0
IsIdle none = Unit
IsIdle (some job) = (job.target_user_id ≡ none) ⊎ (is_claimable job ≡ false)

run_if_targeted_idle :
    (env : Env) (id : ℕ) (job : RecommendationJob) (target : Option ℕ) (db : Db)
    → job.target_user_id ≡ target
    → (job.target_user_id ≡ none) ⊎ (is_claimable job ≡ false)
    → run_if_targeted env id job target db ≡ (ok tt, db)
unfolding run_if_targeted run_claimed
run_if_targeted_idle env id job none db same idle = refl
run_if_targeted_idle env id job (some user) db same (inl no_user) = cc
run_if_targeted_idle env id job (some user) db same (inr taken) = rw taken refl

run_found_refresh_idle :
    (env : Env) (id : ℕ) (found : Option RecommendationJob) (db : Db)
    → IsIdle found
    → run_found_refresh env id found db ≡ (ok tt, db)
unfolding run_found_refresh
run_found_refresh_idle env id none db idle = refl
run_found_refresh_idle env id (some job) db idle =
    run_if_targeted_idle env id job job.target_user_id db refl idle

pub run_user_refresh_job_idle :
    (env : Env) (id : ℕ) (db : Db)
    → IsIdle (job_of id user_refresh db.jobs)
    → run_user_refresh_job env id db ≡ (ok tt, db)
unfolding run_user_refresh_job
run_user_refresh_job_idle env id db idle =
    run_found_refresh_idle env id (job_of id user_refresh db.jobs) db idle

-- A rebuild that is missing, or is neither pending nor handed out.
abbrev pub IsTaken : Option RecommendationJob → Type 0
IsTaken none = Unit
IsTaken (some job) = is_claimable job ≡ false

run_found_rebuild_idle :
    (env : Env) (id : ℕ) (found : Option RecommendationJob) (db : Db)
    → IsTaken found
    → run_found_rebuild env id found db ≡ (ok tt, db)
unfolding run_found_rebuild run_claimed
run_found_rebuild_idle env id none db idle = refl
run_found_rebuild_idle env id (some job) db idle = rw idle refl

run_similarity_rebuild_job_idle :
    (env : Env) (id : ℕ) (db : Db)
    → IsTaken (job_of id similarity_rebuild db.jobs)
    → run_similarity_rebuild_job env id db ≡ (ok tt, db)
unfolding run_similarity_rebuild_job
run_similarity_rebuild_job_idle env id db idle =
    run_found_rebuild_idle env id (job_of id similarity_rebuild db.jobs) db idle

pub run_user_refresh_job_ends :
    (env : Env) (id user : ℕ) (job : RecommendationJob) (db : Db)
    → job_of id user_refresh db.jobs ≡ some job
    → job.target_user_id ≡ some user
    → is_claimable job ≡ true
    → let (result, db') = run_user_refresh_job env id db in
      (job' : RecommendationJob) × (job_of id user_refresh db'.jobs ≡ some job')
      × Ended env job result job'
unfolding run_user_refresh_job run_found_refresh run_if_targeted
run_user_refresh_job_ends env id user job db found target open_job =
    subst
      (λ q.
        let (result, db') = q in
        (job' : RecommendationJob) × (job_of id user_refresh db'.jobs ≡ some job')
        × Ended env job result job')
      (sym (
        ap (λ o. run_found_refresh env id o db) found
        ∙ ap (λ t. run_if_targeted env id job t db) target))
      (run_claimed-Ended env id user_refresh (refresh_user env user) (refresh_user-jobs env user)
        job db found open_job)

-- The same for a rebuild of the similarities.
pub run_similarity_rebuild_job_ends :
    (env : Env) (id : ℕ) (job : RecommendationJob) (db : Db)
    → job_of id similarity_rebuild db.jobs ≡ some job
    → is_claimable job ≡ true
    → let (result, db') = run_similarity_rebuild_job env id db in
      (job' : RecommendationJob) × (job_of id similarity_rebuild db'.jobs ≡ some job')
      × Ended env job result job'
unfolding run_similarity_rebuild_job run_found_rebuild
run_similarity_rebuild_job_ends env id job db found open_job =
    subst
      (λ q.
        let (result, db') = q in
        (job' : RecommendationJob) × (job_of id similarity_rebuild db'.jobs ≡ some job')
        × Ended env job result job')
      (sym (ap (λ o. run_found_rebuild env id o db) found))
      (run_claimed-Ended env id similarity_rebuild (rebuild_similarities env) (replace-jobs env) job
        db found open_job)

-- After a run, a second run of the same job returns at once and changes nothing, whether the first
-- one succeeded, failed or did nothing: a job that has failed is not tried again.
pub run_user_refresh_job_once :
    (env later : Env) (id : ℕ) (db : Db)
    → let db' = (run_user_refresh_job env id db).1 in
      run_user_refresh_job later id db' ≡ (ok tt, db')
run_user_refresh_job_once env later id db = elim (Option-cases (job_of id user_refresh db.jobs)) [
  | inl e ↦ again (IsIdle-none e)
  | inr (job, e) ↦ elim (Option-cases job.target_user_id) [
    | inl no_user ↦ again (subst IsIdle (sym e) (inl no_user))
    | inr (user, target) ↦ elim (Bool-cases (is_claimable job)) [
      | inr taken ↦ again (subst IsIdle (sym e) (inr taken))
      | inl open_job ↦
          let (job', found, ended) =
            run_user_refresh_job_ends env id user job db e target open_job in
          run_user_refresh_job_idle later id (run_user_refresh_job env id db).1 (
            subst IsIdle (sym found)
              (inr (Ended-not_claimable env job job' (run_user_refresh_job env id db).0 ended)))
    ]
  ]
]
  where
    IsIdle-none : job_of id user_refresh db.jobs ≡ none → IsIdle (job_of id user_refresh db.jobs)
    IsIdle-none e = subst IsIdle (sym e) tt

    again :
        IsIdle (job_of id user_refresh db.jobs)
        → let db' = (run_user_refresh_job env id db).1 in
          run_user_refresh_job later id db' ≡ (ok tt, db')
    again idle =
        let same = run_user_refresh_job_idle env id db idle in
        rw same (run_user_refresh_job_idle later id db idle)

-- After a run of a rebuild, a second run of the same job returns at once and changes nothing, whether
-- the first one succeeded, failed or did nothing.
pub run_similarity_rebuild_job_once :
    (env later : Env) (id : ℕ) (db : Db)
    → let db' = (run_similarity_rebuild_job env id db).1 in
      run_similarity_rebuild_job later id db' ≡ (ok tt, db')
run_similarity_rebuild_job_once env later id db =
    elim (Option-cases (job_of id similarity_rebuild db.jobs)) [
      | inl e ↦ again (subst IsTaken (sym e) tt)
      | inr (job, e) ↦ elim (Bool-cases (is_claimable job)) [
        | inr taken ↦ again (subst IsTaken (sym e) taken)
        | inl open_job ↦
            let (job', found, ended) = run_similarity_rebuild_job_ends env id job db e open_job in
            run_similarity_rebuild_job_idle later id (run_similarity_rebuild_job env id db).1 (
              subst IsTaken (sym found)
                (Ended-not_claimable env job job' (run_similarity_rebuild_job env id db).0 ended))
      ]
    ]
  where
    again :
        IsTaken (job_of id similarity_rebuild db.jobs)
        → let db' = (run_similarity_rebuild_job env id db).1 in
          run_similarity_rebuild_job later id db' ≡ (ok tt, db')
    again taken =
        let same = run_similarity_rebuild_job_idle env id db taken in
        rw same (run_similarity_rebuild_job_idle later id db taken)
