-- ===== src/Recommendations/Status/Enqueue.antt =====
-- How many jobs are under way, and that enqueuing adds no second one.
use gechu_backend.Base.{
  ℕ, ◌+◌, ◌≡◌, refl, ◌⊎◌, ◌≤◌, ◌<◌, Bool, true, false, Option, none, some, List, [], ◌∷◌, ◌++◌,
  filter, any, All, length, length-append, filter-append, arith, Bool-cases, inl, inr,
}
use gechu_backend.Core.Errors.{api, job_already_running, ok, err}
use gechu_backend.Models.{Db}
use gechu_backend.Models.Recommendation.{
  RecommendationJob, JobType, user_refresh, similarity_rebuild,
}
use gechu_backend.Recommendations.Status.{
  created, is_refresh_of, get_latest_user_refresh_job, is_active_status, blocks,
  is_recommendation_ready, new_job, create_job, enqueue_for, enqueue_user_refresh_job_if_needed,
  is_active_for, create_recommendation_job, is_active_rebuild,
  enqueue_similarity_rebuild_job_if_needed,
}
use gechu_backend.Recommendations.Status.Latest.{first-sort_by_append}

new_job-is_refresh_of :
    (id now user : ℕ) → is_refresh_of user (new_job id now user_refresh (some user)) ≡ true
unfolding is_refresh_of new_job
new_job-is_refresh_of id now user = ground arith

latest-new_job :
    (id now user : ℕ) (jobs : List RecommendationJob)
    → All (λ j. j.created_at < now) jobs
    → get_latest_user_refresh_job user (jobs ++ new_job id now user_refresh (some user) ∷ [])
      ≡ some (new_job id now user_refresh (some user))
unfolding get_latest_user_refresh_job new_job
latest-new_job id now user jobs h =
    first-sort_by_append created (is_refresh_of user) (new_job id now user_refresh (some user)) jobs
      h (new_job-is_refresh_of id now user)

-- What enqueuing leaves: the job it returns is under way, and is the latest of the user.
abbrev IsEnqueued : ℕ → RecommendationJob × Db → Type 0
IsEnqueued user (job, db) =
    (is_active_status job.status ≡ true) × (get_latest_user_refresh_job user db.jobs ≡ some job)

enqueue_for-IsEnqueued :
    (id now user : ℕ) (latest : Option RecommendationJob) (db : Db)
    → get_latest_user_refresh_job user db.jobs ≡ latest
    → All (λ j. j.created_at < now) db.jobs
    → IsEnqueued user (enqueue_for id now user latest db)
unfolding enqueue_for create_job new_job
enqueue_for-IsEnqueued id now user none db e h = (refl, latest-new_job id now user db.jobs h)
enqueue_for-IsEnqueued id now user (some job) db e h =
    elim (Bool-cases (is_active_status job.status)) [
      | inl active ↦ rw active (active, e)
      | inr over ↦ rw over (refl, latest-new_job id now user db.jobs h)
    ]

enqueue_for_active :
    (id now user : ℕ) (job : RecommendationJob) (db : Db)
    → is_active_status job.status ≡ true
    → enqueue_for id now user (some job) db ≡ (job, db)
unfolding enqueue_for
enqueue_for_active id now user job db active = rw active refl

-- If the clock has passed the creation of every job: the job that is returned is pending or
-- running and is from then on the latest refresh of the user, the user is not ready, and to
-- enqueue again, at any time and under any id, returns the same job and adds none.
pub enqueue_user_refresh_job_if_needed_again :
    (id now user : ℕ) (db : Db)
    → All (λ j. j.created_at < now) db.jobs
    → let (job, db') = enqueue_user_refresh_job_if_needed id now user db in
      (is_active_status job.status ≡ true)
      × (get_latest_user_refresh_job user db'.jobs ≡ some job)
      × (is_recommendation_ready user db' ≡ false)
      × ((id' now' : ℕ) → enqueue_user_refresh_job_if_needed id' now' user db' ≡ (job, db'))
unfolding enqueue_user_refresh_job_if_needed is_recommendation_ready blocks
enqueue_user_refresh_job_if_needed_again id now user db h =
    let latest = get_latest_user_refresh_job user db.jobs in
    let (active, found) = enqueue_for-IsEnqueued id now user latest db refl h in
    let (job, db') = enqueue_for id now user latest db in
    (
      active,
      found,
      rw found (rw active refl),
      λ id' now'. rw found (enqueue_for_active id' now' user job db' active),
    )

abbrev pub count : (RecommendationJob → Bool) → List RecommendationJob → ℕ
count p jobs = length (filter p jobs)

count_any :
    (p : RecommendationJob → Bool) (jobs : List RecommendationJob)
    → any p jobs ≡ false
    → count p jobs ≡ 0
count_any p [] h = refl
count_any p (j ∷ jobs) h = ground (arith, count_any p jobs)

count_any_there :
    (p : RecommendationJob → Bool) (jobs : List RecommendationJob)
    → any p jobs ≡ true
    → 1 ≤ count p jobs
count_any_there p [] h = cc
count_any_there p (j ∷ jobs) h = ground (arith, count_any_there p jobs)

count-append :
    (p : RecommendationJob → Bool) (jobs : List RecommendationJob) (j : RecommendationJob)
    → p j ≡ true
    → count p (jobs ++ j ∷ []) ≡ count p jobs + 1
count-append p jobs j e =
    rw (filter-append p jobs (j ∷ [])) (rw e (length-append (filter p jobs) (j ∷ [])))

new_job-is_active_for :
    (id now : ℕ) (type : JobType) (target : Option ℕ)
    → is_active_for type target (new_job id now type target) ≡ true
unfolding is_active_for new_job
new_job-is_active_for id now user_refresh none = refl
new_job-is_active_for id now user_refresh (some u) = ground arith
new_job-is_active_for id now similarity_rebuild none = refl
new_job-is_active_for id now similarity_rebuild (some u) = ground arith

new_job-is_active_rebuild :
    (id now : ℕ) → is_active_rebuild (new_job id now similarity_rebuild none) ≡ true
unfolding is_active_rebuild new_job
new_job-is_active_rebuild id now = refl

-- The scheduled task adds a rebuild just when none is pending or running, and returns how many it
-- added; if there was at most one, there is exactly one afterwards.
pub enqueue_similarity_rebuild_job_if_needed_single :
    (id now : ℕ) (db : Db)
    → count is_active_rebuild db.jobs ≤ 1
    → let (added, db') = enqueue_similarity_rebuild_job_if_needed id now db in
      (count is_active_rebuild db'.jobs ≡ 1)
      × (added + count is_active_rebuild db.jobs ≡ 1)
      × (length db'.jobs ≡ length db.jobs + added)
unfolding enqueue_similarity_rebuild_job_if_needed create_job
enqueue_similarity_rebuild_job_if_needed_single id now db h =
    elim (Bool-cases (any is_active_rebuild db.jobs)) [
      | inl e ↦
          let some_active = count_any_there is_active_rebuild db.jobs e in
          rw e (omega arith, omega arith, omega arith)
      | inr e ↦
          let job = new_job id now similarity_rebuild none in
          let none_active = count_any is_active_rebuild db.jobs e in
          let one_more =
            count-append is_active_rebuild db.jobs job (new_job-is_active_rebuild id now) in
          rw e (omega arith, omega arith, length-append db.jobs (job ∷ []))
    ]

-- An administrator's job is refused, and nothing changed, just when a job of the type for the same
-- user is pending or running; otherwise it is added, and is then the only one under way.
pub create_recommendation_job_single :
    (id now : ℕ) (type : JobType) (target : Option ℕ) (db : Db)
    → let (result, db') = create_recommendation_job id now type target db in
      ((result ≡ err (api job_already_running))
        × (db' ≡ db)
        × (1 ≤ count (is_active_for type target) db.jobs))
      ⊎ ((result ≡ ok (new_job id now type target))
          × (db' ≡ record db { jobs = db.jobs ++ new_job id now type target ∷ [] })
          × (count (is_active_for type target) db.jobs ≡ 0)
          × (count (is_active_for type target) db'.jobs ≡ 1))
unfolding create_recommendation_job create_job
create_recommendation_job_single id now type target db =
    elim (Bool-cases (any (is_active_for type target) db.jobs)) [
      | inl e ↦ rw e (inl (refl, refl, count_any_there (is_active_for type target) db.jobs e))
      | inr e ↦
          let none_active = count_any (is_active_for type target) db.jobs e in
          let one_more =
            count-append (is_active_for type target) db.jobs (new_job id now type target)
              (new_job-is_active_for id now type target) in
          rw e (inr (refl, refl, none_active, omega arith))
    ]
