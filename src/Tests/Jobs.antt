-- ===== src/Tests/Jobs.antt =====
-- Tests of the jobs, the scheduler and the status.
use gechu_backend.Base.{
  filter, ℕ, ◌+◌, ◌≡◌, refl, ◌≤◌, ◌⊎◌, Bool, true, false, some, List, [], ◌∷◌, length, elem, Elem,
  arith,
}
use gechu_backend.Base.Round.{round_half_even}
use gechu_backend.Base.Sort.{sort_by}
use gechu_backend.Core.Errors.{ok}
use gechu_backend.Models.Recommendation.{
  RecommendationJob, user_refresh, similarity_rebuild, similarity, preference,
}
use gechu_backend.Recommendations.Candidates.{
  build_similarity_candidates, collect_seed_game_ids, recent_seed_game_ids, recent_game_ids,
  from_keys, not_none, collect_preference_candidates, search_preferred, scored_from, rank_score,
}
use gechu_backend.Recommendations.Job.{
  job_of, max_generation, refresh_user, started, succeeded, run_user_refresh_job,
  run_similarity_rebuild_job, is_claimable,
}
use gechu_backend.Recommendations.Job.Once.{run_user_refresh_job_once}
use gechu_backend.Recommendations.Job.Refresh.{HasRows, is_other, refresh_user_rows}
use gechu_backend.Recommendations.Job.Rebuild.{IsRebuilt, run_similarity_rebuild_job_succeeds}
use gechu_backend.Recommendations.Status.{
  get_latest_user_refresh_job, is_active_status, is_recommendation_ready,
  enqueue_user_refresh_job_if_needed, is_active_rebuild, enqueue_similarity_rebuild_job_if_needed,
}
use gechu_backend.Recommendations.Status.Enqueue.{
  count, enqueue_user_refresh_job_if_needed_again, enqueue_similarity_rebuild_job_if_needed_single,
}
use gechu_backend.Recommendations.Schedule.{is_due, process_pending_recommendation_jobs}
use gechu_backend.Recommendations.Schedule.Results.{
  IsHandedOut, process_pending_recommendation_jobs_out,
  process_pending_recommendation_jobs_complete,
}
use gechu_backend.Tests.Samples.{sample_env, sample_user, sample_db, rebuild_job}

abbrev nobody_holds : ℕ → Bool
nobody_holds id = false

abbrev preferred : List (ℕ × ℕ)
preferred = (301, 10000) ∷ (302, 5000) ∷ []

seeded :
    collect_seed_game_ids sample_env.search 7 sample_db.interaction_logs sample_db.preferences
    ≡ ok (11 ∷ 10 ∷ [])
unfolding collect_seed_game_ids recent_seed_game_ids recent_game_ids from_keys not_none sort_by
seeded = refl

preferred_searched :
    collect_preference_candidates sample_env.search 7 sample_db.preferences ≡ ok preferred
unfolding collect_preference_candidates search_preferred scored_from rank_score round_half_even
preferred_searched = refl

refresh_user_rows_example :
    let (result, db') = refresh_user sample_env 7 sample_db in
    let generation = max_generation 7 sample_db.recommendations + 1 in
    let similar = build_similarity_candidates (11 ∷ 10 ∷ []) sample_db.similarities in
    (result ≡ ok tt)
    × (db' ≡ record sample_db { recommendations = db'.recommendations })
    × HasRows 7 similarity generation sample_env.similar_at similar db'.recommendations
    × HasRows 7 preference generation sample_env.preferred_at preferred db'.recommendations
    × (filter (is_other 7) db'.recommendations ≡ filter (is_other 7) sample_db.recommendations)
refresh_user_rows_example =
    refresh_user_rows sample_env 7 sample_user (11 ∷ 10 ∷ []) preferred sample_db refl seeded
      preferred_searched

run_user_refresh_job_once_example :
    let db' = (run_user_refresh_job sample_env 1 sample_db).1 in
    run_user_refresh_job sample_env 1 db' ≡ (ok tt, db')
run_user_refresh_job_once_example = run_user_refresh_job_once sample_env sample_env 1 sample_db

run_similarity_rebuild_job_succeeds_example :
    let (result, db') = run_similarity_rebuild_job sample_env 2 sample_db in
    (result ≡ ok tt)
    × (job_of 2 similarity_rebuild db'.jobs
        ≡ some (succeeded sample_env.finished_at (started sample_env.started_at rebuild_job)))
    × IsRebuilt sample_env sample_db db'
unfolding is_claimable
run_similarity_rebuild_job_succeeds_example =
    run_similarity_rebuild_job_succeeds sample_env 2 rebuild_job sample_db refl refl

process_pending_recommendation_jobs_out_example :
    let round = process_pending_recommendation_jobs nobody_holds nobody_holds 2 sample_db in
    (round.count ≤ 2)
    × (round.count ≡ length round.refreshes + length round.rebuilds)
    × ((id : ℕ)
        → elem id round.refreshes ≡ true
        → IsHandedOut nobody_holds user_refresh id sample_db.jobs round.db.jobs)
    × ((id : ℕ)
        → elem id round.rebuilds ≡ true
        → IsHandedOut nobody_holds similarity_rebuild id sample_db.jobs round.db.jobs)
process_pending_recommendation_jobs_out_example =
    process_pending_recommendation_jobs_out nobody_holds nobody_holds 2 sample_db (refl, (refl, tt))

process_pending_recommendation_jobs_complete_example :
    let round = process_pending_recommendation_jobs nobody_holds nobody_holds 1 sample_db in
    ((j : RecommendationJob)
      → Elem j sample_db.jobs
      → is_due nobody_holds user_refresh j ≡ true
      → (elem j.id round.refreshes ≡ true) ⊎ (length round.refreshes ≡ 1))
    × ((j : RecommendationJob)
        → Elem j sample_db.jobs
        → is_due nobody_holds similarity_rebuild j ≡ true
        → (elem j.id round.rebuilds ≡ true) ⊎ (round.count ≡ 1))
    × ((j : RecommendationJob)
        → Elem j sample_db.jobs
        → elem j.id round.refreshes ≡ false
        → elem j.id round.rebuilds ≡ false
        → job_of j.id j.job_type round.db.jobs ≡ some j)
process_pending_recommendation_jobs_complete_example =
    process_pending_recommendation_jobs_complete nobody_holds nobody_holds 1 sample_db
      (refl, (refl, tt))

enqueue_user_refresh_job_if_needed_again_example :
    let (job, db') = enqueue_user_refresh_job_if_needed 3 100 8 sample_db in
    (is_active_status job.status ≡ true)
    × (get_latest_user_refresh_job 8 db'.jobs ≡ some job)
    × (is_recommendation_ready 8 db' ≡ false)
    × ((id' now' : ℕ) → enqueue_user_refresh_job_if_needed id' now' 8 db' ≡ (job, db'))
enqueue_user_refresh_job_if_needed_again_example =
    enqueue_user_refresh_job_if_needed_again 3 100 8 sample_db (omega arith, (omega arith, tt))

enqueue_similarity_rebuild_job_if_needed_single_example :
    let (added, db') = enqueue_similarity_rebuild_job_if_needed 3 100 sample_db in
    (count is_active_rebuild db'.jobs ≡ 1)
    × (added + count is_active_rebuild sample_db.jobs ≡ 1)
    × (length db'.jobs ≡ length sample_db.jobs + added)
unfolding is_active_rebuild
enqueue_similarity_rebuild_job_if_needed_single_example =
    enqueue_similarity_rebuild_job_if_needed_single 3 100 sample_db (omega arith)
