-- ===== src/Recommendations/Job/Rebuild.antt =====
-- What a rebuild of the game similarities leaves in the table.
use gechu_backend.Base.{ℕ, ◌≡◌, refl, ◌∙◌, ap, sym, subst, true, some}
use gechu_backend.Core.Errors.{Result, ok, err}
use gechu_backend.Models.{Db}
use gechu_backend.Models.Recommendation.{RecommendationJob, similarity_rebuild}
use gechu_backend.Recommendations.Pairs.{build_similarity_pairs}
use gechu_backend.Recommendations.Pairs.Results.{
  build_similarity_pairs-IsDict, build_similarity_pairs-eq-pair_score,
}
use gechu_backend.Recommendations.Pairs.Spec.{pair_score}
use gechu_backend.Base.Dict.{lookup, pair_eq}
use gechu_backend.Recommendations.Similar.{replace_game_similarities}
use gechu_backend.Recommendations.Similar.Results.{
  HasTop, same_scores-HasTop, replace_game_similarities_rows,
}
use gechu_backend.Recommendations.Job.{
  job_of, update_job, is_claimable, Env, rebuild_similarities, started, succeeded, settle,
  run_claimed, run_found_rebuild, run_similarity_rebuild_job,
}
use gechu_backend.Recommendations.Job.Once.{Ended, run_similarity_rebuild_job_ends}

-- The rows of every game are its best similar games, by the score of each pair in the log.
abbrev pub IsRebuilt : Env → Db → Db → Type 0
IsRebuilt env db db' =
    (game : ℕ)
    → HasTop game (λ similar. pair_score env.float db.interaction_logs game similar)
        db'.similarities

rebuild_similarities-IsRebuilt :
    (env : Env) (db : Db)
    → let (result, db') = rebuild_similarities env db in
      (result ≡ ok tt)
      × (db' ≡ record db { similarities = db'.similarities })
      × IsRebuilt env db db'
unfolding rebuild_similarities
rebuild_similarities-IsRebuilt env db =
    let logs = db.interaction_logs in
    let scores = build_similarity_pairs env.float logs in
    let (counted, others, rows) =
      replace_game_similarities_rows scores db (build_similarity_pairs-IsDict env.float logs) in
    rw counted (
      refl,
      others,
      λ game.
          same_scores-HasTop game (λ similar. lookup (game, similar) scores)
            (λ similar. pair_score env.float logs game similar)
            (replace_game_similarities scores db).1.similarities
            (λ similar. (build_similarity_pairs-eq-pair_score env.float logs game similar).0)
            (rows game),
    )

-- What is to be shown of a run.
abbrev Outcome : Env → Db → Result (Unit {0}) × Db → Type 0
Outcome env db (result, db') = (result ≡ ok tt) × IsRebuilt env db db'

settle-Outcome :
    (env : Env) (id retries : ℕ) (db : Db) (p : Result (Unit {0}) × Db)
    → p.0 ≡ ok tt
    → IsRebuilt env db p.1
    → Outcome env db (settle env id retries p)
unfolding settle
settle-Outcome env id retries db (ok done, db') e rows = (refl, rows)
settle-Outcome env id retries db (err x, db') e rows = cc

run_claimed-Outcome :
    (env : Env) (id : ℕ) (job : RecommendationJob) (db : Db)
    → is_claimable job ≡ true
    → Outcome env db (run_claimed env id job (rebuild_similarities env) db)
unfolding run_claimed
run_claimed-Outcome env id job db open_job =
    let claimed = record db { jobs = update_job id (started env.started_at) db.jobs } in
    let (returned, others, rows) = rebuild_similarities-IsRebuilt env claimed in
    rw open_job
      (settle-Outcome env id job.retry_count db (rebuild_similarities env claimed) returned rows)

-- A rebuild that can be claimed always succeeds: it returns, the job ends as a success, and every
-- game has then exactly the rows of its best similar games, best first: at most fifty different
-- games, each with the score of the pair told from the log, where a game with a score that is left
-- out scores no higher than any of the fifty kept.
pub run_similarity_rebuild_job_succeeds :
    (env : Env) (id : ℕ) (job : RecommendationJob) (db : Db)
    → job_of id similarity_rebuild db.jobs ≡ some job
    → is_claimable job ≡ true
    → let (result, db') = run_similarity_rebuild_job env id db in
      (result ≡ ok tt)
      × (job_of id similarity_rebuild db'.jobs
          ≡ some (succeeded env.finished_at (started env.started_at job)))
      × IsRebuilt env db db'
unfolding run_similarity_rebuild_job run_found_rebuild
run_similarity_rebuild_job_succeeds env id job db found open_job =
    let (returned, rows) =
      subst (Outcome env db) (sym (ap (λ o. run_found_rebuild env id o db) found))
        (run_claimed-Outcome env id job db open_job) in
    let (job', there, ended) = run_similarity_rebuild_job_ends env id job db found open_job in
    let success = subst (λ q. Ended env job q job') returned ended in
    (returned, there ∙ ap some success, rows)
