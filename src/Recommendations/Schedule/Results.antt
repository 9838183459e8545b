-- ===== src/Recommendations/Schedule/Results.antt =====
-- What one round of the scheduler hands out.
use gechu_backend.Base.{
  ℕ, ◌+◌, ◌-◌, ◌≡◌, refl, ◌∙◌, ap, sym, ◌⊎◌, ◌≤◌, Bool, true, false, ◌&&◌, none, some, List, [],
  ◌∷◌, map, length, length-append, elem, Elem, IsDistinct, arith, ltb, Bool-cases, inl, inr,
}
use gechu_backend.Models.{Db}
use gechu_backend.Models.Recommendation.{
  RecommendationJob, JobType, user_refresh, similarity_rebuild, pending, running,
}
use gechu_backend.Recommendations.Job.{job_of, is_claimable}
use gechu_backend.Recommendations.Job.Claim.{map_job}
use gechu_backend.Recommendations.Schedule.{
  is_pending, is_due, id_of, pending_ids, handed, hand_out, rebuild_ids,
  process_pending_recommendation_jobs,
}
use gechu_backend.Recommendations.Schedule.Pick.{
  pending_ids_limit, pending_ids_complete, pending_ids_sound, job_of-Elem, job_of-hand_out,
  elem-map_id,
}

is_due-fields :
    (locked : ℕ → Bool) (type : JobType) (j : RecommendationJob)
    → is_due locked type j ≡ true
    → (j.job_type ≡ type) × (j.status ≡ pending)
unfolding is_due
is_due-fields locked user_refresh j h = ground arith
is_due-fields locked similarity_rebuild j h = ground arith

-- Handed to a worker that has not begun.
abbrev pub out : RecommendationJob → RecommendationJob
out j = record j { status = running; started_at = none }

handed_in :
    (ids : List ℕ) (j : RecommendationJob)
    → elem j.id ids ≡ true
    → j.status ≡ pending
    → handed ids j ≡ out j
unfolding handed
handed_in ids j e p = rw e (rw p refl)

handed_out : (ids : List ℕ) (j : RecommendationJob) → elem j.id ids ≡ false → handed ids j ≡ j
unfolding handed
handed_out ids j e = rw e refl

handed_again : (ids : List ℕ) (j : RecommendationJob) → handed ids (out j) ≡ out j
unfolding handed
handed_again ids j = ground arith

handed-pending :
    (ids : List ℕ) (j : RecommendationJob) → (handed ids j).status ≡ pending → handed ids j ≡ j
unfolding handed
handed-pending ids j h = elim (Bool-cases (elem j.id ids && is_pending j.status)) [
  | inl e ↦ absurd (clash (rw e at h))
  | inr e ↦ rw e refl
]
  where
    clash : running ≡ pending → ⊥
    clash e = cc

out-is_claimable : (j : RecommendationJob) → is_claimable (out j) ≡ true
unfolding is_claimable
out-is_claimable j = refl

Elem-hand_out :
    (j : RecommendationJob) (ids : List ℕ) (jobs : List RecommendationJob)
    → Elem j (hand_out ids jobs)
    → (k : RecommendationJob) × Elem k jobs × (j ≡ handed ids k)
unfolding hand_out
Elem-hand_out j ids [] e = absurd e
Elem-hand_out j ids (k ∷ jobs) (inl same) = (k, inl refl, same)
Elem-hand_out j ids (k ∷ jobs) (inr later) =
    let (l, there, same) = Elem-hand_out j ids jobs later in (l, inr there, same)

Elem-hand_out_intro :
    (j : RecommendationJob) (ids : List ℕ) (jobs : List RecommendationJob)
    → Elem j jobs
    → handed ids j ≡ j
    → Elem j (hand_out ids jobs)
unfolding hand_out
Elem-hand_out_intro j ids [] e same = absurd e
Elem-hand_out_intro j ids (k ∷ jobs) (inl here) same = inl (sym same ∙ ap (handed ids) here)
Elem-hand_out_intro j ids (k ∷ jobs) (inr later) same =
    inr (Elem-hand_out_intro j ids jobs later same)

same_id-same :
    (j k : RecommendationJob) (jobs : List RecommendationJob)
    → IsDistinct (map id_of jobs)
    → Elem j jobs
    → Elem k jobs
    → j.id ≡ k.id
    → j ≡ k
same_id-same j k [] d a b e = absurd a
same_id-same j k (l ∷ jobs) d (inl a) (inl b) e = a ∙ sym b
same_id-same j k (l ∷ jobs) d (inl a) (inr b) e =
    let there = elem-map_id k jobs b in
    let same : k.id ≡ l.id = sym e ∙ ap id_of a in absurd (ground (arith, d.0))
same_id-same j k (l ∷ jobs) d (inr a) (inl b) e =
    let there = elem-map_id j jobs a in
    let same : j.id ≡ l.id = e ∙ ap id_of b in absurd (ground (arith, d.0))
same_id-same j k (l ∷ jobs) d (inr a) (inr b) e = same_id-same j k jobs d.1 a b e

rebuild_ids_sound :
    (locked : ℕ → Bool) (remaining : ℕ) (jobs : List RecommendationJob) (id : ℕ)
    → elem id (rebuild_ids locked remaining jobs) ≡ true
    → (j : RecommendationJob) × Elem j jobs
      × (j.id ≡ id)
      × (is_due locked similarity_rebuild j ≡ true)
unfolding rebuild_ids
rebuild_ids_sound locked remaining jobs id e = elim (Bool-cases (ltb 0 remaining)) [
  | inl some_left ↦
      pending_ids_sound locked similarity_rebuild remaining jobs id (rw some_left at e)
  | inr full ↦ let never : false ≡ true = rw full at e in cc
]

rebuild_ids_limit :
    (locked : ℕ → Bool) (remaining : ℕ) (jobs : List RecommendationJob)
    → length (rebuild_ids locked remaining jobs) ≤ remaining
unfolding rebuild_ids
rebuild_ids_limit locked remaining jobs = elim (Bool-cases (ltb 0 remaining)) [
  | inl some_left ↦ rw some_left (pending_ids_limit locked similarity_rebuild remaining jobs)
  | inr full ↦ rw full (omega arith)
]

rebuild_ids_complete :
    (locked : ℕ → Bool) (remaining : ℕ) (jobs : List RecommendationJob) (j : RecommendationJob)
    → Elem j jobs
    → is_due locked similarity_rebuild j ≡ true
    → (elem j.id (rebuild_ids locked remaining jobs) ≡ true)
      ⊎ (length (rebuild_ids locked remaining jobs) ≡ remaining)
unfolding rebuild_ids
rebuild_ids_complete locked remaining jobs j there due = elim (Bool-cases (ltb 0 remaining)) [
  | inl some_left ↦
      rw some_left (pending_ids_complete locked similarity_rebuild remaining jobs j there due)
  | inr full ↦ rw full (inr (ground arith))
]

-- The job was due, and is now handed out: a worker that runs it can claim it.
abbrev pub IsHandedOut :
    (ℕ → Bool) → JobType → ℕ → List RecommendationJob → List RecommendationJob → Type 0
IsHandedOut locked type id jobs jobs' =
    (j : RecommendationJob) × (job_of id type jobs ≡ some j)
    × (is_due locked type j ≡ true)
    × (job_of id type jobs' ≡ some (out j))
    × (is_claimable (out j) ≡ true)

module _ (locked then_locked : ℕ → Bool) (limit : ℕ) (db : Db)
    (distinct : IsDistinct (map id_of db.jobs)) where
  abbrev refreshes : List ℕ
  refreshes = pending_ids locked user_refresh limit db.jobs

  abbrev between : List RecommendationJob
  between = hand_out refreshes db.jobs

  abbrev rebuilds : List ℕ
  rebuilds = rebuild_ids then_locked (limit - length refreshes) between

  found_after :
      (id : ℕ) (type : JobType) (j : RecommendationJob)
      → job_of id type db.jobs ≡ some j
      → job_of id type (hand_out rebuilds between) ≡ some (handed rebuilds (handed refreshes j))
  found_after id type j h =
      job_of-hand_out id type rebuilds between
      ∙ ap (map_job (handed rebuilds)) (job_of-hand_out id type refreshes db.jobs)
      ∙ ap (λ o. map_job (handed rebuilds) (map_job (handed refreshes) o)) h

  found_before :
      (id : ℕ) (type : JobType) (j : RecommendationJob)
      → Elem j db.jobs
      → j.id ≡ id
      → j.job_type ≡ type
      → job_of id type db.jobs ≡ some j
  found_before id type j there same_id same_type =
      ap (λ i. job_of i type db.jobs) (sym same_id)
      ∙ ap (λ t. job_of j.id t db.jobs) (sym same_type)
      ∙ job_of-Elem j db.jobs distinct there

  refreshes_out :
      (id : ℕ)
      → elem id refreshes ≡ true
      → IsHandedOut locked user_refresh id db.jobs (hand_out rebuilds between)
  refreshes_out id e =
      let (j, there, same, due) = pending_ids_sound locked user_refresh limit db.jobs id e in
      let (type, status) = is_due-fields locked user_refresh j due in
      let found = found_before id user_refresh j there same type in
      let marked = handed_in refreshes j (ap (λ i. elem i refreshes) same ∙ e) status in
      (
        j,
        found,
        due,
        found_after id user_refresh j found
            ∙ ap (λ k. some (handed rebuilds k)) marked
            ∙ ap some (handed_again rebuilds j),
        out-is_claimable j,
      )

  rebuilds_out :
      (id : ℕ)
      → elem id rebuilds ≡ true
      → IsHandedOut then_locked similarity_rebuild id db.jobs (hand_out rebuilds between)
  rebuilds_out id e =
      let (k, among, same, due) =
        rebuild_ids_sound then_locked (limit - length refreshes) between id e in
      let (type, status) = is_due-fields then_locked similarity_rebuild k due in
      let (j, there, made) = Elem-hand_out k refreshes db.jobs among in
      let kept = handed-pending refreshes j (ap (λ q. q.status) (sym made) ∙ status) in
      let alike : k ≡ j = made ∙ kept in
      let found =
        found_before id similarity_rebuild j there (ap (λ q. q.id) (sym alike) ∙ same)
          (ap (λ q. q.job_type) (sym alike) ∙ type) in
      let marked =
        handed_in rebuilds j (ap (λ i. elem i rebuilds) (ap (λ q. q.id) (sym alike) ∙ same) ∙ e)
          (ap (λ q. q.status) (sym alike) ∙ status) in
      (
        j,
        found,
        ap (is_due then_locked similarity_rebuild) (sym alike) ∙ due,
        found_after id similarity_rebuild j found
            ∙ ap (λ q. some (handed rebuilds q)) kept
            ∙ ap some marked,
        out-is_claimable j,
      )

  -- One round returns how many messages it sent, at most the limit. Each message is about a job
  -- that was due (of its type, pending, with a user if it is a refresh, not locked) and that is
  -- now running and not begun, so the worker that gets the message can claim it.
  pub process_pending_recommendation_jobs_out :
      let round = process_pending_recommendation_jobs locked then_locked limit db in
      (round.count ≤ limit)
      × (round.count ≡ length round.refreshes + length round.rebuilds)
      × ((id : ℕ)
          → elem id round.refreshes ≡ true
          → IsHandedOut locked user_refresh id db.jobs round.db.jobs)
      × ((id : ℕ)
          → elem id round.rebuilds ≡ true
          → IsHandedOut then_locked similarity_rebuild id db.jobs round.db.jobs)
  unfolding process_pending_recommendation_jobs
  process_pending_recommendation_jobs_out =
      let few = pending_ids_limit locked user_refresh limit db.jobs in
      let then_few = rebuild_ids_limit then_locked (limit - length refreshes) between in
      let total = length-append refreshes rebuilds in
      (omega arith, total, refreshes_out, rebuilds_out)

  rebuild_not_refresh :
      (j : RecommendationJob)
      → Elem j db.jobs
      → j.job_type ≡ similarity_rebuild
      → elem j.id refreshes ≡ false
  rebuild_not_refresh j there type = elim (Bool-cases (elem j.id refreshes)) [
    | inr e ↦ e
    | inl e ↦
        let (k, among, same, due) = pending_ids_sound locked user_refresh limit db.jobs j.id e in
        let alike = same_id-same k j db.jobs distinct among there same in
        let refresh = (is_due-fields locked user_refresh k due).0 in
        absurd (clash (sym refresh ∙ ap (λ q. q.job_type) alike ∙ type))
  ]
    where
      clash : user_refresh ≡ similarity_rebuild → ⊥
      clash e = cc

  -- A job that is due is left out only when the round is full: refreshes fill it before rebuilds.
  -- A job that is named in no message is as it was.
  pub process_pending_recommendation_jobs_complete :
      let round = process_pending_recommendation_jobs locked then_locked limit db in
      ((j : RecommendationJob)
        → Elem j db.jobs
        → is_due locked user_refresh j ≡ true
        → (elem j.id round.refreshes ≡ true) ⊎ (length round.refreshes ≡ limit))
      × ((j : RecommendationJob)
          → Elem j db.jobs
          → is_due then_locked similarity_rebuild j ≡ true
          → (elem j.id round.rebuilds ≡ true) ⊎ (round.count ≡ limit))
      × ((j : RecommendationJob)
          → Elem j db.jobs
          → elem j.id round.refreshes ≡ false
          → elem j.id round.rebuilds ≡ false
          → job_of j.id j.job_type round.db.jobs ≡ some j)
  unfolding process_pending_recommendation_jobs
  process_pending_recommendation_jobs_complete = (
    λ j there due. pending_ids_complete locked user_refresh limit db.jobs j there due,
    λ j there due.
        let type = (is_due-fields then_locked similarity_rebuild j due).0 in
        let kept = handed_out refreshes j (rebuild_not_refresh j there type) in
        let few = pending_ids_limit locked user_refresh limit db.jobs in
        let total = length-append refreshes rebuilds in
        elim (rebuild_ids_complete then_locked (limit - length refreshes) between j
          (Elem-hand_out_intro j refreshes db.jobs there kept) due) [
            | inl taken ↦ inl taken
            | inr full ↦ inr (omega arith)
          ],
    λ j there not_first not_then.
        found_after j.id j.job_type j (job_of-Elem j db.jobs distinct there)
        ∙ ap (λ q. some (handed rebuilds q)) (handed_out refreshes j not_first)
        ∙ ap some (handed_out rebuilds j not_then),
  )
