-- ===== src/Recommendations/Schedule/Pick.antt =====
-- Which jobs one query of the scheduler takes, and what the update makes of them.
use gechu_backend.Base.{
  length-map, ℕ, zero, suc, ◌≡◌, refl, ◌∙◌, ap, sym, ◌⊎◌, ◌≤◌, Bool, true, some, List, [], ◌∷◌, map,
  filter, take, length, length-take-le, elem, Elem, Elem-take, IsDistinct, arith, ◌==◌, Bool-cases,
  inl, inr,
}
use gechu_backend.Base.Sort.{sort_by, ascending, Elem-sort_by, Elem-sort_by_intro}
use gechu_backend.Models.Recommendation.{
  RecommendationJob, JobType, user_refresh, similarity_rebuild,
}
use gechu_backend.Recommendations.Job.{type_eq, job_of}
use gechu_backend.Recommendations.Job.Claim.{map_job}
use gechu_backend.Recommendations.Status.{created}
use gechu_backend.Recommendations.Schedule.{is_due, id_of, pending_ids, handed, hand_out}

module _ {A : Type 0} where
  -- What `take` leaves out, it leaves out because it is full.
  Elem-take_or_full :
      (a : A) (n : ℕ) (xs : List A) → Elem a xs → Elem a (take n xs) ⊎ (length (take n xs) ≡ n)
  Elem-take_or_full a zero xs e = inr refl
  Elem-take_or_full a (suc n) [] e = absurd e
  Elem-take_or_full a (suc n) (x ∷ xs) (inl same) = inl (inl same)
  Elem-take_or_full a (suc n) (x ∷ xs) (inr later) = elim (Elem-take_or_full a n xs later) [
    | inl kept ↦ inl (inr kept)
    | inr full ↦ inr (ap suc full)
  ]

  Elem-filter :
      (p : A → Bool) (a : A) (xs : List A) → Elem a (filter p xs) → Elem a xs × (p a ≡ true)
  Elem-filter p a [] e = absurd e
  Elem-filter p a (x ∷ xs) e = elim (Bool-cases (p x)) [
    | inl passes ↦ elim (rw passes at e) [
      | inl same ↦ (inl same, ap p same ∙ passes)
      | inr later ↦ let (there, holds) = Elem-filter p a xs later in (inr there, holds)
    ]
    | inr fails ↦ let (there, holds) = Elem-filter p a xs (rw fails at e) in (inr there, holds)
  ]

  Elem-filter_intro :
      (p : A → Bool) (a : A) (xs : List A) → Elem a xs → p a ≡ true → Elem a (filter p xs)
  Elem-filter_intro p a [] e holds = absurd e
  Elem-filter_intro p a (x ∷ xs) (inl same) holds =
      let passes : p x ≡ true = ap p (sym same) ∙ holds in rw passes (inl same)
  Elem-filter_intro p a (x ∷ xs) (inr later) holds = elim (Bool-cases (p x)) [
    | inl passes ↦ rw passes (inr (Elem-filter_intro p a xs later holds))
    | inr fails ↦ rw fails (Elem-filter_intro p a xs later holds)
  ]

pub elem-map_id :
    (j : RecommendationJob) (jobs : List RecommendationJob)
    → Elem j jobs
    → elem j.id (map id_of jobs) ≡ true
elem-map_id j [] e = absurd e
elem-map_id j (k ∷ jobs) (inl same) = let same_id : j.id ≡ k.id = ap id_of same in ground arith
elem-map_id j (k ∷ jobs) (inr later) = ground (arith, elem-map_id j jobs later)

elem-map_id_sound :
    (id : ℕ) (jobs : List RecommendationJob)
    → elem id (map id_of jobs) ≡ true
    → (j : RecommendationJob) × Elem j jobs × (j.id ≡ id)
elem-map_id_sound id [] e = cc
elem-map_id_sound id (k ∷ jobs) e = elim (Bool-cases (id == k.id)) [
  | inl same ↦ (k, inl refl, ground arith)
  | inr other ↦
      let (j, there, same) = elem-map_id_sound id jobs (rw other at e) in (j, inr there, same)
]

module _ (locked : ℕ → Bool) (type : JobType) (limit : ℕ) (jobs : List RecommendationJob) where
  pub pending_ids_limit : length (pending_ids locked type limit jobs) ≤ limit
  unfolding pending_ids
  pending_ids_limit =
      let due = sort_by (ascending created) (filter (is_due locked type) jobs) in
      rw (length-map id_of (take limit due)) (length-take-le limit due)

  -- A job that is due is taken, or the limit is reached.
  pub pending_ids_complete :
      (j : RecommendationJob)
      → Elem j jobs
      → is_due locked type j ≡ true
      → (elem j.id (pending_ids locked type limit jobs) ≡ true)
        ⊎ (length (pending_ids locked type limit jobs) ≡ limit)
  unfolding pending_ids
  pending_ids_complete j there due =
      let rows = filter (is_due locked type) jobs in
      let sorted = sort_by (ascending created) rows in
      elim (Elem-take_or_full j limit sorted (
        Elem-sort_by_intro (ascending created) j rows
          (Elem-filter_intro (is_due locked type) j jobs there due))) [
            | inl kept ↦ inl (elem-map_id j (take limit sorted) kept)
            | inr full ↦ inr (length-map id_of (take limit sorted) ∙ full)
          ]

  -- What is taken is due.
  pub pending_ids_sound :
      (id : ℕ)
      → elem id (pending_ids locked type limit jobs) ≡ true
      → (j : RecommendationJob) × Elem j jobs × (j.id ≡ id) × (is_due locked type j ≡ true)
  unfolding pending_ids
  pending_ids_sound id e =
      let rows = filter (is_due locked type) jobs in
      let sorted = sort_by (ascending created) rows in
      let (j, there, same) = elem-map_id_sound id (take limit sorted) e in
      let kept =
        Elem-filter (is_due locked type) j jobs
          (Elem-sort_by (ascending created) j rows (Elem-take j limit sorted there)) in
      (j, kept.0, same, kept.1)

-- A job that is in the table is found by its id, since the ids differ.
pub job_of-Elem :
    (j : RecommendationJob) (jobs : List RecommendationJob)
    → IsDistinct (map id_of jobs)
    → Elem j jobs
    → job_of j.id j.job_type jobs ≡ some j
job_of-Elem j [] d e = absurd e
job_of-Elem j (k ∷ jobs) d (inl same) =
    rw (← same) (rw (own_id j.id) (rw (type_eq_refl j.job_type) refl))
  where
    own_id : (n : ℕ) → (n == n) ≡ true
    own_id n = ground arith

    type_eq_refl : (t : JobType) → type_eq t t ≡ true
    type_eq_refl user_refresh = refl
    type_eq_refl similarity_rebuild = refl
job_of-Elem j (k ∷ jobs) d (inr later) =
    let there = elem-map_id j jobs later in
    elim (Bool-cases (j.id == k.id)) [
      | inl same ↦ let same_id : j.id ≡ k.id = ground arith in absurd (ground (arith, d.0))
      | inr other ↦ rw other (job_of-Elem j jobs d.1 later)
    ]

handed-fields :
    (ids : List ℕ) (j : RecommendationJob)
    → ((handed ids j).id ≡ j.id) × ((handed ids j).job_type ≡ j.job_type)
unfolding handed
handed-fields ids j = ground arith

pub job_of-hand_out :
    (id : ℕ) (type : JobType) (ids : List ℕ) (jobs : List RecommendationJob)
    → job_of id type (hand_out ids jobs) ≡ map_job (handed ids) (job_of id type jobs)
unfolding hand_out
job_of-hand_out id type ids [] = refl
job_of-hand_out id type ids (j ∷ jobs) =
    ground (arith, handed-fields ids j, job_of-hand_out id type ids jobs)
