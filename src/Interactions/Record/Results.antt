-- ===== src/Interactions/Record/Results.antt =====
-- What a recorded interaction leaves in the log, and that a repeat within the cooldown leaves none.
use gechu_backend.Base.{
  ℕ, ◌+◌, ◌*◌, ◌≡◌, refl, ◌∙◌, sym, subst, ◌≤◌, ◌<◌, Bool, true, false, Option, none, some, String,
  string_eq_refl, [], ◌∷◌, ◌++◌, filter, length, All, arith, Bool-cases, Option-cases, inl, inr,
}
use gechu_backend.Base.Int.{ℤ, pos_part}
use gechu_backend.Core.Errors.{api, validation_error, Result, ok, err}
use gechu_backend.Core.Exec.{roll_back}
use gechu_backend.Models.{Db}
use gechu_backend.Models.User.{User as UserRow}
use gechu_backend.Models.Interaction.{
  ActionType, view, search, saved_add, saved_remove, like, dislike, preference_set, store_click,
  unlisted, SourceType, InteractionLog, InteractionWeightRule, InteractionContextRule,
}
use gechu_backend.Recommendations.Status.Latest.{first-sort_by_append}
use gechu_backend.Interactions.Record.{
  action_eq, source_eq, asks_store, asks_query, view_request, Request, Context, is_reusable,
  is_repeat, dumps_fails, weight_rule_of, context_rule_of, user_of, latest_reusable_log,
  within_cooldown, reused, weight_of, fits, new_log, create_log, reuse_or_create,
  record_interaction, record_view_interaction,
}

-- What a call may have done: an error changes nothing; a log that is reused is the latest one of the
-- kind, within the cooldown of the rule; a new log is appended, with the weight by the rules and
-- the number of repeats before it.
abbrev pub IsRecorded : Context → Request → Db → Result (InteractionLog × Bool) × Db → Type 0
IsRecorded ctx r db (err e, db') = db' ≡ db
IsRecorded ctx r db (ok (log, false), db') =
    (db' ≡ db)
    × (w : InteractionWeightRule) × (weight_rule_of r.type db ≡ some w)
    × (latest_reusable_log r db ≡ some log)
    × (within_cooldown ctx.now w.cooldown_seconds log ≡ true)
IsRecorded ctx r db (ok (log, true), db') =
    (db' ≡ record db { interaction_logs = db.interaction_logs ++ log ∷ [] })
    × (w : InteractionWeightRule) × (c : InteractionContextRule) × (weight_rule_of r.type db
        ≡ some w)
    × (context_rule_of r.source db ≡ some c)
    × ((u : UserRow) × (user_of r.user_id db ≡ some u))
    × (reused ctx.now w.cooldown_seconds (latest_reusable_log r db) ≡ none)
    × (log ≡ new_log ctx r (weight_of w c (length (filter (is_repeat r) db.interaction_logs))))

reused_hit :
    (now : ℕ) (cooldown : ℤ) (latest : Option InteractionLog) (log : InteractionLog)
    → reused now cooldown latest ≡ some log
    → (latest ≡ some log) × (within_cooldown now cooldown log ≡ true)
unfolding reused
reused_hit now cooldown none log h = cc
reused_hit now cooldown (some l) log h = elim (Bool-cases (within_cooldown now cooldown l)) [
  | inl e ↦
      let same : some l ≡ some log = rw e at h in let alike : l ≡ log = cc in (same, rw (← alike) e)
  | inr e ↦ let never : none ≡ some log = rw e at h in cc
]

module _ (ctx : Context) (r : Request) (db : Db) where
  module _ (w : InteractionWeightRule) (c : InteractionContextRule)
      (weighed : weight_rule_of r.type db ≡ some w) (placed : context_rule_of r.source db ≡ some c)
      (u : UserRow) (known : user_of r.user_id db ≡ some u) where
    reuse_or_create-IsRecorded :
        (found : Option InteractionLog)
        → reused ctx.now w.cooldown_seconds (latest_reusable_log r db) ≡ found
        → IsRecorded ctx r db (roll_back db (reuse_or_create ctx r w c found db))
    unfolding reuse_or_create create_log
    reuse_or_create-IsRecorded (some log) h =
        let (latest, near) =
          reused_hit ctx.now w.cooldown_seconds (latest_reusable_log r db) log h in
        (refl, w, weighed, latest, near)
    reuse_or_create-IsRecorded none h =
        let weight = weight_of w c (length (filter (is_repeat r) db.interaction_logs)) in
        elim (Bool-cases (fits weight)) [
          | inl e ↦ rw e (refl, w, c, weighed, placed, (u, known), h, refl)
          | inr e ↦ rw e refl
        ]

  -- From the rules on, a call records as it should or changes nothing.
  record_interaction-IsRecorded : IsRecorded ctx r db (record_interaction ctx r db)
  unfolding record_interaction
  record_interaction-IsRecorded = elim (Option-cases (weight_rule_of r.type db)) [
    | inl e ↦ rw e refl
    | inr (w, weighed) ↦ elim (Option-cases (context_rule_of r.source db)) [
      | inl e ↦ rw weighed (rw e refl)
      | inr (c, placed) ↦ elim (Option-cases (user_of r.user_id db)) [
        | inl e ↦ rw weighed (rw placed (rw e refl))
        | inr (u, known) ↦ rw weighed (
            rw placed (
              rw known (
                reuse_or_create-IsRecorded w c weighed placed u known
                  (reused ctx.now w.cooldown_seconds (latest_reusable_log r db)) refl)))
      ]
    ]
  ]

action_eq_refl : (a : ActionType) → action_eq a a ≡ true
action_eq_refl (unlisted text) = string_eq_refl text
action_eq_refl view = refl
action_eq_refl search = refl
action_eq_refl saved_add = refl
action_eq_refl saved_remove = refl
action_eq_refl like = refl
action_eq_refl dislike = refl
action_eq_refl preference_set = refl
action_eq_refl store_click = refl

source_eq_refl : (s : SourceType) → source_eq s s ≡ true
source_eq_refl s = ground arith

asks_store_refl : (o : Option ℕ) → asks_store o o ≡ true
asks_store_refl o = ground arith

asks_query_refl : (o : Option String) → asks_query o o ≡ true
asks_query_refl none = refl
asks_query_refl (some q) = string_eq_refl q

new_log-is_reusable :
    (ctx : Context) (r : Request) (weight : ℤ) → is_reusable r (new_log ctx r weight) ≡ true
unfolding is_reusable
new_log-is_reusable ctx r weight = rw (asks_store_refl r.store) (
    rw (action_eq_refl r.type)
      (rw (source_eq_refl r.source) (rw (asks_query_refl r.search_query) (ground arith))))

latest-new_log :
    (ctx : Context) (r : Request) (weight : ℤ) (db : Db)
    → All (λ l. l.created_at < ctx.created_at) db.interaction_logs
    → latest_reusable_log r
        (record db { interaction_logs = db.interaction_logs ++ new_log ctx r weight ∷ [] })
      ≡ some (new_log ctx r weight)
unfolding latest_reusable_log
latest-new_log ctx r weight db h =
    first-sort_by_append (λ l. l.created_at) (is_reusable r) (new_log ctx r weight)
      db.interaction_logs h (new_log-is_reusable ctx r weight)

-- The test of the cooldown holds for a clock up to the end of the cooldown.
within :
    (now : ℕ) (cooldown : ℤ) (l : InteractionLog)
    → 0 < pos_part cooldown
    → now ≤ l.created_at + pos_part cooldown * 1000000
    → within_cooldown now cooldown l ≡ true
within now cooldown l some_time early = ground arith

module _ (ctx later : Context) (r : Request) (db : Db) where
  -- After a new log, the same request within the cooldown is given that log again.
  record_interaction_again :
      (log : InteractionLog) (db' : Db) (w : InteractionWeightRule)
      → IsRecorded ctx r db (ok (log, true), db')
      → All (λ l. l.created_at < ctx.created_at) db.interaction_logs
      → weight_rule_of r.type db ≡ some w
      → 0 < pos_part w.cooldown_seconds
      → later.now ≤ ctx.created_at + pos_part w.cooldown_seconds * 1000000
      → record_interaction later r db' ≡ (ok (log, false), db')
  unfolding record_interaction reused reuse_or_create
  record_interaction_again log db' w (same, v, c, weighed, placed, (u, known), fresh, made) older
        rule some_time early =
      let weight = weight_of v c (length (filter (is_repeat r) db.interaction_logs)) in
      let latest = latest-new_log ctx r weight db older in
      let near = within later.now w.cooldown_seconds (new_log ctx r weight) some_time early in
      rw same (rw made (rw rule (rw placed (rw known (rw latest (rw near refl))))))

record_view_interaction-ok :
    (ctx : Context) (user game : ℕ) (source : SourceType) (metadata : Option (Option String))
    (db : Db)
    → dumps_fails metadata ≡ false
    → record_view_interaction ctx user game source metadata db
      ≡ record_interaction ctx (view_request user game source metadata) db
unfolding record_view_interaction
record_view_interaction-ok ctx user game source metadata db e = rw e refl

record_view_interaction-invalid :
    (ctx : Context) (user game : ℕ) (source : SourceType) (metadata : Option (Option String))
    (db : Db)
    → dumps_fails metadata ≡ true
    → record_view_interaction ctx user game source metadata db ≡ (err (api validation_error), db)
unfolding record_view_interaction
record_view_interaction-invalid ctx user game source metadata db e = rw e refl

-- A view that was logged as new is not logged again within the cooldown of an active rule: if the
-- new row is later than all before it, every later view of the game by the user from the same
-- source, up to the end of the cooldown, returns the same log as not new and writes nothing.
pub record_view_interaction_again :
    (ctx later : Context) (user game : ℕ) (source : SourceType) (metadata : Option (Option String))
    (log : InteractionLog) (w : InteractionWeightRule) (db db' : Db)
    → record_view_interaction ctx user game source metadata db ≡ (ok (log, true), db')
    → All (λ l. l.created_at < ctx.created_at) db.interaction_logs
    → weight_rule_of view db ≡ some w
    → 0 < pos_part w.cooldown_seconds
    → later.now ≤ ctx.created_at + pos_part w.cooldown_seconds * 1000000
    → record_view_interaction later user game source metadata db' ≡ (ok (log, false), db')
record_view_interaction_again ctx later user game source metadata log w db db' once older rule
      some_time early =
    let r = view_request user game source metadata in
    elim (Bool-cases (dumps_fails metadata)) [
      | inl e ↦
          let invalid = record_view_interaction-invalid ctx user game source metadata db e in
          absurd (clash (record_view_interaction ctx user game source metadata db) invalid once)
      | inr e ↦
          let taken = sym (record_view_interaction-ok ctx user game source metadata db e) ∙ once in
          let recorded =
            subst (IsRecorded ctx r db) taken (record_interaction-IsRecorded ctx r db) in
          record_view_interaction-ok later user game source metadata db' e
          ∙ record_interaction_again ctx later r db log db' w recorded older rule some_time early
    ]
  where
    clash :
        (p : Result (InteractionLog × Bool) × Db)
        → p ≡ (err (api validation_error), db)
        → p ≡ (ok (log, true), db')
        → ⊥
    clash p e f = cc
